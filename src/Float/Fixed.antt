-- ===== src/Float/Fixed.antt =====
-- Fixed-point numbers with four decimals and a NaN: a concrete type for tests, which shows that the
-- laws asked of `float` can hold.
pub mod Laws
use bookie_breaker_bookie_em.Base.{
  ℕ, ◌+◌, ◌*◌, ◌/◌, ◌%◌, Bool, true, false, Option, none, some, List, [], ◌∷◌, String, leb, ltb,
  ◌==◌, if◌then◌else◌, ◌<>◌, show_ℕ,
}
use bookie_breaker_bookie_em.Base.Int.{
  ℤ, pos, negsuc, pos_part, neg_part, sub_ℕ, ltb_ℤ, eq_ℤ, ◌+ℤ◌, ◌-ℤ◌, neg_ℤ, show_ℤ,
}
use bookie_breaker_bookie_em.Float.Defs.{Float}

-- `some n` is n / 10000, and `none` is NaN.
abbrev pub Fixed : Type 0
Fixed = Option ℤ

abbrev pub scale : ℕ
scale = 10_000

abbrev lift₂ : (ℤ → ℤ → ℤ) → Fixed → Fixed → Fixed
lift₂ g (some a) (some b) = some (g a b)
lift₂ g _ _ = none

abbrev test₂ : (ℤ → ℤ → Bool) → Fixed → Fixed → Bool
test₂ g (some a) (some b) = g a b
test₂ g _ _ = false

abbrev magnitude : ℤ → ℕ
magnitude a = pos_part a + neg_part a

abbrev is_neg : ℤ → Bool
is_neg (pos n) = false
is_neg (negsuc n) = true

-- a magnitude with the sign that a product of these numbers has
abbrev with_sign : ℤ → ℤ → ℕ → ℤ
with_sign (pos _) (pos _) n = pos n
with_sign (negsuc _) (negsuc _) n = pos n
with_sign _ _ n = sub_ℕ 0 n

unfoldable pub mul_ℤ : ℤ → ℤ → ℤ
mul_ℤ a b = with_sign a b (magnitude a * magnitude b / scale)

unfoldable pub div_ℤ : ℤ → ℤ → ℤ
div_ℤ a b = with_sign a b ((magnitude a * scale * 2 + magnitude b) / (magnitude b * 2))

unfoldable pub of_int_ℤ : ℤ → ℤ
of_int_ℤ a = sub_ℕ (pos_part a * scale) (neg_part a * scale)

-- to a multiple of `unit`, ties to even
round_ℕ : ℕ → ℕ → ℕ
round_ℕ unit n =
    let q = n / unit in
    let r = n % unit * 2 in
    if ltb r unit then q else if ltb unit r then q + 1 else if q % 2 == 0 then q else q + 1

unfoldable pub round_ℤ : ℤ → ℤ
unfolding round_ℕ
round_ℤ a = with_sign a (pos 1) (round_ℕ scale (magnitude a))

unfoldable pub trunc_ℤ : ℤ → ℤ
trunc_ℤ a = with_sign a (pos 1) (magnitude a / scale)

unfoldable pub to_int : (ℤ → ℤ) → Fixed → ℤ
to_int g none = pos 0
to_int g (some a) = g a

unfoldable pub abs_ℤ : ℤ → ℤ
abs_ℤ a = pos (magnitude a)

unfoldable pub show : Fixed → String
show none = "nan"
show (some a) = show_ℤ a <> "e-4"

abbrev pub sum_fixed : List Fixed → Fixed
sum_fixed [] = some (pos 0)
sum_fixed (x ∷ xs) = lift₂ (◌+ℤ◌) x (sum_fixed xs)

instance abbrev pub fixed_float : Float Fixed
fixed_float = record {
  of_int = λ a. some (of_int_ℤ a);
  add = lift₂ (◌+ℤ◌);
  sub = lift₂ (◌-ℤ◌);
  mul = lift₂ mul_ℤ;
  div = lift₂ div_ℤ;
  neg = λ x. elim x [ none ↦ none | some a ↦ some (neg_ℤ a) ];
  abs = λ x. elim x [ none ↦ none | some a ↦ some (abs_ℤ a) ];
  sum = sum_fixed;
  square = λ x. lift₂ mul_ℤ x x;
  lt = test₂ ltb_ℤ;
  le = test₂ λ a b. leb (pos_part a + neg_part b) (pos_part b + neg_part a);
  beq = test₂ eq_ℤ;
  round = to_int round_ℤ;
  round_to = λ _ x. x;
  trunc = to_int trunc_ℤ;
  plus_g = show;
  general_g = show;
  two_f = show;
}

-- What a test unfolds to compute with these numbers.
unfoldable pub fixed_runs : Unit {0}
unfolding mul_ℤ div_ℤ of_int_ℤ round_ℤ trunc_ℤ to_int abs_ℤ show ◌+ℤ◌ ◌-ℤ◌ neg_ℤ show_ℤ show_ℕ
fixed_runs = tt
