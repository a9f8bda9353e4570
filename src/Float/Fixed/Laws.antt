-- ===== src/Float/Fixed/Laws.antt =====
-- The fixed-point numbers meet the laws that theorems ask of `float`.
use bookie_breaker_bookie_em.Base.{
  ℕ, suc, ◌+◌, ◌*◌, ◌≤◌, ◌≡◌, refl, true, false, none, some, arith, ltb, leb,
}
use bookie_breaker_bookie_em.Base.Int.{
  ℤ, pos, negsuc, pos_part, neg_part, ltb_ℤ, ◌-ℤ◌, neg_ℤ, int_laws,
}
use bookie_breaker_bookie_em.Float.Defs.{HasSigns, HasOrder, HasTrunc, zero_f}
use bookie_breaker_bookie_em.Float.Fixed.{Fixed, fixed_float, of_int_ℤ, mul_ℤ, trunc_ℤ, to_int}
open fixed_float use {lt, le, add, sub, mul, neg, of_int, beq, trunc}

of_int_parts :
    (a : ℤ)
    → pos_part (of_int_ℤ a) + neg_part a * 10_000 ≡ neg_part (of_int_ℤ a) + pos_part a * 10_000
unfolding of_int_ℤ
of_int_parts a = ground arith

of_int_zero : of_int_ℤ (pos 0) ≡ pos 0
unfolding of_int_ℤ
of_int_zero = refl

-- Two comparisons of the same difference.
ltb_diff : (a b c d : ℕ) → a + d ≡ c + b → ltb a b ≡ ltb c d
ltb_diff a b c d h = ground arith

ltb→lt : (a b : ℕ) → ltb a b ≡ true → a + 1 ≤ b
ltb→lt a b h = ground arith

ruleset parts = (int_laws, of_int_parts)

above_both :
    (m : ℤ) (l : Fixed) → lt zero_f (add (of_int (neg_ℤ m)) (neg l)) ≡ lt (add (of_int m) l) zero_f
above_both m none = refl
above_both m (some l) = rw of_int_zero (ltb_diff _ _ _ _ (omega parts))

below_both :
    (m : ℤ) (l : Fixed) → lt (add (of_int (neg_ℤ m)) (neg l)) zero_f ≡ lt zero_f (add (of_int m) l)
below_both m none = refl
below_both m (some l) = rw of_int_zero (ltb_diff _ _ _ _ (omega parts))

lt_le_trans : (x y z : Fixed) → lt x y ≡ true → le y z ≡ true → lt x z ≡ true
lt_le_trans (some a) (some b) (some c) h k = ground arith
lt_le_trans (some a) (some b) none h k = k
lt_le_trans (some a) none z h k = cc
lt_le_trans none y z h k = cc

le_lt_trans : (x y z : Fixed) → le x y ≡ true → lt y z ≡ true → lt x z ≡ true
le_lt_trans (some a) (some b) (some c) h k = ground arith
le_lt_trans (some a) (some b) none h k = k
le_lt_trans (some a) none z h k = cc
le_lt_trans none y z h k = cc

leb-le : (a b : ℕ) → leb a b ≡ true → a ≤ b
leb-le a b h = ground arith

le-leb : (a b : ℕ) → a ≤ b → leb a b ≡ true
le-leb a b h = ground arith

add_mono : (m : ℤ) (x y : Fixed) → le x y ≡ true → le (add (of_int m) x) (add (of_int m) y) ≡ true
add_mono m (some a) (some b) h = le-leb _ _ (omega (parts, leb-le _ _ h))
add_mono m (some a) none h = h
add_mono m none y h = h

sub_pos : (x y : Fixed) → lt y x ≡ true → lt zero_f (sub x y) ≡ true
sub_pos (some a) (some b) h = rw of_int_zero (
    rw
      (ltb_diff (0 + neg_part (a -ℤ b)) (pos_part (a -ℤ b) + 0) (pos_part b + neg_part a)
        (pos_part a + neg_part b) (omega parts))
      h)
sub_pos none (some b) h = h
sub_pos x none h = cc

mul_pos_ℤ : (a b : ℤ) → ltb_ℤ (pos 0) a ≡ true → ltb_ℤ (pos 0) b ≡ true → neg_part (mul_ℤ a b) ≡ 0
unfolding mul_ℤ
mul_pos_ℤ (pos a) (pos b) h k = refl
mul_pos_ℤ (pos a) (negsuc b) h k = ground arith
mul_pos_ℤ (negsuc a) b h k = ground arith

mul_pos : (x y : Fixed) → lt zero_f x ≡ true → lt zero_f y ≡ true → le zero_f (mul x y) ≡ true
mul_pos (some a) (some b) h k =
    rw of_int_zero
      (le-leb _ _ (omega (arith, mul_pos_ℤ a b (rw of_int_zero at h) (rw of_int_zero at k))))
mul_pos (some a) none h k = k
mul_pos none y h k = cc

above_neg : (x : Fixed) → lt zero_f (neg x) ≡ lt x zero_f
above_neg none = refl
above_neg (some a) = rw of_int_zero (ltb_diff _ _ _ _ (omega parts))

below_neg : (x : Fixed) → lt (neg x) zero_f ≡ lt zero_f x
below_neg none = refl
below_neg (some a) = rw of_int_zero (ltb_diff _ _ _ _ (omega parts))

zero_neg : (x : Fixed) → beq (neg x) zero_f ≡ beq x zero_f
unfolding neg_ℤ
zero_neg none = refl
zero_neg (some a) = rw of_int_zero (ground arith)

lt_asym : (x y : Fixed) → lt x y ≡ true → lt y x ≡ false
lt_asym (some a) (some b) h = ground arith
lt_asym (some a) none h = refl
lt_asym none y h = cc

lt-le : (x y : Fixed) → lt x y ≡ true → le x y ≡ true
lt-le (some a) (some b) h = ground arith
lt-le (some a) none h = h
lt-le none y h = h

neg_pos : (x : Fixed) → lt zero_f x ≡ true → lt (neg x) zero_f ≡ true
neg_pos x h = rw below_neg h

pub Fixed-HasSigns : HasSigns Fixed
Fixed-HasSigns = record {
  above_neg = above_neg;
  below_neg = below_neg;
  above_both = above_both;
  below_both = below_both;
  above_zero = λ m. rw of_int_zero (ltb_diff _ _ _ _ (omega parts));
  below_zero = λ m. rw of_int_zero (ltb_diff _ _ _ _ (omega parts));
  zero_neg = zero_neg;
  lt_asym = lt_asym;
}

pub Fixed-HasOrder : HasOrder Fixed
Fixed-HasOrder = record {
  lt-le = lt-le;
  lt_le_trans = lt_le_trans;
  le_lt_trans = le_lt_trans;
  le_refl_zero = rw of_int_zero refl;
  add_mono = add_mono;
  sub_pos = sub_pos;
  mul_pos = mul_pos;
  neg_pos = neg_pos;
}

trunc_pos : (x : Fixed) → le zero_f x ≡ true → neg_part (trunc x) ≡ 0
unfolding trunc_ℤ to_int of_int_ℤ
trunc_pos none h = cc
trunc_pos (some (pos n)) h = refl
trunc_pos (some (negsuc n)) h = absurd (ground arith)

of_int_pos : (n : ℕ) → lt zero_f (of_int (pos (suc n))) ≡ true
unfolding of_int_ℤ
of_int_pos n = ground arith

pub Fixed-HasTrunc : HasTrunc Fixed
Fixed-HasTrunc = record { trunc_pos = trunc_pos; of_int_pos = of_int_pos }
