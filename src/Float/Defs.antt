-- ===== src/Float/Defs.antt =====
-- The operations of Python's `float` that the program calls, as a parameter of the model, and the
-- laws that theorems take as a hypothesis. Each law holds of IEEE doubles, also of infinities and
-- NaN, with which every comparison is false.
use bookie_breaker_bookie_em.Base.{ℕ, suc, ◌≡◌, Bool, true, false, List, String}
use bookie_breaker_bookie_em.Base.Int.{ℤ, pos, neg_part, neg_ℤ}

pub record Float (W : Type 0) : Type 0 where
  -- an integer where Python converts it: `int + float`, `int / int`
  pub of_int : ℤ → W
  pub add : W → W → W
  pub sub : W → W → W
  pub mul : W → W → W
  -- the program divides only where it has excluded zero
  pub div : W → W → W
  pub neg : W → W
  pub abs : W → W
  -- `sum(xs)`, which adds floats with a compensation, and `x ** 2`
  pub sum : List W → W
  pub square : W → W
  -- `<`, `<=` and `==`
  pub lt : W → W → Bool
  pub le : W → W → Bool
  pub beq : W → W → Bool
  -- `round(x)`, `round(x, n)` and `int(x)`
  pub round : W → ℤ
  pub round_to : ℕ → W → W
  pub trunc : W → ℤ
  -- the formats `:+g`, `:g` and `:.2f`
  pub plus_g : W → String
  pub general_g : W → String
  pub two_f : W → String

module _ {W : Type 0} ⦃f : Float W⦄ where
  -- 0.0, 1.0, 2.0 and 100.0
  abbrev pub zero_f : W
  zero_f = f.of_int (pos 0)

  abbrev pub one_f : W
  one_f = f.of_int (pos 1)

  abbrev pub two_f_const : W
  two_f_const = f.of_int (pos 2)

  abbrev pub hundred_f : W
  hundred_f = f.of_int (pos 100)

  -- `x or 0.0` for an optional number: `None` and both zeros are false.
  abbrev pub or_zero : W → Bool → W
  or_zero x true = zero_f
  or_zero x false = x

-- A sum of an integer and a line changes sign with both; a zero line counts as 0.0.
pub record HasSigns (W : Type 0) ⦃f : Float W⦄ : Type 0 where
  pub above_neg : (x : W) → f.lt zero_f (f.neg x) ≡ f.lt x zero_f
  pub below_neg : (x : W) → f.lt (f.neg x) zero_f ≡ f.lt zero_f x
  pub above_both :
      (m : ℤ) (l : W)
      → f.lt zero_f (f.add (f.of_int (neg_ℤ m)) (f.neg l)) ≡ f.lt (f.add (f.of_int m) l) zero_f
  pub below_both :
      (m : ℤ) (l : W)
      → f.lt (f.add (f.of_int (neg_ℤ m)) (f.neg l)) zero_f ≡ f.lt zero_f (f.add (f.of_int m) l)
  pub above_zero :
      (m : ℤ)
      → f.lt zero_f (f.add (f.of_int (neg_ℤ m)) zero_f) ≡ f.lt (f.add (f.of_int m) zero_f) zero_f
  pub below_zero :
      (m : ℤ)
      → f.lt (f.add (f.of_int (neg_ℤ m)) zero_f) zero_f ≡ f.lt zero_f (f.add (f.of_int m) zero_f)
  pub zero_neg : (x : W) → f.beq (f.neg x) zero_f ≡ f.beq x zero_f
  pub lt_asym : (x y : W) → f.lt x y ≡ true → f.lt y x ≡ false

-- The order is transitive, addition and multiplication follow it, and a product of positive
-- numbers is not negative (it may round to zero).
pub record HasOrder (W : Type 0) ⦃f : Float W⦄ : Type 0 where
  pub lt-le : (x y : W) → f.lt x y ≡ true → f.le x y ≡ true
  pub lt_le_trans : (x y z : W) → f.lt x y ≡ true → f.le y z ≡ true → f.lt x z ≡ true
  pub le_lt_trans : (x y z : W) → f.le x y ≡ true → f.lt y z ≡ true → f.lt x z ≡ true
  pub le_refl_zero : f.le zero_f zero_f ≡ true
  pub add_mono :
      (m : ℤ) (x y : W)
      → f.le x y ≡ true
      → f.le (f.add (f.of_int m) x) (f.add (f.of_int m) y) ≡ true
  pub sub_pos : (x y : W) → f.lt y x ≡ true → f.lt zero_f (f.sub x y) ≡ true
  pub mul_pos :
      (x y : W) → f.lt zero_f x ≡ true → f.lt zero_f y ≡ true → f.le zero_f (f.mul x y) ≡ true
  pub neg_pos : (x : W) → f.lt zero_f x ≡ true → f.lt (f.neg x) zero_f ≡ true

-- `int(x)` of a number that is not negative is not negative, and positive integers convert to
-- positive numbers.
pub record HasTrunc (W : Type 0) ⦃f : Float W⦄ : Type 0 where
  pub trunc_pos : (x : W) → f.le zero_f x ≡ true → neg_part (f.trunc x) ≡ 0
  pub of_int_pos : (n : ℕ) → f.lt zero_f (f.of_int (pos (suc n))) ≡ true
