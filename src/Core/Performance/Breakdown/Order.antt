-- ===== src/Core/Performance/Breakdown/Order.antt =====
-- The order of texts, by the numbers of their characters, is a total order.
use Prim.Native.Nat.{Ordering, lt, eq, gt, compare as compare_ℕ}
use Prim.Native.Char.{Char, code}
use Prim.Native.String.{then, compare}
use Prim.Native.String.compare
use bookie_breaker_bookie_em.Base.{
  ◌≡◌, refl, ap, ◌∙◌, Bool, true, false, ◌&&◌, ◌||◌, ◌==◌, ltb, String, earlier, arith,
}
use bookie_breaker_bookie_em.Base.Sorting.{IsOrder}
use bookie_breaker_bookie_em.Core.Performance.Breakdown.{text_le}

abbrev is_lt : Ordering → Bool
is_lt lt = true
is_lt eq = false
is_lt gt = false

abbrev is_same : Ordering → Bool
is_same lt = false
is_same eq = true
is_same gt = false

is_lt-then : (o r : Ordering) → is_lt (then o r) ≡ (is_lt o || (is_same o && is_lt r))
is_lt-then lt r = refl
is_lt-then eq r = refl
is_lt-then gt r = refl

-- The first characters decide, and where they are equal the rest does.
earlier-cons :
    (c d : Char) (s t : String)
    → earlier (String.◌∷◌ c s) (String.◌∷◌ d t)
      ≡ (ltb (code c) (code d) || (code c == code d && earlier s t))
earlier-cons c d s t =
    ap is_lt (compare.cons-cons c d s t) ∙ is_lt-then (compare_ℕ (code c) (code d)) (compare s t)

earlier_nil : (s : String) → earlier s String.[] ≡ false
earlier_nil String.[] = ap is_lt compare.nil-nil
earlier_nil (String.◌∷◌ c s) = ap is_lt (compare.cons-nil c s)

earlier_first : (c : Char) (s : String) → earlier String.[] (String.◌∷◌ c s) ≡ true
earlier_first c s = ap is_lt (compare.nil-cons c s)

-- Of two texts, one at most comes before the other.
not_both : (s t : String) → (earlier s t && earlier t s) ≡ false
not_both String.[] t = ground (arith, earlier_nil t)
not_both (String.◌∷◌ c s) String.[] = ground (arith, earlier_nil (String.◌∷◌ c s))
not_both (String.◌∷◌ c s) (String.◌∷◌ d t) =
    rw (earlier-cons c d s t, earlier-cons d c t s) (ground (arith, not_both s t))

-- A text before which neither comes.
not_earlier_trans :
    (z y x : String) → earlier z y ≡ false → earlier y x ≡ false → earlier z x ≡ false
not_earlier_trans z y String.[] h k = earlier_nil z
not_earlier_trans String.[] String.[] (String.◌∷◌ c s) h k = k
not_earlier_trans String.[] (String.◌∷◌ d t) (String.◌∷◌ c s) h k =
    ground (arith, h, earlier_first d t)
not_earlier_trans (String.◌∷◌ e u) String.[] (String.◌∷◌ c s) h k =
    ground (arith, k, earlier_first c s)
not_earlier_trans (String.◌∷◌ e u) (String.◌∷◌ d t) (String.◌∷◌ c s) h k =
    rw (earlier-cons e c u s) (
      ground (
        arith,
        rw (earlier-cons e d u t) at h,
        rw (earlier-cons d c t s) at k,
        not_earlier_trans u t s,
      ))

pub text_le-IsOrder : IsOrder text_le
text_le-IsOrder = record {
  trans = λ x y z h k. ground (arith, not_earlier_trans z y x, h, k);
  total = λ x y h. ground (arith, not_both x y, h);
}
