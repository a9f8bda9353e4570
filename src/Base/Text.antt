-- ===== src/Base/Text.antt =====
-- Python text: `str`, its truth value, and integers printed in decimal.
use Prim.Native.Nat.{ℕ, zero, suc, ◌/◌, ◌%◌, lt, eq, gt}
use Prim.Native.String
use Prim.Native.String.{String, compare}
use mathlib.Core.Bool.{Bool, true, false}
use mathlib.Core.List.{List, [], ◌∷◌}
use mathlib.Core.Option.{Option, none, some}
pub use text.Mathlib.Text.{◌==◌ as str_eq}
pub use text.Mathlib.TextEquality.{eq_iff}
use bookie_breaker_bookie_em.Base.Tests.{ltb, if◌then◌else◌}
use bookie_breaker_bookie_em.Base.Lists.{get_or}

infixr 60 ◌<>◌
abbrev pub ◌<>◌ : String → String → String
s <> t = String.◌++◌ s t

-- `text or fallback`: `None` and the empty text are false.
abbrev pub or_text : Option String → String → String
or_text none fallback = fallback
or_text (some s) fallback = if str_eq s "" then fallback else s

-- `not text`
abbrev pub is_blank : Option String → Bool
is_blank none = true
is_blank (some s) = str_eq s ""

-- `a < b` on texts
abbrev pub earlier : String → String → Bool
earlier a b = elim (compare a b) [ lt ↦ true | eq ↦ false | gt ↦ false ]

abbrev digit_names : List String
digit_names = "0" ∷ "1" ∷ "2" ∷ "3" ∷ "4" ∷ "5" ∷ "6" ∷ "7" ∷ "8" ∷ "9" ∷ []

show_from : ℕ → ℕ → String → String
show_from zero n acc = acc
show_from (suc fuel) n acc =
    let here = get_or digit_names (n % 10) "0" <> acc in
    let rest = show_from fuel (n / 10) here in if ltb n 10 then here else rest

-- `str(n)`: a number has at most as many digits as its value, plus one.
unfoldable pub show_ℕ : ℕ → String
unfolding show_from
show_ℕ n = show_from (suc n) n ""
