-- ===== src/Core/Slug.antt =====
-- `slugify_player_name` of core/prop_grading.py, over code points.
use Prim.Native.Char.{code}
use bookie_breaker_bookie_em.Base.{
  ℕ, ◌+◌, Bool, false, not, ◌&&◌, ◌||◌, List, [], ◌∷◌, String, map, leb, ◌==◌, if◌then◌else◌,
}

abbrev pub codes : String → List ℕ
codes String.[] = []
codes (String.◌∷◌ c s) = code c ∷ codes s

-- The NFKD fold to ASCII of Python's unicodedata, with what is not ASCII left out.
pub record Unicode : Type 0 where
  pub ascii_fold : String → List ℕ

-- `str.lower` on ASCII
unfoldable pub to_lower : ℕ → ℕ
to_lower c = if leb b'A' c && leb c b'Z' then c + 32 else c

-- the class [a-z0-9]
abbrev pub is_word : ℕ → Bool
is_word c = (leb b'a' c && leb c b'z') || (leb b'0' c && leb c b'9')

abbrev pub hyphen : ℕ
hyphen = b'-'

-- `_SLUG_RUN.sub("-", s)`: one hyphen for each run of other characters
unfoldable pub collapse : Bool → List ℕ → List ℕ
collapse in_run [] = []
collapse in_run (c ∷ cs) =
    let rest = collapse (not (is_word c)) cs in
    if is_word c then c ∷ rest else if in_run then rest else hyphen ∷ rest

-- `strip("-")`
unfoldable pub strip_left : List ℕ → List ℕ
strip_left [] = []
strip_left (c ∷ cs) = if c == hyphen then strip_left cs else c ∷ cs

abbrev pub hyphen_or_cons : ℕ → List ℕ → List ℕ
hyphen_or_cons c [] = if c == hyphen then [] else c ∷ []
hyphen_or_cons c (d ∷ ds) = c ∷ d ∷ ds

unfoldable pub strip_right : List ℕ → List ℕ
strip_right [] = []
strip_right (c ∷ cs) = hyphen_or_cons c (strip_right cs)

unfoldable pub slug_of : List ℕ → List ℕ
slug_of folded = strip_right (strip_left (collapse false (map to_lower folded)))

unfoldable pub slugify_player_name : Unicode → String → List ℕ
unfolding slug_of to_lower collapse strip_left strip_right
slugify_player_name u name = slug_of (u.ascii_fold name)
