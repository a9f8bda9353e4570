-- ===== src/Core/Props.antt =====
-- core/prop_grading.py: a player's box-score line and the terms of a prop give WON, LOST or PUSH.
pub mod Outcomes
pub mod Decided
use bookie_breaker_bookie_em.Base.{
  ℕ, Bool, true, false, not, ◌||◌, Option, none, some, List, [], ◌∷◌, ◌++◌, String, ◌<>◌, map,
  str_eq, or_text, is_blank, ◌==◌, ◌&&◌, if◌then◌else◌,
}
use bookie_breaker_bookie_em.Base.Int.{ℤ}
use bookie_breaker_bookie_em.Domain.{
  Status, won, lost, push, Side, home, away, draw, over, under, side_yes, side_no, eq_side,
}
use bookie_breaker_bookie_em.Clients.{
  PlayerLine, soccer_line, basketball_line, baseball_line, player_name, TeamBoxScore, BoxScore,
}
use bookie_breaker_bookie_em.Float.{Float, zero_f}
use bookie_breaker_bookie_em.Core.Errors.{Result, ok, err, value_error}
use bookie_breaker_bookie_em.Core.Slug.{Unicode, codes, slugify_player_name}

-- the fields that extractors read
pub data StatField : Type 0 where
  goals assists shots shots_on_target points rebounds three_pointers_made : StatField
  hits total_bases home_runs strikeouts_pitching : StatField

-- an entry of STAT_EXTRACTORS: `_field(name)` or `_pra`
pub data Extractor : Type 0 where
  field_of : StatField → Extractor
  points_rebounds_assists : Extractor

-- `getattr`; `none` is the AttributeError of a sport whose lines lack the field
unfoldable pub stat : PlayerLine → StatField → Option ℤ
stat (soccer_line p) goals = some p.goals
stat (soccer_line p) assists = some p.assists
stat (soccer_line p) shots = some p.shots
stat (soccer_line p) shots_on_target = some p.shots_on_target
stat (basketball_line p) points = some p.points
stat (basketball_line p) rebounds = some p.rebounds
stat (basketball_line p) assists = some p.assists
stat (basketball_line p) three_pointers_made = some p.three_pointers_made
stat (baseball_line p) hits = some p.hits
stat (baseball_line p) total_bases = some p.total_bases
stat (baseball_line p) home_runs = some p.home_runs
stat (baseball_line p) strikeouts_pitching = some p.strikeouts_pitching
stat _ _ = none

abbrev pub get {ℓ} : {A : Type ℓ} → String → List (String × A) → Option A
get k [] = none
get k ((j, v) ∷ rest) = if str_eq j k then some v else get k rest

-- STAT_EXTRACTORS
abbrev pub stat_extractors : List (String × Extractor)
stat_extractors =
    ("player_goal_scorer_anytime", field_of goals)
    ∷ ("player_shots", field_of shots)
    ∷ ("player_shots_on_target", field_of shots_on_target)
    ∷ ("player_points", field_of points)
    ∷ ("player_rebounds", field_of rebounds)
    ∷ ("player_assists", field_of assists)
    ∷ ("player_threes", field_of three_pointers_made)
    ∷ ("player_points_rebounds_assists", points_rebounds_assists)
    ∷ ("batter_hits", field_of hits)
    ∷ ("batter_total_bases", field_of total_bases)
    ∷ ("batter_home_runs", field_of home_runs)
    ∷ ("pitcher_strikeouts", field_of strikeouts_pitching)
    ∷ []

-- _STAT_NOUNS
abbrev stat_nouns : List (String × String)
stat_nouns =
    ("player_goal_scorer_anytime", "goals")
    ∷ ("player_shots", "shots")
    ∷ ("player_shots_on_target", "shots on target")
    ∷ ("player_points", "points")
    ∷ ("player_rebounds", "rebounds")
    ∷ ("player_assists", "assists")
    ∷ ("player_threes", "three-pointers")
    ∷ ("player_points_rebounds_assists", "points+rebounds+assists")
    ∷ ("batter_hits", "hits")
    ∷ ("batter_total_bases", "total bases")
    ∷ ("batter_home_runs", "home runs")
    ∷ ("pitcher_strikeouts", "strikeouts")
    ∷ []

unfoldable pub stat_noun : String → String
stat_noun stat_type = elim (get stat_type stat_nouns) [ none ↦ stat_type | some noun ↦ noun ]

-- the player array of the sport
unfoldable pub team_players : TeamBoxScore → String → List PlayerLine
team_players team sport =
    if str_eq sport "SOCCER"
    then map soccer_line team.soccer_players
    else if str_eq sport "BASKETBALL"
    then map basketball_line team.players
    else if str_eq sport "BASEBALL"
    then map baseball_line team.baseball_players
    else []

eq_codes : List ℕ → List ℕ → Bool
eq_codes [] [] = true
eq_codes (c ∷ cs) (d ∷ ds) = c == d && eq_codes cs ds
eq_codes _ _ = false

unfoldable pub has_slug : Unicode → String → PlayerLine → Bool
unfolding eq_codes
has_slug u slug player = eq_codes (slugify_player_name u (player_name player)) (codes slug)

unfoldable pub first_with_slug : Unicode → String → List PlayerLine → Option PlayerLine
first_with_slug u slug [] = none
first_with_slug u slug (p ∷ ps) = if has_slug u slug p then some p else first_with_slug u slug ps

-- The home team's lines come first.
unfoldable pub find_player_line : Unicode → BoxScore → String → Option PlayerLine
unfolding team_players
find_player_line u box player_slug =
    first_with_slug u player_slug
      (team_players box.home_team box.sport ++ team_players box.away_team box.sport)

module _ {W : Type 0} ⦃f : Float W⦄ where
  add_opt : Option W → Option W → Option W
  add_opt (some x) (some y) = some (f.add x y)
  add_opt _ _ = none

  stat_float : PlayerLine → StatField → Option W
  stat_float line field = elim (stat line field) [ none ↦ none | some n ↦ some (f.of_int n) ]

  -- the extractor's value; `none` where it raises
  unfoldable pub extract : Extractor → PlayerLine → Option W
  unfolding stat_float add_opt
  extract (field_of field) line = stat_float line field
  extract points_rebounds_assists line =
      add_opt (add_opt (stat_float line points) (stat_float line rebounds))
        (stat_float line assists)

  unfoldable pub yes_no_status : Side → W → Status
  yes_no_status side actual =
      let happened = f.lt zero_f actual in
      if (if eq_side side side_yes then happened else not happened) then won else lost

  unfoldable pub over_under_status : Side → W → Status
  over_under_status side over_result =
      if f.lt zero_f over_result
      then (if eq_side side over then won else lost)
      else if f.lt over_result zero_f
      then (if eq_side side under then won else lost)
      else push

  relation : W → String
  relation over_result =
      if f.lt zero_f over_result
      then "over"
      else if f.lt over_result zero_f
      then "under"
      else "push on"

  -- `line_value if line_value is not None else 0.0`
  abbrev pub line_or_none : Option W → W
  line_or_none none = zero_f
  line_or_none (some l) = l

  landed : String → W → Option String → String
  landed stat_type actual player =
      or_text player "Player"
      <> " landed "
      <> f.general_g actual
      <> " "
      <> stat_noun stat_type
      <> ", "

  unfoldable pub grade_player_prop :
      String → String → Side → Option W → W → Option String → Result (Status × String)
  unfolding landed relation
  grade_player_prop stat_type prop_type side line_value actual player =
      let line = line_or_none line_value in
      let yes_no : Result (Status × String) =
        if eq_side side side_yes || eq_side side side_no
        then ok (
          yes_no_status side actual,
          landed stat_type actual player
              <> (if f.lt zero_f actual then "YES" else "NO")
              <> " settles",
        )
        else err value_error in
      let over_under : Result (Status × String) =
        if eq_side side over || eq_side side under
        then ok (
          over_under_status side (f.sub actual line),
          landed stat_type actual player <> relation (f.sub actual line) <> " " <> f.general_g line,
        )
        else err value_error in
      if str_eq prop_type "YES_NO"
      then yes_no
      else if str_eq prop_type "OVER_UNDER"
      then over_under
      else err value_error

-- The reasons for which a prop cannot be graded.
pub data Reason : Type 0 where
  missing_terms unknown_stat no_player not_applicable ungradable : Reason

-- `tuple[GradeStatus, str, float] | str`
pub data Resolved (W : Type 0) : Type 0 where
  resolved : Status → String → W → Resolved W
  unresolved : Reason → Resolved W

-- `prop_type or (...)`
abbrev pub prop_type_of : Option String → Side → String
prop_type_of prop_type side =
    or_text prop_type
      (if eq_side side side_yes || eq_side side side_no then "YES_NO" else "OVER_UNDER")

module _ {W : Type 0} ⦃f : Float W⦄ where
  abbrev pub graded_as : Result (Status × String) → W → Resolved W
  graded_as (ok (status, description)) actual = resolved status description actual
  graded_as (err _) actual = unresolved ungradable

  -- the extractor's value graded, or the AttributeError
  unfoldable pub resolve_actual :
      String → String → Option String → Side → Option W → Option W → Resolved W
  resolve_actual stat_type player prop_type side line_value none = unresolved not_applicable
  resolve_actual stat_type player prop_type side line_value (some actual) =
      graded_as
        (grade_player_prop stat_type (prop_type_of prop_type side) side line_value actual
          (some player))
        actual

  unfoldable pub resolve_line :
      String → Extractor → Option PlayerLine → Option String → Side → Option W → Resolved W
  unfolding resolve_actual
  resolve_line stat_type extractor none prop_type side line_value = unresolved no_player
  resolve_line stat_type extractor (some player) prop_type side line_value =
      resolve_actual stat_type (player_name player) prop_type side line_value
        (extract extractor player)

  -- the entry of STAT_EXTRACTORS, where there is one
  unfoldable pub resolve_terms :
      Unicode
      → BoxScore
      → String
      → String
      → Option String
      → Side
      → Option W
      → Option Extractor
      → Resolved W
  resolve_terms u box slug stat_type prop_type side line_value none = unresolved unknown_stat
  resolve_terms u box slug stat_type prop_type side line_value (some extractor) =
      resolve_line stat_type extractor (find_player_line u box slug) prop_type side line_value

  unfoldable pub resolve_player_prop :
      Unicode
      → BoxScore
      → Option String
      → Option String
      → Option String
      → Option Side
      → Option W
      → Resolved W
  resolve_player_prop u box (some slug) (some stat_type) prop_type (some side) line_value =
      if str_eq slug "" || str_eq stat_type ""
      then unresolved missing_terms
      else resolve_terms u box slug stat_type prop_type side line_value
          (get stat_type stat_extractors)
  resolve_player_prop u box _ _ prop_type _ line_value = unresolved missing_terms
