-- ===== src/Core/Props/Decided.antt =====
-- No prop grade is OPEN: the statuses of grade_player_prop and resolve_player_prop.
use bookie_breaker_bookie_em.Base.{Option, none, some, String, arith}
use bookie_breaker_bookie_em.Domain.{Side}
use bookie_breaker_bookie_em.Float.{Float}
use bookie_breaker_bookie_em.Clients.{PlayerLine, player_name, BoxScore}
use bookie_breaker_bookie_em.Core.Slug.{Unicode}
use bookie_breaker_bookie_em.Core.Grading.Decided.{IsDecided}
use bookie_breaker_bookie_em.Core.Props.{
  yes_no_status, over_under_status, grade_player_prop, Extractor, Resolved, resolved, unresolved,
  graded_as, resolve_actual, resolve_line, resolve_terms, resolve_player_prop, extract,
  find_player_line, get, stat_extractors, prop_type_of, line_or_none,
}

module _ {W : Type 0} ⦃f : Float W⦄ where
  abbrev pub HasDecided : Resolved W → Type 0
  HasDecided (resolved status _ _) = IsDecided status
  HasDecided (unresolved _) = Unit

  pub yes_no-IsDecided : (side : Side) (actual : W) → IsDecided (yes_no_status side actual)
  unfolding yes_no_status
  yes_no-IsDecided side actual = ground arith

  pub over_under-IsDecided : (side : Side) (x : W) → IsDecided (over_under_status side x)
  unfolding over_under_status
  over_under-IsDecided side x = ground arith

  grade_player_prop-IsDecided :
      (stat_type prop_type : String) (side : Side) (line_value : Option W) (actual : W)
      (player : Option String)
      → HasDecided
          (graded_as (grade_player_prop stat_type prop_type side line_value actual player) actual)
  unfolding grade_player_prop
  grade_player_prop-IsDecided stat_type prop_type side line_value actual player = ground (
    arith,
    yes_no-IsDecided side actual,
    over_under-IsDecided side (f.sub actual (line_or_none line_value)),
  )

  resolve_actual-HasDecided :
      (stat_type player : String) (prop_type : Option String) (side : Side) (line_value : Option W)
      (actual : Option W)
      → HasDecided (resolve_actual stat_type player prop_type side line_value actual)
  unfolding resolve_actual
  resolve_actual-HasDecided stat_type player prop_type side line_value none = tt
  resolve_actual-HasDecided stat_type player prop_type side line_value (some actual) =
      grade_player_prop-IsDecided stat_type (prop_type_of prop_type side) side line_value actual
        (some player)

  resolve_line-HasDecided :
      (stat_type : String) (extractor : Extractor) (line : Option PlayerLine)
      (prop_type : Option String) (side : Side) (line_value : Option W)
      → HasDecided (resolve_line stat_type extractor line prop_type side line_value)
  unfolding resolve_line
  resolve_line-HasDecided stat_type extractor none prop_type side line_value = tt
  resolve_line-HasDecided stat_type extractor (some player) prop_type side line_value =
      resolve_actual-HasDecided stat_type (player_name player) prop_type side line_value
        (extract extractor player)

  resolve_terms-HasDecided :
      (u : Unicode) (box : BoxScore) (slug stat_type : String) (prop_type : Option String)
      (side : Side) (line_value : Option W) (extractor : Option Extractor)
      → HasDecided (resolve_terms u box slug stat_type prop_type side line_value extractor)
  unfolding resolve_terms
  resolve_terms-HasDecided u box slug stat_type prop_type side line_value none = tt
  resolve_terms-HasDecided u box slug stat_type prop_type side line_value (some extractor) =
      resolve_line-HasDecided stat_type extractor (find_player_line u box slug) prop_type side
        line_value

  pub resolve_player_prop-HasDecided :
      (u : Unicode) (box : BoxScore) (slug stat_type prop_type : Option String) (side : Option Side)
      (line_value : Option W)
      → HasDecided (resolve_player_prop u box slug stat_type prop_type side line_value)
  unfolding resolve_player_prop
  resolve_player_prop-HasDecided u box (some slug) (some stat_type) prop_type (some side)
        line_value =
      ground (
        arith,
        resolve_terms-HasDecided u box slug stat_type prop_type side line_value
            (get stat_type stat_extractors),
      )
  resolve_player_prop-HasDecided u box (some slug) (some stat_type) prop_type none line_value = tt
  resolve_player_prop-HasDecided u box (some slug) none prop_type side line_value = tt
  resolve_player_prop-HasDecided u box none stat_type prop_type side line_value = tt
