-- ===== src/Core/Props/Outcomes.antt =====
-- How the two bets on one prop grade against each other, and whose line settles them.
use bookie_breaker_bookie_em.Base.{
  ◌≡◌, refl, ap, ◌↔◌, ◌⊎◌, inl, inr, true, false, Option, none, some, List, [], ◌∷◌, ◌++◌, String,
  any, arith, Bool-cases,
}
use bookie_breaker_bookie_em.Domain.{won, lost, push, side_yes, side_no, over, under}
use bookie_breaker_bookie_em.Clients.{PlayerLine, BoxScore}
use bookie_breaker_bookie_em.Float.{Float, HasSigns, zero_f}
use bookie_breaker_bookie_em.Core.Slug.{Unicode}
use bookie_breaker_bookie_em.Core.Grading.Sides.{status_of, opposite}
use bookie_breaker_bookie_em.Core.Props.{
  yes_no_status, over_under_status, grade_player_prop, has_slug, first_with_slug, team_players,
  find_player_line, line_or_none,
}

module _ {W : Type 0} ⦃f : Float W⦄ (stat_type : String) (line_value : Option W) (actual : W)
    (player : Option String) where
  -- The YES and the NO of a prop grade oppositely, and neither pushes.
  pub yes_no_opposite :
      let yes =
        status_of (grade_player_prop stat_type "YES_NO" side_yes line_value actual player) in
      let no = status_of (grade_player_prop stat_type "YES_NO" side_no line_value actual player) in
      (no ≡ opposite yes) × ((yes ≡ some won) ⊎ (yes ≡ some lost))
  unfolding grade_player_prop yes_no_status
  yes_no_opposite = ground arith

  -- The OVER and the UNDER of a prop grade oppositely, and both push exactly when the statistic is
  -- neither above nor below the line.
  pub over_under-opposite :
      HasSigns W
      → let above =
          status_of (grade_player_prop stat_type "OVER_UNDER" over line_value actual player) in
        let below =
          status_of (grade_player_prop stat_type "OVER_UNDER" under line_value actual player) in
        let difference = f.sub actual (line_or_none line_value) in
        (below ≡ opposite above)
        × ((above ≡ some push)
            ↔ ((f.lt zero_f difference ≡ false) × (f.lt difference zero_f ≡ false)))
  unfolding grade_player_prop over_under_status
  over_under-opposite signs = ground (arith, signs.lt_asym)

module _ (u : Unicode) (slug : String) where
  -- what the search answers over these lines
  abbrev pub IsFound : List PlayerLine → Option PlayerLine → Type 0
  IsFound players none = any (has_slug u slug) players ≡ false
  IsFound players (some p) =
      (before : List PlayerLine) × (after : List PlayerLine) × (players ≡ before ++ p ∷ after)
      × (has_slug u slug p ≡ true)
      × (any (has_slug u slug) before ≡ false)

  IsFound-later :
      (q : PlayerLine) (players : List PlayerLine) (r : Option PlayerLine)
      → has_slug u slug q ≡ false
      → IsFound players r
      → IsFound (q ∷ players) r
  IsFound-later q players none h found = rw (h, found)
  IsFound-later q players (some p) h (before, after, e, has, none_before) =
      (q ∷ before, after, ap (λ ps. q ∷ ps) e, has, rw (h, none_before))

  first-IsFound : (players : List PlayerLine) → IsFound players (first_with_slug u slug players)
  unfolding first_with_slug
  first-IsFound [] = refl
  first-IsFound (q ∷ players) = elim (Bool-cases (has_slug u slug q)) [
    | inl same ↦ rw same ([], players, refl, same, refl)
    | inr other ↦
        rw other
          (IsFound-later q players (first_with_slug u slug players) other (first-IsFound players))
  ]

  -- The player that settles a prop is the first of the home team's and then the away team's lines
  -- whose name has the slug of the prop; there is none exactly when no line has it.
  pub find_player_line_lem :
      (box : BoxScore)
      → IsFound
          (team_players box.home_team box.sport ++ team_players box.away_team box.sport)
          (find_player_line u box slug)
  unfolding find_player_line
  find_player_line_lem box =
      first-IsFound (team_players box.home_team box.sport ++ team_players box.away_team box.sport)
