-- ===== src/Clients/Reconcile/Named.antt =====
-- Which row of lines-service the reconciler takes.
use mathlib.Core.Option.{some-injective}
use text.Mathlib.Text.{starts_with}
use bookie_breaker_bookie_em.Base.{
  ◌≡◌, refl, ap, ◌⊎◌, inl, inr, Bool, true, false, ◌&&◌, ◌||◌, Option, none, some, List, [], ◌∷◌,
  ◌++◌, All, String, Bool-cases, arith,
}
use bookie_breaker_bookie_em.Domain.{Side, home, away, over, under, draw, side_yes, side_no}
use bookie_breaker_bookie_em.Clients.{LineSnapshot, Game}
use bookie_breaker_bookie_em.Clients.Reconcile.{Lookup, side_is, names_game, first_match}

-- A test of a HOME row or an AWAY row holds of one of the two.
on_side :
    (side : Option Side) (by_home by_away : Bool)
    → (side_is home side && by_home) || (side_is away side && by_away) ≡ true
    → ((side ≡ some home) × (by_home ≡ true)) ⊎ ((side ≡ some away) × (by_away ≡ true))
on_side none by_home by_away h = cc
on_side (some home) by_home by_away h = inl (refl, ground (arith, h))
on_side (some away) by_home by_away h = inr (refl, h)
on_side (some over) by_home by_away h = cc
on_side (some under) by_home by_away h = cc
on_side (some side_yes) by_home by_away h = cc
on_side (some side_no) by_home by_away h = cc
on_side (some draw) by_home by_away h = cc

off_sides :
    (side : Option Side) (by_home by_away : Bool)
    → (side_is home side && by_home) || (side_is away side && by_away) ≡ false
    → ¬ (((side ≡ some home) × (by_home ≡ true)) ⊎ ((side ≡ some away) × (by_away ≡ true)))
off_sides side by_home by_away h (inl (e, named)) = cc (rw (e, named) at h)
off_sides side by_home by_away h (inr (e, named)) = cc (rw (e, named) at h)

module _ {W : Type 0} where
  -- a HOME row whose selection starts with the home team's name, or an AWAY row with the away team's
  abbrev pub Names : Lookup W → Game → LineSnapshot W → Type 0
  Names l game s =
      ((s.side ≡ some home)
        × (starts_with (l.normalize s.selection) (l.normalize game.home_team.name) ≡ true))
      ⊎ ((s.side ≡ some away)
          × (starts_with (l.normalize s.selection) (l.normalize game.away_team.name) ≡ true))

  -- the id is that of the first such row
  pub record FirstNamed (l : Lookup W) (game : Game) (snapshots : List (LineSnapshot W))
      (external_id : String) : Type 0 where
    pub before : List (LineSnapshot W)
    pub row : LineSnapshot W
    pub after : List (LineSnapshot W)
    pub split : snapshots ≡ before ++ row ∷ after
    pub names : Names l game row
    pub unnamed : All (λ s. ¬ (Names l game s)) before
    pub same_id : row.game_id ≡ external_id

  pub first_match-FirstNamed :
      (l : Lookup W) (game : Game) (snapshots : List (LineSnapshot W)) (external_id : String)
      → first_match l game snapshots ≡ some external_id
      → FirstNamed l game snapshots external_id
  unfolding first_match
  first_match-FirstNamed l game [] external_id h = cc
  first_match-FirstNamed l game (s ∷ ss) external_id h = elim (Bool-cases (names_game l game s)) [
    | inl e ↦ record {
      before = [];
      row = s;
      after = ss;
      split = refl;
      names = on_side s.side _ _ e;
      unnamed = tt;
      same_id = some-injective s.game_id external_id (rw e at h);
    }
    | inr e ↦
        let rest = first_match-FirstNamed l game ss external_id (rw e at h) in
        record {
          before = s ∷ rest.before;
          row = rest.row;
          after = rest.after;
          split = ap (λ rows. s ∷ rows) rest.split;
          names = rest.names;
          unnamed = (off_sides s.side _ _ e, rest.unnamed);
          same_id = rest.same_id;
        }
  ]
