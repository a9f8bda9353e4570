-- ===== src/Process/Outage.antt =====
-- What the poller does while statistics-service is down.
use bookie_breaker_bookie_em.Base.{
  ℕ, ◌-◌, ◌≡◌, refl, Bool, true, List, [], ◌∷◌, leb, String, ◌<>◌, ◌==◌, Bool-cases, inl, inr,
}
use bookie_breaker_bookie_em.Float.{Float}
use bookie_breaker_bookie_em.Core.Slug.{Unicode}
use bookie_breaker_bookie_em.Core.Errors.{Error, ok, err, not_found, dependency, dependency_timeout}
use bookie_breaker_bookie_em.Db.Numeric.{Numeric}
use bookie_breaker_bookie_em.Clients.Http.{
  Answer, timed_out, http_error, response, Params, Http, Models, get_data, get_game,
}
use bookie_breaker_bookie_em.Services.Action.{World, Context}
use bookie_breaker_bookie_em.Services.Poller.{due_game_ids, poll_game, sweep, run_once}
use bookie_breaker_bookie_em.Process.Wiring.{context_of}

module _ {J : Type 0} where
  -- no answer in time, none at all, or a 5xx
  abbrev pub is_down : Answer J → Bool
  is_down timed_out = true
  is_down http_error = true
  is_down (response code body) = leb 500 code

  get_data-down : (a : Answer J) → is_down a ≡ true → (e : Error) × (get_data a ≡ err e)
  unfolding get_data
  get_data-down timed_out h = (dependency_timeout, refl)
  get_data-down http_error h = (dependency, refl)
  get_data-down (response code body) h = elim (Bool-cases (code == 404)) [
    | inl e ↦ (not_found, rw e refl)
    | inr e ↦ (dependency, rw (e, h) refl)
  ]

module _ {W : Type 0} ⦃f : Float W⦄ ⦃n : Numeric W⦄ where
  sweep_unanswered :
      (c : Context W) (game_ids : List ℕ) (w : World W)
      → ((id : ℕ) → (e : Error) × (c.get_game id ≡ err e))
      → sweep c game_ids w ≡ (ok 0, w)
  unfolding sweep poll_game
  sweep_unanswered c [] w down = refl
  sweep_unanswered c (id ∷ game_ids) w down =
      rw ((down id).1, sweep_unanswered c game_ids w down) refl

  -- While every request to statistics-service times out, fails or gets a 5xx, a cycle of the poller
  -- whose queries for due games answer gives 0 and leaves the database, the events and everything
  -- else as they were, whatever games are due and whatever lines-service does.
  pub run_once_down :
      {J : Type 0} (statistics lines : Http J) (models : Models J W) (show_uuid : ℕ → String)
      (unicode : Unicode) (starting : W) (grace_seconds : ℕ) (w : World W)
      → ((path : String) (params : Params) → is_down (statistics path params) ≡ true)
      → run_once
          (context_of statistics lines models show_uuid unicode starting)
          grace_seconds
          (ok tt)
          w
        ≡ (ok 0, w)
  unfolding run_once context_of get_game
  run_once_down statistics lines models show_uuid unicode starting grace_seconds w down =
      sweep_unanswered (context_of statistics lines models show_uuid unicode starting)
        (due_game_ids (w.clock - grace_seconds) w.db) w
        (λ id.
          let path = "/api/v1/stats/games/" <> show_uuid id in
          let (e, failed) = get_data-down (statistics path []) (down path []) in
          (e, rw failed refl))
