-- ===== src/Process/Wiring.antt =====
-- The clients that main.py gives to the grader.
use bookie_breaker_bookie_em.Base.{ℕ, true, none, String}
use bookie_breaker_bookie_em.Core.Slug.{Unicode}
use bookie_breaker_bookie_em.Clients.Http.{Http, Models, get_game, get_box_score, closing_lines}
use bookie_breaker_bookie_em.Services.Action.{Context}

-- `statistics` and `lines` are the two services as the HTTP client reaches them during a call,
-- `show_uuid` prints an id. A redis client is configured.
unfoldable pub context_of :
    {J W : Type 0} → Http J → Http J → Models J W → (ℕ → String) → Unicode → W → Context W
unfolding get_game get_box_score closing_lines
context_of statistics lines models show_uuid unicode starting_bankroll_units = record {
  get_game = λ id. get_game statistics models (show_uuid id);
  get_box_score = λ id. get_box_score statistics models (show_uuid id);
  closing_lines = λ external_id. closing_lines lines models external_id none;
  unicode = unicode;
  starting_bankroll_units = starting_bankroll_units;
  has_redis = true;
}
