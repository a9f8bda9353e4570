-- ===== src/Api/Pagination.antt =====
-- api/pagination.py. The JSON and base64 codecs of the standard library, with the texts of times and
-- ids, are a parameter.
use bookie_breaker_bookie_em.Base.{ℕ, ◌≡◌, Option, none, some, String}
use bookie_breaker_bookie_em.Core.Errors.{Result, ok, err, invalid_parameter}
use bookie_breaker_bookie_em.Db.Repository.Ledger.{Cursor}

pub record Codec : Type 0 where
  -- base64url of the JSON of a time and an id
  pub dumps : ℕ → ℕ → String
  -- `none` where the text is not such an encoding
  pub loads : String → Option (ℕ × ℕ)

-- What was written is read back.
pub record IsCodec (c : Codec) : Type 0 where
  pub loads-dumps : (placed_at id : ℕ) → c.loads (c.dumps placed_at id) ≡ some (placed_at, id)

unfoldable pub encode_cursor : Codec → Cursor → String
encode_cursor c cursor = c.dumps cursor.placed_at cursor.id

abbrev pub cursor_or_raise : Option (ℕ × ℕ) → Result Cursor
cursor_or_raise none = err invalid_parameter
cursor_or_raise (some (placed_at, id)) = ok (record { placed_at = placed_at; id = id })

unfoldable pub decode_cursor : Codec → String → Result Cursor
decode_cursor c raw = cursor_or_raise (c.loads raw)

pub decode_cursor-encode_cursor :
    {c : Codec}
    → IsCodec c
    → (cursor : Cursor) → decode_cursor c (encode_cursor c cursor) ≡ ok cursor
unfolding decode_cursor encode_cursor
decode_cursor-encode_cursor codec cursor = rw (codec.loads-dumps cursor.placed_at cursor.id)
