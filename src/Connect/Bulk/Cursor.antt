-- ===== src/Connect/Bulk/Cursor.antt =====
-- src/utils/cursor.py of services/connect-service: a position in an ordered table as an opaque text.
use multi_tenant_event_drive.Prelude.{ℕ, ◌≡◌, ◌≢◌, refl, Option, none, some, []}
use multi_tenant_event_drive.Core.Rows.{Text}

-- The libraries: `datetime.isoformat` and its inverse, `json` on an object of the two texts `t` and
-- `id`, `base64`, and the text of a UUID, which `str` writes and asyncpg reads. `none` is an exception
-- or a missing key.
pub record Codec : Type 0 where
  pub isoformat : ℕ → Text
  pub fromisoformat : Text → Option ℕ
  pub dumps : Text × Text → Text
  pub loads : Text → Option (Text × Text)
  pub urlsafe_b64encode : Text → Text
  pub urlsafe_b64decode : Text → Option Text
  pub uuid_text : ℕ → Text
  pub uuid_of : Text → Option ℕ

-- What the libraries document of these pairs: each reads what it wrote. An object is not the empty
-- text, and base64 encodes only the empty text as the empty text.
pub record IsCodec (c : Codec) : Type 0 where
  pub iso : (t : ℕ) → c.fromisoformat (c.isoformat t) ≡ some t
  pub json : (payload : Text × Text) → c.loads (c.dumps payload) ≡ some payload
  pub json_some : (payload : Text × Text) → c.dumps payload ≢ []
  pub base64 : (s : Text) → c.urlsafe_b64decode (c.urlsafe_b64encode s) ≡ some s
  pub base64_empty : (s : Text) → c.urlsafe_b64encode s ≡ [] → s ≡ []
  pub uuid : (id : ℕ) → c.uuid_of (c.uuid_text id) ≡ some id

module _ (c : Codec) where
  unfoldable pub encode_cursor : (updated_at : ℕ) → (entity_id : Text) → Text
  encode_cursor updated_at entity_id =
      c.urlsafe_b64encode (c.dumps (c.isoformat updated_at, entity_id))

  abbrev pub cursor_fields : Option (Text × Text) → Option (ℕ × Text)
  cursor_fields none = none
  cursor_fields (some (t, id)) = elim (c.fromisoformat t) [
    | none ↦ none
    | some updated_at ↦ some (updated_at, id)
  ]

  -- `none` is the ValueError "Invalid cursor format".
  unfoldable pub decode_cursor : Text → Option (ℕ × Text)
  decode_cursor cursor = elim (c.urlsafe_b64decode cursor) [
    | none ↦ none
    | some text ↦ cursor_fields (c.loads text)
  ]

  pub decode_cursor-encode_cursor :
      (h : IsCodec c) (updated_at : ℕ) (entity_id : Text)
      → decode_cursor (encode_cursor updated_at entity_id) ≡ some (updated_at, entity_id)
  unfolding decode_cursor encode_cursor
  decode_cursor-encode_cursor h updated_at entity_id =
      let payload : Text × Text = (c.isoformat updated_at, entity_id) in
      rw
        (
          decode_cursor,
          encode_cursor,
          h.base64 (c.dumps payload),
          h.json payload,
          cursor_fields,
          h.iso updated_at,
        )
        refl

  pub encode_cursor-nonempty :
      (h : IsCodec c) (updated_at : ℕ) (entity_id : Text) → encode_cursor updated_at entity_id ≢ []
  unfolding encode_cursor
  encode_cursor-nonempty h updated_at entity_id e =
      let payload : Text × Text = (c.isoformat updated_at, entity_id) in
      h.json_some payload (h.base64_empty (c.dumps payload) e)
