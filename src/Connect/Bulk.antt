-- ===== src/Connect/Bulk.antt =====
-- src/services/bulk_service.py of services/connect-service: the pages that it builds over any table.
-- The replica is a copy of the database of payment-core-service.
pub mod Cursor
pub mod Events
pub mod Resolving
pub mod Queries
pub mod Reading
use multi_tenant_event_drive.Prelude.{
  ℕ, ◌+◌, Bool, true, false, ◌&&◌, Option, none, some, List, [], ◌∷◌, length, take, ltb,
  if◌then◌else◌,
}
use multi_tenant_event_drive.Prelude.Keyset.{select, order_by, after}
use multi_tenant_event_drive.Prelude.Keyset.Paging.{last_of}
use multi_tenant_event_drive.Core.Rows.{Text}
use multi_tenant_event_drive.Connect.Bulk.Cursor.{Codec, encode_cursor, decode_cursor}

-- The exceptions: ValueErrors of the service, a UUID that asyncpg does not read, a statement on a table
-- that is not there, and a text without `isoformat`.
pub data Fault : Type 0 where
  merchant_inactive invalid_schema_name invalid_cursor invalid_uuid undefined_table no_isoformat :
      Fault

pub data Reply (A : Type 0) : Type 0 where
  answer : A → Reply A
  fault : Fault → Reply A

abbrev pub then_reply : {A B : Type 0} → Reply A → (A → Reply B) → Reply B
then_reply (answer a) f = f a
then_reply (fault e) f = fault e

-- The response, less the merchant's id, which is echoed.
pub record BulkPage (A : Type 0) : Type 0 where
  pub data_rows : List A
  pub next_cursor : Option Text
  pub has_more : Bool
  pub limit : ℕ
  pub total_count : Option ℕ

-- A condition that is there only where the parameter is given.
abbrev pub if_given : {A : Type 0} → Option A → (A → Bool) → Bool
if_given none test = true
if_given (some a) test = test a

module _ (c : Codec) where
  -- `if cursor:`, with the id as the statement reads it.
  unfoldable pub cursor_position : Option Text → Reply (Option (ℕ × ℕ))
  unfolding decode_cursor
  cursor_position none = answer none
  cursor_position (some []) = answer none
  cursor_position (some (b ∷ bs)) = elim (decode_cursor c (b ∷ bs)) [
    | none ↦ fault invalid_cursor
    | some (cursor_time, cursor_id) ↦ elim (c.uuid_of cursor_id) [
      | none ↦ fault invalid_uuid
      | some id ↦ answer (some (cursor_time, id))
    ]
  ]

  module _ {A : Type 0} (at id : A → ℕ) where
    -- The time is a text in the serialized row, and is parsed again.
    unfoldable pub cursor_of : A → Reply Text
    unfolding encode_cursor
    cursor_of r = elim (c.fromisoformat (c.isoformat (at r))) [
      | none ↦ fault no_isoformat
      | some t ↦ answer (encode_cursor c t (c.uuid_text (id r)))
    ]

    -- `if has_more and data`
    unfoldable pub next_cursor_of : Bool → Option A → Reply (Option Text)
    unfolding cursor_of
    next_cursor_of false last = answer none
    next_cursor_of true none = answer none
    next_cursor_of true (some last) = then_reply (cursor_of last) (λ s. answer (some s))

    unfoldable pub build_bulk_response :
        (rows : List A) → (limit : ℕ) → (total_count : Option ℕ) → Reply (BulkPage A)
    unfolding next_cursor_of
    build_bulk_response rows limit total_count =
        let has_more = ltb limit (length rows) in
        let data_rows = take limit rows in
        then_reply (next_cursor_of has_more (last_of data_rows)) (λ next_cursor. answer (record {
          data_rows = data_rows;
          next_cursor = next_cursor;
          has_more = has_more;
          limit = limit;
          total_count = total_count;
        }))

    -- SELECT … WHERE … ORDER BY … LIMIT limit + 1. The count has the conditions of the query, the
    -- cursor's too.
    unfoldable pub bulk_query :
        (rows : List A)
        → (keep : A → Bool) → (count : Option (ℕ × ℕ) → Option ℕ) → (limit : ℕ)
        → (cursor : Option Text) → Reply (BulkPage A)
    unfolding cursor_position build_bulk_response
    bulk_query rows keep count limit cursor = then_reply (cursor_position cursor) (λ position.
        build_bulk_response
          (take (limit + 1) (order_by at id (select (λ r. after at id position r && keep r) rows)))
          limit (count position))
