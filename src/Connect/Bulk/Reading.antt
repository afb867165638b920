-- ===== src/Connect/Bulk/Reading.antt =====
-- A client of services/connect-service that reads a table of src/services/bulk_service.py page by page,
-- and what it gets.
pub mod Served
use multi_tenant_event_drive.Prelude.{
  ℕ, zero, suc, ◌+◌, ◌≤◌, ◌<◌, ◌≡◌, refl, sym, ap, ◌∙◌, Bool, true, false, ◌&&◌, Option, none, some,
  List, [], ◌∷◌, ◌++◌, length, take, drop, take_all, length-drop, length-take, arith, ltb,
  Bool-cases, inl, inr,
}
use native.Mathlib.Numerals.{add-one}
use multi_tenant_event_drive.Prelude.Table.{Distinct}
use multi_tenant_event_drive.Prelude.Keyset.{
  select, order_by, after, Ascending, Ascending-order_by, Ascending-select, All-selected,
  length-select, length-order_by, select-select,
}
use multi_tenant_event_drive.Prelude.Keyset.Paging.{
  last_of, select-order_by, after_page, after_next, All-last_of, take-take, select_everything,
  everywhere, append-take-drop, last_of-take,
}
use multi_tenant_event_drive.Core.Rows.{Text}
use multi_tenant_event_drive.Connect.Bulk.{
  Reply, answer, fault, then_reply, BulkPage, cursor_position, cursor_of, next_cursor_of,
  build_bulk_response, bulk_query,
}
use multi_tenant_event_drive.Connect.Bulk.Cursor.{
  Codec, IsCodec, encode_cursor, decode_cursor, decode_cursor-encode_cursor, encode_cursor-nonempty,
}

-- The client asks for a page, and for the next one while there is a cursor; at most `fuel` pages.
-- `none` is an error, or a page too many.
unfoldable pub read_pages :
    {A : Type 0}
    → (fetch : Option Text → Reply (BulkPage A)) → (fuel : ℕ) → Option Text
    → Option (List A)
read_pages fetch zero cursor = none
read_pages fetch (suc fuel) cursor = elim (fetch cursor) [
  | fault e ↦ none
  | answer p ↦ elim p.next_cursor [
    | none ↦ some p.data_rows
    | some next ↦ elim (read_pages fetch fuel (some next)) [
      | none ↦ none
      | some rest ↦ some (p.data_rows ++ rest)
    ]
  ]
]

module _ (c : Codec) (h : IsCodec c) where
  cursor_position-some :
      (t id : ℕ) (s : Text)
      → s ≡ encode_cursor c t (c.uuid_text id)
      → cursor_position c (some s) ≡ answer (some (t, id))
  unfolding cursor_position
  cursor_position-some t id [] e = absurd (encode_cursor-nonempty c h t (c.uuid_text id) (sym e))
  cursor_position-some t id (b ∷ bs) e =
      rw
        (
          cursor_position,
          ap (decode_cursor c) e ∙ decode_cursor-encode_cursor c h t (c.uuid_text id),
          h.uuid id,
        )
        refl

  cursor_position-encode_cursor :
      (t id : ℕ)
      → cursor_position c (some (encode_cursor c t (c.uuid_text id))) ≡ answer (some (t, id))
  cursor_position-encode_cursor t id =
      cursor_position-some t id (encode_cursor c t (c.uuid_text id)) refl

  module _ {A : Type 0} (at id : A → ℕ) where
    next_cursor_of-some :
        (r : A)
        → next_cursor_of c at id true (some r)
          ≡ answer (some (encode_cursor c (at r) (c.uuid_text (id r))))
    unfolding next_cursor_of cursor_of
    next_cursor_of-some r = rw (next_cursor_of, cursor_of, h.iso (at r)) refl

    -- The page of the rows that are left: the last page, or a page with a cursor behind its last row.
    last_page :
        (rest : List A) (limit : ℕ) (count : Option ℕ)
        → length rest ≤ limit
        → build_bulk_response c at id (take (limit + 1) rest) limit count
          ≡ answer (record {
            data_rows = rest;
            next_cursor = none;
            has_more = false;
            limit = limit;
            total_count = count;
          })
    unfolding build_bulk_response next_cursor_of
    last_page rest limit count short =
        let fits : ltb limit (length rest) ≡ false = ground arith in
        rw
          (
            take_all (limit + 1) rest (omega arith),
            build_bulk_response,
            fits,
            take_all limit rest short,
          )
          refl

    full_page :
        (rest : List A) (m : ℕ) (count : Option ℕ) (r : A)
        → suc m < length rest
        → last_of (take (suc m) rest) ≡ some r
        → build_bulk_response c at id (take (suc m + 1) rest) (suc m) count
          ≡ answer (record {
            data_rows = take (suc m) rest;
            next_cursor = some (encode_cursor c (at r) (c.uuid_text (id r)));
            has_more = true;
            limit = suc m;
            total_count = count;
          })
    unfolding build_bulk_response
    full_page rest m count r long last =
        let size = length-take (suc (suc m)) rest in
        let more : ltb (suc m) (length (take (suc (suc m)) rest)) ≡ true = ground (arith, size) in
        rw
          (
            add-one (suc m),
            build_bulk_response,
            more,
            take-take (suc m) rest,
            last,
            next_cursor_of-some r,
          )
          refl

    module _ (rows : List A) (keep : A → Bool) (count : Option (ℕ × ℕ) → Option ℕ) (m : ℕ)
        (d : Distinct id rows) where
      abbrev wanted : List A
      wanted = select keep (order_by at id rows)

      abbrev fetch : Option Text → Reply (BulkPage A)
      fetch cursor = bulk_query c at id rows keep count (suc m) cursor

      -- The rows that a request takes its page from.
      rows_left :
          (position : Option (ℕ × ℕ))
          → order_by at id (select (λ r. after at id position r && keep r) rows)
            ≡ select (after at id position) wanted
      rows_left position =
          sym (select-order_by at id (λ r. after at id position r && keep r) rows d)
          ∙ sym (select-select (after at id position) keep (order_by at id rows))

      fetch_at :
          (position : Option (ℕ × ℕ)) (cursor : Option Text)
          → cursor_position c cursor ≡ answer position
          → fetch cursor
            ≡ build_bulk_response c at id
                (take (suc m + 1) (select (after at id position) wanted))
                (suc m)
                (count position)
      unfolding bulk_query
      fetch_at position cursor e = rw (bulk_query, e, then_reply, rows_left position) refl

      wanted-Ascending : Ascending at id wanted
      wanted-Ascending =
          Ascending-select at id keep (order_by at id rows) (Ascending-order_by at id rows d)

      left_after :
          (position : Option (ℕ × ℕ)) (r : A)
          → last_of (take (suc m) (select (after at id position) wanted)) ≡ some r
          → select (after at id (some (at r, id r))) wanted
            ≡ drop (suc m) (select (after at id position) wanted)
      left_after position r last =
          let rest = select (after at id position) wanted in
          let behind =
            All-last_of _ (suc m) rest r (All-selected (after at id position) wanted) last in
          sym (after_next at id position r wanted behind)
          ∙ after_page at id m rest r (Ascending-select at id _ wanted wanted-Ascending) last

      read_from :
          (fuel : ℕ) (position : Option (ℕ × ℕ)) (cursor : Option Text)
          → cursor_position c cursor ≡ answer position
          → length (select (after at id position) wanted) < fuel
          → read_pages fetch fuel cursor ≡ some (select (after at id position) wanted)
      unfolding read_pages
      read_from zero position cursor e enough = absurd (omega arith)
      read_from (suc fuel) position cursor e enough =
          let rest = select (after at id position) wanted in
          elim (Bool-cases (ltb (suc m) (length rest))) [
            | inl more ↦
                let (r, last) = last_of-take m rest (ground arith) in
                let page = full_page rest m (count position) r (ground arith) last in
                let left = left_after position r last in
                let size = length-drop (suc m) rest in
                let next =
                  read_from fuel (some (at r, id r)) _ (cursor_position-encode_cursor (at r) (id r))
                    (rw left (ground (arith, size))) in
                rw (read_pages, fetch_at position cursor e, page, next, left)
                  (ap some (append-take-drop (suc m) rest))
            | inr done ↦
                let page = last_page rest (suc m) (count position) (ground arith) in
                rw (read_pages, fetch_at position cursor e, page) refl
          ]

      -- From no cursor on, the pages hold the rows that the conditions keep, each once and in the
      -- order of the two columns, and one request more than there are rows is enough.
      pub read_pages-order_by :
          (fuel : ℕ)
          → length rows < fuel
          → read_pages fetch fuel none ≡ some (order_by at id (select keep rows))
      unfolding cursor_position
      read_pages-order_by fuel enough =
          let all = select_everything (after at id none) wanted (everywhere (λ r. refl) wanted) in
          let kept = length-select keep (order_by at id rows) in
          let size = length-order_by at id rows in
          let short : length (select (after at id none) wanted) < fuel =
            rw all (omega (arith, kept, size)) in
          read_from fuel none none refl short ∙ ap some (all ∙ select-order_by at id keep rows d)
