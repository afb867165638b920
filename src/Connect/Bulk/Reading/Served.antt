-- ===== src/Connect/Bulk/Reading/Served.antt =====
-- What src/services/bulk_service.py of services/connect-service serves of a merchant's tables and events.
use multi_tenant_event_drive.Prelude.{
  ℕ, String, zero, suc, ◌≤◌, ◌≡◌, refl, sym, ap, ◌∙◌, Bool, false, Option, none, some, List, [],
  ◌∷◌, length, arith, All, Option-cases, inl, inr, ◌⊎◌, ◌++◌, map,
}
use multi_tenant_event_drive.Prelude.Table.{has, find, Distinct}
use multi_tenant_event_drive.Prelude.Mapped.{map-append}
use multi_tenant_event_drive.Prelude.Keyset.{select, order_by}
use multi_tenant_event_drive.Core.Rows.{Text, Tenant, Payment, PaymentView, Merchant}
use multi_tenant_event_drive.Core.Payments.{customer_uuid}
use multi_tenant_event_drive.Core.Listing.{joined_payments}
use multi_tenant_event_drive.Core.Merchants.{Db, Cached, tables_of, cached_schema}
use multi_tenant_event_drive.Core.Merchants.Registry.{schema_of, cached_schema_sound}
use multi_tenant_event_drive.Connect.Bulk.Events.{keeps_event, event_row, map_page, get_events}
use multi_tenant_event_drive.Core.Rows.{DomainEvent}
use multi_tenant_event_drive.Connect.Bulk.{Reply, answer, fault, Fault, then_reply, BulkPage}
use multi_tenant_event_drive.Connect.Bulk.Cursor.{Codec, IsCodec, decode_cursor}
use multi_tenant_event_drive.Connect.Bulk.Resolving.{Caches, resolve_merchant_schema}
use multi_tenant_event_drive.Connect.Bulk.Queries.{
  Times, keeps_payment, query_payments, on_merchant, on_tables, no_tables,
}
use multi_tenant_event_drive.Connect.Bulk.Reading.{read_pages, read_pages-order_by}

joined_payments-has :
    (t : Tenant) (k : ℕ) (ps : List Payment)
    → has Payment.payment_id k ps ≡ false
    → has PaymentView.payment_id k (joined_payments t ps) ≡ false
unfolding joined_payments
joined_payments-has t k [] h = refl
joined_payments-has t k (p ∷ ps) h = elim (Option-cases (customer_uuid p.customer_ref t)) [
  | inl missing ↦ ground (arith, joined_payments-has t k ps)
  | inr (c, found) ↦ ground (arith, joined_payments-has t k ps)
]

joined_payments-Distinct :
    (t : Tenant) (ps : List Payment)
    → Distinct Payment.payment_id ps
    → Distinct PaymentView.payment_id (joined_payments t ps)
unfolding joined_payments
joined_payments-Distinct t [] d = tt
joined_payments-Distinct t (p ∷ ps) d =
    ground (arith, joined_payments-has t p.payment_id ps, joined_payments-Distinct t ps d.1)

length-joined_payments :
    (t : Tenant) (ps : List Payment) → length (joined_payments t ps) ≤ length ps
unfolding joined_payments
length-joined_payments t [] = omega arith
length-joined_payments t (p ∷ ps) = ground (arith, length-joined_payments t ps)

resolve_merchant_schema_sound :
    (now merchant_id : ℕ) (db : Db) (caches : Caches) (schema : Text)
    → All (λ (e : Cached). schema_of e.merchant_id db.merchants ≡ some e.schema) caches.schema_cache
    → (resolve_merchant_schema now merchant_id db caches).0 ≡ answer schema
    → schema_of merchant_id db.merchants ≡ some schema
unfolding resolve_merchant_schema
resolve_merchant_schema_sound now merchant_id db caches schema h e =
    elim (Option-cases (cached_schema now merchant_id caches.schema_cache)) [
      | inr (hit, found) ↦
          ground (
            arith,
            cached_schema_sound now merchant_id db.merchants caches.schema_cache hit h found,
          )
      | inl missed ↦ elim (Option-cases (find Merchant.merchant_id merchant_id db.merchants)) [
        | inl unknown ↦ ground arith
        | inr (m, row) ↦ ground arith
      ]
    ]

Reply-cases :
    {A : Type 0} (r : Reply A) → ((a : A) × (r ≡ answer a)) ⊎ ((f : Fault) × (r ≡ fault f))
Reply-cases (answer a) = inl (a, refl)
Reply-cases (fault f) = inr (f, refl)

read_pages-map :
    {A B : Type 0} (f : A → B) (fetch : Option Text → Reply (BulkPage A)) (fuel : ℕ)
    (cursor : Option Text) (rows : List A)
    → read_pages fetch fuel cursor ≡ some rows
    → read_pages (λ k. map_page f (fetch k)) fuel cursor ≡ some (map f rows)
unfolding read_pages
read_pages-map f fetch zero cursor rows e = absurd (cc e)
read_pages-map f fetch (suc fuel) cursor rows e = elim (Reply-cases (fetch cursor)) [
  | inr (x, failed) ↦ absurd (cc (rw (failed, read_pages) at e))
  | inl (p, page) ↦ elim (Option-cases p.next_cursor) [
    | inl last ↦
        let same : p.data_rows ≡ rows = cc (rw (page, last, read_pages) at e) in
        rw (page, read_pages, last) (ap (λ xs. some (map f xs)) same)
    | inr (next, more) ↦ elim (Option-cases (read_pages fetch fuel (some next))) [
      | inl stuck ↦ absurd (cc (rw (page, more, stuck, read_pages) at e))
      | inr (rest, read) ↦
          let same : p.data_rows ++ rest ≡ rows = cc (rw (page, more, read, read_pages) at e) in
          rw (page, read_pages, more, read_pages-map f fetch fuel (some next) rest read)
            (ap some (sym (map-append f p.data_rows rest) ∙ ap (map f) same))
    ]
  ]
]

module _ (c : Codec) where
  no_tables-fault :
      {A : Type 0} (cursor : Option Text) (a : A) → ¬ (no_tables c {A = A} cursor ≡ answer a)
  no_tables-fault none a e = cc e
  no_tables-fault (some []) a e = cc e
  no_tables-fault (some (b ∷ bs)) a e = elim (Option-cases (decode_cursor c (b ∷ bs))) [
    | inl bad ↦ cc (rw (bad, no_tables) at e)
    | inr (fields, good) ↦ cc (rw (good, no_tables) at e)
  ]

  on_tables_owned :
      {A : Type 0} (cursor : Option Text) (query : Tenant → Reply A) (a : A) (t : Option Tenant)
      → on_tables c cursor query t ≡ answer a
      → (own : Tenant) × (t ≡ some own) × (query own ≡ answer a)
  on_tables_owned cursor query a none e = absurd (no_tables-fault cursor a e)
  on_tables_owned cursor query a (some t) e = (t, refl, e)

  resolved_owned :
      {A : Type 0} (cursor : Option Text) (query : Tenant → Reply A) (db : Db) (a : A)
      (schema : Reply Text)
      → then_reply schema (λ name. on_tables c cursor query (tables_of name db.schemas)) ≡ answer a
      → (own : Text) × (t : Tenant) × (schema ≡ answer own)
        × (tables_of own db.schemas ≡ some t)
        × (query t ≡ answer a)
  resolved_owned cursor query db a (fault f) e = absurd (cc e)
  resolved_owned cursor query db a (answer own) e =
      let (t, found, asked) = on_tables_owned cursor query a (tables_of own db.schemas) e in
      (own, t, refl, found, asked)

  -- Over a cache that holds schemas of the merchants, whatever a merchant's query answers is what the
  -- query answers on the tables of the merchant's own schema.
  pub on_merchant_owned :
      {A : Type 0} (now merchant_id : ℕ) (cursor : Option Text) (query : Tenant → Reply A) (db : Db)
      (caches : Caches) (a : A)
      → All
          (λ (e : Cached). schema_of e.merchant_id db.merchants ≡ some e.schema)
          caches.schema_cache
      → (on_merchant c now merchant_id cursor query db caches).0 ≡ answer a
      → (own : Text) × (t : Tenant) × (schema_of merchant_id db.merchants ≡ some own)
        × (tables_of own db.schemas ≡ some t)
        × (query t ≡ answer a)
  unfolding on_merchant
  on_merchant_owned now merchant_id cursor query db caches a h e =
      let (own, t, resolved, found, asked) =
        resolved_owned cursor query db a (resolve_merchant_schema now merchant_id db caches).0 e in
      (own, t, resolve_merchant_schema_sound now merchant_id db caches own h resolved, found, asked)

  -- A client that asks for the payments page by page, at most as often as there are payments and once
  -- more, gets those that the conditions keep, each once, in the order of their last change.
  pub query_payments_read :
      (h : IsCodec c) (m : ℕ) (status method : Option String) (times : Times) (include_count : Bool)
      (t : Tenant)
      → Distinct Payment.payment_id t.payments
      → read_pages
          (λ cursor. query_payments c cursor (suc m) status method times include_count t)
          (suc (length t.payments))
          none
        ≡ some (
            order_by PaymentView.updated_at PaymentView.payment_id (
              select
                (λ v. keeps_payment status method times v.status v.method v.created_at v.updated_at)
                (joined_payments t t.payments)))
  unfolding query_payments
  query_payments_read h m status method times include_count t d =
      let few = length-joined_payments t t.payments in
      read_pages-order_by c h PaymentView.updated_at PaymentView.payment_id
        (joined_payments t t.payments) _ _ m (joined_payments-Distinct t t.payments d)
        (suc (length t.payments)) (omega (arith, few))

  -- The same of the events: those of the merchant alone.
  get_events_read :
      (h : IsCodec c) (m merchant_id : ℕ) (event_type entity_type : Option String)
      (created_gte created_lte : Option ℕ) (include_count : Bool) (db : Db)
      → Distinct DomainEvent.event_id db.events
      → read_pages
          (λ cursor.
            get_events c merchant_id cursor
              (suc m)
              event_type
              entity_type
              created_gte
              created_lte
              include_count
              db)
          (suc (length db.events))
          none
        ≡ some (
            map event_row (
              order_by DomainEvent.created_at DomainEvent.event_id (
                select
                  (keeps_event merchant_id event_type entity_type created_gte created_lte)
                  db.events)))
  unfolding get_events
  get_events_read h m merchant_id event_type entity_type created_gte created_lte include_count db
        d =
      read_pages-map event_row _ (suc (length db.events)) none _ (
        read_pages-order_by c h DomainEvent.created_at DomainEvent.event_id db.events _ _ m d
          (suc (length db.events)) (omega arith))
