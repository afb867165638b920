-- ===== src/Connect/ReadModel/Consumer/Once.antt =====
-- The claims of src/utils/idempotency.py: what a message that comes again, or that comes after a crash,
-- does in src/consumers/db_sync_consumer.py of services/connect-service.
use multi_tenant_event_drive.Prelude.{
  ℕ, ◌≡◌, refl, ◌∙◌, inl, inr, true, false, Option, none, some, List, [], ◌∷◌, ◌++◌, arith, All,
  if◌then◌else◌, Bool-cases, Option-cases,
}
use multi_tenant_event_drive.Prelude.Table.{has, has-append}
use multi_tenant_event_drive.Core.Rows.{
  Text, Merchant, DomainEvent, EventType, merchant_created, merchant_updated, customer_created,
  customer_updated, customer_deleted, payment_created, payment_authorized, payment_captured,
  payment_failed, payment_settled, payment_updated, refund_initiated, refund_processed, Payload,
  of_merchant, of_customer, of_deleted, of_payment, of_refund, of_new_refund,
}
use multi_tenant_event_drive.Core.Merchants.{tables_of}
use multi_tenant_event_drive.Connect.ReadModel.{ReadTables, ReadDb}
use multi_tenant_event_drive.Connect.ReadModel.Consumer.{
  try_claim_event, ensure_merchant_schema, sync_merchant_updated, sync_merchant_created,
  with_merchant, put_tables, on_tables, bury, dispatch, sync_event, prepare, process, commits,
  consume, consume_all,
}

abbrev pub same_id : ℕ → ℕ
same_id id = id

-- The events whose id is in none of `seen` and in no event before them.
abbrev pub firsts : List ℕ → List DomainEvent → List DomainEvent
firsts seen [] = []
firsts seen (e ∷ es) =
    let rest = firsts (seen ++ e.event_id ∷ []) es in
    if has same_id e.event_id seen then firsts seen es else e ∷ rest

bury-processed : (e : DomainEvent) (db : ReadDb) → (bury e db).processed ≡ db.processed
unfolding bury
bury-processed e db = ground arith

ensure_merchant_schema-processed :
    (schema : Text) (db db' : ReadDb)
    → ensure_merchant_schema schema db ≡ some db'
    → db'.processed ≡ db.processed
unfolding ensure_merchant_schema
ensure_merchant_schema-processed schema db db' h = ground arith

sync_merchant_updated-processed :
    (m : Merchant) (db db' : ReadDb)
    → sync_merchant_updated m db ≡ some db'
    → db'.processed ≡ db.processed
unfolding sync_merchant_updated
sync_merchant_updated-processed m db db' h = ground arith

sync_merchant_created-processed :
    (m : Merchant) (db db' : ReadDb)
    → sync_merchant_created m db ≡ some db'
    → db'.processed ≡ db.processed
unfolding sync_merchant_created
sync_merchant_created-processed m db db' h =
    ground (arith, sync_merchant_updated-processed m db db')

put_tables-processed :
    (schema : Text) (db db' : ReadDb) (t : Option ReadTables)
    → put_tables schema db t ≡ some db'
    → db'.processed ≡ db.processed
put_tables-processed schema db db' none h = cc
put_tables-processed schema db db' (some t) h = ground arith

on_tables-processed :
    (schema : Text) (body : ReadTables → Option ReadTables) (db db' : ReadDb)
    → on_tables schema body db ≡ some db'
    → db'.processed ≡ db.processed
on_tables-processed schema body db db' h = elim (Option-cases (tables_of schema db.schemas)) [
  | inl missing ↦ ground arith
  | inr (t, e) ↦ put_tables-processed schema db db' (body t) (rw (e, on_tables) at h)
]

with_merchant-processed :
    (p : Payload) (body : Merchant → Option ReadDb) (db db' : ReadDb)
    → ((m : Merchant) → body m ≡ some db' → db'.processed ≡ db.processed)
    → with_merchant p body ≡ some db'
    → db'.processed ≡ db.processed
with_merchant-processed (of_merchant m) body db db' f h = f m h
with_merchant-processed (of_customer v) body db db' f h = cc
with_merchant-processed (of_deleted v) body db db' f h = cc
with_merchant-processed (of_payment v) body db db' f h = cc
with_merchant-processed (of_refund v) body db db' f h = cc
with_merchant-processed (of_new_refund v a c) body db db' f h = cc

prepare-processed :
    (event_type : EventType) (e : DomainEvent) (db db' : ReadDb)
    → prepare event_type e db ≡ some db'
    → db'.processed ≡ db.processed
unfolding prepare
prepare-processed event_type e db db' h =
    ground (arith, ensure_merchant_schema-processed e.schema_name db db')

module _ (date_of : ℕ → ℕ) (percent : ℕ → ℕ → ℕ) where
  dispatch-processed :
      (event_type : EventType) (e : DomainEvent) (db db' : ReadDb)
      → dispatch date_of percent event_type e db ≡ some db'
      → db'.processed ≡ db.processed
  unfolding dispatch
  dispatch-processed merchant_created e db db' h =
      with_merchant-processed e.payload _ db db' (λ m. sync_merchant_created-processed m db db') h
  dispatch-processed merchant_updated e db db' h =
      with_merchant-processed e.payload _ db db' (λ m. sync_merchant_updated-processed m db db') h
  dispatch-processed payment_settled e db db' h = ground arith
  dispatch-processed customer_created e db db' h = on_tables-processed e.schema_name _ db db' h
  dispatch-processed customer_updated e db db' h = on_tables-processed e.schema_name _ db db' h
  dispatch-processed customer_deleted e db db' h = on_tables-processed e.schema_name _ db db' h
  dispatch-processed payment_created e db db' h = on_tables-processed e.schema_name _ db db' h
  dispatch-processed payment_authorized e db db' h = on_tables-processed e.schema_name _ db db' h
  dispatch-processed payment_captured e db db' h = on_tables-processed e.schema_name _ db db' h
  dispatch-processed payment_failed e db db' h = on_tables-processed e.schema_name _ db db' h
  dispatch-processed payment_updated e db db' h = on_tables-processed e.schema_name _ db db' h
  dispatch-processed refund_initiated e db db' h = on_tables-processed e.schema_name _ db db' h
  dispatch-processed refund_processed e db db' h = on_tables-processed e.schema_name _ db db' h

  sync_event-processed :
      (e : DomainEvent) (db db' : ReadDb)
      → sync_event date_of percent e db ≡ some db'
      → db'.processed ≡ db.processed
  unfolding sync_event
  sync_event-processed e db db' h = ground (arith, dispatch-processed e.event_type e db db')

  process-processed :
      (e : DomainEvent) (db : ReadDb) → (process date_of percent e db).processed ≡ db.processed
  unfolding process
  process-processed e db = elim (Option-cases (prepare e.event_type e db)) [
    | inl raised ↦ ground (arith, bury-processed e db)
    | inr (db', prepared) ↦ elim (Option-cases (sync_event date_of percent e db')) [
      | inl raised ↦ ground (arith, bury-processed e db', prepare-processed e.event_type e db db')
      | inr (db'', synced) ↦
          ground (arith, sync_event-processed e db' db'', prepare-processed e.event_type e db db')
    ]
  ]

  pub consume_claimed :
      (e : DomainEvent) (db : ReadDb)
      → has same_id e.event_id db.processed ≡ true
      → consume date_of percent e db ≡ db
  unfolding consume commits try_claim_event
  consume_claimed e db h = rw (h, consume, commits, try_claim_event) refl

  pub consume-processed :
      (e : DomainEvent) (db : ReadDb)
      → has same_id e.event_id db.processed ≡ false
      → (consume date_of percent e db).processed ≡ db.processed ++ e.event_id ∷ []
  unfolding consume commits try_claim_event
  consume-processed e db h =
      ground
        (arith, process-processed e (record db { processed = db.processed ++ e.event_id ∷ [] }))

  -- However often and in whatever order messages come again, the database ends as if each event id
  -- that was not processed before had come once, at the place of its first message.
  pub consume_all_once :
      (es : List DomainEvent) (db : ReadDb)
      → consume_all date_of percent es db ≡ consume_all date_of percent (firsts db.processed es) db
  unfolding consume_all
  consume_all_once [] db = refl
  consume_all_once (e ∷ es) db = elim (Bool-cases (has same_id e.event_id db.processed)) [
    | inl known ↦ ground (arith, consume_claimed e db, consume_all_once es db)
    | inr new ↦
        ground (arith, consume-processed e db, consume_all_once es (consume date_of percent e db))
  ]

  firsts-none :
      (id : ℕ) (seen : List ℕ) (es : List DomainEvent)
      → has same_id id seen ≡ true
      → All (λ (e : DomainEvent). e.event_id ≡ id) es
      → firsts seen es ≡ []
  firsts-none id seen [] h same = refl
  firsts-none id seen (e ∷ es) h same = rw (same.0, h) (firsts-none id seen es h same.1)

  -- Where an event that was not claimed before comes, and the process stops after the first step that it
  -- commits, the messages of that event that come afterwards change nothing, and that step has changed
  -- neither the tables nor the merchants nor the dead letters: the event is lost.
  pub crash_loses :
      (e : DomainEvent) (again : List DomainEvent) (db : ReadDb)
      → has same_id e.event_id db.processed ≡ false
      → All (λ (d : DomainEvent). d.event_id ≡ e.event_id) again
      → (first : ReadDb) × (rest : List ReadDb) × (commits date_of percent e db ≡ first ∷ rest)
        × (consume_all date_of percent again first ≡ first)
        × (first.schemas ≡ db.schemas)
        × (first.merchants ≡ db.merchants)
        × (first.dead_letters ≡ db.dead_letters)
  unfolding try_claim_event consume_all commits
  crash_loses e again db new same =
      let claimed = record db { processed = db.processed ++ e.event_id ∷ [] } in
      let known : has same_id e.event_id claimed.processed ≡ true =
        ground (arith, has-append same_id e.event_id db.processed (e.event_id ∷ [])) in
      let dropped = firsts-none e.event_id claimed.processed again known same in
      (
        claimed,
        process date_of percent e claimed ∷ [],
        rw (new, commits, try_claim_event) refl,
        consume_all_once again claimed ∙ rw dropped refl,
        refl,
        refl,
        refl,
      )
