-- ===== src/Core/Merchants/Isolation.antt =====
-- Tenant isolation: a service that runs for one merchant touches no other merchant's tables.
use multi_tenant_event_drive.Prelude.{
  text_eq, text_eq-eq, text_eq_sym, ℕ, ◌≡◌, refl, ◌∙◌, ◌≢◌, inl, inr, false, some, List, [], ◌∷◌,
  arith, Bool-cases, Option-cases,
}
use multi_tenant_event_drive.Prelude.Table.{find}
use multi_tenant_event_drive.Core.Rows.{Text, Merchant}
use multi_tenant_event_drive.Core.Scope.{Scope, Tx, Result, ok, err}
use multi_tenant_event_drive.Core.Merchants.{
  tables_of, set_tables, Db, App, get_merchant_schema, settle, transaction, on_schema, service,
  schema_taken,
}
use multi_tenant_event_drive.Core.Merchants.Registry.{
  schema_of, DistinctSchemas, IsRegistry, get_merchant_schema_sound, db-get_merchant_schema,
}

pub tables_of-set_tables_ne :
    {A : Type 0} (mine theirs : Text) (new : A) (schemas : List (Text × A))
    → text_eq mine theirs ≡ false
    → tables_of theirs (set_tables mine new schemas) ≡ tables_of theirs schemas
tables_of-set_tables_ne mine theirs new [] h = refl
tables_of-set_tables_ne mine theirs new ((name, t) ∷ rest) h =
    elim (Bool-cases (text_eq name mine)) [
      | inl same ↦
          rw (text_eq-eq name mine same, h) (tables_of-set_tables_ne mine theirs new rest h)
      | inr other ↦ ground (arith, tables_of-set_tables_ne mine theirs new rest h)
    ]

schema_taken-find :
    (schema : Text) (k : ℕ) (ms : List Merchant) (m : Merchant)
    → find Merchant.merchant_id k ms ≡ some m
    → schema_taken schema ms ≡ false
    → text_eq m.schema_name schema ≡ false
schema_taken-find schema k [] m found free = cc
schema_taken-find schema k (x ∷ xs) m found free = ground (arith, schema_taken-find schema k xs m)

distinct_schemas :
    (j k : ℕ) (ms : List Merchant) (m n : Merchant)
    → j ≢ k
    → DistinctSchemas ms
    → find Merchant.merchant_id j ms ≡ some m
    → find Merchant.merchant_id k ms ≡ some n
    → text_eq m.schema_name n.schema_name ≡ false
distinct_schemas j k [] m n ne d fj fk = cc
distinct_schemas j k (x ∷ xs) m n ne d fj fk = ground (
  arith,
  distinct_schemas j k xs m n ne d.1,
  schema_taken-find x.schema_name k xs n,
  schema_taken-find x.schema_name j xs m,
  text_eq_sym m.schema_name n.schema_name,
)

settle_isolates :
    {A : Type 0} (mine theirs : Text) (r : Result (A × Scope)) (db : Db)
    → text_eq mine theirs ≡ false
    → tables_of theirs (settle mine r db).1.schemas ≡ tables_of theirs db.schemas
unfolding settle
settle_isolates mine theirs (err e) db h = refl
settle_isolates mine theirs (ok (a, s)) db h =
    tables_of-set_tables_ne mine theirs s.tables db.schemas h

transaction_isolates :
    {A : Type 0} (mine theirs : Text) (body : Tx A) (db : Db)
    → text_eq mine theirs ≡ false
    → tables_of theirs (transaction mine body db).1.schemas ≡ tables_of theirs db.schemas
unfolding transaction
transaction_isolates mine theirs body db h = elim (Option-cases (tables_of mine db.schemas)) [
  | inl missing ↦ rw (missing, transaction)
  | inr (t, there) ↦
      rw (there, transaction)
        (settle_isolates mine theirs (body (record { tables = t; events = db.events })) db h)
]

on_schema_isolates :
    {A : Type 0} (r : Result Text) (body : Text → Tx A) (app : App) (theirs : Text)
    → ((schema : Text) → r ≡ ok schema → text_eq schema theirs ≡ false)
    → tables_of theirs (on_schema r body app).1.schemas ≡ tables_of theirs app.schemas
unfolding on_schema
on_schema_isolates (err e) body app theirs h = refl
on_schema_isolates (ok mine) body app theirs h =
    transaction_isolates mine theirs (body mine) app.db (h mine refl)

schema_of_distinct :
    (j k : ℕ) (ms : List Merchant) (mine theirs : Text)
    → j ≢ k
    → DistinctSchemas ms
    → schema_of j ms ≡ some mine
    → schema_of k ms ≡ some theirs
    → text_eq mine theirs ≡ false
schema_of_distinct j k ms mine theirs ne d hj hk =
    elim (Option-cases (find Merchant.merchant_id j ms)) [
      | inl missing ↦ ground arith
      | inr (m, fj) ↦ elim (Option-cases (find Merchant.merchant_id k ms)) [
        | inl missing ↦ ground arith
        | inr (n, fk) ↦ ground (arith, distinct_schemas j k ms m n ne d fj fk)
      ]
    ]

-- Over a sound registry, whatever a service does in its transaction, and whether it succeeds or
-- raises, the tables of every other registered merchant are afterwards what they were.
pub service_isolates :
    {A : Type 0} (now merchant_id other : ℕ) (body : Text → Tx A) (app : App) (theirs : Text)
    → IsRegistry app
    → merchant_id ≢ other
    → schema_of other app.merchants ≡ some theirs
    → tables_of theirs (service now merchant_id body app).1.schemas ≡ tables_of theirs app.schemas
unfolding service
service_isolates now merchant_id other body app theirs h ne hk =
    let (r, app') = get_merchant_schema now merchant_id app in
    on_schema_isolates r body app' theirs (λ mine e.
      schema_of_distinct merchant_id other app.merchants mine theirs ne h.schemas_distinct
        (get_merchant_schema_sound now merchant_id app mine h e) hk)
    ∙ rw (db-get_merchant_schema now merchant_id app)
