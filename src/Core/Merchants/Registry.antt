-- ===== src/Core/Merchants/Registry.antt =====
-- What stays true of the registry: the cache never disagrees with the database, and two merchants
-- never share a schema (src/services/merchant_service.py).
use multi_tenant_event_drive.Prelude.{
  ℕ, ◌<◌, ◌≡◌, inl, inr, false, Option, none, some, List, [], ◌∷◌, All, arith, Bool-cases,
  Option-cases,
}
use multi_tenant_event_drive.Prelude.Table.{find, find-key, Distinct, All-find}
use multi_tenant_event_drive.Core.Rows.{Text, Merchant}
use multi_tenant_event_drive.Core.Scope.{Tx, Result, ok, err}
use multi_tenant_event_drive.Core.SchemaName.{valid_schema_name}
use multi_tenant_event_drive.Core.Merchants.{
  Db, Cached, App, cached_schema, get_merchant_schema, transaction, on_schema, service,
  schema_taken,
}

-- The schema that the database has for a merchant.
abbrev pub schema_of : ℕ → List Merchant → Option Text
schema_of merchant_id ms = elim (find Merchant.merchant_id merchant_id ms) [
  | none ↦ none
  | some m ↦ some m.schema_name
]

abbrev pub DistinctSchemas : List Merchant → Type 0
DistinctSchemas [] = Unit
DistinctSchemas (m ∷ ms) = (schema_taken m.schema_name ms ≡ false) × DistinctSchemas ms

pub record IsRegistry (app : App) : Type 0 where
  pub ids : Distinct Merchant.merchant_id app.merchants
  pub ids_below : All (λ m. m.merchant_id < app.next_merchant) app.merchants
  pub schemas_distinct : DistinctSchemas app.merchants
  pub cache_ok : All (λ c. schema_of c.merchant_id app.merchants ≡ some c.schema) app.schema_cache

-- What the cache answers is what the database has.
pub cached_schema_sound :
    (now merchant_id : ℕ) (ms : List Merchant) (cache : List Cached) (schema : Text)
    → All (λ c. schema_of c.merchant_id ms ≡ some c.schema) cache
    → cached_schema now merchant_id cache ≡ some schema
    → schema_of merchant_id ms ≡ some schema
unfolding cached_schema
cached_schema_sound now merchant_id ms cache schema h e =
    elim (Option-cases (find Cached.merchant_id merchant_id cache)) [
      | inl missing ↦ ground arith
      | inr (c, found) ↦ ground (
        arith,
        All-find Cached.merchant_id (λ c. schema_of c.merchant_id ms ≡ some c.schema) merchant_id
            cache c h found,
        find-key Cached.merchant_id merchant_id cache c found,
      )
    ]

-- Over a sound registry, the schema that `get_merchant_schema` answers, from its cache or from the
-- database, is the merchant's schema in the database.
pub get_merchant_schema_sound :
    (now merchant_id : ℕ) (app : App) (schema : Text)
    → IsRegistry app
    → (get_merchant_schema now merchant_id app).0 ≡ ok schema
    → schema_of merchant_id app.merchants ≡ some schema
unfolding get_merchant_schema
get_merchant_schema_sound now merchant_id app schema h e =
    elim (Option-cases (cached_schema now merchant_id app.schema_cache)) [
      | inl missed ↦ ground arith
      | inr (hit, found) ↦ ground (
        arith,
        cached_schema_sound now merchant_id app.merchants app.schema_cache hit h.cache_ok found,
      )
    ]

pub db-get_merchant_schema :
    (now merchant_id : ℕ) (app : App) → (get_merchant_schema now merchant_id app).1.db ≡ app.db
unfolding get_merchant_schema
db-get_merchant_schema now merchant_id app = ground arith

cache-get_merchant_schema :
    (now merchant_id : ℕ) (app : App)
    → IsRegistry app
    → All
        (λ c. schema_of c.merchant_id app.merchants ≡ some c.schema)
        (get_merchant_schema now merchant_id app).1.schema_cache
unfolding get_merchant_schema
cache-get_merchant_schema now merchant_id app h =
    elim (Option-cases (cached_schema now merchant_id app.schema_cache)) [
      | inr (hit, e) ↦ rw (e, get_merchant_schema) h.cache_ok
      | inl miss ↦ elim (Option-cases (find Merchant.merchant_id merchant_id app.merchants)) [
        | inl unknown ↦ rw (miss, unknown, get_merchant_schema) h.cache_ok
        | inr (m, e) ↦ elim (Bool-cases (valid_schema_name m.schema_name)) [
          | inl valid ↦ rw (miss, e, valid, get_merchant_schema) (rw (e, schema_of), h.cache_ok)
          | inr invalid ↦ rw (miss, e, invalid, get_merchant_schema) h.cache_ok
        ]
      ]
    ]

pub get_merchant_schema-IsRegistry :
    (now merchant_id : ℕ) (app : App)
    → IsRegistry app
    → IsRegistry (get_merchant_schema now merchant_id app).1
get_merchant_schema-IsRegistry now merchant_id app h =
    let same = db-get_merchant_schema now merchant_id app in
    record {
      ids = rw same h.ids;
      ids_below = rw same h.ids_below;
      schemas_distinct = rw same h.schemas_distinct;
      cache_ok = rw same (cache-get_merchant_schema now merchant_id app h);
    }

merchants-transaction :
    {A : Type 0} (schema : Text) (body : Tx A) (db : Db)
    → ((transaction schema body db).1.merchants ≡ db.merchants)
      × ((transaction schema body db).1.next_merchant ≡ db.next_merchant)
unfolding transaction
merchants-transaction schema body db = ground arith

on_schema-IsRegistry :
    {A : Type 0} (r : Result Text) (body : Text → Tx A) (app : App)
    → IsRegistry app
    → IsRegistry (on_schema r body app).1
unfolding on_schema
on_schema-IsRegistry (err e) body app h = h
on_schema-IsRegistry (ok schema) body app h =
    let (same, next) = merchants-transaction schema (body schema) app.db in
    record {
      ids = rw same h.ids;
      ids_below = rw (same, next) h.ids_below;
      schemas_distinct = rw same h.schemas_distinct;
      cache_ok = rw same h.cache_ok;
    }

-- No service on a tenant touches the registry.
pub service-IsRegistry :
    {A : Type 0} (now merchant_id : ℕ) (body : Text → Tx A) (app : App)
    → IsRegistry app
    → IsRegistry (service now merchant_id body app).1
unfolding service
service-IsRegistry now merchant_id body app h =
    let (r, app') = get_merchant_schema now merchant_id app in
    on_schema-IsRegistry r body app' (get_merchant_schema-IsRegistry now merchant_id app h)
