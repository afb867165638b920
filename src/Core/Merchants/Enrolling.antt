-- ===== src/Core/Merchants/Enrolling.antt =====
-- `create_merchant` and `update_merchant` keep the registry sound (src/services/merchant_service.py).
use multi_tenant_event_drive.Prelude.{
  text_eq, text_eq_sym, ℕ, String, ◌+◌, ◌<◌, ◌≡◌, refl, ◌∙◌, false, ◌||◌, Option, none, some, List,
  [], ◌∷◌, ◌++◌, All, All-append, All-imp, arith,
}
use multi_tenant_event_drive.Prelude.Table.{find, has, update, Distinct-insert}
use multi_tenant_event_drive.Prelude.Keyed.{Distinct-update_by, find-append}
use multi_tenant_event_drive.Core.Rows.{Text, Merchant, MerchantStatus}
use multi_tenant_event_drive.Core.Scope.{ok}
use multi_tenant_event_drive.Core.Merchants.{
  Db, App, Cached, schema_taken, NewMerchant, new_merchant, schema_name_of, create_merchant,
  set_merchant, update_merchant,
}
use multi_tenant_event_drive.Core.Merchants.Registry.{schema_of, DistinctSchemas, IsRegistry}

schema_taken-append :
    (t : Text) (ms : List Merchant) (m : Merchant)
    → schema_taken t (ms ++ m ∷ []) ≡ (schema_taken t ms || text_eq m.schema_name t)
schema_taken-append t [] m = ground arith
schema_taken-append t (x ∷ xs) m = ground (arith, schema_taken-append t xs m)

DistinctSchemas-insert :
    (ms : List Merchant) (m : Merchant)
    → DistinctSchemas ms
    → schema_taken m.schema_name ms ≡ false
    → DistinctSchemas (ms ++ m ∷ [])
DistinctSchemas-insert [] m d free = (refl, tt)
DistinctSchemas-insert (x ∷ xs) m d free = ground (
  arith,
  DistinctSchemas-insert xs m d.1,
  schema_taken-append x.schema_name xs m,
  text_eq_sym x.schema_name m.schema_name,
)

id_unused :
    (n : ℕ) (ms : List Merchant)
    → All (λ m. m.merchant_id < n) ms
    → has Merchant.merchant_id n ms ≡ false
id_unused n [] h = refl
id_unused n (m ∷ ms) h = ground (arith, id_unused n ms h.1)

-- The new row in the registry.
pub record Enrolled (fresh : NewMerchant) (name email : String) (db db' : Db) : Type 0 where
  pub free : schema_taken (schema_name_of fresh) db.merchants ≡ false
  pub merchants_after :
      db'.merchants
      ≡ db.merchants
        ++ record (new_merchant fresh name email db.next_merchant) {
          schema_name = schema_name_of fresh;
          updated_at = fresh.updated_at;
        }
          ∷ []
  pub next_after : db'.next_merchant ≡ db.next_merchant + 1

create_merchant-ok :
    (fresh : NewMerchant) (name email : String) (db db' : Db) (m : Merchant)
    → create_merchant fresh name email db ≡ (ok m, db')
    → Enrolled fresh name email db db'
unfolding create_merchant
create_merchant-ok fresh name email db db' m h = record {
  free = ground arith;
  merchants_after = ground arith;
  next_after = ground arith;
}

cache-insert :
    (ms : List Merchant) (m : Merchant) (cache : List Cached)
    → All (λ c. schema_of c.merchant_id ms ≡ some c.schema) cache
    → All (λ c. schema_of c.merchant_id (ms ++ m ∷ []) ≡ some c.schema) cache
cache-insert ms m [] h = tt
cache-insert ms m (c ∷ cs) h =
    (kept (find Merchant.merchant_id c.merchant_id ms) refl h.0, cache-insert ms m cs h.1)
  where
    kept :
        (found : Option Merchant)
        → find Merchant.merchant_id c.merchant_id ms ≡ found
        → schema_of c.merchant_id ms ≡ some c.schema
        → schema_of c.merchant_id (ms ++ m ∷ []) ≡ some c.schema
    kept none e k = ground arith
    kept (some x) e k =
        ground (arith, find-append Merchant.merchant_id c.merchant_id ms (m ∷ []) x e)

-- A merchant that is created without an error keeps the registry sound: it has an id and a schema of
-- its own, and no cached schema becomes wrong.
pub create_merchant-IsRegistry :
    (fresh : NewMerchant) (name email : String) (app : App) (m : Merchant) (db' : Db)
    → IsRegistry app
    → create_merchant fresh name email app.db ≡ (ok m, db')
    → IsRegistry (record app { db = db' })
create_merchant-IsRegistry fresh name email app m db' h e =
    let done = create_merchant-ok fresh name email app.db db' m e in
    let row = record (new_merchant fresh name email app.next_merchant) {
      schema_name = schema_name_of fresh;
      updated_at = fresh.updated_at;
    } in
    let below = λ (x : Merchant). x.merchant_id < app.next_merchant + 1 in
    record {
      ids = rw done.merchants_after (
          Distinct-insert Merchant.merchant_id row app.merchants h.ids
            (id_unused app.next_merchant app.merchants h.ids_below));
      ids_below =
          rw (done.merchants_after, done.next_after)
            (All-append below app.merchants (row ∷ [])
              (All-imp (λ x. x.merchant_id < app.next_merchant) below app.merchants
                (λ x b. omega arith) h.ids_below)
              (omega arith));
      schemas_distinct =
          rw done.merchants_after
            (DistinctSchemas-insert app.merchants row h.schemas_distinct done.free);
      cache_ok =
          rw done.merchants_after (cache-insert app.merchants row app.schema_cache h.cache_ok);
    }

module _ (change : Merchant → Merchant)
    (same_id : (m : Merchant) → (change m).merchant_id ≡ m.merchant_id)
    (same_schema : (m : Merchant) → (change m).schema_name ≡ m.schema_name) where
  schema_taken-update :
      (t : Text) (k : ℕ) (ms : List Merchant)
      → schema_taken t (update Merchant.merchant_id k change ms) ≡ schema_taken t ms
  schema_taken-update t k [] = refl
  schema_taken-update t k (m ∷ ms) = ground (arith, same_schema m, schema_taken-update t k ms)

  DistinctSchemas-update :
      (k : ℕ) (ms : List Merchant)
      → DistinctSchemas ms
      → DistinctSchemas (update Merchant.merchant_id k change ms)
  DistinctSchemas-update k [] d = tt
  DistinctSchemas-update k (m ∷ ms) d = ground (
    arith,
    same_schema m,
    schema_taken-update m.schema_name k ms,
    DistinctSchemas-update k ms d.1,
  )

  ids_below-update :
      (n k : ℕ) (ms : List Merchant)
      → All (λ m. m.merchant_id < n) ms
      → All (λ m. m.merchant_id < n) (update Merchant.merchant_id k change ms)
  ids_below-update n k [] h = tt
  ids_below-update n k (m ∷ ms) h = ground (arith, same_id m, ids_below-update n k ms h.1)

  schema_of-update :
      (j k : ℕ) (ms : List Merchant)
      → schema_of j (update Merchant.merchant_id k change ms) ≡ schema_of j ms
  schema_of-update j k [] = refl
  schema_of-update j k (m ∷ ms) = ground (arith, same_id m, same_schema m, schema_of-update j k ms)

  cache-update :
      (k : ℕ) (ms : List Merchant) (cache : List Cached)
      → All (λ c. schema_of c.merchant_id ms ≡ some c.schema) cache
      → All
          (λ c. schema_of c.merchant_id (update Merchant.merchant_id k change ms) ≡ some c.schema)
          cache
  cache-update k ms [] h = tt
  cache-update k ms (c ∷ cs) h =
      (schema_of-update c.merchant_id k ms ∙ h.0, cache-update k ms cs h.1)

update_merchant-ok :
    (event_uuid now emitted_at merchant_id : ℕ) (name email : Option String)
    (status : Option MerchantStatus) (db db' : Db) (m : Merchant)
    → update_merchant event_uuid now emitted_at merchant_id name email status db ≡ (ok m, db')
    → (db'.merchants
        ≡ update Merchant.merchant_id merchant_id (set_merchant name email status now) db.merchants)
      × (db'.next_merchant ≡ db.next_merchant)
unfolding update_merchant
update_merchant-ok event_uuid now emitted_at merchant_id name email status db db' m h = ground arith

-- An update of a merchant that succeeds keeps the registry sound: ids, schemas and cached schemas are
-- what they were.
pub update_merchant-IsRegistry :
    (event_uuid now emitted_at merchant_id : ℕ) (name email : Option String)
    (status : Option MerchantStatus) (app : App) (m : Merchant) (db' : Db)
    → IsRegistry app
    → update_merchant event_uuid now emitted_at merchant_id name email status app.db ≡ (ok m, db')
    → IsRegistry (record app { db = db' })
update_merchant-IsRegistry event_uuid now emitted_at merchant_id name email status app m db' h e =
    let change = set_merchant name email status now in
    let (rows, next) =
      update_merchant-ok event_uuid now emitted_at merchant_id name email status app.db db' m e in
    record {
      ids = rw rows (
          Distinct-update_by Merchant.merchant_id Merchant.merchant_id change (λ x. refl)
            merchant_id app.merchants h.ids);
      ids_below =
          rw (rows, next)
            (ids_below-update change (λ x. refl) (λ x. refl) app.next_merchant merchant_id
              app.merchants h.ids_below);
      schemas_distinct = rw rows (
          DistinctSchemas-update change (λ x. refl) (λ x. refl) merchant_id app.merchants
            h.schemas_distinct);
      cache_ok = rw rows (
          cache-update change (λ x. refl) (λ x. refl) merchant_id app.merchants app.schema_cache
            h.cache_ok);
    }
