-- ===== src/Connect/Bulk/Resolving.antt =====
-- src/services/bulk_service.py of services/connect-service: the caches of its process in front of the
-- replica's merchants.
use multi_tenant_event_drive.Prelude.{
  ℕ, ◌+◌, Bool, true, false, Option, none, some, List, ◌∷◌, ltb, if◌then◌else◌,
}
use multi_tenant_event_drive.Prelude.Table.{find}
use multi_tenant_event_drive.Core.Rows.{Text, Merchant, MerchantStatus, active, suspended}
use multi_tenant_event_drive.Core.Merchants.{
  Db, Cached, get_merchant, cached_schema, schema_cache_ttl,
}
use multi_tenant_event_drive.Core.SchemaName.{valid_schema_name}
use multi_tenant_event_drive.Connect.Bulk.{
  Reply, answer, fault, merchant_inactive, invalid_schema_name,
}

-- `_uuid_to_id_cache[merchant_uuid] = (merchant_id, expires_at)`
pub record CachedId : Type 0 where
  pub merchant_uuid : ℕ
  pub merchant_id : ℕ
  pub expires_at : ℕ

pub record Caches : Type 0 where
  pub schema_cache : List Cached
  pub uuid_cache : List CachedId

abbrev pub uuid_cache_ttl : ℕ
uuid_cache_ttl = 300

abbrev pub cached_id : (now merchant_uuid : ℕ) → List CachedId → Option ℕ
cached_id now merchant_uuid cache = elim (find CachedId.merchant_uuid merchant_uuid cache) [
  | none ↦ none
  | some c ↦ if ltb now c.expires_at then some c.merchant_id else none
]

unfoldable pub resolve_merchant_uuid_to_id :
    (now merchant_uuid : ℕ) → Db → Caches → Option ℕ × Caches
resolve_merchant_uuid_to_id now merchant_uuid db caches =
    elim (cached_id now merchant_uuid caches.uuid_cache) [
      | some merchant_id ↦ (some merchant_id, caches)
      | none ↦ elim (find Merchant.merchant_uuid merchant_uuid db.merchants) [
        | none ↦ (none, caches)
        | some m ↦ (
          some m.merchant_id,
          record caches {
            uuid_cache =
                record {
                  merchant_uuid = merchant_uuid;
                  merchant_id = m.merchant_id;
                  expires_at = now + uuid_cache_ttl;
                }
                ∷ caches.uuid_cache;
          },
        )
      ]
    ]

abbrev pub is_active : MerchantStatus → Bool
is_active active = true
is_active suspended = false

-- WHERE merchant_id = $1 AND status = 'active'
abbrev pub active_merchant : ℕ → Db → Option Merchant
active_merchant merchant_id db = elim (get_merchant merchant_id db) [
  | none ↦ none
  | some m ↦ if is_active m.status then some m else none
]

unfoldable pub resolve_merchant_schema : (now merchant_id : ℕ) → Db → Caches → Reply Text × Caches
unfolding cached_schema
resolve_merchant_schema now merchant_id db caches =
    elim (cached_schema now merchant_id caches.schema_cache) [
      | some schema ↦ (answer schema, caches)
      | none ↦ elim (active_merchant merchant_id db) [
        | none ↦ (fault merchant_inactive, caches)
        | some m ↦
            if valid_schema_name m.schema_name
            then (
              answer m.schema_name,
              record caches {
                schema_cache =
                    record {
                      merchant_id = merchant_id;
                      schema = m.schema_name;
                      expires_at = now + schema_cache_ttl;
                    }
                    ∷ caches.schema_cache;
              },
            )
            else (fault invalid_schema_name, caches)
      ]
    ]
