-- ===== src/Connect/Access.antt =====
-- src/services/oauth_service.py of services/connect-service: the third-party consumers, and the copies of
-- their rows in Redis.
pub mod Managing
pub mod Grants
pub mod Tokens
pub mod Gate
pub mod Coherence
pub mod Granted
pub mod Inactive
pub mod Overlap
pub mod Endpoint
use multi_tenant_event_drive.Prelude.{
  ℕ, String, ◌+◌, Bool, true, false, ◌&&◌, Option, none, some, List, [], ◌∷◌, ◌++◌, ltb, ◌==◌,
  or_else, if◌then◌else◌,
}
use multi_tenant_event_drive.Prelude.Table.{find, has, update, delete}
use multi_tenant_event_drive.Core.Merchants.{Db}
use multi_tenant_event_drive.Connect.Bulk.Resolving.{Caches}

-- A row of public.third_party_consumers, less the hash of the secret: what the service shows. The
-- statuses are texts: "active", "suspended", "revoked", and whatever a PUT sets.
pub record Consumer : Type 0 where
  pub consumer_id : ℕ
  pub name : String
  pub description : Option String
  pub client_id : String
  pub scopes : List String
  pub status : String
  pub webhook_url : Option String
  pub webhook_event_types : List String
  pub webhook_signing_secret : String
  pub rate_limit_requests : ℕ
  pub rate_limit_window_seconds : ℕ
  pub metadata : String
  pub created_at : ℕ
  pub updated_at : ℕ
  pub created_by : String

pub record ConsumerRow : Type 0 where
  pub consumer : Consumer
  pub client_secret_hash : String

abbrev pub row_id : ConsumerRow → ℕ
row_id r = r.consumer.consumer_id

-- `consumer:{consumer_id}` in Redis, with its expiry.
pub record CachedConsumer : Type 0 where
  pub consumer_id : ℕ
  pub consumer : Consumer
  pub expires_at : ℕ

-- A row of public.consumer_merchant_access, less its generated id.
pub record Grant : Type 0 where
  pub consumer_id : ℕ
  pub merchant_id : ℕ
  pub scopes : List String
  pub granted_at : ℕ
  pub granted_by : String

-- The database with the merchants, the consumers and their grants, Redis, and the caches of the process.
pub record Access : Type 0 where
  pub db : Db
  pub consumers : List ConsumerRow
  pub grants : List Grant
  pub redis : List CachedConsumer
  pub caches : Caches

abbrev pub consumer_cache_ttl : ℕ
consumer_cache_ttl = 60

abbrev pub shown : Option ConsumerRow → Option Consumer
shown none = none
shown (some r) = some r.consumer

unfoldable pub get_consumer : ℕ → List ConsumerRow → Option Consumer
get_consumer consumer_id rows = shown (find row_id consumer_id rows)

abbrev pub alive : (now : ℕ) → Option CachedConsumer → Option Consumer
alive now none = none
alive now (some e) = if ltb now e.expires_at then some e.consumer else none

-- GET consumer:…
unfoldable pub cached_consumer : (now consumer_id : ℕ) → List CachedConsumer → Option Consumer
cached_consumer now consumer_id redis =
    alive now (find CachedConsumer.consumer_id consumer_id redis)

-- SET consumer:… EX 60
unfoldable pub remember :
    (now consumer_id : ℕ) → Consumer → List CachedConsumer → List CachedConsumer
remember now consumer_id consumer redis =
    record { consumer_id = consumer_id; consumer = consumer; expires_at = now + consumer_cache_ttl }
    ∷ delete CachedConsumer.consumer_id consumer_id redis

abbrev pub remember_found :
    (now consumer_id : ℕ) → Option Consumer → Access → Option Consumer × Access
remember_found now consumer_id none a = (none, a)
remember_found now consumer_id (some consumer) a =
    (some consumer, record a { redis = remember now consumer_id consumer a.redis })

unfoldable pub get_cached_consumer : (now consumer_id : ℕ) → Access → Option Consumer × Access
unfolding cached_consumer get_consumer remember
get_cached_consumer now consumer_id a = elim (cached_consumer now consumer_id a.redis) [
  | some consumer ↦ (some consumer, a)
  | none ↦ remember_found now consumer_id (get_consumer consumer_id a.consumers) a
]

unfoldable pub invalidate_consumer_cache : ℕ → List CachedConsumer → List CachedConsumer
invalidate_consumer_cache consumer_id redis = delete CachedConsumer.consumer_id consumer_id redis
