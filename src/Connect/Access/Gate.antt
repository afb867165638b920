-- ===== src/Connect/Access/Gate.antt =====
-- src/utils/auth.py of services/connect-service: what a request must show.
use multi_tenant_event_drive.Prelude.{
  ℕ, String, Bool, Option, none, some, List, ltb, str_eq, if◌then◌else◌,
}
use multi_tenant_event_drive.Prelude.Int.{ℤ, pos, negsuc}
use multi_tenant_event_drive.Connect.Bulk.Resolving.{resolve_merchant_uuid_to_id}
use multi_tenant_event_drive.Connect.Access.{Access, Consumer, get_cached_consumer}
use multi_tenant_event_drive.Connect.Access.Grants.{check_merchant_access}
use multi_tenant_event_drive.Connect.Access.Tokens.{Claims, Crypto, validate_token, is_in}

-- The codes of the answers 400, 401 and 403, and an exception of asyncpg on a text that is no UUID or an
-- integer that is no INT.
pub data Denial : Type 0 where
  missing_token invalid_token consumer_not_found consumer_inactive merchant_not_found
        access_denied :
      Denial
  invalid_merchant_id database_error : Denial

-- The headers of a request, of which an empty one counts as none; `some none` is a header that does not
-- parse.
pub record Headers (Token : Type 0) : Type 0 where
  pub bearer : Option Token
  pub merchant_uuid : Option (Option ℕ)
  pub merchant_id : Option (Option ℤ)

-- request.state
pub record RequestState : Type 0 where
  pub merchant_id : Option ℕ
  pub merchant_uuid : Option ℕ
  pub consumer_id : ℕ
  pub client_id : String
  pub scopes : List String
  pub consumer : Consumer

pub data Verdict : Type 0 where
  granted : RequestState → Verdict
  denied : Denial → Verdict

-- The largest INT of PostgreSQL.
abbrev pub max_int : ℕ
max_int = 2147483647

abbrev pub state_of :
    Claims → (consumer_id : ℕ) → Consumer → (merchant_id merchant_uuid : Option ℕ) → RequestState
state_of claims consumer_id consumer merchant_id merchant_uuid = record {
  merchant_id = merchant_id;
  merchant_uuid = merchant_uuid;
  consumer_id = consumer_id;
  client_id = claims.client_id;
  scopes = claims.scopes;
  consumer = consumer;
}

abbrev pub grant :
    Claims → (consumer_id : ℕ) → Consumer → (merchant_id merchant_uuid : Option ℕ) → Verdict
grant claims consumer_id consumer merchant_id merchant_uuid =
    granted (state_of claims consumer_id consumer merchant_id merchant_uuid)

-- int(X-Merchant-ID)
abbrev pub verify_merchant_id :
    Claims → (consumer_id : ℕ) → Consumer → ℤ → Access → Verdict × Access
verify_merchant_id claims consumer_id consumer (pos m) a =
    if ltb max_int m
    then (denied database_error, a)
    else if check_merchant_access consumer_id m a.grants
    then (grant claims consumer_id consumer (some m) none, a)
    else (denied access_denied, a)
verify_merchant_id claims consumer_id consumer (negsuc m) a =
    (denied (if ltb max_int m then database_error else access_denied), a)

abbrev pub check_uuid :
    Claims → (consumer_id : ℕ) → Consumer → (merchant_uuid : ℕ) → Option ℕ → Access → Verdict
check_uuid claims consumer_id consumer merchant_uuid none a = denied merchant_not_found
check_uuid claims consumer_id consumer merchant_uuid (some m) a =
    if check_merchant_access consumer_id m a.grants
    then grant claims consumer_id consumer (some m) (some merchant_uuid)
    else denied access_denied

abbrev pub verify_merchant_uuid :
    (now : ℕ)
    → Claims
    → (consumer_id : ℕ) → Consumer
    → (merchant_uuid : ℕ) → Access
    → Verdict × Access
verify_merchant_uuid now claims consumer_id consumer merchant_uuid a =
    let (found, caches) = resolve_merchant_uuid_to_id now merchant_uuid a.db a.caches in
    (check_uuid claims consumer_id consumer merchant_uuid found a, record a { caches = caches })

-- The headers that name a merchant: the UUID first, and neither is required.
unfoldable pub verify_merchant :
    {Token : Type 0}
    → (now : ℕ) → Headers Token
    → Claims
    → (consumer_id : ℕ) → Consumer
    → Access
    → Verdict × Access
unfolding check_merchant_access resolve_merchant_uuid_to_id
verify_merchant now h claims consumer_id consumer a = elim h.merchant_uuid [
  | some none ↦ (denied database_error, a)
  | some (some merchant_uuid) ↦ verify_merchant_uuid now claims consumer_id consumer merchant_uuid a
  | none ↦ elim h.merchant_id [
    | some none ↦ (denied invalid_merchant_id, a)
    | some (some m) ↦ verify_merchant_id claims consumer_id consumer m a
    | none ↦ (grant claims consumer_id consumer none none, a)
  ]
]

-- The consumer of the token, as Redis or the database has it.
abbrev pub verify_found :
    {Token : Type 0}
    → (now : ℕ) → Headers Token
    → Claims
    → (consumer_id : ℕ) → Option Consumer
    → Access
    → Verdict × Access
verify_found now h claims consumer_id none a = (denied consumer_not_found, a)
verify_found now h claims consumer_id (some consumer) a =
    if str_eq consumer.status "active"
    then verify_merchant now h claims consumer_id consumer a
    else (denied consumer_inactive, a)

unfoldable pub verify_consumer :
    {Token : Type 0}
    → (now : ℕ) → Headers Token
    → Claims
    → (consumer_id : ℕ) → Access
    → Verdict × Access
unfolding get_cached_consumer verify_merchant
verify_consumer now h claims consumer_id a =
    let (consumer, a') = get_cached_consumer now consumer_id a in
    verify_found now h claims consumer_id consumer a'

unfoldable pub verify_claims :
    {Token : Type 0} → (now : ℕ) → Headers Token → Option Claims → Access → Verdict × Access
unfolding verify_consumer
verify_claims now h none a = (denied invalid_token, a)
verify_claims now h (some claims) a = elim claims.sub [
  | none ↦ (denied invalid_token, a)
  | some consumer_id ↦ verify_consumer now h claims consumer_id a
]

module _ {Token : Type 0} (c : Crypto Token) where
  unfoldable pub verify_third_party_access : (now : ℕ) → Headers Token → Access → Verdict × Access
  unfolding verify_claims validate_token
  verify_third_party_access now h a = elim h.bearer [
    | none ↦ (denied missing_token, a)
    | some token ↦ verify_claims now h (validate_token c now token) a
  ]

-- `required_scope in scopes`
unfoldable pub require_scope : String → RequestState → Bool
require_scope required_scope r = is_in required_scope r.scopes

pub data AdminAccess : Type 0 where
  missing_admin_key invalid_admin_key admin : AdminAccess

-- X-Admin-Key against the key of the settings; the empty text is no key.
unfoldable pub verify_admin_access : (admin_api_key : String) → Option String → AdminAccess
verify_admin_access admin_api_key none = missing_admin_key
verify_admin_access admin_api_key (some key) =
    if str_eq key ""
    then missing_admin_key
    else if str_eq key admin_api_key
    then admin
    else invalid_admin_key
