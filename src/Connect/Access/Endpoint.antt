-- ===== src/Connect/Access/Endpoint.antt =====
-- The endpoints of src/routers/bulk_api.py of services/connect-service that query one merchant: the guards
-- of the router and of the route, and then the query. The audit log is left out.
use multi_tenant_event_drive.Prelude.{
  ℕ, String, ◌≡◌, refl, Bool, true, ◌&&◌, Option, none, some, leb, if◌then◌else◌, Bool-cases, inl,
  inr, subst,
}
use multi_tenant_event_drive.Core.Merchants.{Db}
use multi_tenant_event_drive.Connect.Bulk.{Reply, answer, fault, Fault}
use multi_tenant_event_drive.Connect.Bulk.Resolving.{Caches}
use multi_tenant_event_drive.Connect.Access.{Access}
use multi_tenant_event_drive.Connect.Access.Grants.{check_merchant_access}
use multi_tenant_event_drive.Connect.Access.Tokens.{Crypto}
use multi_tenant_event_drive.Connect.Access.Gate.{
  Headers, RequestState, Verdict, granted, denied, Denial, require_scope, verify_third_party_access,
}
use multi_tenant_event_drive.Connect.Access.Coherence.{IsCoherent}
use multi_tenant_event_drive.Connect.Access.Granted.{
  Admitted, Allowed, verify_third_party_access-Admitted,
}

-- The answers: a denial of the token or the merchant, 429, 403 of the scope, 422 of the limit, 400 of the
-- missing header, a fault of the query, and 200.
pub data Response (A : Type 0) : Type 0 where
  refused : Denial → Response A
  too_many_requests insufficient_scope invalid_limit missing_header : Response A
  failed : Fault → Response A
  served : A → Response A

-- limit: int = Query(ge=1, le=500)
abbrev pub valid_limit : ℕ → Bool
valid_limit limit = leb 1 limit && leb limit 500

abbrev pub respond : {A : Type 0} → Reply A × Caches → Access → Response A × Access
respond (fault f, caches) a = (failed f, record a { caches = caches })
respond (answer x, caches) a = (served x, record a { caches = caches })

-- The body of the route, with _get_merchant_id.
abbrev pub query_merchant :
    {A : Type 0}
    → (query : ℕ → Db → Caches → Reply A × Caches) → Option ℕ
    → Access
    → Response A × Access
query_merchant query none a = (missing_header, a)
query_merchant query (some merchant_id) a = respond (query merchant_id a.db a.caches) a

-- apply_rate_limit of the router, with the limiter's answer, then require_scope of the route, and the
-- validation of the parameters.
abbrev pub guarded :
    {A : Type 0}
    → (admits : RequestState → Bool) → (scope : String) → (limit : ℕ)
    → (query : ℕ → Db → Caches → Reply A × Caches) → RequestState
    → Access
    → Response A × Access
guarded admits scope limit query r a =
    if admits r
    then (if require_scope scope r
        then (if valid_limit limit
            then query_merchant query r.merchant_id a
            else (invalid_limit, a))
        else (insufficient_scope, a))
    else (too_many_requests, a)

abbrev pub after_gate :
    {A : Type 0}
    → (admits : RequestState → Bool) → (scope : String) → (limit : ℕ)
    → (query : ℕ → Db → Caches → Reply A × Caches) → Verdict
    → Access
    → Response A × Access
after_gate admits scope limit query (denied d) a = (refused d, a)
after_gate admits scope limit query (granted r) a = guarded admits scope limit query r a

module _ {Token : Type 0} (c : Crypto Token) where
  unfoldable pub list_endpoint :
      {A : Type 0}
      → (now : ℕ) → Headers Token
      → (admits : RequestState → Bool) → (scope : String) → (limit : ℕ)
      → (query : ℕ → Db → Caches → Reply A × Caches) → Access
      → Response A × Access
  unfolding verify_third_party_access require_scope
  list_endpoint now h admits scope limit query a =
      let (verdict, a') = verify_third_party_access c now h a in
      after_gate admits scope limit query verdict a'

query_merchant-served :
    {A : Type 0} (query : ℕ → Db → Caches → Reply A × Caches) (m : Option ℕ) (a : Access) (x : A)
    → (query_merchant query m a).0 ≡ served x
    → (merchant_id : ℕ) × (m ≡ some merchant_id) × ((query merchant_id a.db a.caches).0 ≡ answer x)
query_merchant-served query none a x e = absurd (cc e)
query_merchant-served {A = A} query (some m) a x e = (m, refl, answered (query m a.db a.caches) e)
  where
    answered : (reply : Reply A × Caches) → (respond reply a).0 ≡ served x → reply.0 ≡ answer x
    answered (fault f, caches) e = absurd (cc e)
    answered (answer y, caches) e = let same : y ≡ x = cc e in rw same refl

-- What a request that is served has shown, and what it was served.
pub record Served {A Token : Type 0} (c : Crypto Token) (now : ℕ) (h : Headers Token)
    (admits : RequestState → Bool) (scope : String) (limit : ℕ)
    (query : ℕ → Db → Caches → Reply A × Caches) (a a' : Access) (x : A) : Type 0 where
  pub state : RequestState
  pub merchant_id : ℕ
  pub admitted : Admitted c now h a state
  pub in_rate : admits state ≡ true
  pub in_scope : require_scope scope state ≡ true
  pub in_limit : valid_limit limit ≡ true
  pub for_merchant : state.merchant_id ≡ some merchant_id
  pub may_read : check_merchant_access state.consumer_id merchant_id a.grants ≡ true
  pub queried : (query merchant_id a'.db a'.caches).0 ≡ answer x

guarded-served :
    {A : Type 0} (admits : RequestState → Bool) (scope : String) (limit : ℕ)
    (query : ℕ → Db → Caches → Reply A × Caches) (r : RequestState) (a : Access) (x : A)
    → (guarded admits scope limit query r a).0 ≡ served x
    → (admits r ≡ true)
      × (require_scope scope r ≡ true)
      × (valid_limit limit ≡ true)
      × ((query_merchant query r.merchant_id a).0 ≡ served x)
guarded-served admits scope limit query r a x e = elim (Bool-cases (admits r)) [
  | inr fast ↦ absurd (cc (rw (fast, guarded) at e))
  | inl slow ↦ elim (Bool-cases (require_scope scope r)) [
    | inr outside ↦ absurd (cc (rw (slow, outside, guarded) at e))
    | inl inside ↦ elim (Bool-cases (valid_limit limit)) [
      | inr wrong ↦ absurd (cc (rw (slow, inside, wrong, guarded) at e))
      | inl right ↦ (slow, inside, right, rw (slow, inside, right, guarded) at e)
    ]
  ]
]

module _ {Token : Type 0} (c : Crypto Token) where
  after_gate-Served :
      {A : Type 0} (now : ℕ) (h : Headers Token) (admits : RequestState → Bool) (scope : String)
      (limit : ℕ) (query : ℕ → Db → Caches → Reply A × Caches) (a a' : Access) (x : A) (v : Verdict)
      → IsCoherent a
      → (verify_third_party_access c now h a).0 ≡ v
      → (after_gate admits scope limit query v a').0 ≡ served x
      → Served c now h admits scope limit query a a' x
  after_gate-Served now h admits scope limit query a a' x (denied d) coherent verdict e =
      absurd (cc e)
  after_gate-Served now h admits scope limit query a a' x (granted r) coherent verdict e =
      let admitted = verify_third_party_access-Admitted c now h a r coherent verdict in
      let (rate, inside, right, served_one) = guarded-served admits scope limit query r a' x e in
      let (m, named, queried) = query_merchant-served query r.merchant_id a' x served_one in
      record {
        state = r;
        merchant_id = m;
        admitted = admitted;
        in_rate = rate;
        in_scope = inside;
        in_limit = right;
        for_merchant = named;
        may_read = subst (λ o. Allowed r.consumer_id o a.grants) named admitted.allowed;
        queried = queried;
      }

  -- Where the copies in Redis are the rows, whatever a list endpoint serves is what its query answers for a
  -- merchant that the consumer of a valid token is granted in the database, and the consumer is active and
  -- within its rate, the token has the scope of the endpoint, and the limit is from 1 to 500.
  pub list_endpoint-Served :
      {A : Type 0} (now : ℕ) (h : Headers Token) (admits : RequestState → Bool) (scope : String)
      (limit : ℕ) (query : ℕ → Db → Caches → Reply A × Caches) (a : Access) (x : A)
      → IsCoherent a
      → (list_endpoint c now h admits scope limit query a).0 ≡ served x
      → Served c now h admits scope limit query a (verify_third_party_access c now h a).1 x
  unfolding list_endpoint
  list_endpoint-Served now h admits scope limit query a x coherent e =
      let (verdict, a') = verify_third_party_access c now h a in
      after_gate-Served now h admits scope limit query a a' x verdict coherent refl e
