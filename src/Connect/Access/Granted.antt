-- ===== src/Connect/Access/Granted.antt =====
-- Whom src/utils/auth.py of services/connect-service lets in.
use multi_tenant_event_drive.Prelude.{
  ℕ, ◌≡◌, refl, sym, ◌∙◌, ap, subst, true, Option, none, some, List, Bool-cases, Option-cases, inl,
  inr, ltb, str_eq,
}
use multi_tenant_event_drive.Prelude.Int.{ℤ, pos, negsuc}
use multi_tenant_event_drive.Connect.Bulk.Resolving.{resolve_merchant_uuid_to_id}
use multi_tenant_event_drive.Connect.Access.{
  Access, Grant, Consumer, get_consumer, cached_consumer, get_cached_consumer,
}
use multi_tenant_event_drive.Connect.Access.Grants.{check_merchant_access}
use multi_tenant_event_drive.Connect.Access.Coherence.{IsCoherent, get_cached_consumer_sound}
use multi_tenant_event_drive.Connect.Access.Tokens.{Claims, Crypto, validate_token}
use multi_tenant_event_drive.Connect.Access.Gate.{
  Headers, RequestState, granted, max_int, state_of, grant, verify_merchant_id, check_uuid,
  verify_merchant, verify_found, verify_consumer, verify_claims, verify_third_party_access,
}

-- The merchant of a request is one that the consumer has a grant for.
abbrev pub Allowed : (consumer_id : ℕ) → Option ℕ → List Grant → Type 0
Allowed consumer_id none grants = Unit
Allowed consumer_id (some m) grants = check_merchant_access consumer_id m grants ≡ true

abbrev AllowedBy : Claims → (consumer_id : ℕ) → Consumer → List Grant → RequestState → Type 0
AllowedBy claims consumer_id consumer grants r =
    (r.consumer_id ≡ consumer_id)
    × (r.consumer ≡ consumer)
    × (r.scopes ≡ claims.scopes)
    × Allowed consumer_id r.merchant_id grants

grant-AllowedBy :
    (claims : Claims) (consumer_id : ℕ) (consumer : Consumer) (m u : Option ℕ) (grants : List Grant)
    (r : RequestState)
    → Allowed consumer_id m grants
    → grant claims consumer_id consumer m u ≡ granted r
    → AllowedBy claims consumer_id consumer grants r
grant-AllowedBy claims consumer_id consumer m u grants r allowed e =
    let same : state_of claims consumer_id consumer m u ≡ r = cc e in
    subst (AllowedBy claims consumer_id consumer grants) same (refl, refl, refl, allowed)

verify_merchant_id-AllowedBy :
    (claims : Claims) (consumer_id : ℕ) (consumer : Consumer) (m : ℤ) (a : Access)
    (r : RequestState)
    → (verify_merchant_id claims consumer_id consumer m a).0 ≡ granted r
    → AllowedBy claims consumer_id consumer a.grants r
verify_merchant_id-AllowedBy claims consumer_id consumer (negsuc m) a r e = absurd (cc e)
verify_merchant_id-AllowedBy claims consumer_id consumer (pos m) a r e =
    elim (Bool-cases (ltb max_int m)) [
      | inl large ↦ absurd (cc (rw (large, verify_merchant_id) at e))
      | inr fits ↦ elim (Bool-cases (check_merchant_access consumer_id m a.grants)) [
        | inl allowed ↦
            grant-AllowedBy claims consumer_id consumer (some m) none a.grants r allowed
              (rw (fits, allowed, verify_merchant_id) at e)
        | inr refused ↦ absurd (cc (rw (fits, refused, verify_merchant_id) at e))
      ]
    ]

check_uuid-AllowedBy :
    (claims : Claims) (consumer_id : ℕ) (consumer : Consumer) (u : ℕ) (m : Option ℕ) (a : Access)
    (r : RequestState)
    → check_uuid claims consumer_id consumer u m a ≡ granted r
    → AllowedBy claims consumer_id consumer a.grants r
check_uuid-AllowedBy claims consumer_id consumer u none a r e = absurd (cc e)
check_uuid-AllowedBy claims consumer_id consumer u (some m) a r e =
    elim (Bool-cases (check_merchant_access consumer_id m a.grants)) [
      | inl allowed ↦
          grant-AllowedBy claims consumer_id consumer (some m) (some u) a.grants r allowed
            (rw (allowed, check_uuid) at e)
      | inr refused ↦ absurd (cc (rw (refused, check_uuid) at e))
    ]

verify_merchant-AllowedBy :
    {Token : Type 0} (now : ℕ) (h : Headers Token) (claims : Claims) (consumer_id : ℕ)
    (consumer : Consumer) (a : Access) (r : RequestState)
    → (verify_merchant now h claims consumer_id consumer a).0 ≡ granted r
    → AllowedBy claims consumer_id consumer a.grants r
unfolding verify_merchant
verify_merchant-AllowedBy now h claims consumer_id consumer a r e =
    go h.merchant_uuid h.merchant_id e
  where
    go :
        (uuid : Option (Option ℕ)) (id : Option (Option ℤ))
        → (verify_merchant now
            (record { bearer = h.bearer; merchant_uuid = uuid; merchant_id = id })
            claims
            consumer_id
            consumer
            a).0
          ≡ granted r
        → AllowedBy claims consumer_id consumer a.grants r
    go (some none) id e = absurd (cc e)
    go (some (some u)) id e =
        check_uuid-AllowedBy claims consumer_id consumer u
          (resolve_merchant_uuid_to_id now u a.db a.caches).0 a r e
    go none (some none) e = absurd (cc e)
    go none (some (some m)) e = verify_merchant_id-AllowedBy claims consumer_id consumer m a r e
    go none none e = grant-AllowedBy claims consumer_id consumer none none a.grants r tt e

grants-get_cached_consumer :
    (now consumer_id : ℕ) (a : Access) → (get_cached_consumer now consumer_id a).1.grants ≡ a.grants
unfolding get_cached_consumer
grants-get_cached_consumer now consumer_id a =
    elim (Option-cases (cached_consumer now consumer_id a.redis)) [
      | inr (consumer, hit) ↦ rw (get_cached_consumer, hit) refl
      | inl missed ↦ elim (Option-cases (get_consumer consumer_id a.consumers)) [
        | inl unknown ↦ rw (get_cached_consumer, missed, unknown) refl
        | inr (consumer, found) ↦ rw (get_cached_consumer, missed, found) refl
      ]
    ]

-- What a request that is let in has shown: a token of a consumer that the database has as active, and a
-- grant for its merchant.
pub record Admitted {Token : Type 0} (c : Crypto Token) (now : ℕ) (h : Headers Token) (a : Access)
    (r : RequestState) : Type 0 where
  pub token : Token
  pub claims : Claims
  pub carried : h.bearer ≡ some token
  pub valid : validate_token c now token ≡ some claims
  pub of_consumer : claims.sub ≡ some r.consumer_id
  pub scopes_kept : r.scopes ≡ claims.scopes
  pub is_row : get_consumer r.consumer_id a.consumers ≡ some r.consumer
  pub is_active : str_eq r.consumer.status "active" ≡ true
  pub allowed : Allowed r.consumer_id r.merchant_id a.grants

verify_found-AllowedBy :
    {Token : Type 0} (now : ℕ) (h : Headers Token) (claims : Claims) (consumer_id : ℕ)
    (found : Option Consumer) (a : Access) (r : RequestState)
    → (verify_found now h claims consumer_id found a).0 ≡ granted r
    → (consumer : Consumer) × (found ≡ some consumer)
      × (str_eq consumer.status "active" ≡ true)
      × (r.consumer_id ≡ consumer_id)
      × (r.consumer ≡ consumer)
      × (r.scopes ≡ claims.scopes)
      × Allowed consumer_id r.merchant_id a.grants
verify_found-AllowedBy now h claims consumer_id none a r e = absurd (cc e)
verify_found-AllowedBy now h claims consumer_id (some consumer) a r e =
    elim (Bool-cases (str_eq consumer.status "active")) [
      | inr inactive ↦ absurd (cc (rw (inactive, verify_found) at e))
      | inl active ↦
          let (id, same, scopes, allowed) =
            verify_merchant-AllowedBy now h claims consumer_id consumer a r
              (rw (active, verify_found) at e) in
          (consumer, refl, active, id, same, scopes, allowed)
    ]

verify_consumer-AllowedBy :
    {Token : Type 0} (now : ℕ) (h : Headers Token) (claims : Claims) (consumer_id : ℕ) (a : Access)
    (r : RequestState)
    → IsCoherent a
    → (verify_consumer now h claims consumer_id a).0 ≡ granted r
    → (r.consumer_id ≡ consumer_id)
      × (get_consumer consumer_id a.consumers ≡ some r.consumer)
      × (str_eq r.consumer.status "active" ≡ true)
      × (r.scopes ≡ claims.scopes)
      × Allowed consumer_id r.merchant_id a.grants
unfolding verify_consumer
verify_consumer-AllowedBy now h claims consumer_id a r coherent e =
    let (found, a') = get_cached_consumer now consumer_id a in
    let (consumer, known, active, id, same, scopes, allowed) =
      verify_found-AllowedBy now h claims consumer_id found a' r e in
    (
      id,
      sym (get_cached_consumer_sound now consumer_id a coherent) ∙ known ∙ ap some (sym same),
      subst (λ (x : Consumer). str_eq x.status "active" ≡ true) (sym same) active,
      scopes,
      subst (Allowed consumer_id r.merchant_id) (grants-get_cached_consumer now consumer_id a)
          allowed,
    )

module _ {Token : Type 0} (c : Crypto Token) where
  verify_claims-Admitted :
      (now : ℕ) (h : Headers Token) (token : Token) (claims : Option Claims) (a : Access)
      (r : RequestState)
      → IsCoherent a
      → h.bearer ≡ some token
      → validate_token c now token ≡ claims
      → (verify_claims now h claims a).0 ≡ granted r
      → Admitted c now h a r
  unfolding verify_claims
  verify_claims-Admitted now h token none a r coherent carried valid e = absurd (cc e)
  verify_claims-Admitted now h token (some claims) a r coherent carried valid e =
      elim (Option-cases claims.sub) [
        | inl nobody ↦ absurd (cc (rw (nobody, verify_claims) at e))
        | inr (id, sub) ↦
            let (same, row, active, scopes, allowed) =
              verify_consumer-AllowedBy now h claims id a r coherent
                (rw (sub, verify_claims) at e) in
            record {
              token = token;
              claims = claims;
              carried = carried;
              valid = valid;
              of_consumer = sub ∙ ap some (sym same);
              scopes_kept = scopes;
              is_row = rw same row;
              is_active = active;
              allowed = rw same allowed;
            }
      ]

  -- Where the copies in Redis are the rows, a request that is let in carries a valid token of a consumer
  -- whose row in the database is active; the request has the scopes of that token, and its merchant, if it
  -- names one, is granted to the consumer in the database.
  pub verify_third_party_access-Admitted :
      (now : ℕ) (h : Headers Token) (a : Access) (r : RequestState)
      → IsCoherent a
      → (verify_third_party_access c now h a).0 ≡ granted r
      → Admitted c now h a r
  unfolding verify_third_party_access
  verify_third_party_access-Admitted now h a r coherent e = elim (Option-cases h.bearer) [
    | inl missing ↦ absurd (cc (rw (missing, verify_third_party_access) at e))
    | inr (token, carried) ↦
        verify_claims-Admitted now h token (validate_token c now token) a r coherent carried refl
          (rw (carried, verify_third_party_access) at e)
  ]
