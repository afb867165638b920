-- ===== src/Connect/Access/Tokens/Issued.antt =====
-- The tokens that src/services/oauth_service.py of services/connect-service issues.
use multi_tenant_event_drive.Prelude.{
  ℕ, ◌+◌, ◌≤◌, String, ◌≡◌, refl, subst, true, Option, none, some, List, [], ◌∷◌, arith, All,
  All-imp, Option-cases, Bool-cases, inl, inr, str_eq, eq_iff,
}
use multi_tenant_event_drive.Connect.Access.{Consumer, ConsumerRow}
use multi_tenant_event_drive.Connect.Access.Tokens.{
  Claims, Crypto, IsCrypto, TokenResponse, issued, jwt_expiry_seconds, is_in, first_unassigned,
  by_client, claims_for, token_scopes_of, scope_error, authorize, authenticate_consumer,
  validate_token,
}

abbrev pub AreIn : (assigned requested : List String) → Type 0
AreIn assigned requested = All (λ s. is_in s assigned ≡ true) requested

first_unassigned-AreIn :
    (requested assigned : List String)
    → first_unassigned requested assigned ≡ none
    → AreIn assigned requested
first_unassigned-AreIn [] assigned h = tt
first_unassigned-AreIn (s ∷ ss) assigned h = elim (Bool-cases (is_in s assigned)) [
  | inl there ↦ (there, first_unassigned-AreIn ss assigned (rw (there, first_unassigned) at h))
  | inr missing ↦ absurd (cc (rw (missing, first_unassigned) at h))
]

is_in_more : (s x : String) (xs : List String) → is_in s xs ≡ true → is_in s (x ∷ xs) ≡ true
is_in_more s x xs h = ground arith

is_in_self : (s : String) (xs : List String) → is_in s (s ∷ xs) ≡ true
is_in_self s xs = rw ((eq_iff s s).1 refl) refl

AreIn-self : (xs : List String) → AreIn xs xs
AreIn-self [] = tt
AreIn-self (x ∷ xs) = (is_in_self x xs, All-imp _ _ xs (λ s. is_in_more s x xs) (AreIn-self xs))

-- What an issued token rests on: the client's row, with the secret checked, active, and with the scopes
-- of the token, which say the consumer's id.
pub record Issued {Token : Type 0} (c : Crypto Token) (now now' : ℕ)
    (client_id client_secret : String) (rows : List ConsumerRow) (t : TokenResponse Token)
    : Type 0 where
  pub row : ConsumerRow
  pub claims : Claims
  pub client : by_client client_id rows ≡ some row
  pub secret : c.checkpw client_secret row.client_secret_hash ≡ true
  pub is_active : str_eq row.consumer.status "active" ≡ true
  pub assigned : AreIn row.consumer.scopes t.scope
  pub valid : validate_token c now' t.access_token ≡ some claims
  pub of_consumer : claims.sub ≡ some row.consumer.consumer_id
  pub carries : claims.scopes ≡ t.scope

module _ {Token : Type 0} (c : Crypto Token) where
  scope_error-AreIn :
      (requested : Option String) (assigned : List String)
      → scope_error c requested assigned ≡ none
      → AreIn assigned (token_scopes_of c requested assigned)
  scope_error-AreIn none assigned h = AreIn-self assigned
  scope_error-AreIn (some requested) assigned h = elim (Bool-cases (str_eq requested "")) [
    | inl empty ↦ rw (empty, token_scopes_of) (AreIn-self assigned)
    | inr given ↦
        rw (given, token_scopes_of)
          (first_unassigned-AreIn (c.split requested) assigned (rw (given, scope_error) at h))
  ]

  -- What authorize issues.
  response : (now jti : ℕ) → Consumer → List String → TokenResponse Token
  response now jti consumer token_scopes = record {
    access_token = c.encode (claims_for c now jti consumer token_scopes);
    expires_in = jwt_expiry_seconds;
    scope = token_scopes;
  }

  authorize-issued :
      (now jti : ℕ) (requested : Option String) (consumer : Consumer) (t : TokenResponse Token)
      → authorize c now jti requested consumer ≡ issued t
      → (str_eq consumer.status "active" ≡ true)
        × (scope_error c requested consumer.scopes ≡ none)
        × (response now jti consumer (token_scopes_of c requested consumer.scopes) ≡ t)
  unfolding response
  authorize-issued now jti requested consumer t e =
      elim (Bool-cases (str_eq consumer.status "active")) [
        | inr inactive ↦ absurd (cc (rw (inactive, authorize) at e))
        | inl active ↦ elim (Option-cases (scope_error c requested consumer.scopes)) [
          | inr (s, unassigned) ↦ absurd (cc (rw (active, authorize, unassigned) at e))
          | inl fine ↦
              let same : response now jti consumer (token_scopes_of c requested consumer.scopes)
                  ≡ t =
                cc (rw (active, authorize, fine) at e) in
              (active, fine, same)
        ]
      ]

  -- A token is issued only for a client's row, on its secret and while it is active, with scopes that are
  -- assigned to it; and until it expires it is valid, and says the consumer and those scopes.
  pub authenticate_consumer-Issued :
      (h : IsCrypto c) (now now' jti : ℕ) (client_id client_secret : String)
      (requested : Option String) (rows : List ConsumerRow) (t : TokenResponse Token)
      → authenticate_consumer c now jti client_id client_secret requested rows ≡ issued t
      → now' ≤ now + jwt_expiry_seconds
      → Issued c now now' client_id client_secret rows t
  unfolding authenticate_consumer claims_for response validate_token
  authenticate_consumer-Issued h now now' jti client_id client_secret requested rows t e soon =
      elim (Option-cases (by_client client_id rows)) [
        | inl unknown ↦ absurd (cc (rw (unknown, authenticate_consumer) at e))
        | inr (row, client) ↦ elim (Bool-cases (c.checkpw client_secret row.client_secret_hash)) [
          | inr wrong ↦ absurd (cc (rw (client, wrong, authenticate_consumer) at e))
          | inl secret ↦
              let (active, fine, same) =
                authorize-issued now jti requested row.consumer t
                  (rw (client, secret, authenticate_consumer) at e) in
              let scopes = token_scopes_of c requested row.consumer.scopes in
              let claims = claims_for c now jti row.consumer scopes in
              let issued_one : Issued c now now' client_id client_secret rows
                  (response now jti row.consumer scopes) =
                record {
                  row = row;
                  claims = claims;
                  client = client;
                  secret = secret;
                  is_active = active;
                  assigned = scope_error-AreIn requested row.consumer.scopes fine;
                  valid = h.decoded now' claims soon;
                  of_consumer = refl;
                  carries = refl;
                } in
              subst (Issued c now now' client_id client_secret rows) same issued_one
        ]
      ]
