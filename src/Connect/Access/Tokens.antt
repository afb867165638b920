-- ===== src/Connect/Access/Tokens.antt =====
-- The tokens of src/services/oauth_service.py of services/connect-service, and the token endpoint of
-- src/routers/oauth.py.
pub mod Issued
use multi_tenant_event_drive.Prelude.{
  ℕ, ◌+◌, ◌≤◌, String, Bool, false, ◌||◌, ◌≡◌, Option, none, some, List, [], ◌∷◌, str_eq,
  if◌then◌else◌,
}
use multi_tenant_event_drive.Connect.Access.{ConsumerRow, Consumer}

-- The payload of a token. `sub` is the consumer's id.
pub record Claims : Type 0 where
  pub sub : Option ℕ
  pub client_id : String
  pub scopes : List String
  pub iat : ℕ
  pub exp : ℕ
  pub jti : ℕ

-- The libraries, over the texts that are tokens: `jose.jwt` under the secret and the algorithm of the settings, `bcrypt`, and `str.split`.
pub record Crypto (Token : Type 0) : Type 0 where
  pub encode : Claims → Token
  pub decode : (now : ℕ) → Token → Option Claims
  pub checkpw : (secret hash : String) → Bool
  pub split : String → List String

-- jose decodes what it encoded until the token expires.
pub record IsCrypto {Token : Type 0} (c : Crypto Token) : Type 0 where
  pub decoded :
      (now : ℕ) (claims : Claims) → now ≤ claims.exp → c.decode now (c.encode claims) ≡ some claims

pub data AuthError : Type 0 where
  invalid_credentials : AuthError
  inactive_consumer : String → AuthError
  unassigned_scope : String → AuthError

pub record TokenResponse (Token : Type 0) : Type 0 where
  pub access_token : Token
  pub expires_in : ℕ
  pub scope : List String

pub data TokenResult (Token : Type 0) : Type 0 where
  issued : TokenResponse Token → TokenResult Token
  refused : AuthError → TokenResult Token

-- JWT_EXPIRY_SECONDS
abbrev pub jwt_expiry_seconds : ℕ
jwt_expiry_seconds = 3600

abbrev pub is_in : String → List String → Bool
is_in s [] = false
is_in s (x ∷ xs) = str_eq s x || is_in s xs

-- The first requested scope that is not assigned.
abbrev pub first_unassigned : (requested assigned : List String) → Option String
first_unassigned [] assigned = none
first_unassigned (s ∷ ss) assigned =
    if is_in s assigned then first_unassigned ss assigned else some s

-- WHERE client_id = $1, a UNIQUE column.
abbrev pub by_client : String → List ConsumerRow → Option ConsumerRow
by_client client_id [] = none
by_client client_id (r ∷ rs) =
    if str_eq r.consumer.client_id client_id then some r else by_client client_id rs

module _ {Token : Type 0} (c : Crypto Token) where
  unfoldable pub claims_for : (now jti : ℕ) → Consumer → List String → Claims
  claims_for now jti consumer token_scopes = record {
    sub = some consumer.consumer_id;
    client_id = consumer.client_id;
    scopes = token_scopes;
    iat = now;
    exp = now + jwt_expiry_seconds;
    jti = jti;
  }

  abbrev pub issue : (now jti : ℕ) → Consumer → List String → TokenResult Token
  issue now jti consumer token_scopes = issued (record {
    access_token = c.encode (claims_for now jti consumer token_scopes);
    expires_in = jwt_expiry_seconds;
    scope = token_scopes;
  })

  -- `if requested_scope:`
  abbrev pub token_scopes_of : Option String → (assigned : List String) → List String
  token_scopes_of none assigned = assigned
  token_scopes_of (some requested) assigned =
      if str_eq requested "" then assigned else c.split requested

  abbrev pub scope_error : Option String → (assigned : List String) → Option String
  scope_error none assigned = none
  scope_error (some requested) assigned =
      if str_eq requested "" then none else first_unassigned (c.split requested) assigned

  -- Once the secret is checked.
  abbrev pub authorize :
      (now jti : ℕ) → (requested_scope : Option String) → Consumer → TokenResult Token
  authorize now jti requested_scope consumer =
      if str_eq consumer.status "active"
      then (elim (scope_error requested_scope consumer.scopes) [
        | some s ↦ refused (unassigned_scope s)
        | none ↦ issue now jti consumer (token_scopes_of requested_scope consumer.scopes)
      ])
      else refused (inactive_consumer consumer.status)

  unfoldable pub authenticate_consumer :
      (now jti : ℕ)
      → (client_id client_secret : String) → (requested_scope : Option String) → List ConsumerRow
      → TokenResult Token
  unfolding claims_for
  authenticate_consumer now jti client_id client_secret requested_scope rows =
      elim (by_client client_id rows) [
        | none ↦ refused invalid_credentials
        | some r ↦
            if c.checkpw client_secret r.client_secret_hash
            then authorize now jti requested_scope r.consumer
            else refused invalid_credentials
      ]

  -- `none` is the ValueError "Invalid token".
  unfoldable pub validate_token : (now : ℕ) → Token → Option Claims
  validate_token now token = c.decode now token
