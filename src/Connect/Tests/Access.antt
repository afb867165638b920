-- ===== src/Connect/Tests/Access.antt =====
-- Runs of the consumers' management and of the guards of the bulk API, and the theorems at them.
use multi_tenant_event_drive.Prelude.{
  ℕ, ◌+◌, ◌<◌, ◌≡◌, ◌≢◌, refl, true, false, Option, none, some, [], ◌∷◌, arith, str_eq, leb,
  if◌then◌else◌,
}
use multi_tenant_event_drive.Core.Merchants.{Db}
use multi_tenant_event_drive.Core.Rows.{Merchant, active}
use multi_tenant_event_drive.Connect.Bulk.Resolving.{resolve_merchant_uuid_to_id}
use multi_tenant_event_drive.Connect.Access.{
  Access, ConsumerRow, Grant, get_consumer, cached_consumer, remember, get_cached_consumer,
  invalidate_consumer_cache,
}
use multi_tenant_event_drive.Connect.Access.Managing.{
  NewConsumer, Generated, new_consumer, update_consumer, change_row, suspend_consumer,
}
use multi_tenant_event_drive.Connect.Access.Grants.{
  check_merchant_access, assign_merchants, remove_merchant_access,
}
use multi_tenant_event_drive.Connect.Access.Grants.Checked.{access_changes}
use multi_tenant_event_drive.Connect.Access.Tokens.{
  Claims, Crypto, IsCrypto, TokenResponse, claims_for, authenticate_consumer, validate_token,
}
use multi_tenant_event_drive.Connect.Access.Tokens.Issued.{Issued, authenticate_consumer-Issued}
use multi_tenant_event_drive.Connect.Access.Gate.{
  Headers, RequestState, denied, granted, consumer_inactive, state_of, verify_merchant,
  verify_consumer, verify_claims, verify_third_party_access,
}
use multi_tenant_event_drive.Connect.Access.Coherence.{
  IsCoherent, run, run_all, run_all-IsCoherent, suspend, look_up,
}
use multi_tenant_event_drive.Connect.Access.Overlap.{
  Looking, Running, WasRow, first, look_at, store_in, query, store, change, Steps, stay, go,
  overlap_recent,
}
use multi_tenant_event_drive.Connect.Access.Endpoint.{list_endpoint, Served, list_endpoint-Served}
use multi_tenant_event_drive.Connect.Bulk.{Reply, answer}
use multi_tenant_event_drive.Connect.Bulk.Resolving.{Caches}
use multi_tenant_event_drive.Connect.Access.Gate.{require_scope}
use multi_tenant_event_drive.Connect.Access.Granted.{Admitted, verify_third_party_access-Admitted}
use multi_tenant_event_drive.Connect.Access.Inactive.{inactive_refused}

abbrev shop : Merchant
shop = record {
  merchant_id = 1;
  merchant_uuid = 101;
  name = "Shop";
  email = "one@example.com";
  schema_name = b'm' ∷ b'_' ∷ b'1' ∷ [];
  api_key = 201;
  status = active;
  created_at = 1;
  updated_at = 1;
}

abbrev books : NewConsumer
books = record {
  name = "Books";
  description = none;
  scopes = "payments:read" ∷ "events:read" ∷ [];
  rate_limit_requests = none;
  rate_limit_window_seconds = some 60;
  created_by = "admin";
}

abbrev drawn : Generated
drawn = record {
  consumer_id = 5;
  client_id = "books";
  client_secret_hash = "s3cret";
  webhook_signing_secret = "whsec";
  now = 10;
}

abbrev books_row : ConsumerRow
books_row = new_consumer books drawn

abbrev grant_of_shop : Grant
grant_of_shop = record {
  consumer_id = 5;
  merchant_id = 1;
  scopes = [];
  granted_at = 11;
  granted_by = "admin";
}

-- The consumer may read the shop, and Redis has its row.
abbrev opened : Access
opened = record {
  db = record { merchants = shop ∷ []; schemas = []; events = []; next_merchant = 2 };
  consumers = books_row ∷ [];
  grants = grant_of_shop ∷ [];
  redis = record { consumer_id = 5; consumer = books_row.consumer; expires_at = 70 } ∷ [];
  caches = record { schema_cache = []; uuid_cache = [] };
}

opened-IsCoherent : IsCoherent opened
unfolding get_consumer
opened-IsCoherent = (refl, tt)

-- A token is its claims; a hash is the secret itself.
abbrev decode_claims : (now : ℕ) → Claims → Option Claims
decode_claims now claims = if leb now claims.exp then some claims else none

abbrev clear : Crypto Claims
clear = record { encode = λ c. c; decode = decode_claims; checkpw = str_eq; split = λ s. s ∷ [] }

clear-IsCrypto : IsCrypto clear
clear-IsCrypto = record { decoded = λ now claims soon. ground arith }

abbrev claims : Claims
claims = record {
  sub = some 5;
  client_id = "books";
  scopes = "payments:read" ∷ [];
  iat = 12;
  exp = 3612;
  jti = 77;
}

abbrev request : Headers Claims
request = record { bearer = some claims; merchant_uuid = some (some 101); merchant_id = none }

abbrev let_in : RequestState
let_in = state_of claims 5 books_row.consumer (some 1) (some 101)

verify_third_party_access-Admitted_example : Admitted clear 20 request opened let_in
unfolding verify_third_party_access verify_claims verify_consumer verify_merchant
    get_cached_consumer cached_consumer validate_token resolve_merchant_uuid_to_id
    check_merchant_access
verify_third_party_access-Admitted_example =
    verify_third_party_access-Admitted clear 20 request opened let_in opened-IsCoherent refl

run_all-IsCoherent_example :
    IsCoherent (run_all (look_up 20 5 ∷ suspend 21 5 ∷ look_up 22 5 ∷ []) opened)
run_all-IsCoherent_example =
    run_all-IsCoherent (look_up 20 5 ∷ suspend 21 5 ∷ look_up 22 5 ∷ []) opened opened-IsCoherent

-- A suspended consumer is refused at once, though Redis had it as active.
suspended_refused :
    (verify_third_party_access clear 21 request (suspend_consumer 20 5 opened).1).0
    ≡ denied consumer_inactive
unfolding verify_third_party_access verify_claims verify_consumer verify_merchant
    get_cached_consumer cached_consumer validate_token suspend_consumer update_consumer change_row
    invalidate_consumer_cache get_consumer remember
suspended_refused = refl

-- The row of another consumer, which stays active.
abbrev tax_row : ConsumerRow
tax_row = new_consumer books (record drawn { consumer_id = 6; client_id = "tax" })

abbrev two_consumers : Access
two_consumers = record opened { consumers = books_row ∷ tax_row ∷ [] }

two_consumers-IsCoherent : IsCoherent two_consumers
unfolding get_consumer
two_consumers-IsCoherent = (refl, tt)

-- Consumer 6 is suspended and looked up; consumer 5 is still let in.
inactive_refused_example : let_in.consumer_id ≢ 6
unfolding verify_third_party_access verify_claims verify_consumer verify_merchant
    get_cached_consumer cached_consumer validate_token update_consumer change_row
    invalidate_consumer_cache get_consumer remember resolve_merchant_uuid_to_id
    check_merchant_access run_all run
inactive_refused_example =
    inactive_refused clear 20 23 6 "suspended" (look_up 21 6 ∷ look_up 22 5 ∷ []) request
      two_consumers let_in two_consumers-IsCoherent refl refl (tt, (tt, tt)) refl

access_changes_example :
    (check_merchant_access 6 1
        (assign_merchants 30 6 "admin" (shop ∷ []) (101 ∷ []) (grant_of_shop ∷ [])).1
      ≡ true)
    × (check_merchant_access 6 1 (remove_merchant_access 6 101 (shop ∷ []) (grant_of_shop ∷ [])).1
        ≡ false)
unfolding check_merchant_access
access_changes_example =
    access_changes 30 6 "admin" (shop ∷ []) (101 ∷ []) 101 (grant_of_shop ∷ []) 6 1

abbrev token : TokenResponse Claims
token = record { access_token = claims; expires_in = 3600; scope = "payments:read" ∷ [] }

authenticate_consumer-Issued_example : Issued clear 12 3000 "books" "s3cret" (books_row ∷ []) token
unfolding authenticate_consumer claims_for
authenticate_consumer-Issued_example =
    authenticate_consumer-Issued clear clear-IsCrypto 12 3000 77 "books" "s3cret"
      (some "payments:read") (books_row ∷ []) token refl (ground arith)

-- A look-up of the consumer reads its row, the consumer is suspended, and then the look-up stores what it
-- read: Redis has the consumer as active.
abbrev quiet : Running
quiet = record { access = record opened { redis = [] }; looking = []; seen = []; now = 20 }

abbrev read_row : Running
read_row = look_at quiet 5 books_row.consumer

abbrev suspended_meanwhile : Running
suspended_meanwhile = record read_row { access = run (suspend 20 5) read_row.access }

abbrev looked : Looking
looked = record { consumer_id = 5; consumer = books_row.consumer; read_at = 20 }

abbrev stored_late : Running
stored_late = store_in suspended_meanwhile looked

race : Steps 1 quiet stored_late
unfolding cached_consumer get_consumer
race = go quiet read_row stored_late (query quiet 5 books_row.consumer refl refl) (
    go read_row suspended_meanwhile stored_late (change read_row (suspend 20 5) refl) (
      go suspended_meanwhile stored_late stored_late
        (store suspended_meanwhile looked (first []) (ground arith)) (stay stored_late)))

-- The suspended consumer is let in.
stale_let_in : (verify_third_party_access clear 21 request stored_late.access).0 ≡ granted let_in
unfolding verify_third_party_access verify_claims verify_consumer verify_merchant
    get_cached_consumer cached_consumer validate_token resolve_merchant_uuid_to_id
    check_merchant_access run suspend_consumer update_consumer change_row invalidate_consumer_cache
    remember
stale_let_in = refl

overlap_recent_example :
    (t : ℕ) × WasRow 5 books_row.consumer t stored_late.seen × (20 < t + 1 + 60)
unfolding cached_consumer remember
overlap_recent_example =
    overlap_recent 1 quiet stored_late 5 books_row.consumer
      (record { looking_ok = tt; copies_ok = tt }) race refl

-- A query that answers the merchant it is asked for.
abbrev which_merchant : ℕ → Db → Caches → Reply ℕ × Caches
which_merchant merchant_id db caches = (answer merchant_id, caches)

list_endpoint-Served_example :
    Served clear 20 request
      (λ r. true)
      "payments:read"
      100
      which_merchant
      opened
      (verify_third_party_access clear 20 request opened).1
      1
unfolding list_endpoint verify_third_party_access verify_claims verify_consumer verify_merchant
    get_cached_consumer cached_consumer validate_token resolve_merchant_uuid_to_id
    check_merchant_access require_scope
list_endpoint-Served_example =
    list_endpoint-Served clear 20 request (λ r. true) "payments:read" 100 which_merchant opened 1
      opened-IsCoherent refl
