-- ===== src/Core/Api/Guards.antt =====
-- Who gets through to a handler, and what a handler can touch.
use multi_tenant_event_drive.Prelude.{
  text_eq, text_eq-eq, ℕ, ◌≡◌, refl, ◌≢◌, ◌⊎◌, inl, inr, Option, none, some, [], ◌∷◌, arith,
  Bool-cases, Option-cases,
}
use multi_tenant_event_drive.Prelude.Table.{find}
use multi_tenant_event_drive.Core.Rows.{Text, Merchant}
use multi_tenant_event_drive.Core.Payments.{Fresh}
use multi_tenant_event_drive.Core.Merchants.{tables_of, App}
use multi_tenant_event_drive.Core.Merchants.Registry.{schema_of, IsRegistry}
use multi_tenant_event_drive.Core.Merchants.Isolation.{service_isolates}
use multi_tenant_event_drive.Core.Api.{
  Endpoint, post_payment, handler, verify_merchant_access, call,
}

handler_isolates :
    (now merchant_id other : ℕ) (fresh : Fresh) (e : Endpoint) (app : App) (theirs : Text)
    → IsRegistry app
    → merchant_id ≢ other
    → schema_of other app.merchants ≡ some theirs
    → tables_of theirs (handler now merchant_id fresh e app).1.schemas
      ≡ tables_of theirs app.schemas
unfolding handler
handler_isolates now mid other fresh (post_payment body) app theirs h ne k =
    service_isolates now mid other _ app theirs h ne k
handler_isolates now mid other fresh _ app theirs h ne k =
    service_isolates now mid other _ app theirs h ne k

module _ (uuid_text : ℕ → Text) where
  -- A call whose key is not the text of the API key of the merchant that the URL names changes
  -- nothing, and the answer is 401 or 403.
  pub call_denied :
      (now : ℕ) (header : Option Text) (merchant_uuid : ℕ) (fresh : Fresh) (e : Endpoint)
      (app : App)
      → ((m : Merchant)
          → find Merchant.merchant_uuid merchant_uuid app.merchants ≡ some m
          → header ≢ some (uuid_text m.api_key))
      → (call uuid_text now header merchant_uuid fresh e app ≡ (401, app))
        ⊎ (call uuid_text now header merchant_uuid fresh e app ≡ (403, app))
  unfolding call
  call_denied now none merchant_uuid fresh e app h = inl refl
  call_denied now (some []) merchant_uuid fresh e app h = inl refl
  call_denied now (some (c ∷ key)) merchant_uuid fresh e app h =
      elim (Option-cases (find Merchant.merchant_uuid merchant_uuid app.merchants)) [
        | inl unknown ↦ inr (rw (unknown, call, verify_merchant_access))
        | inr (m, there) ↦ elim (Bool-cases (text_eq (uuid_text m.api_key) (c ∷ key))) [
          | inl same ↦ absurd (h m there (cc (text_eq-eq (uuid_text m.api_key) (c ∷ key) same)))
          | inr other ↦ inr (rw (there, other, call, verify_merchant_access))
        ]
      ]

  -- Over a sound registry, a call for one merchant leaves the tables of every other registered
  -- merchant as they were.
  pub call_isolates :
      (now : ℕ) (header : Option Text) (merchant_uuid other : ℕ) (fresh : Fresh) (e : Endpoint)
      (app : App) (m : Merchant) (theirs : Text)
      → IsRegistry app
      → find Merchant.merchant_uuid merchant_uuid app.merchants ≡ some m
      → m.merchant_id ≢ other
      → schema_of other app.merchants ≡ some theirs
      → tables_of theirs (call uuid_text now header merchant_uuid fresh e app).1.schemas
        ≡ tables_of theirs app.schemas
  unfolding call
  call_isolates now header merchant_uuid other fresh e app m theirs h there ne k =
      ground (arith, handler_isolates now m.merchant_id other fresh e app theirs h ne k)
