-- ===== src/Core/Api/Registering.antt =====
-- src/routers/merchants.py of payment-core-service: the endpoints on the registry of merchants.
use multi_tenant_event_drive.Prelude.{
  ℕ, String, ◌≡◌, refl, ◌≢◌, Option, none, some, inl, inr, Option-cases, [], ◌∷◌, arith,
  text_eq_self,
}
use multi_tenant_event_drive.Prelude.Table.{find}
use multi_tenant_event_drive.Core.Rows.{Text, Merchant, MerchantStatus}
use multi_tenant_event_drive.Core.Scope.{Result, ok, err, Error}
use multi_tenant_event_drive.Core.Merchants.{Db, App, NewMerchant, create_merchant, update_merchant}
use multi_tenant_event_drive.Core.Merchants.Registry.{IsRegistry}
use multi_tenant_event_drive.Core.Merchants.Enrolling.{
  create_merchant-IsRegistry, update_merchant-IsRegistry,
}
use multi_tenant_event_drive.Core.Api.{caught, granted, verify_merchant_access}

-- MerchantPublicResponse
pub record PublicMerchant : Type 0 where
  pub merchant_uuid : ℕ
  pub name : String
  pub email : String
  pub status : MerchantStatus
  pub created_at : ℕ

abbrev pub public_view : Merchant → PublicMerchant
public_view m = record {
  merchant_uuid = m.merchant_uuid;
  name = m.name;
  email = m.email;
  status = m.status;
  created_at = m.created_at;
}

abbrev pub get_merchant_by_uuid : ℕ → Db → Option Merchant
get_merchant_by_uuid merchant_uuid db = find Merchant.merchant_uuid merchant_uuid db.merchants

-- A status code, with a body where the endpoint succeeds.
abbrev pub Response : Type 0 → Type 0
Response A = ℕ × Option A

-- `good` is the status code of a success.
unfoldable pub respond : ℕ → Result Merchant × Db → App → Response PublicMerchant × App
respond good (ok m, db) app = ((good, some (public_view m)), record app { db = db })
respond good (err e, db) app = ((caught e, none), record app { db = db })

unfoldable pub post_merchant : NewMerchant → String → String → App → Response PublicMerchant × App
unfolding respond
post_merchant fresh name email app = respond 201 (create_merchant fresh name email app.db) app

unfoldable pub put_merchant :
    (event_uuid now emitted_at merchant_uuid : ℕ)
    → Option String
    → Option String
    → Option MerchantStatus
    → App
    → Response PublicMerchant × App
unfolding respond
put_merchant event_uuid now emitted_at merchant_uuid name email status app =
    elim (get_merchant_by_uuid merchant_uuid app.db) [
      | none ↦ ((404, none), app)
      | some m ↦
          respond 200
            (update_merchant event_uuid now emitted_at m.merchant_id name email status app.db) app
    ]

-- The UUID and the API key, to any caller.
unfoldable pub get_merchant_credentials : ℕ → Db → Response (ℕ × ℕ)
get_merchant_credentials merchant_uuid db = elim (get_merchant_by_uuid merchant_uuid db) [
  | none ↦ (404, none)
  | some m ↦ (200, some (m.merchant_uuid, m.api_key))
]

create_merchant-err :
    (fresh : NewMerchant) (name email : String) (db : Db) (e : Error)
    → (create_merchant fresh name email db).0 ≡ err e
    → (create_merchant fresh name email db).1 ≡ db
unfolding create_merchant
create_merchant-err fresh name email db e h = ground arith

update_merchant-err :
    (event_uuid now emitted_at merchant_id : ℕ) (name email : Option String)
    (status : Option MerchantStatus) (db : Db) (e : Error)
    → (update_merchant event_uuid now emitted_at merchant_id name email status db).0 ≡ err e
    → (update_merchant event_uuid now emitted_at merchant_id name email status db).1 ≡ db
unfolding update_merchant
update_merchant-err event_uuid now emitted_at merchant_id name email status db e h = ground arith

respond-IsRegistry :
    (good : ℕ) (out : Result Merchant × Db) (app : App)
    → IsRegistry app
    → ((m : Merchant) → out.0 ≡ ok m → IsRegistry (record app { db = out.1 }))
    → ((e : Error) → out.0 ≡ err e → out.1 ≡ app.db)
    → IsRegistry (respond good out app).1
unfolding respond
respond-IsRegistry good (ok m, db) app h stored failed = stored m refl
respond-IsRegistry good (err e, db) app h stored failed = rw (failed e refl) h

-- POST of a merchant keeps the registry sound, whatever it answers.
pub post_merchant-IsRegistry :
    (fresh : NewMerchant) (name email : String) (app : App)
    → IsRegistry app
    → IsRegistry (post_merchant fresh name email app).1
unfolding post_merchant
post_merchant-IsRegistry fresh name email app h =
    let out = create_merchant fresh name email app.db in
    respond-IsRegistry 201 out app h
      (λ m e. create_merchant-IsRegistry fresh name email app m out.1 h (cc e))
      (create_merchant-err fresh name email app.db)

-- PUT of a merchant keeps the registry sound, whatever it answers.
pub put_merchant-IsRegistry :
    (event_uuid now emitted_at merchant_uuid : ℕ) (name email : Option String)
    (status : Option MerchantStatus) (app : App)
    → IsRegistry app
    → IsRegistry (put_merchant event_uuid now emitted_at merchant_uuid name email status app).1
unfolding put_merchant
put_merchant-IsRegistry event_uuid now emitted_at merchant_uuid name email status app h =
    elim (Option-cases (get_merchant_by_uuid merchant_uuid app.db)) [
      | inl missing ↦ rw (missing, put_merchant) h
      | inr (m, there) ↦
          let id = m.merchant_id in
          let out = update_merchant event_uuid now emitted_at id name email status app.db in
          rw (there, put_merchant)
            (respond-IsRegistry 200 out app h
              (λ x e.
                update_merchant-IsRegistry event_uuid now emitted_at id name email status app x
                  out.1 h (cc e))
              (update_merchant-err event_uuid now emitted_at id name email status app.db))
    ]

module _ (uuid_text : ℕ → Text) where
  -- The credentials of a registered merchant, which no key protects, open every endpoint of that
  -- merchant, when the text of a UUID is not empty.
  pub credentials_open :
      (merchant_uuid : ℕ) (db : Db) (m : Merchant)
      → get_merchant_by_uuid merchant_uuid db ≡ some m
      → uuid_text m.api_key ≢ []
      → (key : ℕ) × (get_merchant_credentials merchant_uuid db ≡ (200, some (m.merchant_uuid, key)))
        × (verify_merchant_access uuid_text (some (uuid_text key)) merchant_uuid db ≡ granted m)
  unfolding get_merchant_credentials verify_merchant_access
  credentials_open merchant_uuid db m there long =
      (m.api_key, rw (there, get_merchant_credentials) refl, opens (uuid_text m.api_key) refl long)
    where
      opens :
          (text : Text)
          → uuid_text m.api_key ≡ text
          → text ≢ []
          → verify_merchant_access uuid_text (some text) merchant_uuid db ≡ granted m
      opens [] e long' = absurd (long' refl)
      opens (c ∷ text) e long' = rw (there, e, text_eq_self (c ∷ text), verify_merchant_access) refl
