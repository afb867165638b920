-- ===== src/Core/Api.antt =====
-- The routers of payment-core-service (src/routers/payments.py, refunds.py, customers.py) and
-- src/utils/auth.py: who may call an endpoint, and the status code of the answer.
pub mod Guards
pub mod Registering
use multi_tenant_event_drive.Prelude.{
  text_eq, ℕ, String, Bool, true, false, ◌&&◌, ◌||◌, not, Option, none, some, List, [], ◌∷◌, ◌==◌,
  if◌then◌else◌,
}
use multi_tenant_event_drive.Prelude.Table.{find}
use multi_tenant_event_drive.Core.Rows.{
  Text, Merchant, Status, authorized, captured, failed, settled, PaymentView, RefundView,
  CustomerView,
}
use multi_tenant_event_drive.Core.Scope.{
  Result, ok, err, Error, key_error, unique_violation, numeric_overflow, foreign_key_violation,
  undefined_table,
}
use multi_tenant_event_drive.Core.Payments.{
  Fresh, PaymentCreate, valid_amount, create_payment, transition_payment, update_payment,
}
use multi_tenant_event_drive.Core.Refunds.{create_refund, process_refund}
use multi_tenant_event_drive.Core.Customers.{
  CustomerCreate, CustomerUpdate, create_customer, update_customer, delete_customer,
}
use multi_tenant_event_drive.Core.Merchants.{Db, App, service}

-- One constructor for each endpoint that writes.
pub data Endpoint : Type 0 where
  post_payment : PaymentCreate → Endpoint
  put_payment : ℕ → Option String → Option String → Endpoint
  post_authorize post_capture post_fail post_settle : ℕ → Endpoint
  post_refund : ℕ → ℕ → Option String → Endpoint
  post_process : ℕ → Endpoint
  post_customer : CustomerCreate → Endpoint
  put_customer : ℕ → CustomerUpdate → Endpoint
  remove_customer : ℕ → Endpoint

-- The errors that `except ValueError` catches.
abbrev pub is_value_error : Error → Bool
is_value_error key_error = false
is_value_error unique_violation = false
is_value_error numeric_overflow = false
is_value_error foreign_key_violation = false
is_value_error undefined_table = false
is_value_error _ = true

-- With `except ValueError` the answer is 400; any other exception is a 500.
abbrev pub caught : Error → ℕ
caught e = if is_value_error e then 400 else 500

-- An endpoint without `except`.
abbrev pub uncaught : Error → ℕ
uncaught e = 500

abbrev pub status : {A : Type 0} → (A → ℕ) → (Error → ℕ) → Result A → ℕ
status good bad (ok a) = good a
status good bad (err e) = bad e

-- `if not row: raise HTTPException(404)`
abbrev pub found : {A : Type 0} → Option A → ℕ
found none = 404
found (some a) = 200

-- The transitions return what the service returns: `None` fails the response model, a 500.
abbrev pub modelled : {A : Type 0} → Option A → ℕ
modelled none = 500
modelled (some a) = 200

abbrev pub deleted : Bool → ℕ
deleted true = 204
deleted false = 404

abbrev pub answer : {A : Type 0} → (A → ℕ) → (Error → ℕ) → Result A × App → ℕ × App
answer good bad (r, app) = (status good bad r, app)

-- Pydantic's check of the body: the amounts of PaymentCreate and RefundCreate.
abbrev pub valid_body : Endpoint → Bool
valid_body (post_payment body) = valid_amount body.amount
valid_body (post_refund payment_id amount reason) = valid_amount amount
valid_body _ = true

-- The handler behind the checks, for a merchant whose id is resolved.
pub handler : (now merchant_id : ℕ) → Fresh → Endpoint → App → ℕ × App
handler now mid fresh (post_payment body) app =
    answer (λ v. 201) caught (service now mid (λ schema. create_payment mid schema fresh body) app)
handler now mid fresh (put_payment id description metadata) app =
    answer found caught
      (service now mid (λ schema. update_payment mid schema fresh id description metadata) app)
handler now mid fresh (post_authorize id) app =
    answer modelled caught
      (service now mid (λ schema. transition_payment mid schema fresh id authorized none) app)
handler now mid fresh (post_capture id) app =
    answer modelled caught
      (service now mid (λ schema. transition_payment mid schema fresh id captured none) app)
handler now mid fresh (post_fail id) app = answer modelled caught (
    service now mid
      (λ schema. transition_payment mid schema fresh id failed (some "Payment declined")) app)
handler now mid fresh (post_settle id) app =
    answer modelled caught
      (service now mid (λ schema. transition_payment mid schema fresh id settled none) app)
handler now mid fresh (post_refund id amount reason) app =
    answer (λ v. 201) caught
      (service now mid (λ schema. create_refund mid schema fresh id amount reason) app)
handler now mid fresh (post_process id) app =
    answer found caught (service now mid (λ schema. process_refund mid schema fresh id) app)
handler now mid fresh (post_customer body) app =
    answer (λ v. 201) caught (service now mid (λ schema. create_customer mid schema fresh body) app)
handler now mid fresh (put_customer id body) app =
    answer found uncaught (service now mid (λ schema. update_customer mid schema fresh id body) app)
handler now mid fresh (remove_customer id) app =
    answer deleted uncaught (service now mid (λ schema. delete_customer mid schema fresh id) app)

-- What `verify_merchant_access` decides.
pub data Access : Type 0 where
  denied : ℕ → Access
  granted : Merchant → Access

-- `uuid_text` is Python's `str` of a UUID.
module _ (uuid_text : ℕ → Text) where
  -- An absent or empty X-API-Key is a 401, an unknown merchant or another key a 403.
  unfoldable pub verify_merchant_access : Option Text → ℕ → Db → Access
  verify_merchant_access none merchant_uuid db = denied 401
  verify_merchant_access (some []) merchant_uuid db = denied 401
  verify_merchant_access (some (c ∷ key)) merchant_uuid db =
      elim (find Merchant.merchant_uuid merchant_uuid db.merchants) [
        | none ↦ denied 403
        | some m ↦ if text_eq (uuid_text m.api_key) (c ∷ key) then granted m else denied 403
      ]

  -- A call of an endpoint: the router's dependency, the check of the body, `resolve_merchant_id`,
  -- and the handler.
  unfoldable pub call : ℕ → Option Text → ℕ → Fresh → Endpoint → App → ℕ × App
  unfolding verify_merchant_access
  call now header merchant_uuid fresh endpoint app =
      elim (verify_merchant_access header merchant_uuid app.db) [
        | denied code ↦ (code, app)
        | granted _ ↦
            if valid_body endpoint
            then elim (find Merchant.merchant_uuid merchant_uuid app.merchants) [
              | none ↦ (404, app)
              | some m ↦
                  if m.merchant_id == 0
                  then (404, app)
                  else handler now m.merchant_id fresh endpoint app
            ]
            else (422, app)
      ]
