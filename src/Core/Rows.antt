-- ===== src/Core/Rows.antt =====
-- The tables of services/payment-core-service/src/services/merchant_service.py (CREATE TABLE of a
-- tenant) and infra/postgres/init-core-db.sql, and the request bodies of src/models/schemas.py.
-- A UUID and a point in time are numbers, an amount is in hundredths (DECIMAL(12,2)), a JSON value
-- and any text that is only stored is a `String`.
use multi_tenant_event_drive.Prelude.{ℕ, String, Option, List, []}
use multi_tenant_event_drive.Prelude.Int.{ℤ}

-- A schema name is taken apart by a regular expression: its code points.
abbrev pub Text : Type 0
Text = List ℕ

pub record Customer : Type 0 where
  pub id : ℕ
  pub customer_id : ℕ
  pub name : String
  pub email : Option String
  pub phone : Option String
  pub created_at : ℕ
  pub updated_at : ℕ

pub data Status : Type 0 where
  created authorized captured failed settled : Status

pub data Currency : Type 0 where
  inr usd eur : Currency

pub data Method : Type 0 where
  card upi netbanking wallet : Method

pub record Payment : Type 0 where
  pub id : ℕ
  pub payment_id : ℕ
  pub customer_ref : ℕ
  pub amount : ℕ
  pub currency : Currency
  pub status : Status
  pub method : Method
  pub description : Option String
  pub metadata : String
  pub failure_reason : Option String
  pub amount_refunded : ℕ
  pub created_at : ℕ
  pub updated_at : ℕ

pub data RefundStatus : Type 0 where
  initiated processed : RefundStatus

pub record Refund : Type 0 where
  pub id : ℕ
  pub refund_id : ℕ
  pub payment_ref : ℕ
  pub amount : ℕ
  pub reason : Option String
  pub status : RefundStatus
  pub created_at : ℕ
  pub updated_at : ℕ

pub data EntryType : Type 0 where
  payment_created payment_captured refund_issued : EntryType

pub record LedgerEntry : Type 0 where
  pub ledger_id : ℕ
  pub payment_ref : ℕ
  pub refund_ref : Option ℕ
  pub entry_type : EntryType
  pub amount : ℕ
  pub balance_after : ℤ
  pub created_at : ℕ

-- The tables of one tenant's schema, with the next value of each BIGSERIAL.
pub record Tenant : Type 0 where
  pub customers : List Customer
  pub payments : List Payment
  pub refunds : List Refund
  pub ledger_entries : List LedgerEntry
  pub next_customer : ℕ
  pub next_payment : ℕ
  pub next_refund : ℕ

abbrev pub empty_tenant : Tenant
empty_tenant = record {
  customers = [];
  payments = [];
  refunds = [];
  ledger_entries = [];
  next_customer = 1;
  next_payment = 1;
  next_refund = 1;
}

pub data MerchantStatus : Type 0 where
  active suspended : MerchantStatus

pub record Merchant : Type 0 where
  pub merchant_id : ℕ
  pub merchant_uuid : ℕ
  pub name : String
  pub email : String
  pub schema_name : Text
  pub api_key : ℕ
  pub status : MerchantStatus
  pub created_at : ℕ
  pub updated_at : ℕ

-- What the services return for a payment: the row with the customer's UUID in place of the keys.
pub record PaymentView : Type 0 where
  pub payment_id : ℕ
  pub customer_id : Option ℕ
  pub amount : ℕ
  pub currency : Currency
  pub status : Status
  pub method : Method
  pub description : Option String
  pub metadata : String
  pub failure_reason : Option String
  pub amount_refunded : ℕ
  pub created_at : ℕ
  pub updated_at : ℕ

pub record RefundView : Type 0 where
  pub refund_id : ℕ
  pub payment_id : Option ℕ
  pub amount : ℕ
  pub reason : Option String
  pub status : RefundStatus
  pub created_at : ℕ
  pub updated_at : ℕ

pub record CustomerView : Type 0 where
  pub customer_id : ℕ
  pub name : String
  pub email : Option String
  pub phone : Option String
  pub created_at : ℕ
  pub updated_at : ℕ

pub data EventType : Type 0 where
  merchant_created merchant_updated : EventType
  customer_created customer_updated customer_deleted : EventType
  payment_created payment_authorized payment_captured payment_failed payment_settled : EventType
  payment_updated refund_initiated refund_processed : EventType

-- The entity that an event is about: its type and its UUID (a merchant's is its number).
pub data Entity : Type 0 where
  merchant customer payment refund : ℕ → Entity

-- `payload` before `json.dumps`. A new refund's payload adds the payment's amount and the customer.
pub data Payload : Type 0 where
  of_merchant : Merchant → Payload
  of_customer : CustomerView → Payload
  of_deleted : ℕ → Payload
  of_payment : PaymentView → Payload
  of_refund : RefundView → Payload
  of_new_refund : RefundView → ℕ → Option ℕ → Payload

pub data EventStatus : Type 0 where
  pending published : EventStatus

pub record DomainEvent : Type 0 where
  pub event_id : ℕ
  pub merchant_id : ℕ
  pub schema_name : Text
  pub event_type : EventType
  pub entity : Entity
  pub payload : Payload
  pub status : EventStatus
  pub created_at : ℕ
  pub updated_at : ℕ
