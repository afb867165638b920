-- ===== src/Connect/ReadModel.antt =====
-- The read database of services/connect-service: its tables (src/services/schema_manager.py) and the
-- handlers that bring an event into them (src/services/sync_service.py). A handler answers `none`
-- where it raises; its transaction is then rolled back.
pub mod Changes
pub mod Handlers
pub mod Mirror
pub mod Totals
pub mod Consumer
use multi_tenant_event_drive.Prelude.{ℕ, String, Option, List, []}
use multi_tenant_event_drive.Prelude.Int.{ℤ}
use multi_tenant_event_drive.Core.Rows.{
  Text, Currency, Status, Method, card, upi, netbanking, wallet, RefundStatus, MerchantStatus,
  DomainEvent,
}

pub record ReadCustomer : Type 0 where
  pub customer_id : ℕ
  pub name : String
  pub email : Option String
  pub phone : Option String
  pub total_payments : ℕ
  pub total_spent : ℤ
  pub last_payment_at : Option ℕ
  pub created_at : ℕ
  pub updated_at : ℕ

-- The `metadata` of the read payments. A handler passes json.dumps of the value for a `jsonb` parameter,
-- whose codec (`init_connection` of src/database.py) applies json.dumps again: what is stored is the JSON
-- string whose characters are the JSON text of the value.
pub data StoredJson : Type 0 where
  json_string : String → StoredJson

-- `amount_refunded` has its default, and no handler sets it.
pub record ReadPayment : Type 0 where
  pub payment_id : ℕ
  pub customer_id : ℕ
  pub customer_name : Option String
  pub customer_email : Option String
  pub amount : ℕ
  pub currency : Currency
  pub status : Status
  pub method : Method
  pub description : Option String
  pub failure_reason : Option String
  pub metadata : StoredJson
  pub amount_refunded : ℕ
  pub created_at : ℕ
  pub updated_at : ℕ

pub record ReadRefund : Type 0 where
  pub refund_id : ℕ
  pub payment_id : ℕ
  pub payment_amount : Option ℕ
  pub customer_name : Option String
  pub amount : ℕ
  pub reason : Option String
  pub status : RefundStatus
  pub created_at : ℕ
  pub updated_at : ℕ

pub record DailyRevenue : Type 0 where
  pub date : ℕ
  pub total_amount : ℕ
  pub payment_count : ℕ
  pub success_count : ℕ
  pub failed_count : ℕ
  pub refund_amount : ℕ
  pub net_revenue : ℤ
  pub created_at : ℕ
  pub updated_at : ℕ

-- `success_rate` is NULL where the division is by zero.
pub record MethodStats : Type 0 where
  pub method : Method
  pub total_amount : ℕ
  pub count : ℕ
  pub success_count : ℕ
  pub success_rate : Option ℕ
  pub created_at : ℕ
  pub updated_at : ℕ

-- The tables of one merchant's schema.
pub record ReadTables : Type 0 where
  pub customers : List ReadCustomer
  pub payments : List ReadPayment
  pub refunds : List ReadRefund
  pub daily_revenue : List DailyRevenue
  pub method_stats : List MethodStats

abbrev pub empty_tables : ReadTables
empty_tables = record {
  customers = [];
  payments = [];
  refunds = [];
  daily_revenue = [];
  method_stats = [];
}

-- public.merchants
pub record ReadMerchant : Type 0 where
  pub merchant_id : ℕ
  pub merchant_uuid : ℕ
  pub name : String
  pub email : String
  pub schema_name : Text
  pub status : MerchantStatus
  pub created_at : ℕ
  pub updated_at : ℕ

-- The database: `processed_events`, `consumer_dead_letter`, the mirror of the merchants, and the
-- schemas.
pub record ReadDb : Type 0 where
  pub merchants : List ReadMerchant
  pub schemas : List (Text × ReadTables)
  pub processed : List ℕ
  pub dead_letters : List DomainEvent

-- The text of a method, as a number: the PRIMARY KEY of the method statistics.
abbrev pub method_key : Method → ℕ
method_key card = 0
method_key upi = 1
method_key netbanking = 2
method_key wallet = 3
