-- ===== src/Connect/Bulk/Events.antt =====
-- get_events of src/services/bulk_service.py of services/connect-service.
use multi_tenant_event_drive.Prelude.{ℕ, String, Bool, ◌&&◌, Option, ◌==◌, str_eq, leb, map}
use multi_tenant_event_drive.Prelude.Keyset.{after}
use multi_tenant_event_drive.Core.Rows.{
  Text, MerchantStatus, DomainEvent, EventType, merchant_created, merchant_updated,
  customer_created, customer_updated, customer_deleted, payment_created, payment_authorized,
  payment_captured, payment_failed, payment_settled, payment_updated, refund_initiated,
  refund_processed, Entity, EventStatus, Payload, of_merchant,
}
use multi_tenant_event_drive.Core.Merchants.{Db}
use multi_tenant_event_drive.Connect.Bulk.{Reply, answer, fault, BulkPage, if_given, bulk_query}
use multi_tenant_event_drive.Connect.Bulk.Cursor.{Codec}
use multi_tenant_event_drive.Connect.Bulk.Queries.{given, count_if}

abbrev pub event_type_text : EventType → String
event_type_text merchant_created = "merchant.created.v1"
event_type_text merchant_updated = "merchant.updated.v1"
event_type_text customer_created = "customer.created.v1"
event_type_text customer_updated = "customer.updated.v1"
event_type_text customer_deleted = "customer.deleted.v1"
event_type_text payment_created = "payment.created.v1"
event_type_text payment_authorized = "payment.authorized.v1"
event_type_text payment_captured = "payment.captured.v1"
event_type_text payment_failed = "payment.failed.v1"
event_type_text payment_settled = "payment.settled.v1"
event_type_text payment_updated = "payment.updated.v1"
event_type_text refund_initiated = "refund.initiated.v1"
event_type_text refund_processed = "refund.processed.v1"

abbrev pub entity_type_text : Entity → String
entity_type_text (Entity.merchant id) = "merchant"
entity_type_text (Entity.customer id) = "customer"
entity_type_text (Entity.payment id) = "payment"
entity_type_text (Entity.refund id) = "refund"

-- A payload after `pop("merchant_id")`; only a merchant's has the key.
pub record PublicMerchant : Type 0 where
  pub merchant_uuid : ℕ
  pub name : String
  pub email : String
  pub schema_name : Text
  pub api_key : ℕ
  pub status : MerchantStatus
  pub created_at : ℕ
  pub updated_at : ℕ

pub data PublicPayload : Type 0 where
  public_merchant : PublicMerchant → PublicPayload
  other : Payload → PublicPayload

abbrev pub without_id : Payload → PublicPayload
without_id (of_merchant m) = public_merchant (record {
  merchant_uuid = m.merchant_uuid;
  name = m.name;
  email = m.email;
  schema_name = m.schema_name;
  api_key = m.api_key;
  status = m.status;
  created_at = m.created_at;
  updated_at = m.updated_at;
})
without_id payload = other payload

-- An event of a merchant is about the UUID in its payload, where there is one.
abbrev pub public_entity : Entity → Payload → Entity
public_entity (Entity.merchant id) (of_merchant m) = Entity.merchant m.merchant_uuid
public_entity entity payload = entity

pub record EventRow : Type 0 where
  pub event_id : ℕ
  pub event_type : EventType
  pub entity : Entity
  pub payload : PublicPayload
  pub status : EventStatus
  pub created_at : ℕ

abbrev pub event_row : DomainEvent → EventRow
event_row e = record {
  event_id = e.event_id;
  event_type = e.event_type;
  entity = public_entity e.entity e.payload;
  payload = without_id e.payload;
  status = e.status;
  created_at = e.created_at;
}

-- WHERE, less the cursor.
abbrev pub keeps_event :
    (merchant_id : ℕ)
    → (event_type entity_type : Option String) → (created_gte created_lte : Option ℕ) → DomainEvent
    → Bool
keeps_event merchant_id event_type entity_type created_gte created_lte e =
    (e.merchant_id == merchant_id)
    && (if_given (given event_type) (str_eq (event_type_text e.event_type))
        && (if_given (given entity_type) (str_eq (entity_type_text e.entity))
            && (if_given created_gte (λ t. leb t e.created_at)
                && if_given created_lte (λ t. leb e.created_at t))))

abbrev pub map_page : {A B : Type 0} → (A → B) → Reply (BulkPage A) → Reply (BulkPage B)
map_page f (fault e) = fault e
map_page f (answer p) = answer (record {
  data_rows = map f p.data_rows;
  next_cursor = p.next_cursor;
  has_more = p.has_more;
  limit = p.limit;
  total_count = p.total_count;
})

module _ (c : Codec) where
  unfoldable pub get_events :
      (merchant_id : ℕ)
      → (cursor : Option Text) → (limit : ℕ) → (event_type entity_type : Option String)
      → (created_gte created_lte : Option ℕ) → (include_count : Bool) → Db
      → Reply (BulkPage EventRow)
  unfolding bulk_query
  get_events merchant_id cursor limit event_type entity_type created_gte created_lte include_count
        db =
      let keep = keeps_event merchant_id event_type entity_type created_gte created_lte in
      map_page event_row (
        bulk_query c DomainEvent.created_at DomainEvent.event_id db.events keep
          (λ position.
            count_if include_count
              (λ e. after DomainEvent.created_at DomainEvent.event_id position e && keep e)
              db.events)
          limit cursor)
