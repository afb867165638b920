-- ===== src/Connect/Bulk/Queries.antt =====
-- src/services/bulk_service.py of services/connect-service: the queries on the payments, the
-- customers and the refunds of a merchant.
use multi_tenant_event_drive.Prelude.{
  ℕ, String, Bool, true, false, ◌&&◌, Option, none, some, List, [], ◌∷◌, length, ltb, leb, str_eq,
  if◌then◌else◌, map,
}
use multi_tenant_event_drive.Prelude.Keyset.{select, after}
use multi_tenant_event_drive.Core.Rows.{
  Text, Tenant, Payment, PaymentView, Customer, CustomerView, Refund, RefundView, RefundStatus,
  Status, created, authorized, captured, failed, settled, Method, card, upi, netbanking, wallet,
}
use multi_tenant_event_drive.Core.Customers.{customer_view}
use multi_tenant_event_drive.Core.Listing.{joined_payments, joined_refunds}
use multi_tenant_event_drive.Core.Merchants.{Db, tables_of}
use multi_tenant_event_drive.Connect.Bulk.{
  Reply, fault, then_reply, invalid_cursor, undefined_table, BulkPage, if_given, bulk_query,
}
use multi_tenant_event_drive.Connect.Bulk.Resolving.{Caches, resolve_merchant_schema}
use multi_tenant_event_drive.Connect.Bulk.Cursor.{Codec, decode_cursor}

-- `if status:`: the empty text is no condition.
abbrev pub given : Option String → Option String
given none = none
given (some s) = if str_eq s "" then none else some s

abbrev pub status_text : Status → String
status_text created = "created"
status_text authorized = "authorized"
status_text captured = "captured"
status_text failed = "failed"
status_text settled = "settled"

abbrev pub method_text : Method → String
method_text card = "card"
method_text upi = "upi"
method_text netbanking = "netbanking"
method_text wallet = "wallet"

abbrev pub refund_status_text : RefundStatus → String
refund_status_text RefundStatus.initiated = "initiated"
refund_status_text RefundStatus.processed = "processed"

-- The columns of time in a condition, and what the conditions are.
pub record Times : Type 0 where
  pub created_gte : Option ℕ
  pub created_lte : Option ℕ
  pub updated_since : Option ℕ

abbrev pub in_times : Times → (created_at updated_at : ℕ) → Bool
in_times f created_at updated_at =
    if_given f.created_gte (λ t. leb t created_at)
    && (if_given f.created_lte (λ t. leb created_at t)
        && if_given f.updated_since (λ t. ltb t updated_at))

-- SELECT COUNT(*), where it is asked for.
abbrev pub count_if : {A : Type 0} → Bool → (A → Bool) → List A → Option ℕ
count_if false keep rows = none
count_if true keep rows = some (length (select keep rows))

abbrev pub keeps_payment :
    (status method : Option String) → Times → Status → Method → (created_at updated_at : ℕ) → Bool
keeps_payment status method times s m created_at updated_at =
    if_given (given status) (str_eq (status_text s))
    && (if_given (given method) (str_eq (method_text m)) && in_times times created_at updated_at)

abbrev pub keeps_refund :
    (status : Option String) → Times → RefundStatus → (created_at updated_at : ℕ) → Bool
keeps_refund status times s created_at updated_at =
    if_given (given status) (str_eq (refund_status_text s)) && in_times times created_at updated_at

module _ (c : Codec) where
  -- The statement of get_payments on the tables of the schema; the count is over `payments`, without
  -- the join.
  unfoldable pub query_payments :
      (cursor : Option Text)
      → (limit : ℕ) → (status method : Option String) → Times
      → (include_count : Bool) → Tenant
      → Reply (BulkPage PaymentView)
  unfolding bulk_query joined_payments
  query_payments cursor limit status method times include_count t =
      bulk_query c PaymentView.updated_at PaymentView.payment_id (joined_payments t t.payments)
        (λ v. keeps_payment status method times v.status v.method v.created_at v.updated_at)
        (λ position.
          count_if include_count
            (λ p.
              after Payment.updated_at Payment.payment_id position p
              && keeps_payment status method times p.status p.method p.created_at p.updated_at)
            t.payments)
        limit cursor

  unfoldable pub query_customers :
      (cursor : Option Text)
      → (limit : ℕ) → (updated_since : Option ℕ) → (include_count : Bool) → Tenant
      → Reply (BulkPage CustomerView)
  unfolding bulk_query
  query_customers cursor limit updated_since include_count t =
      let keep : ℕ → Bool = λ updated_at. if_given updated_since (λ s. ltb s updated_at) in
      bulk_query c CustomerView.updated_at CustomerView.customer_id (map customer_view t.customers)
        (λ v. keep v.updated_at)
        (λ position.
          count_if include_count
            (λ r. after Customer.updated_at Customer.customer_id position r && keep r.updated_at)
            t.customers)
        limit cursor

  unfoldable pub query_refunds :
      (cursor : Option Text)
      → (limit : ℕ) → (status : Option String) → Times
      → (include_count : Bool) → Tenant
      → Reply (BulkPage RefundView)
  unfolding bulk_query joined_refunds
  query_refunds cursor limit status times include_count t =
      bulk_query c RefundView.updated_at RefundView.refund_id (joined_refunds t t.refunds)
        (λ v. keeps_refund status times v.status v.created_at v.updated_at)
        (λ position.
          count_if include_count
            (λ r.
              after Refund.updated_at Refund.refund_id position r
              && keeps_refund status times r.status r.created_at r.updated_at)
            t.refunds)
        limit cursor

  -- The cursor is decoded before the statement fails on a schema that is not there.
  abbrev pub no_tables : {A : Type 0} → Option Text → Reply A
  no_tables none = fault undefined_table
  no_tables (some []) = fault undefined_table
  no_tables (some (b ∷ bs)) = elim (decode_cursor c (b ∷ bs)) [
    | none ↦ fault invalid_cursor
    | some fields ↦ fault undefined_table
  ]

  abbrev pub on_tables : {A : Type 0} → Option Text → (Tenant → Reply A) → Option Tenant → Reply A
  on_tables cursor query none = no_tables cursor
  on_tables cursor query (some t) = query t

  -- A query on the tables of the schema that the merchant's id resolves to.
  unfoldable pub on_merchant :
      {A : Type 0}
      → (now merchant_id : ℕ) → Option Text
      → (Tenant → Reply A)
      → Db
      → Caches
      → Reply A × Caches
  unfolding resolve_merchant_schema
  on_merchant now merchant_id cursor query db caches =
      let (schema, caches') = resolve_merchant_schema now merchant_id db caches in
      (then_reply schema (λ name. on_tables cursor query (tables_of name db.schemas)), caches')

  unfoldable pub get_payments :
      (now merchant_id : ℕ)
      → (cursor : Option Text) → (limit : ℕ) → (status method : Option String) → Times
      → (include_count : Bool) → Db
      → Caches
      → Reply (BulkPage PaymentView) × Caches
  unfolding on_merchant query_payments
  get_payments now merchant_id cursor limit status method times include_count =
      on_merchant now merchant_id cursor
        (query_payments cursor limit status method times include_count)

  unfoldable pub get_customers :
      (now merchant_id : ℕ)
      → (cursor : Option Text) → (limit : ℕ) → (updated_since : Option ℕ) → (include_count : Bool)
      → Db
      → Caches
      → Reply (BulkPage CustomerView) × Caches
  unfolding on_merchant query_customers
  get_customers now merchant_id cursor limit updated_since include_count =
      on_merchant now merchant_id cursor (query_customers cursor limit updated_since include_count)

  unfoldable pub get_refunds :
      (now merchant_id : ℕ)
      → (cursor : Option Text) → (limit : ℕ) → (status : Option String) → Times
      → (include_count : Bool) → Db
      → Caches
      → Reply (BulkPage RefundView) × Caches
  unfolding on_merchant query_refunds
  get_refunds now merchant_id cursor limit status times include_count =
      on_merchant now merchant_id cursor (query_refunds cursor limit status times include_count)
