-- ===== src/Connect/Access/Grants.antt =====
-- src/services/oauth_service.py of services/connect-service: the merchants that a consumer may read.
pub mod Checked
use multi_tenant_event_drive.Prelude.{
  ℕ, String, Bool, false, ◌&&◌, ◌||◌, Option, none, some, List, [], ◌∷◌, ◌++◌, ◌==◌, if◌then◌else◌,
}
use multi_tenant_event_drive.Prelude.Table.{find, has}
use multi_tenant_event_drive.Core.Rows.{Merchant, MerchantStatus}
use multi_tenant_event_drive.Connect.Access.{Access, Grant, row_id}

-- SELECT 1 … WHERE consumer_id = $1 AND merchant_id = $2
unfoldable pub check_merchant_access : (consumer_id merchant_id : ℕ) → List Grant → Bool
check_merchant_access consumer_id merchant_id [] = false
check_merchant_access consumer_id merchant_id (g ∷ gs) =
    ((g.consumer_id == consumer_id) && (g.merchant_id == merchant_id))
    || check_merchant_access consumer_id merchant_id gs

abbrev pub new_grant : (now consumer_id : ℕ) → (granted_by : String) → Merchant → Grant
new_grant now consumer_id granted_by m = record {
  consumer_id = consumer_id;
  merchant_id = m.merchant_id;
  scopes = [];
  granted_at = now;
  granted_by = granted_by;
}

-- INSERT … SELECT … ON CONFLICT DO NOTHING RETURNING *, for one UUID: the new row, if any.
unfoldable pub assign_merchant :
    (now consumer_id : ℕ)
    → (granted_by : String) → (merchants : List Merchant) → (merchant_uuid : ℕ) → List Grant
    → List Grant
unfolding check_merchant_access
assign_merchant now consumer_id granted_by merchants merchant_uuid grants =
    elim (find Merchant.merchant_uuid merchant_uuid merchants) [
      | none ↦ []
      | some m ↦
          if check_merchant_access consumer_id m.merchant_id grants
          then []
          else new_grant now consumer_id granted_by m ∷ []
    ]

-- The rows that are new. That the consumer exists is the FOREIGN KEY's: the endpoint asks first.
unfoldable pub assign_merchants :
    (now consumer_id : ℕ)
    → (granted_by : String) → (merchants : List Merchant) → (merchant_uuids : List ℕ) → List Grant
    → List Grant × List Grant
unfolding assign_merchant
assign_merchants now consumer_id granted_by merchants [] grants = ([], grants)
assign_merchants now consumer_id granted_by merchants (uuid ∷ uuids) grants =
    let new = assign_merchant now consumer_id granted_by merchants uuid grants in
    let (results, grants') =
      assign_merchants now consumer_id granted_by merchants uuids (grants ++ new) in
    (new ++ results, grants')

abbrev pub revoke : (consumer_id merchant_id : ℕ) → List Grant → List Grant
revoke consumer_id merchant_id [] = []
revoke consumer_id merchant_id (g ∷ gs) =
    let rest = revoke consumer_id merchant_id gs in
    if (g.consumer_id == consumer_id) && (g.merchant_id == merchant_id) then rest else g ∷ rest

-- DELETE …, and whether it deleted a row.
unfoldable pub remove_merchant_access :
    (consumer_id merchant_uuid : ℕ) → (merchants : List Merchant) → List Grant → Bool × List Grant
unfolding check_merchant_access
remove_merchant_access consumer_id merchant_uuid merchants grants =
    elim (find Merchant.merchant_uuid merchant_uuid merchants) [
      | none ↦ (false, grants)
      | some m ↦ (
        check_merchant_access consumer_id m.merchant_id grants,
        revoke consumer_id m.merchant_id grants,
      )
    ]

-- assign_merchants_endpoint of src/routers/consumer_management.py; `none` is the 404.
unfoldable pub assign_merchants_endpoint :
    (now consumer_id : ℕ) → (merchant_uuids : List ℕ) → Access → Option (List Grant) × Access
unfolding assign_merchants
assign_merchants_endpoint now consumer_id merchant_uuids a =
    let (results, grants) =
      assign_merchants now consumer_id "admin" a.db.merchants merchant_uuids a.grants in
    if has row_id consumer_id a.consumers
    then (some results, record a { grants = grants })
    else (none, a)

unfoldable pub remove_merchant_endpoint : (consumer_id merchant_uuid : ℕ) → Access → Bool × Access
unfolding remove_merchant_access
remove_merchant_endpoint consumer_id merchant_uuid a =
    let (removed, grants) =
      remove_merchant_access consumer_id merchant_uuid a.db.merchants a.grants in
    (removed, record a { grants = grants })

-- A row of get_consumer_merchants: a grant with its merchant. The merchant's id is taken out.
pub record AssignedMerchant : Type 0 where
  pub merchant_uuid : ℕ
  pub merchant_name : String
  pub merchant_email : String
  pub merchant_status : MerchantStatus
  pub granted_at : ℕ
  pub scopes : List String

-- JOIN public.merchants; the ORDER BY is left to the database.
unfoldable pub get_consumer_merchants :
    (consumer_id : ℕ) → List Merchant → List Grant → List AssignedMerchant
get_consumer_merchants consumer_id merchants [] = []
get_consumer_merchants consumer_id merchants (g ∷ gs) =
    let rest = get_consumer_merchants consumer_id merchants gs in
    if g.consumer_id == consumer_id
    then elim (find Merchant.merchant_id g.merchant_id merchants) [
      | none ↦ rest
      | some m ↦
          record {
            merchant_uuid = m.merchant_uuid;
            merchant_name = m.name;
            merchant_email = m.email;
            merchant_status = m.status;
            granted_at = g.granted_at;
            scopes = g.scopes;
          }
          ∷ rest
    ]
    else rest
