-- ===== src/Connect/Access/Grants/Checked.antt =====
-- What assigning merchants to a consumer, and removing one, does to the check of
-- src/services/oauth_service.py of services/connect-service.
use multi_tenant_event_drive.Prelude.{
  ℕ, String, ◌≡◌, refl, Bool, false, ◌&&◌, ◌||◌, not, none, some, List, [], ◌∷◌, ◌++◌, arith,
  Option-cases, Bool-cases, inl, inr, ◌==◌,
}
use multi_tenant_event_drive.Prelude.Table.{find}
use multi_tenant_event_drive.Core.Rows.{Merchant}
use multi_tenant_event_drive.Connect.Access.{Grant}
use multi_tenant_event_drive.Connect.Access.Grants.{
  check_merchant_access, new_grant, assign_merchant, assign_merchants, revoke,
  remove_merchant_access,
}

-- Whether a UUID is that of the merchant with this id.
abbrev pub is_uuid_of : (merchant_id merchant_uuid : ℕ) → List Merchant → Bool
is_uuid_of merchant_id merchant_uuid merchants =
    elim (find Merchant.merchant_uuid merchant_uuid merchants) [
      | none ↦ false
      | some m ↦ m.merchant_id == merchant_id
    ]

abbrev pub is_named : (merchant_id : ℕ) → (merchant_uuids : List ℕ) → List Merchant → Bool
is_named merchant_id [] merchants = false
is_named merchant_id (uuid ∷ uuids) merchants =
    is_uuid_of merchant_id uuid merchants || is_named merchant_id uuids merchants

check-append :
    (c m : ℕ) (xs ys : List Grant)
    → check_merchant_access c m (xs ++ ys)
      ≡ (check_merchant_access c m xs || check_merchant_access c m ys)
unfolding check_merchant_access
check-append c m [] ys = refl
check-append c m (x ∷ xs) ys = ground (arith, check-append c m xs ys)

check-assign_merchant :
    (now c : ℕ) (by : String) (merchants : List Merchant) (uuid : ℕ) (grants : List Grant)
    (c' m : ℕ)
    → check_merchant_access c' m (grants ++ assign_merchant now c by merchants uuid grants)
      ≡ (check_merchant_access c' m grants || ((c == c') && is_uuid_of m uuid merchants))
unfolding assign_merchant check_merchant_access
check-assign_merchant now c by merchants uuid grants c' m =
    elim (Option-cases (find Merchant.merchant_uuid uuid merchants)) [
      | inl unknown ↦ ground (arith, check-append c' m grants [])
      | inr (row, found) ↦ elim (Bool-cases (check_merchant_access c row.merchant_id grants)) [
        | inl already ↦ ground (arith, check-append c' m grants [])
        | inr new ↦ ground (arith, check-append c' m grants (new_grant now c by row ∷ []))
      ]
    ]

check-assign_merchants :
    (now c : ℕ) (by : String) (merchants : List Merchant) (uuids : List ℕ) (grants : List Grant)
    (c' m : ℕ)
    → check_merchant_access c' m (assign_merchants now c by merchants uuids grants).1
      ≡ (check_merchant_access c' m grants || ((c == c') && is_named m uuids merchants))
unfolding assign_merchants
check-assign_merchants now c by merchants [] grants c' m = ground arith
check-assign_merchants now c by merchants (uuid ∷ uuids) grants c' m =
    let new = assign_merchant now c by merchants uuid grants in
    let one = check-assign_merchant now c by merchants uuid grants c' m in
    let rest = check-assign_merchants now c by merchants uuids (grants ++ new) c' m in
    ground (arith, one, rest)

check-revoke :
    (c m : ℕ) (grants : List Grant) (c' m' : ℕ)
    → check_merchant_access c' m' (revoke c m grants)
      ≡ (check_merchant_access c' m' grants && not ((c == c') && (m == m')))
unfolding check_merchant_access
check-revoke c m [] c' m' = ground arith
check-revoke c m (g ∷ gs) c' m' = ground (arith, check-revoke c m gs c' m')

check-remove_merchant_access :
    (c uuid : ℕ) (merchants : List Merchant) (grants : List Grant) (c' m : ℕ)
    → check_merchant_access c' m (remove_merchant_access c uuid merchants grants).1
      ≡ (check_merchant_access c' m grants && not ((c == c') && is_uuid_of m uuid merchants))
unfolding remove_merchant_access
check-remove_merchant_access c uuid merchants grants c' m =
    elim (Option-cases (find Merchant.merchant_uuid uuid merchants)) [
      | inl unknown ↦ ground arith
      | inr (row, found) ↦ ground (arith, check-revoke c row.merchant_id grants c' m)
    ]

-- A consumer may read a merchant after an assignment exactly if it could before or the assignment is to
-- it and names the merchant, and after a removal exactly if it could before and the removal is not from it
-- and of that merchant.
pub access_changes :
    (now c : ℕ) (by : String) (merchants : List Merchant) (uuids : List ℕ) (uuid : ℕ)
    (grants : List Grant) (c' m : ℕ)
    → (check_merchant_access c' m (assign_merchants now c by merchants uuids grants).1
        ≡ (check_merchant_access c' m grants || ((c == c') && is_named m uuids merchants)))
      × (check_merchant_access c' m (remove_merchant_access c uuid merchants grants).1
          ≡ (check_merchant_access c' m grants && not ((c == c') && is_uuid_of m uuid merchants)))
access_changes now c by merchants uuids uuid grants c' m = (
  check-assign_merchants now c by merchants uuids grants c' m,
  check-remove_merchant_access c uuid merchants grants c' m,
)
