-- ===== src/Core/Invariant.antt =====
-- The invariant of a tenant's tables (payment-core-service): what the refunds, the payments and the
-- ledger say of one another. The children prove that every service keeps it.
pub mod Paying
pub mod Refunding
pub mod Referring
pub mod Sound
pub mod Serving
use multi_tenant_event_drive.Prelude.{
  ℕ, ◌+◌, ◌≤◌, ◌<◌, ◌≡◌, refl, ◌⊎◌, Bool, true, false, List, [], ◌∷◌, ◌++◌, All, arith, ◌==◌,
  if◌then◌else◌,
}
use multi_tenant_event_drive.Prelude.Int.{pos, ◌+ℤ◌}
use multi_tenant_event_drive.Prelude.Table.{has, Distinct, sum_of}
use multi_tenant_event_drive.Core.Rows.{
  Payment, Refund, Tenant, Status, created, authorized, captured, failed, settled, empty_tenant,
}
use multi_tenant_event_drive.Core.Ledger.{ledger_sum}
use multi_tenant_event_drive.Core.Refunds.{refundable}

-- The sum of the refunds of the payment with this internal id.
abbrev pub refunded : ℕ → List Refund → ℕ
refunded id [] = 0
refunded id (r ∷ rs) = (if r.payment_ref == id then r.amount else 0) + refunded id rs

-- What the ledger has booked for a payment: its creation, and once more its capture.
abbrev pub bookings : Status → ℕ → ℕ
bookings captured a = a + a
bookings settled a = a + a
bookings _ a = a

abbrev pub booked : Payment → ℕ
booked p = bookings p.status p.amount

abbrev pub IsAccounted : ℕ → List Refund → Payment → Type 0
IsAccounted next rs p =
    (p.id < next)
    × (p.amount_refunded ≡ refunded p.id rs)
    × (p.amount_refunded ≤ p.amount)
    × ((p.amount_refunded ≡ 0) ⊎ (refundable p.status ≡ true))

pub record IsConsistent (t : Tenant) : Type 0 where
  pub ids : Distinct Payment.id t.payments
  pub uuids : Distinct Payment.payment_id t.payments
  pub payments_ok : All (IsAccounted t.next_payment t.refunds) t.payments
  pub refunds_ok : All (λ r. r.payment_ref < t.next_payment) t.refunds
  pub ledger_ok :
      ledger_sum t.ledger_entries +ℤ pos (sum_of Refund.amount t.refunds)
      ≡ pos (sum_of booked t.payments)

pub refunded-append :
    (id : ℕ) (rs : List Refund) (r : Refund)
    → refunded id (rs ++ r ∷ []) ≡ refunded id rs + (if r.payment_ref == id then r.amount else 0)
refunded-append id [] r = ground arith
refunded-append id (x ∷ xs) r = ground (arith, refunded-append id xs r)

-- No refund names a payment that is not there yet.
pub refunded_new :
    (next : ℕ) (rs : List Refund) → All (λ r. r.payment_ref < next) rs → refunded next rs ≡ 0
refunded_new next [] h = refl
refunded_new next (r ∷ rs) h = ground (arith, refunded_new next rs h.1)

pub id_unused :
    (next : ℕ) (rs : List Refund) (ps : List Payment)
    → All (IsAccounted next rs) ps
    → has Payment.id next ps ≡ false
id_unused next rs [] h = refl
id_unused next rs (p ∷ ps) h = ground (arith, id_unused next rs ps h.1)

pub IsConsistent-empty : IsConsistent empty_tenant
unfolding ledger_sum ◌+ℤ◌
IsConsistent-empty = record {
  ids = tt;
  uuids = tt;
  payments_ok = tt;
  refunds_ok = tt;
  ledger_ok = refl;
}
