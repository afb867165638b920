-- ===== src/Core/Invariant/Paying.antt =====
-- The services of src/services/payment_service.py keep the invariant.
use multi_tenant_event_drive.Prelude.{
  ℕ, ◌+◌, ◌<◌, ◌≡◌, refl, ap, String, true, Option, some, List, [], ◌∷◌, All-append, All-imp, arith,
}
use multi_tenant_event_drive.Prelude.Int.{pos, pos_part, neg_part, ◌+ℤ◌, int_laws}
use multi_tenant_event_drive.Prelude.Table.{Distinct-insert, Distinct-update, sum_of-append}
use multi_tenant_event_drive.Prelude.Keyed.{
  All-update, sum_of-update, Distinct-update_by, sum_of-update_same,
}
use multi_tenant_event_drive.Core.Rows.{Text, Payment, PaymentView, LedgerEntry, Status, captured}
use multi_tenant_event_drive.Core.Scope.{Scope, ok}
use multi_tenant_event_drive.Core.Ledger.{ledger_sum, ledger_sum-append}
use multi_tenant_event_drive.Core.Payments.{
  Fresh, PaymentCreate, new_payment, set_status, set_details, valid_transitions, contains,
  create_payment, transition_payment, update_payment,
}
use multi_tenant_event_drive.Core.Refunds.{refundable}
use multi_tenant_event_drive.Core.Payments.Results.{
  create_payment-ok, transition_payment-ok, update_payment-ok, ledger_after,
}
use multi_tenant_event_drive.Core.Invariant.{
  IsAccounted, IsConsistent, booked, bookings, refunded_new, id_unused,
}

-- What an allowed transition adds to the ledger.
abbrev posted : Status → ℕ → ℕ
posted captured a = a
posted _ a = 0

ledger_sum-ledger_after :
    (fresh : Fresh) (target : Status) (p : Payment) (es : List LedgerEntry)
    → ledger_sum (ledger_after fresh target p es) ≡ ledger_sum es +ℤ pos (posted target p.amount)
ledger_sum-ledger_after fresh captured p es = rw ledger_sum-append
ledger_sum-ledger_after fresh _ p es = omega int_laws

bookings-posted :
    (target status : Status) (a : ℕ)
    → contains target (valid_transitions status) ≡ true
    → bookings target a ≡ bookings status a + posted target a
unfolding valid_transitions
bookings-posted target status a h = ground arith

-- A transition never takes a payment out of the statuses that can be refunded.
refundable-transition :
    (target status : Status)
    → contains target (valid_transitions status) ≡ true
    → refundable status ≡ true
    → refundable target ≡ true
unfolding valid_transitions
refundable-transition target status h r = ground arith

module _ (merchant_id : ℕ) (schema : Text) (fresh : Fresh) (s s' : Scope)
    (h : IsConsistent s.tables) where
  pub create_payment-IsConsistent :
      (body : PaymentCreate) (v : PaymentView)
      → create_payment merchant_id schema fresh body s ≡ ok (v, s')
      → IsConsistent s'.tables
  create_payment-IsConsistent body v e =
      let done = create_payment-ok merchant_id schema fresh s s' body v e in
      let new = new_payment fresh body done.customer s.next_payment in
      let before = IsAccounted s.next_payment s.refunds in
      let after = IsAccounted (s.next_payment + 1) s.refunds in
      rw done.tables_after (record {
        ids =
            Distinct-insert Payment.id new s.payments h.ids
              (id_unused s.next_payment s.refunds s.payments h.payments_ok);
        uuids = Distinct-insert Payment.payment_id new s.payments h.uuids done.fresh_uuid;
        payments_ok =
            All-append after s.payments (new ∷ [])
              (All-imp before after s.payments (λ p a. ground arith) h.payments_ok)
              (ground (arith, refunded_new s.next_payment s.refunds h.refunds_ok));
        refunds_ok =
            All-imp (λ r. r.payment_ref < s.next_payment) (λ r. r.payment_ref < s.next_payment + 1)
              s.refunds (λ r a. omega arith) h.refunds_ok;
        ledger_ok =
            rw (ledger_sum-append, sum_of-append)
              (omega (int_laws, ap pos_part h.ledger_ok, ap neg_part h.ledger_ok));
      })

  pub transition_payment-IsConsistent :
      (payment_id : ℕ) (target : Status) (reason : Option String) (v : PaymentView)
      → transition_payment merchant_id schema fresh payment_id target reason s ≡ ok (some v, s')
      → IsConsistent s'.tables
  transition_payment-IsConsistent payment_id target reason v e =
      let done = transition_payment-ok merchant_id schema fresh s s' payment_id target reason v e in
      let change = set_status target fresh.now reason in
      let same = IsAccounted s.next_payment s.refunds in
      rw done.tables_after (record {
        ids =
            Distinct-update_by Payment.id Payment.payment_id change (λ r. refl) payment_id
              s.payments h.ids;
        uuids = Distinct-update Payment.payment_id change (λ r. refl) payment_id s.payments h.uuids;
        payments_ok =
            All-update Payment.payment_id same same payment_id change s.payments done.row h.uuids
              done.found (λ x other a. a)
              (λ a. ground (arith, refundable-transition target done.row.status done.allowed))
              h.payments_ok;
        refunds_ok = h.refunds_ok;
        ledger_ok = rw (ledger_sum-ledger_after fresh target done.row s.ledger_entries) (
            omega (
              int_laws,
              ap pos_part h.ledger_ok,
              ap neg_part h.ledger_ok,
              bookings-posted target done.row.status done.row.amount done.allowed,
              sum_of-update Payment.payment_id booked payment_id change s.payments done.row h.uuids
                  done.found,
            ));
      })

  pub update_payment-IsConsistent :
      (payment_id : ℕ) (description metadata : Option String) (v : PaymentView)
      → update_payment merchant_id schema fresh payment_id description metadata s ≡ ok (some v, s')
      → IsConsistent s'.tables
  update_payment-IsConsistent payment_id description metadata v e =
      let done =
        update_payment-ok merchant_id schema fresh s s' payment_id description metadata v e in
      let change = set_details description metadata fresh.now in
      let same = IsAccounted s.next_payment s.refunds in
      rw done.tables_after (record {
        ids =
            Distinct-update_by Payment.id Payment.payment_id change (λ r. refl) payment_id
              s.payments h.ids;
        uuids = Distinct-update Payment.payment_id change (λ r. refl) payment_id s.payments h.uuids;
        payments_ok =
            All-update Payment.payment_id same same payment_id change s.payments done.row h.uuids
              done.found (λ x other a. a) (λ a. a) h.payments_ok;
        refunds_ok = h.refunds_ok;
        ledger_ok =
            rw
              (sum_of-update_same Payment.payment_id booked payment_id change s.payments
                (λ r. refl))
              h.ledger_ok;
      })
