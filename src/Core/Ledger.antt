-- ===== src/Core/Ledger.antt =====
-- The ledger statements of src/services/payment_service.py and refund_service.py: the INSERTs into
-- `ledger_entries` and the running balance that their subquery computes.
use multi_tenant_event_drive.Prelude.{
  ℕ, ◌≡◌, Bool, true, false, not, ◌&&◌, List, [], ◌∷◌, ◌++◌, ltb,
}
use multi_tenant_event_drive.Prelude.Int.{ℤ, pos, pos_part, neg_part, ◌+ℤ◌, ◌-ℤ◌, int_laws}
use multi_tenant_event_drive.Prelude.Table.{has}
use multi_tenant_event_drive.Core.Rows.{
  EntryType, payment_created, payment_captured, refund_issued, LedgerEntry,
}
use multi_tenant_event_drive.Core.Scope.{Tx, Error, ok, err, unique_violation, numeric_overflow}

-- CASE WHEN entry_type LIKE 'payment%%' THEN amount ELSE -amount END
abbrev pub signed : EntryType → ℕ → ℤ
signed payment_created a = pos a
signed payment_captured a = pos a
signed refund_issued a = pos 0 -ℤ pos a

-- SELECT COALESCE(SUM(…), 0) FROM ledger_entries
unfoldable pub ledger_sum : List LedgerEntry → ℤ
ledger_sum [] = pos 0
ledger_sum (e ∷ es) = signed e.entry_type e.amount +ℤ ledger_sum es

-- DECIMAL(12,2) holds ten digits before the point: less than 10^12 hundredths.
abbrev pub decimal_limit : ℕ
decimal_limit = 1_000_000_000_000

abbrev pub fits : ℤ → Bool
fits z = ltb (pos_part z) decimal_limit && ltb (neg_part z) decimal_limit

-- A value that does not fit its column is refused before the index is looked at.
abbrev pub insert_error : Bool → Error
insert_error true = unique_violation
insert_error false = numeric_overflow

-- One INSERT INTO ledger_entries; `ledger_id` is UNIQUE and `balance_after` a DECIMAL(12,2).
unfoldable pub insert_entry : LedgerEntry → Tx (Unit {0})
insert_entry e s =
    elim (fits e.balance_after && not (has LedgerEntry.ledger_id e.ledger_id s.ledger_entries)) [
      | true ↦ ok (
        tt,
        record s { tables = record s.tables { ledger_entries = s.ledger_entries ++ e ∷ [] } },
      )
      | false ↦ err (insert_error (fits e.balance_after))
    ]

pub ledger_sum-append :
    (es : List LedgerEntry) (e : LedgerEntry)
    → ledger_sum (es ++ e ∷ []) ≡ ledger_sum es +ℤ signed e.entry_type e.amount
unfolding ledger_sum
ledger_sum-append [] e = omega int_laws
ledger_sum-append (x ∷ xs) e = rw (ledger_sum-append xs e) (omega int_laws)
