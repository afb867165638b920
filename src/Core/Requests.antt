-- ===== src/Core/Requests.antt =====
-- The mutating endpoints of src/routers/payments.py, refunds.py and customers.py, run one after
-- another, each in its own transaction, on the tables of one tenant.
use multi_tenant_event_drive.Prelude.{ℕ, String, Option, List, [], ◌∷◌}
use multi_tenant_event_drive.Core.Rows.{Text, Status}
use multi_tenant_event_drive.Core.Scope.{Scope, Result, ok, err}
use multi_tenant_event_drive.Core.Payments
use multi_tenant_event_drive.Core.Payments.{Fresh, PaymentCreate}
use multi_tenant_event_drive.Core.Refunds
use multi_tenant_event_drive.Core.Customers
use multi_tenant_event_drive.Core.Customers.{CustomerCreate, CustomerUpdate}

-- The mutating endpoints of routers/payments.py, refunds.py and customers.py.
pub data Request : Type 0 where
  create_customer : CustomerCreate → Request
  update_customer : ℕ → CustomerUpdate → Request
  delete_customer : ℕ → Request
  create_payment : PaymentCreate → Request
  transition_payment : ℕ → Status → Option String → Request
  update_payment : ℕ → Option String → Option String → Request
  create_refund : ℕ → ℕ → Option String → Request
  process_refund : ℕ → Request

-- The tables after one request: the new ones where its transaction commits, the old ones where an
-- error rolls it back.
abbrev pub commit : {A : Type 0} → Result (A × Scope) → Scope → Scope
commit (ok (a, s')) s = s'
commit (err e) s = s

module _ (merchant_id : ℕ) (schema : Text) where
  unfoldable pub serve : Fresh → Request → Scope → Scope
  serve fresh (create_customer body) s =
      commit (Customers.create_customer merchant_id schema fresh body s) s
  serve fresh (update_customer id body) s =
      commit (Customers.update_customer merchant_id schema fresh id body s) s
  serve fresh (delete_customer id) s =
      commit (Customers.delete_customer merchant_id schema fresh id s) s
  serve fresh (create_payment body) s =
      commit (Payments.create_payment merchant_id schema fresh body s) s
  serve fresh (transition_payment id target reason) s =
      commit (Payments.transition_payment merchant_id schema fresh id target reason s) s
  serve fresh (update_payment id description metadata) s =
      commit (Payments.update_payment merchant_id schema fresh id description metadata s) s
  serve fresh (create_refund id amount reason) s =
      commit (Refunds.create_refund merchant_id schema fresh id amount reason s) s
  serve fresh (process_refund id) s =
      commit (Refunds.process_refund merchant_id schema fresh id s) s

  unfoldable pub serve_all : List (Fresh × Request) → Scope → Scope
  serve_all [] s = s
  serve_all ((fresh, request) ∷ rest) s = serve_all rest (serve fresh request s)
