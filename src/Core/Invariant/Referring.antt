-- ===== src/Core/Invariant/Referring.antt =====
-- The keys of customers, and the foreign key of payments: every payment names a customer that is there.
use multi_tenant_event_drive.Prelude.{
  ℕ, ◌+◌, ◌<◌, ◌≡◌, refl, true, false, some, List, [], ◌∷◌, ◌++◌, All, arith, ◌==◌, ==_iff,
}
use multi_tenant_event_drive.Prelude.Table.{
  find, has, update, delete, Distinct, Distinct-insert, has-append,
}
use multi_tenant_event_drive.Prelude.Keyed.{has-update_by, Distinct-update_by}
use multi_tenant_event_drive.Core.Rows.{Customer, Payment, Tenant}

-- The primary key of the customers, and the sequence that it comes from.
pub record IsKeyed (next : ℕ) (cs : List Customer) : Type 0 where
  pub ids : Distinct Customer.id cs
  pub below : All (λ c. c.id < next) cs

pub record IsReferenced (t : Tenant) : Type 0 where
  pub customer_keys : IsKeyed t.next_customer t.customers
  pub customer_uuids : Distinct Customer.customer_id t.customers
  pub customers_ok : All (λ p. has Customer.id p.customer_ref t.customers ≡ true) t.payments

-- An update of payments that leaves `customer_ref` alone.
pub refs-update :
    (by : Payment → ℕ) (k : ℕ) (f : Payment → Payment) (cs : List Customer) (ps : List Payment)
    → ((p : Payment) → (f p).customer_ref ≡ p.customer_ref)
    → All (λ p. has Customer.id p.customer_ref cs ≡ true) ps
    → All (λ p. has Customer.id p.customer_ref cs ≡ true) (update by k f ps)
refs-update by k f cs [] same h = tt
refs-update by k f cs (p ∷ ps) same h = ground (arith, same p, refs-update by k f cs ps same h.1)

-- A customer that is added, or changed in its data, leaves every reference in place.
pub refs-insert :
    (c : Customer) (cs : List Customer) (ps : List Payment)
    → All (λ p. has Customer.id p.customer_ref cs ≡ true) ps
    → All (λ p. has Customer.id p.customer_ref (cs ++ c ∷ []) ≡ true) ps
refs-insert c cs [] h = tt
refs-insert c cs (p ∷ ps) h =
    ground (arith, has-append Customer.id p.customer_ref cs (c ∷ []), refs-insert c cs ps h.1)

pub refs-edit :
    (k : ℕ) (f : Customer → Customer) (cs : List Customer) (ps : List Payment)
    → ((c : Customer) → (f c).id ≡ c.id)
    → All (λ p. has Customer.id p.customer_ref cs ≡ true) ps
    → All (λ p. has Customer.id p.customer_ref (update Customer.customer_id k f cs) ≡ true) ps
refs-edit k f cs [] same h = tt
refs-edit k f cs (p ∷ ps) same h = ground (
  arith,
  has-update_by Customer.id Customer.customer_id f same p.customer_ref k cs,
  refs-edit k f cs ps same h.1,
)

delete_absent :
    (k : ℕ) (cs : List Customer)
    → has Customer.customer_id k cs ≡ false
    → delete Customer.customer_id k cs ≡ cs
delete_absent k [] h = refl
delete_absent k (c ∷ cs) h = ground (arith, delete_absent k cs)

-- Deleting the one row with this UUID takes away no other id.
has-delete :
    (j k : ℕ) (cs : List Customer) (c : Customer)
    → Distinct Customer.customer_id cs
    → find Customer.customer_id k cs ≡ some c
    → (c.id == j) ≡ false
    → has Customer.id j (delete Customer.customer_id k cs) ≡ has Customer.id j cs
has-delete j k [] c d h ne = cc
has-delete j k (x ∷ xs) c d h ne =
    ground (arith, has-delete j k xs c d.1, delete_absent k xs, (==_iff x.customer_id k).0)

has-delete_key :
    (key : Customer → ℕ) (j k : ℕ) (cs : List Customer)
    → has key j cs ≡ false
    → has key j (delete Customer.customer_id k cs) ≡ false
has-delete_key key j k [] h = refl
has-delete_key key j k (c ∷ cs) h = ground (arith, has-delete_key key j k cs)

pub Distinct-delete :
    (key : Customer → ℕ) (k : ℕ) (cs : List Customer)
    → Distinct key cs
    → Distinct key (delete Customer.customer_id k cs)
Distinct-delete key k [] d = tt
Distinct-delete key k (c ∷ cs) d =
    ground (arith, Distinct-delete key k cs d.1, has-delete_key key (key c) k cs d.0)

unused_id :
    (next : ℕ) (cs : List Customer) → All (λ c. c.id < next) cs → has Customer.id next cs ≡ false
unused_id next [] h = refl
unused_id next (c ∷ cs) h = ground (arith, unused_id next cs h.1, (==_iff c.id next).0)

below-append :
    (next : ℕ) (c : Customer) (cs : List Customer)
    → c.id ≡ next
    → All (λ x. x.id < next) cs
    → All (λ x. x.id < next + 1) (cs ++ c ∷ [])
below-append next c [] e h = (omega (arith, e), tt)
below-append next c (x ∷ xs) e h = (omega (arith, h.0), below-append next c xs e h.1)

below-update :
    (next k : ℕ) (f : Customer → Customer) (cs : List Customer)
    → ((c : Customer) → (f c).id ≡ c.id)
    → All (λ x. x.id < next) cs
    → All (λ x. x.id < next) (update Customer.customer_id k f cs)
below-update next k f [] same h = tt
below-update next k f (x ∷ xs) same h = ground (arith, same x, below-update next k f xs same h.1)

below-delete :
    (next k : ℕ) (cs : List Customer)
    → All (λ x. x.id < next) cs
    → All (λ x. x.id < next) (delete Customer.customer_id k cs)
below-delete next k [] h = tt
below-delete next k (x ∷ xs) h = ground (arith, below-delete next k xs h.1)

pub IsKeyed-insert :
    (next : ℕ) (c : Customer) (cs : List Customer)
    → c.id ≡ next
    → IsKeyed next cs
    → IsKeyed (next + 1) (cs ++ c ∷ [])
IsKeyed-insert next c cs e h = record {
  ids = Distinct-insert Customer.id c cs h.ids (rw e (unused_id next cs h.below));
  below = below-append next c cs e h.below;
}

pub IsKeyed-edit :
    (next k : ℕ) (f : Customer → Customer) (cs : List Customer)
    → ((c : Customer) → (f c).id ≡ c.id)
    → IsKeyed next cs
    → IsKeyed next (update Customer.customer_id k f cs)
IsKeyed-edit next k f cs same h = record {
  ids = Distinct-update_by Customer.id Customer.customer_id f same k cs h.ids;
  below = below-update next k f cs same h.below;
}

pub IsKeyed-delete :
    (next k : ℕ) (cs : List Customer)
    → IsKeyed next cs
    → IsKeyed next (delete Customer.customer_id k cs)
IsKeyed-delete next k cs h = record {
  ids = Distinct-delete Customer.id k cs h.ids;
  below = below-delete next k cs h.below;
}

pub refs-delete :
    (k : ℕ) (cs : List Customer) (c : Customer) (ps : List Payment)
    → Distinct Customer.customer_id cs
    → find Customer.customer_id k cs ≡ some c
    → has Payment.customer_ref c.id ps ≡ false
    → All (λ p. has Customer.id p.customer_ref cs ≡ true) ps
    → All (λ p. has Customer.id p.customer_ref (delete Customer.customer_id k cs) ≡ true) ps
refs-delete k cs c [] d found unpaid h = tt
refs-delete k cs c (p ∷ ps) d found unpaid h =
    ground (arith, has-delete p.customer_ref k cs c d found, refs-delete k cs c ps d found)
