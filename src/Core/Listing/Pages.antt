-- ===== src/Core/Listing/Pages.antt =====
-- The pages of a listing, one behind the other, are the listing.
use Prim.Native.Nat.add
use multi_tenant_event_drive.Prelude.{
  ◌≢◌, none, some, inl, inr, Option-cases, ℕ, zero, suc, ◌+◌, ◌-◌, ◌*◌, ◌/◌, ◌≤◌, ◌<◌, ◌≡◌, refl,
  ap, sym, ◌∙◌, true, List, [], ◌∷◌, ◌++◌, length, take, take_all, drop, All, arith,
}
use multi_tenant_event_drive.Prelude.Int.{pos, ◌-ℤ◌, ◌*ℤ◌}
use multi_tenant_event_drive.Prelude.Table.{has, find, find-key, All-find}
use multi_tenant_event_drive.Prelude.Keyed.{has-none}
use multi_tenant_event_drive.Core.Rows.{PaymentView, Tenant, Customer, Payment}
use multi_tenant_event_drive.Core.Payments.{customer_uuid, view}
use multi_tenant_event_drive.Core.Invariant.Referring.{IsReferenced}
use multi_tenant_event_drive.Core.Listing.{
  get_payment, Listing, page, refused, offset_of, list_rows, joined_payments,
}

-- The pages 1, …, n one behind the other.
abbrev pub rows_of : {A : Type 0} → Listing A → List A
rows_of (page p) = p.rows
rows_of (refused e) = []

pub pages_upto : {A : Type 0} → ℕ → List A → ℕ → ℕ → List A
unfolding list_rows
pages_upto total rows l zero = []
pages_upto total rows l (suc n) =
    pages_upto total rows l n ++ rows_of (list_rows total rows (pos (suc n)) (pos l))

take_nil : {A : Type 0} (n : ℕ) → take {A = A} n [] ≡ []
take_nil zero = refl
take_nil (suc n) = refl

take-split :
    {A : Type 0} (m n : ℕ) (xs : List A) → take m xs ++ take n (drop m xs) ≡ take (m + n) xs
take-split zero n xs = rw (add.zero n)
take-split (suc m) n [] = take_nil n ∙ sym (take_nil (suc m + n))
take-split (suc m) n (x ∷ xs) = rw (add.suc m n, take-split m n xs)

-- Page n + 1 skips n * limit rows.
offset_page : (n l : ℕ) → offset_of (pos (suc n)) (pos l) ≡ pos (n * l)
unfolding ◌-ℤ◌ ◌*ℤ◌
offset_page n l = grind arith

page_rows :
    {A : Type 0} (total : ℕ) (rows : List A) (l n : ℕ)
    → 0 < l
    → rows_of (list_rows total rows (pos (suc n)) (pos l)) ≡ take l (drop (n * l) rows)
unfolding list_rows
page_rows total rows l n h = ground (arith, offset_page n l)

pages_upto-take :
    {A : Type 0} (total : ℕ) (rows : List A) (l n : ℕ)
    → 0 < l
    → pages_upto total rows l n ≡ take (n * l) rows
unfolding pages_upto
pages_upto-take total rows l zero h = let e : 0 * l ≡ 0 = omega arith in rw e
pages_upto-take total rows l (suc n) h =
    let e : suc n * l ≡ n * l + l = grind arith in
    rw (pages_upto-take total rows l n h, page_rows total rows l n h, e) (take-split (n * l) l rows)

enough_pages : (n l : ℕ) → 0 < l → n ≤ (n + l - 1) / l * l
enough_pages n l h = grind arith

-- The number of pages that a page of a listing says there are.
abbrev pub total_pages_of : {A : Type 0} → Listing A → ℕ
total_pages_of (page p) = p.total_pages
total_pages_of (refused e) = 0

total_pages_lem :
    {A : Type 0} (rows : List A) (l k : ℕ)
    → 0 < l
    → total_pages_of (list_rows (length rows) rows (pos (suc k)) (pos l))
      ≡ (length rows + l - 1) / l
unfolding list_rows
total_pages_lem rows l k h = ground (arith, offset_page k l)

-- With a positive limit, whichever page is asked for, the pages 1 to the `total_pages` that it says
-- are, one behind the other, the whole listing.
pub pages_cover :
    {A : Type 0} (rows : List A) (l k : ℕ)
    → 0 < l
    → pages_upto
        (length rows)
        rows
        l
        (total_pages_of (list_rows (length rows) rows (pos (suc k)) (pos l)))
      ≡ rows
pages_cover rows l k h =
    ap (pages_upto (length rows) rows l) (total_pages_lem rows l k h)
    ∙ pages_upto-take (length rows) rows l ((length rows + l - 1) / l) h
    ∙ take_all ((length rows + l - 1) / l * l) rows (enough_pages (length rows) l h)

joined-All :
    (t : Tenant) (ps : List Payment)
    → All (λ p. has Customer.id p.customer_ref t.customers ≡ true) ps
    → length (joined_payments t ps) ≡ length ps
unfolding joined_payments
joined-All t [] h = refl
joined-All t (p ∷ ps) h =
    ground (arith, joined-All t ps h.1, has-none Customer.id p.customer_ref t.customers)

-- Where every payment names a customer that is there, the JOIN drops no payment: `total` counts the
-- rows that the pages show.
list_payments-total :
    (t : Tenant) → IsReferenced t → length (joined_payments t t.payments) ≡ length t.payments
list_payments-total t h = joined-All t t.payments h.customers_ok

-- Where every payment names a customer that is there, `get_payment` shows every payment: the row
-- with its own amount and status, and the UUID of a customer.
get_payment_shows :
    (t : Tenant) (payment_id : ℕ) (p : Payment)
    → IsReferenced t
    → find Payment.payment_id payment_id t.payments ≡ some p
    → (v : PaymentView) × (get_payment payment_id t ≡ some v)
      × (v.payment_id ≡ payment_id)
      × (v.amount ≡ p.amount)
      × (v.status ≡ p.status)
      × (v.customer_id ≢ none)
unfolding get_payment
get_payment_shows t payment_id p h found =
    let known =
      All-find Payment.payment_id (λ x. has Customer.id x.customer_ref t.customers ≡ true)
        payment_id t.payments p h.customers_ok found in
    elim (Option-cases (customer_uuid p.customer_ref t)) [
      | inl missing ↦
          absurd (ground (arith, known, has-none Customer.id p.customer_ref t.customers))
      | inr (c, there) ↦ (
        view p (some c),
        rw (found, there, get_payment) refl,
        find-key Payment.payment_id payment_id t.payments p found,
        refl,
        refl,
        (λ e. cc e),
      )
    ]
