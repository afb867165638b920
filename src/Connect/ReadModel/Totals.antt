-- ===== src/Connect/ReadModel/Totals.antt =====
-- The aggregates of the read tables: the revenue of a day and the statistics of a method.
pub mod Handling
use multi_tenant_event_drive.Prelude.{
  ℕ, ◌+◌, ◌≡◌, refl, sym, ap, ◌∙◌, ◌⊎◌, inl, inr, Bool, true, false, Option, none, some, List, [],
  ◌∷◌, ◌++◌, arith, ◌==◌, ==_iff, ==_refl, Bool-cases, Option-cases, if◌then◌else◌,
}
use multi_tenant_event_drive.Prelude.Table.{
  sum_of, sum_of-append, has, find, update, upsert, Distinct, Distinct-insert, Distinct-update,
}
use multi_tenant_event_drive.Prelude.Keyed.{sum_of-update_same, update_absent}
use multi_tenant_event_drive.Prelude.Mapped.{update_id}
use multi_tenant_event_drive.Core.Rows.{
  Method, PaymentView, EventType, merchant_created, merchant_updated, customer_created,
  customer_updated, customer_deleted, payment_created, payment_authorized, payment_captured,
  payment_failed, payment_settled, payment_updated, refund_initiated, refund_processed, Payload,
  of_merchant, of_customer, of_deleted, of_payment, of_refund, of_new_refund,
}
use multi_tenant_event_drive.Connect.ReadModel.{
  ReadCustomer, ReadPayment, ReadRefund, DailyRevenue, MethodStats, ReadTables, method_key,
}
use multi_tenant_event_drive.Connect.ReadModel.Handlers
use multi_tenant_event_drive.Connect.ReadModel.Handlers.{handle}
use multi_tenant_event_drive.Connect.ReadModel.Changes.{
  stats_key, new_day, add_to_day, new_stats, add_to_stats, read_payment, describe, set_read_status,
  fail_payment, rename_payment,
}

-- The sum of a column over the rows whose key is `k`.
abbrev pub sum_at {ℓ} : {A : Type ℓ} → (A → ℕ) → (A → ℕ) → ℕ → List A → ℕ
sum_at key value k rows = sum_of (λ x. if key x == k then value x else 0) rows

module _ {A : Type 0} (key value : A → ℕ) (change : A → A) (row : A)
    (same_key : (x : A) → key (change x) ≡ key x)
    (adds : (x : A) → value (change x) ≡ value x + value row) where
  sum_at-update :
      (k : ℕ) (rows : List A)
      → Distinct key rows
      → has key (key row) rows ≡ true
      → sum_at key value k (update key (key row) change rows)
        ≡ sum_at key value k rows + (if key row == k then value row else 0)
  sum_at-update k [] d h = cc h
  sum_at-update k (x ∷ xs) d h = elim (Bool-cases (key x == key row)) [
    | inl here ↦
        let same : key x ≡ key row = (==_iff (key x) (key row)).0 here in
        ground (arith, same, same_key x, adds x, update_absent key (key row) change xs)
    | inr there ↦ ground (arith, sum_at-update k xs d.1)
  ]

  sum_at-upsert :
      (k : ℕ) (rows : List A)
      → Distinct key rows
      → sum_at key value k (upsert key row change rows)
        ≡ sum_at key value k rows + (if key row == k then value row else 0)
  sum_at-upsert k rows d = elim (Bool-cases (has key (key row) rows)) [
    | inl known ↦ rw known (sum_at-update k rows d known)
    | inr new ↦
        rw new
          (ground (arith, sum_of-append (λ x. if key x == k then value x else 0) rows (row ∷ [])))
  ]

  Distinct-upsert : (rows : List A) → Distinct key rows → Distinct key (upsert key row change rows)
  Distinct-upsert rows d = elim (Bool-cases (has key (key row) rows)) [
    | inl known ↦ rw known (Distinct-update key change same_key (key row) rows d)
    | inr new ↦ rw new (Distinct-insert key row rows d new)
  ]

abbrev pub one : {A : Type 0} → A → ℕ
one x = 1

module _ (date_of : ℕ → ℕ) (percent : ℕ → ℕ → ℕ) where
  abbrev pub day_of : ReadPayment → ℕ
  day_of p = date_of p.created_at

  abbrev pub method_of : ReadPayment → ℕ
  method_of p = method_key p.method

  abbrev pub amount_of : ReadPayment → ℕ
  amount_of p = p.amount

  -- The total and the number of the payments of every day and of every method are what the payments
  -- add up to; a day and a method have one row at most.
  pub record IsTotalled (r : ReadTables) : Type 0 where
    pub days : Distinct DailyRevenue.date r.daily_revenue
    pub methods : Distinct stats_key r.method_stats
    pub day_amount :
        (d : ℕ)
        → sum_at DailyRevenue.date DailyRevenue.total_amount d r.daily_revenue
          ≡ sum_at day_of amount_of d r.payments
    pub day_count :
        (d : ℕ)
        → sum_at DailyRevenue.date DailyRevenue.payment_count d r.daily_revenue
          ≡ sum_at day_of one d r.payments
    pub method_amount :
        (m : ℕ)
        → sum_at stats_key MethodStats.total_amount m r.method_stats
          ≡ sum_at method_of amount_of m r.payments
    pub method_count :
        (m : ℕ)
        → sum_at stats_key MethodStats.count m r.method_stats ≡ sum_at method_of one m r.payments

  -- A change of tables that adds up to nothing: the payments keep days, methods and amounts, and so do
  -- the rows of the days and of the methods.
  pub kept-IsTotalled :
      (r r' : ReadTables) (by : ReadPayment → ℕ) (k : ℕ) (f : ReadPayment → ReadPayment) (day : ℕ)
      (g : DailyRevenue → DailyRevenue) (method : ℕ) (m : MethodStats → MethodStats)
      → ((x : ReadPayment)
          → (day_of (f x) ≡ day_of x)
            × (method_of (f x) ≡ method_of x)
            × (amount_of (f x) ≡ amount_of x))
      → ((x : DailyRevenue)
          → ((g x).date ≡ x.date)
            × ((g x).total_amount ≡ x.total_amount)
            × ((g x).payment_count ≡ x.payment_count))
      → ((x : MethodStats)
          → (stats_key (m x) ≡ stats_key x)
            × ((m x).total_amount ≡ x.total_amount)
            × ((m x).count ≡ x.count))
      → r'.payments ≡ update by k f r.payments
      → r'.daily_revenue ≡ update DailyRevenue.date day g r.daily_revenue
      → r'.method_stats ≡ update stats_key method m r.method_stats
      → IsTotalled r
      → IsTotalled r'
  kept-IsTotalled r r' by k f day g method m same same_day same_method ps ds ms h = record {
    days =
        rw ds
          (Distinct-update DailyRevenue.date g (λ x. (same_day x).0) day r.daily_revenue h.days);
    methods =
        rw ms
          (Distinct-update stats_key m (λ x. (same_method x).0) method r.method_stats h.methods);
    day_amount = λ d.
        rw (ps, ds)
          (sum_of-update_same DailyRevenue.date (λ x. if x.date == d then x.total_amount else 0) day
              g r.daily_revenue (λ x. rw ((same_day x).0, (same_day x).1) refl)
            ∙ h.day_amount d
            ∙ sym (
                sum_of-update_same by (λ x. if day_of x == d then amount_of x else 0) k f r.payments
                  (λ x. rw ((same x).0, (same x).2) refl)));
    day_count = λ d.
        rw (ps, ds)
          (sum_of-update_same DailyRevenue.date (λ x. if x.date == d then x.payment_count else 0)
              day g r.daily_revenue (λ x. rw ((same_day x).0, (same_day x).2) refl)
            ∙ h.day_count d
            ∙ sym (
                sum_of-update_same by (λ x. if day_of x == d then 1 else 0) k f r.payments
                  (λ x. rw ((same x).0) refl)));
    method_amount = λ d.
        rw (ps, ms)
          (sum_of-update_same stats_key (λ x. if stats_key x == d then x.total_amount else 0) method
              m r.method_stats (λ x. rw ((same_method x).0, (same_method x).1) refl)
            ∙ h.method_amount d
            ∙ sym (
                sum_of-update_same by (λ x. if method_of x == d then amount_of x else 0) k f
                  r.payments (λ x. rw ((same x).1, (same x).2) refl)));
    method_count = λ d.
        rw (ps, ms)
          (sum_of-update_same stats_key (λ x. if stats_key x == d then x.count else 0) method m
              r.method_stats (λ x. rw ((same_method x).0, (same_method x).2) refl)
            ∙ h.method_count d
            ∙ sym (
                sum_of-update_same by (λ x. if method_of x == d then 1 else 0) k f r.payments
                  (λ x. rw ((same x).1) refl)));
  }

  -- Where no payment changes, and no day or method either.
  pub payments_alone :
      (r r' : ReadTables)
      → r'.payments ≡ r.payments
      → r'.daily_revenue ≡ r.daily_revenue
      → r'.method_stats ≡ r.method_stats
      → IsTotalled r
      → IsTotalled r'
  payments_alone r r' ps ds ms h = record {
    days = rw ds h.days;
    methods = rw ms h.methods;
    day_amount = λ d. rw (ps, ds) (h.day_amount d);
    day_count = λ d. rw (ps, ds) (h.day_count d);
    method_amount = λ d. rw (ps, ms) (h.method_amount d);
    method_count = λ d. rw (ps, ms) (h.method_count d);
  }

  -- An UPDATE of payments that leaves days, methods and amounts alone.
  pub payments_kept :
      (r : ReadTables) (by : ReadPayment → ℕ) (k : ℕ) (f : ReadPayment → ReadPayment)
      (r' : ReadTables)
      → ((x : ReadPayment)
          → (day_of (f x) ≡ day_of x)
            × (method_of (f x) ≡ method_of x)
            × (amount_of (f x) ≡ amount_of x))
      → r'.payments ≡ update by k f r.payments
      → r'.daily_revenue ≡ r.daily_revenue
      → r'.method_stats ≡ r.method_stats
      → IsTotalled r
      → IsTotalled r'
  payments_kept r by k f r' same ps ds ms h =
      kept-IsTotalled r r' by k f 0 (λ x. x) 0 (λ x. x) same (λ x. (refl, refl, refl))
        (λ x. (refl, refl, refl)) ps (ds ∙ sym (update_id DailyRevenue.date 0 r.daily_revenue))
        (ms ∙ sym (update_id stats_key 0 r.method_stats)) h

  pub created-IsTotalled :
      (v : PaymentView) (c : ℕ) (r : ReadTables)
      → v.customer_id ≡ some c
      → has ReadPayment.payment_id v.payment_id r.payments ≡ false
      → IsTotalled r
      → (r' : ReadTables) × (Handlers.sync_payment_created date_of percent v r ≡ some r')
        × IsTotalled r'
  unfolding Handlers.sync_payment_created
  created-IsTotalled v c r known new h =
      let row = read_payment v c (find ReadCustomer.customer_id c r.customers) in
      let day = new_day v (date_of v.created_at) in
      let added = λ (f g : ReadPayment → ℕ) (k : ℕ).
        sum_of-append (λ x. if f x == k then g x else 0) r.payments (row ∷ []) in
      rw (known, new)
        (
          _,
          refl,
          record {
            days =
                Distinct-upsert DailyRevenue.date DailyRevenue.total_amount (add_to_day v) day
                  (λ x. refl) (λ x. refl) r.daily_revenue h.days;
            methods =
                Distinct-upsert stats_key MethodStats.total_amount (add_to_stats v) (new_stats v)
                  (λ x. refl) (λ x. refl) r.method_stats h.methods;
            day_amount = λ d. ground (
              arith,
              added day_of amount_of d,
              h.day_amount d,
              sum_at-upsert DailyRevenue.date DailyRevenue.total_amount (add_to_day v) day
                  (λ x. refl) (λ x. refl) d r.daily_revenue h.days,
            );
            day_count = λ d. ground (
              arith,
              added day_of one d,
              h.day_count d,
              sum_at-upsert DailyRevenue.date DailyRevenue.payment_count (add_to_day v) day
                  (λ x. refl) (λ x. refl) d r.daily_revenue h.days,
            );
            method_amount = λ m. ground (
              arith,
              added method_of amount_of m,
              h.method_amount m,
              sum_at-upsert stats_key MethodStats.total_amount (add_to_stats v) (new_stats v)
                  (λ x. refl) (λ x. refl) m r.method_stats h.methods,
            );
            method_count = λ m. ground (
              arith,
              added method_of one m,
              h.method_count m,
              sum_at-upsert stats_key MethodStats.count (add_to_stats v) (new_stats v) (λ x. refl)
                  (λ x. refl) m r.method_stats h.methods,
            );
          },
        )
