-- ===== src/Dashboard/Agreement.antt =====
-- The summary of src/routers/analytics.py of services/merchant-dashboard-service, which reads the payments,
-- against the aggregates that services/connect-service keeps beside them.
use multi_tenant_event_drive.Prelude.{
  ℕ, zero, suc, ◌+◌, ◌<◌, ◌≤◌, ◌≡◌, refl, sym, ◌∙◌, List, [], ◌∷◌, arith, max, length,
}
use multi_tenant_event_drive.Prelude.Table.{sum_of}
use multi_tenant_event_drive.Connect.ReadModel.{DailyRevenue, MethodStats, ReadTables}
use multi_tenant_event_drive.Connect.ReadModel.Changes.{stats_key}
use multi_tenant_event_drive.Connect.ReadModel.Totals.{sum_at, IsTotalled}
use multi_tenant_event_drive.Dashboard.{get_summary}

module _ {A : Type 0} (key value : A → ℕ) where
  -- The sums at the keys below a bound.
  sum_below : ℕ → List A → ℕ
  sum_below zero rows = 0
  sum_below (suc n) rows = sum_below n rows + sum_at key value n rows

  sum_below-nil : (n : ℕ) → sum_below n [] ≡ 0
  unfolding sum_below
  sum_below-nil zero = refl
  sum_below-nil (suc n) = omega (arith, sum_below-nil n)

  sum_below-above :
      (n : ℕ) (x : A) (xs : List A) → n ≤ key x → sum_below n (x ∷ xs) ≡ sum_below n xs
  unfolding sum_below
  sum_below-above zero x xs h = refl
  sum_below-above (suc n) x xs h = ground (arith, sum_below-above n x xs)

  sum_below-cons :
      (n : ℕ) (x : A) (xs : List A) → key x < n → sum_below n (x ∷ xs) ≡ value x + sum_below n xs
  unfolding sum_below
  sum_below-cons zero x xs h = absurd (omega arith)
  sum_below-cons (suc n) x xs h = ground (arith, sum_below-cons n x xs, sum_below-above n x xs)

  -- A bound of the keys.
  bound : List A → ℕ
  bound [] = 0
  bound (x ∷ xs) = max (suc (key x)) (bound xs)

  sum_below-all : (n : ℕ) (xs : List A) → bound xs ≤ n → sum_below n xs ≡ sum_of value xs
  unfolding bound
  sum_below-all n [] h = sum_below-nil n
  sum_below-all n (x ∷ xs) h =
      omega (arith, sum_below-cons n x xs (omega arith), sum_below-all n xs (omega arith))

sum_below-same :
    {A B : Type 0} (key value : A → ℕ) (key' value' : B → ℕ) (n : ℕ) (xs : List A) (ys : List B)
    → ((d : ℕ) → sum_at key value d xs ≡ sum_at key' value' d ys)
    → sum_below key value n xs ≡ sum_below key' value' n ys
unfolding sum_below
sum_below-same key value key' value' zero xs ys h = refl
sum_below-same key value key' value' (suc n) xs ys h =
    omega (arith, sum_below-same key value key' value' n xs ys h, h n)

-- Tables whose sums agree at each key have the same sum.
sum_of-same :
    {A B : Type 0} (key value : A → ℕ) (key' value' : B → ℕ) (xs : List A) (ys : List B)
    → ((d : ℕ) → sum_at key value d xs ≡ sum_at key' value' d ys)
    → sum_of value xs ≡ sum_of value' ys
sum_of-same key value key' value' xs ys h =
    let n = max (bound key value xs) (bound key' value' ys) in
    sym (sum_below-all key value n xs (omega arith))
    ∙ sum_below-same key value key' value' n xs ys h
    ∙ sum_below-all key' value' n ys (omega arith)

sum_of_ones : {A : Type 0} (xs : List A) → sum_of (λ x. 1) xs ≡ length xs
sum_of_ones [] = refl
sum_of_ones (x ∷ xs) = omega (arith, sum_of_ones xs)

module _ (date_of : ℕ → ℕ) (percent average : ℕ → ℕ → ℕ) where
  -- Where the aggregates are the sums over the payments of their day and method, the total revenue and
  -- the number of payments of the summary are the sums over all days, and those over all methods.
  pub get_summary_agrees :
      (r : ReadTables)
      → IsTotalled date_of percent r
      → let s = get_summary percent average r in
        (sum_of DailyRevenue.total_amount r.daily_revenue ≡ s.total_revenue)
        × (sum_of DailyRevenue.payment_count r.daily_revenue ≡ s.total_payments)
        × (sum_of MethodStats.total_amount r.method_stats ≡ s.total_revenue)
        × (sum_of MethodStats.count r.method_stats ≡ s.total_payments)
  unfolding get_summary
  get_summary_agrees r h = (
    sum_of-same DailyRevenue.date DailyRevenue.total_amount _ _ r.daily_revenue r.payments
        h.day_amount,
    sum_of-same DailyRevenue.date DailyRevenue.payment_count _ _ r.daily_revenue r.payments
          h.day_count
        ∙ sum_of_ones r.payments,
    sum_of-same stats_key MethodStats.total_amount _ _ r.method_stats r.payments h.method_amount,
    sum_of-same stats_key MethodStats.count _ _ r.method_stats r.payments h.method_count
        ∙ sum_of_ones r.payments,
  )
