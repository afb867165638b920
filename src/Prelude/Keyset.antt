-- ===== src/Prelude/Keyset.antt =====
-- Queries in the order of two columns: SELECT … WHERE … ORDER BY at ASC, id ASC, and the row comparison
-- (at, id) > (…, …) of PostgreSQL.
pub mod Paging
use Prim.Native.Nat.{ℕ, suc, ◌≤◌}
use mathlib.Core.Path.{◌≡◌, refl}
use mathlib.Core.Logic.{◌≢◌, inl, inr}
use mathlib.Core.Bool.{Bool, true, false, ◌&&◌, ◌||◌}
use mathlib.Core.Option.{Option, none, some}
use mathlib.Core.List.{List, [], ◌∷◌}
use native.Mathlib.Omega.{arith}
use multi_tenant_event_drive.Prelude.Tests.{ltb, ◌==◌, if◌then◌else◌, Bool-cases}
use multi_tenant_event_drive.Prelude.Lists.{All, length, All-imp}
use multi_tenant_event_drive.Prelude.Table.{has, Distinct}

-- (t, i) < (u, j)
abbrev pub precedes : (t i u j : ℕ) → Bool
precedes t i u j = ltb t u || ((t == u) && ltb i j)

-- WHERE
abbrev pub select {ℓ} : {A : Type ℓ} → (A → Bool) → List A → List A
select keep [] = []
select keep (r ∷ rs) = let rest = select keep rs in if keep r then r ∷ rest else rest

pub All-select {ℓ κ} :
    {A : Type ℓ} (P : A → Type κ) (keep : A → Bool) (rs : List A)
    → All P rs
    → All P (select keep rs)
All-select P keep [] h = tt
All-select P keep (r ∷ rs) h = ground (arith, All-select P keep rs h.1)

pub All-selected {ℓ} :
    {A : Type ℓ} (keep : A → Bool) (rs : List A) → All (λ r. keep r ≡ true) (select keep rs)
All-selected keep [] = tt
All-selected keep (r ∷ rs) = ground (arith, All-selected keep rs)

pub length-select {ℓ} :
    {A : Type ℓ} (keep : A → Bool) (rs : List A) → length (select keep rs) ≤ length rs
length-select keep [] = omega arith
length-select keep (r ∷ rs) = ground (arith, length-select keep rs)

pub select-select {ℓ} :
    {A : Type ℓ} (p q : A → Bool) (rs : List A)
    → select p (select q rs) ≡ select (λ r. p r && q r) rs
select-select p q [] = refl
select-select p q (r ∷ rs) = ground (arith, select-select p q rs)

pub select_same {ℓ} :
    {A : Type ℓ} (p q : A → Bool) (rs : List A)
    → All (λ r. p r ≡ q r) rs
    → select p rs ≡ select q rs
select_same p q [] h = refl
select_same p q (r ∷ rs) h = ground (arith, select_same p q rs h.1)

module _ {A : Type 0} (at id : A → ℕ) where
  abbrev pub earlier : A → A → Bool
  earlier r s = precedes (at r) (id r) (at s) (id s)

  abbrev pub place : A → List A → List A
  place r [] = r ∷ []
  place r (s ∷ rows) = let rest = place r rows in if earlier r s then r ∷ s ∷ rows else s ∷ rest

  -- ORDER BY at ASC, id ASC
  abbrev pub order_by : List A → List A
  order_by [] = []
  order_by (r ∷ rs) = place r (order_by rs)

  -- (at, id) > ($1, $2), where there is such a condition.
  abbrev pub after : Option (ℕ × ℕ) → A → Bool
  after none r = true
  after (some (t, i)) r = precedes t i (at r) (id r)

  abbrev pub Ascending : List A → Type 0
  Ascending [] = Unit
  Ascending (r ∷ rs) = All (λ s. earlier r s ≡ true) rs × Ascending rs

  pub earlier_trans : (a b c : A) → earlier a b ≡ true → earlier b c ≡ true → earlier a c ≡ true
  earlier_trans a b c f g = ground arith

  earlier_total : (a b : A) → id a ≢ id b → earlier a b ≡ false → earlier b a ≡ true
  earlier_total a b ne h = ground arith

  All-place {κ} : (P : A → Type κ) (r : A) (rs : List A) → P r → All P rs → All P (place r rs)
  All-place P r [] h hs = (h, tt)
  All-place P r (s ∷ rs) h hs = ground (arith, All-place P r rs h hs.1)

  pub All-order_by {κ} : (P : A → Type κ) (rs : List A) → All P rs → All P (order_by rs)
  All-order_by P [] h = tt
  All-order_by P (r ∷ rs) h = All-place P r (order_by rs) h.0 (All-order_by P rs h.1)

  Ascending-place :
      (r : A) (rs : List A) → All (λ s. id r ≢ id s) rs → Ascending rs → Ascending (place r rs)
  Ascending-place r [] ne h = (tt, tt)
  Ascending-place r (s ∷ rs) ne h = elim (Bool-cases (earlier r s)) [
    | inl lower ↦
        rw (lower, place) ((lower, All-imp _ _ rs (λ x. earlier_trans r s x lower) h.0), h)
    | inr higher ↦
        rw (higher, place)
          (All-place _ r rs (earlier_total r s ne.0 higher) h.0, Ascending-place r rs ne.1 h.1)
  ]

  ids_differ : (k : ℕ) (rs : List A) → has id k rs ≡ false → All (λ s. k ≢ id s) rs
  ids_differ k [] h = tt
  ids_differ k (r ∷ rs) h = (λ e. ground arith, ids_differ k rs (ground arith))

  pub Ascending-order_by : (rs : List A) → Distinct id rs → Ascending (order_by rs)
  Ascending-order_by [] d = tt
  Ascending-order_by (r ∷ rs) d =
      Ascending-place r (order_by rs) (All-order_by _ rs (ids_differ (id r) rs d.0))
        (Ascending-order_by rs d.1)

  pub Ascending-select : (keep : A → Bool) (rs : List A) → Ascending rs → Ascending (select keep rs)
  Ascending-select keep [] h = tt
  Ascending-select keep (r ∷ rs) h =
      ground (arith, All-select _ keep rs h.0, Ascending-select keep rs h.1)

  length-place : (r : A) (rs : List A) → length (place r rs) ≡ suc (length rs)
  length-place r [] = refl
  length-place r (s ∷ rs) = ground (arith, length-place r rs)

  pub length-order_by : (rs : List A) → length (order_by rs) ≡ length rs
  length-order_by [] = refl
  length-order_by (r ∷ rs) = omega (arith, length-place r (order_by rs), length-order_by rs)
