-- ===== src/Prelude/Keyed.antt =====
-- One row of a table that its UNIQUE key selects, under UPDATE.
use mathlib.Core.Path.{◌≡◌, refl, sym, subst}
use mathlib.Core.Bool.{true, false}
use mathlib.Core.Option.{none, some}
use mathlib.Core.Logic.{inl, inr}
use mathlib.Core.List.{List, [], ◌∷◌, ◌++◌}
use Prim.Native.Nat.{ℕ, ◌+◌}
use native.Mathlib.Omega.{arith}
use multi_tenant_event_drive.Prelude.Tests.{◌==◌, ==_iff, ==_refl, Bool-cases, if◌then◌else◌}
use multi_tenant_event_drive.Prelude.Lists.{All}
use multi_tenant_event_drive.Prelude.Table.{find, has, update, Distinct, sum_of}

module _ {A : Type 0} (key : A → ℕ) where
  pub update_absent :
      (k : ℕ) (f : A → A) (rs : List A) → has key k rs ≡ false → update key k f rs ≡ rs
  update_absent k f [] h = refl
  update_absent k f (x ∷ xs) h = ground (arith, update_absent k f xs)

  pub has-find : (k : ℕ) (rs : List A) (r : A) → find key k rs ≡ some r → has key k rs ≡ true
  has-find k [] r h = cc
  has-find k (x ∷ xs) r h = ground (arith, has-find k xs r)

  pub has-none : (k : ℕ) (rs : List A) → find key k rs ≡ none → has key k rs ≡ false
  has-none k [] h = refl
  has-none k (x ∷ xs) h = ground (arith, has-none k xs)

  pub has-find_other :
      (other : A → ℕ) (k : ℕ) (rs : List A) (r : A)
      → find key k rs ≡ some r
      → has other (other r) rs ≡ true
  has-find_other other k [] r h = cc
  has-find_other other k (x ∷ xs) r h =
      ground (arith, has-find_other other k xs r, ==_refl (other r))

  -- Another UNIQUE key of the row finds it too.
  pub find_by_other :
      (other : A → ℕ) (k : ℕ) (rs : List A) (r : A)
      → Distinct other rs
      → find key k rs ≡ some r
      → find other (other r) rs ≡ some r
  find_by_other other k [] r d h = cc
  find_by_other other k (x ∷ xs) r d h = ground (
    arith,
    ==_refl (other x),
    find_by_other other k xs r d.1,
    has-find_other other k xs r,
    (==_iff (other x) (other r)).0,
  )

  All-absent {κ} :
      (P Q : A → Type κ) (k : ℕ) (rs : List A)
      → has key k rs ≡ false
      → ((x : A) → (key x == k) ≡ false → P x → Q x)
      → All P rs
      → All Q rs
  All-absent P Q k [] h other a = tt
  All-absent P Q k (x ∷ xs) h other a =
      (other x (ground arith) a.0, All-absent P Q k xs (ground arith) other a.1)

  -- UPDATE of the one row with a UNIQUE key: what the other rows satisfy, and the row itself.
  pub All-update {κ} :
      (P Q : A → Type κ) (k : ℕ) (f : A → A) (rs : List A) (r : A)
      → Distinct key rs
      → find key k rs ≡ some r
      → ((x : A) → (key x == k) ≡ false → P x → Q x)
      → (P r → Q (f r))
      → All P rs
      → All Q (update key k f rs)
  All-update P Q k f [] r d h other self a = tt
  All-update P Q k f (x ∷ xs) r d h other self a = elim (Bool-cases (key x == k)) [
    | inl here ↦
        let e : x ≡ r = ground arith in
        let gone : has key k xs ≡ false = rw ((==_iff (key x) k).0 here) at d.0 in
        rw (here, update_absent k f xs gone)
          (subst (λ y. Q (f y)) (sym e) (self (subst P e a.0)), All-absent P Q k xs gone other a.1)
    | inr later ↦
        rw later (other x later a.0, All-update P Q k f xs r d.1 (rw later at h) other self a.1)
  ]

  -- A sum over the table, when the row with a UNIQUE key changes.
  pub sum_of-update :
      (value : A → ℕ) (k : ℕ) (f : A → A) (rs : List A) (r : A)
      → Distinct key rs
      → find key k rs ≡ some r
      → sum_of value (update key k f rs) + value r ≡ sum_of value rs + value (f r)
  sum_of-update value k f [] r d h = cc
  sum_of-update value k f (x ∷ xs) r d h = elim (Bool-cases (key x == k)) [
    | inl here ↦ ground (arith, update_absent k f xs, (==_iff (key x) k).0)
    | inr later ↦ ground (arith, sum_of-update value k f xs r d.1)
  ]

  -- A change that leaves a column alone leaves its sum alone.
  pub sum_of-update_same :
      (value : A → ℕ) (k : ℕ) (f : A → A) (rs : List A)
      → ((r : A) → value (f r) ≡ value r)
      → sum_of value (update key k f rs) ≡ sum_of value rs
  sum_of-update_same value k f [] same = refl
  sum_of-update_same value k f (x ∷ xs) same =
      ground (arith, same x, sum_of-update_same value k f xs same)

-- An UPDATE that one key selects, for a table whose other key stays as it is.
module _ {A : Type 0} (key by : A → ℕ) (f : A → A) (same : (r : A) → key (f r) ≡ key r) where
  pub has-update_by : (j k : ℕ) (rs : List A) → has key j (update by k f rs) ≡ has key j rs
  has-update_by j k [] = refl
  has-update_by j k (r ∷ rs) = ground (arith, same r, has-update_by j k rs)

  pub Distinct-update_by : (k : ℕ) (rs : List A) → Distinct key rs → Distinct key (update by k f rs)
  Distinct-update_by k [] d = tt
  Distinct-update_by k (r ∷ rs) d =
      ground (arith, same r, has-update_by (key r) k rs, Distinct-update_by k rs d.1)

  -- What a row that one key finds has become.
  pub find-update_by :
      (j k : ℕ) (rs : List A) (r : A)
      → find key j rs ≡ some r
      → find key j (update by k f rs) ≡ some (if by r == k then f r else r)
  find-update_by j k [] r h = cc
  find-update_by j k (x ∷ xs) r h = ground (arith, same x, find-update_by j k xs r)

pub find-append :
    {A : Type 0} (key : A → ℕ) (k : ℕ) (xs ys : List A) (r : A)
    → find key k xs ≡ some r
    → find key k (xs ++ ys) ≡ some r
find-append key k [] ys r h = cc
find-append key k (x ∷ xs) ys r h = ground (arith, find-append key k xs ys r)
