-- ===== src/Prelude/Table.antt =====
-- A database table as the list of its rows in the order of insertion, with the SQL statements that
-- the program runs over one numeric column `key`.
use Prim.Native.Nat.{ℕ, ◌+◌}
use mathlib.Core.Path.{◌≡◌, refl}
use mathlib.Core.Logic.{◌≢◌}
use mathlib.Core.Bool.{Bool, false, ◌||◌}
use mathlib.Core.Option.{Option, none, some}
use mathlib.Core.List.{List, [], ◌∷◌, ◌++◌}
use native.Mathlib.Omega.{arith}
use multi_tenant_event_drive.Prelude.Tests.{◌==◌, if◌then◌else◌}
use multi_tenant_event_drive.Prelude.Lists.{All}

-- SELECT SUM(value) FROM rows, with COALESCE(…, 0)
abbrev pub sum_of {ℓ} : {A : Type ℓ} → (A → ℕ) → List A → ℕ
sum_of value [] = 0
sum_of value (r ∷ rs) = value r + sum_of value rs

pub sum_of-append {ℓ} :
    {A : Type ℓ} (value : A → ℕ) (xs ys : List A)
    → sum_of value (xs ++ ys) ≡ sum_of value xs + sum_of value ys
sum_of-append value [] ys = omega arith
sum_of-append value (x ∷ xs) ys = omega (arith, sum_of-append value xs ys)

module _ {A : Type 0} (key : A → ℕ) where
  -- SELECT … WHERE key = k, one row (`fetchrow`)
  abbrev pub find : ℕ → List A → Option A
  find k [] = none
  find k (r ∷ rs) = if key r == k then some r else find k rs

  -- SELECT EXISTS(… WHERE key = k)
  abbrev pub has : ℕ → List A → Bool
  has k [] = false
  has k (r ∷ rs) = (key r == k) || has k rs

  -- UPDATE … SET … WHERE key = k
  abbrev pub update : ℕ → (A → A) → List A → List A
  update k f [] = []
  update k f (r ∷ rs) = (if key r == k then f r else r) ∷ update k f rs

  -- DELETE … WHERE key = k
  abbrev pub delete : ℕ → List A → List A
  delete k [] = []
  delete k (r ∷ rs) = let rest = delete k rs in if key r == k then rest else r ∷ rest

  -- INSERT … ON CONFLICT (key) DO UPDATE
  abbrev pub upsert : A → (A → A) → List A → List A
  upsert row change rows =
      if has (key row) rows then update (key row) change rows else rows ++ row ∷ []

  -- The key is a UNIQUE column.
  abbrev pub Distinct : List A → Type 0
  Distinct [] = Unit
  Distinct (r ∷ rs) = (has (key r) rs ≡ false) × Distinct rs

  pub has-append : (k : ℕ) (xs ys : List A) → has k (xs ++ ys) ≡ (has k xs || has k ys)
  has-append k [] ys = refl
  has-append k (x ∷ xs) ys = ground (arith, has-append k xs ys)

  pub Distinct-insert :
      (r : A) (rs : List A) → Distinct rs → has (key r) rs ≡ false → Distinct (rs ++ r ∷ [])
  Distinct-insert r [] d h = (refl, tt)
  Distinct-insert r (x ∷ xs) d h =
      ground (arith, has-append (key x) xs (r ∷ []), Distinct-insert r xs d.1)

  -- A column update that leaves the key alone.
  module _ (f : A → A) (same : (r : A) → key (f r) ≡ key r) where
    pub has-update : (j k : ℕ) (rs : List A) → has j (update k f rs) ≡ has j rs
    has-update j k [] = refl
    has-update j k (r ∷ rs) = ground (arith, same r, has-update j k rs)

    pub Distinct-update : (k : ℕ) (rs : List A) → Distinct rs → Distinct (update k f rs)
    Distinct-update k [] d = tt
    Distinct-update k (r ∷ rs) d =
        ground (arith, same r, has-update (key r) k rs, Distinct-update k rs d.1)

    pub find-update_self :
        (k : ℕ) (rs : List A) (r : A) → find k rs ≡ some r → find k (update k f rs) ≡ some (f r)
    find-update_self k [] r h = ground arith
    find-update_self k (x ∷ xs) r h = ground (arith, same x, find-update_self k xs r)

    pub find-update_ne : (j k : ℕ) (rs : List A) → j ≢ k → find j (update k f rs) ≡ find j rs
    find-update_ne j k [] h = refl
    find-update_ne j k (x ∷ xs) h = ground (arith, same x, find-update_ne j k xs h)

  pub find-key : (k : ℕ) (rs : List A) (r : A) → find k rs ≡ some r → key r ≡ k
  find-key k [] r h = ground arith
  find-key k (x ∷ xs) r h = ground (arith, find-key k xs r)

  pub All-find {κ} :
      (P : A → Type κ) (k : ℕ) (rs : List A) (r : A) → All P rs → find k rs ≡ some r → P r
  All-find P k [] r a h = cc
  All-find P k (x ∷ xs) r a h = ground (arith, All-find P k xs r a.1)
