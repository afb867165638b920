-- ===== src/Prelude/Linked.antt =====
-- A column of the row that a key finds, as a foreign key reads it, under the statements on that table.
use mathlib.Core.Path.{◌≡◌, refl}
use mathlib.Core.Bool.{true, false}
use mathlib.Core.Option.{Option, none, some}
use mathlib.Core.List.{List, [], ◌∷◌, ◌++◌, map}
use Prim.Native.Nat.{ℕ}
use native.Mathlib.Omega.{arith}
use multi_tenant_event_drive.Prelude.Tests.{◌==◌, ==_iff}
use multi_tenant_event_drive.Prelude.Lists.{All}
use multi_tenant_event_drive.Prelude.Table.{find, has, update, delete, upsert, Distinct}
use multi_tenant_event_drive.Prelude.Mapped.{map-append}

module _ {A : Type 0} (key col : A → ℕ) where
  -- The value in the column `col` of the row with this key.
  abbrev pub value_of : ℕ → List A → Option ℕ
  value_of k rs = elim (find key k rs) [ none ↦ none | some r ↦ some (col r) ]

  pub value-update :
      (by : A → ℕ) (k : ℕ) (f : A → A) (j : ℕ) (rs : List A)
      → ((r : A) → key (f r) ≡ key r)
      → ((r : A) → col (f r) ≡ col r)
      → value_of j (update by k f rs) ≡ value_of j rs
  value-update by k f j [] same same' = refl
  value-update by k f j (r ∷ rs) same same' =
      ground (arith, same r, same' r, value-update by k f j rs same same')

  pub value-append :
      (j : ℕ) (rs qs : List A) → has key j rs ≡ true → value_of j (rs ++ qs) ≡ value_of j rs
  value-append j [] qs h = cc h
  value-append j (r ∷ rs) qs h = ground (arith, value-append j rs qs)

  pub value-append_other :
      (j : ℕ) (rs : List A) (q : A)
      → (key q == j) ≡ false
      → value_of j (rs ++ q ∷ []) ≡ value_of j rs
  value-append_other j [] q h = ground arith
  value-append_other j (r ∷ rs) q h = ground (arith, value-append_other j rs q h)

  delete_absent : (by : A → ℕ) (k : ℕ) (rs : List A) → has by k rs ≡ false → delete by k rs ≡ rs
  delete_absent by k [] h = refl
  delete_absent by k (r ∷ rs) h = ground (arith, delete_absent by k rs)

  -- The one row that the other key `by` finds is deleted, and another is read.
  pub value-delete :
      (by : A → ℕ) (k j : ℕ) (rs : List A) (r : A)
      → Distinct by rs
      → find by k rs ≡ some r
      → (key r == j) ≡ false
      → value_of j (delete by k rs) ≡ value_of j rs
  value-delete by k j [] r d h ne = refl
  value-delete by k j (x ∷ xs) r d h ne =
      ground (arith, value-delete by k j xs r d.1, delete_absent by k xs, (==_iff (by x) k).0)

  pub value-find :
      (j : ℕ) (rs : List A) (r : A) → find key j rs ≡ some r → value_of j rs ≡ some (col r)
  value-find j rs r h = rw (h, value_of) refl

-- What two functions make of the rows where they agree.
pub map-agree {κ} :
    {A : Type 0} {B : Type 0} (P : A → Type κ) (f g : A → B) (xs : List A)
    → ((x : A) → P x → f x ≡ g x)
    → All P xs
    → map f xs ≡ map g xs
map-agree P f g [] same h = refl
map-agree P f g (x ∷ xs) same h = ground (arith, same x h.0, map-agree P f g xs same h.1)

pub map-same :
    {A B : Type 0} (f g : A → B) (xs : List A) → ((x : A) → f x ≡ g x) → map f xs ≡ map g xs
map-same f g [] same = refl
map-same f g (x ∷ xs) same = ground (arith, same x, map-same f g xs same)

-- The rows that do not refer to a key.
pub All-unreferred :
    {A : Type 0} (ref : A → ℕ) (k : ℕ) (xs : List A)
    → has ref k xs ≡ false
    → All (λ x. (ref x == k) ≡ false) xs
All-unreferred ref k [] h = tt
All-unreferred ref k (x ∷ xs) h = ground (arith, All-unreferred ref k xs)

-- A new row on both sides.
pub linked-insert :
    {A B C : Type 0} (show : A → C) (show' : B → C) (key : B → ℕ) (change : B → B) (xs : List A)
    (ys : List B) (a : A) (b : B)
    → map show xs ≡ map show' ys
    → show a ≡ show' b
    → has key (key b) ys ≡ false
    → map show (xs ++ a ∷ []) ≡ map show' (upsert key b change ys)
linked-insert show show' key change xs ys a b shown same unused =
    rw (unused, map-append show xs (a ∷ []), map-append show' ys (b ∷ []), shown, same) refl
