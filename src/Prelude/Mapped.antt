-- ===== src/Prelude/Mapped.antt =====
-- What a projection of every row makes of the statements on a table: the statements on the projected
-- table.
use mathlib.Core.Path.{◌≡◌, refl, sym, ap, ◌∙◌}
use mathlib.Core.Option.{some}
use mathlib.Core.Bool.{false}
use mathlib.Core.Logic.{inl, inr}
use mathlib.Core.List.{List, [], ◌∷◌, ◌++◌, map}
use Prim.Native.Nat.{ℕ}
use native.Mathlib.Omega.{arith}
use multi_tenant_event_drive.Prelude.Tests.{◌==◌, ==_iff, Bool-cases}
use multi_tenant_event_drive.Prelude.Table.{find, has, update, delete, upsert, Distinct}
use multi_tenant_event_drive.Prelude.Keyed.{update_absent}

pub map-append :
    {A B : Type 0} (show : A → B) (xs ys : List A)
    → map show (xs ++ ys) ≡ map show xs ++ map show ys
map-append show [] ys = refl
map-append show (x ∷ xs) ys = ground (arith, map-append show xs ys)

-- A column that the projection does not show.
pub map-update_hidden :
    {A B : Type 0} (show : A → B) (by : A → ℕ) (k : ℕ) (f : A → A) (rs : List A)
    → ((x : A) → show (f x) ≡ show x)
    → map show (update by k f rs) ≡ map show rs
map-update_hidden show by k f [] same = refl
map-update_hidden show by k f (x ∷ xs) same =
    ground (arith, same x, map-update_hidden show by k f xs same)

module _ {A B : Type 0} (show : A → B) (key : A → ℕ) (key' : B → ℕ)
    (same_key : (x : A) → key' (show x) ≡ key x) where
  pub has-map : (k : ℕ) (rs : List A) → has key' k (map show rs) ≡ has key k rs
  has-map k [] = refl
  has-map k (x ∷ xs) = ground (arith, same_key x, has-map k xs)

  pub map-delete : (k : ℕ) (rs : List A) → map show (delete key k rs) ≡ delete key' k (map show rs)
  map-delete k [] = refl
  map-delete k (x ∷ xs) = ground (arith, same_key x, map-delete k xs)

  pub map-update :
      (k : ℕ) (f : A → A) (g : B → B) (rs : List A)
      → ((x : A) → show (f x) ≡ g (show x))
      → map show (update key k f rs) ≡ update key' k g (map show rs)
  map-update k f g [] same = refl
  map-update k f g (x ∷ xs) same = ground (arith, same x, same_key x, map-update k f g xs same)

  -- The same for an update whose values are those of the one row that it is made on.
  pub map-update_row :
      (k : ℕ) (f : A → A) (g : B → B) (rs : List A) (r : A)
      → Distinct key rs
      → find key k rs ≡ some r
      → show (f r) ≡ g (show r)
      → map show (update key k f rs) ≡ update key' k g (map show rs)
  map-update_row k f g [] r d h same = refl
  map-update_row k f g (x ∷ xs) r d h same = elim (Bool-cases (key x == k)) [
    | inl here ↦ ground (
      arith,
      same_key x,
      update_absent key k f xs,
      update_absent key' k g (map show xs),
      has-map k xs,
      (==_iff (key x) k).0,
    )
    | inr there ↦ ground (arith, same_key x, map-update_row k f g xs r d.1)
  ]

pub update_id : {A : Type 0} (key : A → ℕ) (k : ℕ) (rs : List A) → update key k (λ x. x) rs ≡ rs
update_id key k [] = refl
update_id key k (x ∷ xs) = ground (arith, update_id key k xs)

-- Two tables that show the same rows, each by its own projection to `C`.
module _ {A B C : Type 0} (show : A → C) (show' : B → C) (key : A → ℕ) (key' : B → ℕ) (id : C → ℕ)
    (same_key : (x : A) → id (show x) ≡ key x) (same_key' : (y : B) → id (show' y) ≡ key' y)
    (xs : List A) (ys : List B) (shown : map show xs ≡ map show' ys) where
  pub shown-has : (k : ℕ) → has key k xs ≡ has key' k ys
  shown-has k =
      sym (has-map show key id same_key k xs)
      ∙ ap (has id k) shown
      ∙ has-map show' key' id same_key' k ys

  pub shown-insert :
      (a : A) (b : B) (change : B → B)
      → show a ≡ show' b
      → has key (key a) xs ≡ false
      → map show (xs ++ a ∷ []) ≡ map show' (upsert key' b change ys)
  shown-insert a b change same unused =
      let keys : key a ≡ key' b = sym (same_key a) ∙ ap id same ∙ same_key' b in
      let unused' : has key' (key' b) ys ≡ false =
        sym (shown-has (key' b)) ∙ ap (λ k. has key k xs) (sym keys) ∙ unused in
      rw (unused', map-append show xs (a ∷ []), map-append show' ys (b ∷ []), shown, same) refl

  pub shown-delete : (k : ℕ) → map show (delete key k xs) ≡ map show' (delete key' k ys)
  shown-delete k =
      map-delete show key id same_key k xs
      ∙ ap (delete id k) shown
      ∙ sym (map-delete show' key' id same_key' k ys)

  pub shown-update :
      (k : ℕ) (f : A → A) (f' : B → B) (g : C → C)
      → ((x : A) → show (f x) ≡ g (show x))
      → ((y : B) → show' (f' y) ≡ g (show' y))
      → map show (update key k f xs) ≡ map show' (update key' k f' ys)
  shown-update k f f' g same same' =
      map-update show key id same_key k f g xs same
      ∙ ap (update id k g) shown
      ∙ sym (map-update show' key' id same_key' k f' g ys same')

  pub shown-update_row :
      (k : ℕ) (f : A → A) (f' : B → B) (g : C → C) (r : A)
      → Distinct key xs
      → find key k xs ≡ some r
      → show (f r) ≡ g (show r)
      → ((y : B) → show' (f' y) ≡ g (show' y))
      → map show (update key k f xs) ≡ map show' (update key' k f' ys)
  shown-update_row k f f' g r d found same same' =
      map-update_row show key id same_key k f g xs r d found same
      ∙ ap (update id k g) shown
      ∙ sym (map-update show' key' id same_key' k f' g ys same')
