-- ===== src/Prelude/Keyset/Paging.antt =====
-- Keyset pagination: what a condition over the last row of a page leaves of an ordered table.
use Prim.Native.Nat.{ℕ, zero, suc, ◌≤◌}
use mathlib.Core.Path.{◌≡◌, refl, ap, ◌∙◌, sym, subst}
use mathlib.Core.Logic.{inl, inr}
use mathlib.Core.Bool.{Bool, true, false, ◌&&◌}
use mathlib.Core.Option.{Option, none, some}
use mathlib.Core.List.{List, [], ◌∷◌, ◌++◌}
use native.Mathlib.Omega.{arith}
use multi_tenant_event_drive.Prelude.Tests.{if◌then◌else◌, Bool-cases}
use multi_tenant_event_drive.Prelude.Lists.{All, length, take, drop, All-imp}
use multi_tenant_event_drive.Prelude.Table.{Distinct}
use multi_tenant_event_drive.Prelude.Keyset.{
  select, All-select, select-select, select_same, earlier, place, order_by, after, Ascending,
  Ascending-order_by, earlier_trans,
}

-- rows[-1]
abbrev pub last_of {ℓ} : {A : Type ℓ} → List A → Option A
last_of [] = none
last_of (r ∷ []) = some r
last_of (r ∷ s ∷ rs) = last_of (s ∷ rs)

pub select_everything {ℓ} :
    {A : Type ℓ} (keep : A → Bool) (rs : List A) → All (λ r. keep r ≡ true) rs → select keep rs ≡ rs
select_everything keep [] h = refl
select_everything keep (r ∷ rs) h = ground (arith, select_everything keep rs h.1)

pub All-last_of {ℓ κ} :
    {A : Type ℓ} (P : A → Type κ) (n : ℕ) (rs : List A) (r : A)
    → All P rs
    → last_of (take n rs) ≡ some r
    → P r
All-last_of P zero rs r h e = absurd (cc e)
All-last_of P (suc n) [] r h e = absurd (cc e)
All-last_of P (suc zero) (x ∷ xs) r h e = subst P (cc e) h.0
All-last_of P (suc (suc n)) (x ∷ []) r h e = subst P (cc e) h.0
All-last_of P (suc (suc n)) (x ∷ y ∷ ys) r h e = All-last_of P (suc n) (y ∷ ys) r h.1 e

pub take-take {ℓ} : {A : Type ℓ} (n : ℕ) (rs : List A) → take n (take (suc n) rs) ≡ take n rs
take-take zero rs = refl
take-take (suc n) [] = refl
take-take (suc n) (r ∷ rs) = ap (λ t. r ∷ t) (take-take n rs)

pub append-take-drop {ℓ} : {A : Type ℓ} (n : ℕ) (rs : List A) → take n rs ++ drop n rs ≡ rs
append-take-drop zero rs = refl
append-take-drop (suc n) [] = refl
append-take-drop (suc n) (r ∷ rs) = ap (λ t. r ∷ t) (append-take-drop n rs)

pub last_of-take {ℓ} :
    {A : Type ℓ} (n : ℕ) (rs : List A)
    → suc n ≤ length rs
    → (r : A) × (last_of (take (suc n) rs) ≡ some r)
last_of-take n [] h = absurd (omega arith)
last_of-take zero (r ∷ rs) h = (r, refl)
last_of-take (suc n) (r ∷ []) h = absurd (omega arith)
last_of-take (suc n) (r ∷ s ∷ rs) h = last_of-take n (s ∷ rs) (omega arith)

pub everywhere {ℓ κ} : {A : Type ℓ} {P : A → Type κ} (h : (r : A) → P r) (rs : List A) → All P rs
everywhere h [] = tt
everywhere h (r ∷ rs) = (h r, everywhere h rs)

module _ {A : Type 0} (at id : A → ℕ) where
  place_first :
      (r : A) (rs : List A) → All (λ s. earlier at id r s ≡ true) rs → place at id r rs ≡ r ∷ rs
  place_first r [] h = refl
  place_first r (s ∷ rs) h = ground arith

  select-place :
      (keep : A → Bool) (r : A) (rs : List A)
      → Ascending at id rs
      → select keep (place at id r rs)
        ≡ (if keep r then place at id r (select keep rs) else select keep rs)
  select-place keep r [] h = ground arith
  select-place keep r (s ∷ rs) h = elim (Bool-cases (earlier at id r s)) [
    | inl lower ↦
        let below : All (λ x. earlier at id r x ≡ true) (s ∷ rs) =
          (lower, All-imp _ _ rs (λ x. earlier_trans at id r s x lower) h.0) in
        let first = place_first r (select keep (s ∷ rs)) (All-select _ keep (s ∷ rs) below) in
        elim (Bool-cases (keep r)) [
          | inl kept ↦ rw (lower, place, kept) (sym first)
          | inr dropped ↦ rw (lower, place, dropped) refl
        ]
    | inr higher ↦ ground (arith, select-place keep r rs h.1)
  ]

  pub select-order_by :
      (keep : A → Bool) (rs : List A)
      → Distinct id rs
      → select keep (order_by at id rs) ≡ order_by at id (select keep rs)
  select-order_by keep [] d = refl
  select-order_by keep (r ∷ rs) d =
      select-place keep r (order_by at id rs) (Ascending-order_by at id rs d.1)
      ∙ rw (select-order_by keep rs d.1) (ground arith)

  after_self :
      (r : A) (rs : List A)
      → Ascending at id (r ∷ rs)
      → select (after at id (some (at r, id r))) (r ∷ rs) ≡ rs
  after_self r rs h =
      let kept = select_everything (after at id (some (at r, id r))) rs h.0 in ground (arith, kept)

  not_after : (r s : A) → earlier at id r s ≡ true → after at id (some (at s, id s)) r ≡ false
  not_after r s h = ground arith

  -- The condition over the last row of a page leaves the rows behind the page.
  pub after_page :
      (n : ℕ) (rs : List A) (r : A)
      → Ascending at id rs
      → last_of (take (suc n) rs) ≡ some r
      → select (after at id (some (at r, id r))) rs ≡ drop (suc n) rs
  after_page n [] r h e = refl
  after_page zero (x ∷ xs) r h e =
      subst (λ z. select (after at id (some (at z, id z))) (x ∷ xs) ≡ xs) (cc e) (after_self x xs h)
  after_page (suc n) (x ∷ []) r h e =
      subst (λ z. select (after at id (some (at z, id z))) (x ∷ []) ≡ []) (cc e) (after_self x [] h)
  after_page (suc n) (x ∷ y ∷ ys) r h e =
      let passed = not_after x r (All-last_of _ (suc n) (y ∷ ys) r h.0 e) in
      let rest = after_page n (y ∷ ys) r h.1 e in rw passed rest

  earlier_after :
      (k : Option (ℕ × ℕ)) (r s : A)
      → after at id k r ≡ true
      → (after at id (some (at r, id r)) s && after at id k s) ≡ after at id (some (at r, id r)) s
  earlier_after none r s h = ground arith
  earlier_after (some k) r s h = ground arith

  -- A page that starts after `k` and ends with `r`: the condition over `r` on the whole table is that
  -- over `r` on the rows after `k`.
  pub after_next :
      (k : Option (ℕ × ℕ)) (r : A) (rs : List A)
      → after at id k r ≡ true
      → select (after at id (some (at r, id r))) (select (after at id k) rs)
        ≡ select (after at id (some (at r, id r))) rs
  after_next k r rs h =
      select-select (after at id (some (at r, id r))) (after at id k) rs
      ∙ select_same _ _ rs (everywhere (λ s. earlier_after k r s h) rs)
