-- ===== src/Connect/Access/Inactive.antt =====
-- A consumer that was suspended or revoked (services/connect-service, src/services/oauth_service.py), and
-- what src/utils/auth.py says to it from then on.
use multi_tenant_event_drive.Prelude.{
  ℕ, String, ◌≡◌, ◌≢◌, refl, sym, ◌∙◌, ap, true, false, some, List, [], ◌∷◌, All, arith, Bool-cases,
  Option-cases, inl, inr, str_eq, ◌==◌, ==_iff,
}
use multi_tenant_event_drive.Prelude.Table.{find, has, find-update_self}
use multi_tenant_event_drive.Prelude.Keyed.{has-find, has-none}
use multi_tenant_event_drive.Connect.Access.{
  Access, Consumer, ConsumerRow, get_consumer, cached_consumer, get_cached_consumer, row_id, shown,
}
use multi_tenant_event_drive.Connect.Access.Managing.{
  register_consumer, new_consumer, no_updates, update_consumer, set_status, change_row,
  set_consumer, suspend_consumer, revoke_consumer, activate_consumer, rotate_secret, set_secret,
}
use multi_tenant_event_drive.Connect.Access.Grants.{
  assign_merchants_endpoint, remove_merchant_endpoint,
}
use multi_tenant_event_drive.Connect.Access.Coherence.{
  IsCoherent, update_consumer-IsCoherent, run_all-IsCoherent, find-update_other,
  get_consumer-append, Op, register, update_fields, suspend, revoke, activate, rotate, look_up,
  assign, remove, run, run_all,
}
use multi_tenant_event_drive.Connect.Access.Tokens.{Crypto}
use multi_tenant_event_drive.Connect.Access.Gate.{
  Headers, RequestState, granted, verify_third_party_access,
}
use multi_tenant_event_drive.Connect.Access.Granted.{verify_third_party_access-Admitted}

-- The consumer has a row, with another status than active.
abbrev pub IsOff : ℕ → Access → Type 0
IsOff consumer_id a =
    (x : Consumer) × (get_consumer consumer_id a.consumers ≡ some x)
    × (str_eq x.status "active" ≡ false)

-- An operation that does not give this consumer a status: no update of its fields, no activation.
abbrev pub Leaves : ℕ → Op → Type 0
Leaves consumer_id (register body g) = Unit
Leaves consumer_id (update_fields now id u) = consumer_id ≢ id
Leaves consumer_id (suspend now id) = Unit
Leaves consumer_id (revoke now id) = Unit
Leaves consumer_id (activate now id) = consumer_id ≢ id
Leaves consumer_id (rotate now id hash) = Unit
Leaves consumer_id (look_up now id) = Unit
Leaves consumer_id (assign now id uuids) = Unit
Leaves consumer_id (remove id uuid) = Unit

change_row-IsOff_other :
    (consumer_id id : ℕ) (change : ConsumerRow → ConsumerRow) (a : Access)
    → ((r : ConsumerRow) → row_id (change r) ≡ row_id r)
    → consumer_id ≢ id
    → IsOff consumer_id a
    → IsOff consumer_id (change_row id change a).1
unfolding change_row
change_row-IsOff_other consumer_id id change a same ne (x, row, off) =
    elim (Option-cases (find row_id id a.consumers)) [
      | inl unknown ↦ rw (change_row, unknown) (x, row, off)
      | inr (r, found) ↦
          rw (change_row, found)
            (x, find-update_other consumer_id id change a.consumers same ne ∙ row, off)
    ]

-- A change of the consumer's own row, after which it is not active.
change_row-IsOff_self :
    (consumer_id : ℕ) (change : ConsumerRow → ConsumerRow) (a : Access)
    → ((r : ConsumerRow) → row_id (change r) ≡ row_id r)
    → ((r : ConsumerRow)
        → find row_id consumer_id a.consumers ≡ some r
        → str_eq (change r).consumer.status "active" ≡ false)
    → has row_id consumer_id a.consumers ≡ true
    → IsOff consumer_id (change_row consumer_id change a).1
unfolding change_row get_consumer
change_row-IsOff_self consumer_id change a same off there =
    elim (Option-cases (find row_id consumer_id a.consumers)) [
      | inl unknown ↦
          absurd (ground (arith, there, has-none row_id consumer_id a.consumers unknown))
      | inr (r, found) ↦
          let after = find-update_self row_id change same consumer_id a.consumers r found in
          rw (change_row, found) ((change r).consumer, ap shown after, off r found)
    ]

off-has :
    (consumer_id : ℕ) (a : Access) → IsOff consumer_id a → has row_id consumer_id a.consumers ≡ true
unfolding get_consumer
off-has consumer_id a (x, row, off) = elim (Option-cases (find row_id consumer_id a.consumers)) [
  | inl unknown ↦ absurd (cc (rw (get_consumer, unknown) at row))
  | inr (r, found) ↦ has-find row_id consumer_id a.consumers r found
]

off-row :
    (consumer_id : ℕ) (a : Access) (r : ConsumerRow)
    → IsOff consumer_id a
    → find row_id consumer_id a.consumers ≡ some r
    → str_eq r.consumer.status "active" ≡ false
unfolding get_consumer
off-row consumer_id a r (x, row, off) found =
    let same : some r.consumer ≡ some x = rw (get_consumer, found) at row in
    let e : r.consumer ≡ x = cc same in rw e off

-- A change that leaves an inactive row inactive, of whichever row.
change_row-IsOff :
    (consumer_id id : ℕ) (change : ConsumerRow → ConsumerRow) (a : Access)
    → ((r : ConsumerRow) → row_id (change r) ≡ row_id r)
    → ((r : ConsumerRow)
        → str_eq r.consumer.status "active" ≡ false
        → str_eq (change r).consumer.status "active" ≡ false)
    → IsOff consumer_id a
    → IsOff consumer_id (change_row id change a).1
change_row-IsOff consumer_id id change a same keeps h = elim (Bool-cases (consumer_id == id)) [
  | inl own ↦
      let e : consumer_id ≡ id = (==_iff consumer_id id).0 own in
      rw (sym e) (
        change_row-IsOff_self consumer_id change a same
          (λ r found. keeps r (off-row consumer_id a r h found)) (off-has consumer_id a h))
  | inr other ↦ change_row-IsOff_other consumer_id id change a same (λ e. ground arith) h
]

consumers-get_cached_consumer :
    (now id : ℕ) (a : Access) → (get_cached_consumer now id a).1.consumers ≡ a.consumers
unfolding get_cached_consumer
consumers-get_cached_consumer now id a = elim (Option-cases (cached_consumer now id a.redis)) [
  | inr (consumer, hit) ↦ rw (get_cached_consumer, hit) refl
  | inl missed ↦ elim (Option-cases (get_consumer id a.consumers)) [
    | inl unknown ↦ rw (get_cached_consumer, missed, unknown) refl
    | inr (consumer, found) ↦ rw (get_cached_consumer, missed, found) refl
  ]
]

run-IsOff :
    (consumer_id : ℕ) (op : Op) (a : Access)
    → Leaves consumer_id op
    → IsOff consumer_id a
    → IsOff consumer_id (run op a)
unfolding run register_consumer update_consumer suspend_consumer revoke_consumer activate_consumer
    rotate_secret assign_merchants_endpoint remove_merchant_endpoint
run-IsOff consumer_id (register body g) a leaves (x, row, off) =
    elim (Bool-cases (has row_id g.consumer_id a.consumers)) [
      | inl taken ↦ rw (run, register_consumer, taken) (x, row, off)
      | inr free ↦
          rw (run, register_consumer, free)
            (x, get_consumer-append consumer_id a.consumers (new_consumer body g) x row, off)
    ]
run-IsOff consumer_id (update_fields now id u) a leaves h = elim (Bool-cases (no_updates u)) [
  | inl nothing ↦ rw (run, update_consumer, nothing) h
  | inr some_ ↦
      rw (run, update_consumer, some_)
        (change_row-IsOff_other consumer_id id (set_consumer now u) a (λ r. refl) leaves h)
]
run-IsOff consumer_id (suspend now id) a leaves h =
    change_row-IsOff consumer_id id (set_consumer now (set_status "suspended")) a (λ r. refl)
      (λ r off. refl) h
run-IsOff consumer_id (revoke now id) a leaves h =
    change_row-IsOff consumer_id id (set_consumer now (set_status "revoked")) a (λ r. refl)
      (λ r off. refl) h
run-IsOff consumer_id (activate now id) a leaves h =
    change_row-IsOff_other consumer_id id (set_consumer now (set_status "active")) a (λ r. refl)
      leaves h
run-IsOff consumer_id (rotate now id hash) a leaves h =
    change_row-IsOff consumer_id id (set_secret now hash) a (λ r. refl) (λ r off. off) h
run-IsOff consumer_id (look_up now id) a leaves (x, row, off) =
    (x, ap (get_consumer consumer_id) (consumers-get_cached_consumer now id a) ∙ row, off)
run-IsOff consumer_id (assign now id uuids) a leaves h =
    elim (Bool-cases (has row_id id a.consumers)) [
      | inl known ↦ rw (run, assign_merchants_endpoint, known) h
      | inr unknown ↦ rw (run, assign_merchants_endpoint, unknown) h
    ]
run-IsOff consumer_id (remove id uuid) a leaves h = h

run_all-IsOff :
    (consumer_id : ℕ) (ops : List Op) (a : Access)
    → All (Leaves consumer_id) ops
    → IsOff consumer_id a
    → IsOff consumer_id (run_all ops a)
unfolding run_all
run_all-IsOff consumer_id [] a leaves h = h
run_all-IsOff consumer_id (op ∷ ops) a leaves h =
    run_all-IsOff consumer_id ops (run op a) leaves.1 (run-IsOff consumer_id op a leaves.0 h)

update_consumer-IsOff :
    (now consumer_id : ℕ) (status : String) (a : Access)
    → has row_id consumer_id a.consumers ≡ true
    → str_eq status "active" ≡ false
    → IsOff consumer_id (update_consumer now consumer_id (set_status status) a).1
unfolding update_consumer
update_consumer-IsOff now consumer_id status a there inactive =
    change_row-IsOff_self consumer_id (set_consumer now (set_status status)) a (λ r. refl)
      (λ r found. inactive) there

module _ {Token : Type 0} (c : Crypto Token) where
  -- Where the copies in Redis are the rows, and a consumer that is there is given a status other than
  -- active, no request is let in as that consumer any more: not after any operations that follow one
  -- after the other, look-ups in Redis included, of which none updates its fields or activates it.
  pub inactive_refused :
      (then_ now consumer_id : ℕ) (status : String) (ops : List Op) (h : Headers Token) (a : Access)
      (r : RequestState)
      → IsCoherent a
      → has row_id consumer_id a.consumers ≡ true
      → str_eq status "active" ≡ false
      → All (Leaves consumer_id) ops
      → (verify_third_party_access c now h
          (run_all ops (update_consumer then_ consumer_id (set_status status) a).1)).0
        ≡ granted r
      → r.consumer_id ≢ consumer_id
  inactive_refused then_ now consumer_id status ops h a r coherent there inactive leaves e same =
      let a' = (update_consumer then_ consumer_id (set_status status) a).1 in
      let kept =
        run_all-IsCoherent ops a'
          (update_consumer-IsCoherent then_ consumer_id (set_status status) a coherent) in
      let (x, row, off) =
        run_all-IsOff consumer_id ops a' leaves
          (update_consumer-IsOff then_ consumer_id status a there inactive) in
      let admitted = verify_third_party_access-Admitted c now h (run_all ops a') r kept e in
      let known : get_consumer consumer_id (run_all ops a').consumers ≡ some r.consumer =
        rw same at admitted.is_row in
      let is : some x ≡ some r.consumer = sym row ∙ known in
      let e' : x ≡ r.consumer = cc is in ground (arith, rw e' at off, admitted.is_active)
