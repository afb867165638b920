-- ===== src/Connect/Access/Coherence.antt =====
-- The copies in Redis of src/services/oauth_service.py of services/connect-service, against the rows.
use multi_tenant_event_drive.Prelude.{
  ℕ, String, ◌≡◌, ◌≢◌, refl, sym, ◌∙◌, ap, Option, none, some, List, [], ◌∷◌, ◌++◌, arith, All,
  All-imp, Bool-cases, Option-cases, inl, inr, ◌==◌,
}
use multi_tenant_event_drive.Prelude.Table.{
  find, has, update, delete, find-update_ne, All-find, find-key,
}
use multi_tenant_event_drive.Prelude.Keyed.{find-append}
use multi_tenant_event_drive.Connect.Access.{
  Access, Consumer, ConsumerRow, CachedConsumer, row_id, shown, get_consumer, alive,
  cached_consumer, remember, get_cached_consumer, invalidate_consumer_cache,
}
use multi_tenant_event_drive.Connect.Access.Managing.{
  NewConsumer, Generated, new_consumer, register_consumer, Updates, no_updates, set_consumer,
  change_row, update_consumer, set_status, suspend_consumer, revoke_consumer, activate_consumer,
  set_secret, rotate_secret,
}
use multi_tenant_event_drive.Connect.Access.Grants.{
  assign_merchants_endpoint, remove_merchant_endpoint,
}

-- Every copy is the row.
abbrev pub IsCopy : List ConsumerRow → CachedConsumer → Type 0
IsCopy rows e = get_consumer e.consumer_id rows ≡ some e.consumer

abbrev pub IsCoherent : Access → Type 0
IsCoherent a = All (IsCopy a.consumers) a.redis

cached_consumer_sound :
    (now consumer_id : ℕ) (rows : List ConsumerRow) (redis : List CachedConsumer)
    (consumer : Consumer)
    → All (IsCopy rows) redis
    → cached_consumer now consumer_id redis ≡ some consumer
    → get_consumer consumer_id rows ≡ some consumer
unfolding cached_consumer
cached_consumer_sound now consumer_id rows redis consumer h e =
    elim (Option-cases (find CachedConsumer.consumer_id consumer_id redis)) [
      | inl missing ↦ absurd (cc (rw missing at e))
      | inr (c, found) ↦
          let copy =
            All-find CachedConsumer.consumer_id (IsCopy rows) consumer_id redis c h found in
          let id = find-key CachedConsumer.consumer_id consumer_id redis c found in
          let kept : alive now (some c) ≡ some consumer = rw found at e in
          ground (arith, copy, id, kept)
    ]

-- Redis never shows anything but the row.
pub get_cached_consumer_sound :
    (now consumer_id : ℕ) (a : Access)
    → IsCoherent a
    → (get_cached_consumer now consumer_id a).0 ≡ get_consumer consumer_id a.consumers
unfolding get_cached_consumer
get_cached_consumer_sound now consumer_id a h =
    elim (Option-cases (cached_consumer now consumer_id a.redis)) [
      | inr (consumer, hit) ↦
          rw (get_cached_consumer, hit)
            (sym (cached_consumer_sound now consumer_id a.consumers a.redis consumer h hit))
      | inl missed ↦ elim (Option-cases (get_consumer consumer_id a.consumers)) [
        | inl unknown ↦ rw (get_cached_consumer, missed, unknown) refl
        | inr (consumer, found) ↦ rw (get_cached_consumer, missed, found) refl
      ]
    ]

All-delete :
    (P : CachedConsumer → Type 0) (k : ℕ) (redis : List CachedConsumer)
    → All P redis
    → All (λ e. P e × (e.consumer_id ≢ k)) (delete CachedConsumer.consumer_id k redis)
All-delete P k [] h = tt
All-delete P k (e ∷ es) h = elim (Bool-cases (e.consumer_id == k)) [
  | inl same ↦ rw (same, delete) (All-delete P k es h.1)
  | inr other ↦ rw (other, delete) ((h.0, λ eq. ground arith), All-delete P k es h.1)
]

pub get_cached_consumer-IsCoherent :
    (now consumer_id : ℕ) (a : Access)
    → IsCoherent a
    → IsCoherent (get_cached_consumer now consumer_id a).1
unfolding get_cached_consumer remember
get_cached_consumer-IsCoherent now consumer_id a h =
    elim (Option-cases (cached_consumer now consumer_id a.redis)) [
      | inr (consumer, hit) ↦ rw (get_cached_consumer, hit) h
      | inl missed ↦ elim (Option-cases (get_consumer consumer_id a.consumers)) [
        | inl unknown ↦ rw (get_cached_consumer, missed, unknown) h
        | inr (consumer, found) ↦
            rw (get_cached_consumer, missed, found)
              (
                found,
                All-imp _ _ (delete CachedConsumer.consumer_id consumer_id a.redis) (λ e. λ p. p.0)
                    (All-delete _ consumer_id a.redis h),
              )
      ]
    ]

pub find-update_other :
    (j k : ℕ) (change : ConsumerRow → ConsumerRow) (rows : List ConsumerRow)
    → ((r : ConsumerRow) → row_id (change r) ≡ row_id r)
    → j ≢ k
    → get_consumer j (update row_id k change rows) ≡ get_consumer j rows
unfolding get_consumer
find-update_other j k change rows same ne = ap shown (find-update_ne row_id change same j k rows ne)

change_row-IsCoherent :
    (consumer_id : ℕ) (change : ConsumerRow → ConsumerRow) (a : Access)
    → ((r : ConsumerRow) → row_id (change r) ≡ row_id r)
    → IsCoherent a
    → IsCoherent (change_row consumer_id change a).1
unfolding change_row invalidate_consumer_cache
change_row-IsCoherent consumer_id change a same h =
    elim (Option-cases (find row_id consumer_id a.consumers)) [
      | inl unknown ↦ rw (change_row, unknown) h
      | inr (r, found) ↦
          rw (change_row, found)
            (All-imp _ _ (delete CachedConsumer.consumer_id consumer_id a.redis)
              (λ e p. find-update_other e.consumer_id consumer_id change a.consumers same p.1 ∙ p.0)
              (All-delete _ consumer_id a.redis h))
    ]

pub update_consumer-IsCoherent :
    (now consumer_id : ℕ) (u : Updates) (a : Access)
    → IsCoherent a
    → IsCoherent (update_consumer now consumer_id u a).1
unfolding update_consumer
update_consumer-IsCoherent now consumer_id u a h = elim (Bool-cases (no_updates u)) [
  | inl nothing ↦ rw nothing h
  | inr some_ ↦ rw some_ (change_row-IsCoherent consumer_id (set_consumer now u) a (λ r. refl) h)
]

-- The operations of the service and of its administrators.
pub data Op : Type 0 where
  register : NewConsumer → Generated → Op
  update_fields : (now consumer_id : ℕ) → Updates → Op
  suspend revoke activate : (now consumer_id : ℕ) → Op
  rotate : (now consumer_id : ℕ) → (hash : String) → Op
  look_up : (now consumer_id : ℕ) → Op
  assign : (now consumer_id : ℕ) → (merchant_uuids : List ℕ) → Op
  remove : (consumer_id merchant_uuid : ℕ) → Op

abbrev pub registered : Access → Option (Consumer × Access) → Access
registered a none = a
registered a (some (consumer, a')) = a'

unfoldable pub run : Op → Access → Access
unfolding register_consumer update_consumer suspend_consumer revoke_consumer activate_consumer
    rotate_secret get_cached_consumer assign_merchants_endpoint remove_merchant_endpoint
run (register body g) a = registered a (register_consumer body g a)
run (update_fields now consumer_id u) a = (update_consumer now consumer_id u a).1
run (suspend now consumer_id) a = (suspend_consumer now consumer_id a).1
run (revoke now consumer_id) a = (revoke_consumer now consumer_id a).1
run (activate now consumer_id) a = (activate_consumer now consumer_id a).1
run (rotate now consumer_id hash) a = (rotate_secret now consumer_id hash a).1
run (look_up now consumer_id) a = (get_cached_consumer now consumer_id a).1
run (assign now consumer_id merchant_uuids) a =
    (assign_merchants_endpoint now consumer_id merchant_uuids a).1
run (remove consumer_id merchant_uuid) a = (remove_merchant_endpoint consumer_id merchant_uuid a).1

unfoldable pub run_all : List Op → Access → Access
unfolding run
run_all [] a = a
run_all (op ∷ ops) a = run_all ops (run op a)

pub get_consumer-append :
    (k : ℕ) (rows : List ConsumerRow) (r : ConsumerRow) (consumer : Consumer)
    → get_consumer k rows ≡ some consumer
    → get_consumer k (rows ++ r ∷ []) ≡ some consumer
unfolding get_consumer
get_consumer-append k rows r consumer h = elim (Option-cases (find row_id k rows)) [
  | inl missing ↦ absurd (cc (rw missing at h))
  | inr (row, found) ↦
      let kept : shown (some row) ≡ some consumer = rw found at h in
      rw (find-append row_id k rows (r ∷ []) row found) kept
]

register_consumer-IsCoherent :
    (body : NewConsumer) (g : Generated) (a : Access)
    → IsCoherent a
    → IsCoherent (registered a (register_consumer body g a))
unfolding register_consumer
register_consumer-IsCoherent body g a h = elim (Bool-cases (has row_id g.consumer_id a.consumers)) [
  | inl taken ↦ rw (register_consumer, taken) h
  | inr free ↦
      rw (register_consumer, free)
        (All-imp _ _ a.redis
          (λ e. get_consumer-append e.consumer_id a.consumers (new_consumer body g) e.consumer) h)
]

run-IsCoherent : (op : Op) (a : Access) → IsCoherent a → IsCoherent (run op a)
unfolding run suspend_consumer revoke_consumer activate_consumer rotate_secret
    assign_merchants_endpoint remove_merchant_endpoint
run-IsCoherent (register body g) a h = register_consumer-IsCoherent body g a h
run-IsCoherent (update_fields now id u) a h = update_consumer-IsCoherent now id u a h
run-IsCoherent (suspend now id) a h = update_consumer-IsCoherent now id (set_status "suspended") a h
run-IsCoherent (revoke now id) a h = update_consumer-IsCoherent now id (set_status "revoked") a h
run-IsCoherent (activate now id) a h = update_consumer-IsCoherent now id (set_status "active") a h
run-IsCoherent (rotate now id hash) a h =
    change_row-IsCoherent id (set_secret now hash) a (λ r. refl) h
run-IsCoherent (look_up now id) a h = get_cached_consumer-IsCoherent now id a h
run-IsCoherent (assign now id uuids) a h = elim (Bool-cases (has row_id id a.consumers)) [
  | inl known ↦ rw (run, assign_merchants_endpoint, known) h
  | inr unknown ↦ rw (run, assign_merchants_endpoint, unknown) h
]
run-IsCoherent (remove id uuid) a h = h

-- Whatever operations run, one after the other, every copy in Redis is the row of its consumer.
pub run_all-IsCoherent : (ops : List Op) (a : Access) → IsCoherent a → IsCoherent (run_all ops a)
unfolding run_all
run_all-IsCoherent [] a h = h
run_all-IsCoherent (op ∷ ops) a h = run_all-IsCoherent ops (run op a) (run-IsCoherent op a h)
