-- ===== src/Connect/Access/Overlap.antt =====
-- get_cached_consumer of src/services/oauth_service.py of services/connect-service, where other operations
-- run between its query and its SET in Redis: the steps of the processes, one after the other.
use multi_tenant_event_drive.Prelude.{
  ℕ, ◌+◌, ◌≤◌, ◌<◌, ◌≡◌, refl, Bool, true, false, none, some, List, [], ◌∷◌, arith, All, All-imp,
  Bool-cases, Option-cases, inl, inr, subst, ltb,
}
use multi_tenant_event_drive.Prelude.Table.{find, has, delete, All-find, find-key}
use multi_tenant_event_drive.Connect.Access.{
  Access, Consumer, ConsumerRow, CachedConsumer, row_id, get_consumer, alive, cached_consumer,
  remember, consumer_cache_ttl, invalidate_consumer_cache,
}
use multi_tenant_event_drive.Connect.Access.Managing.{
  register_consumer, Updates, no_updates, set_consumer, set_status, set_secret, change_row,
  update_consumer, suspend_consumer, revoke_consumer, activate_consumer, rotate_secret,
}
use multi_tenant_event_drive.Connect.Access.Grants.{
  assign_merchants_endpoint, remove_merchant_endpoint,
}
use multi_tenant_event_drive.Connect.Access.Coherence.{
  Op, register, update_fields, suspend, revoke, activate, rotate, look_up, assign, remove, run,
}

-- A look-up between its query and its SET, with the row that the query gave, and when.
pub record Looking : Type 0 where
  pub consumer_id : ℕ
  pub consumer : Consumer
  pub read_at : ℕ

-- The rows that the database had at a time.
pub record Version : Type 0 where
  pub at : ℕ
  pub rows : List ConsumerRow

-- `seen` has the versions that a query was asked of.
pub record Running : Type 0 where
  pub access : Access
  pub looking : List Looking
  pub seen : List Version
  pub now : ℕ

-- Among the versions, the consumer's row was this at that time.
pub data WasRow (consumer_id : ℕ) (consumer : Consumer) (t : ℕ) : List Version → Type 0 where
  here :
      (v : Version) (vs : List Version)
      → v.at ≡ t
      → get_consumer consumer_id v.rows ≡ some consumer
      → WasRow consumer_id consumer t (v ∷ vs)
  there :
      (v : Version) (vs : List Version)
      → WasRow consumer_id consumer t vs
      → WasRow consumer_id consumer t (v ∷ vs)

pub data IsOf (l : Looking) : List Looking → Type 0 where
  first : (ls : List Looking) → IsOf l (l ∷ ls)
  later : (k : Looking) (ls : List Looking) → IsOf l ls → IsOf l (k ∷ ls)

-- The operations that are one statement, with the deletion of the key.
abbrev pub is_change : Op → Bool
is_change (look_up now consumer_id) = false
is_change _ = true

abbrev pub look_at : Running → (consumer_id : ℕ) → Consumer → Running
look_at s consumer_id consumer = record s {
  looking = record { consumer_id = consumer_id; consumer = consumer; read_at = s.now } ∷ s.looking;
  seen = record { at = s.now; rows = s.access.consumers } ∷ s.seen;
}

abbrev pub store_in : Running → Looking → Running
store_in s l = record s {
  access = record s.access { redis = remember s.now l.consumer_id l.consumer s.access.redis };
}

-- A look-up takes at most `d` seconds from its query to its SET.
pub data Step (d : ℕ) : Running → Running → Type 0 where
  wait : (s : Running) (later_now : ℕ) → s.now ≤ later_now → Step d s (record s { now = later_now })
  query :
      (s : Running) (consumer_id : ℕ) (consumer : Consumer)
      → cached_consumer s.now consumer_id s.access.redis ≡ none
      → get_consumer consumer_id s.access.consumers ≡ some consumer
      → Step d s (look_at s consumer_id consumer)
  store :
      (s : Running) (l : Looking)
      → IsOf l s.looking
      → s.now ≤ l.read_at + d
      → Step d s (store_in s l)
  change :
      (s : Running) (op : Op)
      → is_change op ≡ true
      → Step d s (record s { access = run op s.access })

pub data Steps (d : ℕ) : Running → Running → Type 0 where
  stay : (s : Running) → Steps d s s
  go : (s s' s'' : Running) → Step d s s' → Steps d s' s'' → Steps d s s''

abbrev pub WasRead : List Version → Looking → Type 0
WasRead seen l = WasRow l.consumer_id l.consumer l.read_at seen

-- A copy of a row that was read, and that expires in time.
abbrev pub IsRecentCopy : (d : ℕ) → List Version → CachedConsumer → Type 0
IsRecentCopy d seen e =
    (t : ℕ) × WasRow e.consumer_id e.consumer t seen × (e.expires_at ≤ t + d + consumer_cache_ttl)

pub record IsRecent (d : ℕ) (s : Running) : Type 0 where
  pub looking_ok : All (WasRead s.seen) s.looking
  pub copies_ok : All (IsRecentCopy d s.seen) s.access.redis

All-deleted :
    (P : CachedConsumer → Type 0) (k : ℕ) (redis : List CachedConsumer)
    → All P redis
    → All P (delete CachedConsumer.consumer_id k redis)
All-deleted P k [] h = tt
All-deleted P k (e ∷ es) h = ground (arith, All-deleted P k es h.1)

-- A change deletes copies, and adds none.
change_row-copies :
    (P : CachedConsumer → Type 0) (k : ℕ) (f : ConsumerRow → ConsumerRow) (a : Access)
    → All P a.redis
    → All P (change_row k f a).1.redis
unfolding change_row invalidate_consumer_cache
change_row-copies P k f a h = elim (Option-cases (find row_id k a.consumers)) [
  | inl unknown ↦ rw (change_row, unknown) h
  | inr (r, found) ↦ rw (change_row, found) (All-deleted P k a.redis h)
]

update_consumer-copies :
    (P : CachedConsumer → Type 0) (now k : ℕ) (u : Updates) (a : Access)
    → All P a.redis
    → All P (update_consumer now k u a).1.redis
unfolding update_consumer
update_consumer-copies P now k u a h = elim (Bool-cases (no_updates u)) [
  | inl nothing ↦ rw (update_consumer, nothing) h
  | inr changes ↦ rw (update_consumer, changes) (change_row-copies P k (set_consumer now u) a h)
]

run-copies :
    (P : CachedConsumer → Type 0) (op : Op) (a : Access)
    → is_change op ≡ true
    → All P a.redis
    → All P (run op a).redis
unfolding run suspend_consumer revoke_consumer activate_consumer rotate_secret
    remove_merchant_endpoint register_consumer assign_merchants_endpoint
run-copies P (register body g) a c h = elim (Bool-cases (has row_id g.consumer_id a.consumers)) [
  | inl taken ↦ rw (run, register_consumer, taken) h
  | inr free ↦ rw (run, register_consumer, free) h
]
run-copies P (update_fields now id u) a c h = update_consumer-copies P now id u a h
run-copies P (suspend now id) a c h = update_consumer-copies P now id (set_status "suspended") a h
run-copies P (revoke now id) a c h = update_consumer-copies P now id (set_status "revoked") a h
run-copies P (activate now id) a c h = update_consumer-copies P now id (set_status "active") a h
run-copies P (rotate now id hash) a c h = change_row-copies P id (set_secret now hash) a h
run-copies P (look_up now id) a c h = absurd (cc c)
run-copies P (assign now id uuids) a c h = elim (Bool-cases (has row_id id a.consumers)) [
  | inl known ↦ rw (run, assign_merchants_endpoint, known) h
  | inr unknown ↦ rw (run, assign_merchants_endpoint, unknown) h
]
run-copies P (remove id uuid) a c h = h

WasRead-IsOf :
    (seen : List Version) (l : Looking) (ls : List Looking)
    → All (WasRead seen) ls
    → IsOf l ls
    → WasRead seen l
WasRead-IsOf seen l _ h (first ks) = h.0
WasRead-IsOf seen l _ h (later k ks m) = WasRead-IsOf seen l ks h.1 m

Step-IsRecent : (d : ℕ) (s s' : Running) → IsRecent d s → Step d s s' → IsRecent d s'
unfolding remember
Step-IsRecent d _ _ h (wait s n le) = record { looking_ok = h.looking_ok; copies_ok = h.copies_ok }
Step-IsRecent d _ _ h (query s id consumer missed found) = record {
  looking_ok = (here _ _ refl found, All-imp _ _ s.looking (λ l. there _ s.seen) h.looking_ok);
  copies_ok =
      All-imp _ _ s.access.redis (λ e (t, was, soon). (t, there _ s.seen was, soon)) h.copies_ok;
}
Step-IsRecent d _ _ h (store s l member soon) = record {
  looking_ok = h.looking_ok;
  copies_ok = (
    (l.read_at, WasRead-IsOf s.seen l s.looking h.looking_ok member, omega arith),
    All-deleted _ l.consumer_id s.access.redis h.copies_ok,
  );
}
Step-IsRecent d _ _ h (change s op is) = record {
  looking_ok = h.looking_ok;
  copies_ok = run-copies _ op s.access is h.copies_ok;
}

Steps-IsRecent : (d : ℕ) (s s' : Running) → IsRecent d s → Steps d s s' → IsRecent d s'
Steps-IsRecent d _ _ h (stay s) = h
Steps-IsRecent d _ _ h (go s s' s'' step rest) =
    Steps-IsRecent d s' s'' (Step-IsRecent d s s' h step) rest

recent-cached :
    (d : ℕ) (s : Running) (consumer_id : ℕ) (consumer : Consumer)
    → IsRecent d s
    → cached_consumer s.now consumer_id s.access.redis ≡ some consumer
    → (t : ℕ) × WasRow consumer_id consumer t s.seen × (s.now < t + d + consumer_cache_ttl)
unfolding cached_consumer
recent-cached d s consumer_id consumer h e =
    elim (Option-cases (find CachedConsumer.consumer_id consumer_id s.access.redis)) [
      | inl missing ↦ absurd (cc (rw missing at e))
      | inr (c, found) ↦
          let (t, was, soon) =
            All-find CachedConsumer.consumer_id _ consumer_id s.access.redis c h.copies_ok found in
          let id = find-key CachedConsumer.consumer_id consumer_id s.access.redis c found in
          let kept : alive s.now (some c) ≡ some consumer = rw found at e in
          elim (Bool-cases (ltb s.now c.expires_at)) [
            | inr expired ↦ absurd (cc (rw (expired, alive) at kept))
            | inl in_time ↦
                let same : c.consumer ≡ consumer = cc (rw (in_time, alive) at kept) in
                (
                  t,
                  subst (λ x. WasRow consumer_id x t s.seen) same
                      (subst (λ k. WasRow k c.consumer t s.seen) id was),
                  ground arith,
                )
          ]
    ]

-- From recent copies, however look-ups overlap the other operations, where each stores its row at most `d` seconds after it
-- read it, what Redis shows at a time was the row of the consumer less than `d` and 60 seconds before.
pub overlap_recent :
    (d : ℕ) (s s' : Running) (consumer_id : ℕ) (consumer : Consumer)
    → IsRecent d s
    → Steps d s s'
    → cached_consumer s'.now consumer_id s'.access.redis ≡ some consumer
    → (t : ℕ) × WasRow consumer_id consumer t s'.seen × (s'.now < t + d + consumer_cache_ttl)
overlap_recent d s s' consumer_id consumer h steps e =
    recent-cached d s' consumer_id consumer (Steps-IsRecent d s s' h steps) e
