-- ===== src/Connect/RateLimiter/Bounds.antt =====
-- What the sliding window promises: how many calls it lets through.
use multi_tenant_event_drive.Prelude.{
  ℕ, ◌+◌, ◌-◌, ◌*◌, ◌≤◌, ◌<◌, ◌≡◌, refl, sym, subst, ◌⊎◌, inl, inr, Bool, true, not, Option, some,
  List, [], ◌∷◌, All, All-imp, length, ltb, leb, arith, Bool-cases, leb→le, if◌then◌else◌,
}
use multi_tenant_event_drive.Connect.RateLimiter.{
  oauth_per_minute, check_oauth_rate_limit, Window, Consumer, second, max_requests_of,
  window_seconds_of, prune, live, check_rate_limit, get_rate_limit_status,
}

-- What the limiter has seen: the sorted set, the time of the last call, and the times of the calls
-- that it allowed, the last one first.
pub record Trace : Type 0 where
  pub window : Window
  pub last : ℕ
  pub allowed : List ℕ

abbrev pub start : Trace
start = record { window = record { scores = []; expires_at = 0 }; last = 0; allowed = [] }

unfoldable pub call_at : Option Consumer → ℕ → Trace → Trace
unfolding check_rate_limit prune
call_at consumer now s =
    let (result, w) = check_rate_limit consumer now s.window in
    record {
      window = w;
      last = now;
      allowed = if result.allowed then now ∷ s.allowed else s.allowed;
    }

unfoldable pub calls_at : Option Consumer → List ℕ → Trace → Trace
unfolding call_at
calls_at consumer [] s = s
calls_at consumer (t ∷ ts) s = calls_at consumer ts (call_at consumer t s)

abbrev pub Ascending : ℕ → List ℕ → Type 0
Ascending t [] = Unit
Ascending t (u ∷ us) = (t ≤ u) × Ascending u us

-- Pruning twice is pruning once, at the later time.
prune-prune :
    (span before now : ℕ) (ts : List ℕ)
    → before ≤ now
    → prune span now (prune span before ts) ≡ prune span now ts
unfolding prune
prune-prune span before now [] h = refl
prune-prune span before now (t ∷ ts) h = ground (arith, prune-prune span before now ts h)

prune_expired : (span now : ℕ) (ts : List ℕ) → All (λ t. t + span ≤ now) ts → prune span now ts ≡ []
unfolding prune
prune_expired span now [] h = refl
prune_expired span now (t ∷ ts) h = ground (arith, h.0, prune_expired span now ts h.1)

prune-shrinks :
    (span before now : ℕ) (ts : List ℕ)
    → before ≤ now
    → length (prune span now ts) ≤ length (prune span before ts)
unfolding prune
prune-shrinks span before now [] h = omega arith
prune-shrinks span before now (t ∷ ts) h = ground (arith, prune-shrinks span before now ts h)

All-prune {κ} : (P : ℕ → Type κ) (span now : ℕ) (ts : List ℕ) → All P ts → All P (prune span now ts)
unfolding prune
All-prune P span now [] h = tt
All-prune P span now (t ∷ ts) h = elim (Bool-cases (leb (t + span) now)) [
  | inl old ↦ rw old (All-prune P span now ts h.1)
  | inr new ↦ rw new (h.0, All-prune P span now ts h.1)
]

abbrev span_of : Option Consumer → ℕ
span_of consumer = window_seconds_of consumer * second

-- The calls that were allowed and are still in the window at `now` are among the recorded ones, no
-- score is later than the last call, and no more than the limit were allowed in the last window.
abbrev IsBounded : Option Consumer → Trace → Type 0
IsBounded consumer s =
    (All (λ t. t ≤ s.last) s.window.scores)
    × (s.window.scores ≡ [] ⊎ s.window.expires_at ≡ s.last + span_of consumer)
    × ((now : ℕ)
        → s.last ≤ now
        → length (prune (span_of consumer) now s.allowed)
          ≤ length (prune (span_of consumer) now s.window.scores))
    × (length (prune (span_of consumer) s.last s.allowed) ≤ max_requests_of consumer)

-- The TTL takes away only what pruning takes away.
prune-live :
    (consumer : Option Consumer) (now : ℕ) (s : Trace)
    → IsBounded consumer s
    → prune (span_of consumer) now (live now s.window)
      ≡ prune (span_of consumer) now s.window.scores
unfolding prune
prune-live consumer now s (early, ttl, covered, few) =
    elim (Bool-cases (leb s.window.expires_at now)) [
      | inr valid ↦ rw valid refl
      | inl gone ↦ elim ttl [
        | inl empty ↦ rw (gone, empty) refl
        | inr set ↦
            let all_old : All (λ t. t + span_of consumer ≤ now) s.window.scores =
              All-imp (λ t. t ≤ s.last) (λ t. t + span_of consumer ≤ now) s.window.scores
                (λ t h. omega (arith, h, set, leb→le s.window.expires_at now gone)) early in
            rw (gone, prune_expired (span_of consumer) now s.window.scores all_old) refl
      ]
    ]

-- The state after a call, whether it was allowed or not.
abbrev after : Option Consumer → ℕ → Bool → Trace → Trace
after consumer now admitted s = record {
  window = record {
    scores = now ∷ prune (span_of consumer) now s.window.scores;
    expires_at = now + span_of consumer;
  };
  last = now;
  allowed = if admitted then now ∷ s.allowed else s.allowed;
}

after_covers :
    (span now now' : ℕ) (admitted : Bool) (allowed scores : List ℕ)
    → now ≤ now'
    → length (prune span now' allowed) ≤ length (prune span now' scores)
    → length (prune span now' (if admitted then now ∷ allowed else allowed))
      ≤ length (prune span now' (now ∷ prune span now scores))
unfolding prune
after_covers span now now' admitted allowed scores later h =
    ground (arith, prune-prune span now now' scores later)

after_few :
    (span before now most : ℕ) (admitted : Bool) (allowed scores : List ℕ)
    → before ≤ now
    → (admitted ≡ true → length (prune span now scores) < most)
    → length (prune span now allowed) ≤ length (prune span now scores)
    → length (prune span before allowed) ≤ most
    → length (prune span now (if admitted then now ∷ allowed else allowed)) ≤ most
unfolding prune
after_few span before now most admitted allowed scores later room covered few =
    ground (arith, prune-shrinks span before now allowed later)

after-IsBounded :
    (consumer : Option Consumer) (now : ℕ) (admitted : Bool) (s : Trace)
    → s.last ≤ now
    → (admitted ≡ true
        → length (prune (span_of consumer) now s.window.scores) < max_requests_of consumer)
    → IsBounded consumer s
    → IsBounded consumer (after consumer now admitted s)
after-IsBounded consumer now admitted s later room (early, ttl, covered, few) =
    let span = span_of consumer in
    (
      (
        omega arith,
        All-prune (λ t. t ≤ now) span now s.window.scores
            (All-imp (λ t. t ≤ s.last) (λ t. t ≤ now) s.window.scores
              (λ t h. omega (arith, h, later)) early),
      ),
      inr refl,
      (λ now' le.
          after_covers span now now' admitted s.allowed s.window.scores le
            (covered now' (omega (arith, le, later)))),
      after_few span s.last now (max_requests_of consumer) admitted s.allowed s.window.scores later
          room (covered now later) few,
    )

call_at-after :
    (consumer : Option Consumer) (now : ℕ) (s : Trace)
    → IsBounded consumer s
    → call_at consumer now s
      ≡ after consumer now
          (not (
            leb (max_requests_of consumer) (length (prune (span_of consumer) now s.window.scores))))
          s
unfolding call_at check_rate_limit prune
call_at-after consumer now s bounded =
    let full =
      leb (max_requests_of consumer) (length (prune (span_of consumer) now s.window.scores)) in
    elim (Bool-cases full) [
      | inl e ↦ rw (prune-live consumer now s bounded, e, call_at, check_rate_limit, prune) refl
      | inr e ↦ rw (prune-live consumer now s bounded, e, call_at, check_rate_limit, prune) refl
    ]

calls_at-IsBounded :
    (consumer : Option Consumer) (times : List ℕ) (s : Trace)
    → Ascending s.last times
    → IsBounded consumer s
    → IsBounded consumer (calls_at consumer times s)
unfolding calls_at
calls_at-IsBounded consumer [] s a h = h
calls_at-IsBounded consumer (t ∷ ts) s (later, a) h =
    calls_at-IsBounded consumer ts (call_at consumer t s) a (
      subst (IsBounded consumer) (sym (call_at-after consumer t s h)) (
        after-IsBounded consumer t
          (not
            (leb (max_requests_of consumer) (length (prune (span_of consumer) t s.window.scores))))
          s later (λ room. ground arith) h))

-- Over any run of calls of one consumer, at times that do not go back and from an empty set, the
-- calls that were allowed in the window that ends at the last call are no more than the limit.
pub calls_at_within_limit :
    (consumer : Option Consumer) (times : List ℕ)
    → Ascending 0 times
    → let s = calls_at consumer times start in
      length (prune (window_seconds_of consumer * second) s.last s.allowed)
      ≤ max_requests_of consumer
unfolding calls_at prune
calls_at_within_limit consumer times a =
    let (early, ttl, covered, few) =
      calls_at-IsBounded consumer times start a
        (tt, inl refl, (λ now h. omega arith), omega arith) in
    few

-- What the status page says agrees with the limiter: with a status that leaves no call, a call at the
-- same time is refused; with one that leaves some, it is allowed, and one call fewer remains.
status_agrees :
    (consumer : Option Consumer) (now : ℕ) (w : Window)
    → let (status, w') = get_rate_limit_status consumer now w in
      let (result, w'') = check_rate_limit consumer now w in
      (result.allowed ≡ ltb 0 status.calls_remaining)
      × (result.remaining ≡ status.calls_remaining - 1)
      × (result.limit ≡ status.limit)
unfolding get_rate_limit_status check_rate_limit prune
status_agrees consumer now w = ground arith

abbrev pub token_limits : Option Consumer
token_limits =
    some
      (record { rate_limit_requests = some oauth_per_minute; rate_limit_window_seconds = some 60 })

-- The limit on OAuth tokens is the rate limit of a consumer that has 10 calls in 60 seconds, but for
-- the time after which a refused call may be tried again.
check_oauth_agrees :
    (now : ℕ) (w : Window)
    → let (result, w') = check_oauth_rate_limit now w in
      let (as_consumer, w'') = check_rate_limit token_limits now w in
      (w' ≡ w'')
      × (result.allowed ≡ as_consumer.allowed)
      × (result.remaining ≡ as_consumer.remaining)
      × (result.reset_at ≡ as_consumer.reset_at)
unfolding check_oauth_rate_limit check_rate_limit prune
check_oauth_agrees now w = ground arith
