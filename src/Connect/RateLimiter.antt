-- ===== src/Connect/RateLimiter.antt =====
-- src/services/rate_limiter.py of services/connect-service: the sliding window on a Redis sorted
-- set. One value of `Window` is the sorted set under one key, which is all that a call touches; a
-- time is a number of microseconds, a window a number of seconds.
pub mod Bounds
use multi_tenant_event_drive.Prelude.{
  ℕ, ◌+◌, ◌-◌, ◌*◌, ◌/◌, max, Bool, true, false, Option, none, some, List, [], ◌∷◌, length, ltb,
  leb, or_else, if◌then◌else◌,
}

-- The scores of the set, the last that was added first, and when its TTL runs out.
pub record Window : Type 0 where
  pub scores : List ℕ
  pub expires_at : ℕ

-- What the cached consumer says of its limits.
pub record Consumer : Type 0 where
  pub rate_limit_requests : Option ℕ
  pub rate_limit_window_seconds : Option ℕ

pub record RateLimitResult : Type 0 where
  pub allowed : Bool
  pub limit : ℕ
  pub remaining : ℕ
  pub reset_at : ℕ
  pub window_seconds : ℕ
  pub retry_after : Option ℕ

abbrev pub second : ℕ
second = 1000000

abbrev pub default_requests : ℕ
default_requests = 1000

abbrev pub default_window_seconds : ℕ
default_window_seconds = 300

abbrev pub oauth_per_minute : ℕ
oauth_per_minute = 10

abbrev pub max_requests_of : Option Consumer → ℕ
max_requests_of none = default_requests
max_requests_of (some c) = or_else c.rate_limit_requests default_requests

abbrev pub window_seconds_of : Option Consumer → ℕ
window_seconds_of none = default_window_seconds
window_seconds_of (some c) = or_else c.rate_limit_window_seconds default_window_seconds

-- ZREMRANGEBYSCORE key 0 (now - span): what it leaves.
unfoldable pub prune : ℕ → ℕ → List ℕ → List ℕ
prune span now [] = []
prune span now (t ∷ ts) =
    let rest = prune span now ts in if leb (t + span) now then rest else t ∷ rest

-- A key whose TTL has run out is no key.
abbrev pub live : ℕ → Window → List ℕ
live now w = if leb w.expires_at now then [] else w.scores

-- ZRANGE key 0 0: the least score, `t` when the others are no less.
abbrev pub oldest : ℕ → List ℕ → ℕ
oldest t [] = t
oldest t (u ∷ us) = let rest = oldest u us in if ltb rest t then rest else t

-- The pipeline: prune, count, add, set the TTL. The count is taken before the call is added.
abbrev pub record_call : ℕ → ℕ → Window → ℕ × Window
record_call span now w =
    let kept = prune span now (live now w) in
    (length kept, record { scores = now ∷ kept; expires_at = now + span })

abbrev pub admit : ℕ → ℕ → ℕ → ℕ → RateLimitResult
admit max_requests seconds now current_count = record {
  allowed = true;
  limit = max_requests;
  remaining = max_requests - current_count - 1;
  reset_at = (now + seconds * second) / second;
  window_seconds = seconds;
  retry_after = none;
}

abbrev pub refuse : ℕ → ℕ → ℕ → ℕ → RateLimitResult
refuse max_requests seconds now retry = record {
  allowed = false;
  limit = max_requests;
  remaining = 0;
  reset_at = (now + seconds * second) / second;
  window_seconds = seconds;
  retry_after = some (max retry 1);
}

-- The oldest entry is read after the call was added, so there is one.
abbrev pub retry_after_of : ℕ → ℕ → Window → ℕ
retry_after_of seconds now w = elim w.scores [
  | [] ↦ seconds
  | t ∷ ts ↦ (oldest t ts + seconds * second - now) / second
]

unfoldable pub check_rate_limit : Option Consumer → ℕ → Window → RateLimitResult × Window
unfolding prune
check_rate_limit consumer now w =
    let max_requests = max_requests_of consumer in
    let seconds = window_seconds_of consumer in
    let (current_count, w') = record_call (seconds * second) now w in
    (
      if leb max_requests current_count
          then refuse max_requests seconds now (retry_after_of seconds now w')
          else admit max_requests seconds now current_count,
      w',
    )

unfoldable pub check_oauth_rate_limit : ℕ → Window → RateLimitResult × Window
unfolding prune
check_oauth_rate_limit now w =
    let (current_count, w') = record_call (60 * second) now w in
    (
      if leb oauth_per_minute current_count
          then refuse oauth_per_minute 60 now 60
          else admit oauth_per_minute 60 now current_count,
      w',
    )

pub record Status : Type 0 where
  pub limit : ℕ
  pub window_seconds : ℕ
  pub calls_made : ℕ
  pub calls_remaining : ℕ
  pub window_start : ℕ
  pub window_end : ℕ

abbrev pub window_start_of : ℕ → List ℕ → ℕ
window_start_of now [] = now
window_start_of now (t ∷ ts) = oldest t ts

unfoldable pub get_rate_limit_status : Option Consumer → ℕ → Window → Status × Window
unfolding prune
get_rate_limit_status consumer now w =
    let seconds = window_seconds_of consumer in
    let kept = prune (seconds * second) now (live now w) in
    let start = window_start_of now kept in
    (
      record {
        limit = max_requests_of consumer;
        window_seconds = seconds;
        calls_made = length kept;
        calls_remaining = max_requests_of consumer - length kept;
        window_start = start;
        window_end = start + seconds * second;
      },
      record w { scores = kept },
    )
