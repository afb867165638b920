-- ===== src/Connect/Tests.antt =====
-- Runs of the rate limiter and of the webhook retries, and the theorems at them.
mod ReadModel
mod Bulk
mod Access
use multi_tenant_event_drive.Prelude.{
  ◌⊎◌, false, ◌&&◌, ℕ, ◌↔◌, Bool, ◌==◌, ◌-◌, ◌*◌, ◌≤◌, ◌≡◌, refl, true, Option, none, some, List,
  [], ◌∷◌, arith, length, ltb, map, ◌++◌, if◌then◌else◌,
}
use multi_tenant_event_drive.Prelude.Table.{find, delete}
use multi_tenant_event_drive.Connect.RateLimiter.{
  Window, Consumer, second, prune, check_rate_limit, check_oauth_rate_limit, get_rate_limit_status,
}
use multi_tenant_event_drive.Connect.RateLimiter.Bounds.{
  start, call_at, calls_at, calls_at_within_limit, token_limits,
}
use multi_tenant_event_drive.Connect.Webhooks.{
  Hub, Delivery, DeadLetter, is_delivered, outcome_of, usable, Endpoint, EndpointStatus, failed,
  Draw, answered, raised, move_to_dlq, attempt_delivery, retry_delivery,
}
use multi_tenant_event_drive.Connect.EventTypes.{
  matches_event_type, SubscribesAny, matches_event_type_iff,
}
use multi_tenant_event_drive.Connect.Webhooks.Dispatching.{
  Event, Post, Posted, Run, get_active_endpoints_for_event, dispatch_webhook, dispatch_all,
  process_event,
}
use multi_tenant_event_drive.Connect.Webhooks.Dispatching.Delivering.{
  Delivered, eligible_of, process_event-Delivered,
}
use multi_tenant_event_drive.Connect.Webhooks.Owners.{
  remove, endpoints_of, delete_endpoint, operate, operate_isolates, dlq_retry,
}
use multi_tenant_event_drive.Connect.Webhooks.Retrying.{Settled, retry_until, retry_ends}

-- Two calls in ten seconds.
abbrev frugal : Option Consumer
frugal = some (record { rate_limit_requests = some 2; rate_limit_window_seconds = some 10 })

abbrev times : List ℕ
times = 0 ∷ second ∷ 2 * second ∷ 12 * second ∷ 13 * second ∷ []

-- The third call is refused, and so the one at 12 seconds meets only itself in the window.
times_allowed : (calls_at frugal times start).allowed ≡ 13 * second ∷ 12 * second ∷ second ∷ 0 ∷ []
unfolding calls_at call_at check_rate_limit prune
times_allowed = refl

calls_at_within_limit_example :
    let s = calls_at frugal times start in length (prune (10 * second) s.last s.allowed) ≤ 2
calls_at_within_limit_example = calls_at_within_limit frugal times (ground arith)

abbrev one_call : Window
one_call = record { scores = 5 * second ∷ []; expires_at = 15 * second }

abbrev undelivered : Delivery
undelivered = record {
  event_delivery_id = 1;
  endpoint_id = 2;
  consumer_id = 3;
  event_id = 4;
  event_type = b'p' ∷ b'.' ∷ b'c' ∷ [];
  merchant_id = 5;
  payload = record {
    event_id = 4;
    event_type = b'p' ∷ b'.' ∷ b'c' ∷ [];
    merchant_id = 5;
    event_data = "{}";
    created_at = 0;
  };
  status = failed;
  attempts = 1;
  last_status_code = some 503;
  last_response = "";
  next_retry_at = none;
  updated_at = 0;
}

abbrev hub : Hub
hub = record {
  endpoints =
      record {
        endpoint_id = 2;
        consumer_id = 3;
        for_merchant = none;
        url = "https://example.com/hook";
        event_types = (b'p' ∷ b'.' ∷ b'*' ∷ []) ∷ [];
        signing_secret = "whsec_1";
        status = EndpointStatus.active;
        metadata = "{}";
      }
      ∷ [];
  deliveries = undelivered ∷ [];
  dead_letters = [];
}

-- An endpoint that never answers.
abbrev draws : ℕ → Draw
draws n = record {
  now = n;
  next_dlq_id = n;
  jittered = λ seconds. seconds;
  cut = λ text. text;
  exceeded = λ attempts. "Max retries exceeded";
  reply = raised "timeout";
  logs = true;
}

retry_ends_example : (hub' : Hub) × (retry_until 7 draws 1 hub ≡ some hub') × Settled 1 hub'
retry_ends_example = retry_ends draws 1 hub undelivered refl (λ n. refl)

-- Five more attempts, then the dead letter queue.
draws_end : (hub' : Hub) × (retry_until 6 draws 1 hub ≡ some hub') × (length hub'.dead_letters ≡ 1)
unfolding retry_until retry_delivery attempt_delivery move_to_dlq
draws_end = (_, refl, refl)

-- The pattern `p.*` and the type `p.c`.
matches_event_type_iff_example :
    (matches_event_type ((b'p' ∷ b'.' ∷ b'*' ∷ []) ∷ []) (b'p' ∷ b'.' ∷ b'c' ∷ []) ≡ true)
    ↔ SubscribesAny ((b'p' ∷ b'.' ∷ b'*' ∷ []) ∷ []) (b'p' ∷ b'.' ∷ b'c' ∷ [])
matches_event_type_iff_example =
    matches_event_type_iff ((b'p' ∷ b'.' ∷ b'*' ∷ []) ∷ []) (b'p' ∷ b'.' ∷ b'c' ∷ [])

abbrev event : Event
event = record {
  event_id = 4;
  event_type = b'p' ∷ b'.' ∷ b'c' ∷ [];
  merchant_id = 5;
  payload = "{}";
}

-- The second endpoint answers with a NUL, so that its row is refused.
abbrev post_to : Endpoint → Post
post_to e = record {
  event_delivery_id = 9;
  now = 9;
  cut = λ text. text;
  reply = if e.endpoint_id == 2 then answered 204 "" else raised "timeout";
  logs = e.endpoint_id == 2;
}

-- Every consumer is active, and has access to merchant 5.
abbrev any_consumer : ℕ → Bool
any_consumer consumer = true

abbrev only_five : ℕ → ℕ → Bool
only_five consumer merchant = merchant == 5

abbrev one_more : Endpoint → Endpoint
one_more e = record e { endpoint_id = 7; for_merchant = some 5 }

abbrev run : Run
run = record {
  hub = record hub { endpoints = hub.endpoints ++ map one_more hub.endpoints };
  posted = [];
}

process_event-Delivered_example :
    Delivered any_consumer only_five post_to event
      (eligible_of any_consumer only_five post_to event run.hub.endpoints)
      run
      (process_event any_consumer only_five post_to event run)
process_event-Delivered_example =
    process_event-Delivered any_consumer only_five post_to event run refl (omega arith)

-- Two POSTs and one row.
run_posts :
    let run' = process_event any_consumer only_five post_to event run in
    (map Posted.endpoint_id run'.posted ≡ 2 ∷ 7 ∷ [])
    × (map Delivery.endpoint_id run'.hub.deliveries ≡ 2 ∷ 2 ∷ [])
unfolding process_event get_active_endpoints_for_event dispatch_all dispatch_webhook
    matches_event_type
run_posts = (refl, refl)

-- Consumer 8 tries to remove the endpoint of consumer 3, and consumer 3 removes it while a delivery
-- refers to it.
operate_isolates_example :
    endpoints_of 3 (operate 8 (remove 2) hub).endpoints ≡ endpoints_of 3 hub.endpoints
operate_isolates_example = operate_isolates 8 3 (remove 2) hub (omega arith)

delete_refused : delete_endpoint 2 3 hub ≡ none
unfolding delete_endpoint
delete_refused = refl

abbrev dead : DeadLetter
dead = record {
  dlq_id = 6;
  endpoint_id = 2;
  consumer_id = 3;
  event_id = 4;
  merchant_id = 5;
  payload = record {
    event_id = 4;
    event_type = b'p' ∷ b'.' ∷ b'c' ∷ [];
    merchant_id = 5;
    event_data = "{}";
    created_at = 0;
  };
  failure_reason = "Max retries exceeded";
  max_attempts = 6;
}

abbrev full_hub : Hub
full_hub = record hub { dead_letters = dead ∷ [] }
