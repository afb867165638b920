-- ===== src/Connect/Webhooks/Dispatching.antt =====
-- dispatch_webhook and get_active_endpoints_for_event of src/services/tp_webhook_service.py and
-- _process_event of src/consumers/tp_webhook_consumer.py, of services/connect-service: to which
-- endpoints an event goes.
pub mod Delivering
use multi_tenant_event_drive.Prelude.{
  ℕ, ◌≡◌, refl, sym, ◌∙◌, ◌<◌, ◌≤◌, ◌⊎◌, inl, inr, String, Bool, true, false, ◌&&◌, ◌||◌, Option,
  none, some, List, [], ◌∷◌, ◌++◌, arith, ◌==◌, Bool-cases, if◌then◌else◌,
}
use mathlib.Core.List.{append-nil, append_assoc}
use multi_tenant_event_drive.Connect.EventTypes.{matches_event_type}
use multi_tenant_event_drive.Connect.Webhooks.{
  Hub, Endpoint, Delivery, Envelope, Reply, answered, raised, Dispatched, delivered, failed,
  is_active, is_success, outcome_of,
}

-- An event of the topic, as far as the dispatch reads it.
pub record Event : Type 0 where
  pub event_id : ℕ
  pub event_type : List ℕ
  pub merchant_id : ℕ
  pub payload : String

-- The body of the POST.
abbrev pub envelope_of : ℕ → Event → Envelope
envelope_of now event = record {
  event_id = event.event_id;
  event_type = event.event_type;
  merchant_id = event.merchant_id;
  event_data = event.payload;
  created_at = now;
}

-- The row that a dispatch inserts: the first attempt has been made.
abbrev pub delivery_of : ℕ → ℕ → Endpoint → Event → Dispatched → Delivery
delivery_of event_delivery_id now endpoint event result = record {
  event_delivery_id = event_delivery_id;
  endpoint_id = endpoint.endpoint_id;
  consumer_id = endpoint.consumer_id;
  event_id = event.event_id;
  event_type = event.event_type;
  merchant_id = event.merchant_id;
  payload = envelope_of now event;
  status = result.status;
  attempts = 1;
  last_status_code = result.status_code;
  last_response = result.response_body;
  next_retry_at = none;
  updated_at = now;
}

-- What one dispatch draws and meets: the delivery's UUID, the clock, the first 500 characters of a
-- text, the endpoint's reply, and whether the INSERT succeeds (PostgreSQL refuses a text with a NUL).
pub record Post : Type 0 where
  pub event_delivery_id : ℕ
  pub now : ℕ
  pub cut : String → String
  pub reply : Reply
  pub logs : Bool

-- A POST that was made: the header X-Webhook-Id, the endpoint and the body.
pub record Posted : Type 0 where
  pub event_delivery_id : ℕ
  pub endpoint_id : ℕ
  pub url : String
  pub body : Envelope

-- The tables, and the POSTs that were made so far.
pub record Run : Type 0 where
  pub hub : Hub
  pub posted : List Posted

abbrev pub make_post : Post → Endpoint → Event → Run → Run
make_post post endpoint event run = record run {
  posted =
      run.posted
      ++ record {
        event_delivery_id = post.event_delivery_id;
        endpoint_id = endpoint.endpoint_id;
        url = endpoint.url;
        body = envelope_of post.now event;
      }
        ∷ [];
}

abbrev pub insert_delivery : Delivery → Run → Run
insert_delivery d run = record run {
  hub = record run.hub { deliveries = run.hub.deliveries ++ d ∷ [] };
}

-- The POST, and then the INSERT of its row; `none` where the INSERT raises.
unfoldable pub dispatch_webhook : Post → Endpoint → Event → Run → Option Dispatched × Run
dispatch_webhook post endpoint event run =
    let result = outcome_of post.cut post.reply in
    let run' = make_post post endpoint event run in
    if post.logs
    then (
      some result,
      insert_delivery (delivery_of post.event_delivery_id post.now endpoint event result) run',
    )
    else (none, run')

abbrev pub is_empty : List ℕ → Bool
is_empty [] = true
is_empty (c ∷ t) = false

-- e.merchant_id IS NULL OR e.merchant_id = $1
abbrev pub for_this : Option ℕ → ℕ → Bool
for_this none merchant_id = true
for_this (some m) merchant_id = m == merchant_id

-- `consumer_active` says which consumers have status 'active', `has_access` is check_merchant_access,
-- and `posts` is what the dispatch to each endpoint draws.
module _ (consumer_active : ℕ → Bool) (has_access : ℕ → ℕ → Bool) (posts : Endpoint → Post) where
  unfoldable pub get_active_endpoints_for_event : List ℕ → ℕ → List Endpoint → List Endpoint
  get_active_endpoints_for_event event_type merchant_id [] = []
  get_active_endpoints_for_event event_type merchant_id (e ∷ es) =
      let rest = get_active_endpoints_for_event event_type merchant_id es in
      if (is_active e.status
          && (consumer_active e.consumer_id && for_this e.for_merchant merchant_id))
        && matches_event_type e.event_types event_type
      then e ∷ rest
      else rest

  -- The check of `_process_event`: an endpoint for all merchants needs the consumer's access.
  abbrev pub may_have : Endpoint → ℕ → Bool
  may_have e merchant_id = elim e.for_merchant [
    | none ↦ has_access e.consumer_id merchant_id
    | some m ↦ true
  ]

  -- An exception of one dispatch is logged, and the loop goes on.
  unfoldable pub dispatch_all : List Endpoint → Event → Run → Run
  unfolding dispatch_webhook
  dispatch_all [] event run = run
  dispatch_all (e ∷ es) event run =
      dispatch_all es event
        (if may_have e event.merchant_id then (dispatch_webhook (posts e) e event run).1 else run)

  unfoldable pub process_event : Event → Run → Run
  unfolding get_active_endpoints_for_event dispatch_all
  process_event event run =
      if is_empty event.event_type || (event.merchant_id == 0)
      then run
      else dispatch_all
          (get_active_endpoints_for_event event.event_type event.merchant_id run.hub.endpoints)
          event run
