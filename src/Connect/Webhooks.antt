-- ===== src/Connect/Webhooks.antt =====
-- src/services/tp_webhook_service.py and src/tasks/tp_webhook_retry_task.py of
-- services/connect-service: webhook endpoints, deliveries and the dead letter queue.
pub mod Retrying
pub mod Dispatching
pub mod Owners
use multi_tenant_event_drive.Prelude.{
  ℕ, suc, ◌+◌, ◌<◌, String, Bool, true, false, not, ◌&&◌, ◌||◌, Option, none, some, List, [], ◌∷◌,
  ◌++◌, ltb, leb, ◌==◌, is_some, if◌then◌else◌,
}
use multi_tenant_event_drive.Prelude.Table.{find, has, update}

pub data EndpointStatus : Type 0 where
  pending_verification : EndpointStatus
  active : EndpointStatus
  disabled : EndpointStatus

pub record Endpoint : Type 0 where
  pub endpoint_id : ℕ
  pub consumer_id : ℕ
  pub for_merchant : Option ℕ
  pub url : String
  pub event_types : List (List ℕ)
  pub signing_secret : String
  pub status : EndpointStatus
  pub metadata : String

pub data DeliveryStatus : Type 0 where
  waiting : DeliveryStatus
  delivered : DeliveryStatus
  failed : DeliveryStatus
  dlq : DeliveryStatus

-- The body of a POST, which is the `payload` of its row; `event_data` is its key "data", the payload of the
-- event.
pub record Envelope : Type 0 where
  pub event_id : ℕ
  pub event_type : List ℕ
  pub merchant_id : ℕ
  pub event_data : String
  pub created_at : ℕ

-- A row of `tp_webhook_events`.
pub record Delivery : Type 0 where
  pub event_delivery_id : ℕ
  pub endpoint_id : ℕ
  pub consumer_id : ℕ
  pub event_id : ℕ
  pub event_type : List ℕ
  pub merchant_id : ℕ
  pub payload : Envelope
  pub status : DeliveryStatus
  pub attempts : ℕ
  pub last_status_code : Option ℕ
  pub last_response : String
  pub next_retry_at : Option ℕ
  pub updated_at : ℕ

-- A row of `tp_dead_letter_queue`.
pub record DeadLetter : Type 0 where
  pub dlq_id : ℕ
  pub endpoint_id : ℕ
  pub consumer_id : ℕ
  pub event_id : ℕ
  pub merchant_id : ℕ
  pub payload : Envelope
  pub failure_reason : String
  pub max_attempts : ℕ

pub record Hub : Type 0 where
  pub endpoints : List Endpoint
  pub deliveries : List Delivery
  pub dead_letters : List DeadLetter

-- What the POST to an endpoint comes to: an answer, or an exception with its message.
pub data Reply : Type 0 where
  answered : ℕ → String → Reply
  raised : String → Reply

-- What a dispatch returns.
pub record Dispatched : Type 0 where
  pub status : DeliveryStatus
  pub status_code : Option ℕ
  pub response_body : String

abbrev pub is_active : EndpointStatus → Bool
is_active active = true
is_active pending_verification = false
is_active disabled = false

abbrev pub is_success : ℕ → Bool
is_success code = leb 200 code && ltb code 300

-- `cut` is response.text[:500].
abbrev pub outcome_of : (String → String) → Reply → Dispatched
outcome_of cut (answered code body) = record {
  status = if is_success code then delivered else failed;
  status_code = some code;
  response_body = cut body;
}
outcome_of cut (raised message) = record {
  status = failed;
  status_code = none;
  response_body = cut message;
}

abbrev pub is_delivered : DeliveryStatus → Bool
is_delivered delivered = true
is_delivered waiting = false
is_delivered failed = false
is_delivered dlq = false

abbrev pub max_retries : ℕ
max_retries = 6

-- RETRY_DELAYS, with the default of `get`
abbrev pub base_delay : ℕ → ℕ
base_delay attempt =
    if attempt == 2
    then 30
    else if attempt == 3
    then 300
    else if attempt == 4
    then 1800
    else if attempt == 5
    then 7200
    else 86400

-- `jittered` is int(base_delay * random.uniform(0.8, 1.2)).
abbrev pub get_retry_delay : (ℕ → ℕ) → ℕ → ℕ
get_retry_delay jittered attempt = jittered (base_delay attempt)

abbrev pub dead_letter_of : ℕ → String → Delivery → DeadLetter
dead_letter_of dlq_id failure_reason d = record {
  dlq_id = dlq_id;
  endpoint_id = d.endpoint_id;
  consumer_id = d.consumer_id;
  event_id = d.event_id;
  merchant_id = d.merchant_id;
  payload = d.payload;
  failure_reason = failure_reason;
  max_attempts = d.attempts;
}

-- The id of the new row is the database's.
unfoldable pub move_to_dlq : ℕ → ℕ → ℕ → String → Hub → Hub
move_to_dlq dlq_id now id failure_reason hub =
    elim (find Delivery.event_delivery_id id hub.deliveries) [
      | none ↦ hub
      | some d ↦ record hub {
        dead_letters = hub.dead_letters ++ dead_letter_of dlq_id failure_reason d ∷ [];
        deliveries =
            update Delivery.event_delivery_id id (λ x. record x { status = dlq; updated_at = now })
              hub.deliveries;
      }
    ]

-- What one run draws and meets: the clock, the next id of the dead letter queue, the jitter, the
-- first 500 characters of a text, the text "Max retries exceeded after … attempts", the POST's
-- reply, and whether the UPDATE with that reply succeeds (PostgreSQL refuses a text with a NUL).
pub record Draw : Type 0 where
  pub now : ℕ
  pub next_dlq_id : ℕ
  pub jittered : ℕ → ℕ
  pub cut : String → String
  pub exceeded : ℕ → String
  pub reply : Reply
  pub logs : Bool

abbrev pub set_delivered : ℕ → ℕ → Dispatched → Delivery → Delivery
set_delivered now attempt result d = record d {
  status = delivered;
  attempts = attempt;
  last_status_code = result.status_code;
  last_response = result.response_body;
  updated_at = now;
}

abbrev pub set_retry : ℕ → ℕ → ℕ → Dispatched → Delivery → Delivery
set_retry now attempt delay result d = record d {
  attempts = attempt;
  last_status_code = result.status_code;
  last_response = result.response_body;
  next_retry_at = some (now + delay);
  updated_at = now;
}

-- The endpoint of a delivery, when it is there and active.
abbrev pub usable : Option Endpoint → Bool
usable none = false
usable (some e) = is_active e.status

-- The POST and the update of the row; the delay says that the task was scheduled again. Where the
-- UPDATE raises, the task ends there.
unfoldable pub attempt_delivery : Draw → ℕ → ℕ → Hub → Option ℕ × Hub
attempt_delivery draw id attempt hub =
    let result = outcome_of draw.cut draw.reply in
    let delay = get_retry_delay draw.jittered (attempt + 1) in
    if not draw.logs
    then (none, hub)
    else if is_delivered result.status
    then (
      none,
      record hub {
        deliveries =
            update Delivery.event_delivery_id id (set_delivered draw.now attempt result)
              hub.deliveries;
      },
    )
    else (
      some delay,
      record hub {
        deliveries =
            update Delivery.event_delivery_id id (set_retry draw.now attempt delay result)
              hub.deliveries;
      },
    )

unfoldable pub retry_delivery : Draw → ℕ → Hub → Option ℕ × Hub
unfolding move_to_dlq attempt_delivery
retry_delivery draw id hub = elim (find Delivery.event_delivery_id id hub.deliveries) [
  | none ↦ (none, hub)
  | some event ↦
      let attempt = event.attempts + 1 in
      if ltb max_retries attempt
      then (none, move_to_dlq draw.next_dlq_id draw.now id (draw.exceeded event.attempts) hub)
      else if not (usable (find Endpoint.endpoint_id event.endpoint_id hub.endpoints))
      then (none, move_to_dlq draw.next_dlq_id draw.now id "Endpoint disabled or deleted" hub)
      else attempt_delivery draw id attempt hub
]
