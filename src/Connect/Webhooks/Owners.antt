-- ===== src/Connect/Webhooks/Owners.antt =====
-- The endpoint management of src/services/tp_webhook_service.py, and the retry of a dead letter of
-- src/tasks/tp_webhook_retry_task.py (services/connect-service).
use multi_tenant_event_drive.Prelude.{
  ℕ, ◌≡◌, refl, ◌≢◌, ◌⊎◌, String, Bool, true, false, not, ◌&&◌, ◌||◌, Option, inl, inr, Bool-cases,
  none, some, List, [], ◌∷◌, ◌++◌, arith, ◌==◌, or_else, if◌then◌else◌,
}
use multi_tenant_event_drive.Prelude.Table.{find, has, delete}
use multi_tenant_event_drive.Connect.Webhooks.{
  Hub, Delivery, Endpoint, EndpointStatus, active, pending_verification, DeadLetter, Draw,
  outcome_of, is_delivered, usable,
}

-- What `create_endpoint` draws: the row's UUID, the signing secret, whether TP_WEBHOOK_VERIFY_ON_CREATE
-- is set, and whether the ping was answered with a 2xx.
pub record NewEndpoint : Type 0 where
  pub endpoint_id : ℕ
  pub signing_secret : String
  pub verify_on_create : Bool
  pub verified : Bool

unfoldable pub create_endpoint :
    NewEndpoint
    → ℕ
    → String
    → List (List ℕ)
    → Option ℕ
    → Option String
    → List Endpoint
    → List Endpoint
create_endpoint new consumer_id url event_types merchant_id metadata es =
    es
    ++ record {
      endpoint_id = new.endpoint_id;
      consumer_id = consumer_id;
      for_merchant = merchant_id;
      url = url;
      event_types = event_types;
      signing_secret = new.signing_secret;
      status = if new.verify_on_create && new.verified then active else pending_verification;
      metadata = or_else metadata "{}";
    }
      ∷ []

-- WHERE endpoint_id = $1 AND consumer_id = $2
abbrev pub is_owned : ℕ → ℕ → Endpoint → Bool
is_owned endpoint_id consumer_id e =
    (e.endpoint_id == endpoint_id) && (e.consumer_id == consumer_id)

-- The keyword arguments of `update_endpoint`; one that is None is left out.
pub record EndpointUpdate : Type 0 where
  pub url : Option String
  pub event_types : Option (List (List ℕ))
  pub metadata : Option String
  pub status : Option EndpointStatus

abbrev pub set_endpoint : EndpointUpdate → Endpoint → Endpoint
set_endpoint change e = record e {
  url = or_else change.url e.url;
  event_types = or_else change.event_types e.event_types;
  metadata = or_else change.metadata e.metadata;
  status = or_else change.status e.status;
}

unfoldable pub update_endpoint : ℕ → ℕ → EndpointUpdate → List Endpoint → List Endpoint
update_endpoint endpoint_id consumer_id change [] = []
update_endpoint endpoint_id consumer_id change (e ∷ es) =
    (if is_owned endpoint_id consumer_id e then set_endpoint change e else e)
    ∷ update_endpoint endpoint_id consumer_id change es

abbrev pub without : ℕ → ℕ → List Endpoint → List Endpoint
without endpoint_id consumer_id [] = []
without endpoint_id consumer_id (e ∷ es) =
    let rest = without endpoint_id consumer_id es in
    if is_owned endpoint_id consumer_id e then rest else e ∷ rest

abbrev pub owns : ℕ → ℕ → List Endpoint → Bool
owns endpoint_id consumer_id [] = false
owns endpoint_id consumer_id (e ∷ es) =
    if is_owned endpoint_id consumer_id e then true else owns endpoint_id consumer_id es

-- The foreign keys of `tp_webhook_events` and `tp_dead_letter_queue`
abbrev pub is_referenced : ℕ → Hub → Bool
is_referenced endpoint_id hub =
    has Delivery.endpoint_id endpoint_id hub.deliveries
    || has DeadLetter.endpoint_id endpoint_id hub.dead_letters

-- Whether a row was deleted; `none` where the DELETE of a row that is referred to raises.
unfoldable pub delete_endpoint : ℕ → ℕ → Hub → Option (Bool × Hub)
delete_endpoint endpoint_id consumer_id hub =
    if owns endpoint_id consumer_id hub.endpoints && is_referenced endpoint_id hub
    then none
    else some (
      owns endpoint_id consumer_id hub.endpoints,
      record hub { endpoints = without endpoint_id consumer_id hub.endpoints },
    )

-- get_consumer_endpoints, without its order
unfoldable pub endpoints_of : ℕ → List Endpoint → List Endpoint
endpoints_of consumer_id [] = []
endpoints_of consumer_id (e ∷ es) =
    let rest = endpoints_of consumer_id es in
    if e.consumer_id == consumer_id then e ∷ rest else rest

pub data Operation : Type 0 where
  create : NewEndpoint → String → List (List ℕ) → Option ℕ → Option String → Operation
  change : ℕ → EndpointUpdate → Operation
  remove : ℕ → Operation

abbrev pub hub_after : Hub → Option (Bool × Hub) → Hub
hub_after hub none = hub
hub_after hub (some (deleted, hub')) = hub'

-- The operations that a consumer may call on its endpoints.
unfoldable pub operate : ℕ → Operation → Hub → Hub
unfolding create_endpoint update_endpoint delete_endpoint
operate consumer_id (create new url event_types merchant_id metadata) hub = record hub {
  endpoints = create_endpoint new consumer_id url event_types merchant_id metadata hub.endpoints;
}
operate consumer_id (change id update) hub = record hub {
  endpoints = update_endpoint id consumer_id update hub.endpoints;
}
operate consumer_id (remove id) hub = hub_after hub (delete_endpoint id consumer_id hub)

created_isolates :
    (consumer_id other : ℕ) (new : NewEndpoint) (url : String) (event_types : List (List ℕ))
    (merchant_id : Option ℕ) (metadata : Option String) (es : List Endpoint)
    → consumer_id ≢ other
    → endpoints_of other (create_endpoint new consumer_id url event_types merchant_id metadata es)
      ≡ endpoints_of other es
unfolding endpoints_of create_endpoint
created_isolates c other new url event_types merchant_id metadata [] ne = ground arith
created_isolates c other new url event_types merchant_id metadata (e ∷ es) ne =
    ground (arith, created_isolates c other new url event_types merchant_id metadata es ne)

updated_isolates :
    (consumer_id other endpoint_id : ℕ) (change : EndpointUpdate) (es : List Endpoint)
    → consumer_id ≢ other
    → endpoints_of other (update_endpoint endpoint_id consumer_id change es) ≡ endpoints_of other es
unfolding endpoints_of update_endpoint
updated_isolates c other id update [] ne = refl
updated_isolates c other id update (e ∷ es) ne =
    ground (arith, updated_isolates c other id update es ne)

without_isolates :
    (consumer_id other endpoint_id : ℕ) (es : List Endpoint)
    → consumer_id ≢ other
    → endpoints_of other (without endpoint_id consumer_id es) ≡ endpoints_of other es
unfolding endpoints_of
without_isolates c other id [] ne = refl
without_isolates c other id (e ∷ es) ne = ground (arith, without_isolates c other id es ne)

-- Whatever a consumer does to its endpoints, the endpoints of another consumer stay as they are.
pub operate_isolates :
    (consumer_id other : ℕ) (operation : Operation) (hub : Hub)
    → consumer_id ≢ other
    → endpoints_of other (operate consumer_id operation hub).endpoints
      ≡ endpoints_of other hub.endpoints
unfolding operate delete_endpoint
operate_isolates c other (create new url event_types merchant_id metadata) hub ne =
    created_isolates c other new url event_types merchant_id metadata hub.endpoints ne
operate_isolates c other (change id update) hub ne =
    updated_isolates c other id update hub.endpoints ne
operate_isolates c other (remove id) hub ne =
    elim (Bool-cases (owns id c hub.endpoints && is_referenced id hub)) [
      | inl held ↦ rw (held, operate, delete_endpoint) refl
      | inr free ↦
          rw (free, operate, delete_endpoint) (without_isolates c other id hub.endpoints ne)
    ]

-- _dlq_retry: the row of the dead letter queue is deleted when the endpoint took the event.
unfoldable pub dlq_retry : Draw → ℕ → Hub → Hub
dlq_retry draw dlq_id hub = elim (find DeadLetter.dlq_id dlq_id hub.dead_letters) [
  | none ↦ hub
  | some letter ↦
      if not (usable (find Endpoint.endpoint_id letter.endpoint_id hub.endpoints))
      then hub
      else if is_delivered (outcome_of draw.cut draw.reply).status
      then record hub { dead_letters = delete DeadLetter.dlq_id dlq_id hub.dead_letters }
      else hub
]

-- A dead letter is lost only by a retry of it that an active endpoint answered with a 2xx; nothing
-- else of the state changes.
dlq_retry_decides :
    (draw : Draw) (dlq_id : ℕ) (hub : Hub) (letter : DeadLetter)
    → find DeadLetter.dlq_id dlq_id hub.dead_letters ≡ some letter
    → let delivers =
        usable (find Endpoint.endpoint_id letter.endpoint_id hub.endpoints)
        && is_delivered (outcome_of draw.cut draw.reply).status in
      ((delivers ≡ true)
        × (dlq_retry draw dlq_id hub
            ≡ record hub { dead_letters = delete DeadLetter.dlq_id dlq_id hub.dead_letters }))
      ⊎ ((delivers ≡ false) × (dlq_retry draw dlq_id hub ≡ hub))
unfolding dlq_retry
dlq_retry_decides draw dlq_id hub letter found = ground arith
