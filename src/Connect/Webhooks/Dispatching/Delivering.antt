-- ===== src/Connect/Webhooks/Dispatching/Delivering.antt =====
-- To whom an event is posted, and what the log of deliveries says of it.
use multi_tenant_event_drive.Prelude.{
  ℕ, ◌≡◌, refl, sym, ◌∙◌, ◌<◌, ◌≤◌, ◌⊎◌, inl, inr, String, Bool, true, false, ◌&&◌, none, some,
  List, [], ◌∷◌, ◌++◌, arith, ◌==◌, Bool-cases, if◌then◌else◌,
}
use mathlib.Core.List.{append-nil, append_assoc}
use multi_tenant_event_drive.Connect.EventTypes.{matches_event_type}
use multi_tenant_event_drive.Connect.Webhooks.{
  Endpoint, Delivery, Reply, answered, raised, delivered, failed, is_active, is_success, outcome_of,
}
use multi_tenant_event_drive.Connect.Webhooks.Dispatching.{
  Event, Post, Posted, Run, envelope_of, delivery_of, make_post, insert_delivery, dispatch_webhook,
  is_empty, get_active_endpoints_for_event, may_have, dispatch_all, process_event,
}

-- The POST of an event to an endpoint.
pub record PostOf (event : Event) (e : Endpoint) (p : Posted) : Type 0 where
  pub to_endpoint : p.endpoint_id ≡ e.endpoint_id
  pub to_url : p.url ≡ e.url
  pub has_event : p.body.event_id ≡ event.event_id
  pub has_type : p.body.event_type ≡ event.event_type
  pub has_merchant : p.body.merchant_id ≡ event.merchant_id
  pub has_payload : p.body.event_data ≡ event.payload

abbrev pub Took : Reply → Type 0
Took (answered code body) = (200 ≤ code) × (code < 300)
Took (raised message) = ⊥

-- The row of a POST, for the reply that it met.
pub record RowOf (event : Event) (e : Endpoint) (p : Posted) (reply : Reply) (d : Delivery)
    : Type 0 where
  pub of_post : d.event_delivery_id ≡ p.event_delivery_id
  pub of_endpoint : d.endpoint_id ≡ e.endpoint_id
  pub of_consumer : d.consumer_id ≡ e.consumer_id
  pub of_event : d.event_id ≡ event.event_id
  pub of_type : d.event_type ≡ event.event_type
  pub of_merchant : d.merchant_id ≡ event.merchant_id
  pub body_kept : d.payload ≡ p.body
  pub once : d.attempts ≡ 1
  pub judged : (Took reply × (d.status ≡ delivered)) ⊎ ((Took reply → ⊥) × (d.status ≡ failed))

abbrev post_of : Post → Endpoint → Event → Posted
post_of post e event = record {
  event_delivery_id = post.event_delivery_id;
  endpoint_id = e.endpoint_id;
  url = e.url;
  body = envelope_of post.now event;
}

post_of-PostOf :
    (post : Post) (e : Endpoint) (event : Event) → PostOf event e (post_of post e event)
post_of-PostOf post e event = record {
  to_endpoint = refl;
  to_url = refl;
  has_event = refl;
  has_type = refl;
  has_merchant = refl;
  has_payload = refl;
}

outcome_judged :
    (cut : String → String) (reply : Reply)
    → (Took reply × ((outcome_of cut reply).status ≡ delivered))
      ⊎ ((Took reply → ⊥) × ((outcome_of cut reply).status ≡ failed))
outcome_judged cut (answered code body) = elim (Bool-cases (is_success code)) [
  | inl ok ↦ inl ((ground arith, ground arith), rw ok refl)
  | inr bad ↦ inr ((λ took. ground arith), rw bad refl)
]
outcome_judged cut (raised message) = inr ((λ took. took), refl)

abbrev row_of : Post → Endpoint → Event → Delivery
row_of post e event =
    delivery_of post.event_delivery_id post.now e event (outcome_of post.cut post.reply)

row_of-RowOf :
    (post : Post) (e : Endpoint) (event : Event)
    → RowOf event e (post_of post e event) post.reply (row_of post e event)
row_of-RowOf post e event = record {
  of_post = refl;
  of_endpoint = refl;
  of_consumer = refl;
  of_event = refl;
  of_type = refl;
  of_merchant = refl;
  body_kept = refl;
  once = refl;
  judged = outcome_judged post.cut post.reply;
}

-- `consumer_active` says which consumers have status 'active', `has_access` is check_merchant_access,
-- and `posts` is what the dispatch to each endpoint draws.
module _ (consumer_active : ℕ → Bool) (has_access : ℕ → ℕ → Bool) (posts : Endpoint → Post) where
  -- Who should get an event: an active endpoint of an active consumer that subscribes to its type,
  -- and is registered for its merchant, or for all of them with access to this one.
  abbrev pub eligible : Event → Endpoint → Bool
  eligible event e =
      is_active e.status
      && (consumer_active e.consumer_id
          && (matches_event_type e.event_types event.event_type && elim e.for_merchant [
            | none ↦ has_access e.consumer_id event.merchant_id
            | some m ↦ m == event.merchant_id
          ]))

  abbrev pub eligible_of : Event → List Endpoint → List Endpoint
  eligible_of event [] = []
  eligible_of event (e ∷ es) =
      let rest = eligible_of event es in if eligible event e then e ∷ rest else rest

  abbrev with_access : ℕ → List Endpoint → List Endpoint
  with_access merchant_id [] = []
  with_access merchant_id (e ∷ es) =
      let rest = with_access merchant_id es in
      if may_have consumer_active has_access posts e merchant_id then e ∷ rest else rest

  -- The POSTs and the rows of an event for these endpoints, in order: one POST to each, and its row
  -- unless the INSERT raised.
  pub data Logged (event : Event) : List Endpoint → List Posted → List Delivery → Type 0 where
    nobody : Logged event [] [] []
    logged :
        {e : Endpoint} {es : List Endpoint} {p : Posted} {ps : List Posted} {d : Delivery}
        {ds : List Delivery}
        → PostOf event e p
        → (posts e).logs ≡ true
        → RowOf event e p (posts e).reply d
        → Logged event es ps ds
        → Logged event (e ∷ es) (p ∷ ps) (d ∷ ds)
    unlogged :
        {e : Endpoint} {es : List Endpoint} {p : Posted} {ps : List Posted} {ds : List Delivery}
        → PostOf event e p
        → (posts e).logs ≡ false
        → Logged event es ps ds
        → Logged event (e ∷ es) (p ∷ ps) ds

  -- What an event for these endpoints adds; endpoints and dead letters stay as they are.
  pub record Delivered (event : Event) (es : List Endpoint) (before after : Run) : Type 0 where
    pub new_posts : List Posted
    pub rows : List Delivery
    pub sent : after.posted ≡ before.posted ++ new_posts
    pub appended : after.hub.deliveries ≡ before.hub.deliveries ++ rows
    pub matched : Logged event es new_posts rows
    pub endpoints_kept : after.hub.endpoints ≡ before.hub.endpoints
    pub letters_kept : after.hub.dead_letters ≡ before.hub.dead_letters

  dispatch_all-Delivered :
      (es : List Endpoint) (event : Event) (run : Run)
      → Delivered event
          (with_access event.merchant_id es)
          run
          (dispatch_all consumer_active has_access posts es event run)
  unfolding dispatch_all dispatch_webhook
  dispatch_all-Delivered [] event run = record {
    new_posts = [];
    rows = [];
    sent = sym (append-nil run.posted);
    appended = sym (append-nil run.hub.deliveries);
    matched = nobody;
    endpoints_kept = refl;
    letters_kept = refl;
  }
  dispatch_all-Delivered (e ∷ es) event run =
      elim (Bool-cases (may_have consumer_active has_access posts e event.merchant_id)) [
        | inr no_access ↦ rw (no_access, dispatch_all) (dispatch_all-Delivered es event run)
        | inl access ↦
            let run' = make_post (posts e) e event run in
            elim (Bool-cases (posts e).logs) [
              | inr refused ↦
                  let rest = dispatch_all-Delivered es event run' in
                  rw (access, refused, dispatch_all, dispatch_webhook)
                    (record {
                      new_posts = post_of (posts e) e event ∷ rest.new_posts;
                      rows = rest.rows;
                      sent = rest.sent ∙ append_assoc run.posted _ rest.new_posts;
                      appended = rest.appended;
                      matched = unlogged (post_of-PostOf (posts e) e event) refused rest.matched;
                      endpoints_kept = rest.endpoints_kept;
                      letters_kept = rest.letters_kept;
                    })
              | inl stored ↦
                  let d = row_of (posts e) e event in
                  let rest = dispatch_all-Delivered es event (insert_delivery d run') in
                  rw (access, stored, dispatch_all, dispatch_webhook)
                    (record {
                      new_posts = post_of (posts e) e event ∷ rest.new_posts;
                      rows = d ∷ rest.rows;
                      sent = rest.sent ∙ append_assoc run.posted _ rest.new_posts;
                      appended = rest.appended ∙ append_assoc run.hub.deliveries (d ∷ []) rest.rows;
                      matched =
                          logged (post_of-PostOf (posts e) e event) stored
                            (row_of-RowOf (posts e) e event) rest.matched;
                      endpoints_kept = rest.endpoints_kept;
                      letters_kept = rest.letters_kept;
                    })
            ]
      ]

  -- The query, the filter and the check of access are the one condition.
  access-eligible :
      (event : Event) (es : List Endpoint)
      → with_access event.merchant_id (
          get_active_endpoints_for_event consumer_active has_access posts event.event_type
            event.merchant_id es)
        ≡ eligible_of event es
  unfolding get_active_endpoints_for_event
  access-eligible event [] = refl
  access-eligible event (e ∷ es) = ground (arith, access-eligible event es)

  -- An event with a type and a merchant is posted once to each eligible endpoint, in order, and to no
  -- other, with its id, type, merchant and payload. Each POST whose INSERT succeeds has one new row with
  -- that body: delivered if the answer was a 2xx, and failed otherwise; no other row is added.
  pub process_event-Delivered :
      (event : Event) (run : Run)
      → is_empty event.event_type ≡ false
      → 0 < event.merchant_id
      → Delivered event
          (eligible_of event run.hub.endpoints)
          run
          (process_event consumer_active has_access posts event run)
  unfolding process_event
  process_event-Delivered event run typed owned =
      let some_merchant : (event.merchant_id == 0) ≡ false = ground arith in
      rw (typed, some_merchant, process_event, sym (access-eligible event run.hub.endpoints))
        (dispatch_all-Delivered
          (get_active_endpoints_for_event consumer_active has_access posts event.event_type
            event.merchant_id run.hub.endpoints)
          event run)
