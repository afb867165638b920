-- ===== src/Connect/Webhooks/Retrying.antt =====
-- The retries of a delivery come to an end.
use multi_tenant_event_drive.Prelude.{
  String, ℕ, zero, suc, ◌+◌, ◌≤◌, ◌<◌, ◌≡◌, ◌⊎◌, ◌++◌, List, [], ◌∷◌, refl, subst, inl, inr, true,
  Option, none, some, arith, Bool-cases, Option-cases, ltb, is_some, if◌then◌else◌,
}
use multi_tenant_event_drive.Prelude.Table.{find, find-update_self}
use multi_tenant_event_drive.Connect.Webhooks.{
  Hub, Delivery, DeadLetter, Endpoint, Draw, delivered, dlq, dead_letter_of, max_retries, usable,
  outcome_of, is_delivered, get_retry_delay, set_delivered, set_retry, move_to_dlq,
  attempt_delivery, retry_delivery,
}

-- The task, run again each time that it schedules itself; `none` when the fuel is spent.
unfoldable pub retry_until : ℕ → (ℕ → Draw) → ℕ → Hub → Option Hub
unfolding retry_delivery
retry_until zero draws id hub = none
retry_until (suc fuel) draws id hub =
    let (again, hub') = retry_delivery (draws fuel) id hub in
    let rest = retry_until fuel draws id hub' in if is_some again then rest else some hub'

-- What `id` is in the table, if it satisfies `P`.
abbrev pub Now {κ} : (Delivery → Type κ) → ℕ → Hub → Type κ
Now P id hub = (d : Delivery) × (find Delivery.event_delivery_id id hub.deliveries ≡ some d) × P d

-- The last row of the dead letter queue is the delivery's.
pub record InQueue (d : Delivery) (letters : List DeadLetter) : Type 0 where
  pub earlier : List DeadLetter
  pub letter : DeadLetter
  pub last : letters ≡ earlier ++ letter ∷ []
  pub endpoint_kept : letter.endpoint_id ≡ d.endpoint_id
  pub consumer_kept : letter.consumer_id ≡ d.consumer_id
  pub event_kept : letter.event_id ≡ d.event_id
  pub merchant_kept : letter.merchant_id ≡ d.merchant_id
  pub payload_kept : letter.payload ≡ d.payload
  pub attempts_kept : letter.max_attempts ≡ d.attempts

-- The delivery is delivered, or its status is `dlq` and the dead letter queue has it.
abbrev pub Settled : ℕ → Hub → Type 0
Settled id hub =
    Now (λ d. (d.status ≡ delivered) ⊎ ((d.status ≡ dlq) × InQueue d hub.dead_letters)) id hub

move_to_dlq-settles :
    (dlq_id now id : ℕ) (reason : String) (hub : Hub) (d : Delivery)
    → find Delivery.event_delivery_id id hub.deliveries ≡ some d
    → Settled id (move_to_dlq dlq_id now id reason hub)
unfolding move_to_dlq
move_to_dlq-settles dlq_id now id reason hub d e =
    rw (e, move_to_dlq)
      (
        record d { status = dlq; updated_at = now },
        find-update_self Delivery.event_delivery_id
            (λ x. record x { status = dlq; updated_at = now }) (λ x. refl) id hub.deliveries d e,
        inr (
          refl,
          record {
            earlier = hub.dead_letters;
            letter = dead_letter_of dlq_id reason d;
            last = refl;
            endpoint_kept = refl;
            consumer_kept = refl;
            event_kept = refl;
            merchant_kept = refl;
            payload_kept = refl;
            attempts_kept = refl;
          },
        ),
      )

-- How one attempt ends: the delivery is delivered, or it is tried again with the attempt counted.
abbrev Attempted : ℕ → ℕ → Option ℕ × Hub → Type 0
Attempted id attempt (none, hub) = Settled id hub
Attempted id attempt (some delay, hub) = Now (λ x. x.attempts ≡ attempt) id hub

attempt_delivery-Attempted :
    (draw : Draw) (id attempt : ℕ) (hub : Hub) (d : Delivery)
    → find Delivery.event_delivery_id id hub.deliveries ≡ some d
    → draw.logs ≡ true
    → Attempted id attempt (attempt_delivery draw id attempt hub)
unfolding attempt_delivery
attempt_delivery-Attempted draw id attempt hub d e logged =
    let result = outcome_of draw.cut draw.reply in
    let delay = get_retry_delay draw.jittered (attempt + 1) in
    elim (Bool-cases (is_delivered result.status)) [
      | inl ok ↦
          rw (logged, ok, attempt_delivery)
            (
              set_delivered draw.now attempt result d,
              find-update_self Delivery.event_delivery_id (set_delivered draw.now attempt result)
                  (λ x. refl) id hub.deliveries d e,
              inl refl,
            )
      | inr not_ok ↦
          rw (logged, not_ok, attempt_delivery)
            (
              set_retry draw.now attempt delay result d,
              find-update_self Delivery.event_delivery_id (set_retry draw.now attempt delay result)
                  (λ x. refl) id hub.deliveries d e,
              refl,
            )
    ]

abbrev Ran : ℕ → ℕ → Option ℕ × Hub → Type 0
Ran id attempts (none, hub) = Settled id hub
Ran id attempts (some delay, hub) =
    (attempts < max_retries) × Now (λ x. x.attempts ≡ attempts + 1) id hub

Ran-Attempted :
    (id attempts : ℕ) (out : Option ℕ × Hub)
    → attempts < max_retries
    → Attempted id (attempts + 1) out
    → Ran id attempts out
Ran-Attempted id attempts (none, hub) few a = a
Ran-Attempted id attempts (some delay, hub) few a = (few, a)

retry_delivery-Ran :
    (draw : Draw) (id : ℕ) (hub : Hub) (d : Delivery)
    → find Delivery.event_delivery_id id hub.deliveries ≡ some d
    → draw.logs ≡ true
    → Ran id d.attempts (retry_delivery draw id hub)
unfolding retry_delivery
retry_delivery-Ran draw id hub d e logged = elim (Bool-cases (ltb max_retries (d.attempts + 1))) [
  | inl spent ↦
      rw (e, spent, retry_delivery)
        (move_to_dlq-settles draw.next_dlq_id draw.now id (draw.exceeded d.attempts) hub d e)
  | inr left ↦ elim (Bool-cases (usable (find Endpoint.endpoint_id d.endpoint_id hub.endpoints))) [
    | inr off ↦
        rw (e, left, off, retry_delivery)
          (move_to_dlq-settles draw.next_dlq_id draw.now id "Endpoint disabled or deleted" hub d e)
    | inl on ↦
        rw (e, left, on, retry_delivery)
          (Ran-Attempted id d.attempts (attempt_delivery draw id (d.attempts + 1) hub)
            (ground arith) (attempt_delivery-Attempted draw id (d.attempts + 1) hub d e logged))
  ]
]

-- The result of a run of the tasks, when the fuel is enough.
abbrev Settles : ℕ → Option Hub → Type 0
Settles id none = ⊥
Settles id (some hub) = Settled id hub

retry_until-Settles :
    (fuel : ℕ) (draws : ℕ → Draw) (id : ℕ) (hub : Hub) (d : Delivery)
    → 0 < fuel
    → 7 ≤ fuel + d.attempts
    → find Delivery.event_delivery_id id hub.deliveries ≡ some d
    → ((n : ℕ) → (draws n).logs ≡ true)
    → Settles id (retry_until fuel draws id hub)
unfolding retry_until
retry_until-Settles zero draws id hub d some_fuel enough e logged = omega (arith, some_fuel)
retry_until-Settles (suc fuel) draws id hub d some_fuel enough e logged =
    retried (λ hub'. retry_until fuel draws id hub')
      (λ hub' d' more full e'. retry_until-Settles fuel draws id hub' d' more full e' logged)
      (retry_delivery (draws fuel) id hub)
      (retry_delivery-Ran (draws fuel) id hub d e (logged fuel))
  where
    retried :
        (next : Hub → Option Hub)
        → ((hub' : Hub) (d' : Delivery)
            → 0 < fuel
            → 7 ≤ fuel + d'.attempts
            → find Delivery.event_delivery_id id hub'.deliveries ≡ some d'
            → Settles id (next hub'))
        → (out : Option ℕ × Hub) → Ran id d.attempts out
        → Settles id (if is_some out.0 then next out.1 else some out.1)
    retried next settles (none, hub') r = r
    retried next settles (some delay, hub') (few, (d', found, count)) =
        settles hub' d' (omega (arith, enough, few)) (omega (arith, enough, count)) found

-- Where the UPDATE with the reply never raises, a delivery of the table is settled after at most seven
-- runs of the task, whatever its endpoint answers: the runs come to an end, and its row is then
-- delivered, or its status is `dlq` and the last row of the dead letter queue is the delivery's, with
-- its endpoint, consumer, event, merchant, payload and number of attempts.
pub retry_ends :
    (draws : ℕ → Draw) (id : ℕ) (hub : Hub) (d : Delivery)
    → find Delivery.event_delivery_id id hub.deliveries ≡ some d
    → ((n : ℕ) → (draws n).logs ≡ true)
    → (hub' : Hub) × (retry_until 7 draws id hub ≡ some hub') × Settled id hub'
retry_ends draws id hub d e logged =
    let settles = retry_until-Settles 7 draws id hub d (omega arith) (omega arith) e logged in
    elim (Option-cases (retry_until 7 draws id hub)) [
      | inl none_left ↦ elim (subst (Settles id) none_left settles) [ ]
      | inr (hub', same) ↦ (hub', same, subst (Settles id) same settles)
    ]
