-- ===== src/Core/Outbox/Delivery.antt =====
-- What a run of the outbox task guarantees, and what it does not.
use multi_tenant_event_drive.Prelude.{
  ℕ, ◌≤◌, ◌≡◌, refl, sym, ap, ◌∙◌, inl, inr, true, false, ◌&&◌, List, [], ◌∷◌, ◌++◌, All, take_all,
  length, arith, ==_refl, Bool-cases,
}
use mathlib.Core.List.{append-nil}
use multi_tenant_event_drive.Prelude.Table.{has}
use multi_tenant_event_drive.Core.Rows.{DomainEvent}
use multi_tenant_event_drive.Core.Outbox.{
  is_pending, pending_of, batch_limit, Broker, Outbox, published_count, retry, sent, mark, batch_of,
  publish_pending_events,
}

sent_none :
    (broker : Broker)
    → ((e : DomainEvent) → broker.accepts e ≡ false)
    → (es : List DomainEvent) → sent broker es ≡ []
unfolding sent
sent_none broker h [] = refl
sent_none broker h (e ∷ es) = ground (arith, h e, sent_none broker h es)

-- After `mark`, no event of the batch is pending.
mark-pending :
    (now : ℕ) (batch es : List DomainEvent)
    → All (λ e. has DomainEvent.event_id e.event_id batch ≡ true) (pending_of es)
    → pending_of (mark now batch es) ≡ []
unfolding mark
mark-pending now batch [] h = refl
mark-pending now batch (e ∷ es) h = elim (Bool-cases (is_pending e.status)) [
  | inl waits ↦ let g = rw waits at h in rw (g.0) (mark-pending now batch es g.1)
  | inr done ↦ ground (arith, mark-pending now batch es (rw done at h))
]

-- Every row of a list is found by its id in any list that has the ids of the first.
All-has :
    (es all : List DomainEvent)
    → ((k : ℕ) → has DomainEvent.event_id k es ≡ true → has DomainEvent.event_id k all ≡ true)
    → All (λ e. has DomainEvent.event_id e.event_id all ≡ true) es
All-has [] all h = tt
All-has (e ∷ es) all h = (
  h e.event_id (ground (arith, ==_refl e.event_id)),
  All-has es all (λ k there. h k (ground arith)),
)

none_covered : (es : List DomainEvent) → All (λ e. false ≡ true) es → es ≡ []
none_covered [] h = refl
none_covered (e ∷ es) h = cc (h.0)

-- ORDER BY gives back the rows that it is given.
module _ (ordered : List DomainEvent → List DomainEvent)
    (same_rows : (es : List DomainEvent) (k : ℕ)
      → has DomainEvent.event_id k (ordered es) ≡ has DomainEvent.event_id k es)
    (same_length : (es : List DomainEvent) → length (ordered es) ≡ length es) where
  batch_all :
      (es : List DomainEvent)
      → length (pending_of es) ≤ batch_limit
      → batch_of ordered es ≡ ordered (pending_of es)
  batch_all es few = take_all 50 (ordered (pending_of es)) (rw (same_length (pending_of es)) few)

  batch_covers :
      (es : List DomainEvent)
      → length (pending_of es) ≤ batch_limit
      → All (λ e. has DomainEvent.event_id e.event_id (batch_of ordered es) ≡ true) (pending_of es)
  batch_covers es few = rw (batch_all es few) (
      All-has (pending_of es) (ordered (pending_of es))
        (λ k there. same_rows (pending_of es) k ∙ there))

  run_drains :
      (now : ℕ) (broker : Broker) (s : Outbox) (batch : List DomainEvent)
      → batch_of ordered s.events ≡ batch
      → All (λ e. has DomainEvent.event_id e.event_id batch ≡ true) (pending_of s.events)
      → broker.connects ≡ true
      → broker.flushes ≡ true
      → let (outcome, s') = publish_pending_events ordered now broker s in
        (outcome ≡ published_count (length batch))
        × (pending_of s'.events ≡ [])
        × (s'.topic ≡ s.topic ++ sent broker batch)
  unfolding publish_pending_events
  run_drains now broker s [] e h up flushed =
      rw (e, publish_pending_events)
        (refl, none_covered (pending_of s.events) h, sym (append-nil s.topic))
  run_drains now broker s (x ∷ xs) e h up flushed =
      rw (e, up, flushed, publish_pending_events) (refl, mark-pending now (x ∷ xs) s.events h, refl)

  pub publish_drains :
      (now : ℕ) (broker : Broker) (s : Outbox)
      → length (pending_of s.events) ≤ batch_limit
      → broker.connects ≡ true
      → broker.flushes ≡ true
      → let (outcome, s') = publish_pending_events ordered now broker s in
        (outcome ≡ published_count (length (pending_of s.events)))
        × (pending_of s'.events ≡ [])
        × (s'.topic ≡ s.topic ++ sent broker (ordered (pending_of s.events)))
  publish_drains now broker s few up flushed =
      let (count, drained, topic) =
        run_drains now broker s (batch_of ordered s.events) refl (batch_covers s.events few) up
          flushed in
      let all = batch_all s.events few in
      (
        count
            ∙ ap (λ b. published_count (length b)) all
            ∙ ap published_count (same_length (pending_of s.events)),
        drained,
        topic ∙ ap (λ b. s.topic ++ sent broker b) all,
      )

  -- Where every `send` raises, a run that connects and flushes, with at most 50 pending events, still
  -- reports success: the topic is as it was, and no event is left to be published.
  pub publish_loses :
      (now : ℕ) (broker : Broker) (s : Outbox)
      → length (pending_of s.events) ≤ batch_limit
      → broker.connects ≡ true
      → broker.flushes ≡ true
      → ((e : DomainEvent) → broker.accepts e ≡ false)
      → let (outcome, s') = publish_pending_events ordered now broker s in
        (outcome ≡ published_count (length (pending_of s.events)))
        × (pending_of s'.events ≡ [])
        × (s'.topic ≡ s.topic)
  publish_loses now broker s few up flushed refuses =
      let (count, drained, topic) = publish_drains now broker s few up flushed in
      (
        count,
        drained,
        topic
            ∙ ap (λ b. s.topic ++ b) (sent_none broker refuses (ordered (pending_of s.events)))
            ∙ append-nil s.topic,
      )

  -- A run that has an event to publish and cannot connect, or whose flush raises, changes no row of
  -- the outbox and is retried.
  publish_retries :
      (now : ℕ) (broker : Broker) (s : Outbox) (e : DomainEvent) (es : List DomainEvent)
      → batch_of ordered s.events ≡ e ∷ es
      → (broker.connects && broker.flushes) ≡ false
      → let (outcome, s') = publish_pending_events ordered now broker s in
        (outcome ≡ retry) × (s'.events ≡ s.events)
  unfolding publish_pending_events
  publish_retries now broker s e es some_pending down =
      rw (some_pending, publish_pending_events) (ground arith)
