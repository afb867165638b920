-- ===== src/Core/Outbox.antt =====
-- src/tasks/outbox_task.py: the Celery task that publishes the outbox to Kafka.
pub mod Delivery
use multi_tenant_event_drive.Prelude.{
  ℕ, Bool, true, false, ◌&&◌, List, [], ◌∷◌, ◌++◌, take, length, if◌then◌else◌,
}
use multi_tenant_event_drive.Prelude.Table.{has}
use multi_tenant_event_drive.Core.Rows.{DomainEvent, EventStatus, pending, published}

abbrev pub is_pending : EventStatus → Bool
is_pending pending = true
is_pending published = false

-- SELECT … WHERE status = 'pending'
abbrev pub pending_of : List DomainEvent → List DomainEvent
pending_of [] = []
pending_of (e ∷ es) = let rest = pending_of es in if is_pending e.status then e ∷ rest else rest

-- LIMIT 50
abbrev pub batch_limit : ℕ
batch_limit = 50

-- What Kafka does in one run: whether the producer connects, whether `send` takes an event into its
-- buffer or raises, whether the broker then writes the record (the future that `send` returned, which the
-- task never looks at), and whether `flush` returns. It does not raise for a record that failed.
pub record Broker : Type 0 where
  pub connects : Bool
  pub accepts : DomainEvent → Bool
  pub writes : DomainEvent → Bool
  pub flushes : Bool

-- The state that the task works on: the table `domain_events` and the messages on the topic.
pub record Outbox : Type 0 where
  pub events : List DomainEvent
  pub topic : List DomainEvent

pub data Outcome : Type 0 where
  published_count : ℕ → Outcome
  retry : Outcome

-- `producer.send` for each event, in order, and what of it gets to the topic; an exception of one is
-- logged, and the loop goes on.
unfoldable pub sent : Broker → List DomainEvent → List DomainEvent
sent broker [] = []
sent broker (e ∷ es) =
    let rest = sent broker es in if broker.accepts e && broker.writes e then e ∷ rest else rest

abbrev pub publish : ℕ → DomainEvent → DomainEvent
publish now e = record e { status = published; updated_at = now }

-- UPDATE … SET status = 'published' WHERE event_id = ANY(ids)
unfoldable pub mark : ℕ → List DomainEvent → List DomainEvent → List DomainEvent
mark now batch [] = []
mark now batch (e ∷ es) =
    (if has DomainEvent.event_id e.event_id batch then publish now e else e) ∷ mark now batch es

-- `ordered` is the database's ORDER BY created_at.
module _ (ordered : List DomainEvent → List DomainEvent) where
  abbrev pub batch_of : List DomainEvent → List DomainEvent
  batch_of events = take batch_limit (ordered (pending_of events))

  unfoldable pub publish_pending_events : ℕ → Broker → Outbox → Outcome × Outbox
  unfolding sent mark
  publish_pending_events now broker s = elim (batch_of s.events) [
    | [] ↦ (published_count 0, s)
    | e ∷ es ↦
        if broker.connects
        then if broker.flushes
          then (
            published_count (length (e ∷ es)),
            record { events = mark now (e ∷ es) s.events; topic = s.topic ++ sent broker (e ∷ es) },
          )
          else (retry, record s { topic = s.topic ++ sent broker (e ∷ es) })
        else (retry, s)
  ]
