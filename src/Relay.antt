-- ===== src/Relay.antt =====
-- booking-service/internal/repo/outbox/outbox.go and booking-service/internal/outbox/relay.go: the
-- relay that publishes the pending rows of the outbox to Kafka.
-- The topic is the list of the messages that the broker took, oldest first. What the broker does,
-- which rows another transaction has locked, and how the database answers are parameters of a poll.
pub mod Delivery
pub mod Counting
pub mod Drain
pub mod Retention
pub mod AtLeastOnce
use meeting_room_booking_sys.Prelude.{
  ℕ, zero, suc, Bool, true, false, not, ◌&&◌, ◌==◌, List, [], ◌∷◌, ◌++◌, map, Option, none, some,
  select, take, any, update_where, length,
}
use meeting_room_booking_sys.Model.{BookingEvent, Error, other, Result, ok, err}
use meeting_room_booking_sys.Database.{OutboxRow, CommitReply, commit}
use meeting_room_booking_sys.Database.Sorting.{Order}

abbrev pub fetch_batch_size : ℕ
fetch_batch_size = 100

-- The key is the booking's identifier, so that its events stay in one partition.
pub record Message : Type 0 where
  pub key : ℕ
  pub value : BookingEvent

pub record Store : Type 0 where
  pub outbox : List OutboxRow
  pub topic : List Message

-- `WriteMessages` takes all messages, or fails after the broker took some of them.
pub data WriteReply : Type 0 where
  delivered : WriteReply
  failed : ℕ → (Message → Bool) → WriteReply

-- One call of `ProcessBatch`; `is_locked` is what `SKIP LOCKED` skips.
pub record Poll : Type 0 where
  pub now : ℕ
  pub is_locked : OutboxRow → Bool
  pub begin_fails : Option ℕ
  pub fetch_fails : Option ℕ
  pub write_reply : WriteReply
  pub mark_fails : Option ℕ
  pub commit_reply : CommitReply

abbrev pub is_pending : OutboxRow → Bool
is_pending o = elim o.sent_at [ none ↦ true | some t ↦ false ]

-- `bookingIDFromPayload` for a payload that the outbox statements wrote.
abbrev pub message_of : OutboxRow → Message
message_of o = record { key = o.payload.booking_id; value = o.payload }

unfoldable pub fetch_pending : Order → Poll → List OutboxRow → List OutboxRow
fetch_pending order c rows = take fetch_batch_size (
    order.asc OutboxRow (λ o. o.created_at)
      (select (λ o. is_pending o && not (c.is_locked o)) rows))

abbrev pub is_among : List OutboxRow → OutboxRow → Bool
is_among records o = any (λ r. r.id == o.id) records

abbrev pub mark : ℕ → OutboxRow → OutboxRow
mark now o = record o { sent_at = some now }

-- UPDATE outbox SET sent_at = NOW() WHERE id = ANY(ids)
unfoldable pub mark_sent : ℕ → List OutboxRow → List OutboxRow → List OutboxRow
mark_sent now records rows = update_where (is_among records) (mark now) rows

abbrev pub append_topic : Store → List Message → Store
append_topic s msgs = record s { topic = s.topic ++ msgs }

-- What follows a successful `publish`.
abbrev pub finish : Poll → List OutboxRow → Store → Store × Result ℕ
finish c records s = elim c.mark_fails [
  | some e ↦ (s, err (other e))
  | none ↦
      commit s (record s { outbox = mark_sent c.now records s.outbox }) (length records)
        c.commit_reply
]

abbrev pub publish : Poll → List OutboxRow → Store → Store × Result ℕ
publish c records s = elim c.write_reply [
  | failed e taken ↦ (append_topic s (select taken (map message_of records)), err (other e))
  | delivered ↦ finish c records (append_topic s (map message_of records))
]

-- An empty batch leaves without publishing.
abbrev pub process_records : Poll → List OutboxRow → Store → Store × Result ℕ
process_records c [] s = (s, ok 0)
process_records c (r ∷ rows) s = publish c (r ∷ rows) s

-- `Repo.ProcessBatch` with the closure of `Relay.processBatch`: the result is the number published.
unfoldable pub process_batch : Order → Store → Poll → Store × Result ℕ
unfolding fetch_pending mark_sent
process_batch order s c = elim c.begin_fails [
  | some e ↦ (s, err (other e))
  | none ↦ elim c.fetch_fails [
    | some e ↦ (s, err (other e))
    | none ↦ process_records c (fetch_pending order c s.outbox) s
  ]
]

-- `Relay.processBatch`: an error is counted and reads as zero.
abbrev pub published : Result ℕ → ℕ
published (ok n) = n
published (err e) = 0

-- The loop of `Run` after `ctx.Done`: batches until one publishes nothing, or until the polls of
-- `DrainTimeout` are used up.
abbrev drain_next : ℕ → Store → Store → Store
drain_next zero s rest = s
drain_next (suc n) s rest = rest

unfoldable pub drain : Order → Store → List Poll → Store
unfolding process_batch
drain order s [] = s
drain order s (c ∷ polls) =
    let r = process_batch order s c in
    let rest = drain order r.0 polls in drain_next (published r.1) r.0 rest

-- `Run`: polls at the ticks, each with the rows that bookings have written since the last one, and
-- then the drain.
unfoldable pub run : Order → Store → List (List OutboxRow × Poll) → List Poll → Store
unfolding process_batch drain
run order s [] polls = drain order s polls
run order s ((written, c) ∷ ticks) polls =
    run order (process_batch order (record s { outbox = s.outbox ++ written }) c).0 ticks polls
