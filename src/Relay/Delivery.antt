-- ===== src/Relay/Delivery.antt =====
-- The relay marks only what the broker took, and keeps what it could not publish.
use meeting_room_booking_sys.Prelude.{
  ℕ, ◌≡◌, ◌⊎◌, inl, inr, refl, List, [], ◌∷◌, ◌++◌, map, Option-cases,
}
use meeting_room_booking_sys.Database.{OutboxRow, CommitReply, committed, refused, lost}
use meeting_room_booking_sys.Database.Sorting.{Order}
use meeting_room_booking_sys.Relay.{
  Store, Poll, WriteReply, delivered, failed, message_of, fetch_pending, mark_sent, process_batch,
  process_records, append_topic, finish, publish,
}

-- The outbox is as before, or its batch was marked and every message of the batch is in the topic.
abbrev pub IsSafe : Store → ℕ → List OutboxRow → Store → Type 0
IsSafe s now records t =
    (t.outbox ≡ s.outbox)
    ⊎ ((t.outbox ≡ mark_sent now records s.outbox) × (t.topic ≡ s.topic ++ map message_of records))

commit-IsSafe :
    (s : Store) (c : Poll) (records : List OutboxRow) (r : CommitReply)
    → c.commit_reply ≡ r
    → IsSafe s c.now records (finish c records (append_topic s (map message_of records))).0
commit-IsSafe s c records committed e = elim (Option-cases c.mark_fails) [
  | inl m ↦ rw m (rw e (inr (refl, refl)))
  | inr (x, m) ↦ rw m (inl refl)
]
commit-IsSafe s c records (refused y) e = elim (Option-cases c.mark_fails) [
  | inl m ↦ rw m (rw e (inl refl))
  | inr (x, m) ↦ rw m (inl refl)
]
commit-IsSafe s c records (lost y) e = elim (Option-cases c.mark_fails) [
  | inl m ↦ rw m (rw e (inr (refl, refl)))
  | inr (x, m) ↦ rw m (inl refl)
]

publish-IsSafe :
    (s : Store) (c : Poll) (records : List OutboxRow) (w : WriteReply)
    → c.write_reply ≡ w
    → IsSafe s c.now records (publish c records s).0
publish-IsSafe s c records delivered e = rw e (commit-IsSafe s c records c.commit_reply refl)
publish-IsSafe s c records (failed x taken) e = rw e (inl refl)

records-IsSafe :
    (s : Store) (c : Poll) (records : List OutboxRow)
    → IsSafe s c.now records (process_records c records s).0
records-IsSafe s c [] = inl refl
records-IsSafe s c (r ∷ rows) = publish-IsSafe s c (r ∷ rows) c.write_reply refl

-- Whatever fails in a batch (the begin, the query, the broker, the update, the commit or its
-- answer), the outbox is either unchanged, so that the next poll reads the same rows, or exactly
-- the rows of the batch were marked as sent, and then all their messages are in the topic.
pub process_batch_lem :
    (order : Order) (s : Store) (c : Poll)
    → IsSafe s c.now (fetch_pending order c s.outbox) (process_batch order s c).0
unfolding process_batch
process_batch_lem order s c = elim (Option-cases c.begin_fails) [
  | inr (e, b) ↦ rw b (inl refl)
  | inl b ↦ elim (Option-cases c.fetch_fails) [
    | inr (e, f) ↦ rw b (rw f (inl refl))
    | inl f ↦ rw b (rw f (records-IsSafe s c (fetch_pending order c s.outbox)))
  ]
]
