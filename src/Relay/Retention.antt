-- ===== src/Relay/Retention.antt =====
-- Whatever fails, the relay keeps every message until it is in the topic.
use mathlib.Core.List.{append-nil}
use meeting_room_booking_sys.Prelude.{
  count_where-map, ℕ, zero, suc, ◌+◌, ◌≤◌, ◌≡◌, inl, inr, refl, sym, ap, ◌∙◌, arith, Bool, ◌&&◌,
  ◌==◌, List, [], ◌∷◌, ◌++◌, map, Option, none, some, select, count_where, count_where-append,
  count_where-update_where, Option-cases,
}
use meeting_room_booking_sys.Database.{OutboxRow, committed, refused, lost, CommitReply}
use meeting_room_booking_sys.Database.Sorting.{Order}
use meeting_room_booking_sys.Relay.{
  Message, Store, Poll, WriteReply, delivered, failed, is_pending, message_of, fetch_pending,
  mark_sent, process_batch, process_records, publish, finish, append_topic, is_among, mark, drain,
  drain_next, published,
}
use meeting_room_booking_sys.Relay.Delivery.{process_batch_lem}
use meeting_room_booking_sys.Relay.Counting.{IsKeyed, owed, count_sent, batch}

-- The topic only grows.
abbrev Grows : Store → Store → Type 0
Grows s t = (msgs : List Message) × (t.topic ≡ s.topic ++ msgs)

finish-topic :
    (c : Poll) (records : List OutboxRow) (s : Store) (fails : Option ℕ) (r : CommitReply)
    → c.mark_fails ≡ fails
    → c.commit_reply ≡ r
    → (finish c records s).0.topic ≡ s.topic
finish-topic c records s (some x) r m e = rw m refl
finish-topic c records s none committed m e = rw m (rw e refl)
finish-topic c records s none (refused x) m e = rw m (rw e refl)
finish-topic c records s none (lost x) m e = rw m (rw e refl)

publish-Grows :
    (c : Poll) (records : List OutboxRow) (s : Store) (w : WriteReply)
    → c.write_reply ≡ w
    → Grows s (publish c records s).0
publish-Grows c records s delivered e = (
  map message_of records,
  rw e (
      finish-topic c records (append_topic s (map message_of records)) c.mark_fails c.commit_reply
        refl refl),
)
publish-Grows c records s (failed x taken) e = (select taken (map message_of records), rw e refl)

records-Grows :
    (c : Poll) (records : List OutboxRow) (s : Store) → Grows s (process_records c records s).0
records-Grows c [] s = ([], sym (append-nil s.topic))
records-Grows c (r ∷ rows) s = publish-Grows c (r ∷ rows) s c.write_reply refl

process_batch-Grows : (order : Order) (s : Store) (c : Poll) → Grows s (process_batch order s c).0
unfolding process_batch
process_batch-Grows order s c = elim (Option-cases c.begin_fails) [
  | inr (e, b) ↦ rw b ([], sym (append-nil s.topic))
  | inl b ↦ elim (Option-cases c.fetch_fails) [
    | inr (e, f) ↦ rw b (rw f ([], sym (append-nil s.topic)))
    | inl f ↦ rw b (rw f (records-Grows c (fetch_pending order c s.outbox) s))
  ]
]

-- A store that still has the keys of another, and owes at least its messages.
pub record Retains (s t : Store) : Type 0 where
  pub same_keys :
      (id : ℕ) → count_where (λ o. o.id == id) t.outbox ≡ count_where (λ o. o.id == id) s.outbox
  pub no_loss : (q : Message → Bool) → owed q s ≤ owed q t

marked_keys :
    (now : ℕ) (records rows : List OutboxRow) (id : ℕ)
    → count_where (λ o. o.id == id) (mark_sent now records rows)
      ≡ count_where (λ o. o.id == id) rows
unfolding mark_sent
marked_keys now records rows id =
    count_where-update_where (is_among records) (λ o. o.id == id) (mark now) rows (λ o. refl)

count_fetched :
    (order : Order) (c : Poll) (s : Store) (q : Message → Bool)
    → IsKeyed s.outbox
    → count_where q (map message_of (fetch_pending order c s.outbox))
        + count_where
            (λ o. is_pending o && q (message_of o))
            (mark_sent c.now (fetch_pending order c s.outbox) s.outbox)
      ≡ count_where (λ o. is_pending o && q (message_of o)) s.outbox
unfolding fetch_pending
count_fetched order c s q k = omega (
  arith,
  count_sent order c s.outbox (λ o. q (message_of o)) k,
  count_where-map message_of q (batch order c s.outbox),
)

pub process_batch-Retains :
    (order : Order) (s : Store) (c : Poll)
    → IsKeyed s.outbox
    → Retains s (process_batch order s c).0
process_batch-Retains order s c k = elim (process_batch_lem order s c) [
  | inl same ↦
      let (msgs, grown) = process_batch-Grows order s c in
      record {
        same_keys = λ id. ap (count_where (λ o. o.id == id)) same;
        no_loss = λ q. omega (
          arith,
          ap (count_where q) grown,
          count_where-append q s.topic msgs,
          ap (count_where (λ o. is_pending o && q (message_of o))) same,
        );
      }
  | inr (marked, sent) ↦ record {
    same_keys = λ id.
        ap (count_where (λ o. o.id == id)) marked
        ∙ marked_keys c.now (fetch_pending order c s.outbox) s.outbox id;
    no_loss = λ q. omega (
      arith,
      ap (count_where q) sent,
      count_where-append q s.topic (map message_of (fetch_pending order c s.outbox)),
      ap (count_where (λ o. is_pending o && q (message_of o))) marked,
      count_fetched order c s q k,
    );
  }
]

Retains-trans : (s t u : Store) → Retains s t → Retains t u → Retains s u
Retains-trans s t u a b = record {
  same_keys = λ id. b.same_keys id ∙ a.same_keys id;
  no_loss = λ q. omega (arith, a.no_loss q, b.no_loss q);
}

pub Retains-IsKeyed : (s t : Store) → Retains s t → IsKeyed s.outbox → IsKeyed t.outbox
Retains-IsKeyed s t a k id = omega (arith, k id, a.same_keys id)

drain_next-Retains :
    (s t rest : Store) (n : ℕ) → Retains s t → Retains s rest → Retains s (drain_next n t rest)
drain_next-Retains s t rest zero a b = a
drain_next-Retains s t rest (suc n) a b = b

pub drain-Retains :
    (order : Order) (polls : List Poll) (s : Store)
    → IsKeyed s.outbox
    → Retains s (drain order s polls)
unfolding drain
drain-Retains order [] s k = record { same_keys = λ id. refl; no_loss = λ q. omega arith }
drain-Retains order (c ∷ polls) s k =
    let t = (process_batch order s c).0 in
    let a = process_batch-Retains order s c k in
    drain_next-Retains s t (drain order t polls) (published (process_batch order s c).1) a (
      Retains-trans s t (drain order t polls) a
        (drain-Retains order polls t (Retains-IsKeyed s t a k)))
