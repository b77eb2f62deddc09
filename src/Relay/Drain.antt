-- ===== src/Relay/Drain.antt =====
-- The drain of the relay publishes every pending row once, if the database and the broker answer.
use mathlib.Core.List.{append-nil}
use Prim.Native.Nat.{min}
use meeting_room_booking_sys.Prelude.{
  count_where-cong, count_where-select, count_where-map, ℕ, zero, suc, ◌+◌, ◌*◌, ◌≤◌, ◌≡◌, ◌↔◌,
  refl, sym, ap, ◌∙◌, subst, arith, Bool, true, false, not, ◌&&◌, List, [], ◌∷◌, ◌++◌, map, none,
  length, length-take, All, count_where, count_where-append, count_where-Perm, count_where-true,
  count_where_mono,
}
use meeting_room_booking_sys.Model.{ok}
use meeting_room_booking_sys.Database.{OutboxRow, committed}
use meeting_room_booking_sys.Database.Sorting.{Order}
use meeting_room_booking_sys.Relay.{
  Message, Store, Poll, delivered, is_pending, message_of, fetch_pending, fetch_batch_size,
  mark_sent, process_batch, process_records, drain, published, drain_next,
}
use meeting_room_booking_sys.Relay.Counting.{
  IsKeyed, IsKeyed-marked, owed, pending, count_sent, batch, sorted,
}

-- Nothing fails in the poll, and no other transaction holds a row.
pub record Succeeds (c : Poll) : Type 0 where
  pub unlocked : (o : OutboxRow) → c.is_locked o ≡ false
  pub begun : c.begin_fails ≡ none
  pub fetched : c.fetch_fails ≡ none
  pub written : c.write_reply ≡ delivered
  pub marked : c.mark_fails ≡ none
  pub done : c.commit_reply ≡ committed

-- A poll took `n` pending rows, as many as there are up to the size of a batch, and lost none.
record Advances (s t : Store) (n : ℕ) : Type 0 where
  still_keyed : IsKeyed t.outbox
  fewer : pending t + n ≡ pending s
  enough : n ≡ min fetch_batch_size (pending s)
  kept : (q : Message → Bool) → owed q t ≡ owed q s

abbrev advanced : Order → Poll → Store → Store
advanced order c s = record {
  outbox = mark_sent c.now (fetch_pending order c s.outbox) s.outbox;
  topic = s.topic ++ map message_of (fetch_pending order c s.outbox);
}

mark_sent_nil : (now : ℕ) (rows : List OutboxRow) → mark_sent now [] rows ≡ rows
unfolding mark_sent
mark_sent_nil now [] = refl
mark_sent_nil now (o ∷ rows) = ap (◌∷◌ o) (mark_sent_nil now rows)

process_records_run :
    (c : Poll) (s : Store) (records : List OutboxRow)
    → Succeeds c
    → process_records c records s ≡ (
      record {
        outbox = mark_sent c.now records s.outbox;
        topic = s.topic ++ map message_of records;
      },
      ok (length records),
    )
process_records_run c s [] run = rw (mark_sent_nil c.now s.outbox, append-nil) refl
process_records_run c s (r ∷ records) run = rw run.written (rw run.marked (rw run.done refl))

process_batch_run :
    (order : Order) (c : Poll) (s : Store)
    → Succeeds c
    → process_batch order s c ≡ (advanced order c s, ok (length (fetch_pending order c s.outbox)))
unfolding process_batch
process_batch_run order c s run =
    rw run.begun (rw run.fetched (process_records_run c s (fetch_pending order c s.outbox) run))

pending_all :
    (rows : List OutboxRow)
    → count_where (λ o. is_pending o && true) rows ≡ count_where is_pending rows
pending_all rows = count_where-cong _ _ rows (λ o. ground arith)

count_sorted :
    (order : Order) (c : Poll) (rows : List OutboxRow)
    → Succeeds c
    → (p : OutboxRow → Bool)
    → count_where p (sorted order c rows) ≡ count_where (λ o. is_pending o && p o) rows
count_sorted order c rows run p =
    count_where-Perm p (order.asc-perm OutboxRow (λ o. o.created_at) _)
    ∙ count_where-select (λ o. is_pending o && not (c.is_locked o)) p rows
    ∙ count_where-cong _ _ rows (λ o. ground (arith, run.unlocked o))

advanced_lem :
    (order : Order) (c : Poll) (s : Store)
    → Succeeds c
    → IsKeyed s.outbox
    → Advances s (advanced order c s) (length (fetch_pending order c s.outbox))
unfolding fetch_pending
advanced_lem order c s run k =
    let rows = s.outbox in
    let taken = batch order c rows in
    let all : OutboxRow → Bool = λ o. true in
    let sent = count_sent order c rows all k in
    record {
      still_keyed = unfold mark_sent in IsKeyed-marked c.now taken rows k;
      fewer = omega (
        arith,
        sent,
        pending_all rows,
        pending_all (mark_sent c.now taken rows),
        count_where-true taken,
      );
      enough = omega (
        arith,
        length-take fetch_batch_size (sorted order c rows),
        pending_all rows,
        count_sorted order c rows run all,
        count_where-true (sorted order c rows),
      );
      kept = λ q. omega (
        arith,
        count_where-append q s.topic (map message_of taken),
        count_where-map message_of q taken,
        count_sent order c rows (λ o. q (message_of o)) k,
      );
    }

-- A poll in which nothing fails and which publishes nothing leaves no row pending, and a poll that
-- finds no pending row publishes nothing.
pub published_none :
    (order : Order) (c : Poll) (s : Store)
    → Succeeds c
    → IsKeyed s.outbox
    → (published (process_batch order s c).1 ≡ 0) ↔ (pending s ≡ 0)
published_none order c s run k =
    let a = advanced_lem order c s run k in
    rw (process_batch_run order c s run)
      (λ e. omega (arith, a.enough, e), λ e. omega (arith, a.enough, e))

pub pending-process_batch :
    (order : Order) (c : Poll) (s : Store)
    → Succeeds c
    → IsKeyed s.outbox
    → pending (process_batch order s c).0 ≤ pending s
pending-process_batch order c s run k =
    let a = advanced_lem order c s run k in
    rw (process_batch_run order c s run) (omega (arith, a.fewer))

abbrev Drained : Store → Store → Type 0
Drained s t = (pending t ≡ 0) × ((q : Message → Bool) → count_where q t.topic ≡ owed q s)

Drained-refl : (s : Store) → pending s ≡ 0 → Drained s s
Drained-refl s none_left = (
  none_left,
  λ q. omega (
    arith,
    none_left,
    count_where_mono (λ o. is_pending o && q (message_of o)) is_pending s.outbox
        (λ o h. ground arith),
  ),
)

next-Drained :
    (s t rest : Store) (n : ℕ) → Advances s t n → Drained t rest → Drained s (drain_next n t rest)
next-Drained s t rest zero a d =
    let empty = Drained-refl t (omega (arith, a.fewer, a.enough)) in
    (empty.0, λ q. empty.1 q ∙ a.kept q)
next-Drained s t rest (suc n) a d = (d.0, λ q. d.1 q ∙ a.kept q)

-- A drain in which nothing fails, and which has a poll for each full batch: no row stays pending, and
-- of each kind of message the topic gains exactly those of the rows that were pending.
pub drain_lem :
    (order : Order) (polls : List Poll) (s : Store)
    → All Succeeds polls
    → IsKeyed s.outbox
    → count_where is_pending s.outbox ≤ fetch_batch_size * length polls
    → (count_where is_pending (drain order s polls).outbox ≡ 0)
      × ((q : Message → Bool)
          → count_where q (drain order s polls).topic
            ≡ count_where q s.topic + count_where (λ o. is_pending o && q (message_of o)) s.outbox)
unfolding drain
drain_lem order [] s runs k few = Drained-refl s (omega arith)
drain_lem order (c ∷ polls) s (run, runs) k few =
    let t = advanced order c s in
    let n = length (fetch_pending order c s.outbox) in
    let a = advanced_lem order c s run k in
    let rest = drain_lem order polls t runs a.still_keyed (omega (arith, a.fewer, a.enough, few)) in
    subst (λ r. Drained s (drain_next (published r.1) r.0 (drain order r.0 polls)))
      (sym (process_batch_run order c s run)) (next-Drained s t (drain order t polls) n a rest)
