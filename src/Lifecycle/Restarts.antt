-- ===== src/Lifecycle/Restarts.antt =====
-- No message is lost between the processes of the booking service, however each of them ends.
use meeting_room_booking_sys.Prelude.{
  ◌+◌, ◌*◌, ◌≤◌, ◌≡◌, arith, Bool, ◌&&◌, List, [], ◌++◌, count_where, count_where-append, All,
  length,
}
use meeting_room_booking_sys.Database.{OutboxRow}
use meeting_room_booking_sys.Database.Sorting.{Order}
use meeting_room_booking_sys.Relay.{
  Message, Store, Poll, is_pending, message_of, process_batch, drain, fetch_batch_size,
}
use meeting_room_booking_sys.Relay.Counting.{IsKeyed, owed}
use meeting_room_booking_sys.Relay.Retention.{process_batch-Retains, Retains-IsKeyed}
use meeting_room_booking_sys.Relay.Drain.{Succeeds, drain_lem}
use meeting_room_booking_sys.Lifecycle.{
  Life, begin, with_rows, Step, commits, server_fails, signals, ticks, begins_drain, drains,
  stops_drain, returns_error, begins_shutdown, ends_shutdown, abandons_shutdown, returns,
  abandons_relay, Reached, initially, stepped, Lives, unstarted, lived,
}

abbrev kind : (Message → Bool) → OutboxRow → Bool
kind q o = is_pending o && q (message_of o)

-- The keys are distinct, and of each kind of message at least as many are owed as there were before
-- and as were written since.
pub record Keeps (before now : Store) (written : List OutboxRow) : Type 0 where
  pub keyed : IsKeyed now.outbox
  pub no_loss : (q : Message → Bool) → owed q before + count_where (kind q) written ≤ owed q now

Keeps-refl : (s : Store) → IsKeyed s.outbox → Keeps s s []
Keeps-refl s k = record { keyed = k; no_loss = λ q. omega arith }

Keeps-rows :
    (s t : Store) (written rows : List OutboxRow)
    → Keeps s t written
    → IsKeyed (t.outbox ++ rows)
    → Keeps s (with_rows t rows) (written ++ rows)
Keeps-rows s t written rows v k = record {
  keyed = k;
  no_loss = λ q. omega (
    arith,
    v.no_loss q,
    count_where-append (kind q) written rows,
    count_where-append (kind q) t.outbox rows,
  );
}

Keeps-batch :
    (order : Order) (s t : Store) (written : List OutboxRow) (c : Poll)
    → Keeps s t written
    → Keeps s (process_batch order t c).0 written
Keeps-batch order s t written c v =
    let a = process_batch-Retains order t c v.keyed in
    record {
      keyed = Retains-IsKeyed t (process_batch order t c).0 a v.keyed;
      no_loss = λ q. omega (arith, v.no_loss q, a.no_loss q);
    }

Step-Keeps :
    (order : Order) {s t : Life} (from : Store)
    → Step order s t
    → Keeps from s.store s.written
    → Keeps from t.store t.written
Step-Keeps order {s} from (commits rows p c k) v = Keeps-rows from s.store s.written rows v k
Step-Keeps order {s} from (server_fails e l) v = v
Step-Keeps order {s} from signals v = v
Step-Keeps order {s} from (ticks c r p) v = Keeps-batch order from s.store s.written c v
Step-Keeps order {s} from (begins_drain r g) v = v
Step-Keeps order {s} from (drains c r p) v = Keeps-batch order from s.store s.written c v
Step-Keeps order {s} from (stops_drain r) v = v
Step-Keeps order {s} from (returns_error e m f) v = v
Step-Keeps order {s} from (begins_shutdown m g) v = v
Step-Keeps order {s} from (ends_shutdown m) v = v
Step-Keeps order {s} from (abandons_shutdown m) v = v
Step-Keeps order {s} from (returns m r) v = v
Step-Keeps order {s} from (abandons_relay m) v = v

pub Reached-Keeps :
    (order : Order) (from : Store) {s : Life}
    → IsKeyed from.outbox
    → Reached order from s
    → Keeps from s.store s.written
Reached-Keeps order from k initially = unfold begin in Keeps-refl from k
Reached-Keeps order from k (stepped st r) = Step-Keeps order from st (Reached-Keeps order from k r)

Keeps-trans :
    (s t u : Store) (xs ys : List OutboxRow) → Keeps s t xs → Keeps t u ys → Keeps s u (xs ++ ys)
Keeps-trans s t u xs ys v w = record {
  keyed = w.keyed;
  no_loss = λ q. omega (arith, v.no_loss q, w.no_loss q, count_where-append (kind q) xs ys);
}

Lives-Keeps :
    (order : Order) (from : Store) {t : Store} {written : List OutboxRow}
    → IsKeyed from.outbox
    → Lives order from t written
    → Keeps from t written
Lives-Keeps order from k unstarted = Keeps-refl from k
Lives-Keeps order from k (lived {middle} {written} {s} r earlier) =
    let v = Lives-Keeps order from k earlier in
    Keeps-trans from middle s.store written s.written v (Reached-Keeps order middle v.keyed r)

-- Any number of processes of the booking service run one after another, each in any interleaving of
-- its goroutines, and each ends in any way and at any moment, also by a crash. If the keys of the
-- outbox were distinct at the first start, then after one more drain that has a poll for each full
-- batch and in which nothing fails, no row is pending, and of each kind of message the topic has at
-- least as many as it had at first, as were pending then, and as requests have written since.
pub nothing_lost :
    (order : Order) (from now : Store) (written : List OutboxRow) (polls : List Poll)
    → IsKeyed from.outbox
    → Lives order from now written
    → All Succeeds polls
    → count_where is_pending now.outbox ≤ fetch_batch_size * length polls
    → (count_where is_pending (drain order now polls).outbox ≡ 0)
      × ((q : Message → Bool)
          → count_where q from.topic
              + count_where (λ o. is_pending o && q (message_of o)) from.outbox
              + count_where (λ o. is_pending o && q (message_of o)) written
            ≤ count_where q (drain order now polls).topic)
nothing_lost order from now written polls k lives runs few =
    let v = Lives-Keeps order from k lives in
    let d = drain_lem order polls now runs v.keyed few in
    (d.0, λ q. omega (arith, v.no_loss q, d.1 q))
