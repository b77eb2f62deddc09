-- ===== src/Relay/AtLeastOnce.antt =====
-- The relay delivers every message at least once.
use meeting_room_booking_sys.Prelude.{
  ◌+◌, ◌≤◌, arith, Bool, ◌&&◌, ◌==◌, List, [], ◌∷◌, ◌++◌, count_where, count_where-append,
}
use meeting_room_booking_sys.Database.{OutboxRow}
use meeting_room_booking_sys.Database.Sorting.{Order}
use meeting_room_booking_sys.Relay.{
  Message, Store, Poll, is_pending, message_of, process_batch, run,
}
use meeting_room_booking_sys.Relay.Counting.{IsKeyed, owed}
use meeting_room_booking_sys.Relay.Retention.{Retains, process_batch-Retains, drain-Retains}

-- The rows that bookings write while the relay runs.
abbrev pub written_rows : List (List OutboxRow × Poll) → List OutboxRow
written_rows [] = []
written_rows ((written, c) ∷ ticks) = written ++ written_rows ticks

abbrev with_rows : Store → List OutboxRow → Store
with_rows s written = record s { outbox = s.outbox ++ written }

keys_apart :
    (s t : Store) (written rest : List OutboxRow)
    → Retains (with_rows s written) t
    → IsKeyed (s.outbox ++ (written ++ rest))
    → IsKeyed (t.outbox ++ rest)
keys_apart s t written rest a k id = omega (
  arith,
  k id,
  a.same_keys id,
  count_where-append (λ o. o.id == id) s.outbox (written ++ rest),
  count_where-append (λ o. o.id == id) written rest,
  count_where-append (λ o. o.id == id) s.outbox written,
  count_where-append (λ o. o.id == id) t.outbox rest,
)

keys_before : (xs ys zs : List OutboxRow) → IsKeyed (xs ++ (ys ++ zs)) → IsKeyed (xs ++ ys)
keys_before xs ys zs k id = omega (
  arith,
  k id,
  count_where-append (λ o. o.id == id) xs (ys ++ zs),
  count_where-append (λ o. o.id == id) ys zs,
  count_where-append (λ o. o.id == id) xs ys,
)

-- The relay delivers at least once. Whatever fails in its polls (a query, the broker, an update or a
-- commit) and whatever rows others hold, no message is lost from its start to the end of its drain:
-- of each kind there are in the topic and in the pending rows at the end at least as many as there
-- were at the start and as bookings have written meanwhile.
pub run_at_least_once :
    (order : Order) (ticks : List (List OutboxRow × Poll)) (polls : List Poll) (s : Store)
    → IsKeyed (s.outbox ++ written_rows ticks)
    → (q : Message → Bool)
    → owed q s + count_where (λ o. is_pending o && q (message_of o)) (written_rows ticks)
      ≤ owed q (run order s ticks polls)
unfolding run
run_at_least_once order [] polls s k q = omega (
  arith,
  (drain-Retains order polls s
        (λ id. omega (arith, k id, count_where-append (λ o. o.id == id) s.outbox []))).no_loss
      q,
)
run_at_least_once order ((written, c) ∷ ticks) polls s k q =
    let from = with_rows s written in
    let t = (process_batch order from c).0 in
    let a =
      process_batch-Retains order from c (keys_before s.outbox written (written_rows ticks) k) in
    let p : OutboxRow → Bool = λ o. is_pending o && q (message_of o) in
    omega (
      arith,
      a.no_loss q,
      run_at_least_once order ticks polls t (keys_apart s t written (written_rows ticks) a k) q,
      count_where-append p s.outbox written,
      count_where-append p written (written_rows ticks),
    )
