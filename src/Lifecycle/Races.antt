-- ===== src/Lifecycle/Races.antt =====
-- What the order of the shutdown leaves open: rows that stay pending for the next start.
use meeting_room_booking_sys.Prelude.{
  ℕ, ◌≡◌, arith, refl, subst, true, false, ◌==◌, [], ◌∷◌, ◌++◌, none, some, count_where,
  count_where-append,
}
use meeting_room_booking_sys.Database.{OutboxRow}
use meeting_room_booking_sys.Database.Sorting.{Order}
use meeting_room_booking_sys.Relay.{Store, Poll, is_pending, process_batch}
use meeting_room_booking_sys.Relay.Counting.{IsKeyed, pending}
use meeting_room_booking_sys.Relay.Retention.{process_batch-Retains}
use meeting_room_booking_sys.Relay.Drain.{Succeeds, published_none, pending-process_batch}
use meeting_room_booking_sys.Lifecycle.Shutdown.{IsSmooth, AllSteps}
use meeting_room_booking_sys.Lifecycle.{
  listening, failed, closed, serving, returned, polling, stopped, relay_after, Life, begin, return,
  with_rows, commits, server_fails, signals, begins_drain, drains, returns_error, begins_shutdown,
  ends_shutdown, returns, Reached, initially, stepped,
}

abbrev opened : Store → Life
opened store = record {
  store = store;
  server = listening;
  main = serving;
  relay = polling;
  is_signalled = false;
  has_pool = true;
  written = [];
}

-- A process that was signalled, with an idle relay that drains at once while a request still commits.
module _ (order : Order) (store : Store) (c : Poll) (row : OutboxRow) where
  abbrev emptied : Store
  emptied = (process_batch order store c).0

  abbrev late : Store
  late = with_rows emptied (row ∷ [])

  abbrev pub late_end : Life
  late_end = record {
    store = late;
    server = closed;
    main = returned none;
    relay = stopped;
    is_signalled = true;
    has_pool = false;
    written = row ∷ [];
  }

  late-IsKeyed : IsKeyed (store.outbox ++ row ∷ []) → IsKeyed (emptied.outbox ++ row ∷ [])
  late-IsKeyed k id =
      let before : IsKeyed store.outbox =
        (λ i. omega (arith, k i, count_where-append (λ o. o.id == i) store.outbox (row ∷ []))) in
      omega (
        arith,
        k id,
        (process_batch-Retains order store c before).same_keys id,
        count_where-append (λ o. o.id == id) store.outbox (row ∷ []),
        count_where-append (λ o. o.id == id) emptied.outbox (row ∷ []),
      )

  abbrev Smoothly : Life → Type 0
  Smoothly s = (r : Reached order store s) × AllSteps order (IsSmooth order) store r

  -- The relay has stopped, after a batch that published nothing, and `run` is about to shut down.
  abbrev drained_early : ℕ → Life
  drained_early n = record {
    store = emptied;
    server = listening;
    main = serving;
    relay = relay_after n;
    is_signalled = true;
    has_pool = true;
    written = [];
  }

  module _ (run : Succeeds c) (none_left : pending store ≡ 0)
      (k : IsKeyed (store.outbox ++ row ∷ [])) where
    keyed : IsKeyed store.outbox
    keyed id = omega (arith, k id, count_where-append (λ o. o.id == id) store.outbox (row ∷ []))

    reaches_drained : Smoothly (drained_early 0)
    reaches_drained =
        subst (λ n. Smoothly (drained_early n))
          ((published_none order c store run keyed).1 none_left)
          (unfold begin in
            (
              stepped (drains c refl refl)
                  (stepped (begins_drain refl refl) (stepped signals initially)),
              (run, (tt, (tt, tt))),
            ))

    reaches_late : Smoothly late_end
    reaches_late = (
      stepped (returns refl refl) (
          stepped (ends_shutdown refl) (
            stepped (commits (row ∷ []) refl (λ x. cc) (late-IsKeyed k))
              (stepped (begins_shutdown refl refl) reaches_drained.0))),
      (tt, (tt, (tt, (tt, reaches_drained.1)))),
    )

    late-pending : is_pending row ≡ true → pending late ≡ 1
    late-pending p = ground (
      arith,
      p,
      pending-process_batch order c store run keyed,
      count_where-append is_pending emptied.outbox (row ∷ []),
    )

-- The comments of `run` say that the relay drains without the risk of new rows. But it starts its
-- drain at the signal, not after the shutdown of the server: from any store with nothing pending, a
-- process in which nothing fails and no timeout ends can end in order, with the server shut down, the
-- relay stopped and no error, and leave any new row pending.
pub late_commit :
    (order : Order) (store : Store) (c : Poll) (row : OutboxRow)
    → Succeeds c
    → count_where is_pending store.outbox ≡ 0
    → is_pending row ≡ true
    → IsKeyed (store.outbox ++ row ∷ [])
    → (s : Life) × (r : Reached order store s) × AllSteps order (IsSmooth order) store r
      × (s.main ≡ returned none)
      × (s.server ≡ closed)
      × (s.relay ≡ stopped)
      × (count_where is_pending s.store.outbox ≡ 1)
late_commit order store c row run none_left p k =
    let (r, smooth) = reaches_late order store c row run none_left k in
    (
      late_end order store c row,
      r,
      smooth,
      refl,
      refl,
      refl,
      late-pending order store c row run none_left k p,
    )

-- When the server fails, `run` does not wait for the relay: from any store a process can return the
-- error at once, with the pool closed, the relay still polling and every row as it was.
pub error_undrained :
    (order : Order) (store : Store) (e : ℕ)
    → (s : Life) × Reached order store s
      × (s.main ≡ returned (some e))
      × (s.has_pool ≡ false)
      × (s.relay ≡ polling)
      × (s.store ≡ store)
error_undrained order store e = (
  return (record (opened store) { server = failed e }) (some e),
  unfold begin in stepped (returns_error e refl refl) (stepped (server_fails e refl) initially),
  refl,
  refl,
  refl,
  refl,
)
