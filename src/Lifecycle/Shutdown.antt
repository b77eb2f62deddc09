-- ===== src/Lifecycle/Shutdown.antt =====
-- What the shutdown of the booking service guarantees, and what it does not.
use meeting_room_booking_sys.Prelude.{
  ℕ, zero, suc, ◌≡◌, ◌≢◌, arith, refl, sym, subst, Bool, true, false, none, some, count_where,
}
use meeting_room_booking_sys.Database.Sorting.{Order}
use meeting_room_booking_sys.Relay.{Store, Poll, is_pending, process_batch, published}
use meeting_room_booking_sys.Relay.Counting.{IsKeyed, pending}
use meeting_room_booking_sys.Relay.Drain.{Succeeds, published_none, pending-process_batch}
use meeting_room_booking_sys.Lifecycle.{
  Server, listening, failed, finishing, closed, Main, serving, shutting_down, awaiting_relay,
  returned, stop_listening, RelayPhase, polling, draining, stopped, relay_after, Life, begin,
  with_rows, Step, commits, server_fails, signals, ticks, begins_drain, drains, stops_drain,
  returns_error, begins_shutdown, ends_shutdown, abandons_shutdown, returns, abandons_relay,
  Reached, initially, stepped,
}
use meeting_room_booking_sys.Lifecycle.Restarts.{Reached-Keeps}

-- Nothing fails in the step, and no timeout ends what it ends.
abbrev pub IsSmooth : (order : Order) (s t : Life) → Step order s t → Type 0
IsSmooth order s t (commits rows p c k) = Unit {0}
IsSmooth order s t (server_fails e l) = true ≡ false
IsSmooth order s t signals = Unit {0}
IsSmooth order s t (ticks c r p) = Succeeds c
IsSmooth order s t (begins_drain r g) = Unit {0}
IsSmooth order s t (drains c r p) = Succeeds c
IsSmooth order s t (stops_drain r) = true ≡ false
IsSmooth order s t (returns_error e m f) = true ≡ false
IsSmooth order s t (begins_shutdown m g) = Unit {0}
IsSmooth order s t (ends_shutdown m) = Unit {0}
IsSmooth order s t (abandons_shutdown m) = true ≡ false
IsSmooth order s t (returns m r) = Unit {0}
IsSmooth order s t (abandons_relay m) = true ≡ false

-- If the step is a commit, the relay has not begun its drain.
abbrev pub IsEarly : (order : Order) (s t : Life) → Step order s t → Type 0
IsEarly order s t (commits rows p c k) = s.relay ≡ polling
IsEarly order s t other = Unit {0}

abbrev pub AllSteps :
    (order : Order) (P : (s t : Life) → Step order s t → Type 0) (store : Store) {s : Life}
    → Reached order store s
    → Type 0
AllSteps order P store initially = Unit {0}
AllSteps order P store (stepped {before} {now} st earlier) =
    P before now st × AllSteps order P store earlier

-- The relay has stopped only when nothing is pending.
abbrev Emptied : RelayPhase → Store → Type 0
Emptied polling store = Unit {0}
Emptied draining store = Unit {0}
Emptied stopped store = pending store ≡ 0

Emptied-at :
    (phase at : RelayPhase) (store : Store) → phase ≡ at → Emptied at store → Emptied phase store
Emptied-at phase at store e h = subst (λ p. Emptied p store) (sym e) h

Emptied-after :
    (n : ℕ) (store : Store) → (n ≡ 0 → pending store ≡ 0) → Emptied (relay_after n) store
Emptied-after zero store h = h refl
Emptied-after (suc n) store h = tt

drains-Emptied :
    (order : Order) (c : Poll) (s : Store)
    → Succeeds c
    → IsKeyed s.outbox
    → Emptied (relay_after (published (process_batch order s c).1)) (process_batch order s c).0
drains-Emptied order c s run k =
    Emptied-after (published (process_batch order s c).1) (process_batch order s c).0 (λ e.
      omega (arith, (published_none order c s run k).0 e, pending-process_batch order c s run k))

Step-Emptied :
    (order : Order) {s t : Life} (st : Step order s t)
    → IsSmooth order s t st
    → IsEarly order s t st
    → IsKeyed s.store.outbox
    → Emptied s.relay s.store
    → Emptied t.relay t.store
Step-Emptied order {s} (commits rows p c k) q early id v =
    Emptied-at s.relay polling (with_rows s.store rows) early tt
Step-Emptied order {s} (server_fails e l) q early id v = v
Step-Emptied order {s} signals q early id v = v
Step-Emptied order {s} (ticks c r p) q early id v =
    Emptied-at s.relay polling (process_batch order s.store c).0 r tt
Step-Emptied order {s} (begins_drain r g) q early id v = tt
Step-Emptied order {s} (drains c r p) q early id v = drains-Emptied order c s.store q id
Step-Emptied order {s} (stops_drain r) q early id v = cc
Step-Emptied order {s} (returns_error e m f) q early id v = v
Step-Emptied order {s} (begins_shutdown m g) q early id v = v
Step-Emptied order {s} (ends_shutdown m) q early id v = v
Step-Emptied order {s} (abandons_shutdown m) q early id v = v
Step-Emptied order {s} (returns m r) q early id v = v
Step-Emptied order {s} (abandons_relay m) q early id v = v

Reached-Emptied :
    (order : Order) (store : Store) {s : Life} (r : Reached order store s)
    → AllSteps order (IsSmooth order) store r
    → AllSteps order (IsEarly order) store r
    → IsKeyed store.outbox
    → Emptied s.relay s.store
Reached-Emptied order store initially q early k = unfold begin in tt
Reached-Emptied order store (stepped st earlier) q early k =
    Step-Emptied order st q.0 early.0 (Reached-Keeps order store k earlier).keyed
      (Reached-Emptied order store earlier q.1 early.1 k)

-- A process of the booking service that starts with distinct keys, in which nothing fails and no
-- timeout ends, and in which no request commits once the relay has begun its drain: when the relay
-- has stopped, no row of the outbox is pending.
pub quiet_drained :
    (order : Order) (store : Store) (s : Life) (r : Reached order store s)
    → AllSteps order (IsSmooth order) store r
    → AllSteps order (IsEarly order) store r
    → IsKeyed store.outbox
    → s.relay ≡ stopped
    → count_where is_pending s.store.outbox ≡ 0
quiet_drained order store s r q early k e =
    subst (λ p. Emptied p s.store) e (Reached-Emptied order store r q early k)

-- What fits to where `run` is: whether there is a pool, whether the signal was given, and the server.
abbrev pub Fits : Main → Bool → Bool → Server → Type 0
Fits serving pool signal server = (pool ≡ true) × (server ≢ finishing) × (server ≢ closed)
Fits shutting_down pool signal server =
    (pool ≡ true) × (signal ≡ true) × (server ≢ listening) × (server ≢ closed)
Fits awaiting_relay pool signal server = (pool ≡ true) × (signal ≡ true) × (server ≢ listening)
Fits (returned none) pool signal server = (pool ≡ false) × (signal ≡ true) × (server ≢ listening)
Fits (returned (some e)) pool signal server = (pool ≡ false) × (signal ≡ true) × (server ≡ failed e)

abbrev pub IsOrderly : Life → Type 0
IsOrderly s =
    Fits s.main s.has_pool s.is_signalled s.server × (s.relay ≢ polling → s.is_signalled ≡ true)

module _ (pool signal : Bool) (server : Server) where
  Fits-at : (m at : Main) → m ≡ at → Fits m pool signal server → Fits at pool signal server
  Fits-at m at e h = subst (λ x. Fits x pool signal server) e h

  Fits-signal : (m : Main) → Fits m pool signal server → Fits m pool true server
  Fits-signal serving h = h
  Fits-signal shutting_down h = (h.0, refl, h.2, h.3)
  Fits-signal awaiting_relay h = (h.0, refl, h.2)
  Fits-signal (returned none) h = (h.0, refl, h.2)
  Fits-signal (returned (some e)) h = (h.0, refl, h.2)

  -- Only a server that `run` has not begun to stop can fail.
  Fits-fail :
      (m : Main) (e : ℕ)
      → server ≡ listening
      → Fits m pool signal server
      → Fits m pool signal (failed e)
  Fits-fail serving e l h = (h.0, (λ x. cc), (λ x. cc))
  Fits-fail shutting_down e l h = absurd (h.2 l)
  Fits-fail awaiting_relay e l h = absurd (h.2 l)
  Fits-fail (returned none) e l h = absurd (h.2 l)
  Fits-fail (returned (some x)) e l h = cc (h.2)

stopped_server :
    (server : Server)
    → server ≢ finishing
    → server ≢ closed
    → (stop_listening server ≢ listening) × (stop_listening server ≢ closed)
stopped_server listening f c = ((λ x. cc), (λ x. cc))
stopped_server (failed e) f c = ((λ x. cc), (λ x. cc))
stopped_server finishing f c = absurd (f refl)
stopped_server closed f c = absurd (c refl)

Step-IsOrderly : (order : Order) {s t : Life} → Step order s t → IsOrderly s → IsOrderly t
Step-IsOrderly order {s} (commits rows p c k) v = v
Step-IsOrderly order {s} (server_fails e l) (m, r) = (Fits-fail _ _ _ s.main e l m, r)
Step-IsOrderly order {s} signals (m, r) = (Fits-signal _ _ _ s.main m, λ x. refl)
Step-IsOrderly order {s} (ticks c p h) v = v
Step-IsOrderly order {s} (begins_drain p g) (m, r) = (m, λ x. g)
Step-IsOrderly order {s} (drains c p h) (m, r) = (m, λ x. r (λ y. cc))
Step-IsOrderly order {s} (stops_drain p) (m, r) = (m, λ x. r (λ y. cc))
Step-IsOrderly order {s} (returns_error e a f) (m, r) = ((refl, refl, f), λ x. refl)
Step-IsOrderly order {s} (begins_shutdown a g) (m, r) =
    let h = Fits-at _ _ _ s.main serving a m in
    let stop = stopped_server s.server h.1 h.2 in ((h.0, g, stop.0, stop.1), r)
Step-IsOrderly order {s} (ends_shutdown a) (m, r) =
    let h = Fits-at _ _ _ s.main shutting_down a m in ((h.0, h.1, λ x. cc), r)
Step-IsOrderly order {s} (abandons_shutdown a) (m, r) =
    let h = Fits-at _ _ _ s.main shutting_down a m in ((h.0, h.1, h.2), r)
Step-IsOrderly order {s} (returns a p) (m, r) =
    let h = Fits-at _ _ _ s.main awaiting_relay a m in ((refl, refl, h.2), λ x. refl)
Step-IsOrderly order {s} (abandons_relay a) (m, r) =
    let h = Fits-at _ _ _ s.main awaiting_relay a m in ((refl, refl, h.2), λ x. refl)

-- In every interleaving of a process of the booking service: the pool is there until `run` returns,
-- and closed from then on; the server accepts no request once `run` has begun the shutdown; `run`
-- returns an error only if the server failed with it; and the relay drains, and `run` shuts down or
-- has returned, only when the context is done.
pub Reached-IsOrderly :
    (order : Order) (store : Store) {s : Life} → Reached order store s → IsOrderly s
Reached-IsOrderly order store initially =
    unfold begin in ((refl, (λ x. cc), (λ x. cc)), λ x. absurd (x refl))
Reached-IsOrderly order store (stepped st earlier) =
    Step-IsOrderly order st (Reached-IsOrderly order store earlier)
