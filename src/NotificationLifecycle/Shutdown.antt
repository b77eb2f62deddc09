-- ===== src/NotificationLifecycle/Shutdown.antt =====
-- What holds whenever the process of the notification service ends.
use meeting_room_booking_sys.Prelude.{
  ℕ, ◌≡◌, ◌≢◌, refl, subst, Bool, true, false, List, Option, none, some,
}
use meeting_room_booking_sys.Model.{BookingEvent}
use meeting_room_booking_sys.Notifications.{Service}
use meeting_room_booking_sys.Consumer.Offsets.{Group, resume}
use meeting_room_booking_sys.Consumer.Offsets
use meeting_room_booking_sys.NotificationLifecycle.{
  Server, listening, failed, finishing, closed, cut, stop_listening, Main, serving, failing,
  shutting_down, awaiting_consumer, returned, Life, begin, Step, consumes, ends_consumer, marks,
  marks_all, opens_stream, closes_stream, server_fails, signals, begins_failing, returns_error,
  begins_shutdown, ends_shutdown, cuts_connections, returns, Reached, initially, stepped, Lives,
  unstarted, lived,
}

-- What fits to where `run` is: the pool and the reader, the consumer, the signal, and the server.
abbrev pub Fits : Main → Bool → Bool → Bool → Bool → Server → Type 0
Fits serving pool reader consuming signal server =
    (pool ≡ true) × (reader ≡ true) × (server ≢ finishing) × (server ≢ closed) × (server ≢ cut)
Fits (failing e) pool reader consuming signal server =
    (pool ≡ true) × (reader ≡ true) × (signal ≡ true) × (server ≡ failed e)
Fits shutting_down pool reader consuming signal server =
    (pool ≡ true) × (reader ≡ true) × (signal ≡ true) × (server ≢ listening)
Fits awaiting_consumer pool reader consuming signal server =
    (pool ≡ true) × (reader ≡ true) × (signal ≡ true) × (server ≢ listening) × (server ≢ finishing)
Fits (returned none) pool reader consuming signal server =
    (pool ≡ false)
    × (reader ≡ false)
    × (consuming ≡ false)
    × (signal ≡ true)
    × (server ≢ listening)
    × (server ≢ finishing)
Fits (returned (some e)) pool reader consuming signal server =
    (pool ≡ false) × (reader ≡ false) × (consuming ≡ false) × (signal ≡ true) × (server ≡ failed e)

abbrev pub IsSettled : Life → Type 0
IsSettled s =
    Fits s.main s.has_pool s.has_reader s.is_consuming s.is_signalled s.server
    × (s.is_consuming ≡ false → s.is_signalled ≡ true)

module _ (pool reader consuming signal : Bool) (server : Server) where
  Fits-at :
      (m at : Main)
      → m ≡ at
      → Fits m pool reader consuming signal server
      → Fits at pool reader consuming signal server
  Fits-at m at e h = subst (λ x. Fits x pool reader consuming signal server) e h

  Fits-signal :
      (m : Main)
      → Fits m pool reader consuming signal server
      → Fits m pool reader consuming true server
  Fits-signal serving h = h
  Fits-signal (failing e) h = (h.0, h.1, refl, h.3)
  Fits-signal shutting_down h = (h.0, h.1, refl, h.3)
  Fits-signal awaiting_consumer h = (h.0, h.1, refl, h.3, h.4)
  Fits-signal (returned none) h = (h.0, h.1, h.2, refl, h.4, h.5)
  Fits-signal (returned (some e)) h = (h.0, h.1, h.2, refl, h.4)

  Fits-end :
      (m : Main)
      → Fits m pool reader consuming signal server
      → Fits m pool reader false signal server
  Fits-end serving h = h
  Fits-end (failing e) h = h
  Fits-end shutting_down h = h
  Fits-end awaiting_consumer h = h
  Fits-end (returned none) h = (h.0, h.1, refl, h.3, h.4, h.5)
  Fits-end (returned (some e)) h = (h.0, h.1, refl, h.3, h.4)

  -- Only a server that `run` has not begun to stop can fail.
  Fits-fail :
      (m : Main) (e : ℕ)
      → server ≡ listening
      → Fits m pool reader consuming signal server
      → Fits m pool reader consuming signal (failed e)
  Fits-fail serving e l h = (h.0, h.1, (λ x. cc), (λ x. cc), (λ x. cc))
  Fits-fail (failing x) e l h = cc (h.3)
  Fits-fail shutting_down e l h = absurd (h.3 l)
  Fits-fail awaiting_consumer e l h = absurd (h.3 l)
  Fits-fail (returned none) e l h = absurd (h.4 l)
  Fits-fail (returned (some x)) e l h = cc (h.4)

stopped_server : (server : Server) → stop_listening server ≢ listening
stopped_server listening = λ x. cc
stopped_server (failed e) = λ x. cc
stopped_server finishing = λ x. cc
stopped_server closed = λ x. cc
stopped_server cut = λ x. cc

module _ (decode : List ℕ → Option BookingEvent) (topic : ℕ → Option (List ℕ)) where
  Step-IsSettled : {s t : Life} → Step decode topic s t → IsSettled s → IsSettled t
  Step-IsSettled {s} (consumes d is_taken c e) v = v
  Step-IsSettled {s} (ends_consumer c g) (m, r) = (Fits-end _ _ _ _ _ s.main m, λ x. g)
  Step-IsSettled {s} (marks fails reply id user_id p c) v = v
  Step-IsSettled {s} (marks_all reply user_id p c) v = v
  Step-IsSettled {s} (opens_stream l) v = v
  Step-IsSettled {s} (closes_stream n e) v = v
  Step-IsSettled {s} (server_fails e l) (m, r) = (Fits-fail _ _ _ _ _ s.main e l m, r)
  Step-IsSettled {s} signals (m, r) = (Fits-signal _ _ _ _ _ s.main m, λ x. refl)
  Step-IsSettled {s} (begins_failing e a f) (m, r) =
      let h = Fits-at _ _ _ _ _ s.main serving a m in ((h.0, h.1, refl, f), λ x. refl)
  Step-IsSettled {s} (returns_error e a c) (m, r) =
      let h = Fits-at _ _ _ _ _ s.main (failing e) a m in ((refl, refl, c, refl, h.3), λ x. refl)
  Step-IsSettled {s} (begins_shutdown a g) (m, r) =
      let h = Fits-at _ _ _ _ _ s.main serving a m in ((h.0, h.1, g, stopped_server s.server), r)
  Step-IsSettled {s} (ends_shutdown a z) (m, r) =
      let h = Fits-at _ _ _ _ _ s.main shutting_down a m in
      ((h.0, h.1, h.2, (λ x. cc), (λ x. cc)), r)
  Step-IsSettled {s} (cuts_connections a) (m, r) =
      let h = Fits-at _ _ _ _ _ s.main shutting_down a m in
      ((h.0, h.1, h.2, (λ x. cc), (λ x. cc)), r)
  Step-IsSettled {s} (returns a c) (m, r) =
      let h = Fits-at _ _ _ _ _ s.main awaiting_consumer a m in
      ((refl, refl, c, refl, h.3, h.4), λ x. refl)

  -- In every interleaving of a process of the notification service: `run` returns only after the loop
  -- of the consumer has ended, so a message is handled only while the pool and the reader are open;
  -- both are closed from then on; the loop ends only when the context is done; `run` returns an error
  -- only if the server failed with it; and without an error only after the server stopped.
  pub Reached-IsSettled : (g : Group) {s : Life} → Reached decode topic g s → IsSettled s
  Reached-IsSettled g initially =
      unfold begin in ((refl, refl, (λ x. cc), (λ x. cc), (λ x. cc)), λ x. cc)
  Reached-IsSettled g (stepped st earlier) = Step-IsSettled st (Reached-IsSettled g earlier)

  Step-group :
      (from : Service) {s t : Life}
      → Step decode topic s t
      → Offsets.Reached decode topic from s.group
      → Offsets.Reached decode topic from t.group
  Step-group from (consumes d is_taken c e) r = Offsets.stepped (Offsets.handles d is_taken e) r
  Step-group from (marks fails reply id user_id p c) r =
      Offsets.stepped (Offsets.marks fails reply id user_id) r
  Step-group from (marks_all reply user_id p c) r =
      Offsets.stepped (Offsets.marks_all reply user_id) r
  Step-group from (ends_consumer c g) r = r
  Step-group from (opens_stream l) r = r
  Step-group from (closes_stream n e) r = r
  Step-group from (server_fails e l) r = r
  Step-group from signals r = r
  Step-group from (begins_failing e a f) r = r
  Step-group from (returns_error e a c) r = r
  Step-group from (begins_shutdown a g) r = r
  Step-group from (ends_shutdown a z) r = r
  Step-group from (cuts_connections a) r = r
  Step-group from (returns a c) r = r

  Reached-group :
      (from : Service) (g : Group) {s : Life}
      → Reached decode topic g s
      → Offsets.Reached decode topic from g
      → Offsets.Reached decode topic from s.group
  Reached-group from g initially r = unfold begin in r
  Reached-group from g (stepped st earlier) r = Step-group from st (Reached-group from g earlier r)

  -- Whatever the processes of the notification service do, one after another, in any interleaving and
  -- with an end at any moment: their table, position and offset are reached by the consumer of
  -- `Offsets` with its restarts.
  pub Lives-Reached :
      (from : Service) {g : Group} → Lives decode topic from g → Offsets.Reached decode topic from g
  Lives-Reached from unstarted = Offsets.initially
  Lives-Reached from (lived {g} {s} r earlier) =
      Reached-group from (resume g) r
        (Offsets.stepped Offsets.restarts (Lives-Reached from earlier))
