-- ===== src/Consumer/Progress.antt =====
-- No message blocks the topic, and no sequence of messages announces an event twice.
use meeting_room_booking_sys.Prelude.{
  ℕ, suc, ◌≡◌, refl, ap, List, [], ◌∷◌, map, Option, none, some, All, length, subst, sym,
  Option-cases, inl, inr,
}
use meeting_room_booking_sys.Model.{BookingEvent}
use meeting_room_booking_sys.Notifications.{Service}
use meeting_room_booking_sys.Notifications.Delivery.{IsUnique, create_from_event-IsUnique}
use meeting_room_booking_sys.Consumer.{
  Delivery, Fetch, message, context_done, fetch_failed, Outcome, waiting, process, after_commit,
  run,
}

-- So many messages were committed, and the loop waits for the next one.
abbrev pub Ends : Service × ℕ × Outcome → ℕ → Type 0
Ends (s, committed, end) n = (committed ≡ n) × (end ≡ waiting)

module _ (decode : List ℕ → Option BookingEvent) where
  step_progress :
      (s t : Service) (d : Delivery) (n : ℕ) (rest : Service × ℕ × Outcome)
      → d.commit_fails ≡ none
      → Ends rest n
      → Ends (after_commit decode d.commit_fails t rest) (suc n)
  step_progress s t d n (u, m, o) e h =
      subst (λ c. Ends (after_commit decode c t (u, m, o)) (suc n)) (sym e) (ap suc h.0, h.1)

  -- As long as Kafka takes the commits, every message is consumed and committed, whatever its
  -- payload and whatever the database answers: no message stops the loop.
  pub run_commits_each :
      (s : Service) (ds : List Delivery)
      → All (λ d. d.commit_fails ≡ none) ds
      → Ends (run decode s (map message ds)) (length ds)
  unfolding run
  run_commits_each s [] h = (refl, refl)
  run_commits_each s (d ∷ ds) h =
      step_progress s (process decode s d) d (length ds)
        (run decode (process decode s d) (map message ds)) h.0
        (run_commits_each (process decode s d) ds h.1)

  pub process-IsUnique :
      (s : Service) (d : Delivery) → IsUnique s.table → IsUnique (process decode s d).table
  process-IsUnique s d u = elim (Option-cases (decode d.value)) [
    | inl e ↦ rw (e, process) (λ b k. u b k)
    | inr (event, e) ↦
        let kept = create_from_event-IsUnique s d.new_id d.now d.reply event u in
        rw (e, process) (λ b k. kept b k)
  ]

  after_commit-IsUnique :
      (t : Service) (o : Option ℕ) (rest : Service × ℕ × Outcome)
      → IsUnique t.table
      → IsUnique rest.0.table
      → IsUnique (after_commit decode o t rest).0.table
  after_commit-IsUnique t none rest u v = v
  after_commit-IsUnique t (some e) rest u v = u

  -- Whatever the reader returns, with messages delivered again after a crash or a failed commit,
  -- there stays at most one notification of each type for a booking.
  pub run-IsUnique :
      (s : Service) (fetches : List Fetch)
      → IsUnique s.table
      → IsUnique (run decode s fetches).0.table
  unfolding run
  run-IsUnique s [] u = u
  run-IsUnique s (message d ∷ fetches) u =
      let next = process-IsUnique s d u in
      after_commit-IsUnique (process decode s d) d.commit_fails
        (run decode (process decode s d) fetches) next
        (run-IsUnique (process decode s d) fetches next)
  run-IsUnique s (context_done ∷ fetches) u = u
  run-IsUnique s (fetch_failed e ∷ fetches) u = u
