-- ===== src/Consumer/Supervision.antt =====
-- No error of the broker makes the consumer lose a message that the reader delivers.
use meeting_room_booking_sys.Prelude.{
  ℕ, suc, ◌≤◌, ◌<◌, ◌≡◌, ◌⊎◌, inl, inr, refl, ap, ◌∙◌, arith, true, false, length, All, List, [],
  ◌∷◌, Option, none, some,
}
use meeting_room_booking_sys.Model.{BookingEvent}
use meeting_room_booking_sys.Notifications.{Service}
use meeting_room_booking_sys.Consumer.{
  Fetch, message, context_done, fetch_failed, Outcome, waiting, stopped, fetch_error, commit_error,
  process, after_commit, run, unread, unread_after, Pause, after_second, context_done_meanwhile,
  restarted, supervise,
}

-- The context is not done while the reader waits for a message.
abbrev pub IsLive : Fetch → Type 0
IsLive (message d) = Unit {0}
IsLive context_done = true ≡ false
IsLive (fetch_failed e) = Unit {0}

abbrev pub IsRestart : Pause → Type 0
IsRestart context_done_meanwhile = true ≡ false
IsRestart after_second = Unit {0}

module _ (decode : List ℕ → Option BookingEvent) where
  -- Every message that is delivered, processed once and in order.
  abbrev pub processed : Service → List Fetch → Service
  processed s [] = s
  processed s (message d ∷ fetches) = processed (process decode s d) fetches
  processed s (context_done ∷ fetches) = processed s fetches
  processed s (fetch_failed e ∷ fetches) = processed s fetches

  abbrev IsError : Outcome → Type 0
  IsError o = ((e : ℕ) × (o ≡ fetch_error e)) ⊎ ((e : ℕ) × (o ≡ commit_error e))

  -- `Run` waits with everything processed, or stops at an error and leaves a shorter rest from which
  -- everything would be processed.
  abbrev RunsTo : List Fetch → ℕ → Service → Service × ℕ × Outcome → Type 0
  RunsTo left n all (t, k, o) =
      ((o ≡ waiting) × (t ≡ all)) ⊎ (IsError o × (processed t left ≡ all) × (length left < n))

  after_commit-RunsTo :
      (c : Option ℕ) (t : Service) (fetches : List Fetch) (r : Service × ℕ × Outcome)
      → RunsTo (unread fetches) (length fetches) (processed t fetches) r
      → RunsTo
          (unread_after c fetches (unread fetches))
          (suc (length fetches))
          (processed t fetches)
          (after_commit decode c t r)
  after_commit-RunsTo none t fetches (u, k, o) (inl done) = inl done
  after_commit-RunsTo none t fetches (u, k, o) (inr (e, rest, shorter)) =
      inr (e, rest, omega (arith, shorter))
  after_commit-RunsTo (some e) t fetches r h = inr (inr (e, refl), refl, omega arith)

  run-RunsTo :
      (s : Service) (fetches : List Fetch)
      → All IsLive fetches
      → RunsTo (unread fetches) (length fetches) (processed s fetches) (run decode s fetches)
  unfolding run unread
  run-RunsTo s [] live = inl (refl, refl)
  run-RunsTo s (message d ∷ fetches) live =
      after_commit-RunsTo d.commit_fails (process decode s d) fetches _
        (run-RunsTo (process decode s d) fetches live.1)
  run-RunsTo s (context_done ∷ fetches) live = cc (live.0)
  run-RunsTo s (fetch_failed e ∷ fetches) live = inr (inl (e, refl), refl, omega arith)

  unread_after-IsLive :
      (c : Option ℕ) (fetches rest : List Fetch)
      → All IsLive fetches
      → All IsLive rest
      → All IsLive (unread_after c fetches rest)
  unread_after-IsLive none fetches rest live later = later
  unread_after-IsLive (some e) fetches rest live later = live

  unread-IsLive : (fetches : List Fetch) → All IsLive fetches → All IsLive (unread fetches)
  unfolding unread
  unread-IsLive [] live = tt
  unread-IsLive (message d ∷ fetches) live =
      unread_after-IsLive d.commit_fails fetches (unread fetches) live.1
        (unread-IsLive fetches live.1)
  unread-IsLive (context_done ∷ fetches) live = live.1
  unread-IsLive (fetch_failed e ∷ fetches) live = live.1

  restarted-processed :
      (again : Service → Service × Outcome) (left : List Fetch) (n : ℕ) (all : Service)
      (r : Service × ℕ × Outcome)
      → RunsTo left n all r
      → ((t : Service) → processed t left ≡ all → length left < n → again t ≡ (all, waiting))
      → restarted decode again (some after_second) r ≡ (all, waiting)
  restarted-processed again left n all (t, k, waiting) (inl (w, d)) h = ap (λ u. (u, waiting)) d
  restarted-processed again left n all (t, k, waiting) (inr (inl (e, q), p, l)) h = cc
  restarted-processed again left n all (t, k, waiting) (inr (inr (e, q), p, l)) h = cc
  restarted-processed again left n all (t, k, stopped) (inl (w, d)) h = cc
  restarted-processed again left n all (t, k, stopped) (inr (inl (e, q), p, l)) h = cc
  restarted-processed again left n all (t, k, stopped) (inr (inr (e, q), p, l)) h = cc
  restarted-processed again left n all (t, k, fetch_error e) (inl (w, d)) h = cc
  restarted-processed again left n all (t, k, fetch_error e) (inr (q, p, l)) h = h t p l
  restarted-processed again left n all (t, k, commit_error e) (inl (w, d)) h = cc
  restarted-processed again left n all (t, k, commit_error e) (inr (q, p, l)) h = h t p l

  -- While the context is not done, and with as many restarts as the reader gives messages and errors,
  -- the consumer ends up waiting for the next message and has processed every message that was
  -- delivered once and in order, whichever fetches and commits failed.
  pub supervise_processes :
      (pauses : List Pause) (s : Service) (fetches : List Fetch)
      → All IsRestart pauses
      → All IsLive fetches
      → length fetches ≤ length pauses
      → supervise decode pauses s fetches ≡ (processed s fetches, waiting)
  unfolding supervise
  supervise_processes [] s [] restarts live enough = refl
  supervise_processes [] s (f ∷ fetches) restarts live enough = absurd (omega arith)
  supervise_processes (context_done_meanwhile ∷ pauses) s fetches restarts live enough =
      cc (restarts.0)
  supervise_processes (after_second ∷ pauses) s fetches restarts live enough =
      restarted-processed (λ t. supervise decode pauses t (unread fetches)) (unread fetches)
        (length fetches) (processed s fetches) (run decode s fetches) (run-RunsTo s fetches live)
        (λ t rest shorter.
          supervise_processes pauses t (unread fetches) restarts.1 (unread-IsLive fetches live)
            (omega arith)
          ∙ ap (λ u. (u, waiting)) rest)
