-- ===== src/Consumer.antt =====
-- notification-service/internal/kafka/consumer.go: the loop that reads the topic, and the loop of
-- notification-service/cmd/main.go that runs it again after an error.
-- `decode` stands for `json.Unmarshal`; the reader of segmentio/kafka-go is a list of what
-- `FetchMessage` returns, each message with how the database and `CommitMessages` answer.
pub mod Progress
pub mod Storage
pub mod Supervision
pub mod Offsets
pub mod Commuting
use meeting_room_booking_sys.Prelude.{ℕ, suc, Bool, List, [], ◌∷◌, Option, none, some}
use meeting_room_booking_sys.Model.{BookingEvent, Result, ok, err}
use meeting_room_booking_sys.Database.{CommitReply}
use meeting_room_booking_sys.Notifications.{Service, create_from_event}

pub record Delivery : Type 0 where
  pub value : List ℕ
  pub new_id : ℕ
  pub now : ℕ
  pub reply : CommitReply
  pub commit_fails : Option ℕ

-- `FetchMessage` returns a message, the error of a cancelled context, or another error.
pub data Fetch : Type 0 where
  message : Delivery → Fetch
  context_done : Fetch
  fetch_failed : ℕ → Fetch

-- How `Run` ends: it waits for the next message, returned nil, or returned an error.
pub data Outcome : Type 0 where
  waiting stopped : Outcome
  fetch_error commit_error : ℕ → Outcome

-- What the reader has left after `Run` has returned an error: it goes on behind the message that it
-- fetched last.
abbrev pub unread_after : Option ℕ → List Fetch → List Fetch → List Fetch
unread_after none fetches rest = rest
unread_after (some e) fetches rest = fetches

unfoldable pub unread : List Fetch → List Fetch
unread [] = []
unread (message d ∷ fetches) = unread_after d.commit_fails fetches (unread fetches)
unread (context_done ∷ fetches) = fetches
unread (fetch_failed e ∷ fetches) = fetches

-- How the loop around `Run` goes on when `Run` has ended: the context may be done during the pause
-- of a second.
pub data Pause : Type 0 where
  context_done_meanwhile after_second : Pause

module _ (decode : List ℕ → Option BookingEvent) where
  -- The processing of one message; its error is logged and counted only.
  abbrev pub process : Service → Delivery → Service
  process s d = elim (decode d.value) [
    | none ↦ s
    | some event ↦ (create_from_event s d.new_id d.now d.reply event).0
  ]

  abbrev pub after_commit : Option ℕ → Service → Service × ℕ × Outcome → Service × ℕ × Outcome
  after_commit none s (t, n, o) = (t, suc n, o)
  after_commit (some e) s rest = (s, 0, commit_error e)

  -- The service afterwards, the number of committed messages, and the end.
  unfoldable pub run : Service → List Fetch → Service × ℕ × Outcome
  unfolding create_from_event
  run s [] = (s, 0, waiting)
  run s (message d ∷ fetches) =
      let t = process s d in let rest = run t fetches in after_commit d.commit_fails t rest
  run s (context_done ∷ fetches) = (s, 0, stopped)
  run s (fetch_failed e ∷ fetches) = (s, 0, fetch_error e)

  abbrev pub restarted :
      (Service → Service × Outcome) → Option Pause → Service × ℕ × Outcome → Service × Outcome
  restarted again pause (t, n, waiting) = (t, waiting)
  restarted again pause (t, n, stopped) = (t, stopped)
  restarted again none (t, n, o) = (t, o)
  restarted again (some context_done_meanwhile) (t, n, o) = (t, stopped)
  restarted again (some after_second) (t, n, o) = again t

  -- The goroutine of main.go, with the pauses after its errors; it is in a pause that has not ended
  -- where the list of them ends.
  unfoldable pub supervise : List Pause → Service → List Fetch → Service × Outcome
  unfolding run unread
  supervise [] s fetches = restarted (λ t. (t, waiting)) none (run s fetches)
  supervise (p ∷ pauses) s fetches =
      restarted (λ t. supervise pauses t (unread fetches)) (some p) (run s fetches)
