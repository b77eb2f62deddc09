-- ===== src/Database.antt =====
-- The tables of booking-service/migrations that the SQL of booking-service/internal/repo reads and
-- writes. A table is the list of its rows. What PostgreSQL does beyond the text of the statements
-- and of the migrations is a parameter: whether a statement fails (`Option ℕ`), how a commit ends
-- (`CommitReply`), and in which order rows with equal keys are returned (`Order`).
pub mod Sorting
pub mod Commits
pub mod Distinct
use meeting_room_booking_sys.Prelude.{ℕ, ℤ, ◌≤◌, ◌≡◌, List, [], ◌∷◌, Option, none, some, length}
use meeting_room_booking_sys.Model.{
  Booking, Room, Slot, User, BookingEvent, EventType, Error, Result, ok, err, other,
}

pub record OutboxRow : Type 0 where
  pub id : ℕ
  pub event_type : EventType
  pub payload : BookingEvent
  pub created_at : ℕ
  pub sent_at : Option ℕ

-- A row of `schedules`; the two columns of type TIME count minutes.
pub record ScheduleRow : Type 0 where
  pub id : ℕ
  pub room_id : ℕ
  pub days_of_week : List ℤ
  pub start_time : ℕ
  pub end_time : ℕ
  pub created_at : ℕ

pub record Db : Type 0 where
  pub users : List User
  pub rooms : List Room
  pub schedules : List ScheduleRow
  pub slots : List Slot
  pub bookings : List Booking
  pub outbox : List OutboxRow

-- A commit is done and acknowledged, refused, or done with the answer lost on the way.
pub data CommitReply : Type 0 where
  committed : CommitReply
  refused lost : ℕ → CommitReply

abbrev pub commit : {S A : Type 0} → S → S → A → CommitReply → S × Result A
commit before after a committed = (after, ok a)
commit before after a (refused e) = (before, err (other e))
commit before after a (lost e) = (after, err (other e))

-- `Begin`, the statements, `Commit`, with the deferred `Rollback` on every early return.
abbrev pub transaction : {S A : Type 0} → S → Result (S × A) → CommitReply → S × Result A
transaction s (err e) reply = (s, err e)
transaction s (ok (t, a)) reply = commit s t a reply

-- A statement that is a transaction of its own: it is carried out, or it is refused, or it is carried
-- out with its answer lost.
abbrev pub autocommit : {S A : Type 0} → S → Result (S × A) → CommitReply → S × Result A
autocommit s r committed = transaction s r committed
autocommit s r (refused e) = (s, err (other e))
autocommit s r (lost e) = transaction s r (lost e)
