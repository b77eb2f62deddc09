-- ===== src/Bookings.antt =====
-- booking-service/internal/repo/booking/booking.go, with the constraints of
-- booking-service/migrations on the tables that its statements write.
-- Each statement is a function on the tables; a call takes the time of its transaction, the
-- identifiers that `gen_random_uuid` and `uuid.New` give, and what fails (`Call`).
pub mod Events
pub mod Validity
pub mod Creation
pub mod Cancellation
pub mod Freeing
pub mod Listing
pub mod Calendar
pub mod Offers
use meeting_room_booking_sys.Prelude.{
  ℕ, ◌-◌, ◌*◌, ◌==◌, ◌&&◌, ◌||◌, not, if◌then◌else◌, any, select, find_first, update_where, take,
  drop, length, leb, List, [], ◌∷◌, ◌++◌, map, Option, none, some, Bool,
}
use Prim.Native.String.{String}
use meeting_room_booking_sys.Model.{
  Booking, Slot, Room, BookingEvent, EventType, event_booking_created, event_booking_cancelled,
  active, cancelled, is_active, Error, slot_already_booked, slot_not_found, booking_not_found,
  other, Result, ok, err, ◌>>=◌, ◌>>◌, attempt,
}
use meeting_room_booking_sys.Database.{Db, OutboxRow, CommitReply, transaction, commit}
use meeting_room_booking_sys.Database.Sorting.{Order}

-- The foreign keys of the table `bookings`.
pub data Constraint : Type 0 where
  bookings_slot_id_fkey bookings_user_id_fkey : Constraint

-- What `errors.As` to `*pgconn.PgError` finds: a violated constraint, or anything else.
pub data PgError : Type 0 where
  unique_violation : PgError
  foreign_key_violation : Constraint → PgError
  failed : ℕ → PgError

-- The numbers of the errors that are no sentinel.
abbrev pub unexpected_fk_violation : ℕ
unexpected_fk_violation = 1

abbrev pub outbox_id_taken : ℕ
outbox_id_taken = 2

-- One call of `CreateBooking` or `CancelBooking`: `none` is a statement that the database carries
-- out.
pub record Call : Type 0 where
  pub now : ℕ
  pub new_id : ℕ
  pub outbox_id : ℕ
  pub begin_fails : Option ℕ
  pub statement_fails : Option ℕ
  pub outbox_fails : Option ℕ
  pub commit_reply : CommitReply

abbrev pub has_id : ℕ → Booking → Bool
has_id id b = b.id == id

-- The partial unique index `idx_bookings_slot_active`.
abbrev pub holds_slot : ℕ → Booking → Bool
holds_slot slot_id b = is_active b.status && b.slot_id == slot_id

abbrev pub new_booking : Call → ℕ → ℕ → Booking
new_booking c slot_id user_id = record {
  id = c.new_id;
  slot_id = slot_id;
  user_id = user_id;
  status = active;
  conference_link = none;
  created_at = c.now;
}

-- The error of `Scan`, as the `switch` reads it.
abbrev pub create_error : PgError → Error
create_error unique_violation = slot_already_booked
create_error (foreign_key_violation bookings_slot_id_fkey) = slot_not_found
create_error (foreign_key_violation bookings_user_id_fkey) = other unexpected_fk_violation
create_error (failed e) = other e

abbrev pub reject : {A : Type 0} → PgError → Result A
reject e = err (create_error e)

-- INSERT INTO bookings: the unique indexes are checked first, the foreign keys after the statement.
unfoldable pub insert_booking : Db → Call → ℕ → ℕ → Result (Db × Booking)
insert_booking db c slot_id user_id = elim c.statement_fails [
  | some e ↦ reject (failed e)
  | none ↦
      if any (λ b. has_id c.new_id b || holds_slot slot_id b) db.bookings
      then reject unique_violation
      else if not (any (λ s. s.id == slot_id) db.slots)
      then reject (foreign_key_violation bookings_slot_id_fkey)
      else if not (any (λ u. u.id == user_id) db.users)
      then reject (foreign_key_violation bookings_user_id_fkey)
      else ok (
        record db { bookings = db.bookings ++ new_booking c slot_id user_id ∷ [] },
        new_booking c slot_id user_id,
      )
]

-- FROM slots s JOIN rooms r ON r.id = s.room_id
unfoldable pub join_rooms : List Slot → List Room → List (Slot × Room)
join_rooms [] rooms = []
join_rooms (s ∷ slots) rooms =
    map (λ r. (s, r)) (select (λ r. r.id == s.room_id) rooms) ++ join_rooms slots rooms

abbrev pub event_of : EventType → Call → Booking → Slot → Room → BookingEvent
event_of type c b s r = record {
  event_id = c.outbox_id;
  event_type = type;
  occurred_at = c.now;
  booking_id = b.id;
  user_id = b.user_id;
  room_id = r.id;
  room_name = r.name;
  slot_start = s.start_at;
  slot_end = s.end_at;
}

abbrev pub outbox_row : EventType → Call → Booking → Slot × Room → OutboxRow
outbox_row type c b (s, r) = record {
  id = c.outbox_id;
  event_type = type;
  payload = event_of type c b s r;
  created_at = c.now;
  sent_at = none;
}

-- The rows of the SELECT that feeds INSERT INTO outbox.
unfoldable pub event_rows : Db → EventType → Call → Booking → ℕ → List OutboxRow
unfolding join_rooms
event_rows db type c b slot_id =
    map (outbox_row type c b) (join_rooms (select (λ s. s.id == slot_id) db.slots) db.rooms)

-- The primary key of `outbox` refuses a second row with an identifier.
unfoldable pub insert_rows : List OutboxRow → List OutboxRow → Result (List OutboxRow)
insert_rows table [] = ok table
insert_rows table (r ∷ rows) =
    let rest = insert_rows (table ++ r ∷ []) rows in
    if any (λ o. o.id == r.id) table then err (other outbox_id_taken) else rest

unfoldable pub log_event : Db → EventType → Call → Booking → ℕ → Result (Db × Booking)
unfolding event_rows insert_rows
log_event db type c b slot_id = do
  attempt c.outbox_fails
  table ← insert_rows db.outbox (event_rows db type c b slot_id)
  ok (record db { outbox = table }, b)

unfoldable pub create_booking : Db → Call → ℕ → ℕ → Db × Result Booking
unfolding insert_booking
create_booking db c slot_id user_id =
    transaction db
      (do
        attempt c.begin_fails
        (inserted, b) ← insert_booking db c slot_id user_id
        log_event inserted event_booking_created c b slot_id)
      c.commit_reply

abbrev pub or_not_found : Option Booking → Result Booking
or_not_found none = err booking_not_found
or_not_found (some b) = ok b

unfoldable pub get_booking_by_id : Db → Option ℕ → ℕ → Result Booking
get_booking_by_id db fails id = attempt fails >> or_not_found (find_first (has_id id) db.bookings)

-- WHERE id = $1 AND status = 'active' AND user_id = $2
abbrev pub can_cancel : ℕ → ℕ → Booking → Bool
can_cancel id user_id b = (b.id == id && is_active b.status) && b.user_id == user_id

abbrev pub cancel : Booking → Booking
cancel b = record b { status = cancelled }

-- UPDATE bookings ... RETURNING: `ok none` is `pgx.ErrNoRows`.
unfoldable pub update_cancelled : Db → Call → ℕ → ℕ → Result (Option (Db × Booking))
update_cancelled db c id user_id = elim c.statement_fails [
  | some e ↦ err (other e)
  | none ↦ elim (find_first (can_cancel id user_id) db.bookings) [
    | none ↦ ok none
    | some b ↦ ok (
        some (
          record db { bookings = update_where (can_cancel id user_id) cancel db.bookings },
          cancel b,
        ))
  ]
]

abbrev pub owned_by : ℕ → Booking → Result Booking
owned_by user_id b = if b.user_id == user_id then ok b else err booking_not_found

unfoldable pub diagnose_cancel_failure : Db → Option ℕ → ℕ → ℕ → Result Booking
unfolding get_booking_by_id
diagnose_cancel_failure db fails id user_id = get_booking_by_id db fails id >>= owned_by user_id

-- `later` is what other requests do to the database between the rollback and the diagnostic query,
-- which `outbox_fails` may make fail.
unfoldable pub cancel_booking : Db → Call → (Db → Db) → ℕ → ℕ → Db × Result Booking
unfolding update_cancelled diagnose_cancel_failure
cancel_booking db c later id user_id = elim c.begin_fails [
  | some e ↦ (db, err (other e))
  | none ↦ elim (update_cancelled db c id user_id) [
    | err e ↦ (db, err e)
    | ok none ↦ (later db, diagnose_cancel_failure (later db) c.outbox_fails id user_id)
    | ok (some (updated, b)) ↦
        transaction db (log_event updated event_booking_cancelled c b b.slot_id) c.commit_reply
  ]
]

-- COUNT(*) OVER() stands in each row of the page, so `total` keeps its zero if the page is empty.
abbrev pub total_of : {A : Type 0} → List A → ℕ → ℕ
total_of [] n = 0
total_of (r ∷ rows) n = n

-- PostgreSQL refuses a negative OFFSET, which page 0 has unless the page size is 0. The handlers ask
-- for pages from 1 on.
abbrev pub negative_offset : ℕ
negative_offset = 30

abbrev pub check_offset : ℕ → ℕ → Result (Unit {0})
check_offset page page_size =
    if page == 0 && not (page_size == 0) then err (other negative_offset) else ok tt

unfoldable pub list_bookings : Order → Db → Option ℕ → ℕ → ℕ → Result (List Booking × ℕ)
list_bookings order db fails page page_size = do
  attempt fails
  check_offset page page_size
  let rows =
      take page_size
        (drop ((page - 1) * page_size) (order.desc Booking (λ b. b.created_at) db.bookings))
  ok (rows, total_of rows (length db.bookings))

-- FROM bookings b JOIN slots s ON s.id = b.slot_id
unfoldable pub join_slots : List Booking → List Slot → List (Booking × Slot)
join_slots [] slots = []
join_slots (b ∷ bookings) slots =
    map (λ s. (b, s)) (select (λ s. s.id == b.slot_id) slots) ++ join_slots bookings slots

abbrev pub is_upcoming : ℕ → ℕ → Booking × Slot → Bool
is_upcoming user_id now (b, s) = (b.user_id == user_id && is_active b.status) && leb now s.start_at

unfoldable pub list_user_bookings : Order → Db → Option ℕ → ℕ → ℕ → Result (List Booking)
unfolding join_slots
list_user_bookings order db fails user_id now = do
  attempt fails
  let rows = select (is_upcoming user_id now) (join_slots db.bookings db.slots)
  ok (map (λ r. r.0) (order.asc (Booking × Slot) (λ r. r.1.start_at) rows))

abbrev pub link : String → Booking → Booking
link l b = record b { conference_link = some l }

unfoldable pub update_conference_link : Db → CommitReply → ℕ → String → Db × Result (Unit {0})
update_conference_link db reply id l =
    commit db (record db { bookings = update_where (has_id id) (link l) db.bookings }) tt reply
