-- ===== src/Schedules.antt =====
-- booking-service/internal/repo/schedule/schedule.go, with the constraints of the migration 0003,
-- booking-service/internal/service/schedule/schedule.go, which passes its results on, and
-- `RoomExists` of booking-service/internal/repo/room/room.go.
-- `cast_time` is PostgreSQL's cast of a text to TIME, as a number of minutes.
pub mod Storage
use meeting_room_booking_sys.Prelude.{
  ℕ, ℤ, to_int32, ◌==◌, leb, not, if◌then◌else◌, any, find_first, List, [], ◌∷◌, ◌++◌, map, Option,
  none, some, Bool, true, false,
}
use meeting_room_booking_sys.Model.{
  Schedule, room_not_found, schedule_exists, schedule_not_found, other, Result, ok, err, ◌>>=◌,
  ◌>>◌, attempt,
}
use meeting_room_booking_sys.Database.{Db, ScheduleRow, CommitReply, autocommit}
use meeting_room_booking_sys.Clock.{to_char}

-- The numbers of the errors that are no sentinel.
abbrev pub bad_time_text : ℕ
bad_time_text = 9

abbrev pub check_violation : ℕ
check_violation = 10

-- The columns that RETURNING and SELECT give, with TO_CHAR of the two times.
unfoldable pub to_schedule : ScheduleRow → Schedule
unfolding to_char
to_schedule r = record {
  id = r.id;
  room_id = r.room_id;
  days_of_week = r.days_of_week;
  start_time = to_char r.start_time;
  end_time = to_char r.end_time;
  created_at = r.created_at;
}

abbrev pub is_empty : {A : Type 0} → List A → Bool
is_empty [] = true
is_empty (x ∷ xs) = false

abbrev pub cast : (List ℕ → Option ℕ) → List ℕ → Result ℕ
cast cast_time text = elim (cast_time text) [ none ↦ err (other bad_time_text) | some t ↦ ok t ]

-- The casts, the CHECKs, the unique indexes and the foreign key, in the order of the database.
unfoldable pub insert_schedule : Db → ScheduleRow → Result (Db × ScheduleRow)
insert_schedule db r =
    if is_empty r.days_of_week
    then err (other check_violation)
    else if leb r.end_time r.start_time
    then err (other check_violation)
    else if any (λ s. s.room_id == r.room_id) db.schedules
    then err schedule_exists
    else if any (λ s. s.id == r.id) db.schedules
    then err schedule_exists
    else if not (any (λ m. m.id == r.room_id) db.rooms)
    then err room_not_found
    else ok (record db { schedules = db.schedules ++ r ∷ [] }, r)

abbrev pub answered : Db × Result ScheduleRow → Db × Result Schedule
answered (db, err e) = (db, err e)
answered (db, ok r) = (db, ok (to_schedule r))

-- The casts of the two times are part of the statement.
abbrev pub cast_and_insert :
    (List ℕ → Option ℕ) → Db → ℕ → ℕ → ℕ → List ℤ → List ℕ → List ℕ → Result (Db × ScheduleRow)
cast_and_insert cast_time db new_id now room_id days_of_week start_time end_time = do
  start ← cast cast_time start_time
  end ← cast cast_time end_time
  insert_schedule db (record {
    id = new_id;
    room_id = room_id;
    days_of_week = map to_int32 days_of_week;
    start_time = start;
    end_time = end;
    created_at = now;
  })

unfoldable pub create_schedule :
    (List ℕ → Option ℕ)
    → Db
    → CommitReply
    → ℕ
    → ℕ
    → ℕ
    → List ℤ
    → List ℕ
    → List ℕ
    → Db × Result Schedule
unfolding insert_schedule to_schedule
create_schedule cast_time db reply new_id now room_id days_of_week start_time end_time = answered (
    autocommit db (cast_and_insert cast_time db new_id now room_id days_of_week start_time end_time)
      reply)

abbrev pub or_no_schedule : Option ScheduleRow → Result Schedule
or_no_schedule none = err schedule_not_found
or_no_schedule (some r) = ok (to_schedule r)

unfoldable pub get_schedule_by_room_id : Db → Option ℕ → ℕ → Result Schedule
unfolding to_schedule
get_schedule_by_room_id db fails room_id =
    attempt fails >> or_no_schedule (find_first (λ s. s.room_id == room_id) db.schedules)

-- SELECT EXISTS(SELECT 1 FROM rooms WHERE id = $1)
unfoldable pub room_exists : Db → Option ℕ → ℕ → Result Bool
room_exists db fails room_id = attempt fails >> ok (any (λ m. m.id == room_id) db.rooms)
