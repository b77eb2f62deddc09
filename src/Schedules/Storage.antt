-- ===== src/Schedules/Storage.antt =====
-- A schedule that was created is the schedule that the slot service reads.
use meeting_room_booking_sys.Prelude.{
  ℕ, ℤ, ◌≡◌, ◌==◌, ◌<◌, refl, sym, ap, ◌∙◌, subst, arith, Bool, false, any, find_first-append,
  ==_refl, List, [], ◌∷◌, ◌++◌, map, to_int32, Option, none,
}
use meeting_room_booking_sys.Model.{Schedule, Result, ok, err, >>=-ok}
use meeting_room_booking_sys.Database.{Db, ScheduleRow, committed, autocommit}
use meeting_room_booking_sys.Schedules.{
  insert_schedule, create_schedule, get_schedule_by_room_id, to_schedule, answered, cast,
}

abbrev pub is_of : ℕ → ScheduleRow → Bool
is_of room_id s = s.room_id == room_id

-- The row is the only one of its room, it opens before it closes, and it stands at the end of the
-- table.
abbrev pub Added : Db → Db → ScheduleRow → Type 0
Added db db' r =
    (any (is_of r.room_id) db.schedules ≡ false)
    × (r.start_time < r.end_time)
    × (db' ≡ record db { schedules = db.schedules ++ r ∷ [] })

pub insert_schedule-Added :
    (db db' : Db) (r s : ScheduleRow)
    → insert_schedule db r ≡ ok (db', s)
    → (r ≡ s) × Added db db' r
unfolding insert_schedule
insert_schedule-Added db db' r s h = (ground arith, (ground arith, ground arith, ground arith))

answered_ok :
    (db db' : Db) (r : Result (Db × ScheduleRow)) (s : Schedule)
    → answered (autocommit db r committed) ≡ (db', ok s)
    → (row : ScheduleRow) × (r ≡ ok (db', row)) × (to_schedule row ≡ s)
answered_ok db db' (err e) s h = cc (ap (λ x. x.1) h)
answered_ok db db' (ok (t, row)) s h =
    let same : ok (to_schedule row) ≡ ok s = ap (λ x. x.1) h in
    (row, ap (λ d. ok (d, row)) (ap (λ x. x.0) h), ground (arith, same))

read_back :
    (db db' : Db) (r : ScheduleRow)
    → Added db db' r
    → get_schedule_by_room_id db' none r.room_id ≡ ok (to_schedule r)
unfolding get_schedule_by_room_id
read_back db db' r (fresh, opens, added) =
    subst (λ d. get_schedule_by_room_id d none r.room_id ≡ ok (to_schedule r)) (sym added)
      (rw (find_first-append (is_of r.room_id) db.schedules r fresh (==_refl r.room_id)) refl)

-- If `CreateSchedule` succeeds, `GetScheduleByRoomID` answers the schedule that it answered, which is
-- the room's, on the days of the request as the database keeps them.
pub get_schedule-create_schedule :
    (cast_time : List ℕ → Option ℕ) (db db' : Db) (new_id now room_id : ℕ) (days : List ℤ)
    (start_time end_time : List ℕ) (s : Schedule)
    → create_schedule cast_time db committed new_id now room_id days start_time end_time
      ≡ (db', ok s)
    → (get_schedule_by_room_id db' none room_id ≡ ok s)
      × (s.room_id ≡ room_id)
      × (s.days_of_week ≡ map to_int32 days)
unfolding create_schedule to_schedule
get_schedule-create_schedule cast_time db db' new_id now room_id days start_time end_time s h =
    let (row, made, shown) = answered_ok db db' _ s h in
    let (opening, cast_opening, rest) = >>=-ok _ (cast cast_time start_time) (db', row) made in
    let (closing, cast_closing, inserted) = >>=-ok _ (cast cast_time end_time) (db', row) rest in
    let (same, added) = insert_schedule-Added db db' _ row inserted in
    let read = read_back db db' _ added in
    subst
      (λ t.
        (get_schedule_by_room_id db' none room_id ≡ ok t)
        × (t.room_id ≡ room_id)
        × (t.days_of_week ≡ map to_int32 days))
      (ap to_schedule same ∙ shown) (read, refl, refl)
