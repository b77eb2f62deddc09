-- ===== src/Clock/RoundTrip.antt =====
-- What `time.Parse` makes of the texts that the database writes.
use meeting_room_booking_sys.Prelude.{ℕ, ◌/◌, ◌%◌, ◌<◌, ◌≡◌, List, some, arith}
use meeting_room_booking_sys.Clock.{parse_time, to_char}

-- A time of day that the database prints is read back.
pub parse_time-to_char :
    (minutes : ℕ)
    → minutes < 1440
    → parse_time (to_char minutes) ≡ some (minutes / 60, minutes % 60)
unfolding parse_time to_char
parse_time-to_char minutes h = ground arith

-- Whatever text is accepted, it is a time of one day.
pub parse_time_bounds :
    (text : List ℕ) (hour minutes : ℕ)
    → parse_time text ≡ some (hour, minutes)
    → (hour < 24) × (minutes < 60)
unfolding parse_time
parse_time_bounds text hour minutes h = ground arith
