-- ===== src/Rooms.antt =====
-- booking-service/internal/repo/room/room.go (`CreateRoom` and `ListRooms`; `RoomExists` stands in
-- Schedules), with the constraints of the migration 0002, and
-- booking-service/internal/service/room/room.go, which passes its results on.
pub mod Storage
use Prim.Native.String.{String}
use meeting_room_booking_sys.Prelude.{
  ℕ, ℤ, pos, negsuc, ltb_ℤ, ◌==◌, ◌||◌, if◌then◌else◌, any, List, [], ◌∷◌, ◌++◌, Option, none, some,
  Bool, true, not,
}
use meeting_room_booking_sys.Model.{Room, other, Result, ok, err, ◌>>◌, attempt}
use meeting_room_booking_sys.Database.{Db, CommitReply, transaction}
use meeting_room_booking_sys.Database.Sorting.{Order}

-- One call of `CreateRoom`: the defaults of the columns `id` and `created_at`, and what fails.
pub record RoomCall : Type 0 where
  pub new_id : ℕ
  pub now : ℕ
  pub fails : Option ℕ
  pub reply : CommitReply

-- The numbers of the errors, none of which is a sentinel.
abbrev pub capacity_out_of_range : ℕ
capacity_out_of_range = 1

abbrev pub room_id_taken : ℕ
room_id_taken = 2

-- The driver encodes a Go int as an INTEGER of 32 bits only if it fits.
abbrev pub fits_int4 : Option ℤ → Bool
fits_int4 none = true
fits_int4 (some n) = not (ltb_ℤ n (negsuc 2147483647) || ltb_ℤ (pos 2147483647) n)

unfoldable pub insert_room : Db → Room → Result (Db × Room)
insert_room db r =
    if not (fits_int4 r.capacity)
    then err (other capacity_out_of_range)
    else if any (λ m. m.id == r.id) db.rooms
    then err (other room_id_taken)
    else ok (record db { rooms = db.rooms ++ r ∷ [] }, r)

-- `QueryRow` makes the INSERT a transaction of its own.
unfoldable pub create_room : Db → RoomCall → String → Option String → Option ℤ → Db × Result Room
unfolding insert_room
create_room db c name description capacity =
    transaction db
      (attempt c.fails
        >> insert_room db (record {
          id = c.new_id;
          name = name;
          description = description;
          capacity = capacity;
          created_at = c.now;
        }))
      c.reply

-- ORDER BY created_at
unfoldable pub list_rooms : Order → Db → Option ℕ → Result (List Room)
list_rooms order db fails = attempt fails >> ok (order.asc Room (λ r. r.created_at) db.rooms)
