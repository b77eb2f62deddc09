-- ===== src/Rooms/Storage.antt =====
-- What becomes of a room that was created.
use Prim.Native.String.{String}
use mathlib.Core.List.{Perm}
use meeting_room_booking_sys.Prelude.{
  ℤ, ◌≡◌, ◌==◌, refl, sym, ap, ◌∙◌, subst, arith, true, false, any, any-append, All-imp,
  count_where-append, count_where_zero, ==_refl, List, [], ◌∷◌, ◌++◌, Option, none,
}
use meeting_room_booking_sys.Model.{Room, Slot, ok, attempt, >>=-ok}
use meeting_room_booking_sys.Database.{Db}
use meeting_room_booking_sys.Database.Commits.{transaction_keeps, transaction_ok}
use meeting_room_booking_sys.Database.Sorting.{Order, IsSortedBy, ascending}
use meeting_room_booking_sys.Schedules.{room_exists}
use meeting_room_booking_sys.Bookings.Events.{HasRoom}
use meeting_room_booking_sys.Bookings.Validity.{IsValid}
use meeting_room_booking_sys.Rooms.{RoomCall, insert_room, create_room, list_rooms}

abbrev new_room : RoomCall → String → Option String → Option ℤ → Room
new_room c name description capacity = record {
  id = c.new_id;
  name = name;
  description = description;
  capacity = capacity;
  created_at = c.now;
}

abbrev with_room : Db → Room → Db
with_room db r = record db { rooms = db.rooms ++ r ∷ [] }

abbrev Added : Db → Db → Room → Type 0
Added db db' r = (any (λ m. m.id == r.id) db.rooms ≡ false) × (db' ≡ with_room db r)

insert_room-Added :
    (db db' : Db) (r s : Room) → insert_room db r ≡ ok (db', s) → (r ≡ s) × Added db db' r
unfolding insert_room
insert_room-Added db db' r s h = (ground arith, (ground arith, ground arith))

with_room-IsValid :
    (db : Db) (r : Room)
    → IsValid db
    → any (λ m. m.id == r.id) db.rooms ≡ false
    → IsValid (with_room db r)
with_room-IsValid db r v fresh = record {
  linked = record {
    slots_keyed = v.linked.slots_keyed;
    rooms_keyed = λ id. ground (
      arith,
      count_where-append (λ m. m.id == id) db.rooms (r ∷ []),
      v.linked.rooms_keyed id,
      count_where_zero (λ m. m.id == r.id) db.rooms fresh,
    );
    rooms_linked = All-imp db.slots (λ s h. kept s h) v.linked.rooms_linked;
  };
  one_active = v.one_active;
  keyed = v.keyed;
  slots_linked = v.slots_linked;
  created_logged = v.created_logged;
  cancelled_logged = v.cancelled_logged;
}
  where
    kept : (s : Slot) → HasRoom db s → HasRoom (with_room db r) s
    kept s h = ground (arith, any-append (λ m. m.id == s.room_id) db.rooms (r ∷ []))

-- `CreateRoom` keeps the invariant of the tables, whatever fails and however the commit ends.
pub create_room-IsValid :
    (db : Db) (c : RoomCall) (name : String) (description : Option String) (capacity : Option ℤ)
    → IsValid db
    → IsValid (create_room db c name description capacity).0
unfolding create_room
create_room-IsValid db c name description capacity v =
    transaction_keeps IsValid db _ c.reply v (λ t r e.
      let (done, attempted, inserted) = >>=-ok _ (attempt c.fails) (t, r) e in
      let (same, (fresh, added)) =
        insert_room-Added db t (new_room c name description capacity) r inserted in
      subst IsValid (sym added) (with_room-IsValid db _ v fresh))

pub bookings-create_room :
    (db : Db) (c : RoomCall) (name : String) (description : Option String) (capacity : Option ℤ)
    → (create_room db c name description capacity).0.bookings ≡ db.bookings
unfolding create_room
bookings-create_room db c name description capacity =
    transaction_keeps (λ t. t.bookings ≡ db.bookings) db _ c.reply refl
      (λ t r e.
        let (done, attempted, inserted) = >>=-ok _ (attempt c.fails) (t, r) e in
        let (same, (fresh, added)) =
          insert_room-Added db t (new_room c name description capacity) r inserted in
        ap (λ d. d.bookings) added)

-- The answer to a list of rooms: the rows in some order by their time of creation.
abbrev pub Lists : Order → Db → List Room → Type 0
Lists order db rows =
    (room : List Room) × (list_rooms order db none ≡ ok room)
    × IsSortedBy (ascending (λ r. r.created_at)) room
    × Perm room rows

-- If `CreateRoom` succeeds, it answers a room with the name, the description and the capacity of the
-- request; the room exists for the slots and the schedules; and the list of rooms is that room
-- together with the earlier ones, in the order of their creation.
pub list_rooms-create_room :
    (order : Order) (db db' : Db) (c : RoomCall) (name : String) (description : Option String)
    (capacity : Option ℤ) (r : Room)
    → create_room db c name description capacity ≡ (db', ok r)
    → ((r.name ≡ name) × (r.description ≡ description) × (r.capacity ≡ capacity))
      × (room_exists db' none r.id ≡ ok true)
      × Lists order db' (db.rooms ++ r ∷ [])
unfolding create_room list_rooms room_exists
list_rooms-create_room order db db' c name description capacity r h =
    let made = transaction_ok db db' _ c.reply r h in
    let (done, attempted, inserted) = >>=-ok _ (attempt c.fails) (db', r) made in
    let (same, (fresh, added)) =
      insert_room-Added db db' (new_room c name description capacity) r inserted in
    let rows : db'.rooms ≡ db.rooms ++ r ∷ [] =
      ap (λ (d : Db). d.rooms) added ∙ ap (λ x. db.rooms ++ x ∷ []) same in
    (
      subst (λ x. (x.name ≡ name) × (x.description ≡ description) × (x.capacity ≡ capacity)) same
          (refl, refl, refl),
      subst (λ rs. room_exists (record db' { rooms = rs }) none r.id ≡ ok true) (sym rows)
          (ground (arith, any-append (λ m. m.id == r.id) db.rooms (r ∷ []), ==_refl r.id)),
      (
        order.asc Room (λ x. x.created_at) db'.rooms,
        refl,
        order.asc-IsSortedBy Room (λ x. x.created_at) db'.rooms,
        subst (Perm (order.asc Room (λ x. x.created_at) db'.rooms)) rows
            (order.asc-perm Room (λ x. x.created_at) db'.rooms),
      ),
    )
