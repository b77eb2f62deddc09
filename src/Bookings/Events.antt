-- ===== src/Bookings/Events.antt =====
-- The INSERT ... SELECT of the outbox writes one row for a slot whose room is there.
use meeting_room_booking_sys.Prelude.{
  ℕ, ◌≤◌, ◌≡◌, refl, ap, [], ◌∷◌, ◌++◌, none, some, any, All, All-select, select_one, count_where,
  ◌==◌, if◌then◌else◌, arith, true, find_first, select, Bool, List,
}
use meeting_room_booking_sys.Model.{Slot, Room, Booking, EventType, Result, ok, err, other}
use meeting_room_booking_sys.Database.{Db, OutboxRow}
use meeting_room_booking_sys.Bookings.{
  Call, join_rooms, event_rows, log_event, outbox_row, outbox_id_taken,
}

abbrev pub HasRoom : Db → Slot → Type 0
HasRoom db s = any (λ r. r.id == s.room_id) db.rooms ≡ true

-- The parts of the schema that the query relies on: primary keys, and the foreign key of `slots`.
pub record IsLinked (db : Db) : Type 0 where
  pub slots_keyed : (id : ℕ) → count_where (λ s. s.id == id) db.slots ≤ 1
  pub rooms_keyed : (id : ℕ) → count_where (λ r. r.id == id) db.rooms ≤ 1
  pub rooms_linked : All (HasRoom db) db.slots

find_first-select :
    {A : Type 0} (p : A → Bool) (xs : List A) (x : A) (ys : List A)
    → select p xs ≡ x ∷ ys
    → find_first p xs ≡ some x
find_first-select p [] x ys h = cc
find_first-select p (y ∷ xs) x ys h = ground (arith, find_first-select p xs x ys)

join_one :
    (db : Db) (s : Slot)
    → IsLinked db
    → HasRoom db s
    → (r : Room) × (join_rooms (s ∷ []) db.rooms ≡ (s, r) ∷ [])
      × (find_first (λ m. m.id == s.room_id) db.rooms ≡ some r)
unfolding join_rooms
join_one db s v h =
    let (r, e, p) = select_one (λ r. r.id == s.room_id) db.rooms h (v.rooms_keyed s.room_id) in
    (r, rw e, find_first-select (λ m. m.id == s.room_id) db.rooms r [] e)

-- The row that reports an event, with the table's slot of the identifier and with the table's room
-- of that slot.
abbrev pub IsRowOf : Db → ℕ → EventType → Call → Booking → OutboxRow → Type 0
IsRowOf db slot_id type c b row =
    (s : Slot) × (r : Room) × (find_first (λ t. t.id == slot_id) db.slots ≡ some s)
    × (find_first (λ m. m.id == s.room_id) db.rooms ≡ some r)
    × (row ≡ outbox_row type c b (s, r))

-- For a slot of the table the query gives exactly one row.
pub event_rows_one :
    (db : Db) (type : EventType) (c : Call) (b : Booking) (slot_id : ℕ)
    → IsLinked db
    → any (λ s. s.id == slot_id) db.slots ≡ true
    → (row : OutboxRow) × (event_rows db type c b slot_id ≡ row ∷ [])
      × IsRowOf db slot_id type c b row
unfolding event_rows
event_rows_one db type c b slot_id v h =
    let (s, e, p) = select_one (λ s. s.id == slot_id) db.slots h (v.slots_keyed slot_id) in
    let linked : All (HasRoom db) (s ∷ []) =
      (rw e at (All-select (HasRoom db) (λ s. s.id == slot_id) db.slots v.rooms_linked)) in
    let (r, j, q) = join_one db s v linked.0 in
    (
      outbox_row type c b (s, r),
      rw (e, j),
      (s, r, find_first-select (λ t. t.id == slot_id) db.slots s [] e, q, refl),
    )

-- What the INSERT ... SELECT does with one row.
abbrev pub logged : Db → Call → Booking → OutboxRow → Result (Db × Booking)
logged db c b row = elim c.outbox_fails [
  | some e ↦ err (other e)
  | none ↦
      if any (λ o. o.id == c.outbox_id) db.outbox
      then err (other outbox_id_taken)
      else ok (record db { outbox = db.outbox ++ row ∷ [] }, b)
]

pub log_event_lem :
    (db : Db) (type : EventType) (c : Call) (b : Booking) (slot_id : ℕ)
    → IsLinked db
    → any (λ s. s.id == slot_id) db.slots ≡ true
    → (row : OutboxRow) × IsRowOf db slot_id type c b row
      × (log_event db type c b slot_id ≡ logged db c b row)
unfolding log_event
log_event_lem db type c b slot_id v h =
    let (row, e, (s, r, i, j, k)) = event_rows_one db type c b slot_id v h in
    (row, (s, r, i, j, k), step row e (ap (λ (o : OutboxRow). o.id) k))
  where
    step :
        (row : OutboxRow)
        → event_rows db type c b slot_id ≡ row ∷ []
        → row.id ≡ c.outbox_id
        → log_event db type c b slot_id ≡ logged db c b row
    step row e k = rw e (ground arith)
