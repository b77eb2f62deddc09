-- ===== src/Bookings/Validity.antt =====
-- The invariant of the tables `bookings` and `outbox`.
use meeting_room_booking_sys.Prelude.{
  ℕ, ◌≤◌, ◌≡◌, any, All, count_where, ◌==◌, ◌&&◌, not, Bool, true, false,
}
use meeting_room_booking_sys.Model.{
  Booking, EventType, event_booking_created, event_booking_cancelled, event_unknown, is_active,
}
use meeting_room_booking_sys.Database.{Db, OutboxRow}
use meeting_room_booking_sys.Bookings.{has_id, holds_slot}
use meeting_room_booking_sys.Bookings.Events.{IsLinked}

abbrev pub is_created : EventType → Bool
is_created event_booking_created = true
is_created event_booking_cancelled = false
is_created (event_unknown t) = false

abbrev pub is_cancelled : EventType → Bool
is_cancelled event_booking_created = false
is_cancelled event_booking_cancelled = true
is_cancelled (event_unknown t) = false

-- An outbox row that reports the creation, or the cancellation, of a booking.
abbrev pub reports_created : ℕ → OutboxRow → Bool
reports_created id o = is_created o.payload.event_type && o.payload.booking_id == id

abbrev pub reports_cancelled : ℕ → OutboxRow → Bool
reports_cancelled id o = is_cancelled o.payload.event_type && o.payload.booking_id == id

abbrev pub cancelled_with : ℕ → Booking → Bool
cancelled_with id b = not (is_active b.status) && b.id == id

abbrev pub HasSlot : Db → Booking → Type 0
HasSlot db b = any (λ s. s.id == b.slot_id) db.slots ≡ true

-- At most one active booking holds a slot; identifiers are distinct; a booking's slot exists; and
-- the outbox reports the creation of each booking once, and its cancellation once if it is
-- cancelled and never otherwise.
pub record IsValid (db : Db) : Type 0 where
  pub linked : IsLinked db
  pub one_active : (slot_id : ℕ) → count_where (holds_slot slot_id) db.bookings ≤ 1
  pub keyed : (id : ℕ) → count_where (has_id id) db.bookings ≤ 1
  pub slots_linked : All (HasSlot db) db.bookings
  pub created_logged :
      (id : ℕ) → count_where (reports_created id) db.outbox ≡ count_where (has_id id) db.bookings
  pub cancelled_logged :
      (id : ℕ)
      → count_where (reports_cancelled id) db.outbox ≡ count_where (cancelled_with id) db.bookings
