-- ===== src/Http/Preservation/Writes.antt =====
-- What the writes of the repositories and the answers of the handlers keep.
use Prim.Native.String.{String}
use meeting_room_booking_sys.Prelude.{
  ℕ, ℤ, ◌≡◌, Bool, true, false, List, Option, none, some, if◌then◌else◌,
}
use meeting_room_booking_sys.Model.{User, Slot, Role, Result, ok, err}
use meeting_room_booking_sys.Database.{Db, ScheduleRow, CommitReply}
use meeting_room_booking_sys.Bookings.{Call, update_conference_link}
use meeting_room_booking_sys.Bookings
use meeting_room_booking_sys.Slots.{ensure_slots}
use meeting_room_booking_sys.BookingService.Guarantees.{Preserves}
use meeting_room_booking_sys.Rooms.{RoomCall}
use meeting_room_booking_sys.Rooms
use meeting_room_booking_sys.Http.Replies.{Body, Reply, respond}
use meeting_room_booking_sys.Http.Params.{Library, auth}
use meeting_room_booking_sys.Http.Router.{
  Request, create_booking_request, cancel_booking_request, list_slots_request, AnyRequest, guarded,
  public,
}

-- The writes of the repositories keep a property of the tables; those of the bookings do so for the
-- users of a class.
pub record KeptByWrites (P : Db → Type 0) (Known : ℕ → Type 0) : Type 0 where
  pub booking :
      (d : Db) (c : Call) (slot_id user_id : ℕ)
      → Known user_id
      → P d
      → P (Bookings.create_booking d c slot_id user_id).0
  pub cancelling :
      (d : Db) (c : Call) (later : Db → Db) (id user_id : ℕ)
      → Known user_id
      → P d
      → P (later d)
      → P (Bookings.cancel_booking d c later id user_id).0
  pub linking :
      (d : Db) (reply : CommitReply) (id : ℕ) (l : String)
      → P d
      → P (update_conference_link d reply id l).0
  pub ensuring :
      (d : Db) (reply : CommitReply) (slots : List Slot) → P d → P (ensure_slots d reply slots).0
  pub rooming :
      (d : Db) (c : RoomCall) (name : String) (description : Option String) (capacity : Option ℤ)
      → P d
      → P (Rooms.create_room d c name description capacity).0
  pub others :
      (d : Db) (us : List User) (ss : List ScheduleRow)
      → P d
      → P (record d { users = us; schedules = ss })

-- What other requests do to the tables while this one runs keeps the property.
abbrev pub OthersKeep : (Db → Type 0) → Request → Type 0
OthersKeep P (create_booking_request c body) =
    Preserves P c.before_insert × Preserves P c.before_link
OthersKeep P (cancel_booking_request c later id) = Preserves P later
OthersKeep P (list_slots_request c room date) = Preserves P c.before_list
OthersKeep P _ = Unit {0}

abbrev pub AllKeep : (Db → Type 0) → AnyRequest → Type 0
AllKeep P (guarded header r) = OthersKeep P r
AllKeep P (public r) = Unit {0}

-- The token of the request, if it has one, names a user of the class.
abbrev pub OfKnown : (ℕ → Type 0) → Library → AnyRequest → Type 0
OfKnown Known lib (guarded header r) =
    (user_id : ℕ) (role : Role) → auth lib header ≡ some (user_id, role) → Known user_id
OfKnown Known lib (public r) = Unit {0}

module _ (P : Db → Type 0) where
  pub respond_keeps :
      {A : Type 0} (status : ℕ) (body : A → Body) (r : Db × Result A)
      → P r.0
      → P (respond status body r).0
  respond_keeps status body (db, err e) v = v
  respond_keeps status body (db, ok a) v = v

  pub Kept_option :
      {A : Type 0} (o : Option A) (missing : Db × Reply) (found : A → Db × Reply)
      → P missing.0
      → ((a : A) → P (found a).0)
      → P (elim o as (λ x. Db × Reply) [ none ↦ missing | some a ↦ found a ]).0
  Kept_option none missing found v h = v
  Kept_option (some a) missing found v h = h a

  pub Kept_if :
      (b : Bool) (first second : Db × Reply)
      → P first.0
      → P second.0
      → P (if b then first else second).0
  Kept_if true first second v w = v
  Kept_if false first second v w = w
