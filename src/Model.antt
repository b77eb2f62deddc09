-- ===== src/Model.antt =====
-- booking-service/internal/model and shared/events: the entities, the sentinel errors and the event.
-- A UUID is a number, used only for equality; an instant is the number of nanoseconds since the
-- start of year 0, in UTC; a time of day that the database returns as text is a list of bytes.
use Prim.Native.String.{String}
use meeting_room_booking_sys.Prelude.{ℕ, ℤ, ◌≡◌, refl, List, Option, none, some, Bool, true, false}

pub data BookingStatus : Type 0 where
  active cancelled : BookingStatus

abbrev pub is_active : BookingStatus → Bool
is_active active = true
is_active cancelled = false

pub record Booking : Type 0 where
  pub id : ℕ
  pub slot_id : ℕ
  pub user_id : ℕ
  pub status : BookingStatus
  pub conference_link : Option String
  pub created_at : ℕ

pub record Room : Type 0 where
  pub id : ℕ
  pub name : String
  pub description : Option String
  pub capacity : Option ℤ
  pub created_at : ℕ

pub record Slot : Type 0 where
  pub id : ℕ
  pub room_id : ℕ
  pub start_at : ℕ
  pub end_at : ℕ

pub record Schedule : Type 0 where
  pub id : ℕ
  pub room_id : ℕ
  pub days_of_week : List ℤ
  pub start_time : List ℕ
  pub end_time : List ℕ
  pub created_at : ℕ

-- `Role` is a Go string: two values are valid.
pub data Role : Type 0 where
  admin user : Role
  unknown_role : String → Role

abbrev pub is_valid_role : Role → Bool
is_valid_role admin = true
is_valid_role user = true
is_valid_role (unknown_role r) = false

pub record User : Type 0 where
  pub id : ℕ
  pub email : String
  pub password : Option String
  pub role : Role
  pub created_at : ℕ

-- `fmt.Errorf` with `%w` keeps what `errors.Is` sees, so a wrapped sentinel is the sentinel. Any
-- other error (of the driver, the network, a library) is `other`, with a number to tell them apart.
-- `notification_not_found` is the one sentinel of notification-service/internal/model/errors.go that
-- its handlers answer to.
pub data Error : Type 0 where
  room_not_found slot_not_found booking_not_found slot_already_booked : Error
  schedule_exists schedule_not_found forbidden slot_in_past : Error
  email_taken invalid_credentials : Error
  notification_not_found : Error
  other : ℕ → Error

pub data Result {ℓ} (V : Type ℓ) : Type ℓ where
  err : Error → Result V
  ok : V → Result V

infixl 5 ◌>>◌ ◌>>=◌
abbrev pub ◌>>=◌ {κ ℓ} : {T : Type κ} {S : Type ℓ} → Result S → (S → Result T) → Result T
err fault >>= rest = err fault
ok value >>= rest = rest value

abbrev pub ◌>>◌ {κ} : {T : Type κ} → Result (Unit {0}) → Result T → Result T
first >> rest = first >>= λ done. rest

-- A call of an external component that fails, or not.
abbrev pub attempt : Option ℕ → Result (Unit {0})
attempt none = ok tt
attempt (some e) = err (other e)

-- `EventType` is a Go string: the two constants, or any other text.
pub data EventType : Type 0 where
  event_booking_created event_booking_cancelled : EventType
  event_unknown : String → EventType

-- Its identifiers are Go strings, taken as the UUIDs that they stand for.
pub record BookingEvent : Type 0 where
  pub event_id : ℕ
  pub event_type : EventType
  pub occurred_at : ℕ
  pub booking_id : ℕ
  pub user_id : ℕ
  pub room_id : ℕ
  pub room_name : String
  pub slot_start : ℕ
  pub slot_end : ℕ

-- A chain that succeeds went through its first step.
pub >>=-ok {κ ℓ} :
    {T : Type κ} {S : Type ℓ} (rest : S → Result T) (first : Result S) (end : T)
    → (first >>= rest) ≡ ok end
    → (middle : S) × (first ≡ ok middle) × (rest middle ≡ ok end)
>>=-ok rest (err fault) end h = cc
>>=-ok rest (ok middle) end h = (middle, refl, h)
