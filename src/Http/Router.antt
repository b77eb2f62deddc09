-- ===== src/Http/Router.antt =====
-- The routes of booking-service/internal/http/handlers/router.go, behind `Auth` and `RequireRole` of
-- booking-service/internal/http/middleware where the router asks for them.
use Prim.Native.String.{String}
use meeting_room_booking_sys.Prelude.{
  ℕ, ℤ, if◌then◌else◌, Bool, true, List, [], ◌∷◌, Option, none, some,
}
use meeting_room_booking_sys.Model.{Role, admin, user}
use meeting_room_booking_sys.Database.{Db, CommitReply}
use meeting_room_booking_sys.Database.Sorting.{Order}
use meeting_room_booking_sys.Bookings.{Call}
use meeting_room_booking_sys.BookingService.{ServiceCall}
use meeting_room_booking_sys.SlotService.{SlotsCall}
use meeting_room_booking_sys.Rooms.{RoomCall}
use meeting_room_booking_sys.Accounts.{Crypto}
use meeting_room_booking_sys.Http.Replies.{Reply, refuse, unauthorized, forbidden_code, empty}
use meeting_room_booking_sys.Http.Params.{Library, auth, same_role}
use meeting_room_booking_sys.Http.Handlers.{
  create_room, list_rooms, create_booking, cancel_booking, list_bookings, list_user_bookings,
  create_schedule, list_slots,
}
use meeting_room_booking_sys.Http.Public.{RegisterCall, dummy_login, register, login}

-- The protected routes.
pub data Request : Type 0 where
  create_booking_request : ServiceCall → Option (List ℕ × Bool) → Request
  cancel_booking_request : Call → (Db → Db) → List ℕ → Request
  list_bookings_request : Option ℕ → List ℕ → List ℕ → Request
  list_user_bookings_request : Option ℕ → ℕ → Request
  create_schedule_request :
      CommitReply → ℕ → ℕ → List ℕ → Option (List ℤ × List ℕ × List ℕ) → Request
  create_room_request : RoomCall → Option (String × Option String × Option ℤ) → Request
  list_rooms_request : Option ℕ → Request
  list_slots_request : SlotsCall → List ℕ → List ℕ → Request

-- The role that the router asks for.
abbrev pub required_role : Request → Option Role
required_role (create_booking_request c body) = some user
required_role (cancel_booking_request c later id) = some user
required_role (list_bookings_request fails page page_size) = some admin
required_role (list_user_bookings_request fails now) = some user
required_role (create_schedule_request reply id now room body) = some admin
required_role (create_room_request c body) = some admin
required_role (list_rooms_request fails) = none
required_role (list_slots_request c room date) = none

abbrev pub require_role : Option Role → Role → Bool
require_role none role = true
require_role (some allowed) role = same_role allowed role

module _ (lib : Library) (order : Order) where
  abbrev pub handle : Db → ℕ → Request → Db × Reply
  handle db user_id (create_booking_request c body) = create_booking lib order db user_id c body
  handle db user_id (cancel_booking_request c later id) =
      cancel_booking lib order db user_id c later id
  handle db user_id (list_bookings_request fails page page_size) =
      list_bookings lib order db fails page page_size
  handle db user_id (list_user_bookings_request fails now) =
      list_user_bookings lib order db user_id fails now
  handle db user_id (create_schedule_request reply id now room body) =
      create_schedule lib order db reply id now room body
  handle db user_id (create_room_request c body) = create_room db c body
  handle db user_id (list_rooms_request fails) = list_rooms order db fails
  handle db user_id (list_slots_request c room date) = list_slots lib order db c room date

  abbrev pub with_role : Db → Request → Option (ℕ × Role) → Db × Reply
  with_role db r none = (db, refuse 401 unauthorized)
  with_role db r (some (user_id, role)) =
      if require_role (required_role r) role
      then handle db user_id r
      else (db, refuse 403 forbidden_code)

  -- A request to a protected route with its Authorization header.
  unfoldable pub serve : Db → List ℕ → Request → Db × Reply
  unfolding auth
  serve db header r = with_role db r (auth lib header)

-- The public routes; `info_request` is a request for `/` or `/_info`.
pub data PublicRequest : Type 0 where
  info_request : PublicRequest
  dummy_login_request : Option Role → PublicRequest
  register_request : RegisterCall → Option (String × String × Role) → PublicRequest
  login_request : Option ℕ → Option (String × String) → PublicRequest

unfoldable pub serve_public : Crypto → (String → Bool) → Db → PublicRequest → Db × Reply
serve_public crypto is_address db info_request = (db, record { status = 200; body = empty })
serve_public crypto is_address db (dummy_login_request body) = dummy_login crypto db body
serve_public crypto is_address db (register_request c body) = register crypto is_address db c body
serve_public crypto is_address db (login_request fails body) = login crypto db fails body

-- A request as the router sees it: with its Authorization header, or to a public route.
pub data AnyRequest : Type 0 where
  guarded : List ℕ → Request → AnyRequest
  public : PublicRequest → AnyRequest

module _ (lib : Library) (crypto : Crypto) (is_address : String → Bool) (order : Order) where
  unfoldable pub route : Db → AnyRequest → Db × Reply
  unfolding serve serve_public
  route db (guarded header r) = serve lib order db header r
  route db (public r) = serve_public crypto is_address db r

  -- Requests one after another.
  unfoldable pub route_all : Db → List AnyRequest → Db
  unfolding route
  route_all db [] = db
  route_all db (r ∷ rs) = route_all (route db r).0 rs
