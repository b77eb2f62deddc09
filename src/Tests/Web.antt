-- ===== src/Tests/Web.antt =====
-- Requests to the booking service, and a parameter of the notification service.
use meeting_room_booking_sys.Prelude.{
  arith, ◌≢◌, ℕ, pos, ◌≡◌, ◌⊎◌, refl, List, [], ◌∷◌, none, some, true, false,
}
use meeting_room_booking_sys.Model.{Role, user, ok}
use meeting_room_booking_sys.Database.Sorting.{stable}
use meeting_room_booking_sys.Clock.{parse_time}
use meeting_room_booking_sys.Http.Replies.{refuse, unauthorized, forbidden_code}
use meeting_room_booking_sys.Http.Params.{Library, auth, parse_pagination, check_schedule}
use meeting_room_booking_sys.Http.Router.{
  Request, AnyRequest, public, guarded, register_request, create_booking_request, route_all,
  cancel_booking_request, list_bookings_request, handle, serve,
}
use meeting_room_booking_sys.Http.Public.{RegisterCall}
use meeting_room_booking_sys.Http.Invariance.{route_all-IsValid}
use meeting_room_booking_sys.Http.Holding.{Held, route_all-Held}
use meeting_room_booking_sys.Accounts.{Crypto, matching}
use meeting_room_booking_sys.BookingService.{ServiceCall}
use meeting_room_booking_sys.Bookings.Validity.{IsValid}
use meeting_room_booking_sys.Database.{committed}
use meeting_room_booking_sys.Http.Checks.{may, serve_lem}
use meeting_room_booking_sys.Tests.Data.{tables, tables-IsValid, good_call}

-- Every text is the number 3, the identifier 3, the date 3, and a token of the user 7.
abbrev library : Library
library = record {
  parse_uuid = λ text. some 3;
  atoi = λ text. some (pos 3);
  parse_date = λ text. some 3;
  parse_token = λ text. some (7, user);
  cast_time = λ text. some 3;
}

abbrev header : List ℕ
header = b'B' ∷ b'e' ∷ b'a' ∷ b'r' ∷ b'e' ∷ b'r' ∷ 32 ∷ b'x' ∷ []

abbrev all_bookings : Request
all_bookings = list_bookings_request none [] []

-- A user asks for a page that is for administrators.
serve_lem_example :
    ((auth library header ≡ none)
      × (serve library stable tables header all_bookings ≡ (tables, refuse 401 unauthorized)))
    ⊎ ((who : ℕ × Role) × (auth library header ≡ some who)
        × (((may who.1 all_bookings ≡ false)
              × (serve library stable tables header all_bookings
                  ≡ (tables, refuse 403 forbidden_code)))
            ⊎ ((may who.1 all_bookings ≡ true)
                × (serve library stable tables header all_bookings
                    ≡ handle library stable tables who.0 all_bookings))))
serve_lem_example = serve_lem library stable tables header all_bookings

parsed_page : parse_pagination library (b'3' ∷ []) [] ≡ some (3, 20)
unfolding parse_pagination
parsed_page = refl

abbrev nine : List ℕ
nine = b'9' ∷ b':' ∷ b'0' ∷ b'0' ∷ []

abbrev half_ten : List ℕ
half_ten = b'1' ∷ b'0' ∷ b':' ∷ b'3' ∷ b'0' ∷ []

accepted : check_schedule (pos 1 ∷ pos 7 ∷ []) nine half_ten ≡ true
unfolding check_schedule parse_time
accepted = refl

-- Passwords are their own hashes.
abbrev crypto : Crypto
crypto = record {
  hash = λ password. ok password;
  compare = λ h password. matching;
  generate_token = λ id role. ok (id ∷ []);
}

abbrev booking_call : ServiceCall
booking_call = record {
  clock = 0;
  slot_fails = none;
  before_insert = λ d. d;
  call = good_call 11 21;
  client = λ id. ok "link";
  before_link = λ d. d;
  link_reply = committed;
}

abbrev registration : RegisterCall
registration = record { reply = committed; new_id = 40; now = 50 }

-- A registration, a booking of a slot that does not exist, and a list that is for administrators.
abbrev visits : List AnyRequest
visits =
    public (register_request registration (some ("eve", "secret", user)))
    ∷ guarded header (create_booking_request booking_call (some (nine, true)))
    ∷ guarded header all_bookings
    ∷ []

route_all-IsValid_example : IsValid (route_all library crypto (λ email. true) stable tables visits)
route_all-IsValid_example =
    route_all-IsValid library crypto (λ email. true) stable tables visits
      (tt, (((λ d v. v), (λ d v. v)), (tt, tt))) tables-IsValid

-- Every token is one of the user 8, and every identifier is 9, that of a booking of the user 7.
abbrev strangers : Library
strangers = record library { parse_uuid = λ text. some 9; parse_token = λ text. some (8, user) }

-- A stranger tries to cancel the booking of the user 7.
abbrev attacks : List AnyRequest
attacks =
    guarded header (cancel_booking_request (good_call 11 21) (λ d. d) nine)
    ∷ public (register_request registration (some ("eve", "secret", user)))
    ∷ []

known_strangers :
    (user_id : ℕ) (role : Role) → auth strangers header ≡ some (user_id, role) → user_id ≢ 7
unfolding auth
known_strangers user_id role e = ground arith

route_all-Held_example : Held 7 5 (route_all strangers crypto (λ email. true) stable tables attacks)
route_all-Held_example =
    route_all-Held 7 5 strangers crypto (λ email. true) stable tables attacks
      (known_strangers, (tt, tt)) ((λ d h. h), (tt, tt)) (tables-IsValid, refl)
