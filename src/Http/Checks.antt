-- ===== src/Http/Checks.antt =====
-- What the handlers and the middleware let through.
use meeting_room_booking_sys.Prelude.{
  ℕ, ℤ, pos, negsuc, ltb_ℤ, ◌==ℤ◌, ◌≤◌, ◌<◌, ◌≡◌, ◌≢◌, ◌+◌, ◌*◌, ◌%◌, ◌⊎◌, inl, inr, refl, arith,
  true, false, ◌||◌, any, All, List, [], ◌∷◌, Option, none, some, Option-cases, Bool, Bool-cases,
  ap, ◌∙◌,
}
use meeting_room_booking_sys.Model.{Role, admin, user, unknown_role}
use meeting_room_booking_sys.Database.{Db}
use meeting_room_booking_sys.Database.Sorting.{Order}
use meeting_room_booking_sys.Clock.{parse_time}
use meeting_room_booking_sys.Http.Replies.{refuse, unauthorized, forbidden_code}
use meeting_room_booking_sys.Http.Params.{
  Library, auth, same_role, parse_pagination, query_param, checked_param, check_days, check_times,
  check_schedule, max_page, max_page_size,
}
use meeting_room_booking_sys.Http.Router.{
  Request, create_booking_request, cancel_booking_request, list_bookings_request,
  list_user_bookings_request, create_schedule_request, create_room_request, list_rooms_request,
  list_slots_request, serve, required_role, require_role, handle, with_role,
}

abbrev pub is_admin : Role → Bool
is_admin admin = true
is_admin user = false
is_admin (unknown_role r) = false

abbrev pub is_user : Role → Bool
is_user admin = false
is_user user = true
is_user (unknown_role r) = false

-- Who may use a route, as the descriptions of the routes in booking-service/api.yaml say it: rooms
-- and schedules are made, and all bookings listed, by administrators only; bookings are made,
-- cancelled and listed as one's own by users only; rooms and free slots are listed with any token.
abbrev pub may : Role → Request → Bool
may role (create_room_request c body) = is_admin role
may role (create_schedule_request reply id now room body) = is_admin role
may role (list_bookings_request fails page page_size) = is_admin role
may role (create_booking_request c body) = is_user role
may role (cancel_booking_request c later id) = is_user role
may role (list_user_bookings_request fails now) = is_user role
may role (list_rooms_request fails) = true
may role (list_slots_request c room date) = true

same_role-admin : (role : Role) → same_role admin role ≡ is_admin role
same_role-admin admin = refl
same_role-admin user = refl
same_role-admin (unknown_role r) = refl

same_role-user : (role : Role) → same_role user role ≡ is_user role
same_role-user admin = refl
same_role-user user = refl
same_role-user (unknown_role r) = refl

require_role-may : (role : Role) (r : Request) → require_role (required_role r) role ≡ may role r
require_role-may role (create_room_request c body) = same_role-admin role
require_role-may role (create_schedule_request reply id now room body) = same_role-admin role
require_role-may role (list_bookings_request fails page page_size) = same_role-admin role
require_role-may role (create_booking_request c body) = same_role-user role
require_role-may role (cancel_booking_request c later id) = same_role-user role
require_role-may role (list_user_bookings_request fails now) = same_role-user role
require_role-may role (list_rooms_request fails) = refl
require_role-may role (list_slots_request c room date) = refl

-- The permissions of booking-service/api.yaml hold on every protected route: without a token that is
-- accepted the answer is 401, and with the token of a role that may not use the route it is 403, and
-- in both cases nothing is changed; the request of a role that may use the route is handled for the
-- user of the token.
pub serve_lem :
    (lib : Library) (order : Order) (db : Db) (header : List ℕ) (r : Request)
    → ((auth lib header ≡ none) × (serve lib order db header r ≡ (db, refuse 401 unauthorized)))
      ⊎ ((who : ℕ × Role) × (auth lib header ≡ some who)
          × (((may who.1 r ≡ false)
                × (serve lib order db header r ≡ (db, refuse 403 forbidden_code)))
              ⊎ ((may who.1 r ≡ true)
                  × (serve lib order db header r ≡ handle lib order db who.0 r))))
unfolding serve
serve_lem lib order db header r = elim (Option-cases (auth lib header)) [
  | inl e ↦ inl (e, ap (with_role lib order db r) e)
  | inr (who, e) ↦
      let same = require_role-may who.1 r in
      inr (
        who,
        e,
        elim (Bool-cases (may who.1 r)) [
          | inl allowed ↦ inr (allowed, ap (with_role lib order db r) e ∙ rw (same, allowed) refl)
          | inr denied ↦ inl (denied, ap (with_role lib order db r) e ∙ rw (same, denied) refl)
        ],
      )
]

checked_param_bounds :
    (v : Option ℤ) (limit n : ℕ) → checked_param v limit ≡ some n → (1 ≤ n) × (n ≤ limit)
checked_param_bounds none limit n h = cc
checked_param_bounds (some (pos m)) limit n h = ground arith
checked_param_bounds (some (negsuc m)) limit n h = cc

query_param_bounds :
    (lib : Library) (text : List ℕ) (default limit n : ℕ)
    → 1 ≤ default
    → default ≤ limit
    → query_param lib text default limit ≡ some n
    → (1 ≤ n) × (n ≤ limit)
query_param_bounds lib [] default limit n low high h = ground arith
query_param_bounds lib (c ∷ text) default limit n low high h =
    checked_param_bounds (lib.atoi (c ∷ text)) limit n h

-- A page that is asked of the service is between 1 and 10000, and its size between 1 and 100.
pub parse_pagination_bounds :
    (lib : Library) (page_text size_text : List ℕ) (page size : ℕ)
    → parse_pagination lib page_text size_text ≡ some (page, size)
    → ((1 ≤ page) × (page ≤ max_page)) × ((1 ≤ size) × (size ≤ max_page_size))
unfolding parse_pagination
parse_pagination_bounds lib page_text size_text page size h =
    ground
      (arith, query_param_bounds lib page_text 1 10000, query_param_bounds lib size_text 20 100)

-- A day of the week, numbered as ISO 8601 does.
abbrev pub IsWeekday : ℤ → Type 0
IsWeekday (pos n) = (1 ≤ n) × (n ≤ 7)
IsWeekday (negsuc n) = false ≡ true

range-IsWeekday : (d : ℤ) → (ltb_ℤ d (pos 1) || ltb_ℤ (pos 7) d) ≡ false → IsWeekday d
range-IsWeekday (pos n) h = ground arith
range-IsWeekday (negsuc n) h = cc

-- No day stands twice.
abbrev pub IsDistinct : List ℤ → Type 0
IsDistinct [] = Unit {0}
IsDistinct (d ∷ days) = All (λ e. (d ==ℤ e) ≡ false) days × IsDistinct days

check_days_step :
    (seen : List ℤ) (d : ℤ) (days : List ℤ)
    → check_days seen (d ∷ days) ≡ true
    → ((ltb_ℤ d (pos 1) || ltb_ℤ (pos 7) d) ≡ false)
      × (any (λ s. s ==ℤ d) seen ≡ false)
      × (check_days (d ∷ seen) days ≡ true)
unfolding check_days
check_days_step seen d days h = ground arith

check_days_weekdays : (seen days : List ℤ) → check_days seen days ≡ true → All IsWeekday days
check_days_weekdays seen [] h = tt
check_days_weekdays seen (d ∷ days) h =
    let (range, fresh, rest) = check_days_step seen d days h in
    (range-IsWeekday d range, check_days_weekdays (d ∷ seen) days rest)

-- The two times that `createSchedule` accepts: half hours, the first before the second.
abbrev pub AreOpeningHours : ℕ × ℕ → ℕ × ℕ → Type 0
AreOpeningHours (h, m) (k, n) = (m % 30 ≡ 0) × (n % 30 ≡ 0) × (h * 60 + m < k * 60 + n)

check_times_lem :
    (start end : Option (ℕ × ℕ))
    → check_times start end ≡ true
    → (s : ℕ × ℕ) × (e : ℕ × ℕ) × (start ≡ some s) × (end ≡ some e) × AreOpeningHours s e
check_times_lem none end h = cc
check_times_lem (some s) none h = cc
check_times_lem (some (h, m)) (some (k, n)) t = ((h, m), (k, n), refl, refl, ground arith)

-- A schedule that the handler passes on has a day, only days from 1 to 7, and two times of day at
-- half hours, the first before the second.
pub check_schedule_lem :
    (days : List ℤ) (start_time end_time : List ℕ)
    → check_schedule days start_time end_time ≡ true
    → (days ≢ [])
      × All IsWeekday days
      × (s : ℕ × ℕ) × (e : ℕ × ℕ) × (parse_time start_time ≡ some s)
      × (parse_time end_time ≡ some e)
      × AreOpeningHours s e
unfolding check_schedule
check_schedule_lem [] start_time end_time h = cc
check_schedule_lem (d ∷ days) start_time end_time h =
    let both : (check_days [] (d ∷ days) ≡ true)
        × (check_times (parse_time start_time) (parse_time end_time) ≡ true) =
      ground arith in
    let (s, e, first, last, hours) =
      check_times_lem (parse_time start_time) (parse_time end_time) both.1 in
    ((λ q. cc), check_days_weekdays [] (d ∷ days) both.0, s, e, first, last, hours)
