-- ===== src/Http/Params.antt =====
-- What the middleware and the handlers of booking-service/internal/http read from a request: the
-- token of the header, the parameters of the query, and the schedule of the body.
use meeting_room_booking_sys.Prelude.{
  ℕ, ℤ, pos, ltb_ℤ, ◌==ℤ◌, ◌+◌, ◌*◌, ◌%◌, ltb, leb, ◌==◌, ◌&&◌, ◌||◌, not, if◌then◌else◌, Bool,
  true, false, any, List, [], ◌∷◌, Option, none, some,
}
use meeting_room_booking_sys.Model.{Role, admin, user}
use meeting_room_booking_sys.Clock.{parse_time, ◌>>=◌}

-- The libraries, and the clocks and failures of the request.
pub record Library : Type 0 where
  pub parse_uuid : List ℕ → Option ℕ
  pub atoi : List ℕ → Option ℤ
  pub parse_date : List ℕ → Option ℕ
  pub parse_token : List ℕ → Option (ℕ × Role)
  pub cast_time : List ℕ → Option ℕ

-- `strings.ToLower`, as far as the comparison with ASCII letters can see.
abbrev pub to_lower : ℕ → ℕ
to_lower c = if leb b'A' c && leb c b'Z' then c + 32 else c

abbrev pub bearer_prefix : List ℕ
bearer_prefix = b'b' ∷ b'e' ∷ b'a' ∷ b'r' ∷ b'e' ∷ b'r' ∷ 32 ∷ []

unfoldable pub after_prefix : List ℕ → List ℕ → Option (List ℕ)
after_prefix [] text = some text
after_prefix (p ∷ prefix) [] = none
after_prefix (p ∷ prefix) (c ∷ text) =
    let rest = after_prefix prefix text in if to_lower c == p then rest else none

abbrev pub parse_nonempty : Library → List ℕ → Option (ℕ × Role)
parse_nonempty lib [] = none
parse_nonempty lib (c ∷ token) = lib.parse_token (c ∷ token)

-- `Auth`: the user and the role of the request, or 401.
unfoldable pub auth : Library → List ℕ → Option (ℕ × Role)
unfolding after_prefix
auth lib header = do token ← after_prefix bearer_prefix header; parse_nonempty lib token

abbrev pub same_role : Role → Role → Bool
same_role admin admin = true
same_role user user = true
same_role _ _ = false

-- A query parameter that is absent is its default; a bad one is refused.
abbrev pub checked_param : Option ℤ → ℕ → Option ℕ
checked_param none limit = none
checked_param (some (pos n)) limit = if leb 1 n && leb n limit then some n else none
checked_param (some negative) limit = none

abbrev pub query_param : Library → List ℕ → ℕ → ℕ → Option ℕ
query_param lib [] default limit = some default
query_param lib (c ∷ text) default limit = checked_param (lib.atoi (c ∷ text)) limit

abbrev pub default_page_size : ℕ
default_page_size = 20

abbrev pub max_page_size : ℕ
max_page_size = 100

abbrev pub max_page : ℕ
max_page = 10000

unfoldable pub parse_pagination : Library → List ℕ → List ℕ → Option (ℕ × ℕ)
parse_pagination lib page page_size = do
  p ← query_param lib page 1 max_page
  ps ← query_param lib page_size default_page_size max_page_size
  some (p, ps)

-- The loop over `daysOfWeek`, with the days seen so far.
unfoldable pub check_days : List ℤ → List ℤ → Bool
check_days seen [] = true
check_days seen (d ∷ days) =
    let rest = check_days (d ∷ seen) days in
    if ltb_ℤ d (pos 1) || ltb_ℤ (pos 7) d
    then false
    else if any (λ s. s ==ℤ d) seen
    then false
    else rest

abbrev pub half_hour : ℕ
half_hour = 30

abbrev pub check_times : Option (ℕ × ℕ) → Option (ℕ × ℕ) → Bool
check_times none end = false
check_times (some start) none = false
check_times (some (h, m)) (some (k, n)) =
    if not (m % half_hour == 0) || not (n % half_hour == 0)
    then false
    else ltb (h * 60 + m) (k * 60 + n)

-- The checks of `createSchedule` on its decoded body.
unfoldable pub check_schedule : List ℤ → List ℕ → List ℕ → Bool
unfolding check_days
check_schedule [] start_time end_time = false
check_schedule (d ∷ days) start_time end_time =
    check_days [] (d ∷ days) && check_times (parse_time start_time) (parse_time end_time)

abbrev pub date_param : Library → List ℕ → Option ℕ
date_param lib [] = none
date_param lib (c ∷ text) = lib.parse_date (c ∷ text)
