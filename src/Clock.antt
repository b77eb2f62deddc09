-- ===== src/Clock.antt =====
-- The parts of Go's package time that booking-service uses on texts: `time.Parse` with the layouts
-- "15:04" and "2006-01-02", `Weekday`, and TO_CHAR with 'HH24:MI' of the statements in
-- booking-service/internal/repo/schedule/schedule.go. A text is its bytes; an instant counts
-- nanoseconds, and a date counts days, both from the first of January of year 0 (a Saturday).
pub mod RoundTrip
use meeting_room_booking_sys.Prelude.{
  ℕ, ◌+◌, ◌-◌, ◌*◌, ◌/◌, ◌%◌, Bool, true, false, ◌&&◌, leb, ltb, ◌==◌, if◌then◌else◌, List, [], ◌∷◌,
  ◌++◌, Option, none, some,
}

abbrev pub minute : ℕ
minute = 60000000000

abbrev pub day : ℕ
day = 86400000000000

infixl 5 ◌>>=◌
abbrev pub ◌>>=◌ {ℓ κ} : {A : Type ℓ} {B : Type κ} → Option A → (A → Option B) → Option B
none >>= f = none
some a >>= f = f a

abbrev pub is_digit : ℕ → Bool
is_digit c = leb b'0' c && leb c b'9'

-- `getnum`: one or two digits, or exactly two if `fixed`.
abbrev second_digit : Bool → ℕ → List ℕ → Option (ℕ × List ℕ)
second_digit fixed a [] = if fixed then none else some (a - b'0', [])
second_digit fixed a (b ∷ rest) =
    if is_digit b
    then some ((a - b'0') * 10 + (b - b'0'), rest)
    else if fixed
    then none
    else some (a - b'0', b ∷ rest)

abbrev get_num : Bool → List ℕ → Option (ℕ × List ℕ)
get_num fixed [] = none
get_num fixed (a ∷ rest) = if is_digit a then second_digit fixed a rest else none

abbrev skip : ℕ → List ℕ → Option (List ℕ)
skip c [] = none
skip c (a ∷ rest) = if a == c then some rest else none

abbrev below : ℕ → ℕ × List ℕ → Option (ℕ × List ℕ)
below limit (n, rest) = if ltb n limit then some (n, rest) else none

abbrev at_end : ℕ → ℕ × List ℕ → Option (ℕ × ℕ)
at_end hour (minutes, []) = some (hour, minutes)
at_end hour (minutes, c ∷ rest) = none

-- `time.Parse("15:04", text)`, as its hour and its minute.
unfoldable pub parse_time : List ℕ → Option (ℕ × ℕ)
parse_time text = do
  (hour, rest) ← get_num false text >>= below 24
  rest ← skip b':' rest
  last ← get_num true rest >>= below 60
  at_end hour last

abbrev two_digits : ℕ → List ℕ
two_digits n = (b'0' + n / 10) ∷ (b'0' + n % 10) ∷ []

-- TO_CHAR(time, 'HH24:MI') of a time of day in minutes.
unfoldable pub to_char : ℕ → List ℕ
to_char minutes = two_digits (minutes / 60) ++ b':' ∷ two_digits (minutes % 60)

-- `date.Weekday()`, Sunday = 0.
abbrev pub weekday : ℕ → ℕ
weekday date = (date + 6) % 7
