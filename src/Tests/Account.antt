-- ===== src/Tests/Account.antt =====
-- Registration, login and the creation of a schedule.
use text.Mathlib.Text.{◌==◌ as ◌==ˢ◌}
use meeting_room_booking_sys.Prelude.{
  ℕ, pos, ◌≡◌, refl, if◌then◌else◌, List, [], ◌∷◌, Option, none, some,
}
use meeting_room_booking_sys.Model.{User, user, ok}
use meeting_room_booking_sys.Database.{Db, committed}
use meeting_room_booking_sys.Accounts.{Crypto, matching, mismatched, register}
use meeting_room_booking_sys.Schedules.{create_schedule, to_schedule}
use meeting_room_booking_sys.Tests.Data.{tables, saturdays}

-- A hash is the password, and a token the text "t".
abbrev plain : Crypto
plain = record {
  hash = λ password. ok password;
  compare = λ h password. if h ==ˢ password then matching else mismatched;
  generate_token = λ id role. ok (b't' ∷ []);
}

abbrev carl : User
carl = record { id = 3; email = "carl"; password = some "secret"; role = user; created_at = 50 }

abbrev with_carl : Db
with_carl = (register plain tables committed 3 50 "carl" "secret" user).0

registered : register plain tables committed 3 50 "carl" "secret" user ≡ (with_carl, ok carl)
unfolding register
registered = refl

abbrev closed_tables : Db
closed_tables = record tables { schedules = [] }

-- Every text is nine o'clock, but "10" is ten o'clock.
abbrev cast_hour : List ℕ → Option ℕ
cast_hour [] = none
cast_hour (c ∷ []) = some 540
cast_hour (c ∷ d ∷ text) = some 600

abbrev hours_from : List ℕ
hours_from = b'9' ∷ []

abbrev hours_to : List ℕ
hours_to = b'1' ∷ b'0' ∷ []

abbrev opened_tables : Db
opened_tables =
    (create_schedule cast_hour closed_tables committed 30 0 1 (pos 6 ∷ []) hours_from hours_to).0

opened :
    create_schedule cast_hour closed_tables committed 30 0 1 (pos 6 ∷ []) hours_from hours_to
    ≡ (opened_tables, ok (to_schedule saturdays))
unfolding create_schedule
opened = refl
