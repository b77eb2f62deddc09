-- ===== src/Tests/Token.antt =====
-- A JWT library, and tokens that both services read.
use text.Mathlib.Text.{◌==◌ as ◌==ˢ◌}
use meeting_room_booking_sys.Prelude.{
  ℕ, zero, suc, pos, subst, ◌+◌, ◌*◌, ◌/◌, ◌<◌, ◌≤◌, ◌≡◌, ◌≢◌, ◌⊎◌, refl, arith, if◌then◌else◌, ltb,
  lt→ltb, true, List, [], ◌∷◌, Option, none, some,
}
use meeting_room_booking_sys.Model.{User, Role, admin, user, unknown_role, other, Result, ok, err}
use meeting_room_booking_sys.Database.{Db, committed}
use meeting_room_booking_sys.Tokens.{second}
use meeting_room_booking_sys.Accounts.{Crypto, matching, mismatched, register, login}
use meeting_room_booking_sys.Http.Params
use meeting_room_booking_sys.NotificationHttp
use meeting_room_booking_sys.Jwt.{
  JwtLibrary, Claims, Parsed, signing_method_hmac, IsDocumented, generate_token, parse_token,
  token_ttl,
}
use meeting_room_booking_sys.Jwt.Login.{
  Reads, bearer, BothAccept, auth_agrees, auth-generate_token, auth-login,
}
use meeting_room_booking_sys.Tests.Data.{tables}

-- A token is the numbers of its claims.
abbrev written : Claims → Role → Result (List ℕ)
written c admin = ok (c.user_id ∷ 0 ∷ c.issued_at ∷ c.expires_at ∷ [])
written c user = ok (c.user_id ∷ 1 ∷ c.issued_at ∷ c.expires_at ∷ [])
written c (unknown_role r) = err (other 1)

abbrev role_of : ℕ → Role
role_of zero = admin
role_of (suc code) = user

abbrev read : ℕ → List ℕ → Option Parsed
read now (u ∷ code ∷ issued ∷ expires ∷ []) =
    if ltb now expires
    then some (record {
      claims = record {
        user_id = u;
        role = role_of code;
        issued_at = issued;
        expires_at = expires;
      };
      valid = true;
    })
    else none
read now text = none

abbrev with_key : ℕ → List ℕ → Option (List ℕ) → Option Parsed
with_key now text none = none
with_key now text (some key) = read now text

abbrev jwt : JwtLibrary
jwt = record {
  new_numeric_date = λ t. t / second * second;
  signed_string = λ key c. written c c.role;
  parse_with_claims = λ now text asked. with_key now text (asked signing_method_hmac);
}

written_nonempty :
    (c : Claims) (role : Role) (token : List ℕ) → written c role ≡ ok token → token ≢ []
written_nonempty c admin token h e = cc
written_nonempty c user token h e = cc
written_nonempty c (unknown_role r) token h e = cc

read_fresh :
    (c : Claims) (role : Role) (token : List ℕ) (now : ℕ)
    → written c role ≡ ok token
    → now < c.expires_at
    → read now token ≡ some (record { claims = record c { role = role }; valid = true })
read_fresh c admin token now h fresh =
    let same : (c.user_id ∷ 0 ∷ c.issued_at ∷ c.expires_at ∷ []) ≡ token = ground arith in
    subst (λ t. read now t ≡ some (record { claims = record c { role = admin }; valid = true }))
      same (rw (lt→ltb now c.expires_at fresh) refl)
read_fresh c user token now h fresh =
    let same : (c.user_id ∷ 1 ∷ c.issued_at ∷ c.expires_at ∷ []) ≡ token = ground arith in
    subst (λ t. read now t ≡ some (record { claims = record c { role = user }; valid = true })) same
      (rw (lt→ltb now c.expires_at fresh) refl)
read_fresh c (unknown_role r) token now h fresh = cc

read_late :
    (c : Claims) (role : Role) (token : List ℕ) (now : ℕ)
    → written c role ≡ ok token
    → c.expires_at ≤ now
    → read now token ≡ none
read_late c admin token now h late =
    let same : (c.user_id ∷ 0 ∷ c.issued_at ∷ c.expires_at ∷ []) ≡ token = ground arith in
    subst (λ t. read now t ≡ none) same (ground (arith, late))
read_late c user token now h late =
    let same : (c.user_id ∷ 1 ∷ c.issued_at ∷ c.expires_at ∷ []) ≡ token = ground arith in
    subst (λ t. read now t ≡ none) same (ground (arith, late))
read_late c (unknown_role r) token now h late = cc

jwt-IsDocumented : IsDocumented jwt
jwt-IsDocumented = record {
  date_low = λ t. omega arith;
  date_high = λ t. omega arith;
  signed_nonempty = λ key c token h. written_nonempty c c.role token h;
  parsed = λ key c token now asked h k fresh. rw k (read_fresh c c.role token now h fresh);
  expired = λ key c token now asked h k late. rw k (read_late c c.role token now h late);
}

abbrev secret : List ℕ
secret = b'k' ∷ []

-- What an hour after the tokens were given out the two services read.
abbrev one_hour : ℕ
one_hour = 3600 * second

abbrev booking_library : Params.Library
booking_library = record {
  parse_uuid = λ text. some 3;
  atoi = λ text. some (pos 3);
  parse_date = λ text. some 3;
  parse_token = λ text. parse_token jwt one_hour text secret;
  cast_time = λ text. some 3;
}

abbrev notification_library : NotificationHttp.Library
notification_library = record {
  atoi = λ text. some (pos 3);
  read_uuid = λ text. some 3;
  parse_token = λ text. NotificationHttp.parse_token jwt one_hour text secret;
}

reads : Reads jwt secret one_hour booking_library notification_library
reads = record { booking_reads = λ text. refl; notification_reads = λ text. refl }

same_tokens :
    (text : List ℕ) → booking_library.parse_token text ≡ notification_library.parse_token text
unfolding parse_token NotificationHttp.parse_token
same_tokens text = refl

-- The token of the user 7, given out at the time 0.
abbrev seven : List ℕ
seven = 7 ∷ 1 ∷ 0 ∷ token_ttl ∷ []

accepted : NotificationHttp.auth notification_library (bearer seven) ≡ some (7, user)
unfolding NotificationHttp.auth NotificationHttp.parse_token
accepted = refl

auth_agrees_example : Params.auth booking_library (bearer seven) ≡ some (7, user)
auth_agrees_example =
    auth_agrees booking_library notification_library (bearer seven) (7, user) same_tokens accepted

generated : generate_token jwt 0 0 7 user secret ≡ ok seven
unfolding generate_token
generated = refl

auth-generate_token_example :
    ((0 + token_ttl < one_hour + second)
      ⊎ BothAccept booking_library notification_library seven (some (7, user)))
    × ((one_hour < 0 + token_ttl) ⊎ BothAccept booking_library notification_library seven none)
auth-generate_token_example =
    auth-generate_token jwt secret one_hour booking_library notification_library jwt-IsDocumented
      reads 0 0 7 user seven generated

abbrev crypto : Crypto
crypto = record {
  hash = λ password. ok password;
  compare = λ h password. if h ==ˢ password then matching else mismatched;
  generate_token = λ id role. generate_token jwt 0 0 id role secret;
}

abbrev dora : User
dora = record { id = 3; email = "dora"; password = some "secret"; role = user; created_at = 50 }

abbrev with_dora : Db
with_dora = (register crypto tables committed 3 50 "dora" "secret" user).0

dora_registered : register crypto tables committed 3 50 "dora" "secret" user ≡ (with_dora, ok dora)
unfolding register
dora_registered = refl

abbrev three : List ℕ
three = 3 ∷ 1 ∷ 0 ∷ token_ttl ∷ []

dora_logged_in : login crypto with_dora none "dora" "secret" ≡ ok three
unfolding register login generate_token
dora_logged_in = refl

auth-login_example : BothAccept booking_library notification_library three (some (3, user))
auth-login_example =
    auth-login jwt secret one_hour booking_library notification_library crypto tables with_dora
      committed 3 50 0 0 "dora" "secret" "secret" "secret" user dora three jwt-IsDocumented reads
      (λ n r. refl) refl dora_registered dora_logged_in (omega arith)
