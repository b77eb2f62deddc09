-- ===== src/Jwt.antt =====
-- booking-service/internal/pkg/jwt/jwt.go: the tokens that the booking service gives out and reads.
-- github.com/golang-jwt/jwt is a parameter. Texts and keys are bytes.
pub mod Login
use meeting_room_booking_sys.Prelude.{
  ℕ, ◌+◌, ◌*◌, ◌≤◌, ◌<◌, ◌≡◌, ◌≢◌, if◌then◌else◌, Bool, true, List, [], Option, none, some,
}
use meeting_room_booking_sys.Model.{Role, Result, ok}
use meeting_room_booking_sys.Tokens.{second}

-- `24 * time.Hour`
abbrev pub token_ttl : ℕ
token_ttl = 24 * 3600 * second

-- `Claims`; the two times are those of `jwt.NumericDate`.
pub record Claims : Type 0 where
  pub user_id : ℕ
  pub role : Role
  pub issued_at : ℕ
  pub expires_at : ℕ

-- The method that the header of a token names: one of `*jwt.SigningMethodHMAC`, or another.
pub data Method : Type 0 where
  signing_method_hmac another_method : Method

-- What `ParseWithClaims` returns without an error.
pub record Parsed : Type 0 where
  pub claims : Claims
  pub valid : Bool

-- The library: `NewNumericDate`, `SignedString` of HS256 with a key, and `ParseWithClaims` at a time,
-- which asks the function for the key of the token's method.
pub record JwtLibrary : Type 0 where
  pub new_numeric_date : ℕ → ℕ
  pub signed_string : List ℕ → Claims → Result (List ℕ)
  pub parse_with_claims : ℕ → List ℕ → (Method → Option (List ℕ)) → Option Parsed

abbrev Key : Type 0
Key = Method → Option (List ℕ)

-- What the library documents: a NumericDate is cut to whole seconds; a signed token is no empty text;
-- and a token that was signed with the key is parsed until it expires, and is refused from then on.
pub record IsDocumented (j : JwtLibrary) : Type 0 where
  pub date_low : (t : ℕ) → j.new_numeric_date t ≤ t
  pub date_high : (t : ℕ) → t < j.new_numeric_date t + second
  pub signed_nonempty :
      (key : List ℕ) (c : Claims) (token : List ℕ) → j.signed_string key c ≡ ok token → token ≢ []
  pub parsed :
      (key : List ℕ) (c : Claims) (token : List ℕ) (now : ℕ) (asked : Key)
      → j.signed_string key c ≡ ok token
      → asked signing_method_hmac ≡ some key
      → now < c.expires_at
      → j.parse_with_claims now token asked ≡ some (record { claims = c; valid = true })
  pub expired :
      (key : List ℕ) (c : Claims) (token : List ℕ) (now : ℕ) (asked : Key)
      → j.signed_string key c ≡ ok token
      → asked signing_method_hmac ≡ some key
      → c.expires_at ≤ now
      → j.parse_with_claims now token asked ≡ none

-- The function that `ParseToken` gives to the library.
abbrev pub key_of : List ℕ → Method → Option (List ℕ)
key_of secret signing_method_hmac = some secret
key_of secret another_method = none

abbrev pub claimed : Option Parsed → Option (ℕ × Role)
claimed none = none
claimed (some p) = if p.valid then some (p.claims.user_id, p.claims.role) else none

module _ (j : JwtLibrary) where
  -- The two times are those of the two calls of `time.Now`.
  unfoldable pub generate_token : ℕ → ℕ → ℕ → Role → List ℕ → Result (List ℕ)
  generate_token now_expires now_issued user_id role secret = j.signed_string secret (record {
    user_id = user_id;
    role = role;
    issued_at = j.new_numeric_date now_issued;
    expires_at = j.new_numeric_date (now_expires + token_ttl);
  })

  unfoldable pub parse_token : ℕ → List ℕ → List ℕ → Option (ℕ × Role)
  parse_token now token secret = claimed (j.parse_with_claims now token (key_of secret))
