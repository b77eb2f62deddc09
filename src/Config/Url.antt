-- ===== src/Config/Url.antt =====
-- The URL of the booking service's database: `dsnURL` of booking-service/internal/config/config.go, with
-- what it uses of Go's net/url.
pub mod Userinfo
use Prim.Native.Nat.{zero, suc}
use meeting_room_booking_sys.Prelude.{
  ℕ, ◌+◌, ◌-◌, ◌*◌, ◌/◌, ◌%◌, leb, ltb, ◌==◌, ◌&&◌, ◌||◌, not, if◌then◌else◌, Bool, true, false,
  any, List, [], ◌∷◌, ◌++◌,
}
use meeting_room_booking_sys.Config.{Text, BookingConfig}

-- What a text is escaped for.
pub data Encoding : Type 0 where
  encode_user_password encode_host encode_path : Encoding

abbrev pub is_among : List ℕ → ℕ → Bool
is_among chars c = any (λ d. d == c) chars

abbrev pub is_alphanumeric : ℕ → Bool
is_alphanumeric c =
    ((leb b'a' c && leb c b'z') || (leb b'A' c && leb c b'Z')) || (leb b'0' c && leb c b'9')

abbrev pub is_unreserved : ℕ → Bool
is_unreserved c = is_alphanumeric c || is_among (b'-' ∷ b'_' ∷ b'.' ∷ b'~' ∷ []) c

-- `shouldEscape`, for the three encodings that a URL with a user, a host and a path is written with.
abbrev pub should_escape : Encoding → ℕ → Bool
should_escape encode_user_password c =
    not (is_unreserved c || is_among (36 ∷ b'&' ∷ b'+' ∷ b',' ∷ b';' ∷ b'=' ∷ []) c)
should_escape encode_path c = not (
    is_unreserved c || is_among (36 ∷ b'&' ∷ b'+' ∷ b',' ∷ b'/' ∷ b':' ∷ b';' ∷ b'=' ∷ b'@' ∷ []) c)
should_escape encode_host c = not (
    is_unreserved c
    || is_among
        (b'!' ∷ 36 ∷ b'&' ∷ 39 ∷ b'(' ∷ b')' ∷ b'*' ∷ b'+' ∷ b',' ∷ b';' ∷ b'=' ∷ b':' ∷ b'[' ∷ b']'
          ∷ b'<' ∷ b'>' ∷ 34 ∷ [])
        c)

-- A digit of "0123456789ABCDEF".
abbrev pub upper_hex : ℕ → ℕ
upper_hex n = if ltb n 10 then b'0' + n else b'A' + (n - 10)

unfoldable pub escape : Encoding → Text → Text
escape mode [] = []
escape mode (c ∷ text) =
    let rest = escape mode text in
    if should_escape mode c then b'%' ∷ upper_hex (c / 16) ∷ upper_hex (c % 16) ∷ rest else c ∷ rest

abbrev pub after_scheme : Text
after_scheme = b':' ∷ b'/' ∷ b'/' ∷ []

abbrev pub ssl_mode_disable : Text
ssl_mode_disable =
    b's' ∷ b's' ∷ b'l' ∷ b'm' ∷ b'o' ∷ b'd' ∷ b'e' ∷ b'=' ∷ b'd' ∷ b'i' ∷ b's' ∷ b'a' ∷ b'b' ∷ b'l'
    ∷ b'e' ∷ []

-- `u.String()`: the host is never empty, and the path begins with a slash.
unfoldable pub dsn_url : BookingConfig → Text → Text
unfolding escape
dsn_url c scheme =
    scheme
    ++ (after_scheme
        ++ ((escape encode_user_password c.db_user
              ++ b':' ∷ escape encode_user_password c.db_password)
            ++ b'@'
              ∷ (escape encode_host (c.db_host ++ b':' ∷ c.db_port)
                  ++ (escape encode_path (b'/' ∷ c.db_name) ++ b'?' ∷ ssl_mode_disable))))

abbrev pub postgres : Text
postgres = b'p' ∷ b'o' ∷ b's' ∷ b't' ∷ b'g' ∷ b'r' ∷ b'e' ∷ b's' ∷ []

abbrev pub pgx5 : Text
pgx5 = b'p' ∷ b'g' ∷ b'x' ∷ b'5' ∷ []

unfoldable pub dsn : BookingConfig → Text
unfolding dsn_url
dsn c = dsn_url c postgres

unfoldable pub migrate_dsn : BookingConfig → Text
unfolding dsn_url
migrate_dsn c = dsn_url c pgx5
