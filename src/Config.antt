-- ===== src/Config.antt =====
-- The configuration of the two services: booking-service/internal/config/config.go,
-- notification-service/internal/config/config.go, and the list of brokers of
-- booking-service/cmd/main.go. `Getenv` is the environment: an unset variable is the empty text, as
-- for `os.Getenv`. `none` stands for `log.Fatalf`. Texts are bytes.
pub mod Brokers
pub mod Url
use meeting_room_booking_sys.Prelude.{
  ℕ, leb, ◌==◌, ◌&&◌, ◌||◌, if◌then◌else◌, Bool, true, false, List, [], ◌∷◌, ◌++◌, map, Option,
  none, some,
}
use meeting_room_booking_sys.Clock.{◌>>=◌}

abbrev pub Text : Type 0
Text = List ℕ

pub data Variable : Type 0 where
  booking_server_port booking_database_host booking_database_port : Variable
  booking_database_user booking_database_password booking_database_name : Variable
  notification_server_port notification_database_host notification_database_port : Variable
  notification_database_user notification_database_password notification_database_name : Variable
  jwt_secret kafka_brokers kafka_topic_booking_events kafka_group_id : Variable

abbrev pub Getenv : Type 0
Getenv = Variable → Text

abbrev pub given : Text → Option Text
given [] = none
given (c ∷ v) = some (c ∷ v)

unfoldable pub must_env : Getenv → Variable → Option Text
must_env getenv key = given (getenv key)

abbrev pub or_default : Text → Text → Text
or_default [] def = def
or_default (c ∷ v) def = c ∷ v

unfoldable pub opt_env : Getenv → Variable → Text → Text
opt_env getenv key def = or_default (getenv key) def

pub record BookingConfig : Type 0 where
  pub server_port : Text
  pub db_host : Text
  pub db_port : Text
  pub db_user : Text
  pub db_password : Text
  pub db_name : Text
  pub jwt_secret : Text
  pub kafka_brokers : Text
  pub kafka_topic_booking_events : Text

pub record NotificationConfig : Type 0 where
  pub server_port : Text
  pub db_host : Text
  pub db_port : Text
  pub db_user : Text
  pub db_password : Text
  pub db_name : Text
  pub jwt_secret : Text
  pub kafka_brokers : Text
  pub kafka_topic_booking_events : Text
  pub kafka_group_id : Text

abbrev pub booking_port : Text
booking_port = b'8' ∷ b'0' ∷ b'8' ∷ b'0' ∷ []

abbrev pub notification_port : Text
notification_port = b'8' ∷ b'0' ∷ b'8' ∷ b'1' ∷ []

abbrev pub postgres_port : Text
postgres_port = b'5' ∷ b'4' ∷ b'3' ∷ b'2' ∷ []

abbrev pub default_topic : Text
default_topic =
    b'b' ∷ b'o' ∷ b'o' ∷ b'k' ∷ b'i' ∷ b'n' ∷ b'g' ∷ b'.' ∷ b'e' ∷ b'v' ∷ b'e' ∷ b'n' ∷ b't' ∷ b's'
    ∷ []

abbrev pub default_group : Text
default_group =
    b'n' ∷ b'o' ∷ b't' ∷ b'i' ∷ b'f' ∷ b'i' ∷ b'c' ∷ b'a' ∷ b't' ∷ b'i' ∷ b'o' ∷ b'n' ∷ b'-' ∷ b's'
    ∷ b'e' ∷ b'r' ∷ b'v' ∷ b'i' ∷ b'c' ∷ b'e' ∷ []

unfoldable pub load_booking : Getenv → Option BookingConfig
unfolding must_env opt_env
load_booking getenv = do
  host ← must_env getenv booking_database_host
  role ← must_env getenv booking_database_user
  password ← must_env getenv booking_database_password
  name ← must_env getenv booking_database_name
  secret ← must_env getenv Variable.jwt_secret
  brokers ← must_env getenv Variable.kafka_brokers
  some (record {
    server_port = opt_env getenv booking_server_port booking_port;
    db_host = host;
    db_port = opt_env getenv booking_database_port postgres_port;
    db_user = role;
    db_password = password;
    db_name = name;
    jwt_secret = secret;
    kafka_brokers = brokers;
    kafka_topic_booking_events = opt_env getenv Variable.kafka_topic_booking_events default_topic;
  })

unfoldable pub load_notification : Getenv → Option NotificationConfig
unfolding must_env opt_env
load_notification getenv = do
  host ← must_env getenv notification_database_host
  role ← must_env getenv notification_database_user
  password ← must_env getenv notification_database_password
  name ← must_env getenv notification_database_name
  secret ← must_env getenv Variable.jwt_secret
  brokers ← must_env getenv Variable.kafka_brokers
  some (record {
    server_port = opt_env getenv notification_server_port notification_port;
    db_host = host;
    db_port = opt_env getenv notification_database_port postgres_port;
    db_user = role;
    db_password = password;
    db_name = name;
    jwt_secret = secret;
    kafka_brokers = brokers;
    kafka_topic_booking_events = opt_env getenv Variable.kafka_topic_booking_events default_topic;
    kafka_group_id = opt_env getenv Variable.kafka_group_id default_group;
  })

abbrev pub comma : ℕ
comma = b','

abbrev pub cons_head : ℕ → List Text → List Text
cons_head c [] = (c ∷ []) ∷ []
cons_head c (x ∷ xs) = (c ∷ x) ∷ xs

-- `strings.Split` with a separator of one byte.
unfoldable pub split : ℕ → Text → List Text
split sep [] = [] ∷ []
split sep (c ∷ text) = let rest = split sep text in if c == sep then [] ∷ rest else cons_head c rest

-- The white space of ASCII, as `strings.TrimSpace` takes it.
abbrev pub is_space : ℕ → Bool
is_space c = (leb 9 c && leb c 13) || c == 32

unfoldable pub trim_left : Text → Text
trim_left [] = []
trim_left (c ∷ text) = let rest = trim_left text in if is_space c then rest else c ∷ text

abbrev pub cons_trimmed : ℕ → Text → Text
cons_trimmed c [] = if is_space c then [] else c ∷ []
cons_trimmed c (d ∷ text) = c ∷ d ∷ text

unfoldable pub trim_right : Text → Text
trim_right [] = []
trim_right (c ∷ text) = cons_trimmed c (trim_right text)

unfoldable pub trim_space : Text → Text
unfolding trim_left trim_right
trim_space text = trim_right (trim_left text)

-- `brokers` of the booking service's `run`.
unfoldable pub booking_brokers : BookingConfig → List Text
unfolding split
booking_brokers c = split comma c.kafka_brokers

unfoldable pub kafka_brokers_list : NotificationConfig → List Text
unfolding split trim_space
kafka_brokers_list c = map trim_space (split comma c.kafka_brokers)

abbrev host_part : Text
host_part = b'h' ∷ b'o' ∷ b's' ∷ b't' ∷ b'=' ∷ []

abbrev port_part : Text
port_part = 32 ∷ b'p' ∷ b'o' ∷ b'r' ∷ b't' ∷ b'=' ∷ []

abbrev user_part : Text
user_part = 32 ∷ b'u' ∷ b's' ∷ b'e' ∷ b'r' ∷ b'=' ∷ []

abbrev password_part : Text
password_part = 32 ∷ b'p' ∷ b'a' ∷ b's' ∷ b's' ∷ b'w' ∷ b'o' ∷ b'r' ∷ b'd' ∷ b'=' ∷ []

abbrev dbname_part : Text
dbname_part = 32 ∷ b'd' ∷ b'b' ∷ b'n' ∷ b'a' ∷ b'm' ∷ b'e' ∷ b'=' ∷ []

abbrev sslmode_part : Text
sslmode_part =
    32 ∷ b's' ∷ b's' ∷ b'l' ∷ b'm' ∷ b'o' ∷ b'd' ∷ b'e' ∷ b'=' ∷ b'd' ∷ b'i' ∷ b's' ∷ b'a' ∷ b'b'
    ∷ b'l' ∷ b'e' ∷ []

-- The connection string of the notification service.
unfoldable pub dsn : NotificationConfig → Text
dsn c =
    host_part ++ c.db_host ++ port_part ++ c.db_port ++ user_part ++ c.db_user ++ password_part
    ++ c.db_password ++ dbname_part ++ c.db_name ++ sslmode_part

abbrev migrate_scheme : Text
migrate_scheme = b'p' ∷ b'g' ∷ b'x' ∷ b'5' ∷ b':' ∷ b'/' ∷ b'/' ∷ []

abbrev query_part : Text
query_part =
    b'?' ∷ b's' ∷ b's' ∷ b'l' ∷ b'm' ∷ b'o' ∷ b'd' ∷ b'e' ∷ b'=' ∷ b'd' ∷ b'i' ∷ b's' ∷ b'a' ∷ b'b'
    ∷ b'l' ∷ b'e' ∷ []

unfoldable pub migrate_dsn : NotificationConfig → Text
migrate_dsn c =
    migrate_scheme
    ++ c.db_user
    ++ b':' ∷ c.db_password
    ++ b'@' ∷ c.db_host
    ++ b':' ∷ c.db_port
    ++ b'/' ∷ c.db_name
    ++ query_part
