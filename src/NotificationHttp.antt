-- ===== src/NotificationHttp.antt =====
-- notification-service/internal/http: the middleware `Auth`, the handlers, the mapping of errors and the
-- router; and notification-service/internal/pkg/jwt/jwt.go. What libraries do to texts is a parameter.
-- The messages of the replies are left out.
pub mod Isolation
pub mod Checks
use Prim.Native.String.{String}
use meeting_room_booking_sys.Prelude.{
  ℕ, ℤ, pos, negsuc, ltb, ◌==◌, ◌&&◌, if◌then◌else◌, Bool, List, [], ◌∷◌, Option, none, some,
}
use meeting_room_booking_sys.Model.{
  Role, Error, notification_not_found, forbidden, other, Result, ok, err,
}
use meeting_room_booking_sys.Clock.{◌>>=◌}
use meeting_room_booking_sys.Database.{CommitReply}
use meeting_room_booking_sys.Database.Sorting.{Order}
use meeting_room_booking_sys.Hub.{Notification}
use meeting_room_booking_sys.Notifications.{list_by_user_id, mark_as_read, mark_all_as_read}
use meeting_room_booking_sys.Streams.{Gate, Answer, issue_token, open_stream}
use meeting_room_booking_sys.Jwt.{JwtLibrary, key_of, claimed}

pub data Code : Type 0 where
  unauthorized internal_error not_found forbidden_code : Code

pub data Reply : Type 0 where
  refuse : ℕ → Code → Reply
  notifications : ℕ → List Notification → ℕ → Reply
  token : ℕ → ℕ → Reply
  empty : ℕ → Reply
  stream : Answer → Reply

unfoldable pub map_error : Error → Reply
map_error notification_not_found = refuse 404 not_found
map_error forbidden = refuse 403 forbidden_code
map_error e = refuse 500 internal_error

-- The libraries: strconv.Atoi, the driver's reading of a UUID, and `ParseToken` with its secret.
pub record Library : Type 0 where
  pub atoi : List ℕ → Option ℤ
  pub read_uuid : List ℕ → Option ℕ
  pub parse_token : List ℕ → Option (ℕ × Role)

-- `ParseToken`
unfoldable pub parse_token : JwtLibrary → ℕ → List ℕ → List ℕ → Option (ℕ × Role)
parse_token j now text secret = claimed (j.parse_with_claims now text (key_of secret))

abbrev pub bearer_prefix : List ℕ
bearer_prefix = b'B' ∷ b'e' ∷ b'a' ∷ b'r' ∷ b'e' ∷ b'r' ∷ 32 ∷ []

-- `strings.CutPrefix`
unfoldable pub cut_prefix : List ℕ → List ℕ → Option (List ℕ)
cut_prefix [] text = some text
cut_prefix (p ∷ prefix) [] = none
cut_prefix (p ∷ prefix) (c ∷ text) =
    let rest = cut_prefix prefix text in if c == p then rest else none

abbrev pub parse_nonempty : Library → List ℕ → Option (ℕ × Role)
parse_nonempty lib [] = none
parse_nonempty lib (c ∷ text) = lib.parse_token (c ∷ text)

-- `Auth`: the user and the role of the request, or 401.
unfoldable pub auth : Library → List ℕ → Option (ℕ × Role)
unfolding cut_prefix
auth lib header = do text ← cut_prefix bearer_prefix header; parse_nonempty lib text

-- `parseIntParam`, whose callers have `min` and `max` that are not negative.
abbrev pub clamp : Option ℤ → ℕ → ℕ → ℕ → ℕ
clamp none default min max = default
clamp (some (pos v)) default min max =
    if ltb v min then default else if ltb 0 max && ltb max v then max else v
clamp (some (negsuc v)) default min max = default

unfoldable pub parse_int_param : Library → List ℕ → ℕ → ℕ → ℕ → ℕ
parse_int_param lib [] default min max = default
parse_int_param lib (c ∷ text) default min max = clamp (lib.atoi (c ∷ text)) default min max

abbrev pub default_limit : ℕ
default_limit = 20

abbrev pub max_limit : ℕ
max_limit = 100

abbrev pub default_offset : ℕ
default_offset = 0

abbrev pub max_offset : ℕ
max_offset = 1000

-- The table of the repository, and the tokens and the hub.
pub record Server : Type 0 where
  pub table : List Notification
  pub gate : Gate

abbrev pub listed : Result (List Notification × ℕ) → Reply
listed (err e) = map_error e
listed (ok (ns, total)) = notifications 200 ns total

abbrev pub marked : Server → List Notification × Result (Unit {0}) → Server × Reply
marked s (table, err e) = (record s { table = table }, map_error e)
marked s (table, ok done) = (record s { table = table }, empty 204)

-- `unread_only` says whether the parameter is the text "true".
abbrev pub list : Library → Order → Server → ℕ → Option ℕ → List ℕ → List ℕ → Bool → Server × Reply
list lib order s user_id fails limit offset unread_only = (
  s,
  listed (
      list_by_user_id order s.table fails user_id
        (parse_int_param lib limit default_limit 1 max_limit)
        (parse_int_param lib offset default_offset 0 max_offset) unread_only),
)

-- The number of the driver's error.
abbrev pub unreadable_uuid : ℕ
unreadable_uuid = 3

-- The identifier is a text until the driver reads it.
abbrev pub mark_found : Server → ℕ → Option ℕ → CommitReply → Option ℕ → Server × Reply
mark_found s user_id fails reply none = (s, map_error (other unreadable_uuid))
mark_found s user_id fails reply (some id) = marked s (mark_as_read s.table fails reply id user_id)

abbrev pub mark_read : Library → Server → ℕ → Option ℕ → CommitReply → List ℕ → Server × Reply
mark_read lib s user_id fails reply id = mark_found s user_id fails reply (lib.read_uuid id)

abbrev pub mark_all_read : Server → ℕ → CommitReply → Server × Reply
mark_all_read s user_id reply = marked s (mark_all_as_read s.table reply user_id)

-- The routes behind `Auth`; a `sse_token_request` has what `uuid.New` and `time.Now` return.
pub data Request : Type 0 where
  sse_token_request : ℕ → ℕ → Request
  list_request : Option ℕ → List ℕ → List ℕ → Bool → Request
  mark_read_request : Option ℕ → CommitReply → List ℕ → Request
  mark_all_read_request : CommitReply → Request

abbrev pub handle : Library → Order → Server → ℕ → Request → Server × Reply
handle lib order s user_id (sse_token_request fresh now) =
    (record s { gate = issue_token s.gate fresh user_id now }, token 200 fresh)
handle lib order s user_id (list_request fails limit offset unread_only) =
    list lib order s user_id fails limit offset unread_only
handle lib order s user_id (mark_read_request fails reply id) =
    mark_read lib s user_id fails reply id
handle lib order s user_id (mark_all_read_request reply) = mark_all_read s user_id reply

abbrev pub with_user : Library → Order → Server → Request → Option (ℕ × Role) → Server × Reply
with_user lib order s r none = (s, refuse 401 unauthorized)
with_user lib order s r (some (user_id, role)) = handle lib order s user_id r

unfoldable pub serve : Library → Order → Server → List ℕ → Request → Server × Reply
unfolding auth
serve lib order s header r = with_user lib order s r (auth lib header)

abbrev pub streamed : Server → Gate × Answer → Server × Reply
streamed s (gate, answer) = (record s { gate = gate }, stream answer)

-- The public routes: `/_info`, and the stream with its token.
unfoldable pub info : Server → Server × Reply
info s = (s, empty 200)

unfoldable pub stream_notifications : Server → Option ℕ → ℕ → Bool → Bool → Server × Reply
stream_notifications s text now flushes unlimited =
    streamed s (open_stream s.gate text now flushes unlimited)
