-- ===== src/Streams.antt =====
-- The stream handler of notification-service/internal/http/handlers/sse.go, over the tokens and the hub:
-- how a stream is opened and closed, and the loop that writes to it. A token is a number, and `none`
-- the absent query parameter.
pub mod Admission
pub mod Order
use meeting_room_booking_sys.Prelude.{
  ℕ, Bool, true, false, not, if◌then◌else◌, List, [], ◌∷◌, ◌++◌, Option, none, some,
}
use meeting_room_booking_sys.Hub.{Hub, Notification, subscribe, unsubscribe}
use meeting_room_booking_sys.Tokens.{TokenStore, issue, consume}

pub record Gate : Type 0 where
  pub tokens : TokenStore
  pub hub : Hub

-- A reply with a status, or the open stream of a user on a channel.
pub data Answer : Type 0 where
  denied : ℕ → Answer
  opened : ℕ → ℕ → Answer

-- `issueToken`, with what `uuid.New` and `time.Now` return.
unfoldable pub issue_token : Gate → ℕ → ℕ → ℕ → Gate
issue_token g token user_id now = record g { tokens = issue g.tokens token user_id now }

abbrev pub attach : Gate → ℕ → Hub × Option ℕ → Gate × Answer
attach g user_id (h, none) = (record g { hub = h }, denied 429)
attach g user_id (h, some ch) = (record g { hub = h }, opened user_id ch)

-- `flushes` and `unlimited` say whether the writer is a Flusher and lets its deadline be lifted.
abbrev pub admit : Gate → Bool → Bool → TokenStore × Option ℕ → Gate × Answer
admit g flushes unlimited (tokens, none) = (record g { tokens = tokens }, denied 401)
admit g flushes unlimited (tokens, some user_id) =
    if not flushes
    then (record g { tokens = tokens }, denied 500)
    else if not unlimited
    then (record g { tokens = tokens }, denied 500)
    else attach (record g { tokens = tokens }) user_id (subscribe g.hub user_id)

unfoldable pub open_stream : Gate → Option ℕ → ℕ → Bool → Bool → Gate × Answer
open_stream g none now flushes unlimited = (g, denied 401)
open_stream g (some token) now flushes unlimited =
    admit g flushes unlimited (consume g.tokens token now)

-- The deferred `unsubscribe`.
unfoldable pub close_stream : Gate → ℕ → ℕ → Gate
close_stream g user_id ch = record g { hub = unsubscribe g.hub user_id ch }

-- What is written to the stream: the first event, a notification, or a comment that keeps it alive.
pub data Frame : Type 0 where
  connected : Frame
  event : Notification → Frame
  ping : Frame

-- What the loop meets: other goroutines put notifications into the channel; one of the cases of the
-- `select` is taken, with whether the writing succeeds; or the request is over.
pub data Signal : Type 0 where
  arrived : List Notification → Signal
  notified : Bool → Signal
  ticked : Bool → Signal
  request_done : Signal

-- The frames that were written, what is left in the channel, and whether the stream is still open.
pub record Written : Type 0 where
  pub frames : List Frame
  pub left : List Notification
  pub is_open : Bool

abbrev pub closed : List Notification → Written
closed queue = record { frames = []; left = queue; is_open = false }

abbrev pub emit : Bool → Frame → List Notification → Written → Written
emit false frame queue rest = closed queue
emit true frame queue rest = record rest { frames = frame ∷ rest.frames }

-- The `for` loop. The case of the channel is not taken while the channel is empty.
unfoldable pub write_loop : List Notification → List Signal → Written
write_loop queue [] = record { frames = []; left = queue; is_open = true }
write_loop queue (arrived ns ∷ signals) = write_loop (queue ++ ns) signals
write_loop [] (notified writes ∷ signals) = write_loop [] signals
write_loop (n ∷ queue) (notified writes ∷ signals) =
    emit writes (event n) queue (write_loop queue signals)
write_loop queue (ticked writes ∷ signals) = emit writes ping queue (write_loop queue signals)
write_loop queue (request_done ∷ signals) = closed queue

-- The new channel is empty; `writes` is for the first event.
unfoldable pub write_stream : Bool → List Signal → Written
unfolding write_loop
write_stream writes signals = emit writes connected [] (write_loop [] signals)
