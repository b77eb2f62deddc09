-- ===== src/Tests/Stream.antt =====
-- The hub, the tokens of the streams, the relay, the notifications and the consumer.
use meeting_room_booking_sys.Prelude.{
  Bool, ◌<◌, ℕ, ◌+◌, ◌≡◌, ◌≤◌, refl, arith, List, [], ◌∷◌, ◌++◌, map, Option, none, some, true,
  false, if◌then◌else◌, ltb, length,
}
use meeting_room_booking_sys.Model.{BookingEvent, ok}
use meeting_room_booking_sys.Database.{committed, refused, lost}
use meeting_room_booking_sys.Hub.{
  Hub, Notification, booking_created, new_hub, subscribe, max_subs_per_user,
}
use meeting_room_booking_sys.Hub.Channels.{count}
use meeting_room_booking_sys.Hub.Operations.{channels}
use meeting_room_booking_sys.Hub.Isolation.{
  System, start, record_owner, subscribes, copies, initially, stepped, Inv,
}
use meeting_room_booking_sys.Hub.Isolation.Invariance.{Reached-Inv}
use meeting_room_booking_sys.Tokens.{
  new_store, issue, consume, issues, consumes, cleans, token_ttl, Call,
}
use meeting_room_booking_sys.Tokens.Lifetime.{
  after, consume-issue, successes, issued, successes-le-issued,
}
use meeting_room_booking_sys.Streams.{
  Gate, denied, opened, issue_token, open_stream, Signal, arrived, notified, ticked, write_stream,
  write_loop,
}
use meeting_room_booking_sys.Pipeline.Streaming.{takes, create_from_event-shown}
use meeting_room_booking_sys.Streams.Order.{shown, arrivals, write_stream_lem}
use meeting_room_booking_sys.Streams.Admission.{open_stream_lem}
use meeting_room_booking_sys.Relay.{Store}
use meeting_room_booking_sys.Notifications.{Service, create_from_event, notification_of}
use meeting_room_booking_sys.Notifications.Delivery.{create_from_event_twice}
use meeting_room_booking_sys.Consumer.{Delivery, message, fetch_failed, Fetch}
use meeting_room_booking_sys.Tests.Data.{booked_event, booked_row}

abbrev note : Notification
note = record {
  id = 70;
  user_id = 7;
  type = booking_created;
  booking_id = 9;
  room_name = "small";
  slot_start = 100;
  slot_end = 200;
  is_read = false;
  created_at = 12;
}

abbrev one_stream : Hub
one_stream = (subscribe new_hub 7).0

abbrev two_streams : Hub
two_streams = (subscribe one_stream 7).0

channel_once : count 1 (channels two_streams 7) ≡ 1
unfolding subscribe new_hub
channel_once = refl

few_streams : length (channels two_streams 7) ≤ max_subs_per_user
unfolding subscribe new_hub
few_streams = omega arith

abbrev with_stream : System
with_stream = record start {
  hub = (subscribe start.hub 7).0;
  owner = record_owner (subscribe start.hub 7).1 7 start.owner;
}

-- A notification was copied for the open stream and is not sent yet.
abbrev copied : System
copied = record with_stream {
  sends = with_stream.sends ++ map (λ ch. (ch, note)) (channels with_stream.hub 7);
}

Reached-Inv_example : Inv copied
Reached-Inv_example = Reached-Inv (stepped (copies note) (stepped (subscribes 7) initially))

abbrev quiet : List (ℕ × Call)
quiet = (1000, issues 4 8) ∷ (2000, cleans) ∷ []

consume-issue_example :
    (consume (after (issue new_store 3 7 0) quiet) 3 5000).1
    ≡ (if ltb (0 + token_ttl) 5000 then none else some 7)
consume-issue_example =
    consume-issue new_store 3 7 0 5000 quiet ((λ e. omega arith), (omega arith, tt))

abbrev busy : List (ℕ × Call)
busy = (0, issues 3 7) ∷ (1, cleans) ∷ (2, consumes 3) ∷ (3, consumes 3) ∷ []

absent : new_store 3 ≡ none
unfolding new_store
absent = refl

successes-le-issued_example : successes 3 new_store busy ≤ issued 3 busy
successes-le-issued_example = successes-le-issued 3 new_store busy absent

abbrev outbox : Store
outbox = record { outbox = booked_row ∷ []; topic = [] }

abbrev empty_service : Service
empty_service = record { table = []; hub = some two_streams }

abbrev told : Service
told = (create_from_event empty_service 70 12 committed booked_event).0

told_run : create_from_event empty_service 70 12 committed booked_event ≡ (told, ok tt)
unfolding create_from_event
told_run = refl

create_from_event_twice_example : (create_from_event told 71 13 (lost 5) booked_event).0 ≡ told
create_from_event_twice_example =
    create_from_event_twice empty_service told 70 12 committed booked_event told_run 71 13 (lost 5)

-- The empty text is no event; every other text is the event of the tables.
abbrev decode : List ℕ → Option BookingEvent
decode [] = none
decode (c ∷ text) = some booked_event

abbrev delivery : List ℕ → ℕ → Delivery
delivery value new_id = record {
  value = value;
  new_id = new_id;
  now = 12;
  reply = refused 3;
  commit_fails = none;
}

abbrev again : List Fetch
again =
    message (record (delivery (1 ∷ []) 1) { reply = committed })
    ∷ message (record (delivery (1 ∷ []) 2) { reply = committed })
    ∷ fetch_failed 4
    ∷ []

abbrev gate : Gate
gate = issue_token (record { tokens = new_store; hub = one_stream }) 3 7 0

abbrev opened_gate : Gate
opened_gate = (open_stream gate (some 3) 5000 true true).0

opened_run : open_stream gate (some 3) 5000 true true ≡ (opened_gate, opened 7 1)
unfolding open_stream issue_token consume issue subscribe new_store new_hub
opened_run = refl

open_stream_lem_example :
    ((consume gate.tokens 3 5000).1 ≡ some 7)
    × (length (channels gate.hub 7) < max_subs_per_user)
    × (channels opened_gate.hub 7 ≡ channels gate.hub 7 ++ 1 ∷ [])
    × ((later : ℕ) (flushes unlimited : Bool)
        → ((open_stream opened_gate (some 3) later flushes unlimited).1 ≡ denied 401)
          × ((open_stream opened_gate (some 3) later flushes unlimited).0.hub ≡ opened_gate.hub))
open_stream_lem_example = open_stream_lem gate opened_gate 3 5000 7 1 true true opened_run

-- A notification arrives and is shown, another one arrives and waits.
abbrev signals : List Signal
signals = arrived (note ∷ []) ∷ ticked true ∷ notified true ∷ arrived (note ∷ []) ∷ []

still_open : (write_stream true signals).is_open ≡ true
unfolding write_stream
still_open = refl

write_stream_lem_example :
    shown (write_stream true signals).frames ++ (write_stream true signals).left ≡ arrivals signals
write_stream_lem_example = write_stream_lem true signals still_open

abbrev streaming : Service
streaming = record { table = []; hub = some two_streams }

create_from_event-shown_example :
    (next : Hub) × (((create_from_event streaming 70 12 committed booked_event).0.table
        ≡ [] ++ notification_of booking_created 70 12 booked_event ∷ [])
      × ((create_from_event streaming 70 12 committed booked_event).0.hub ≡ some next))
    × (shown (write_loop (next.queues 1) (takes (length (two_streams.queues 1) + 1))).frames
        ≡ two_streams.queues 1 ++ notification_of booking_created 70 12 booked_event ∷ [])
    × ((c : ℕ) → count c (channels two_streams 7) ≡ 0 → next.queues c ≡ two_streams.queues c)
unfolding subscribe new_hub
create_from_event-shown_example =
    create_from_event-shown [] two_streams 70 12 booked_event booking_created 1 refl (omega arith)
      refl refl refl (omega arith)
