-- ===== src/Tests/Inbox.antt =====
-- The requests to the notification service, the rooms, and the restarts of the consumer.
use meeting_room_booking_sys.Prelude.{
  ℕ, pos, ◌≡◌, ◌⊎◌, refl, arith, true, false, any, update_where, List, [], ◌∷◌, Option, none, some,
}
use meeting_room_booking_sys.Model.{Room, user, BookingEvent, ok}
use meeting_room_booking_sys.Database.{Db, committed}
use meeting_room_booking_sys.Database.Sorting.{stable}
use meeting_room_booking_sys.Rooms.{RoomCall, create_room}
use meeting_room_booking_sys.Hub.{Notification, booking_created, new_hub}
use meeting_room_booking_sys.Tokens.{new_store}
use meeting_room_booking_sys.Notifications.{Service, list_by_user_id, is_owned, read}
use meeting_room_booking_sys.NotificationHttp.{
  Library, Server, mark_all_read_request, handle, mark_read, refuse, empty, internal_error,
  not_found,
}
use meeting_room_booking_sys.NotificationHttp.Isolation.{list-handle_other}
use meeting_room_booking_sys.NotificationHttp.Checks.{mark_read_lem}
use meeting_room_booking_sys.Consumer.{
  Delivery, Fetch, message, fetch_failed, waiting, after_second, Pause, supervise,
}
use meeting_room_booking_sys.Consumer.Supervision.{processed, supervise_processes}
use meeting_room_booking_sys.Tests.Data.{tables, booked_event}

abbrev large : RoomCall
large = record { new_id = 2; now = 60; fails = none; reply = committed }

abbrev large_room : Room
large_room = record {
  id = 2;
  name = "large";
  description = none;
  capacity = some (pos 40);
  created_at = 60;
}

abbrev with_large : Db
with_large = (create_room tables large "large" none (some (pos 40))).0

room_created : create_room tables large "large" none (some (pos 40)) ≡ (with_large, ok large_room)
unfolding create_room
room_created = refl

-- The empty text is no identifier, and every other text is that of the notification.
abbrev read_seventy : List ℕ → Option ℕ
read_seventy [] = none
read_seventy (c ∷ text) = some 70

abbrev library : Library
library = record {
  atoi = λ text. some (pos 3);
  read_uuid = read_seventy;
  parse_token = λ text. some (7, user);
}

abbrev note : Notification
note = record {
  id = 70;
  user_id = 7;
  type = booking_created;
  booking_id = 9;
  room_name = "small";
  slot_start = 100;
  slot_end = 200;
  is_read = false;
  created_at = 12;
}

abbrev server : Server
server = record {
  table = note ∷ record note { id = 71; user_id = 8; booking_id = 10 } ∷ [];
  gate = record { tokens = new_store; hub = new_hub };
}

list-handle_other_example :
    list_by_user_id stable
      (handle library stable server 7 (mark_all_read_request committed)).0.table
      none
      8
      20
      0
      true
    ≡ list_by_user_id stable server.table none 8 20 0 true
list-handle_other_example =
    list-handle_other library stable server 7 8 (mark_all_read_request committed) none 20 0 true
      (λ e. omega arith)

mark_read_lem_example :
    ((library.read_uuid (b'3' ∷ []) ≡ none)
      × (mark_read library server 7 none committed (b'3' ∷ [])
          ≡ (server, refuse 500 internal_error)))
    ⊎ ((id : ℕ) × (library.read_uuid (b'3' ∷ []) ≡ some id)
        × (((any (is_owned id 7) server.table ≡ false)
              × (mark_read library server 7 none committed (b'3' ∷ [])
                  ≡ (server, refuse 404 not_found)))
            ⊎ ((any (is_owned id 7) server.table ≡ true)
                × (mark_read library server 7 none committed (b'3' ∷ []) ≡ (
                  record server { table = update_where (is_owned id 7) read server.table },
                  empty 204,
                )))))
mark_read_lem_example = mark_read_lem library server 7 (b'3' ∷ [])

abbrev decode : List ℕ → Option BookingEvent
decode text = some booked_event

abbrev delivery : Option ℕ → Delivery
delivery commit_fails = record {
  value = [];
  new_id = 80;
  now = 70;
  reply = committed;
  commit_fails = commit_fails;
}

-- The reader fails, then a commit fails, then a message is taken.
abbrev troubled : List Fetch
troubled = fetch_failed 4 ∷ message (delivery (some 5)) ∷ message (delivery none) ∷ []

abbrev pauses : List Pause
pauses = after_second ∷ after_second ∷ after_second ∷ []

abbrev silent : Service
silent = record { table = []; hub = none }

supervise_processes_example :
    supervise decode pauses silent troubled ≡ (processed decode silent troubled, waiting)
supervise_processes_example =
    supervise_processes decode pauses silent troubled (tt, (tt, (tt, tt))) (tt, (tt, (tt, tt)))
      (omega arith)
