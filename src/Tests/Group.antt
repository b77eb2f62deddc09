-- ===== src/Tests/Group.antt =====
-- The processes of the notification service, and what the counters say.
use meeting_room_booking_sys.Prelude.{
  ℕ, zero, suc, ◌≡◌, refl, arith, true, false, List, [], ◌∷◌, Option, none, some, map, count_where,
}
use meeting_room_booking_sys.Model.{BookingEvent}
use meeting_room_booking_sys.Database.{committed}
use meeting_room_booking_sys.Hub.{booking_created}
use meeting_room_booking_sys.Notifications.{Service, is_about, create_from_event}
use meeting_room_booking_sys.Notifications.Delivery.{IsUnique}
use mathlib.Core.List.Perm
use meeting_room_booking_sys.Consumer.Commuting.{announced, announced-Perm, Follows}
use meeting_room_booking_sys.Consumer.Supervision.{processed}
use meeting_room_booking_sys.Consumer.{message, Delivery}
use meeting_room_booking_sys.Consumer.Offsets.{
  Group, handled, resume, begin, handles, restarts, Reached, initially, stepped,
}
use meeting_room_booking_sys.Consumer.Offsets.Announcement.{committed_announced}
use meeting_room_booking_sys.NotificationLifecycle.{
  Life, signals, begins_shutdown, ends_shutdown, ends_consumer, returns, consumes, opens_stream,
  cuts_connections,
}
use meeting_room_booking_sys.NotificationLifecycle
use meeting_room_booking_sys.NotificationLifecycle.Shutdown.{IsSettled, Reached-IsSettled}
use meeting_room_booking_sys.Tests.Data.{booked_event}

-- Every text is the event of the tables, and the partition has one message.
abbrev decode : List ℕ → Option BookingEvent
decode text = some booked_event

abbrev topic : ℕ → Option (List ℕ)
topic zero = some []
topic (suc k) = none

abbrev delivery : ℕ → Option ℕ → Delivery
delivery new_id commit_fails = record {
  value = [];
  new_id = new_id;
  now = 70;
  reply = committed;
  commit_fails = commit_fails;
}

abbrev silent : Service
silent = record { table = []; hub = none }

nothing_stored : IsUnique []
nothing_stored booking_id type = omega arith

-- The first process stores the notification and cannot commit the offset; the second one handles the
-- message again.
abbrev first : Group
first = handled decode topic (begin silent) (delivery 80 (some 3)) false

abbrev second : Group
second = handled decode topic (resume first) (delivery 81 none) false

twice : Reached decode topic silent second
unfolding begin
twice =
    stepped (handles (delivery 81 none) false refl)
      (stepped restarts (stepped (handles (delivery 80 (some 3)) false refl) initially))

committed_announced_example : count_where (is_about 9 booking_created) second.service.table ≡ 1
unfolding begin twice create_from_event
committed_announced_example =
    committed_announced decode topic silent second twice 0 [] booked_event booking_created
      nothing_stored ((refl, refl), (tt, ((refl, refl), tt))) (omega arith) refl refl refl
      (omega arith)

-- A process that is signalled while a stream is open: its connections are cut, and it ends once the
-- consumer has.
abbrev ended : Life
ended = record {
  group = begin silent;
  server = NotificationLifecycle.cut;
  main = NotificationLifecycle.returned none;
  is_consuming = false;
  is_signalled = true;
  has_pool = false;
  has_reader = false;
  streams = 1;
}

ended-Reached : NotificationLifecycle.Reached decode topic (begin silent) ended
unfolding NotificationLifecycle.begin
ended-Reached = NotificationLifecycle.stepped (returns refl refl) (
    NotificationLifecycle.stepped (ends_consumer refl refl) (
      NotificationLifecycle.stepped (cuts_connections refl) (
        NotificationLifecycle.stepped (begins_shutdown refl refl) (
          NotificationLifecycle.stepped signals (
            NotificationLifecycle.stepped (opens_stream (λ x. cc))
              NotificationLifecycle.initially)))))

Reached-IsSettled_example : IsSettled ended
Reached-IsSettled_example = Reached-IsSettled decode topic (begin silent) ended-Reached

told_once : (id : ℕ) → Follows decode (λ booking_id type. booked_event) (delivery id none)
told_once id event type e known = ground (arith, e)

-- The event comes on two messages, consumed in either order.
announced-Perm_example :
    announced
      (processed decode silent (map message (delivery 80 none ∷ delivery 81 none ∷ []))).table
    ≡ announced
        (processed decode silent (map message (delivery 81 none ∷ delivery 80 none ∷ []))).table
announced-Perm_example =
    announced-Perm decode (λ booking_id type. booked_event) silent
      (delivery 80 none ∷ delivery 81 none ∷ []) (delivery 81 none ∷ delivery 80 none ∷ [])
      (Perm.swap _ _ _) (told_once 80, (told_once 81, tt)) (told_once 81, (told_once 80, tt))
      (refl, (refl, tt)) (refl, (refl, tt)) (refl, ((λ e. omega arith), tt), (refl, tt, tt))
      (refl, ((λ e. omega arith), tt), (refl, tt, tt))
