-- ===== src/Notifications.antt =====
-- notification-service/internal/repo/notification/notification.go with the constraints of
-- notification-service/migrations, and notification-service/internal/service/notification.
-- The table is the list of its rows. Every statement is its own transaction: `CommitReply` says
-- whether it was done, refused, or done with the answer lost. The limit and the offset are natural
-- numbers, as the handlers pass them (NotificationHttp.antt).
pub mod Delivery
pub mod Reading
use meeting_room_booking_sys.Prelude.{
  ℕ, Bool, true, false, not, ◌&&◌, ◌||◌, ◌==◌, ltb, if◌then◌else◌, List, [], ◌∷◌, ◌++◌, map, Option,
  none, some, select, take, drop, any, update_where, length,
}
use meeting_room_booking_sys.Model.{
  BookingEvent, EventType, event_booking_created, event_booking_cancelled, event_unknown, Error,
  notification_not_found, other, Result, ok, err, ◌>>=◌, ◌>>◌, attempt,
}
use meeting_room_booking_sys.Database.{CommitReply, transaction}
use meeting_room_booking_sys.Database.Sorting.{Order}
use meeting_room_booking_sys.Hub.{
  Hub, Notification, NotificationType, booking_created, booking_cancelled, broadcast,
}
use meeting_room_booking_sys.Bookings.{total_of}

abbrev pub same_type : NotificationType → NotificationType → Bool
same_type booking_created booking_created = true
same_type booking_created booking_cancelled = false
same_type booking_cancelled booking_created = false
same_type booking_cancelled booking_cancelled = true

-- The unique index `idx_notifications_booking_type`.
abbrev pub is_about : ℕ → NotificationType → Notification → Bool
is_about booking_id type n = n.booking_id == booking_id && same_type type n.type

-- The numbers of the database's errors.
abbrev pub check_violation : ℕ
check_violation = 1

abbrev pub id_taken : ℕ
id_taken = 2

-- INSERT ... ON CONFLICT (booking_id, type) DO NOTHING: the CHECK constraint comes first, and the
-- primary key is looked at only if the row is new. The result says whether a row was inserted.
unfoldable pub insert_notification :
    List Notification → Notification → Result (List Notification × Bool)
insert_notification table n =
    if not (ltb n.slot_start n.slot_end)
    then err (other check_violation)
    else if any (is_about n.booking_id n.type) table
    then ok (table, false)
    else if any (λ m. m.id == n.id) table
    then err (other id_taken)
    else ok (table ++ n ∷ [], true)

unfoldable pub create :
    List Notification → CommitReply → Notification → List Notification × Result Bool
unfolding insert_notification
create table reply n = transaction table (insert_notification table n) reply

abbrev pub is_listed : ℕ → Bool → Notification → Bool
is_listed user_id unread_only n = n.user_id == user_id && (not unread_only || not n.is_read)

unfoldable pub list_by_user_id :
    Order → List Notification → Option ℕ → ℕ → ℕ → ℕ → Bool → Result (List Notification × ℕ)
list_by_user_id order table fails user_id limit offset unread_only = do
  attempt fails
  let found = select (is_listed user_id unread_only) table
  let rows = take limit (drop offset (order.desc Notification (λ n. n.created_at) found))
  ok (rows, total_of rows (length found))

abbrev pub read : Notification → Notification
read n = record n { is_read = true }

abbrev pub is_owned : ℕ → ℕ → Notification → Bool
is_owned id user_id n = n.id == id && n.user_id == user_id

unfoldable pub update_read : List Notification → ℕ → ℕ → Result (List Notification × Unit {0})
update_read table id user_id =
    if any (is_owned id user_id) table
    then ok (update_where (is_owned id user_id) read table, tt)
    else err notification_not_found

unfoldable pub mark_as_read :
    List Notification → Option ℕ → CommitReply → ℕ → ℕ → List Notification × Result (Unit {0})
unfolding update_read
mark_as_read table fails reply id user_id =
    transaction table (attempt fails >> update_read table id user_id) reply

unfoldable pub mark_all_as_read :
    List Notification → CommitReply → ℕ → List Notification × Result (Unit {0})
mark_all_as_read table reply user_id =
    transaction table
      (ok (update_where (λ n. n.user_id == user_id && not n.is_read) read table, tt)) reply

-- The service: its table, and the hub that it may have been given.
pub record Service : Type 0 where
  pub table : List Notification
  pub hub : Option Hub

abbrev pub type_of : EventType → Option NotificationType
type_of event_booking_created = some booking_created
type_of event_booking_cancelled = some booking_cancelled
type_of (event_unknown text) = none

abbrev pub notification_of : NotificationType → ℕ → ℕ → BookingEvent → Notification
notification_of type id now event = record {
  id = id;
  user_id = event.user_id;
  type = type;
  booking_id = event.booking_id;
  room_name = event.room_name;
  slot_start = event.slot_start;
  slot_end = event.slot_end;
  is_read = false;
  created_at = now;
}

abbrev pub notify : Notification → Option Hub → Option Hub
notify n none = none
notify n (some h) = some (broadcast h n.user_id n)

abbrev pub announce :
    Service → Notification → List Notification × Result Bool → Service × Result (Unit {0})
announce s n (table, err e) = (record s { table = table }, err e)
announce s n (table, ok inserted) =
    (record { table = table; hub = if inserted then notify n s.hub else s.hub }, ok tt)

-- `id` and `now` are what `uuid.New` and `time.Now` return.
unfoldable pub create_from_event :
    Service → ℕ → ℕ → CommitReply → BookingEvent → Service × Result (Unit {0})
unfolding create
create_from_event s id now reply event = elim (type_of event.event_type) [
  | none ↦ (s, ok tt)
  | some type ↦
      announce s (notification_of type id now event)
        (create s.table reply (notification_of type id now event))
]
