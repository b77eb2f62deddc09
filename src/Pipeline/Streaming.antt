-- ===== src/Pipeline/Streaming.antt =====
-- The way of an event from the consumer to the open streams of its user.
use meeting_room_booking_sys.Prelude.{
  ℕ, zero, suc, ◌+◌, ◌<◌, ◌≡◌, refl, ap, ◌∙◌, arith, true, false, ◌==◌, lt→ltb, List, [], ◌∷◌, ◌++◌,
  some, any, length, length-append,
}
use meeting_room_booking_sys.Model.{BookingEvent, ok}
use meeting_room_booking_sys.Database.{committed}
use meeting_room_booking_sys.Hub.{Hub, Notification, NotificationType, broadcast, queue_size}
use meeting_room_booking_sys.Hub.Channels.{count}
use meeting_room_booking_sys.Hub.Operations.{channels, queues-broadcast}
use meeting_room_booking_sys.Notifications.{
  is_about, type_of, notification_of, insert_notification, create, create_from_event,
}
use meeting_room_booking_sys.Streams.{Signal, notified, write_loop}
use meeting_room_booking_sys.Streams.Order.{shown}

-- The loop of a stream takes so many notifications from its channel and writes each of them.
abbrev pub takes : ℕ → List Signal
takes zero = []
takes (suc n) = notified true ∷ takes n

shown_all :
    (queue : List Notification) → shown (write_loop queue (takes (length queue))).frames ≡ queue
unfolding write_loop
shown_all [] = refl
shown_all (n ∷ queue) = ap (λ r. n ∷ r) (shown_all queue)

create_new :
    (table : List Notification) (n : Notification)
    → n.slot_start < n.slot_end
    → any (is_about n.booking_id n.type) table ≡ false
    → any (λ m. m.id == n.id) table ≡ false
    → create table committed n ≡ (table ++ n ∷ [], ok true)
unfolding create insert_notification
create_new table n lasts new fresh = ground (arith, lt→ltb n.slot_start n.slot_end lasts)

broadcast_event :
    (table : List Notification) (h : Hub) (id now : ℕ) (e : BookingEvent) (type : NotificationType)
    → type_of e.event_type ≡ some type
    → e.slot_start < e.slot_end
    → any (is_about e.booking_id type) table ≡ false
    → any (λ m. m.id == id) table ≡ false
    → (create_from_event (record { table = table; hub = some h }) id now committed e).0.hub
      ≡ some (broadcast h e.user_id (notification_of type id now e))
unfolding create_from_event
broadcast_event table h id now e type known lasts new fresh =
    rw (known, create_from_event)
      (rw (create_new table (notification_of type id now e) lasts new fresh) refl)

stored_event :
    (table : List Notification) (h : Hub) (id now : ℕ) (e : BookingEvent) (type : NotificationType)
    → type_of e.event_type ≡ some type
    → e.slot_start < e.slot_end
    → any (is_about e.booking_id type) table ≡ false
    → any (λ m. m.id == id) table ≡ false
    → (create_from_event (record { table = table; hub = some h }) id now committed e).0.table
      ≡ table ++ notification_of type id now e ∷ []
unfolding create_from_event
stored_event table h id now e type known lasts new fresh =
    rw (known, create_from_event)
      (rw (create_new table (notification_of type id now e) lasts new fresh) refl)

-- An event of a known type that the table does not know yet, and whose slot starts before it ends, is
-- stored and reaches the open streams, if the database carries the statement out, under a new
-- identifier: the table has the notification of the event behind its rows and is otherwise unchanged;
-- each stream of the event's user whose channel has room shows, as soon as it has written what its
-- channel holds, what waited there and then that notification; and no channel outside the user's
-- changes.
pub create_from_event-shown :
    (table : List Notification) (h : Hub) (id now : ℕ) (e : BookingEvent) (type : NotificationType)
    (ch : ℕ)
    → type_of e.event_type ≡ some type
    → e.slot_start < e.slot_end
    → any (is_about e.booking_id type) table ≡ false
    → any (λ m. m.id == id) table ≡ false
    → count ch (channels h e.user_id) ≡ 1
    → length (h.queues ch) < queue_size
    → (after : Hub) × (((create_from_event
            (record { table = table; hub = some h })
            id
            now
            committed
            e).0.table
          ≡ table ++ notification_of type id now e ∷ [])
        × ((create_from_event (record { table = table; hub = some h }) id now committed e).0.hub
            ≡ some after))
      × (shown (write_loop (after.queues ch) (takes (length (h.queues ch) + 1))).frames
          ≡ h.queues ch ++ notification_of type id now e ∷ [])
      × ((c : ℕ) → count c (channels h e.user_id) ≡ 0 → after.queues c ≡ h.queues c)
create_from_event-shown table h id now e type ch known lasts new fresh there room =
    let n = notification_of type id now e in
    let queue : (broadcast h e.user_id n).queues ch ≡ h.queues ch ++ n ∷ [] =
      queues-broadcast h e.user_id n ch (omega (arith, there))
      ∙ rw there (rw (lt→ltb (length (h.queues ch)) queue_size room) refl) in
    let size : length (h.queues ch) + 1 ≡ length (h.queues ch ++ n ∷ []) =
      omega (arith, length-append (h.queues ch) (n ∷ [])) in
    (
      broadcast h e.user_id n,
      (
        stored_event table h id now e type known lasts new fresh,
        broadcast_event table h id now e type known lasts new fresh,
      ),
      rw queue (rw size (shown_all (h.queues ch ++ n ∷ []))),
      λ c absent. queues-broadcast h e.user_id n c (omega (arith, absent)) ∙ rw absent refl,
    )
