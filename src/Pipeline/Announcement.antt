-- ===== src/Pipeline/Announcement.antt =====
-- A booking that was made is announced to its user exactly once.
use meeting_room_booking_sys.Prelude.{
  refl, find_first, some, ℕ, ◌≡◌, ◌<◌, ◌≤◌, ◌*◌, sym, ap, ◌∙◌, subst, inl, inr, arith, Bool, true,
  ◌&&◌, ◌==◌, lt→ltb, List, [], ◌∷◌, ◌++◌, map, Option, All, any, any-append, count_where, length,
  find_first_All, ==_refl,
}
use meeting_room_booking_sys.Model.{
  Slot, Room, Booking, BookingEvent, event_booking_created, ok, EventType, event_booking_cancelled,
}
use meeting_room_booking_sys.Database.{Db, OutboxRow, committed, refused, lost, CommitReply, commit}
use meeting_room_booking_sys.Database.Sorting.{Order}
use meeting_room_booking_sys.Hub.{booking_created, NotificationType, booking_cancelled}
use meeting_room_booking_sys.Bookings.{
  Call, create_booking, new_booking, outbox_row, can_cancel, cancel, cancel_booking,
}
use meeting_room_booking_sys.Bookings.Events.{IsLinked}
use meeting_room_booking_sys.Bookings.Creation.{create_booking_lem, created}
use meeting_room_booking_sys.Relay.{Message, Poll, is_pending, drain, fetch_batch_size}
use meeting_room_booking_sys.Relay.Counting.{IsKeyed}
use meeting_room_booking_sys.Relay.Drain.{Succeeds}
use meeting_room_booking_sys.Notifications.{Service, is_about, type_of}
use meeting_room_booking_sys.Notifications.Delivery.{IsUnique}
use meeting_room_booking_sys.Consumer.{Delivery, message, run}
use meeting_room_booking_sys.Consumer.Storage.{Stored, Fresh}
use meeting_room_booking_sys.Bookings.Validity.{IsValid}
use meeting_room_booking_sys.Bookings.Cancellation.{cancel_booking_lem, cancelled_db}
use meeting_room_booking_sys.Pipeline.{is_of_type, Reads, announces, drain-announces}

-- The CHECK of the table `slots`.
abbrev pub Lasts : Slot → Type 0
Lasts s = s.start_at < s.end_at

-- A row that was just written reports its booking, and is pending.
row-announces :
    (rows : List OutboxRow) (type : EventType) (kind : NotificationType) (c : Call) (b : Booking)
    (row : OutboxRow) (s : Slot) (m : Room)
    → row ≡ outbox_row type c b (s, m)
    → is_of_type kind (type_of type) ≡ true
    → s.start_at < s.end_at
    → any (λ o. is_pending o && announces b.id kind o.payload) (rows ++ row ∷ []) ≡ true
row-announces rows type kind c b row s m made known long =
    let p : OutboxRow → Bool = λ o. is_pending o && announces b.id kind o.payload in
    let here : p row ≡ true =
      subst (λ o. p o ≡ true) (sym made)
        (ground (arith, known, ==_refl b.id, lt→ltb s.start_at s.end_at long)) in
    ground (arith, here, any-append p rows (row ∷ []))

commit-announces :
    (db t db' : Db) (x b : Booking) (kind : NotificationType) (reply : CommitReply)
    → commit db t x reply ≡ (db', ok b)
    → any (λ o. is_pending o && announces x.id kind o.payload) t.outbox ≡ true
    → any (λ o. is_pending o && announces b.id kind o.payload) db'.outbox ≡ true
commit-announces db t db' x b kind committed e h =
    let same : ok x ≡ ok b = ap (λ r. r.1) e in
    let id : x.id ≡ b.id = ground (arith, same) in
    subst (λ d. any (λ o. is_pending o && announces b.id kind o.payload) d.outbox ≡ true)
      (ap (λ r. r.0) e)
      (subst (λ i. any (λ o. is_pending o && announces i kind o.payload) t.outbox ≡ true) id h)
commit-announces db t db' x b kind (refused y) e h = cc (ap (λ r. r.1) e)
commit-announces db t db' x b kind (lost y) e h = cc (ap (λ r. r.1) e)

created-announces :
    (db db' : Db) (c : Call) (slot_id user_id : ℕ) (b : Booking)
    → IsLinked db
    → All Lasts db.slots
    → create_booking db c slot_id user_id ≡ (db', ok b)
    → any (λ o. is_pending o && announces b.id booking_created o.payload) db'.outbox ≡ true
created-announces db db' c slot_id user_id b v lasts e =
    elim (create_booking_lem db c slot_id user_id v) [
      | inl (x, r, p) ↦ cc (ap (λ q. q.1) (sym p ∙ e))
      | inr (row, (s, m, found, joined, made), r, p) ↦
          let long = find_first_All Lasts (λ t. t.id == slot_id) db.slots s lasts found in
          let new = new_booking c slot_id user_id in
          commit-announces db (created db c slot_id user_id row) db' new b booking_created
            c.commit_reply (sym p ∙ e)
            (row-announces db.outbox event_booking_created booking_created c new row s m made refl
              long)
    ]

cancelled-announces :
    (db db' : Db) (c : Call) (id user_id : ℕ) (old b : Booking)
    → IsValid db
    → All Lasts db.slots
    → find_first (can_cancel id user_id) db.bookings ≡ some old
    → cancel_booking db c (λ d. d) id user_id ≡ (db', ok b)
    → any (λ o. is_pending o && announces b.id booking_cancelled o.payload) db'.outbox ≡ true
cancelled-announces db db' c id user_id old b v lasts f e =
    elim (cancel_booking_lem db c (λ d. d) id user_id v) [
      | inl (x, p) ↦ cc (ap (λ q. q.1) (sym p ∙ e))
      | inr (inl (g, p)) ↦ cc (f, g)
      | inr (inr (x, row, g, (s, m, found, joined, made), p)) ↦
          let long = find_first_All Lasts (λ t. t.id == x.slot_id) db.slots s lasts found in
          commit-announces db (cancelled_db db id user_id row) db' (cancel x) b booking_cancelled
            c.commit_reply (sym p ∙ e)
            (row-announces db.outbox event_booking_cancelled booking_cancelled c (cancel x) row s m
              made refl long)
    ]

-- From the booking to the notification: if `CreateBooking` succeeds on tables whose keys and
-- references hold, then after a drain with enough polls in which nothing fails, and after the
-- consumer read the topic, with a database and a Kafka that answer, there is exactly one notification
-- that the booking was created.
pub create_booking_announced :
    (decode : List ℕ → Option BookingEvent) (order : Order) (db db' : Db) (c : Call)
    (slot_id user_id : ℕ) (b : Booking) (polls : List Poll) (topic : List Message) (s : Service)
    (ds : List Delivery)
    → IsLinked db
    → All Lasts db.slots
    → create_booking db c slot_id user_id ≡ (db', ok b)
    → IsKeyed db'.outbox
    → All Succeeds polls
    → count_where is_pending db'.outbox ≤ fetch_batch_size * length polls
    → Reads decode (drain order (record { outbox = db'.outbox; topic = topic }) polls).topic ds
    → All Stored ds
    → Fresh s.table ds
    → IsUnique s.table
    → count_where (is_about b.id booking_created) (run decode s (map message ds)).0.table ≡ 1
create_booking_announced decode order db db' c slot_id user_id b polls topic s ds v lasts e k runs
      few r st f u =
    drain-announces decode order polls (record { outbox = db'.outbox; topic = topic }) s ds b.id
      booking_created runs k few r st f u (created-announces db db' c slot_id user_id b v lasts e)

-- From the cancellation to the notification: if `CancelBooking` succeeds on valid tables for an active
-- booking of the user, then after a drain with enough polls in which nothing fails, and after the
-- consumer read the topic, with a database and a Kafka that answer, there is exactly one notification
-- that the booking was cancelled.
pub cancel_booking_announced :
    (decode : List ℕ → Option BookingEvent) (order : Order) (db db' : Db) (c : Call)
    (id user_id : ℕ) (old b : Booking) (polls : List Poll) (topic : List Message) (s : Service)
    (ds : List Delivery)
    → IsValid db
    → All Lasts db.slots
    → find_first (can_cancel id user_id) db.bookings ≡ some old
    → cancel_booking db c (λ d. d) id user_id ≡ (db', ok b)
    → IsKeyed db'.outbox
    → All Succeeds polls
    → count_where is_pending db'.outbox ≤ fetch_batch_size * length polls
    → Reads decode (drain order (record { outbox = db'.outbox; topic = topic }) polls).topic ds
    → All Stored ds
    → Fresh s.table ds
    → IsUnique s.table
    → count_where (is_about b.id booking_cancelled) (run decode s (map message ds)).0.table ≡ 1
cancel_booking_announced decode order db db' c id user_id old b polls topic s ds v lasts f e k runs
      few r st fresh u =
    drain-announces decode order polls (record { outbox = db'.outbox; topic = topic }) s ds b.id
      booking_cancelled runs k few r st fresh u
      (cancelled-announces db db' c id user_id old b v lasts f e)
