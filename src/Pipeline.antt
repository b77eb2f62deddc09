-- ===== src/Pipeline.antt =====
-- The way of an event from the outbox to the notifications: the relay of the booking service, the
-- topic, and the consumer of the notification service. `decode` stands for `json.Unmarshal` in
-- notification-service/internal/kafka/consumer.go.
pub mod Announcement
pub mod Streaming
use meeting_room_booking_sys.Prelude.{
  ℕ, ◌≡◌, ◌⊎◌, ◌<◌, refl, sym, ap, ◌∙◌, inl, inr, arith, Bool, true, false, not, ◌&&◌, ◌==◌, ltb,
  List, [], ◌∷◌, map, Option, none, some, All, any, count_where, count_where_pos, count_where_zero,
  Bool-cases, if◌then◌else◌, ◌≤◌, ◌*◌, length, ==_iff, ltb→lt, any_of_count_pos, subst, lt→ltb,
  ==_refl,
}
use meeting_room_booking_sys.Model.{BookingEvent, EventType}
use meeting_room_booking_sys.Database.{OutboxRow}
use meeting_room_booking_sys.Database.Sorting.{Order}
use meeting_room_booking_sys.Hub.{NotificationType, booking_created, booking_cancelled}
use meeting_room_booking_sys.Relay.{
  Message, Store, Poll, is_pending, message_of, drain, fetch_batch_size,
}
use meeting_room_booking_sys.Relay.Counting.{IsKeyed}
use meeting_room_booking_sys.Relay.Drain.{Succeeds, drain_lem}
use meeting_room_booking_sys.Notifications.{Service, type_of, is_about, same_type}
use meeting_room_booking_sys.Notifications.Delivery.{IsUnique, same_type_refl, same_type_eq}
use meeting_room_booking_sys.Consumer.{Delivery, message, run}
use meeting_room_booking_sys.Consumer.Progress.{run-IsUnique}
use meeting_room_booking_sys.Consumer.Storage.{Stored, Fresh, Carries, run_stores}

-- The event reports the booking under a type that the notification service knows.
abbrev pub is_of_type : NotificationType → Option NotificationType → Bool
is_of_type type none = false
is_of_type type (some t) = same_type type t

-- ... and its slot ends after it starts, as the CHECK of the table `slots` wants.
abbrev pub announces : ℕ → NotificationType → BookingEvent → Bool
announces booking_id type event =
    (event.booking_id == booking_id && is_of_type type (type_of event.event_type))
    && ltb event.slot_start event.slot_end

-- The reader returns the messages of the topic, in order, and the text of each is decoded to the
-- event that the outbox stored.
abbrev pub Reads : (List ℕ → Option BookingEvent) → List Message → List Delivery → Type 0
Reads decode [] [] = Unit {0}
Reads decode (m ∷ msgs) (d ∷ ds) = (decode d.value ≡ some m.value) × Reads decode msgs ds
Reads decode [] (d ∷ ds) = false ≡ true
Reads decode (m ∷ msgs) [] = false ≡ true

module _ (decode : List ℕ → Option BookingEvent) where
  Reads-Carries :
      (p : BookingEvent → Bool) (msgs : List Message) (ds : List Delivery)
      → Reads decode msgs ds
      → any (λ (m : Message). p m.value) msgs ≡ true
      → (event : BookingEvent) × (p event ≡ true) × Carries decode event ds
  Reads-Carries p [] [] r h = cc
  Reads-Carries p [] (d ∷ ds) r h = cc
  Reads-Carries p (m ∷ msgs) [] r h = cc
  Reads-Carries p (m ∷ msgs) (d ∷ ds) r h = elim (Bool-cases (p m.value)) [
    | inl e ↦ (m.value, e, inl r.0)
    | inr e ↦
        let (event, q, c) = Reads-Carries p msgs ds r.1 (ground (arith, e)) in (event, q, inr c)
  ]

  of_type :
      (type : NotificationType) (o : Option NotificationType)
      → is_of_type type o ≡ true
      → o ≡ some type
  of_type type none h = cc
  of_type type (some t) h = ap some (sym (same_type_eq type t h))

  -- A consumer that reads a topic with an announcement of the booking has, afterwards, exactly one
  -- notification of the type for it, if the database and Kafka answer.
  pub run-announces :
      (s : Service) (msgs : List Message) (ds : List Delivery) (booking_id : ℕ)
      (type : NotificationType)
      → Reads decode msgs ds
      → All Stored ds
      → Fresh s.table ds
      → IsUnique s.table
      → any (λ (m : Message). announces booking_id type m.value) msgs ≡ true
      → count_where (is_about booking_id type) (run decode s (map message ds)).0.table ≡ 1
  run-announces s msgs ds booking_id type r st f u h =
      let (event, a, c) = Reads-Carries (announces booking_id type) msgs ds r h in
      let parts : ((event.booking_id == booking_id) ≡ true)
          × (is_of_type type (type_of event.event_type) ≡ true)
          × (ltb event.slot_start event.slot_end ≡ true) =
        ground arith in
      let known = of_type type (type_of event.event_type) parts.1 in
      let lasts = ltb→lt event.slot_start event.slot_end parts.2 in
      let stored = run_stores decode s ds event type st f c known lasts in
      let same = (==_iff event.booking_id booking_id).0 parts.0 in
      let table = (run decode s (map message ds)).0.table in
      let there : any (is_about booking_id type) table ≡ true =
        subst (λ b. any (is_about b type) table ≡ true) same stored in
      omega (
        arith,
        count_where_pos (is_about booking_id type) table there,
        run-IsUnique decode s (map message ds) u booking_id type,
      )

  -- From the outbox to the notifications: if a pending row announces an event of the booking, then
  -- after a drain with enough polls in which nothing fails, and after the consumer read the topic,
  -- with a database and a Kafka that answer, there is exactly one notification of that type for it.
  pub drain-announces :
      (order : Order) (polls : List Poll) (store : Store) (s : Service) (ds : List Delivery)
      (booking_id : ℕ) (type : NotificationType)
      → All Succeeds polls
      → IsKeyed store.outbox
      → count_where is_pending store.outbox ≤ fetch_batch_size * length polls
      → Reads decode (drain order store polls).topic ds
      → All Stored ds
      → Fresh s.table ds
      → IsUnique s.table
      → any (λ o. is_pending o && announces booking_id type o.payload) store.outbox ≡ true
      → count_where (is_about booking_id type) (run decode s (map message ds)).0.table ≡ 1
  drain-announces order polls store s ds booking_id type runs k few r st f u h =
      let p : Message → Bool = λ m. announces booking_id type m.value in
      let total = (drain_lem order polls store runs k few).1 p in
      let some_row = count_where_pos (λ o. is_pending o && p (message_of o)) store.outbox h in
      let sent : any p (drain order store polls).topic ≡ true =
        any_of_count_pos p (drain order store polls).topic (omega (arith, total, some_row)) in
      run-announces s (drain order store polls).topic ds booking_id type r st f u sent
