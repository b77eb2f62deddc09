-- ===== src/Consumer/Storage.antt =====
-- Every event that reaches the consumer ends up in the table, if the database answers.
use meeting_room_booking_sys.Prelude.{
  ℕ, ◌≡◌, ◌≢◌, ◌⊎◌, ◌<◌, refl, sym, subst, inl, inr, arith, Bool, true, false, ◌==◌, lt→ltb, List,
  [], ◌∷◌, map, Option, none, some, All, any, any-append, Option-cases, ne→==,
}
use meeting_room_booking_sys.Model.{BookingEvent}
use meeting_room_booking_sys.Database.{committed}
use meeting_room_booking_sys.Hub.{Notification, NotificationType}
use meeting_room_booking_sys.Notifications.{
  Service, is_about, insert_notification, create, type_of, notification_of, create_from_event,
}
use meeting_room_booking_sys.Notifications.Delivery.{announced_table, same_type_refl}
use meeting_room_booking_sys.Consumer.{Delivery, message, process, run}

-- The database stores the notification and Kafka takes the commit.
pub record Stored (d : Delivery) : Type 0 where
  pub answered : d.reply ≡ committed
  pub taken : d.commit_fails ≡ none

-- `uuid.New` gives an identifier that no row and no other message has.
abbrev pub Fresh : List Notification → List Delivery → Type 0
Fresh table [] = Unit {0}
Fresh table (d ∷ ds) =
    (any (λ n. n.id == d.new_id) table ≡ false)
    × All (λ (e : Delivery). e.new_id ≢ d.new_id) ds
    × Fresh table ds

-- What one row of INSERT does to a table that lacks its identifier: it is there, or one about the
-- same booking and type was.
pub insert_known :
    (table : List Notification) (n : Notification)
    → n.slot_start < n.slot_end
    → any (λ m. m.id == n.id) table ≡ false
    → any (is_about n.booking_id n.type) (create table committed n).0 ≡ true
unfolding create insert_notification
insert_known table n lasts fresh = ground (
  arith,
  lt→ltb n.slot_start n.slot_end lasts,
  fresh,
  same_type_refl n.type,
  any-append (is_about n.booking_id n.type) table (n ∷ []),
)

-- No statement takes a row away, and the only new identifier is that of the row.
insert_keeps :
    (table : List Notification) (n : Notification) (p : Notification → Bool)
    → any p table ≡ true
    → any p (create table committed n).0 ≡ true
unfolding create insert_notification
insert_keeps table n p h = ground (arith, any-append p table (n ∷ []))

insert_fresh :
    (table : List Notification) (n : Notification) (id : ℕ)
    → n.id ≢ id
    → any (λ m. m.id == id) table ≡ false
    → any (λ m. m.id == id) (create table committed n).0 ≡ false
unfolding create insert_notification
insert_fresh table n id other h =
    ground (arith, ne→== n.id id other, any-append (λ m. m.id == id) table (n ∷ []))

-- What a message does to the table.
abbrev pub add_type :
    List Notification → Delivery → BookingEvent → Option NotificationType → List Notification
add_type table d event none = table
add_type table d event (some t) = (create table d.reply (notification_of t d.new_id d.now event)).0

abbrev pub add_event : List Notification → Delivery → Option BookingEvent → List Notification
add_event table d none = table
add_event table d (some event) = add_type table d event (type_of event.event_type)

pub add_keeps :
    (table : List Notification) (d : Delivery) (o : Option BookingEvent) (p : Notification → Bool)
    → d.reply ≡ committed
    → any p table ≡ true
    → any p (add_event table d o) ≡ true
add_keeps table d none p e h = h
add_keeps table d (some event) p e h = by_type (type_of event.event_type)
  where
    by_type : (o : Option NotificationType) → any p (add_type table d event o) ≡ true
    by_type none = h
    by_type (some t) = rw e (insert_keeps table (notification_of t d.new_id d.now event) p h)

add_fresh :
    (table : List Notification) (d : Delivery) (o : Option BookingEvent) (id : ℕ)
    → d.reply ≡ committed
    → id ≢ d.new_id
    → any (λ m. m.id == id) table ≡ false
    → any (λ m. m.id == id) (add_event table d o) ≡ false
add_fresh table d none id e other h = h
add_fresh table d (some event) id e other h = by_type (type_of event.event_type)
  where
    by_type :
        (o : Option NotificationType) → any (λ m. m.id == id) (add_type table d event o) ≡ false
    by_type none = h
    by_type (some t) =
        rw e (insert_fresh table (notification_of t d.new_id d.now event) id (λ q. other (sym q)) h)

pub add-Fresh :
    (table : List Notification) (d : Delivery) (o : Option BookingEvent) (ds : List Delivery)
    → d.reply ≡ committed
    → All (λ (e : Delivery). e.new_id ≢ d.new_id) ds
    → Fresh table ds
    → Fresh (add_event table d o) ds
add-Fresh table d o [] e others f = tt
add-Fresh table d o (c ∷ ds) e others f =
    (add_fresh table d o c.new_id e others.0 f.0, f.1, add-Fresh table d o ds e others.1 f.2)

module _ (decode : List ℕ → Option BookingEvent) where
  pub process_table :
      (s : Service) (d : Delivery)
      → (process decode s d).table ≡ add_event s.table d (decode d.value)
  unfolding create_from_event
  process_table s d = elim (Option-cases (decode d.value)) [
    | inl e ↦ rw (e, process) refl
    | inr (event, e) ↦ rw (e, process) (by_type event (type_of event.event_type) refl)
  ]
    where
      by_type :
          (event : BookingEvent) (o : Option NotificationType)
          → type_of event.event_type ≡ o
          → (create_from_event s d.new_id d.now d.reply event).0.table
            ≡ add_type s.table d event (type_of event.event_type)
      by_type event none e = rw (e, create_from_event) refl
      by_type event (some t) e =
          rw (e, create_from_event)
            (announced_table s (notification_of t d.new_id d.now event)
              (create s.table d.reply (notification_of t d.new_id d.now event)))

  -- A message of the list carries the event.
  abbrev pub Carries : BookingEvent → List Delivery → Type 0
  Carries event [] = false ≡ true
  Carries event (d ∷ ds) = (decode d.value ≡ some event) ⊎ Carries event ds

  run_cons :
      (s : Service) (d : Delivery) (ds : List Delivery)
      → d.commit_fails ≡ none
      → (run decode s (map message (d ∷ ds))).0
        ≡ (run decode (process decode s d) (map message ds)).0
  unfolding run
  run_cons s d ds e = ground (arith, e)

  run_keeps :
      (s : Service) (ds : List Delivery) (p : Notification → Bool)
      → All Stored ds
      → any p s.table ≡ true
      → any p (run decode s (map message ds)).0.table ≡ true
  unfolding run
  run_keeps s [] p st h = h
  run_keeps s (d ∷ ds) p st h = rw (run_cons s d ds st.0.taken) (
      run_keeps (process decode s d) ds p st.1
        (rw (process_table s d) (add_keeps s.table d (decode d.value) p st.0.answered h)))

  -- If the database and Kafka answer, an event of a known type that one of the messages carries, and
  -- whose slot starts before it ends, has its notification in the table afterwards.
  pub run_stores :
      (s : Service) (ds : List Delivery) (event : BookingEvent) (type : NotificationType)
      → All Stored ds
      → Fresh s.table ds
      → Carries event ds
      → type_of event.event_type ≡ some type
      → event.slot_start < event.slot_end
      → any (is_about event.booking_id type) (run decode s (map message ds)).0.table ≡ true
  run_stores s [] event type st f c k lasts = cc
  run_stores s (d ∷ ds) event type st f (inl here) k lasts =
      let known : any (is_about event.booking_id type) (process decode s d).table ≡ true =
        rw (process_table s d) (
          rw here (
            rw k (
              rw st.0.answered
                (insert_known s.table (notification_of type d.new_id d.now event) lasts f.0)))) in
      rw (run_cons s d ds st.0.taken) (run_keeps (process decode s d) ds _ st.1 known)
  run_stores s (d ∷ ds) event type st f (inr there) k lasts = rw (run_cons s d ds st.0.taken) (
      run_stores (process decode s d) ds event type st.1
        (subst (λ t. Fresh t ds) (sym (process_table s d))
          (add-Fresh s.table d (decode d.value) ds st.0.answered f.1 f.2))
        there k lasts)
