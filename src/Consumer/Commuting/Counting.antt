-- ===== src/Consumer/Commuting/Counting.antt =====
-- How often a row that passes a test stands in the table after some messages.
use mathlib.Core.List.{Perm}
use meeting_room_booking_sys.Prelude.{
  ℕ, ◌+◌, if◌then◌else◌, count_where, count_where-append, ◌≡◌, refl, sym, ap, ◌∙◌, subst, inl, inr,
  arith, Bool, true, false, ◌&&◌, ◌||◌, ◌==◌, ltb, List, [], ◌∷◌, map, Option, none, some, All, any,
  any-append, any_of_count_pos, any_of_count_zero, count_where_pos, count_where_zero,
  count_where-Perm, Bool-cases, ==_iff,
}
use meeting_room_booking_sys.Model.{BookingEvent}
use meeting_room_booking_sys.Database.{committed}
use meeting_room_booking_sys.Hub.{Notification, NotificationType}
use meeting_room_booking_sys.Notifications.{
  Service, is_about, insert_notification, create, type_of, notification_of,
}
use meeting_room_booking_sys.Notifications.Delivery.{same_type_eq}
use meeting_room_booking_sys.Consumer.{Delivery, message, process}
use meeting_room_booking_sys.Consumer.Supervision.{processed}
use meeting_room_booking_sys.Consumer.Storage.{Fresh, add_event, add_type, add-Fresh, process_table}

module _ {ℓ} {A : Type ℓ} where
  pub any-Perm : (p : A → Bool) {xs ys : List A} → Perm xs ys → any p xs ≡ any p ys
  any-Perm p {xs} {ys} h =
      let same = count_where-Perm p h in
      elim (Bool-cases (any p xs)) [
        | inl e ↦ e ∙ sym (any_of_count_pos p ys (omega (arith, same, count_where_pos p xs e)))
        | inr e ↦ e ∙ sym (any_of_count_zero p ys (omega (arith, same, count_where_zero p xs e)))
      ]

-- A row that another statement would conflict with is about the same booking and type.
about_same :
    (booking_id : ℕ) (type : NotificationType) (n : Notification) (table : List Notification)
    → is_about booking_id type n ≡ true
    → any (is_about n.booking_id n.type) table ≡ any (is_about booking_id type) table
about_same booking_id type n table h =
    let id : n.booking_id ≡ booking_id = (==_iff n.booking_id booking_id).0 (ground arith) in
    let kind : type ≡ n.type = same_type_eq type n.type (ground arith) in rw (id, sym kind) refl

known_create :
    (table : List Notification) (n : Notification) (booking_id : ℕ) (type : NotificationType)
    → any (λ m. m.id == n.id) table ≡ false
    → any (is_about booking_id type) (create table committed n).0
      ≡ any (is_about booking_id type) table
        || (ltb n.slot_start n.slot_end && is_about booking_id type n)
unfolding create insert_notification
known_create table n booking_id type fresh = elim (Bool-cases (is_about booking_id type n)) [
  | inl e ↦ ground (
    arith,
    e,
    fresh,
    about_same booking_id type n table e,
    any-append (is_about booking_id type) table (n ∷ []),
  )
  | inr e ↦ ground (arith, e, fresh, any-append (is_about booking_id type) table (n ∷ []))
]

-- Whether a message has a notification that passes a test: its event has a known type, and a slot that
-- the table takes.
abbrev pub gives_type :
    (Notification → Bool) → Delivery → BookingEvent → Option NotificationType → Bool
gives_type p d event none = false
gives_type p d event (some t) =
    ltb event.slot_start event.slot_end && p (notification_of t d.new_id d.now event)

abbrev pub gives : (Notification → Bool) → Delivery → Option BookingEvent → Bool
gives p d none = false
gives p d (some event) = gives_type p d event (type_of event.event_type)

known_add :
    (table : List Notification) (d : Delivery) (o : Option BookingEvent) (booking_id : ℕ)
    (type : NotificationType)
    → d.reply ≡ committed
    → any (λ m. m.id == d.new_id) table ≡ false
    → any (is_about booking_id type) (add_event table d o)
      ≡ any (is_about booking_id type) table || gives (is_about booking_id type) d o
known_add table d none booking_id type r fresh = ground arith
known_add table d (some event) booking_id type r fresh = by_type (type_of event.event_type)
  where
    by_type :
        (o : Option NotificationType)
        → any (is_about booking_id type) (add_type table d event o)
          ≡ any (is_about booking_id type) table || gives_type (is_about booking_id type) d event o
    by_type none = ground arith
    by_type (some t) =
        rw r (known_create table (notification_of t d.new_id d.now event) booking_id type fresh)

-- A row that passes a test which only rows about one booking and type pass is inserted just when the
-- table has none about them.
module _ (p : Notification → Bool) (booking_id : ℕ) (type : NotificationType)
    (about : (n : Notification) → p n ≡ true → is_about booking_id type n ≡ true) where
  count-create :
      (table : List Notification) (n : Notification)
      → any (λ m. m.id == n.id) table ≡ false
      → count_where p (create table committed n).0
        ≡ count_where p table
          + (if any (is_about booking_id type) table
              then 0
              else if ltb n.slot_start n.slot_end && p n
              then 1
              else 0)
  unfolding create insert_notification
  count-create table n fresh = elim (Bool-cases (p n)) [
    | inl e ↦ ground (
      arith,
      e,
      fresh,
      about_same booking_id type n table (about n e),
      count_where-append p table (n ∷ []),
    )
    | inr e ↦ ground (arith, e, fresh, count_where-append p table (n ∷ []))
  ]

  count-add_event :
      (table : List Notification) (d : Delivery) (o : Option BookingEvent)
      → d.reply ≡ committed
      → any (λ m. m.id == d.new_id) table ≡ false
      → count_where p (add_event table d o)
        ≡ count_where p table
          + (if any (is_about booking_id type) table then 0 else if gives p d o then 1 else 0)
  count-add_event table d none r fresh = ground arith
  count-add_event table d (some event) r fresh = by_type (type_of event.event_type)
    where
      by_type :
          (o : Option NotificationType)
          → count_where p (add_type table d event o)
            ≡ count_where p table
              + (if any (is_about booking_id type) table
                  then 0
                  else if gives_type p d event o
                  then 1
                  else 0)
      by_type none = ground arith
      by_type (some t) = rw r (count-create table (notification_of t d.new_id d.now event) fresh)

  module _ (decode : List ℕ → Option BookingEvent) (c : Bool) where
    -- The messages about the booking and type agree whether their notifications pass the test.
    abbrev pub Agree : List Delivery → Type 0
    Agree ds =
        All
          (λ d.
            gives p d (decode d.value) ≡ (c && gives (is_about booking_id type) d (decode d.value)))
          ds

    none_given :
        (ds : List Delivery)
        → Agree ds
        → c ≡ false
        → any (λ d. gives p d (decode d.value)) ds ≡ false
    none_given [] a h = refl
    none_given (d ∷ ds) a h = ground (arith, a.0, none_given ds a.1 h)

    combined :
        (k a g later : Bool) (n : ℕ)
        → g ≡ (c && a)
        → (c ≡ false → later ≡ false)
        → (n + (if k then 0 else if g then 1 else 0))
            + (if k || a then 0 else if later then 1 else 0)
          ≡ n + (if k then 0 else if g || later then 1 else 0)
    combined k a g later n e h = elim (Bool-cases c) [
      | inl kept ↦ ground (arith, e, kept)
      | inr lost ↦ ground (arith, e, lost, h lost)
    ]

    pub count-processed :
        (s : Service) (ds : List Delivery)
        → All (λ d. d.reply ≡ committed) ds
        → Agree ds
        → Fresh s.table ds
        → count_where p (processed decode s (map message ds)).table
          ≡ count_where p s.table
            + (if any (is_about booking_id type) s.table
                then 0
                else if any (λ d. gives p d (decode d.value)) ds
                then 1
                else 0)
    count-processed s [] r a f = ground arith
    count-processed s (d ∷ ds) r a f =
        let here = count-add_event s.table d (decode d.value) r.0 f.0 in
        let known = known_add s.table d (decode d.value) booking_id type r.0 f.0 in
        count-processed (process decode s d) ds r.1 a.1 (
          subst (λ t. Fresh t ds) (sym (process_table decode s d))
            (add-Fresh s.table d (decode d.value) ds r.0 f.1 f.2))
        ∙ ap
            (λ t.
              count_where p t
              + (if any (is_about booking_id type) t
                  then 0
                  else if any (λ e. gives p e (decode e.value)) ds
                  then 1
                  else 0))
            (process_table decode s d)
        ∙ rw (here, known)
            (combined (any (is_about booking_id type) s.table)
              (gives (is_about booking_id type) d (decode d.value)) (gives p d (decode d.value))
              (any (λ e. gives p e (decode e.value)) ds) (count_where p s.table) a.0
              (none_given ds a.1))
