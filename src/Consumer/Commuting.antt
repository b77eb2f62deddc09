-- ===== src/Consumer/Commuting.antt =====
-- The order in which messages are consumed does not show in what is announced: a quotient of the
-- table.
pub mod Counting
use mathlib.Core.List.{Perm}
use mathlib.Core.Quot
use mathlib.Core.Quot.{Quot}
use text.Mathlib.Text.{◌==◌ as ◌==ˢ◌}
use meeting_room_booking_sys.Prelude.{
  All-imp, ℕ, ◌+◌, if◌then◌else◌, count_where, count_where-append, ◌≡◌, refl, sym, ap, ◌∙◌, subst,
  inl, inr, arith, Bool, true, false, ◌&&◌, ◌||◌, not, ◌==◌, ltb, List, [], ◌∷◌, map, Option, none,
  some, All, any, any-append, any_of_count_pos, any_of_count_zero, count_where_pos,
  count_where_zero, count_where-Perm, Bool-cases, ==_iff,
}
use meeting_room_booking_sys.Model.{BookingEvent}
use meeting_room_booking_sys.Database.{committed}
use meeting_room_booking_sys.Hub.{Notification, NotificationType}
use meeting_room_booking_sys.Notifications.{
  Service, is_about, insert_notification, create, type_of, notification_of,
}
use meeting_room_booking_sys.Notifications.Delivery.{same_type_eq}
use meeting_room_booking_sys.Consumer.{Delivery, message, process}
use meeting_room_booking_sys.Consumer.Supervision.{processed}
use meeting_room_booking_sys.Consumer.Storage.{Fresh, add_event, add_type, add-Fresh, process_table}
use meeting_room_booking_sys.Consumer.Commuting.Counting.{
  any-Perm, gives_type, gives, count-processed,
}

abbrev same_flag : Bool → Bool → Bool
same_flag true b = b
same_flag false b = not b

-- What a notification tells its user: all but its identifier and its time.
abbrev pub tells_same : Notification → Notification → Bool
tells_same m n =
    is_about m.booking_id m.type n
    && n.user_id == m.user_id
    && n.room_name ==ˢ m.room_name
    && n.slot_start == m.slot_start
    && n.slot_end == m.slot_end
    && same_flag n.is_read m.is_read

-- Two tables tell the same, equally often.
abbrev pub TellsSame : List Notification → List Notification → Type 0
TellsSame table other =
    (m : Notification) → count_where (tells_same m) table ≡ count_where (tells_same m) other

-- What has been announced, whatever the order of the rows, their identifiers and their times.
abbrev pub Announced : Type 0
Announced = Quot TellsSame

pub announced : List Notification → Announced
announced table = Quot.mk table

-- Two events tell the same user of the same room and the same times.
abbrev pub SameContent : BookingEvent → BookingEvent → Type 0
SameContent e f =
    (e.user_id ≡ f.user_id)
    × (e.room_name ≡ f.room_name)
    × (e.slot_start ≡ f.slot_start)
    × (e.slot_end ≡ f.slot_end)

module _ (decode : List ℕ → Option BookingEvent) where
  -- The event of a message, if it has a type that is told, tells its user, its room and its times as
  -- the events of its booking and type do.
  abbrev pub Follows : (ℕ → NotificationType → BookingEvent) → Delivery → Type 0
  Follows told d =
      (event : BookingEvent) (type : NotificationType)
      → decode d.value ≡ some event
      → type_of event.event_type ≡ some type
      → SameContent event (told event.booking_id type)

  -- Whether an event tells what a notification does.
  abbrev matches : Notification → BookingEvent → Bool
  matches m event =
      event.user_id == m.user_id
      && event.room_name ==ˢ m.room_name
      && event.slot_start == m.slot_start
      && event.slot_end == m.slot_end
      && same_flag false m.is_read

  gives_event :
      (told : ℕ → NotificationType → BookingEvent) (m : Notification) (d : Delivery)
      (event : BookingEvent) (o : Option NotificationType)
      → ((type : NotificationType) → o ≡ some type → SameContent event (told event.booking_id type))
      → gives_type (tells_same m) d event o ≡ (
          matches m (told m.booking_id m.type)
          && gives_type (is_about m.booking_id m.type) d event o)
  gives_event told m d event none h = ground arith
  gives_event told m d event (some t) h =
      elim (Bool-cases (is_about m.booking_id m.type (notification_of t d.new_id d.now event))) [
        | inl e ↦
            let id : event.booking_id ≡ m.booking_id =
              (==_iff event.booking_id m.booking_id).0 (ground arith) in
            let kind : m.type ≡ t = same_type_eq m.type t (ground arith) in
            let same : SameContent event (told m.booking_id m.type) =
              subst (λ b. SameContent event (told b m.type)) id
                (subst (λ k. SameContent event (told event.booking_id k)) (sym kind) (h t refl)) in
            ground (arith, e, same.0, same.1, same.2, same.3)
        | inr e ↦ ground (arith, e)
      ]

  Follows-agrees :
      (told : ℕ → NotificationType → BookingEvent) (m : Notification) (d : Delivery)
      → Follows told d
      → gives (tells_same m) d (decode d.value) ≡ (
          matches m (told m.booking_id m.type)
          && gives (is_about m.booking_id m.type) d (decode d.value))
  Follows-agrees told m d f = by_event (decode d.value) (λ event type e. f event type e)
    where
      by_event :
          (o : Option BookingEvent)
          → ((event : BookingEvent) (type : NotificationType)
              → o ≡ some event
              → type_of event.event_type ≡ some type
              → SameContent event (told event.booking_id type))
          → gives (tells_same m) d o
            ≡ (matches m (told m.booking_id m.type) && gives (is_about m.booking_id m.type) d o)
      by_event none h = ground arith
      by_event (some event) h =
          gives_event told m d event (type_of event.event_type) (λ type e. h event type refl e)

  -- In whatever order the same messages are consumed, the same is announced, to the same users and
  -- equally often: if all messages about one booking and type tell the same user, room and times (an
  -- event that is delivered again does), and the database stores what each message gives it, under
  -- identifiers that are new in both orders, then the tables are one element of the quotient that
  -- forgets the order of the rows, their identifiers and their times of creation, and nothing else.
  pub announced-Perm :
      (told : ℕ → NotificationType → BookingEvent) (s : Service) (ds es : List Delivery)
      → Perm ds es
      → All (Follows told) ds
      → All (Follows told) es
      → All (λ d. d.reply ≡ committed) ds
      → All (λ d. d.reply ≡ committed) es
      → Fresh s.table ds
      → Fresh s.table es
      → announced (processed decode s (map message ds)).table
        ≡ announced (processed decode s (map message es)).table
  unfolding announced
  announced-Perm told s ds es same u v r q f g = Quot.sound (λ m.
      let counted =
        count-processed (tells_same m) m.booking_id m.type (λ n e. ground arith) decode
          (matches m (told m.booking_id m.type)) in
      counted s ds r (All-imp ds (λ d w. Follows-agrees told m d w) u) f
      ∙ ap
          (λ b.
            count_where (tells_same m) s.table
            + (if any (is_about m.booking_id m.type) s.table then 0 else if b then 1 else 0))
          (any-Perm (λ d. gives (tells_same m) d (decode d.value)) same)
      ∙ sym (counted s es q (All-imp es (λ d w. Follows-agrees told m d w) v) g))
