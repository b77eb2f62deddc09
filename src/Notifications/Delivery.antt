-- ===== src/Notifications/Delivery.antt =====
-- An event is announced at most once, whatever the number of its deliveries.
use meeting_room_booking_sys.Prelude.{
  ℕ, ◌≤◌, ◌≡◌, refl, sym, ap, subst, Bool, true, false, List, [], ◌∷◌, ◌++◌, any, any-append,
  count_where, count_where-append, count_where_zero, arith, Bool-cases, Option-cases, inl, inr, ◌⊎◌,
}
use meeting_room_booking_sys.Model.{BookingEvent, Result, ok, err}
use meeting_room_booking_sys.Database.{CommitReply, committed, refused, lost, transaction}
use meeting_room_booking_sys.Hub.{
  Notification, NotificationType, booking_created, booking_cancelled,
}
use meeting_room_booking_sys.Notifications.{
  Service, same_type, is_about, insert_notification, create, type_of, notification_of, announce,
  create_from_event,
}

pub same_type_refl : (t : NotificationType) → same_type t t ≡ true
same_type_refl booking_created = refl
same_type_refl booking_cancelled = refl

-- A row about the event's booking and type is there.
abbrev pub IsKnown : List Notification → NotificationType → BookingEvent → Type 0
IsKnown table type event = any (is_about event.booking_id type) table ≡ true

create_known :
    (table : List Notification) (reply : CommitReply) (n : Notification)
    → (b : Bool) → (create table reply n).1 ≡ ok b
    → any (is_about n.booking_id n.type) (create table reply n).0 ≡ true
unfolding create insert_notification
create_known table committed n b h =
    ground (arith, any-append (is_about n.booking_id n.type) table (n ∷ []), same_type_refl n.type)
create_known table (refused e) n b h = ground arith
create_known table (lost e) n b h = ground arith

-- A row that is there makes the statement insert nothing, however it ends.
create_again :
    (table : List Notification) (reply : CommitReply) (n : Notification)
    → any (is_about n.booking_id n.type) table ≡ true
    → ((create table reply n).0 ≡ table)
      × ((b : Bool) → (create table reply n).1 ≡ ok b → b ≡ false)
unfolding create insert_notification
create_again table committed n h = (ground arith, λ b e. ground arith)
create_again table (refused x) n h = (ground arith, λ b e. ground arith)
create_again table (lost x) n h = (ground arith, λ b e. ground arith)

announce_nothing :
    (s : Service) (n : Notification) (table : List Notification) (r : Result Bool)
    → table ≡ s.table
    → ((b : Bool) → r ≡ ok b → b ≡ false)
    → (announce s n (table, r)).0 ≡ s
announce_nothing s n table (err e) t h = ap (λ x. record s { table = x }) t
announce_nothing s n table (ok b) t h = ground (arith, h b refl, t)

announce_table :
    (s s' : Service) (n : Notification) (r : List Notification × Result Bool)
    → announce s n r ≡ (s', ok tt)
    → (s'.table ≡ r.0) × (b : Bool) × (r.1 ≡ ok b)
announce_table s s' n (table, err e) h = cc (ap (λ x. x.1) h)
announce_table s s' n (table, ok b) h = (ap (λ x. x.0.table) (sym h), b, refl)

known_after :
    (s s' : Service) (n : Notification) (reply : CommitReply)
    → announce s n (create s.table reply n) ≡ (s', ok tt)
    → any (is_about n.booking_id n.type) s'.table ≡ true
known_after s s' n reply h =
    let (t, b, e) = announce_table s s' n (create s.table reply n) h in
    subst (λ x. any (is_about n.booking_id n.type) x ≡ true) (sym t)
      (create_known s.table reply n b e)

-- An event that was handled without an error may be delivered again any number of times: neither the
-- table nor a stream changes, whatever the database answers then.
pub create_from_event_twice :
    (s s' : Service) (id now : ℕ) (reply : CommitReply) (event : BookingEvent)
    → create_from_event s id now reply event ≡ (s', ok tt)
    → (id' now' : ℕ) (reply' : CommitReply) → (create_from_event s' id' now' reply' event).0 ≡ s'
unfolding create_from_event
create_from_event_twice s s' id now reply event h id' now' reply' =
    elim (Option-cases (type_of event.event_type)) [
      | inl e ↦ rw (e, create_from_event) refl
      | inr (t, e) ↦
          let first : announce s (notification_of t id now event)
                (create s.table reply (notification_of t id now event))
              ≡ (s', ok tt) =
            (rw (e, create_from_event) at h) in
          let again =
            create_again s'.table reply' (notification_of t id' now' event)
              (known_after s s' (notification_of t id now event) reply first) in
          rw (e, create_from_event)
            (announce_nothing s' (notification_of t id' now' event) _ _ again.0 again.1)
    ]

abbrev pub IsUnique : List Notification → Type 0
IsUnique table =
    (booking_id : ℕ) (type : NotificationType) → count_where (is_about booking_id type) table ≤ 1

pub same_type_eq : (t u : NotificationType) → same_type t u ≡ true → t ≡ u
same_type_eq booking_created booking_created h = refl
same_type_eq booking_created booking_cancelled h = cc
same_type_eq booking_cancelled booking_created h = cc
same_type_eq booking_cancelled booking_cancelled h = refl

append-IsUnique :
    (table : List Notification) (n : Notification)
    → IsUnique table
    → any (is_about n.booking_id n.type) table ≡ false
    → IsUnique (table ++ n ∷ [])
append-IsUnique table n u h booking_id type = elim (Bool-cases (is_about booking_id type n)) [
  | inr e ↦
      ground
        (arith, count_where-append (is_about booking_id type) table (n ∷ []), u booking_id type)
  | inl e ↦
      let same = same_type_eq type n.type (ground arith) in
      let id : n.booking_id ≡ booking_id = ground arith in
      let none_here : any (is_about booking_id type) table ≡ false =
        subst (λ t. any (is_about booking_id t) table ≡ false) (sym same)
          (subst (λ b. any (is_about b n.type) table ≡ false) id h) in
      ground (
        arith,
        count_where-append (is_about booking_id type) table (n ∷ []),
        count_where_zero (is_about booking_id type) table none_here,
      )
]

insert_cases :
    (table table' : List Notification) (n : Notification) (b : Bool)
    → insert_notification table n ≡ ok (table', b)
    → (table' ≡ table)
      ⊎ ((any (is_about n.booking_id n.type) table ≡ false) × (table' ≡ table ++ n ∷ []))
unfolding insert_notification
insert_cases table table' n b h = elim (Bool-cases (any (is_about n.booking_id n.type) table)) [
  | inl e ↦ inl (ground arith)
  | inr e ↦ inr (e, ground arith)
]

insert-IsUnique :
    (table table' : List Notification) (n : Notification) (b : Bool)
    → IsUnique table
    → insert_notification table n ≡ ok (table', b)
    → IsUnique table'
insert-IsUnique table table' n b u h = elim (insert_cases table table' n b h) [
  | inl e ↦ subst IsUnique (sym e) u
  | inr (e, t) ↦ subst IsUnique (sym t) (append-IsUnique table n u e)
]

transaction-IsUnique :
    (table : List Notification) (reply : CommitReply) (n : Notification)
    → (r : Result (List Notification × Bool)) → insert_notification table n ≡ r
    → IsUnique table
    → IsUnique (transaction table r reply).0
transaction-IsUnique table reply n (err e) h u = u
transaction-IsUnique table committed n (ok (t, b)) h u = insert-IsUnique table t n b u h
transaction-IsUnique table (refused x) n (ok (t, b)) h u = u
transaction-IsUnique table (lost x) n (ok (t, b)) h u = insert-IsUnique table t n b u h

pub announced_table :
    (s : Service) (n : Notification) (r : List Notification × Result Bool)
    → (announce s n r).0.table ≡ r.0
announced_table s n (table, ok b) = refl
announced_table s n (table, err e) = refl

create-IsUnique :
    (table : List Notification) (reply : CommitReply) (n : Notification)
    → IsUnique table
    → IsUnique (create table reply n).0
unfolding create
create-IsUnique table reply n u =
    transaction-IsUnique table reply n (insert_notification table n) refl u

-- Whatever the event and the database's answer, there stays at most one notification of each type
-- for a booking.
pub create_from_event-IsUnique :
    (s : Service) (id now : ℕ) (reply : CommitReply) (event : BookingEvent)
    → IsUnique s.table
    → IsUnique (create_from_event s id now reply event).0.table
unfolding create_from_event
create_from_event-IsUnique s id now reply event u = elim (Option-cases (type_of event.event_type)) [
  | inl e ↦ rw (e, create_from_event) (λ b k. u b k)
  | inr (t, e) ↦
      let n = notification_of t id now event in
      let kept =
        subst IsUnique (sym (announced_table s n (create s.table reply n)))
          (create-IsUnique s.table reply n u) in
      rw (e, create_from_event) (λ b k. kept b k)
]
