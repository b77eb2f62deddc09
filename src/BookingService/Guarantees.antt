-- ===== src/BookingService/Guarantees.antt =====
-- What `CreateBooking` of the service adds to that of the repository: no slot in the past, and a
-- conference link whose failure cannot lose the booking.
use Prim.Native.String.{String}
use meeting_room_booking_sys.Prelude.{
  ℕ, ◌≡◌, refl, ap₂, List, [], ◌∷◌, map, none, arith, Bool, true, false, Bool-cases, inl, inr, ltb,
  All-update_where, count_where-update_where, update_where,
}
use meeting_room_booking_sys.Model.{Booking, Slot, Result, ok, err}
use meeting_room_booking_sys.Database.{Db, CommitReply, committed, refused, lost}
use meeting_room_booking_sys.Bookings.{Call, has_id, holds_slot, link, update_conference_link}
use meeting_room_booking_sys.Bookings
use meeting_room_booking_sys.Bookings.Validity.{IsValid, cancelled_with, HasSlot}
use meeting_room_booking_sys.Bookings.Creation.{create_booking-IsValid}
use meeting_room_booking_sys.Slots.{get_slot_by_id}
use meeting_room_booking_sys.BookingService.{
  ServiceCall, create_booking, book, with_link, add_link, linked,
}

linked_rows-IsValid :
    (db : Db) (id : ℕ) (l : String)
    → IsValid db
    → IsValid (record db { bookings = update_where (has_id id) (link l) db.bookings })
linked_rows-IsValid db id l v = record {
  linked = record {
    slots_keyed = v.linked.slots_keyed;
    rooms_keyed = v.linked.rooms_keyed;
    rooms_linked = v.linked.rooms_linked;
  };
  one_active = λ s.
      rw (count_where-update_where (has_id id) (holds_slot s) (link l) db.bookings (λ x. refl))
        (v.one_active s);
  keyed = λ j.
      rw (count_where-update_where (has_id id) (has_id j) (link l) db.bookings (λ x. refl))
        (v.keyed j);
  slots_linked =
      All-update_where (HasSlot db) (has_id id) (link l) db.bookings (λ x p. p) v.slots_linked;
  created_logged = λ j.
      rw (count_where-update_where (has_id id) (has_id j) (link l) db.bookings (λ x. refl))
        (v.created_logged j);
  cancelled_logged = λ j.
      rw (count_where-update_where (has_id id) (cancelled_with j) (link l) db.bookings (λ x. refl))
        (v.cancelled_logged j);
}

pub update_conference_link-IsValid :
    (db : Db) (reply : CommitReply) (id : ℕ) (l : String)
    → IsValid db
    → IsValid (update_conference_link db reply id l).0
unfolding update_conference_link
update_conference_link-IsValid db (refused e) id l v = v
update_conference_link-IsValid db committed id l v = linked_rows-IsValid db id l v
update_conference_link-IsValid db (lost e) id l v = linked_rows-IsValid db id l v

linked_db : (b : Booking) (l : String) (r : Db × Result (Unit {0})) → (linked b l r).0 ≡ r.0
linked_db b l (db, err e) = refl
linked_db b l (db, ok u) = refl

-- What other requests do keeps a property of the tables.
abbrev pub Preserves : (Db → Type 0) → (Db → Db) → Type 0
Preserves P f = (d : Db) → P d → P (f d)

abbrev pub Keeps : (Db → Db) → Type 0
Keeps = Preserves IsValid

-- A property of the tables that the two writes of `CreateBooking` keep is kept by the service, if the
-- requests that run between its database calls keep it.
module _ (P : Db → Type 0)
    (linking : (d : Db) (reply : CommitReply) (id : ℕ) (l : String)
      → P d
      → P (update_conference_link d reply id l).0) where
  add_link-Preserves :
      (c : ServiceCall) (db : Db) (b : Booking) (r : Result String)
      → Preserves P c.before_link
      → P db
      → P (add_link c db b r).0
  add_link-Preserves c db b (err e) k v = v
  add_link-Preserves c db b (ok l) k v =
      rw (linked_db b l (update_conference_link (c.before_link db) c.link_reply b.id l))
        (linking (c.before_link db) c.link_reply b.id l (k db v))

  with_link-Preserves :
      (c : ServiceCall) (wanted : Bool) (out : Db × Result Booking)
      → Preserves P c.before_link
      → P out.0
      → P (with_link c wanted out).0
  with_link-Preserves c wanted (db, err e) k v = v
  with_link-Preserves c true (db, ok b) k v = add_link-Preserves c db b (c.client b.id) k v
  with_link-Preserves c false (db, ok b) k v = v

  pub create_booking-Preserves :
      (user_id : ℕ)
      → ((d : Db) (call : Call) (slot_id : ℕ)
          → P d
          → P (Bookings.create_booking d call slot_id user_id).0)
      → (db : Db) (c : ServiceCall) (slot_id : ℕ) (wanted : Bool) → Preserves P c.before_insert
      → Preserves P c.before_link
      → P db
      → P (create_booking db c slot_id user_id wanted).0
  unfolding create_booking
  create_booking-Preserves user_id booking db c slot_id wanted k l v =
      by_slot (get_slot_by_id db c.slot_fails slot_id)
    where
      by_slot : (r : Result Slot) → P (book c db slot_id user_id wanted r).0
      by_slot (err e) = v
      by_slot (ok s) = elim (Bool-cases (ltb s.start_at c.clock)) [
        | inl past ↦ rw past v
        | inr future ↦ rw future (
            with_link-Preserves c wanted
              (Bookings.create_booking (c.before_insert db) c.call slot_id user_id) l
              (booking (c.before_insert db) c.call slot_id (k db v)))
      ]

-- `CreateBooking` of the service keeps the invariant of the tables, if the requests that run between
-- its database calls do.
pub service_create_booking-IsValid :
    (db : Db) (c : ServiceCall) (slot_id user_id : ℕ) (wanted : Bool)
    → Keeps c.before_insert
    → Keeps c.before_link
    → IsValid db
    → IsValid (create_booking db c slot_id user_id wanted).0
service_create_booking-IsValid db c slot_id user_id wanted =
    create_booking-Preserves IsValid update_conference_link-IsValid user_id
      (λ d call s. create_booking-IsValid d call s user_id) db c slot_id wanted

abbrev unlinked : Booking → Booking
unlinked b = record b { conference_link = none }

abbrev pub without_link : Result Booking → Result Booking
without_link (err e) = err e
without_link (ok b) = ok (unlinked b)

map-link :
    (id : ℕ) (l : String) (bs : List Booking)
    → map unlinked (update_where (has_id id) (link l) bs) ≡ map unlinked bs
map-link id l [] = refl
map-link id l (b ∷ bs) = ap₂ ◌∷◌ (ground arith) (map-link id l bs)

abbrev pub SameButLink : Db × Result Booking → Db × Result Booking → Type 0
SameButLink x y =
    (without_link x.1 ≡ without_link y.1)
    × (map unlinked x.0.bookings ≡ map unlinked y.0.bookings)
    × (x.0.outbox ≡ y.0.outbox)

update_keeps :
    (db : Db) (reply : CommitReply) (id : ℕ) (l : String)
    → (map unlinked (update_conference_link db reply id l).0.bookings ≡ map unlinked db.bookings)
      × ((update_conference_link db reply id l).0.outbox ≡ db.outbox)
unfolding update_conference_link
update_keeps db (refused e) id l = (refl, refl)
update_keeps db (lost e) id l = (map-link id l db.bookings, refl)
update_keeps db committed id l = (map-link id l db.bookings, refl)

linked-SameButLink :
    (b : Booking) (l : String) (db : Db) (r : Db × Result (Unit {0}))
    → (map unlinked r.0.bookings ≡ map unlinked db.bookings) × (r.0.outbox ≡ db.outbox)
    → SameButLink (linked b l r) (db, ok b)
linked-SameButLink b l db (d, err e) (p, q) = (refl, p, q)
linked-SameButLink b l db (d, ok u) (p, q) = (refl, p, q)

add_link-SameButLink :
    (c : ServiceCall) (db : Db) (b : Booking) (r : Result String)
    → c.before_link ≡ (λ d. d)
    → SameButLink (add_link c db b r) (db, ok b)
add_link-SameButLink c db b (err e) k = (refl, refl, refl)
add_link-SameButLink c db b (ok l) k = rw k (
    linked-SameButLink b l db (update_conference_link db c.link_reply b.id l)
      (update_keeps db c.link_reply b.id l))

with_link-SameButLink :
    (c : ServiceCall) (out : Db × Result Booking)
    → c.before_link ≡ (λ d. d)
    → SameButLink (with_link c true out) out
with_link-SameButLink c (db, err e) k = (refl, refl, refl)
with_link-SameButLink c (db, ok b) k = add_link-SameButLink c db b (c.client b.id) k

-- Whatever the conference client answers, and whether or not the link can be stored, the call with a
-- link answers what the call without one answers, and leaves the same bookings and the same outbox,
-- but for the link itself; no other request runs before the link is stored.
pub create_booking_link :
    (db : Db) (c : ServiceCall) (slot_id user_id : ℕ)
    → c.before_link ≡ (λ d. d)
    → SameButLink
        (create_booking db c slot_id user_id true)
        (create_booking db c slot_id user_id false)
unfolding create_booking
create_booking_link db c slot_id user_id k = by_slot (get_slot_by_id db c.slot_fails slot_id)
  where
    unwanted :
        (out : Db × Result Booking) → SameButLink (with_link c true out) (with_link c false out)
    unwanted (d, err e) = (refl, refl, refl)
    unwanted (d, ok b) = with_link-SameButLink c (d, ok b) k

    by_slot :
        (r : Result Slot)
        → SameButLink (book c db slot_id user_id true r) (book c db slot_id user_id false r)
    by_slot (err e) = (refl, refl, refl)
    by_slot (ok s) = elim (Bool-cases (ltb s.start_at c.clock)) [
      | inl past ↦ rw past (refl, refl, refl)
      | inr future ↦
          rw future (unwanted (Bookings.create_booking (c.before_insert db) c.call slot_id user_id))
    ]
