-- ===== src/Bookings/Creation.antt =====
-- `CreateBooking` on every branch: what it answers, and that the booking and its event are written
-- together or not at all.
use meeting_room_booking_sys.Prelude.{
  ℕ, Bool, ◌≡◌, ap, [], ◌∷◌, ◌++◌, Option, none, some, any, All-append, count_where-append,
  count_where_zero, ◌==◌, ◌||◌, not, if◌then◌else◌, arith, true, false, Bool-cases, Option-cases,
  inl, inr, ◌⊎◌, ◌∙◌, ◌≢◌, any-or,
}
use meeting_room_booking_sys.Model.{
  Booking, event_booking_created, Error, slot_already_booked, slot_not_found, other, Result, err,
}
use meeting_room_booking_sys.Database.{Db, OutboxRow, committed, refused, lost, CommitReply, commit}
use meeting_room_booking_sys.Bookings.{
  Call, has_id, holds_slot, new_booking, create_booking, unexpected_fk_violation, outbox_id_taken,
}
use meeting_room_booking_sys.Bookings.Events.{IsLinked, IsRowOf, log_event_lem}
use meeting_room_booking_sys.Bookings.Validity.{
  IsValid, reports_created, reports_cancelled, cancelled_with,
}

-- A booking that the unique indexes set against a new one.
abbrev pub is_conflict : Call → ℕ → Booking → Bool
is_conflict c slot_id b = has_id c.new_id b || holds_slot slot_id b

abbrev pub slot_exists : Db → ℕ → Bool
slot_exists db slot_id = any (λ s. s.id == slot_id) db.slots

abbrev pub user_exists : Db → ℕ → Bool
user_exists db user_id = any (λ u. u.id == user_id) db.users

-- The tables after a booking was made: one booking and one outbox row more.
abbrev pub created : Db → Call → ℕ → ℕ → OutboxRow → Db
created db c slot_id user_id row = record db {
  bookings = db.bookings ++ new_booking c slot_id user_id ∷ [];
  outbox = db.outbox ++ row ∷ [];
}

-- The error that stops the transaction before its commit, in the order of the code.
abbrev pub create_refusal : Db → Call → ℕ → ℕ → Option Error
create_refusal db c slot_id user_id = elim c.begin_fails [
  | some e ↦ some (other e)
  | none ↦ elim c.statement_fails [
    | some e ↦ some (other e)
    | none ↦
        if any (is_conflict c slot_id) db.bookings
        then some slot_already_booked
        else if not (slot_exists db slot_id)
        then some slot_not_found
        else if not (user_exists db user_id)
        then some (other unexpected_fk_violation)
        else elim c.outbox_fails [
          | some e ↦ some (other e)
          | none ↦
              if any (λ o. o.id == c.outbox_id) db.outbox
              then some (other outbox_id_taken)
              else none
        ]
  ]
]

-- The result that belongs to a refusal, and to a commit.
abbrev pub create_outcome : Db → Call → ℕ → ℕ → OutboxRow → Option Error → Db × Result Booking
create_outcome db c slot_id user_id row (some e) = (db, err e)
create_outcome db c slot_id user_id row none =
    commit db (created db c slot_id user_id row) (new_booking c slot_id user_id) c.commit_reply

abbrev inserted : Db → Call → ℕ → ℕ → Db
inserted db c slot_id user_id = record db {
  bookings = db.bookings ++ new_booking c slot_id user_id ∷ [];
}

inserted-IsLinked :
    (db : Db) (c : Call) (slot_id user_id : ℕ)
    → IsLinked db
    → IsLinked (inserted db c slot_id user_id)
inserted-IsLinked db c slot_id user_id v = record {
  slots_keyed = v.slots_keyed;
  rooms_keyed = v.rooms_keyed;
  rooms_linked = v.rooms_linked;
}

refusal_without_slot :
    (db : Db) (c : Call) (slot_id user_id : ℕ)
    → slot_exists db slot_id ≡ false
    → create_refusal db c slot_id user_id ≢ none
refusal_without_slot db c slot_id user_id h = ground arith

create_booking_without_slot :
    (db : Db) (c : Call) (slot_id user_id : ℕ) (e : Error)
    → slot_exists db slot_id ≡ false
    → create_refusal db c slot_id user_id ≡ some e
    → create_booking db c slot_id user_id ≡ (db, err e)
unfolding create_booking
create_booking_without_slot db c slot_id user_id e h r = ground arith

-- On linked tables, with the slot there, `CreateBooking` is its refusals, in order, and otherwise the commit of one
-- booking and of one outbox row that reports it with its slot and room.
create_booking_with_slot :
    (db : Db) (c : Call) (slot_id user_id : ℕ)
    → IsLinked db
    → slot_exists db slot_id ≡ true
    → (row : OutboxRow) × IsRowOf db slot_id event_booking_created c
        (new_booking c slot_id user_id)
        row
      × (create_booking db c slot_id user_id
          ≡ create_outcome db c slot_id user_id row (create_refusal db c slot_id user_id))
unfolding create_booking
create_booking_with_slot db c slot_id user_id v h =
    let (row, made, e) =
      log_event_lem (inserted db c slot_id user_id) event_booking_created c
        (new_booking c slot_id user_id) slot_id (inserted-IsLinked db c slot_id user_id v) h in
    (row, made, ground (arith, e))

abbrev pub Refused : Db → Call → ℕ → ℕ → Type 0
Refused db c slot_id user_id =
    (e : Error) × (create_refusal db c slot_id user_id ≡ some e)
    × (create_booking db c slot_id user_id ≡ (db, err e))

abbrev pub Committed : Db → Call → ℕ → ℕ → Type 0
Committed db c slot_id user_id =
    (row : OutboxRow) × IsRowOf db slot_id event_booking_created c (new_booking c slot_id user_id)
      row
    × (create_refusal db c slot_id user_id ≡ none)
    × (create_booking db c slot_id user_id
        ≡ commit db (created db c slot_id user_id row) (new_booking c slot_id user_id)
            c.commit_reply)

-- On tables whose keys and references hold, `CreateBooking` either answers the first error in the
-- order of the code and changes nothing, or there is no such error and it commits one active
-- booking together with one outbox row that reports it with its slot and its room.
pub create_booking_lem :
    (db : Db) (c : Call) (slot_id user_id : ℕ)
    → IsLinked db
    → Refused db c slot_id user_id ⊎ Committed db c slot_id user_id
create_booking_lem db c slot_id user_id v = elim (Bool-cases (slot_exists db slot_id)) [
  | inl there ↦
      let (row, made, e) = create_booking_with_slot db c slot_id user_id v there in
      present row made e
  | inr missing ↦ elim (Option-cases (create_refusal db c slot_id user_id)) [
    | inl passed ↦ absurd (refusal_without_slot db c slot_id user_id missing passed)
    | inr (e, r) ↦ inl (e, r, create_booking_without_slot db c slot_id user_id e missing r)
  ]
]
  where
    present :
        (row : OutboxRow)
        → IsRowOf db slot_id event_booking_created c (new_booking c slot_id user_id) row
        → create_booking db c slot_id user_id
          ≡ create_outcome db c slot_id user_id row (create_refusal db c slot_id user_id)
        → Refused db c slot_id user_id ⊎ Committed db c slot_id user_id
    present row made e = elim (Option-cases (create_refusal db c slot_id user_id)) [
      | inl r ↦ inr (row, made, r, e ∙ ap (create_outcome db c slot_id user_id row) r)
      | inr (x, r) ↦ inl (x, r, e ∙ ap (create_outcome db c slot_id user_id row) r)
    ]

created-IsValid :
    (db : Db) (c : Call) (slot_id user_id : ℕ) (row : OutboxRow)
    → IsValid db
    → IsRowOf db slot_id event_booking_created c (new_booking c slot_id user_id) row
    → create_refusal db c slot_id user_id ≡ none
    → IsValid (created db c slot_id user_id row)
created-IsValid db c slot_id user_id row v (s, r, i, j, k) passed = record {
  linked = record {
    slots_keyed = v.linked.slots_keyed;
    rooms_keyed = v.linked.rooms_keyed;
    rooms_linked = v.linked.rooms_linked;
  };
  one_active = λ slot. ground (
    arith,
    count_where-append (holds_slot slot) db.bookings (new ∷ []),
    v.one_active slot,
    count_where_zero (holds_slot slot_id) db.bookings free.1,
  );
  keyed = λ id. ground (
    arith,
    count_where-append (has_id id) db.bookings (new ∷ []),
    v.keyed id,
    count_where_zero (has_id c.new_id) db.bookings free.0,
  );
  slots_linked = All-append _ db.bookings (new ∷ []) v.slots_linked (facts.1, tt);
  created_logged = λ id. ground (
    arith,
    count_where-append (has_id id) db.bookings (new ∷ []),
    v.created_logged id,
    count_where-append (reports_created id) db.outbox (row ∷ []),
  );
  cancelled_logged = λ id. ground (
    arith,
    count_where-append (cancelled_with id) db.bookings (new ∷ []),
    v.cancelled_logged id,
    count_where-append (reports_cancelled id) db.outbox (row ∷ []),
  );
}
  where
    new : Booking
    new = new_booking c slot_id user_id

    facts : (any (is_conflict c slot_id) db.bookings ≡ false) × (slot_exists db slot_id ≡ true)
    facts = ground arith

    free :
        (any (has_id c.new_id) db.bookings ≡ false) × (any (holds_slot slot_id) db.bookings ≡ false)
    free = any-or (has_id c.new_id) (holds_slot slot_id) db.bookings facts.0

pub commit-IsValid :
    (db t : Db) (b : Booking) (reply : CommitReply)
    → IsValid db
    → IsValid t
    → IsValid (commit db t b reply).0
commit-IsValid db t b committed v w = w
commit-IsValid db t b (refused e) v w = v
commit-IsValid db t b (lost e) v w = w

-- `CreateBooking` keeps the invariant of the tables, whatever fails and however the commit ends: no
-- slot gets a second active booking, and no booking or event is written without the other.
pub create_booking-IsValid :
    (db : Db) (c : Call) (slot_id user_id : ℕ)
    → IsValid db
    → IsValid (create_booking db c slot_id user_id).0
create_booking-IsValid db c slot_id user_id v =
    elim (create_booking_lem db c slot_id user_id v.linked) [
      | inl (e, r, p) ↦ rw p v
      | inr (row, made, r, p) ↦ rw p (
          commit-IsValid db _ _ c.commit_reply v
            (created-IsValid db c slot_id user_id row v made r))
    ]
