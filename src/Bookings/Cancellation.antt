-- ===== src/Bookings/Cancellation.antt =====
-- `CancelBooking` on every branch, and that it keeps the invariant of the tables.
use meeting_room_booking_sys.Prelude.{
  ℕ, Bool, ◌+◌, ◌≡◌, refl, ap, ◌∙◌, List, [], ◌∷◌, ◌++◌, Option, none, some, any, find_first,
  find_first_All, find_first_passes, find_first-some-any, update_where, All-update_where,
  count_where, count_where_pos, count_where_mono, count_where-update_where,
  count_where-update_where_le, count_where-append, ◌==◌, if◌then◌else◌, arith, Bool-cases,
  Option-cases, inl, inr, ◌⊎◌,
}
use meeting_room_booking_sys.Model.{Booking, event_booking_cancelled, Error, other, Result, ok, err}
use meeting_room_booking_sys.Database.{Db, OutboxRow, commit, transaction}
use meeting_room_booking_sys.Bookings.{
  Call, has_id, holds_slot, can_cancel, cancel, cancel_booking, diagnose_cancel_failure,
  outbox_id_taken,
}
use meeting_room_booking_sys.Bookings.Events.{IsLinked, IsRowOf, logged, log_event_lem}
use meeting_room_booking_sys.Bookings.Validity.{
  IsValid, reports_created, reports_cancelled, cancelled_with, HasSlot,
}
use meeting_room_booking_sys.Bookings.Creation.{commit-IsValid}

abbrev pub updated : Db → ℕ → ℕ → Db
updated db id user_id = record db {
  bookings = update_where (can_cancel id user_id) cancel db.bookings;
}

-- The tables after a cancellation: the booking's status, and one outbox row more.
abbrev pub cancelled_db : Db → ℕ → ℕ → OutboxRow → Db
cancelled_db db id user_id row = record (updated db id user_id) { outbox = db.outbox ++ row ∷ [] }

-- What `CancelBooking` does once the UPDATE has changed the booking `b`.
abbrev cancel_outcome : Db → Call → ℕ → ℕ → Booking → OutboxRow → Db × Result Booking
cancel_outcome db c id user_id b row =
    transaction db (logged (updated db id user_id) c (cancel b) row) c.commit_reply

abbrev pub found : Db → ℕ → ℕ → Option Booking
found db id user_id = find_first (can_cancel id user_id) db.bookings

-- Where the booking is active and the user's own, `CancelBooking` writes the status and one outbox
-- row that reports the cancellation, or stops with an error and writes nothing.
cancel_booking-found :
    (db : Db) (c : Call) (later : Db → Db) (id user_id : ℕ) (b : Booking)
    → IsValid db
    → c.begin_fails ≡ none
    → c.statement_fails ≡ none
    → found db id user_id ≡ some b
    → (row : OutboxRow) × IsRowOf db b.slot_id event_booking_cancelled c (cancel b) row
      × (cancel_booking db c later id user_id ≡ cancel_outcome db c id user_id b row)
unfolding cancel_booking
cancel_booking-found db c later id user_id b v begun stated f =
    let there =
      find_first_All (HasSlot db) (can_cancel id user_id) db.bookings b v.slots_linked f in
    let linked : IsLinked (updated db id user_id) = record {
      slots_keyed = v.linked.slots_keyed;
      rooms_keyed = v.linked.rooms_keyed;
      rooms_linked = v.linked.rooms_linked;
    } in
    let (row, made, e) =
      log_event_lem (updated db id user_id) event_booking_cancelled c (cancel b) b.slot_id linked
        there in
    (row, made, ground (arith, e))

refused_begin :
    (db : Db) (c : Call) (later : Db → Db) (id user_id e : ℕ)
    → c.begin_fails ≡ some e
    → cancel_booking db c later id user_id ≡ (db, err (other e))
unfolding cancel_booking
refused_begin db c later id user_id e h = ground arith

refused_statement :
    (db : Db) (c : Call) (later : Db → Db) (id user_id e : ℕ)
    → c.begin_fails ≡ none
    → c.statement_fails ≡ some e
    → cancel_booking db c later id user_id ≡ (db, err (other e))
unfolding cancel_booking
refused_statement db c later id user_id e begun h = ground arith

pub unfound :
    (db : Db) (c : Call) (later : Db → Db) (id user_id : ℕ)
    → c.begin_fails ≡ none
    → c.statement_fails ≡ none
    → found db id user_id ≡ none
    → cancel_booking db c later id user_id
      ≡ (later db, diagnose_cancel_failure (later db) c.outbox_fails id user_id)
unfolding cancel_booking
unfound db c later id user_id begun stated f = ground arith

logged_cases :
    (db : Db) (c : Call) (b : Booking) (row : OutboxRow)
    → ((e : Error) × (logged db c b row ≡ err e))
      ⊎ (logged db c b row ≡ ok (record db { outbox = db.outbox ++ row ∷ [] }, b))
logged_cases db c b row = elim (Option-cases c.outbox_fails) [
  | inr (e, h) ↦ inl (other e, ground arith)
  | inl h ↦ elim (Bool-cases (any (λ o. o.id == c.outbox_id) db.outbox)) [
    | inl taken ↦ inl (other outbox_id_taken, ground arith)
    | inr free ↦ inr (ground arith)
  ]
]

abbrev pub Refused : Db → Call → (Db → Db) → ℕ → ℕ → Type 0
Refused db c later id user_id = (e : Error) × (cancel_booking db c later id user_id ≡ (db, err e))

abbrev pub Diagnosed : Db → Call → (Db → Db) → ℕ → ℕ → Type 0
Diagnosed db c later id user_id =
    (found db id user_id ≡ none)
    × (cancel_booking db c later id user_id
        ≡ (later db, diagnose_cancel_failure (later db) c.outbox_fails id user_id))

abbrev pub Committed : Db → Call → (Db → Db) → ℕ → ℕ → Type 0
Committed db c later id user_id =
    (b : Booking) × (row : OutboxRow) × (found db id user_id ≡ some b)
    × IsRowOf db b.slot_id event_booking_cancelled c (cancel b) row
    × (cancel_booking db c later id user_id
        ≡ commit db (cancelled_db db id user_id row) (cancel b) c.commit_reply)

-- On valid tables `CancelBooking` does one of three things: it answers an error and changes nothing;
-- or the user has no active booking with the identifier, and it answers what the diagnostic query
-- finds in the tables as they are by then; or it commits the new status of that booking together
-- with one outbox row that reports it.
pub cancel_booking_lem :
    (db : Db) (c : Call) (later : Db → Db) (id user_id : ℕ)
    → IsValid db
    → Refused db c later id user_id
      ⊎ (Diagnosed db c later id user_id ⊎ Committed db c later id user_id)
cancel_booking_lem db c later id user_id v = elim (Option-cases c.begin_fails) [
  | inr (e, h) ↦ inl (other e, refused_begin db c later id user_id e h)
  | inl begun ↦ elim (Option-cases c.statement_fails) [
    | inr (e, h) ↦ inl (other e, refused_statement db c later id user_id e begun h)
    | inl stated ↦ elim (Option-cases (found db id user_id)) [
      | inl f ↦ inr (inl (f, unfound db c later id user_id begun stated f))
      | inr (b, f) ↦
          let (row, made, e) = cancel_booking-found db c later id user_id b v begun stated f in
          elim (logged_cases (updated db id user_id) c (cancel b) row) [
            | inl (x, l) ↦ inl (x, e ∙ ap (λ r. transaction db r c.commit_reply) l)
            | inr l ↦ inr (inr (b, row, f, made, e ∙ ap (λ r. transaction db r c.commit_reply) l))
          ]
    ]
  ]
]

count_cancelled :
    (id user_id j : ℕ) (xs : List Booking)
    → count_where (cancelled_with j) (update_where (can_cancel id user_id) cancel xs)
      ≡ count_where (cancelled_with j) xs
        + (if id == j then count_where (can_cancel id user_id) xs else 0)
count_cancelled id user_id j [] = ground arith
count_cancelled id user_id j (b ∷ xs) = ground (arith, count_cancelled id user_id j xs)

pub cancelled_db-IsValid :
    (db : Db) (c : Call) (id user_id : ℕ) (b : Booking) (row : OutboxRow)
    → IsValid db
    → found db id user_id ≡ some b
    → IsRowOf db b.slot_id event_booking_cancelled c (cancel b) row
    → IsValid (cancelled_db db id user_id row)
cancelled_db-IsValid db c id user_id b row v f (s, r, i, j, k) = record {
  linked = record {
    slots_keyed = v.linked.slots_keyed;
    rooms_keyed = v.linked.rooms_keyed;
    rooms_linked = v.linked.rooms_linked;
  };
  one_active = λ slot. omega (
    arith,
    v.one_active slot,
    count_where-update_where_le p (holds_slot slot) cancel db.bookings (λ x h. cc),
  );
  keyed =
      λ j. rw (count_where-update_where p (has_id j) cancel db.bookings (λ x. refl)) (v.keyed j);
  slots_linked = All-update_where (HasSlot db) p cancel db.bookings (λ x h. h) v.slots_linked;
  created_logged = λ j. ground (
    arith,
    v.created_logged j,
    count_where-update_where p (has_id j) cancel db.bookings (λ x. refl),
    count_where-append (reports_created j) db.outbox (row ∷ []),
  );
  cancelled_logged = λ j. ground (
    arith,
    v.cancelled_logged j,
    count_cancelled id user_id j db.bookings,
    once,
    named,
    count_where-append (reports_cancelled j) db.outbox (row ∷ []),
  );
}
  where
    p : Booking → Bool
    p = can_cancel id user_id

    named : b.id ≡ id
    named = let h = find_first_passes p db.bookings f in ground (arith, h)

    once : count_where (can_cancel id user_id) db.bookings ≡ 1
    once = omega (
      arith,
      v.keyed id,
      count_where_mono p (has_id id) db.bookings (λ x h. ground (arith, h)),
      count_where_pos p db.bookings (find_first-some-any p db.bookings b f),
    )

-- `CancelBooking` keeps the invariant of the tables, whatever fails, however the commit ends and
-- whatever valid tables other requests leave for the diagnostic query: the new status and its event
-- are written together or not at all, and once.
pub cancel_booking-IsValid :
    (db : Db) (c : Call) (later : Db → Db) (id user_id : ℕ)
    → IsValid db
    → IsValid (later db)
    → IsValid (cancel_booking db c later id user_id).0
cancel_booking-IsValid db c later id user_id v w =
    elim (cancel_booking_lem db c later id user_id v) [
      | inl (e, p) ↦ rw p v
      | inr (inl (f, p)) ↦ rw p w
      | inr (inr (b, row, f, made, p)) ↦ rw p (
          commit-IsValid db _ _ c.commit_reply v
            (cancelled_db-IsValid db c id user_id b row v f made))
    ]
