-- ===== src/Bookings/Offers.antt =====
-- What the calendar, a booking and a cancellation mean for the slots that are offered.
use meeting_room_booking_sys.Prelude.{
  ℕ, ◌≡◌, refl, sym, ap, ap₂, ◌∙◌, arith, Bool, true, false, not, ◌&&◌, ◌==◌, if◌then◌else◌, List,
  [], ◌∷◌, Option, none, some, any, find_first, count_where, count_where-Perm, count_where-select,
  count_where-cong, Bool-cases, inl, inr, subst,
}
use meeting_room_booking_sys.Model.{Booking, Slot, Result, ok}
use meeting_room_booking_sys.Database.{Db, CommitReply, commit}
use meeting_room_booking_sys.Database.Commits.{transaction_ok}
use meeting_room_booking_sys.Database.Sorting.{Order}
use meeting_room_booking_sys.Bookings.{
  Call, holds_slot, new_booking, create_booking, cancel_booking, can_cancel, cancel,
}
use meeting_room_booking_sys.Bookings.Events.{IsLinked}
use meeting_room_booking_sys.Bookings.Validity.{IsValid}
use meeting_room_booking_sys.Bookings.Creation.{create_booking_lem, created}
use meeting_room_booking_sys.Bookings.Cancellation.{cancel_booking_lem, cancelled_db}
use meeting_room_booking_sys.Bookings.Calendar.{
  user_of, holder, holder-created, holder-cancelled_db, refusal_free,
}
use meeting_room_booking_sys.Slots.{books, is_in_range, list_available_by_room_and_date}
use meeting_room_booking_sys.Slots.Availability.{is_free, list_available_lem}

abbrev pub is_nobody : Option ℕ → Bool
is_nobody none = true
is_nobody (some u) = false

any-books :
    (s : Slot) (bookings : List Booking)
    → not (any (books s) bookings) ≡ is_nobody (user_of (find_first (holds_slot s.id) bookings))
any-books s [] = refl
any-books s (b ∷ bookings) = ground (arith, any-books s bookings)

-- Of each kind, the query lists as many slots as there are in the range that nobody holds.
count_offered :
    (order : Order) (db : Db) (room_id from to : ℕ) (slots : List Slot) (p : Slot → Bool)
    → list_available_by_room_and_date order db none room_id from to ≡ ok slots
    → count_where p slots
      ≡ count_where
          (λ s. (is_in_range room_id from to s && is_nobody (holder db s.id)) && p s)
          db.slots
count_offered order db room_id from to slots p e =
    let (listed, same, perm, sorted) = list_available_lem order db room_id from to in
    let answer : ok slots ≡ ok listed = sym e ∙ same in
    let equal : slots ≡ listed = cc answer in
    ap (count_where p) equal
    ∙ count_where-Perm p perm
    ∙ count_where-select (is_free db.bookings room_id from to) p db.slots
    ∙ count_where-cong _ _ db.slots
        (λ s. ap (λ b. (is_in_range room_id from to s && b) && p s) (any-books s db.bookings))

commit-ok :
    (s t s' : Db) (a b : Booking) (reply : CommitReply) → commit s t a reply ≡ (s', ok b) → s' ≡ t
commit-ok s t s' a b reply e =
    let same : ◌≡◌ {A = Result (Db × Booking)} (ok (t, a)) (ok (s', b)) =
      transaction_ok s s' (ok (t, a)) reply b e in
    ground arith

-- If the holder of one slot changes, so does whether it is offered, and nothing else.
count_changed :
    (before after : ℕ → Option ℕ) (slot : ℕ) (who : Option ℕ) (r : Slot → Bool) (slots : List Slot)
    (id : ℕ)
    → ((s : ℕ) → after s ≡ (if s == slot then who else before s))
    → count_where (λ s. (r s && is_nobody (after s.id)) && s.id == id) slots ≡ (
        if id == slot
        then count_where (λ s. (r s && is_nobody who) && s.id == id) slots
        else count_where (λ s. (r s && is_nobody (before s.id)) && s.id == id) slots)
count_changed before after slot who r slots id h = elim (Bool-cases (id == slot)) [
  | inl e ↦ rw e (count_where-cong _ _ slots (λ s. ground (arith, e, h s.id)))
  | inr e ↦ rw e (count_where-cong _ _ slots (λ s. ground (arith, e, h s.id)))
]

count_none :
    (r p : Slot → Bool) (slots : List Slot) → count_where (λ s. (r s && false) && p s) slots ≡ 0
count_none r p [] = refl
count_none r p (s ∷ slots) = ground (arith, count_none r p slots)

module _ (order : Order) (db db' : Db) (room_id from to : ℕ) (before after : List Slot) where
  -- A slot that was just booked is not offered any more, and every other slot is offered as before: for
  -- any room and range of time, if both queries do not fail and `CreateBooking` succeeds in between on
  -- tables whose keys and references hold.
  pub list_available-create_booking :
      (c : Call) (slot_id user_id : ℕ) (b : Booking) (id : ℕ)
      → IsLinked db
      → list_available_by_room_and_date order db none room_id from to ≡ ok before
      → create_booking db c slot_id user_id ≡ (db', ok b)
      → list_available_by_room_and_date order db' none room_id from to ≡ ok after
      → count_where (λ s. s.id == id) after
        ≡ (if id == slot_id then 0 else count_where (λ s. s.id == id) before)
  list_available-create_booking c slot_id user_id b id v first made second =
      elim (create_booking_lem db c slot_id user_id v) [
        | inl (x, r, p) ↦ cc (ap (λ q. q.1) (sym p ∙ made))
        | inr (row, is_row, passed, p) ↦
            let next = created db c slot_id user_id row in
            let same =
              commit-ok db next db' (new_booking c slot_id user_id) b c.commit_reply
                (sym p ∙ made) in
            count_offered order next room_id from to after (λ s. s.id == id)
              (subst (λ d. list_available_by_room_and_date order d none room_id from to ≡ ok after)
                same second)
            ∙ count_changed (holder db) (holder next) slot_id (some user_id)
                (is_in_range room_id from to) db.slots id
                (holder-created db c slot_id user_id row (refusal_free db c slot_id user_id passed))
            ∙ ap₂ (λ x y. if id == slot_id then x else y)
                (count_none (is_in_range room_id from to) (λ s. s.id == id) db.slots)
                (sym (count_offered order db room_id from to before (λ s. s.id == id) first))
      ]

  -- The slot of a booking that was just cancelled is offered again, and every other slot is offered as
  -- before: for any room and range of time, if both queries do not fail and `CancelBooking` succeeds in
  -- between, on valid tables, for an active booking of the user; a slot out of the range or of another
  -- room is not offered.
  pub list_available-cancel_booking :
      (c : Call) (later : Db → Db) (booking_id user_id : ℕ) (old b : Booking) (id : ℕ)
      → IsValid db
      → find_first (can_cancel booking_id user_id) db.bookings ≡ some old
      → list_available_by_room_and_date order db none room_id from to ≡ ok before
      → cancel_booking db c later booking_id user_id ≡ (db', ok b)
      → list_available_by_room_and_date order db' none room_id from to ≡ ok after
      → count_where (λ s. s.id == id) after ≡ (
          if id == old.slot_id
          then count_where (λ s. is_in_range room_id from to s && s.id == id) db.slots
          else count_where (λ s. s.id == id) before)
  list_available-cancel_booking c later booking_id user_id old b id v f first done second =
      elim (cancel_booking_lem db c later booking_id user_id v) [
        | inl (x, p) ↦ cc (ap (λ q. q.1) (sym p ∙ done))
        | inr (inl (g, p)) ↦ cc (f, g)
        | inr (inr (y, row, g, is_row, p)) ↦
            let next = cancelled_db db booking_id user_id row in
            let found_same : some y ≡ some old = sym g ∙ f in
            let slot : y.slot_id ≡ old.slot_id = cc found_same in
            let same = commit-ok db next db' (cancel y) b c.commit_reply (sym p ∙ done) in
            count_offered order next room_id from to after (λ s. s.id == id)
              (subst (λ d. list_available_by_room_and_date order d none room_id from to ≡ ok after)
                same second)
            ∙ count_changed (holder db) (holder next) old.slot_id none (is_in_range room_id from to)
                db.slots id
                (subst (λ k. (s : ℕ) → holder next s ≡ (if s == k then none else holder db s)) slot
                  (holder-cancelled_db db booking_id user_id y row v g))
            ∙ ap₂ (λ x z. if id == old.slot_id then x else z)
                (count_where-cong _ _ db.slots (λ s. ground arith))
                (sym (count_offered order db room_id from to before (λ s. s.id == id) first))
      ]
