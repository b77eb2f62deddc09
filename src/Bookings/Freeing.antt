-- ===== src/Bookings/Freeing.antt =====
-- What a cancellation promises to callers: it can be repeated, it is for the owner only, and it
-- frees the slot.
use meeting_room_booking_sys.Prelude.{
  ℕ, Bool, ◌≡◌, ◌≢◌, refl, sym, ap, ◌∙◌, List, [], ◌∷◌, Option, none, some, any, find_first,
  find_first_passes, find_first_unique, find_first-update_where, any_of_found, find_first-none,
  any_of_count_zero, update_where, count_where_pos, count_where-update_where_lost, any-update_where,
  none_of_any, ◌==◌, ◌&&◌, ◌||◌, subst, find_first_All, arith, true, false, Option-cases, inl, inr,
}
use meeting_room_booking_sys.Model.{
  Booking, cancelled, booking_not_found, forbidden, Result, ok, err,
}
use meeting_room_booking_sys.Database.{Db, OutboxRow, committed, refused, lost, CommitReply, commit}
use meeting_room_booking_sys.Bookings.{
  Call, has_id, holds_slot, can_cancel, cancel, cancel_booking, diagnose_cancel_failure,
  new_booking, create_booking,
}
use meeting_room_booking_sys.Bookings.Validity.{IsValid, HasSlot}
use meeting_room_booking_sys.Bookings.Creation.{create_booking_lem, user_exists, slot_exists}
use meeting_room_booking_sys.Bookings.Cancellation.{
  cancel_booking_lem, cancelled_db, found, unfound, cancelled_db-IsValid,
}

-- The database carries out every statement of the call.
pub record Runs (c : Call) : Type 0 where
  pub begun : c.begin_fails ≡ none
  pub stated : c.statement_fails ≡ none
  pub logged : c.outbox_fails ≡ none
  pub done : c.commit_reply ≡ committed

-- The result of a cancellation that may be repeated: it is the user's own cancelled booking.
abbrev pub IsSettled : Db → ℕ → ℕ → Booking → Type 0
IsSettled db id user_id b =
    (b.status ≡ cancelled)
    × (b.id ≡ id)
    × (b.user_id ≡ user_id)
    × (find_first (has_id id) db.bookings ≡ some b)
    × (found db id user_id ≡ none)

diagnose-IsSettled :
    (db : Db) (id user_id : ℕ) (b : Booking)
    → IsValid db
    → found db id user_id ≡ none
    → (fails : Option ℕ) → diagnose_cancel_failure db fails id user_id ≡ ok b
    → IsSettled db id user_id b
unfolding diagnose_cancel_failure
diagnose-IsSettled db id user_id b v f fails d =
    let first : (find_first (has_id id) db.bookings ≡ some b) × (b.user_id ≡ user_id) =
      ground arith in
    let named = find_first_passes (has_id id) db.bookings first.0 in
    let gone = find_first-none (can_cancel id user_id) db.bookings f in
    let here = any_of_found (can_cancel id user_id) (has_id id) db.bookings b first.0 in
    (ground (arith, named, gone, here), ground (arith, named), first.1, first.0, f)

commit_settled :
    (db t : Db) (b : Booking) (reply : CommitReply) (db' : Db) (b' : Booking)
    → commit db t b reply ≡ (db', ok b')
    → (t ≡ db') × (b ≡ b')
commit_settled db t b committed db' b' e = (ap (λ r. r.0) e, ground arith)
commit_settled db t b (refused x) db' b' e = cc (ap (λ r. r.1) e)
commit_settled db t b (lost x) db' b' e = cc (ap (λ r. r.1) e)

cancelled_db-IsSettled :
    (db : Db) (id user_id : ℕ) (b : Booking) (row : OutboxRow)
    → IsValid db
    → found db id user_id ≡ some b
    → IsSettled (cancelled_db db id user_id row) id user_id (cancel b)
cancelled_db-IsSettled db id user_id b row v f =
    let passes = find_first_passes (can_cancel id user_id) db.bookings f in
    (
      refl,
      ground (arith, passes),
      ground (arith, passes),
      find_first-update_where (can_cancel id user_id) (has_id id) cancel db.bookings b
          (λ y h. ground (arith, h)) (λ y. refl) (v.keyed id) f,
      none_of_any (can_cancel id user_id) _
          (any-update_where (can_cancel id user_id) cancel db.bookings (λ y. ground arith)),
    )

cancel-IsSettled :
    (db db' : Db) (c : Call) (id user_id : ℕ) (b : Booking)
    → IsValid db
    → cancel_booking db c (λ d. d) id user_id ≡ (db', ok b)
    → IsSettled db' id user_id b
cancel-IsSettled db db' c id user_id b v e = elim (cancel_booking_lem db c (λ d. d) id user_id v) [
  | inl (x, p) ↦ cc (ap (λ r. r.1) (sym p ∙ e))
  | inr (inl (f, p)) ↦
      subst (λ t. IsSettled t id user_id b) (ap (λ r. r.0) (sym p ∙ e))
        (diagnose-IsSettled db id user_id b v f c.outbox_fails (ap (λ r. r.1) (sym p ∙ e)))
  | inr (inr (old, row, f, made, p)) ↦
      let (same_db, same) = commit_settled db _ (cancel old) c.commit_reply db' b (sym p ∙ e) in
      subst (λ t. IsSettled t id user_id b) same_db
        (subst (IsSettled (cancelled_db db id user_id row) id user_id) same
          (cancelled_db-IsSettled db id user_id old row v f))
]

diagnose_of_settled :
    (db : Db) (id user_id : ℕ) (b : Booking)
    → IsSettled db id user_id b
    → diagnose_cancel_failure db none id user_id ≡ ok b
unfolding diagnose_cancel_failure
diagnose_of_settled db id user_id b s = ground (arith, s.2, s.3)

-- A cancellation that succeeds on valid tables answers the user's own booking, cancelled; and the
-- same call again, if the database carries it out, changes nothing, so it logs no second event, and
-- answers the same booking. No other request runs during the two calls or between them.
pub cancel_booking_twice :
    (db db' : Db) (c again : Call) (id user_id : ℕ) (b : Booking)
    → IsValid db
    → cancel_booking db c (λ d. d) id user_id ≡ (db', ok b)
    → Runs again
    → (b.status ≡ cancelled)
      × (b.id ≡ id)
      × (b.user_id ≡ user_id)
      × (cancel_booking db' again (λ d. d) id user_id ≡ (db', ok b))
cancel_booking_twice db db' c again id user_id b v e r =
    let s = cancel-IsSettled db db' c id user_id b v e in
    (
      s.0,
      s.1,
      s.2,
      unfound db' again (λ d. d) id user_id r.begun r.stated s.4
          ∙ rw r.logged (ap (λ x. (db', x)) (diagnose_of_settled db' id user_id b s)),
    )

-- On valid tables the booking of another user cannot be cancelled: if the database carries the call
-- out and no other request runs during it, nothing changes, and the answer is that there is no such
-- booking. It is not `ErrForbidden`, which TestCancelBooking_Forbidden of
-- booking-service/internal/repo/booking/booking_integration_test.go asserts for this call, and for
-- which booking-service/api.yaml has the answer 403.
pub cancel_booking_foreign :
    (db : Db) (c : Call) (id user_id : ℕ) (b : Booking)
    → IsValid db
    → find_first (has_id id) db.bookings ≡ some b
    → b.user_id ≢ user_id
    → Runs c
    → (cancel_booking db c (λ d. d) id user_id ≡ (db, err booking_not_found))
      × ((cancel_booking db c (λ d. d) id user_id).1 ≢ err forbidden)
unfolding diagnose_cancel_failure
cancel_booking_foreign db c id user_id b v h foreign r =
    let answer : cancel_booking db c (λ d. d) id user_id ≡ (db, err booking_not_found) =
      unfound db c (λ d. d) id user_id r.begun r.stated missing ∙ ground (arith, r.logged) in
    (
      answer,
      λ e. let same : refused_answer ≡ err forbidden = sym (ap (λ q. q.1) answer) ∙ e in cc same,
    )
  where
    refused_answer : Result Booking
    refused_answer = err booking_not_found

    missing : found db id user_id ≡ none
    missing = elim (Option-cases (found db id user_id)) [
      | inl e ↦ e
      | inr (x, e) ↦
          let same =
            find_first_unique (can_cancel id user_id) (has_id id) db.bookings x
              (λ y p. ground (arith, p)) (v.keyed id) e in
          let passes = find_first_passes (can_cancel id user_id) db.bookings e in
          absurd (ground (arith, same, passes))
    ]

pub freed :
    (db : Db) (id user_id : ℕ) (b : Booking)
    → IsValid db
    → found db id user_id ≡ some b
    → any (holds_slot b.slot_id) (update_where (can_cancel id user_id) cancel db.bookings) ≡ false
freed db id user_id b v f =
    let p = can_cancel id user_id in
    let q = holds_slot b.slot_id in
    let both = λ (y : Booking). p y && q y in
    let passes = find_first_passes p db.bookings f in
    any_of_count_zero q (update_where p cancel db.bookings) (
      omega (
        arith,
        count_where-update_where_lost p q cancel db.bookings (λ x. refl),
        count_where_pos both db.bookings
            (any_of_found both p db.bookings b f (ground (arith, passes))),
        v.one_active b.slot_id,
      ))

abbrev Bookable : Db → Call → ℕ → ℕ → Type 0
Bookable db c slot_id user_id =
    (any (has_id c.new_id) db.bookings ≡ false)
    × (any (λ o. o.id == c.outbox_id) db.outbox ≡ false)
    × (user_exists db user_id ≡ true)

any-or_false :
    (p q : Booking → Bool) (xs : List Booking)
    → any p xs ≡ false
    → any q xs ≡ false
    → any (λ x. p x || q x) xs ≡ false
any-or_false p q [] h k = refl
any-or_false p q (x ∷ xs) h k = ground (arith, any-or_false p q xs)

rebook :
    (db : Db) (c : Call) (slot_id user_id : ℕ)
    → IsValid db
    → Runs c
    → Bookable db c slot_id user_id
    → any (holds_slot slot_id) db.bookings ≡ false
    → slot_exists db slot_id ≡ true
    → (create_booking db c slot_id user_id).1 ≡ ok (new_booking c slot_id user_id)
rebook db c slot_id user_id v r b h there =
    elim (create_booking_lem db c slot_id user_id v.linked) [
      | inl (e, refusal, p) ↦
          let clear = any-or_false (has_id c.new_id) (holds_slot slot_id) db.bookings b.0 h in
          absurd (ground (arith, refusal, clear, r.begun, r.stated, r.logged))
      | inr (row, made, refusal, p) ↦ rw (p, r.done) refl
    ]

-- A cancelled booking frees its slot: right after the cancellation of an active booking on valid
-- tables, any user of the system can book the slot, if the database carries the call out under new
-- identifiers.
pub create_booking-cancel_booking :
    (db db' : Db) (c next : Call) (id user_id next_user : ℕ) (b b' : Booking)
    → IsValid db
    → find_first (can_cancel id user_id) db.bookings ≡ some b
    → cancel_booking db c (λ d. d) id user_id ≡ (db', ok b')
    → Runs next
    → any (has_id next.new_id) db'.bookings ≡ false
    → any (λ o. o.id == next.outbox_id) db'.outbox ≡ false
    → user_exists db' next_user ≡ true
    → (create_booking db' next b.slot_id next_user).1 ≡ ok (new_booking next b.slot_id next_user)
create_booking-cancel_booking db db' c next id user_id next_user b b' v f e r fresh logged known =
    elim (cancel_booking_lem db c (λ d. d) id user_id v) [
      | inl (x, p) ↦ cc (ap (λ r. r.1) (sym p ∙ e))
      | inr (inl (g, p)) ↦ cc (f, g)
      | inr (inr (old, row, g, made, p)) ↦
          let (same_db, same) =
            commit_settled db _ (cancel old) c.commit_reply db' b' (sym p ∙ e) in
          rebook db' next b.slot_id next_user
            (subst IsValid same_db (cancelled_db-IsValid db c id user_id old row v g made)) r
            (fresh, logged, known)
            (subst (λ (t : Db). any (holds_slot b.slot_id) t.bookings ≡ false) same_db
              (freed db id user_id b v f))
            (subst (λ (t : Db). slot_exists t b.slot_id ≡ true) same_db
              (find_first_All (HasSlot db) (can_cancel id user_id) db.bookings b v.slots_linked f))
    ]
