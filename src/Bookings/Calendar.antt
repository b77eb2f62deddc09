-- ===== src/Bookings/Calendar.antt =====
-- The abstract view of the bookings: a calendar that says who holds each slot.
use meeting_room_booking_sys.Prelude.{
  ℕ, true, false, ◌≡◌, ◌≢◌, inl, inr, refl, sym, ap, ◌∙◌, subst, arith, List, [], ◌∷◌, Option, none,
  some, any, All, All-imp, unique_All, find_first-update_other, find_first_shared, find_first,
  find_first-append, find_first-append_other, find_first_passes, none_of_any, update_where, ◌==◌,
  if◌then◌else◌, Bool-cases, ==_iff, any-or,
}
use meeting_room_booking_sys.Model.{Booking}
use meeting_room_booking_sys.Database.{Db, OutboxRow, committed, refused, lost, CommitReply, commit}
use meeting_room_booking_sys.Bookings.{
  Call, has_id, holds_slot, can_cancel, cancel, cancel_booking, new_booking, create_booking,
}
use meeting_room_booking_sys.Bookings.Validity.{IsValid}
use meeting_room_booking_sys.Bookings.Creation.{
  create_booking_lem, create_booking-IsValid, create_refusal, created, is_conflict,
}
use meeting_room_booking_sys.Bookings.Cancellation.{
  cancel_booking_lem, cancel_booking-IsValid, cancelled_db, found,
}
use meeting_room_booking_sys.Bookings.Freeing.{freed}

abbrev pub user_of : Option Booking → Option ℕ
user_of none = none
user_of (some b) = some b.user_id

-- The user whose active booking holds the slot.
abbrev pub holder : Db → ℕ → Option ℕ
holder db slot_id = user_of (find_first (holds_slot slot_id) db.bookings)

-- What one call of a user may do to a calendar: nothing, take a free slot, or give a slot of the
-- user's own back.
pub data Step (user_id : ℕ) (before after : ℕ → Option ℕ) : Type 0 where
  idle : ((slot : ℕ) → after slot ≡ before slot) → Step user_id before after
  take_slot :
      (s : ℕ)
      → before s ≡ none
      → ((slot : ℕ) → after slot ≡ (if slot == s then some user_id else before slot))
      → Step user_id before after
  give_back :
      (s : ℕ)
      → before s ≡ some user_id
      → ((slot : ℕ) → after slot ≡ (if slot == s then none else before slot))
      → Step user_id before after

pub holder-created :
    (db : Db) (c : Call) (slot_id user_id : ℕ) (row : OutboxRow)
    → any (holds_slot slot_id) db.bookings ≡ false
    → (slot : ℕ)
    → holder (created db c slot_id user_id row) slot
      ≡ (if slot == slot_id then some user_id else holder db slot)
holder-created db c slot_id user_id row free slot = elim (Bool-cases (slot == slot_id)) [
  | inl same ↦
      let e = (==_iff slot slot_id).0 same in
      rw same (
        ap user_of (
          find_first-append (holds_slot slot) db.bookings (new_booking c slot_id user_id)
            (subst (λ s. any (holds_slot s) db.bookings ≡ false) (sym e) free) (ground arith)))
  | inr other ↦ rw other (
      ap user_of (
        find_first-append_other (holds_slot slot) db.bookings (new_booking c slot_id user_id)
          (ground arith)))
]

-- The slot of a new booking was free.
pub refusal_free :
    (db : Db) (c : Call) (slot_id user_id : ℕ)
    → create_refusal db c slot_id user_id ≡ none
    → any (holds_slot slot_id) db.bookings ≡ false
refusal_free db c slot_id user_id r =
    let clear : any (is_conflict c slot_id) db.bookings ≡ false = ground arith in
    (any-or (has_id c.new_id) (holds_slot slot_id) db.bookings clear).1

apart :
    (slot : ℕ) (y b : Booking)
    → y ≡ b
    → (slot == b.slot_id) ≡ false
    → (holds_slot slot y ≡ false) × (holds_slot slot (cancel y) ≡ false)
apart slot y b same e =
    let there : y.slot_id ≡ b.slot_id = ap (λ (z : Booking). z.slot_id) same in
    ground (arith, there, e)

-- After a cancellation nobody holds the slot of the booking, and the other slots have the holders
-- that they had.
pub holder-cancelled_db :
    (db : Db) (id user_id : ℕ) (b : Booking) (row : OutboxRow)
    → IsValid db
    → found db id user_id ≡ some b
    → (slot : ℕ)
    → holder (cancelled_db db id user_id row) slot
      ≡ (if slot == b.slot_id then none else holder db slot)
holder-cancelled_db db id user_id b row v f slot = elim (Bool-cases (slot == b.slot_id)) [
  | inl same ↦
      let e = (==_iff slot b.slot_id).0 same in
      rw same (
        ap user_of (
          none_of_any (holds_slot slot) (update_where (can_cancel id user_id) cancel db.bookings) (
            subst
              (λ s.
                any (holds_slot s) (update_where (can_cancel id user_id) cancel db.bookings)
                ≡ false)
              (sym e) (freed db id user_id b v f))))
  | inr other_slot ↦ rw other_slot (
      ap user_of (
        find_first-update_other (can_cancel id user_id) (holds_slot slot) cancel db.bookings (
          All-imp db.bookings (λ y same e. apart slot y b (same e) other_slot)
            (unique_All (can_cancel id user_id) (has_id id) db.bookings b (λ y h. ground (arith, h))
              (v.keyed id) f))))
]

-- The user who may cancel a booking holds its slot.
cancelled_before :
    (db : Db) (id user_id : ℕ) (b : Booking)
    → IsValid db
    → found db id user_id ≡ some b
    → holder db b.slot_id ≡ some user_id
cancelled_before db id user_id b v f =
    let passes = find_first_passes (can_cancel id user_id) db.bookings f in
    let here : holds_slot b.slot_id b ≡ true = ground (arith, passes) in
    let named : b.user_id ≡ user_id = ground (arith, passes) in
    ap user_of (
      find_first_shared (can_cancel id user_id) (holds_slot b.slot_id) db.bookings b
        (v.one_active b.slot_id) here f)
    ∙ ap some named

committed-Step :
    (db t : Db) (b : Booking) (user_id : ℕ) (reply : CommitReply)
    → Step user_id (holder db) (holder t)
    → Step user_id (holder db) (holder (commit db t b reply).0)
committed-Step db t b user_id committed h = h
committed-Step db t b user_id (refused e) h = idle (λ slot. refl)
committed-Step db t b user_id (lost e) h = h

-- A cancellation that reaches its commit gives back a slot of the user, or does nothing.
pub cancelled-Step :
    (db : Db) (reply : CommitReply) (id user_id : ℕ) (b : Booking) (row : OutboxRow)
    → IsValid db
    → found db id user_id ≡ some b
    → Step user_id
        (holder db)
        (holder (commit db (cancelled_db db id user_id row) (cancel b) reply).0)
cancelled-Step db reply id user_id b row v f = committed-Step db _ _ user_id reply (
    give_back b.slot_id (cancelled_before db id user_id b v f)
      (holder-cancelled_db db id user_id b row v f))

-- One request that writes bookings; no other request runs during it.
pub data Request : Type 0 where
  create_request : Call → ℕ → Request
  cancel_request : Call → ℕ → Request

unfoldable pub serve : Db → ℕ → Request → Db
unfolding create_booking cancel_booking
serve db user_id (create_request c slot_id) = (create_booking db c slot_id user_id).0
serve db user_id (cancel_request c id) = (cancel_booking db c (λ d. d) id user_id).0

moved :
    {t u : Db} (db : Db) (user_id : ℕ)
    → t ≡ u
    → Step user_id (holder db) (holder u)
    → Step user_id (holder db) (holder t)
moved db user_id e h = subst (λ x. Step user_id (holder db) (holder x)) (sym e) h

-- On valid tables one request of a user does to the calendar at most one of two things, whatever
-- fails and however the commit ends: it gives a slot that nobody held to the user, or it takes from
-- the user a slot that the user held. The holder of every other slot stays.
pub serve-Step :
    (db : Db) (user_id : ℕ) (r : Request)
    → IsValid db
    → Step user_id (holder db) (holder (serve db user_id r))
unfolding serve
serve-Step db user_id (create_request c slot_id) v =
    elim (create_booking_lem db c slot_id user_id v.linked) [
      | inl (e, r, p) ↦ moved db user_id (ap (λ q. q.0) p) (idle (λ slot. refl))
      | inr (row, made, r, p) ↦
          let free = refusal_free db c slot_id user_id r in
          moved db user_id (ap (λ q. q.0) p) (
            committed-Step db _ _ user_id c.commit_reply (
              take_slot slot_id (ap user_of (none_of_any (holds_slot slot_id) db.bookings free))
                (holder-created db c slot_id user_id row free)))
    ]
serve-Step db user_id (cancel_request c id) v =
    elim (cancel_booking_lem db c (λ d. d) id user_id v) [
      | inl (e, p) ↦ moved db user_id (ap (λ q. q.0) p) (idle (λ slot. refl))
      | inr (inl (f, p)) ↦ moved db user_id (ap (λ q. q.0) p) (idle (λ slot. refl))
      | inr (inr (b, row, f, made, p)) ↦
          moved db user_id (ap (λ q. q.0) p) (cancelled-Step db c.commit_reply id user_id b row v f)
    ]

serve-IsValid : (db : Db) (user_id : ℕ) (r : Request) → IsValid db → IsValid (serve db user_id r)
unfolding serve
serve-IsValid db user_id (create_request c slot_id) v =
    create_booking-IsValid db c slot_id user_id v
serve-IsValid db user_id (cancel_request c id) v =
    cancel_booking-IsValid db c (λ d. d) id user_id v v

-- Requests of several users, one after another.
unfoldable pub serve_all : Db → List (ℕ × Request) → Db
unfolding serve
serve_all db [] = db
serve_all db ((user_id, r) ∷ rs) = serve_all (serve db user_id r) rs

pub Step-keeps :
    (before after : ℕ → Option ℕ) (user_id owner slot : ℕ)
    → Step user_id before after
    → user_id ≢ owner
    → before slot ≡ some owner
    → after slot ≡ some owner
Step-keeps before after user_id owner slot (idle same) foreign h = same slot ∙ h
Step-keeps before after user_id owner slot (take_slot s free e) foreign h =
    elim (Bool-cases (slot == s)) [
      | inl same ↦ let here = (==_iff slot s).0 same in cc
      | inr apart_from ↦ e slot ∙ rw apart_from h
    ]
Step-keeps before after user_id owner slot (give_back s held e) foreign h =
    elim (Bool-cases (slot == s)) [
      | inl same ↦
          let here = (==_iff slot s).0 same in
          let owners : some user_id ≡ some owner = sym held ∙ ap before (sym here) ∙ h in
          absurd (foreign cc)
      | inr apart_from ↦ e slot ∙ rw apart_from h
    ]

abbrev pub FromOthers : ℕ → List (ℕ × Request) → Type 0
FromOthers owner rs = All (λ r. r.0 ≢ owner) rs

-- On valid tables the requests of other users, any number of them in any order and with any
-- failures, never take a slot from the user who holds it.
pub holder-serve_all :
    (db : Db) (rs : List (ℕ × Request)) (owner slot : ℕ)
    → IsValid db
    → FromOthers owner rs
    → holder db slot ≡ some owner
    → holder (serve_all db rs) slot ≡ some owner
unfolding serve_all
holder-serve_all db [] owner slot v others h = h
holder-serve_all db ((user_id, r) ∷ rs) owner slot v others h =
    holder-serve_all (serve db user_id r) rs owner slot (serve-IsValid db user_id r v) others.1
      (Step-keeps (holder db) _ user_id owner slot (serve-Step db user_id r v) others.0 h)
