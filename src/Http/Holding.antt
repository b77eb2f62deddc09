-- ===== src/Http/Holding.antt =====
-- What a user holds, the requests of others do not take away.
use Prim.Native.String.{String}
use meeting_room_booking_sys.Prelude.{
  ℕ, Bool, ◌≡◌, ◌≢◌, refl, ap, ◌∙◌, inl, inr, All, List, [], ◌∷◌, some, Bool-cases, find_first,
  update_where,
}
use meeting_room_booking_sys.Model.{Booking}
use meeting_room_booking_sys.Database.{Db, CommitReply, committed, refused, lost}
use meeting_room_booking_sys.Database.Sorting.{Order}
use meeting_room_booking_sys.Bookings.{
  Call, has_id, holds_slot, link, create_booking, cancel_booking, update_conference_link,
}
use meeting_room_booking_sys.Bookings.Validity.{IsValid}
use meeting_room_booking_sys.Bookings.Cancellation.{cancel_booking_lem}
use meeting_room_booking_sys.Bookings.Calendar.{
  holder, user_of, create_request, serve, serve-Step, cancelled-Step, Step-keeps,
}
use meeting_room_booking_sys.Slots.{ensure_slots}
use meeting_room_booking_sys.Slots.Storage.{bookings-ensure_slots}
use meeting_room_booking_sys.Rooms.{create_room}
use meeting_room_booking_sys.Rooms.Storage.{bookings-create_room}
use meeting_room_booking_sys.Accounts.{Crypto}
use meeting_room_booking_sys.Http.Params.{Library}
use meeting_room_booking_sys.Http.Router.{AnyRequest, route_all}
use meeting_room_booking_sys.Http.Preservation.Writes.{KeptByWrites, AllKeep, OfKnown}
use meeting_room_booking_sys.Http.Preservation.{route_all-Preserves}
use meeting_room_booking_sys.Http.Invariance.{IsValid-KeptByWrites}

holder-link :
    (slot id : ℕ) (l : String) (bs : List Booking)
    → user_of (find_first (holds_slot slot) (update_where (has_id id) (link l) bs))
      ≡ user_of (find_first (holds_slot slot) bs)
holder-link slot id l [] = refl
holder-link slot id l (b ∷ bs) =
    let rest = holder-link slot id l bs in
    elim (Bool-cases (has_id id b)) [
      | inl named ↦ rw named (elim (Bool-cases (holds_slot slot b)) [
        | inl held ↦ rw held refl
        | inr free ↦ rw free rest
      ])
      | inr other ↦ rw other (elim (Bool-cases (holds_slot slot b)) [
        | inl held ↦ rw held refl
        | inr free ↦ rw free rest
      ])
    ]

module _ (owner slot : ℕ) where
  -- The tables are valid, and the owner has the active booking of the slot.
  abbrev pub Held : Db → Type 0
  Held db = IsValid db × (holder db slot ≡ some owner)

  abbrev pub Other : ℕ → Type 0
  Other user_id = user_id ≢ owner

  cancel_booking-Held :
      (db : Db) (c : Call) (later : Db → Db) (id user_id : ℕ)
      → Other user_id
      → Held db
      → Held (later db)
      → Held (cancel_booking db c later id user_id).0
  cancel_booking-Held db c later id user_id foreign (v, h) (w, k) = (
    IsValid-KeptByWrites.cancelling db c later id user_id tt v w,
    elim (cancel_booking_lem db c later id user_id v) [
      | inl (e, p) ↦ rw p h
      | inr (inl (f, p)) ↦ rw p k
      | inr (inr (b, row, f, made, p)) ↦ rw p (
          Step-keeps _ _ user_id owner slot (cancelled-Step db c.commit_reply id user_id b row v f)
            foreign h)
    ],
  )

  create_booking-Held :
      (db : Db) (c : Call) (slot_id user_id : ℕ)
      → Other user_id
      → Held db
      → Held (create_booking db c slot_id user_id).0
  unfolding serve
  create_booking-Held db c slot_id user_id foreign (v, h) = (
    IsValid-KeptByWrites.booking db c slot_id user_id tt v,
    Step-keeps _ _ user_id owner slot
        (unfold serve in serve-Step db user_id (create_request c slot_id) v) foreign h,
  )

  link-Held :
      (db : Db) (reply : CommitReply) (id : ℕ) (l : String)
      → Held db
      → holder (update_conference_link db reply id l).0 slot ≡ some owner
  unfolding update_conference_link
  link-Held db (refused e) id l (v, h) = h
  link-Held db (lost e) id l (v, h) = holder-link slot id l db.bookings ∙ h
  link-Held db committed id l (v, h) = holder-link slot id l db.bookings ∙ h

  same_bookings : (db t : Db) → t.bookings ≡ db.bookings → Held db → holder t slot ≡ some owner
  same_bookings db t e (v, h) = ap (λ bs. user_of (find_first (holds_slot slot) bs)) e ∙ h

  Held-KeptByWrites : KeptByWrites Held Other
  Held-KeptByWrites = record {
    booking = create_booking-Held;
    cancelling = cancel_booking-Held;
    linking =
        λ d fails id l h. (IsValid-KeptByWrites.linking d fails id l h.0, link-Held d fails id l h);
    ensuring = λ d fails slots h. (
      IsValid-KeptByWrites.ensuring d fails slots h.0,
      same_bookings d (ensure_slots d fails slots).0 (bookings-ensure_slots d fails slots) h,
    );
    rooming = λ d c name description capacity h. (
      IsValid-KeptByWrites.rooming d c name description capacity h.0,
      same_bookings d (create_room d c name description capacity).0
          (bookings-create_room d c name description capacity) h,
    );
    others = λ d us ss h. (IsValid-KeptByWrites.others d us ss h.0, h.1);
  }

  -- On valid tables a slot that a user holds with an active booking stays the user's, whatever
  -- requests come to whatever routes and whatever fails, if none of them has a token of the user and
  -- what others do to the tables during a request leaves them valid and the slot the user's.
  pub route_all-Held :
      (lib : Library) (crypto : Crypto) (is_address : String → Bool) (order : Order) (db : Db)
      (rs : List AnyRequest)
      → All (OfKnown Other lib) rs
      → All (AllKeep Held) rs
      → Held db
      → Held (route_all lib crypto is_address order db rs)
  route_all-Held = route_all-Preserves Held Other Held-KeptByWrites
