-- ===== src/Slots/Storage.antt =====
-- `EnsureSlots`: what it adds, that it can be repeated, and the invariant of the tables.
use meeting_room_booking_sys.Prelude.{
  ℕ, zero, suc, ◌+◌, ◌≤◌, ◌<◌, ◌≡◌, refl, sym, ap, ◌∙◌, List, [], ◌∷◌, ◌++◌, arith, Bool,
  Bool-cases, inl, inr, ◌⊎◌, any, any-append, All, All-imp, All-append, length, drop, count_where,
  count_where-append, count_where_zero, ◌==◌, true, false, subst,
}
use mathlib.Core.List.{append_assoc, append-nil}
use meeting_room_booking_sys.Model.{Slot, Result, ok, err, >>=-ok}
use meeting_room_booking_sys.Database.{Db, CommitReply, committed}
use meeting_room_booking_sys.Database.Commits.{autocommit_keeps, transaction_ok}
use meeting_room_booking_sys.Bookings.Events.{HasRoom}
use meeting_room_booking_sys.Bookings.Validity.{IsValid}
use meeting_room_booking_sys.Slots.{
  slot_duration, same_place, ensure_row, ensure_rows, ensure_slots, checked, written, rooms_known,
}
use meeting_room_booking_sys.Slots.Generation.{consecutive}

abbrev IsPlaced : List Slot → Slot → Type 0
IsPlaced table s = (any (same_place s) table ≡ true) × (s.start_at < s.end_at)

abbrev has_slot_id : ℕ → Slot → Bool
has_slot_id id s = s.id == id

-- What one accepted row does to the table.
abbrev RowAdded : List Slot → Slot → List Slot → Type 0
RowAdded table s t =
    (s.start_at < s.end_at)
    × (((any (same_place s) table ≡ true) × (t ≡ table))
        ⊎ ((any (same_place s) table ≡ false)
            × (any (has_slot_id s.id) table ≡ false)
            × (t ≡ table ++ s ∷ [])))

ensure_row-RowAdded :
    (table : List Slot) (s : Slot) (t : List Slot) → ensure_row table s ≡ ok t → RowAdded table s t
unfolding ensure_row
ensure_row-RowAdded table s t h = ground arith

module _ (P : List Slot → Type 0)
    (kept : (table : List Slot) (s : Slot) (t : List Slot)
      → RowAdded table s t
      → P table
      → P t) where
  ensure_rows_inv : (table slots t : List Slot) → P table → ensure_rows table slots ≡ ok t → P t
  unfolding ensure_rows
  ensure_rows_inv table [] t p h = subst P (cc h) p
  ensure_rows_inv table (s ∷ slots) t p h =
      let (u, e, r) = >>=-ok (λ u. ensure_rows u slots) (ensure_row table s) _ h in
      ensure_rows_inv u slots t (kept table s u (ensure_row-RowAdded table s u e) p) r

abbrev Extends : List Slot → List Slot → Type 0
Extends base t = (extra : List Slot) × (t ≡ base ++ extra)

RowAdded-Extends :
    (base table : List Slot) (s : Slot) (t : List Slot)
    → RowAdded table s t
    → Extends base table
    → Extends base t
RowAdded-Extends base table s t (lt, inl (p, e)) (extra, x) = (extra, e ∙ x)
RowAdded-Extends base table s t (lt, inr (p, q, e)) (extra, x) =
    (extra ++ s ∷ [], e ∙ rw x (append_assoc base extra (s ∷ [])))

-- The rows of the table stay, in their order.
ensure_rows-Extends : (table slots t : List Slot) → ensure_rows table slots ≡ ok t → Extends table t
ensure_rows-Extends table slots t h =
    ensure_rows_inv (Extends table) (RowAdded-Extends table) table slots t
      ([], sym (append-nil table)) h

any-Extends :
    (p : Slot → Bool) (base t : List Slot) → Extends base t → any p base ≡ true → any p t ≡ true
any-Extends p base t (extra, e) h = rw (e, any-append p base extra, h) refl

IsPlaced-added : (table : List Slot) (s : Slot) (t : List Slot) → RowAdded table s t → IsPlaced t s
IsPlaced-added table s t (lt, inl (p, e)) = (rw e p, lt)
IsPlaced-added table s t (lt, inr (p, q, e)) =
    (rw (e, any-append (same_place s) table (s ∷ []), p) (ground arith), lt)

ensure_rows-IsPlaced :
    (table slots t : List Slot) → ensure_rows table slots ≡ ok t → All (IsPlaced t) slots
unfolding ensure_rows
ensure_rows-IsPlaced table [] t h = tt
ensure_rows-IsPlaced table (s ∷ slots) t h =
    let (u, e, r) = >>=-ok (λ u. ensure_rows u slots) (ensure_row table s) _ h in
    let placed = IsPlaced-added table s u (ensure_row-RowAdded table s u e) in
    (
      (any-Extends (same_place s) u t (ensure_rows-Extends u slots t r) placed.0, placed.1),
      ensure_rows-IsPlaced u slots t r,
    )

ensure_row_placed :
    (table : List Slot) (s : Slot) → IsPlaced table s → ensure_row table s ≡ ok table
unfolding ensure_row
ensure_row_placed table s (p, lt) = ground arith

ensure_rows_placed :
    (table slots : List Slot) → All (IsPlaced table) slots → ensure_rows table slots ≡ ok table
unfolding ensure_rows
ensure_rows_placed table [] h = refl
ensure_rows_placed table (s ∷ slots) h =
    rw (ensure_row_placed table s h.0) (ensure_rows_placed table slots h.1)

-- What a place needs has nothing to do with the identifier of the slot.
consecutive-IsPlaced :
    (table : List Slot) (n : ℕ) (f g : ℕ → ℕ) (i room_id start : ℕ)
    → All (IsPlaced table) (consecutive n f i room_id start)
    → All (IsPlaced table) (consecutive n g i room_id start)
unfolding consecutive
consecutive-IsPlaced table zero f g i room_id start h = tt
consecutive-IsPlaced table (suc n) f g i room_id start h =
    (h.0, consecutive-IsPlaced table n f g (suc i) room_id (start + slot_duration) h.1)

abbrev Stored : Db → Db → Result (List Slot) → Type 0
Stored db db' r =
    (t : List Slot) × (r ≡ ok t)
    × (rooms_known db (written db.slots t) ≡ true)
    × (db' ≡ record db { slots = t })

checked_ok : (db db' : Db) (r : Result (List Slot)) → checked db r ≡ ok (db', tt) → Stored db db' r
checked_ok db db' (err e) h = cc
checked_ok db db' (ok t) h = elim (Bool-cases (rooms_known db (written db.slots t))) [
  | inl known ↦ (t, refl, known, ground (arith, known))
  | inr unknown ↦ absurd (ground (arith, unknown))
]

drop-length {ℓ} : {A : Type ℓ} (xs : List A) → drop (length xs) xs ≡ []
drop-length [] = refl
drop-length (x ∷ xs) = drop-length xs

drop-append {ℓ} : {A : Type ℓ} (xs ys : List A) → drop (length xs) (xs ++ ys) ≡ ys
drop-append [] ys = refl
drop-append (x ∷ xs) ys = drop-append xs ys

ensure_again :
    (db : Db) (t : List Slot) (s : Slot) (slots : List Slot)
    → All (IsPlaced t) (s ∷ slots)
    → ensure_slots (record db { slots = t }) committed (s ∷ slots)
      ≡ (record db { slots = t }, ok tt)
unfolding ensure_slots
ensure_again db t s slots placed = rw (ensure_rows_placed t (s ∷ slots) placed, drop-length t) refl

-- When the slots of a window were ensured, ensuring the slots of the same window again, under
-- whatever new identifiers, changes nothing and succeeds, if the statement does not fail.
pub ensure_slots_twice :
    (db db' : Db) (n : ℕ) (f g : ℕ → ℕ) (room_id start : ℕ)
    → ensure_slots db committed (consecutive n f 0 room_id start) ≡ (db', ok tt)
    → ensure_slots db' committed (consecutive n g 0 room_id start) ≡ (db', ok tt)
unfolding ensure_slots consecutive
ensure_slots_twice db db' zero f g room_id start h = refl
ensure_slots_twice db db' (suc n) f g room_id start h =
    let slots = consecutive (suc n) f 0 room_id start in
    let (t, e, known, same) =
      checked_ok db db' (ensure_rows db.slots slots) (transaction_ok db db' _ committed tt h) in
    let placed =
      consecutive-IsPlaced t (suc n) f g 0 room_id start
        (ensure_rows-IsPlaced db.slots slots t e) in
    subst (λ d. ensure_slots d committed (consecutive (suc n) g 0 room_id start) ≡ (d, ok tt))
      (sym same) (ensure_again db t _ _ placed)

rooms_of_known :
    (db : Db) (slots : List Slot) → rooms_known db slots ≡ true → All (HasRoom db) slots
rooms_of_known db [] h = tt
rooms_of_known db (s ∷ slots) h = (ground arith, rooms_of_known db slots (ground arith))

rooms_of_written :
    (db : Db) (t : List Slot)
    → Extends db.slots t
    → rooms_known db (written db.slots t) ≡ true
    → All (HasRoom db) db.slots
    → All (HasRoom db) t
rooms_of_written db t (extra, e) h old =
    let new : written db.slots t ≡ extra = ap (written db.slots) e ∙ drop-append db.slots extra in
    subst (All (HasRoom db)) (sym e) (
      All-append (HasRoom db) db.slots extra old
        (rooms_of_known db extra (subst (λ x. rooms_known db x ≡ true) new h)))

abbrev IsKeyed : List Slot → Type 0
IsKeyed table = (id : ℕ) → count_where (has_slot_id id) table ≤ 1

RowAdded-IsKeyed :
    (table : List Slot) (s : Slot) (t : List Slot) → RowAdded table s t → IsKeyed table → IsKeyed t
RowAdded-IsKeyed table s t (lt, inl (p, e)) k id = rw e (k id)
RowAdded-IsKeyed table s t (lt, inr (p, q, e)) k id = rw e (
    ground (
      arith,
      k id,
      count_where-append (has_slot_id id) table (s ∷ []),
      count_where_zero (has_slot_id s.id) table q,
    ))

stored-IsValid :
    (db : Db) (t : List Slot)
    → IsValid db
    → rooms_known db (written db.slots t) ≡ true
    → Extends db.slots t
    → IsKeyed t
    → IsValid (record db { slots = t })
stored-IsValid db t v known more keyed = record {
  linked = record {
    slots_keyed = keyed;
    rooms_keyed = v.linked.rooms_keyed;
    rooms_linked = rooms_of_written db t more known v.linked.rooms_linked;
  };
  one_active = v.one_active;
  keyed = v.keyed;
  slots_linked =
      All-imp db.bookings (λ b. any-Extends (λ s. s.id == b.slot_id) db.slots t more)
        v.slots_linked;
  created_logged = v.created_logged;
  cancelled_logged = v.cancelled_logged;
}

checked-IsValid :
    (db : Db) (slots : List Slot) (t : Db)
    → IsValid db
    → checked db (ensure_rows db.slots slots) ≡ ok (t, tt)
    → IsValid t
checked-IsValid db slots t v h =
    let (table, e, known, same) = checked_ok db t (ensure_rows db.slots slots) h in
    subst IsValid (sym same) (
      stored-IsValid db table v known (ensure_rows-Extends db.slots slots table e)
        (ensure_rows_inv IsKeyed RowAdded-IsKeyed db.slots slots table v.linked.slots_keyed e))

-- `EnsureSlots` keeps the invariant of the tables, whatever slots it is given.
pub ensure_slots-IsValid :
    (db : Db) (reply : CommitReply) (slots : List Slot)
    → IsValid db
    → IsValid (ensure_slots db reply slots).0
unfolding ensure_slots
ensure_slots-IsValid db reply [] v = v
ensure_slots-IsValid db reply (s ∷ slots) v =
    autocommit_keeps IsValid db (checked db (ensure_rows db.slots (s ∷ slots))) reply v
      (λ t u e. checked-IsValid db (s ∷ slots) t v e)

-- It leaves the bookings alone.
pub bookings-ensure_slots :
    (db : Db) (reply : CommitReply) (slots : List Slot)
    → (ensure_slots db reply slots).0.bookings ≡ db.bookings
unfolding ensure_slots
bookings-ensure_slots db reply [] = refl
bookings-ensure_slots db reply (s ∷ slots) =
    autocommit_keeps (λ t. t.bookings ≡ db.bookings) db
      (checked db (ensure_rows db.slots (s ∷ slots))) reply refl
      (λ t u e.
        let (table, r, known, same) = checked_ok db t (ensure_rows db.slots (s ∷ slots)) e in
        ap (λ d. d.bookings) same)
