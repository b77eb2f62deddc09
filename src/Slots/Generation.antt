-- ===== src/Slots/Generation.antt =====
-- The loop of `generateSlots` against a closed form.
use meeting_room_booking_sys.Prelude.{
  ℕ, zero, suc, ◌+◌, ◌-◌, ◌*◌, ◌/◌, ◌≤◌, ◌<◌, ◌≡◌, refl, List, [], ◌∷◌, some, arith, Bool-cases,
  inl, inr, ltb, All, ltb→lt, le_of_ltb, leb, leb→le, lt_of_leb, sym, ◌∙◌, subst,
}
use meeting_room_booking_sys.Model.{Slot, ok}
use meeting_room_booking_sys.Clock.{parse_time}
use meeting_room_booking_sys.Clock.RoundTrip.{parse_time_bounds}
use meeting_room_booking_sys.Slots.{slots_from, make_slot, slot_duration, instant, generate_slots}

-- `n` slots of half an hour, one after the other, from an instant on.
unfoldable pub consecutive : ℕ → (ℕ → ℕ) → ℕ → ℕ → ℕ → List Slot
consecutive zero new_id i room_id start = []
consecutive (suc n) new_id i room_id start =
    make_slot new_id i room_id start ∷ consecutive n new_id (suc i) room_id (start + slot_duration)

slots_from-consecutive :
    (fuel : ℕ) (new_id : ℕ → ℕ) (i room_id cur window_end : ℕ)
    → (window_end - cur) / slot_duration < fuel
    → slots_from fuel new_id i room_id cur window_end
      ≡ some (consecutive ((window_end - cur) / slot_duration) new_id i room_id cur)
unfolding slots_from consecutive
slots_from-consecutive zero new_id i room_id cur window_end h = elim h [ ]
slots_from-consecutive (suc fuel) new_id i room_id cur window_end h =
    elim (Bool-cases (ltb window_end (cur + slot_duration))) [
      | inl over ↦
          let none_left : (window_end - cur) / slot_duration ≡ 0 =
            omega (arith, ltb→lt window_end (cur + slot_duration) over) in
          rw (over, none_left) refl
      | inr fits ↦
          let room_left = le_of_ltb window_end (cur + slot_duration) fits in
          let one_more : (window_end - cur) / slot_duration
              ≡ suc ((window_end - (cur + slot_duration)) / slot_duration) =
            omega (arith, room_left) in
          let tail =
            slots_from-consecutive fuel new_id (suc i) room_id (cur + slot_duration) window_end
              (omega (arith, one_more)) in
          rw (fits, one_more, tail) refl
    ]

-- The number of whole half hours between two times of a day.
abbrev pub half_hours : ℕ × ℕ → ℕ × ℕ → ℕ
half_hours (h, m) (k, l) = (k * 60 + l - (h * 60 + m)) / 30

half_hours_window :
    (date : ℕ) (s e : ℕ × ℕ) → (instant date e - instant date s) / slot_duration ≡ half_hours s e
half_hours_window date (h, m) (k, l) = omega arith

half_hours_fit : (s e : ℕ × ℕ) → (e.0 < 24) × (e.1 < 60) → half_hours s e < 49
half_hours_fit (h, m) (k, l) bounds = omega arith

-- For two texts that parse, `generateSlots` ends and returns exactly the whole half hours of the
-- window, one after the other from the opening time of the date, none if the window closes first.
pub generate_slots_lem :
    (new_id : ℕ → ℕ) (room_id date : ℕ) (start_time end_time : List ℕ) (s e : ℕ × ℕ)
    → parse_time start_time ≡ some s
    → parse_time end_time ≡ some e
    → generate_slots new_id room_id date start_time end_time
      ≡ ok (consecutive (half_hours s e) new_id 0 room_id (instant date s))
unfolding generate_slots
generate_slots_lem new_id room_id date start_time end_time s e p q =
    let n = half_hours_window date s e in
    let fits = half_hours_fit s e (parse_time_bounds end_time e.0 e.1 q) in
    rw
      (
        p,
        q,
        slots_from-consecutive 49 new_id 0 room_id (instant date s) (instant date e)
            (omega (arith, n, fits)),
        n,
      )
      refl

consecutive_within :
    (n : ℕ) (new_id : ℕ → ℕ) (i room_id start low high : ℕ)
    → low ≤ start
    → start + n * slot_duration ≤ high
    → All
        (λ (s : Slot).
          (s.room_id ≡ room_id)
          × (low ≤ s.start_at)
          × (s.end_at ≡ s.start_at + slot_duration)
          × (s.end_at ≤ high))
        (consecutive n new_id i room_id start)
unfolding consecutive
consecutive_within zero new_id i room_id start low high h k = tt
consecutive_within (suc n) new_id i room_id start low high h k = (
  (refl, h, refl, omega arith),
  consecutive_within n new_id (suc i) room_id (start + slot_duration) low high (omega arith)
      (omega arith),
)

-- For two texts that parse, every generated slot is half an hour of the room that lies in the window
-- of the date.
pub generate_slots_within :
    (new_id : ℕ → ℕ) (room_id date : ℕ) (start_time end_time : List ℕ) (s e : ℕ × ℕ)
    (slots : List Slot)
    → parse_time start_time ≡ some s
    → parse_time end_time ≡ some e
    → generate_slots new_id room_id date start_time end_time ≡ ok slots
    → All
        (λ (t : Slot).
          (t.room_id ≡ room_id)
          × (instant date s ≤ t.start_at)
          × (t.end_at ≡ t.start_at + slot_duration)
          × (t.end_at ≤ instant date e))
        slots
generate_slots_within new_id room_id date start_time end_time s e slots p q h =
    elim (Bool-cases (leb (instant date s) (instant date e))) [
      | inl opens ↦
          let before = leb→le (instant date s) (instant date e) opens in
          subst (All _) listed (
            consecutive_within (half_hours s e) new_id 0 room_id (instant date s) (instant date s)
              (instant date e) (omega arith) (omega (arith, before)))
      | inr closed ↦
          let after = lt_of_leb (instant date s) (instant date e) closed in
          let nothing : half_hours s e ≡ 0 = omega (arith, after) in
          subst (All _) listed (rw nothing (unfold consecutive in tt))
    ]
  where
    same : ok (consecutive (half_hours s e) new_id 0 room_id (instant date s)) ≡ ok slots
    same = sym (generate_slots_lem new_id room_id date start_time end_time s e p q) ∙ h

    listed : consecutive (half_hours s e) new_id 0 room_id (instant date s) ≡ slots
    listed = cc same
