-- ===== src/Config/Brokers.antt =====
-- The lists of brokers that the two services read from one variable.
use meeting_room_booking_sys.Prelude.{
  ℕ, zero, suc, ◌≡◌, ◌==◌, refl, ap, ap₂, ◌∙◌, arith, Bool, false, any, All, List, [], ◌∷◌, ◌++◌,
  map,
}
use meeting_room_booking_sys.Config.{
  Text, BookingConfig, NotificationConfig, comma, split, trim_left, trim_space, booking_brokers,
  kafka_brokers_list,
}

abbrev has_comma : Text → Bool
has_comma text = any (λ c. c == comma) text

-- The address of a broker: no comma, and no white space at its ends.
abbrev pub IsAddress : Text → Type 0
IsAddress x = (any (λ c. c == comma) x ≡ false) × (trim_space x ≡ x)

abbrev pub pad : ℕ → Text → Text
pad zero text = text
pad (suc n) text = 32 ∷ pad n text

abbrev pub join : Text → List Text → Text
join x [] = x
join x (y ∷ ys) = x ++ comma ∷ join y ys

split_last : (x : Text) → has_comma x ≡ false → split comma x ≡ x ∷ []
unfolding split
split_last [] h = refl
split_last (c ∷ x) h =
    let parts : ((c == comma) ≡ false) × (has_comma x ≡ false) = ground arith in
    rw parts.0 (rw (split_last x parts.1) refl)

split_field :
    (x rest : Text) → has_comma x ≡ false → split comma (x ++ comma ∷ rest) ≡ x ∷ split comma rest
unfolding split
split_field [] rest h = refl
split_field (c ∷ x) rest h =
    let parts : ((c == comma) ≡ false) × (has_comma x ≡ false) = ground arith in
    rw parts.0 (rw (split_field x rest parts.1) refl)

split-join :
    (x : Text) (ys : List Text)
    → has_comma x ≡ false
    → All (λ y. has_comma y ≡ false) ys
    → split comma (join x ys) ≡ x ∷ ys
split-join x [] h k = split_last x h
split-join x (y ∷ ys) h k = split_field x (join y ys) h ∙ ap (λ r. x ∷ r) (split-join y ys k.0 k.1)

pad_comma : (n : ℕ) (y : Text) → has_comma y ≡ false → has_comma (pad n y) ≡ false
pad_comma zero y h = h
pad_comma (suc n) y h = pad_comma n y h

trim_space-pad : (n : ℕ) (y : Text) → trim_space (pad n y) ≡ trim_space y
unfolding trim_space trim_left
trim_space-pad zero y = refl
trim_space-pad (suc n) y = trim_space-pad n y

padded_fields :
    (n : ℕ) (ys : List Text) → All IsAddress ys → All (λ y. has_comma y ≡ false) (map (pad n) ys)
padded_fields n [] h = tt
padded_fields n (y ∷ ys) h = (pad_comma n y h.0.0, padded_fields n ys h.1)

trimmed_fields : (n : ℕ) (ys : List Text) → All IsAddress ys → map trim_space (map (pad n) ys) ≡ ys
trimmed_fields n [] h = refl
trimmed_fields n (y ∷ ys) h =
    ap₂ (λ z zs. z ∷ zs) (trim_space-pad n y ∙ h.0.1) (trimmed_fields n ys h.1)

-- From one text of addresses with commas between them, each comma with some spaces after it, the
-- notification service reads the addresses, and the booking service reads them with those spaces.
pub brokers-join :
    (b : BookingConfig) (c : NotificationConfig) (spaces : ℕ) (x : Text) (ys : List Text)
    → IsAddress x
    → All IsAddress ys
    → b.kafka_brokers ≡ join x (map (pad spaces) ys)
    → c.kafka_brokers ≡ join x (map (pad spaces) ys)
    → (booking_brokers b ≡ x ∷ map (pad spaces) ys) × (kafka_brokers_list c ≡ x ∷ ys)
unfolding booking_brokers kafka_brokers_list
brokers-join b c spaces x ys h hs e f =
    let fields = split-join x (map (pad spaces) ys) h.0 (padded_fields spaces ys hs) in
    (
      ap (split comma) e ∙ fields,
      ap (λ t. map trim_space (split comma t)) f
          ∙ ap (map trim_space) fields
          ∙ ap₂ (λ z zs. z ∷ zs) h.1 (trimmed_fields spaces ys hs),
    )
