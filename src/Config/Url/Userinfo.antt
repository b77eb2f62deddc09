-- ===== src/Config/Url/Userinfo.antt =====
-- The user and the password are read back from the URL, whatever characters they have.
use meeting_room_booking_sys.Prelude.{
  ℕ, ◌+◌, ◌-◌, ◌*◌, ◌/◌, ◌%◌, ◌<◌, ◌≡◌, refl, ap, ap₂, ◌∙◌, arith, ltb, ◌==◌, if◌then◌else◌, false,
  any, All, [], ◌∷◌, ◌++◌, Bool-cases, inl, inr, ==_refl, any-append,
}
use meeting_room_booking_sys.Config.{Text, BookingConfig}
use meeting_room_booking_sys.Config.Url.{
  encode_user_password, encode_host, encode_path, ssl_mode_disable, should_escape, upper_hex,
  escape, after_scheme, dsn_url,
}

-- The text up to a byte, and what follows that byte.
abbrev pub cut_at : ℕ → Text → Text × Text
cut_at sep [] = ([], [])
cut_at sep (c ∷ text) =
    let rest = cut_at sep text in if c == sep then ([], text) else (c ∷ rest.0, rest.1)

abbrev pub hex_value : ℕ → ℕ
hex_value d = if ltb d b'A' then d - b'0' else (d - b'A') + 10

-- Percent-decoding, as RFC 3986 describes it.
abbrev pub unescape : Text → Text
unescape [] = []
unescape (c ∷ []) = c ∷ []
unescape (c ∷ d ∷ []) = c ∷ d ∷ []
unescape (c ∷ d ∷ e ∷ text) =
    let short = unescape text in
    let long = unescape (d ∷ e ∷ text) in
    if c == b'%' then (hex_value d * 16 + hex_value e) ∷ short else c ∷ long

abbrev pub IsByte : ℕ → Type 0
IsByte c = c < 256

hex_upper : (n : ℕ) → n < 16 → hex_value (upper_hex n) ≡ n
hex_upper n h = ground arith

escaped_plain : (c : ℕ) → should_escape encode_user_password c ≡ false → (c == b'%') ≡ false
escaped_plain c h = ground arith

cut_at-append :
    (sep : ℕ) (xs ys : Text)
    → any (λ c. c == sep) xs ≡ false
    → cut_at sep (xs ++ sep ∷ ys) ≡ (xs, ys)
cut_at-append sep [] ys h = rw (==_refl sep) refl
cut_at-append sep (x ∷ xs) ys h =
    let parts : ((x == sep) ≡ false) × (any (λ c. c == sep) xs ≡ false) = ground arith in
    rw parts.0 (ap (λ r. (x ∷ r.0, r.1)) (cut_at-append sep xs ys parts.1))

unescape_plain :
    (c : ℕ) (text : Text) → (c == b'%') ≡ false → unescape (c ∷ text) ≡ c ∷ unescape text
unescape_plain c [] h = refl
unescape_plain c (d ∷ []) h = refl
unescape_plain c (d ∷ e ∷ text) h = rw h refl

unescape-escape :
    (text : Text) → All IsByte text → unescape (escape encode_user_password text) ≡ text
unfolding escape
unescape-escape [] h = refl
unescape-escape (c ∷ text) h = elim (Bool-cases (should_escape encode_user_password c)) [
  | inl e ↦
      let high = hex_upper (c / 16) (omega (arith, h.0)) in
      let low = hex_upper (c % 16) (omega arith) in
      let value : hex_value (upper_hex (c / 16)) * 16 + hex_value (upper_hex (c % 16)) ≡ c =
        omega (arith, high, low) in
      rw e (ap₂ (λ d t. d ∷ t) value (unescape-escape text h.1))
  | inr e ↦ rw e (
      unescape_plain c (escape encode_user_password text) (escaped_plain c e)
      ∙ ap (λ t. c ∷ t) (unescape-escape text h.1))
]

-- A byte that escaped text never has.
record IsEscaped (sep : ℕ) : Type 0 where
  no_percent : (b'%' == sep) ≡ false
  no_digit : (n : ℕ) → n < 16 → (upper_hex n == sep) ≡ false
  escapes : (c : ℕ) → should_escape encode_user_password c ≡ false → (c == sep) ≡ false

escape_without :
    (sep : ℕ) (text : Text)
    → IsEscaped sep
    → All IsByte text
    → any (λ c. c == sep) (escape encode_user_password text) ≡ false
unfolding escape
escape_without sep [] v h = refl
escape_without sep (c ∷ text) v h = elim (Bool-cases (should_escape encode_user_password c)) [
  | inl e ↦ rw e (
      rw v.no_percent (
        rw (v.no_digit (c / 16) (omega (arith, h.0)))
          (rw (v.no_digit (c % 16) (omega arith)) (escape_without sep text v h.1))))
  | inr e ↦ rw e (rw (v.escapes c e) (escape_without sep text v h.1))
]

colon-IsEscaped : IsEscaped b':'
colon-IsEscaped = record {
  no_percent = refl;
  no_digit = λ n h. ground arith;
  escapes = λ c h. ground arith;
}

at-IsEscaped : IsEscaped b'@'
at-IsEscaped = record {
  no_percent = refl;
  no_digit = λ n h. ground arith;
  escapes = λ c h. ground arith;
}

-- The userinfo of a URL behind its scheme, as RFC 3986 describes it: what stands before the first
-- "@", cut at the first ":", both parts decoded.
abbrev pub userinfo_of : Text → Text × Text
userinfo_of text = let info = cut_at b':' (cut_at b'@' text).0 in (unescape info.0, unescape info.1)

abbrev written : BookingConfig → Text → Text
written c tail =
    escape encode_user_password c.db_user
    ++ b':' ∷ escape encode_user_password c.db_password
    ++ b'@' ∷ tail

userinfo-written :
    (c : BookingConfig) (tail : Text)
    → All IsByte c.db_user
    → All IsByte c.db_password
    → userinfo_of (written c tail) ≡ (c.db_user, c.db_password)
userinfo-written c tail h k =
    let u = escape encode_user_password c.db_user in
    let p = escape encode_user_password c.db_password in
    let clear : any (λ d. d == b'@') (u ++ b':' ∷ p) ≡ false = ground (
      arith,
      any-append (λ d. d == b'@') u (b':' ∷ p),
      escape_without b'@' c.db_user at-IsEscaped h,
      escape_without b'@' c.db_password at-IsEscaped k,
    ) in
    let outer : cut_at b'@' (written c tail) ≡ (u ++ b':' ∷ p, tail) =
      cut_at-append b'@' (u ++ b':' ∷ p) tail clear in
    let inner = cut_at-append b':' u p (escape_without b':' c.db_user colon-IsEscaped h) in
    ap (λ r. (unescape (cut_at b':' r.0).0, unescape (cut_at b':' r.0).1)) outer
    ∙ ap (λ r. (unescape r.0, unescape r.1)) inner
    ∙ ap₂ (λ a b. (a, b)) (unescape-escape c.db_user h) (unescape-escape c.db_password k)

-- The URL of the booking service's database is its scheme, "://", and a text whose userinfo is exactly
-- the configured user and password, whatever bytes they have.
pub userinfo-dsn_url :
    (c : BookingConfig) (scheme : Text)
    → All IsByte c.db_user
    → All IsByte c.db_password
    → (rest : Text) × (dsn_url c scheme ≡ scheme ++ (after_scheme ++ rest))
      × (userinfo_of rest ≡ (c.db_user, c.db_password))
unfolding dsn_url
userinfo-dsn_url c scheme h k =
    let tail =
      escape encode_host (c.db_host ++ b':' ∷ c.db_port)
      ++ (escape encode_path (b'/' ∷ c.db_name) ++ b'?' ∷ ssl_mode_disable) in
    (written c tail, refl, userinfo-written c tail h k)
