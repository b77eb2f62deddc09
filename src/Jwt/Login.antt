-- ===== src/Jwt/Login.antt =====
-- What a token of the booking service is worth to both services.
use Prim.Native.String.{String}
use meeting_room_booking_sys.Prelude.{
  ℕ, ◌+◌, ◌≤◌, ◌<◌, ◌≡◌, ◌≢◌, ◌==◌, ◌⊎◌, inl, inr, refl, sym, ap, ◌∙◌, subst, arith, true, ==_refl,
  ==_iff, List, [], ◌∷◌, ◌++◌, map, Option, none, some, Bool-cases, Option-cases, ltb,
}
use meeting_room_booking_sys.Model.{User, Role, ok}
use meeting_room_booking_sys.Database.{Db, CommitReply}
use meeting_room_booking_sys.Tokens.{second}
use meeting_room_booking_sys.Accounts.{
  Crypto, Comparison, matching, mismatched, broken, answer, register, login,
}
use meeting_room_booking_sys.Accounts.Login.{login-register}
use meeting_room_booking_sys.Http.Params.{after_prefix, to_lower}
use meeting_room_booking_sys.Http.Params
use meeting_room_booking_sys.NotificationHttp.{cut_prefix, bearer_prefix}
use meeting_room_booking_sys.NotificationHttp
use meeting_room_booking_sys.Jwt.{
  JwtLibrary, IsDocumented, Claims, generate_token, parse_token, token_ttl, key_of, claimed,
}

after_prefix-cut_prefix :
    (prefix text t : List ℕ)
    → cut_prefix prefix text ≡ some t
    → after_prefix (map to_lower prefix) text ≡ some t
unfolding cut_prefix after_prefix
after_prefix-cut_prefix [] text t h = h
after_prefix-cut_prefix (p ∷ prefix) [] t h = cc
after_prefix-cut_prefix (p ∷ prefix) (c ∷ text) t h = elim (Bool-cases (c == p)) [
  | inl e ↦
      let same = (==_iff c p).0 e in
      let rest : cut_prefix prefix text ≡ some t = (rw e at h) in
      let low : (to_lower c == to_lower p) ≡ true =
        subst (λ q. (to_lower c == to_lower q) ≡ true) same (==_refl (to_lower c)) in
      rw low (after_prefix-cut_prefix prefix text t rest)
  | inr e ↦ cc (rw e at h)
]

parse_nonempty_same :
    (booking : Params.Library) (notification : NotificationHttp.Library) (t : List ℕ)
    → ((text : List ℕ) → booking.parse_token text ≡ notification.parse_token text)
    → Params.parse_nonempty booking t ≡ NotificationHttp.parse_nonempty notification t
parse_nonempty_same booking notification [] same = refl
parse_nonempty_same booking notification (c ∷ t) same = same (c ∷ t)

-- Every Authorization header that the notification service accepts is accepted by the booking service
-- for the same user and role, where both read tokens in the same way.
pub auth_agrees :
    (booking : Params.Library) (notification : NotificationHttp.Library) (header : List ℕ)
    (who : ℕ × Role)
    → ((text : List ℕ) → booking.parse_token text ≡ notification.parse_token text)
    → NotificationHttp.auth notification header ≡ some who
    → Params.auth booking header ≡ some who
unfolding NotificationHttp.auth Params.auth
auth_agrees booking notification header who same h =
    elim (Option-cases (cut_prefix bearer_prefix header)) [
      | inl e ↦ cc (rw e at h)
      | inr (t, e) ↦
          let read : NotificationHttp.parse_nonempty notification t ≡ some who = (rw e at h) in
          rw (after_prefix-cut_prefix bearer_prefix header t e)
            (parse_nonempty_same booking notification t same ∙ read)
    ]

-- The header of a client with a token.
abbrev pub bearer : List ℕ → List ℕ
bearer token = bearer_prefix ++ token

bearer-auth :
    (notification : NotificationHttp.Library) (c : ℕ) (token : List ℕ)
    → NotificationHttp.auth notification (bearer (c ∷ token)) ≡ notification.parse_token (c ∷ token)
unfolding NotificationHttp.auth
bearer-auth notification c token = refl

bearer-booking_auth :
    (booking : Params.Library) (c : ℕ) (token : List ℕ)
    → Params.auth booking (bearer (c ∷ token)) ≡ booking.parse_token (c ∷ token)
unfolding Params.auth
bearer-booking_auth booking c token = refl

-- Both services take what `ParseToken` makes of a token at the time `now` with the shared secret.
pub record Reads (j : JwtLibrary) (secret : List ℕ) (now : ℕ) (booking : Params.Library)
    (notification : NotificationHttp.Library) : Type 0 where
  pub booking_reads : (text : List ℕ) → booking.parse_token text ≡ parse_token j now text secret
  pub notification_reads :
      (text : List ℕ)
      → notification.parse_token text ≡ NotificationHttp.parse_token j now text secret

-- What both services make of the header.
abbrev pub BothAccept :
    Params.Library → NotificationHttp.Library → List ℕ → Option (ℕ × Role) → Type 0
BothAccept booking notification token who =
    (Params.auth booking (bearer token) ≡ who)
    × (NotificationHttp.auth notification (bearer token) ≡ who)

module _ (j : JwtLibrary) (secret : List ℕ) (now : ℕ) (booking : Params.Library)
    (notification : NotificationHttp.Library) (documented : IsDocumented j)
    (reads : Reads j secret now booking notification) where
  both_accept :
      (token : List ℕ) (who : Option (ℕ × Role))
      → token ≢ []
      → parse_token j now token secret ≡ who
      → NotificationHttp.parse_token j now token secret ≡ who
      → BothAccept booking notification token who
  both_accept [] who h b n = absurd (h refl)
  both_accept (c ∷ token) who h b n = (
    bearer-booking_auth booking c token ∙ reads.booking_reads (c ∷ token) ∙ b,
    bearer-auth notification c token ∙ reads.notification_reads (c ∷ token) ∙ n,
  )

  -- A token that the booking service has given out is accepted by both services, for its user and
  -- its role, up to a second before it is 24 hours old, and by neither of them once it is 24 hours old.
  pub auth-generate_token :
      (now_expires now_issued user_id : ℕ) (role : Role) (token : List ℕ)
      → generate_token j now_expires now_issued user_id role secret ≡ ok token
      → ((now_expires + token_ttl < now + second)
          ⊎ BothAccept booking notification token (some (user_id, role)))
        × ((now < now_expires + token_ttl) ⊎ BothAccept booking notification token none)
  unfolding generate_token parse_token NotificationHttp.parse_token
  auth-generate_token now_expires now_issued user_id role token h =
      let made : j.signed_string secret issued ≡ ok token = h in
      let given = documented.signed_nonempty secret issued token made in
      let high = documented.date_high (now_expires + token_ttl) in
      let low = documented.date_low (now_expires + token_ttl) in
      (
        elim (Bool-cases (ltb (now_expires + token_ttl) (now + second))) [
          | inl late ↦ inl (ground (arith, late))
          | inr early ↦
              let parsed =
                documented.parsed secret issued token now (key_of secret) made refl
                  (ground (arith, early, high)) in
              inr (
                both_accept token (some (user_id, role)) given (ap claimed parsed)
                  (ap claimed parsed))
        ],
        elim (Bool-cases (ltb now (now_expires + token_ttl))) [
          | inl early ↦ inl (ground (arith, early))
          | inr late ↦
              let gone =
                documented.expired secret issued token now (key_of secret) made refl
                  (ground (arith, late, low)) in
              inr (both_accept token none given (ap claimed gone) (ap claimed gone))
        ],
      )
    where
      issued : Claims
      issued = record {
        user_id = user_id;
        role = role;
        issued_at = j.new_numeric_date now_issued;
        expires_at = j.new_numeric_date (now_expires + token_ttl);
      }

answer_ok :
    (crypto : Crypto) (u : User) (r : Comparison) (token : List ℕ)
    → answer crypto u r ≡ ok token
    → crypto.generate_token u.id u.role ≡ ok token
answer_ok crypto u matching token h = h
answer_ok crypto u mismatched token h = cc
answer_ok crypto u (broken e) token h = cc

-- A user who has registered and then logs in gets a token that both services accept, for the
-- registered identifier and role, up to a second before it is 24 hours old.
pub auth-login :
    (j : JwtLibrary) (secret : List ℕ) (now : ℕ) (booking : Params.Library)
    (notification : NotificationHttp.Library) (crypto : Crypto) (db db' : Db) (reply : CommitReply)
    (id created now_expires now_issued : ℕ) (email password h attempted : String) (role : Role)
    (u : User) (token : List ℕ)
    → IsDocumented j
    → Reads j secret now booking notification
    → ((n : ℕ) (r : Role)
        → crypto.generate_token n r ≡ generate_token j now_expires now_issued n r secret)
    → crypto.hash password ≡ ok h
    → register crypto db reply id created email password role ≡ (db', ok u)
    → login crypto db' none email attempted ≡ ok token
    → now + second ≤ now_expires + token_ttl
    → BothAccept booking notification token (some (id, role))
auth-login j secret now booking notification crypto db db' reply id created now_expires now_issued
      email password h attempted role u token documented reads signs hashed registered logged
      fresh =
    let ((same_id, same_role), answered) =
      login-register crypto db db' reply id created email password h role u hashed registered
        attempted in
    let signed = answer_ok crypto u (crypto.compare h attempted) token (sym answered ∙ logged) in
    let made : generate_token j now_expires now_issued id role secret ≡ ok token =
      sym (signs id role)
      ∙ subst (λ n. crypto.generate_token n role ≡ ok token) same_id
          (subst (λ r. crypto.generate_token u.id r ≡ ok token) same_role signed) in
    elim (auth-generate_token j secret now booking notification documented reads now_expires
      now_issued id role token made).0 [ inl late ↦ absurd (omega arith) | inr accepted ↦ accepted ]
