-- ===== src/Http/Public.antt =====
-- The handlers of the public routes: booking-service/internal/http/handlers/auth.go. `is_address` says
-- whether `mail.ParseAddress` accepts a text, and `none` is a body that the JSON decoder refuses.
use Prim.Native.String.{String, len}
use text.Mathlib.Text.{◌==◌ as ◌==ˢ◌}
use meeting_room_booking_sys.Prelude.{ℕ, ltb, not, ◌||◌, if◌then◌else◌, Bool, Option, none, some}
use meeting_room_booking_sys.Model.{Role, is_valid_role}
use meeting_room_booking_sys.Database.{Db, CommitReply}
use meeting_room_booking_sys.Accounts.{Crypto}
use meeting_room_booking_sys.Accounts
use meeting_room_booking_sys.Http.Responses.{to_user_response}
use meeting_room_booking_sys.Http.Replies.{Reply, bad_request, respond, one_token, one_user}

-- The longest password, in bytes.
abbrev pub max_password_len : ℕ
max_password_len = 72

-- The identifier, the clock and the commit of one registration.
pub record RegisterCall : Type 0 where
  pub reply : CommitReply
  pub new_id : ℕ
  pub now : ℕ

module _ (crypto : Crypto) where
  abbrev pub dummy_login : Db → Option Role → Db × Reply
  dummy_login db none = (db, bad_request)
  dummy_login db (some role) =
      if not (is_valid_role role)
      then (db, bad_request)
      else respond 200 one_token (db, Accounts.dummy_login crypto role)

  abbrev pub register :
      (String → Bool) → Db → RegisterCall → Option (String × String × Role) → Db × Reply
  register is_address db c none = (db, bad_request)
  register is_address db c (some (email, password, role)) =
      if not (is_address email)
      then (db, bad_request)
      else if password ==ˢ ""
      then (db, bad_request)
      else if ltb max_password_len (len password)
      then (db, bad_request)
      else if not (is_valid_role role)
      then (db, bad_request)
      else respond 201 (λ u. one_user (to_user_response u))
          (Accounts.register crypto db c.reply c.new_id c.now email password role)

  abbrev pub login : Db → Option ℕ → Option (String × String) → Db × Reply
  login db fails none = (db, bad_request)
  login db fails (some (email, password)) =
      if email ==ˢ "" || password ==ˢ ""
      then (db, bad_request)
      else respond 200 one_token (db, Accounts.login crypto db fails email password)
