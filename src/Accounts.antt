-- ===== src/Accounts.antt =====
-- Registration and login: booking-service/internal/service/auth/auth.go over
-- booking-service/internal/repo/auth/auth.go, with the constraints of the migration 0001.
-- bcrypt and the signing of a JWT are parameters (`Crypto`); the comparison with the sentinel hash in
-- `Login`, whose result the code throws away, only takes time.
pub mod Login
use Prim.Native.String.{String}
use text.Mathlib.Text.{◌==◌ as ◌==ˢ◌}
use meeting_room_booking_sys.Prelude.{
  ℕ, ◌==◌, ◌||◌, not, if◌then◌else◌, Bool, true, false, any, find_first, List, [], ◌∷◌, ◌++◌,
  Option, none, some,
}
use meeting_room_booking_sys.Model.{
  User, Room, Role, admin, user, unknown_role, is_valid_role, Error, email_taken,
  invalid_credentials, other, Result, ok, err, ◌>>=◌, ◌>>◌, attempt,
}
use meeting_room_booking_sys.Database.{Db, CommitReply, transaction}
use meeting_room_booking_sys.Database.Sorting.{Order}

-- What `CompareHashAndPassword` says.
pub data Comparison : Type 0 where
  matching mismatched : Comparison
  broken : ℕ → Comparison

-- `hash` gives the hash that one call makes, whose salt is random. A token is its bytes.
pub record Crypto : Type 0 where
  pub hash : String → Result String
  pub compare : String → String → Comparison
  pub generate_token : ℕ → Role → Result (List ℕ)

-- The numbers of the errors that are no sentinel.
abbrev pub unknown_dummy_role : ℕ
unknown_dummy_role = 1

abbrev pub role_check_violation : ℕ
role_check_violation = 2

abbrev pub has_email : String → User → Bool
has_email email u = email ==ˢ u.email

abbrev pub or_invalid : Option User → Result User
or_invalid none = err invalid_credentials
or_invalid (some u) = ok u

unfoldable pub get_user_by_email : Db → Option ℕ → String → Result User
get_user_by_email db fails email =
    attempt fails >> or_invalid (find_first (has_email email) db.users)

-- INSERT INTO users: the CHECK of the role, then the two unique indexes.
unfoldable pub insert_user : Db → User → Result (Db × User)
insert_user db u =
    if not (is_valid_role u.role)
    then err (other role_check_violation)
    else if any (λ v. v.id == u.id || has_email u.email v) db.users
    then err email_taken
    else ok (record db { users = db.users ++ u ∷ [] }, u)

-- `new_id` and `now` are the defaults of the columns.
unfoldable pub create_user : Db → CommitReply → ℕ → ℕ → String → String → Role → Db × Result User
unfolding insert_user
create_user db reply new_id now email password_hash role =
    transaction db
      (insert_user db (record {
        id = new_id;
        email = email;
        password = some password_hash;
        role = role;
        created_at = now;
      }))
      reply

abbrev pub dummy_admin_id : ℕ
dummy_admin_id = 1

abbrev pub dummy_user_id : ℕ
dummy_user_id = 2

module _ (crypto : Crypto) where
  unfoldable pub dummy_login : Role → Result (List ℕ)
  dummy_login admin = crypto.generate_token dummy_admin_id admin
  dummy_login user = crypto.generate_token dummy_user_id user
  dummy_login (unknown_role r) = err (other unknown_dummy_role)

  abbrev pub store_user :
      Db → CommitReply → ℕ → ℕ → String → Role → Result String → Db × Result User
  store_user db reply new_id now email role (err e) = (db, err e)
  store_user db reply new_id now email role (ok h) = create_user db reply new_id now email h role

  unfoldable pub register : Db → CommitReply → ℕ → ℕ → String → String → Role → Db × Result User
  unfolding create_user
  register db reply new_id now email password role =
      store_user db reply new_id now email role (crypto.hash password)

  abbrev pub answer : User → Comparison → Result (List ℕ)
  answer u matching = crypto.generate_token u.id u.role
  answer u mismatched = err invalid_credentials
  answer u (broken e) = err (other e)

  -- An account without a password cannot log in.
  abbrev pub check_password : User → String → Option String → Result (List ℕ)
  check_password u password none = err invalid_credentials
  check_password u password (some h) = answer u (crypto.compare h password)

  unfoldable pub login : Db → Option ℕ → String → String → Result (List ℕ)
  unfolding get_user_by_email
  login db fails email password = do
    u ← get_user_by_email db fails email
    check_password u password u.password
