-- ===== src/Accounts/Login.antt =====
-- What a registration means to later logins.
use Prim.Native.String.{String}
use text.Mathlib.Text.{◌==◌ as ◌==ˢ◌}
use text.Mathlib.TextPositions.{eq_refl}
use meeting_room_booking_sys.Prelude.{
  ℕ, ◌≡◌, ◌==◌, ◌||◌, refl, sym, ap, ◌∙◌, subst, arith, Bool, false, any, find_first,
  find_first-append, find_first-append_other, List, [], ◌∷◌, ◌++◌, Option, none, some, Bool-cases,
  inl, inr,
}
use meeting_room_booking_sys.Model.{User, Role, Result, ok, err}
use meeting_room_booking_sys.Database.{Db, CommitReply, committed, refused, lost, transaction}
use meeting_room_booking_sys.Database.Commits.{transaction_ok}
use meeting_room_booking_sys.Accounts.{
  Crypto, has_email, insert_user, create_user, store_user, register, answer, login,
  get_user_by_email,
}

any-or_right :
    {A : Type 0} (p q : A → Bool) (xs : List A)
    → any (λ x. p x || q x) xs ≡ false
    → any q xs ≡ false
any-or_right p q [] h = refl
any-or_right p q (x ∷ xs) h = ground (arith, any-or_right p q xs)

-- The row is new, and stands at the end of the table.
abbrev pub Added : Db → Db → User → Type 0
Added db db' u =
    (any (has_email u.email) db.users ≡ false) × (db' ≡ record db { users = db.users ++ u ∷ [] })

pub insert_user-Added :
    (db db' : Db) (u v : User) → insert_user db u ≡ ok (db', v) → (u ≡ v) × Added db db' u
unfolding insert_user
insert_user-Added db db' u v h =
    elim (Bool-cases (any (λ w. w.id == u.id || has_email u.email w) db.users)) [
      | inl taken ↦ ground arith
      | inr free ↦
          let clear = any-or_right (λ w. w.id == u.id) (has_email u.email) db.users free in
          (ground arith, (clear, ground arith))
    ]

abbrev row : ℕ → ℕ → String → String → Role → User
row id now email h role = record {
  id = id;
  email = email;
  password = some h;
  role = role;
  created_at = now;
}

login_found :
    (crypto : Crypto) (db : Db) (email attempted h : String) (u : User)
    → find_first (has_email email) db.users ≡ some u
    → u.password ≡ some h
    → login crypto db none email attempted ≡ answer crypto u (crypto.compare h attempted)
unfolding login
login_found crypto db email attempted h u f p = rw (f, get_user_by_email) (rw p refl)

-- After a registration that succeeds, the comparison of the password with the stored hash decides
-- every login with the email whose query does not fail: a match gives the token of the new user with
-- the registered role, a mismatch the error of invalid credentials, and a comparison that breaks its
-- own error.
pub login-register :
    (crypto : Crypto) (db db' : Db) (reply : CommitReply) (id now : ℕ) (email password h : String)
    (role : Role) (u : User)
    → crypto.hash password ≡ ok h
    → register crypto db reply id now email password role ≡ (db', ok u)
    → (attempted : String)
    → ((u.id ≡ id) × (u.role ≡ role))
      × (login crypto db' none email attempted ≡ answer crypto u (crypto.compare h attempted))
unfolding register
login-register crypto db db' reply id now email password h role u made e attempted =
    let stored : create_user db reply id now email h role ≡ (db', ok u) = (rw made at e) in
    let new = row id now email h role in
    let inserted =
      transaction_ok db db' (insert_user db new) reply u (unfold create_user in stored) in
    let (same, (fresh, added)) = insert_user-Added db db' new u inserted in
    let found : find_first (has_email email) db'.users ≡ some new =
      subst (λ d. find_first (has_email email) d.users ≡ some new) (sym added)
        (find_first-append (has_email email) db.users new fresh (eq_refl email)) in
    subst
      (λ v.
        ((v.id ≡ id) × (v.role ≡ role))
        × (login crypto db' none email attempted ≡ answer crypto v (crypto.compare h attempted)))
      same ((refl, refl), login_found crypto db' email attempted h new found refl)

abbrev SameUsersBut : String → Db → Db → Type 0
SameUsersBut email db db' =
    (another : String)
    → (another ==ˢ email) ≡ false
    → find_first (has_email another) db'.users ≡ find_first (has_email another) db.users

insert_same :
    (db : Db) (new : User) (r : Result (Db × User)) (reply : CommitReply)
    → insert_user db new ≡ r
    → SameUsersBut new.email db (transaction db r reply).0
insert_same db new (err e) reply h another differs = refl
insert_same db new (ok (t, v)) (refused e) h another differs = refl
insert_same db new (ok (t, v)) committed h another differs =
    let (same, (fresh, added)) = insert_user-Added db t new v h in
    ap (λ d. find_first (has_email another) d.users) added
    ∙ find_first-append_other (has_email another) db.users new differs
insert_same db new (ok (t, v)) (lost e) h another differs =
    let (same, (fresh, added)) = insert_user-Added db t new v h in
    ap (λ d. find_first (has_email another) d.users) added
    ∙ find_first-append_other (has_email another) db.users new differs

store_same :
    (crypto : Crypto) (db : Db) (reply : CommitReply) (id now : ℕ) (email : String) (role : Role)
    (r : Result String)
    → SameUsersBut email db (store_user crypto db reply id now email role r).0
store_same crypto db reply id now email role (err e) another differs = refl
store_same crypto db reply id now email role (ok h) another differs =
    unfold create_user in
    insert_same db (row id now email h role) (insert_user db (row id now email h role)) reply refl
      another differs

-- Whatever becomes of a registration, a login with any other email answers as before it.
pub login-register_other :
    (crypto : Crypto) (db : Db) (reply : CommitReply) (id now : ℕ) (email password : String)
    (role : Role) (fails : Option ℕ) (another attempted : String)
    → (another ==ˢ email) ≡ false
    → login crypto (register crypto db reply id now email password role).0 fails another attempted
      ≡ login crypto db fails another attempted
unfolding login register get_user_by_email
login-register_other crypto db reply id now email password role fails another attempted differs =
    rw (store_same crypto db reply id now email role (crypto.hash password) another differs) refl
