-- ===== src/Http/Preservation/Tables.antt =====
-- The creation of users and of schedules keeps what is said of the other tables.
use Prim.Native.String.{String}
use meeting_room_booking_sys.Prelude.{ℕ, ℤ, ◌≡◌, refl, sym, subst, List, Option}
use meeting_room_booking_sys.Model.{User, Role, Result, ok, err, >>=-ok}
use meeting_room_booking_sys.Database.{Db, ScheduleRow, CommitReply, autocommit}
use meeting_room_booking_sys.Database.Commits.{transaction_keeps, autocommit_keeps}
use meeting_room_booking_sys.Schedules.{answered, cast, cast_and_insert}
use meeting_room_booking_sys.Schedules
use meeting_room_booking_sys.Schedules.Storage.{insert_schedule-Added}
use meeting_room_booking_sys.Accounts.{Crypto, create_user, store_user}
use meeting_room_booking_sys.Accounts
use meeting_room_booking_sys.Accounts.Login.{insert_user-Added}
use meeting_room_booking_sys.Http.Public.{RegisterCall}

module _ (P : Db → Type 0)
    (others : (d : Db) (us : List User) (ss : List ScheduleRow)
      → P d
      → P (record d { users = us; schedules = ss })) where
  answered_db : (r : Db × Result ScheduleRow) → (answered r).0 ≡ r.0
  answered_db (db, err e) = refl
  answered_db (db, ok r) = refl

  cast_and_insert-Preserves :
      (cast_time : List ℕ → Option ℕ) (db t : Db) (new_id now room_id : ℕ) (days : List ℤ)
      (start_time end_time : List ℕ) (row : ScheduleRow)
      → cast_and_insert cast_time db new_id now room_id days start_time end_time ≡ ok (t, row)
      → P db
      → P t
  cast_and_insert-Preserves cast_time db t new_id now room_id days start_time end_time row e v =
      let (opening, cast_opening, rest) = >>=-ok _ (cast cast_time start_time) (t, row) e in
      let (closing, cast_closing, inserted) = >>=-ok _ (cast cast_time end_time) (t, row) rest in
      let (same, (fresh, opens, added)) = insert_schedule-Added db t _ row inserted in
      subst P (sym added) (others db db.users _ v)

  pub create_schedule-Preserves :
      (cast_time : List ℕ → Option ℕ) (db : Db) (reply : CommitReply) (new_id now room_id : ℕ)
      (days : List ℤ) (start_time end_time : List ℕ)
      → P db
      → P
          (Schedules.create_schedule cast_time db reply new_id now room_id days start_time
            end_time).0
  unfolding Schedules.create_schedule
  create_schedule-Preserves cast_time db reply new_id now room_id days start_time end_time v =
      let r = cast_and_insert cast_time db new_id now room_id days start_time end_time in
      rw (answered_db (autocommit db r reply)) (
        autocommit_keeps P db r reply v (λ t row e.
          cast_and_insert-Preserves cast_time db t new_id now room_id days start_time end_time row e
            v))

  create_user-Preserves :
      (crypto : Crypto) (db : Db) (c : RegisterCall) (email : String) (role : Role)
      (h : Result String)
      → P db
      → P (store_user crypto db c.reply c.new_id c.now email role h).0
  unfolding create_user
  create_user-Preserves crypto db c email role (err e) v = v
  create_user-Preserves crypto db c email role (ok h) v =
      transaction_keeps P db _ c.reply v (λ t u e.
        let (same, (fresh, added)) = insert_user-Added db t _ u e in
        subst P (sym added) (others db _ db.schedules v))

  pub register-Preserves :
      (crypto : Crypto) (db : Db) (c : RegisterCall) (email password : String) (role : Role)
      → P db
      → P (Accounts.register crypto db c.reply c.new_id c.now email password role).0
  unfolding Accounts.register
  register-Preserves crypto db c email password role v =
      create_user-Preserves crypto db c email role (crypto.hash password) v
