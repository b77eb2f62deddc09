-- ===== src/Http/Preservation.antt =====
-- Every request to the booking service keeps a property of its tables, if the writes of the
-- repositories keep it.
pub mod Tables
pub mod Writes
use Prim.Native.String.{String, len}
use text.Mathlib.Text.{◌==◌ as ◌==ˢ◌}
use meeting_room_booking_sys.Prelude.{
  ℕ, ℤ, ◌≡◌, refl, Bool, All, List, [], ◌∷◌, Option, none, some, not, ltb,
}
use meeting_room_booking_sys.Model.{Role, is_valid_role}
use meeting_room_booking_sys.Database.{Db, CommitReply}
use meeting_room_booking_sys.Database.Sorting.{Order}
use meeting_room_booking_sys.Bookings.{Call}
use meeting_room_booking_sys.BookingService
use meeting_room_booking_sys.BookingService.Guarantees.{Preserves, create_booking-Preserves}
use meeting_room_booking_sys.SlotService.Guarantees.{list_available_slots-Preserves}
use meeting_room_booking_sys.Rooms.{RoomCall}
use meeting_room_booking_sys.Rooms
use meeting_room_booking_sys.Accounts.{Crypto}
use meeting_room_booking_sys.Accounts
use meeting_room_booking_sys.Http.Preservation.Writes.{
  KeptByWrites, OthersKeep, AllKeep, OfKnown, respond_keeps, Kept_option, Kept_if,
}
use meeting_room_booking_sys.Http.Preservation.Tables.{
  create_schedule-Preserves, register-Preserves,
}
use meeting_room_booking_sys.Http.Responses.{to_user_response, to_room_response}
use meeting_room_booking_sys.Http.Replies.{one_user, one_room, bad_request}
use meeting_room_booking_sys.Http.Params.{
  Library, auth, parse_pagination, check_schedule, date_param,
}
use meeting_room_booking_sys.Http.Handlers.{
  is_too_small, create_room, cancel_booking, store_schedule,
}
use meeting_room_booking_sys.Http.Public.{RegisterCall, max_password_len, register}
use meeting_room_booking_sys.Http.Router.{
  Request, create_booking_request, cancel_booking_request, list_bookings_request,
  list_user_bookings_request, create_schedule_request, create_room_request, list_rooms_request,
  list_slots_request, required_role, require_role, handle, with_role, serve, PublicRequest,
  info_request, dummy_login_request, register_request, login_request, serve_public, AnyRequest,
  guarded, public, route, route_all,
}

module _ (P : Db → Type 0) (Known : ℕ → Type 0) (w : KeptByWrites P Known) where
  cancel_service-Preserves :
      (db : Db) (c : Call) (later : Db → Db) (id user_id : ℕ)
      → Known user_id
      → Preserves P later
      → P db
      → P (BookingService.cancel_booking db c later id user_id).0
  unfolding BookingService.cancel_booking
  cancel_service-Preserves db c later id user_id known k v =
      w.cancelling db c later id user_id known v (k db v)

  create_schedule-keeps :
      (lib : Library) (order : Order) (db : Db) (reply : CommitReply) (id now room_id : ℕ)
      (body : Option (List ℤ × List ℕ × List ℕ))
      → P db
      → P (store_schedule lib order db reply id now room_id body).0
  create_schedule-keeps lib order db reply id now room_id none v = v
  create_schedule-keeps lib order db reply id now room_id (some (days, start_time, end_time)) v =
      Kept_if P (check_schedule days start_time end_time) _ _
        (respond_keeps P 201 _ _ (
          create_schedule-Preserves P w.others lib.cast_time db reply id now room_id days start_time
            end_time v))
        v

  create_room-keeps :
      (db : Db) (c : RoomCall) (body : Option (String × Option String × Option ℤ))
      → P db
      → P (create_room db c body).0
  create_room-keeps db c none v = v
  create_room-keeps db c (some (name, description, capacity)) v =
      let kept =
        respond_keeps P 201 (λ r. one_room (to_room_response r))
          (Rooms.create_room db c name description capacity)
          (w.rooming db c name description capacity v) in
      let given = Kept_if P (is_too_small capacity) (db, bad_request) _ v kept in
      Kept_if P (name ==ˢ "") (db, bad_request) _ v given

  module _ (lib : Library) (order : Order) where
    handle-Preserves :
        (db : Db) (user_id : ℕ) (r : Request)
        → Known user_id
        → OthersKeep P r
        → P db
        → P (handle lib order db user_id r).0
    handle-Preserves db user_id (create_booking_request c none) known k v = v
    handle-Preserves db user_id (create_booking_request c (some (slot, link))) known k v =
        Kept_option P (lib.parse_uuid slot) _ _ v (λ slot_id. respond_keeps P 201 _ _ (
          create_booking-Preserves P w.linking user_id
            (λ d call s. w.booking d call s user_id known) db c slot_id link k.0 k.1 v))
    handle-Preserves db user_id (cancel_booking_request c later booking) known k v =
        Kept_option P (lib.parse_uuid booking) _ _ v
          (λ id. respond_keeps P 200 _ _ (cancel_service-Preserves db c later id user_id known k v))
    handle-Preserves db user_id (list_bookings_request fails page page_size) known k v =
        Kept_option P (parse_pagination lib page page_size) _ _ v (λ r. respond_keeps P 200 _ _ v)
    handle-Preserves db user_id (list_user_bookings_request fails now) known k v =
        respond_keeps P 200 _ _ v
    handle-Preserves db user_id (create_schedule_request reply id now room body) known k v =
        Kept_option P (lib.parse_uuid room) _ _ v
          (λ room_id. create_schedule-keeps lib order db reply id now room_id body v)
    handle-Preserves db user_id (create_room_request c body) known k v =
        create_room-keeps db c body v
    handle-Preserves db user_id (list_rooms_request fails) known k v = respond_keeps P 200 _ _ v
    handle-Preserves db user_id (list_slots_request c room date) known k v =
        Kept_option P (lib.parse_uuid room) _ _ v (λ room_id.
          Kept_option P (date_param lib date) _ _ v (λ day.
            respond_keeps P 200 _ _
              (list_available_slots-Preserves P w.ensuring order c room_id day k db v)))

    with_role-Preserves :
        (db : Db) (r : Request) (who : Option (ℕ × Role))
        → ((user_id : ℕ) (role : Role) → who ≡ some (user_id, role) → Known user_id)
        → OthersKeep P r
        → P db
        → P (with_role lib order db r who).0
    with_role-Preserves db r none known k v = v
    with_role-Preserves db r (some (user_id, role)) known k v =
        Kept_if P (require_role (required_role r) role) _ _
          (handle-Preserves db user_id r (known user_id role refl) k v) v

  module _ (crypto : Crypto) (is_address : String → Bool) where
    register-keeps :
        (db : Db) (c : RegisterCall) (body : Option (String × String × Role))
        → P db
        → P (register crypto is_address db c body).0
    register-keeps db c none v = v
    register-keeps db c (some (email, password, role)) v =
        let kept =
          respond_keeps P 201 (λ u. one_user (to_user_response u))
            (Accounts.register crypto db c.reply c.new_id c.now email password role)
            (register-Preserves P w.others crypto db c email password role v) in
        let checked = Kept_if P (not (is_valid_role role)) (db, bad_request) _ v kept in
        let short = Kept_if P (ltb max_password_len (len password)) (db, bad_request) _ v checked in
        let given = Kept_if P (password ==ˢ "") (db, bad_request) _ v short in
        Kept_if P (not (is_address email)) (db, bad_request) _ v given

    serve_public-Preserves :
        (db : Db) (r : PublicRequest) → P db → P (serve_public crypto is_address db r).0
    unfolding serve_public
    serve_public-Preserves db info_request v = v
    serve_public-Preserves db (dummy_login_request none) v = v
    serve_public-Preserves db (dummy_login_request (some role)) v =
        Kept_if P _ _ _ v (respond_keeps P 200 _ _ v)
    serve_public-Preserves db (register_request c body) v = register-keeps db c body v
    serve_public-Preserves db (login_request fails none) v = v
    serve_public-Preserves db (login_request fails (some (email, password))) v =
        Kept_if P _ _ _ v (respond_keeps P 200 _ _ v)

  route-Preserves :
      (lib : Library) (crypto : Crypto) (is_address : String → Bool) (order : Order) (db : Db)
      (r : AnyRequest)
      → OfKnown Known lib r
      → AllKeep P r
      → P db
      → P (route lib crypto is_address order db r).0
  unfolding route serve
  route-Preserves lib crypto is_address order db (guarded header r) known k v =
      with_role-Preserves lib order db r (auth lib header) known k v
  route-Preserves lib crypto is_address order db (public r) known k v =
      serve_public-Preserves crypto is_address db r v

  pub route_all-Preserves :
      (lib : Library) (crypto : Crypto) (is_address : String → Bool) (order : Order) (db : Db)
      (rs : List AnyRequest)
      → All (OfKnown Known lib) rs
      → All (AllKeep P) rs
      → P db
      → P (route_all lib crypto is_address order db rs)
  unfolding route_all
  route_all-Preserves lib crypto is_address order db [] known k v = v
  route_all-Preserves lib crypto is_address order db (r ∷ rs) known k v =
      route_all-Preserves lib crypto is_address order (route lib crypto is_address order db r).0 rs
        known.1 k.1 (route-Preserves lib crypto is_address order db r known.0 k.0 v)
