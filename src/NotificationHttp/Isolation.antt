-- ===== src/NotificationHttp/Isolation.antt =====
-- A user of the notification service cannot touch the notifications of another.
use meeting_room_booking_sys.Prelude.{
  ℕ, ◌≡◌, ◌≢◌, ◌==◌, ◌&&◌, not, refl, sym, ap, ◌∙◌, arith, Bool, true, false, Bool-cases, inl, inr,
  select, update_where, List, [], ◌∷◌, Option, none, some,
}
use meeting_room_booking_sys.Model.{Result, ok, err, attempt, ◌>>◌, >>=-ok}
use meeting_room_booking_sys.Database.{CommitReply}
use meeting_room_booking_sys.Database.Commits.{transaction_keeps}
use meeting_room_booking_sys.Database.Sorting.{Order}
use meeting_room_booking_sys.Hub.{Notification}
use meeting_room_booking_sys.Notifications.{
  is_listed, is_owned, read, list_by_user_id, update_read, mark_as_read, mark_all_as_read,
}
use meeting_room_booking_sys.Notifications.Reading.{update_read_lem}
use meeting_room_booking_sys.NotificationHttp.{
  Library, map_error, Server, Request, mark_found, mark_read_request, mark_all_read_request,
  list_request, sse_token_request, handle, marked,
}

select-update_where_other :
    {A : Type 0} (p q : A → Bool) (f : A → A) (xs : List A)
    → ((y : A) → p y ≡ true → (q y ≡ false) × (q (f y) ≡ false))
    → select q (update_where p f xs) ≡ select q xs
select-update_where_other p q f [] h = refl
select-update_where_other p q f (x ∷ xs) h = elim (Bool-cases (p x)) [
  | inl e ↦
      let (before, after) = h x e in
      rw e (rw before (rw after (select-update_where_other p q f xs h)))
  | inr e ↦ rw e (rw (select-update_where_other p q f xs h) refl)
]

-- The rows that the notifications of a user are listed from.
abbrev Sees : ℕ → Bool → List Notification → List Notification → Type 0
Sees user_id unread_only table table' =
    select (is_listed user_id unread_only) table' ≡ select (is_listed user_id unread_only) table

unlisted :
    (who another : ℕ) (unread_only : Bool) (n : Notification)
    → who ≢ another
    → n.user_id ≡ who
    → (is_listed another unread_only n ≡ false) × (is_listed another unread_only (read n) ≡ false)
unlisted who another unread_only n differs same = ground (arith, same, differs)

is_owned_user : (id who : ℕ) (n : Notification) → is_owned id who n ≡ true → n.user_id ≡ who
is_owned_user id who n h = ground (arith, h)

mark_as_read-Sees :
    (table : List Notification) (fails : Option ℕ) (reply : CommitReply) (id who another : ℕ)
    (unread_only : Bool)
    → who ≢ another
    → Sees another unread_only table (mark_as_read table fails reply id who).0
unfolding mark_as_read
mark_as_read-Sees table fails reply id who another unread_only differs =
    transaction_keeps (Sees another unread_only table) table
      (attempt fails >> update_read table id who) reply refl
      (λ t done e.
        let (begun, attempted, updated) = >>=-ok _ (attempt fails) (t, done) e in
        ap (select (is_listed another unread_only)) (update_read_lem table t id who done updated).1
        ∙ select-update_where_other (is_owned id who) (is_listed another unread_only) read table
            (λ n owned. unlisted who another unread_only n differs (is_owned_user id who n owned)))

abbrev pub is_unread : ℕ → Notification → Bool
is_unread who n = n.user_id == who && not n.is_read

mark_all_as_read-Sees :
    (table : List Notification) (reply : CommitReply) (who another : ℕ) (unread_only : Bool)
    → who ≢ another
    → Sees another unread_only table (mark_all_as_read table reply who).0
unfolding mark_all_as_read
mark_all_as_read-Sees table reply who another unread_only differs =
    let marked = update_where (is_unread who) read table in
    let kept : Sees another unread_only table marked =
      select-update_where_other (is_unread who) (is_listed another unread_only) read table
        (λ n owned. unlisted who another unread_only n differs (ground (arith, owned))) in
    transaction_keeps (Sees another unread_only table) table (ok (marked, tt)) reply refl
      (λ t done e.
        let same : marked ≡ t = ground arith in
        ap (select (is_listed another unread_only)) (sym same) ∙ kept)

marked-Sees :
    (s : Server) (another : ℕ) (unread_only : Bool) (r : List Notification × Result (Unit {0}))
    → Sees another unread_only s.table r.0
    → Sees another unread_only s.table (marked s r).0.table
marked-Sees s another unread_only (table, err e) h = h
marked-Sees s another unread_only (table, ok done) h = h

mark_found-Sees :
    (s : Server) (who another : ℕ) (unread_only : Bool) (fails : Option ℕ) (reply : CommitReply)
    (id : Option ℕ)
    → who ≢ another
    → Sees another unread_only s.table (mark_found s who fails reply id).0.table
unfolding map_error
mark_found-Sees s who another unread_only fails reply none differs = refl
mark_found-Sees s who another unread_only fails reply (some n) differs =
    marked-Sees s another unread_only _
      (mark_as_read-Sees s.table fails reply n who another unread_only differs)

handle-Sees :
    (lib : Library) (order : Order) (s : Server) (who another : ℕ) (unread_only : Bool)
    (r : Request)
    → who ≢ another
    → Sees another unread_only s.table (handle lib order s who r).0.table
handle-Sees lib order s who another unread_only (sse_token_request fresh now) differs = refl
handle-Sees lib order s who another unread_only (list_request fails limit offset unread) differs =
    refl
handle-Sees lib order s who another unread_only (mark_read_request fails reply id) differs =
    mark_found-Sees s who another unread_only fails reply (lib.read_uuid id) differs
handle-Sees lib order s who another unread_only (mark_all_read_request reply) differs =
    marked-Sees s another unread_only _
      (mark_all_as_read-Sees s.table reply who another unread_only differs)

-- Whatever a request of one user does, the notifications of another user are listed as before it,
-- for any limit and offset, all of them or the unread ones.
pub list-handle_other :
    (lib : Library) (order : Order) (s : Server) (who another : ℕ) (r : Request) (fails : Option ℕ)
    (limit offset : ℕ) (unread_only : Bool)
    → who ≢ another
    → list_by_user_id order
        (handle lib order s who r).0.table
        fails
        another
        limit
        offset
        unread_only
      ≡ list_by_user_id order s.table fails another limit offset unread_only
unfolding list_by_user_id
list-handle_other lib order s who another r fails limit offset unread_only differs =
    rw (handle-Sees lib order s who another unread_only r differs) refl
