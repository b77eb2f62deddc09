-- ===== src/Notifications/Reading.antt =====
-- What marking notifications as read changes in the table.
use meeting_room_booking_sys.Prelude.{
  ℕ, ◌≡◌, refl, sym, subst, arith, Bool, true, ◌&&◌, ◌==◌, not, List, Option, any, count_where,
  count_where-update_where, update_where,
}
use meeting_room_booking_sys.Model.{ok, attempt, ◌>>◌, >>=-ok}
use meeting_room_booking_sys.Database.{CommitReply}
use meeting_room_booking_sys.Database.Commits.{transaction_keeps}
use meeting_room_booking_sys.Hub.{Notification, NotificationType}
use meeting_room_booking_sys.Notifications.{
  is_about, mark_as_read, mark_all_as_read, update_read, is_owned, read,
}

pub update_read_lem :
    (table t : List Notification) (id who : ℕ) (done : Unit {0})
    → update_read table id who ≡ ok (t, done)
    → (any (is_owned id who) table ≡ true) × (t ≡ update_where (is_owned id who) read table)
unfolding update_read
update_read_lem table t id who done h = (ground arith, ground arith)

-- Two tables have as many rows about each booking and type.
abbrev pub SameAbout : List Notification → List Notification → Type 0
SameAbout before after =
    (booking_id : ℕ) (type : NotificationType)
    → count_where (is_about booking_id type) after ≡ count_where (is_about booking_id type) before

update-SameAbout :
    (p : Notification → Bool) (table : List Notification)
    → SameAbout table (update_where p read table)
update-SameAbout p table booking_id type =
    count_where-update_where p (is_about booking_id type) read table (λ n. refl)

pub mark_as_read-SameAbout :
    (table : List Notification) (fails : Option ℕ) (reply : CommitReply) (id user_id : ℕ)
    → SameAbout table (mark_as_read table fails reply id user_id).0
unfolding mark_as_read
mark_as_read-SameAbout table fails reply id user_id =
    transaction_keeps (SameAbout table) table (attempt fails >> update_read table id user_id) reply
      (λ b t. refl)
      (λ t done e.
        let (begun, attempted, updated) = >>=-ok _ (attempt fails) (t, done) e in
        subst (SameAbout table) (sym (update_read_lem table t id user_id done updated).1)
          (update-SameAbout (is_owned id user_id) table))

pub mark_all_as_read-SameAbout :
    (table : List Notification) (reply : CommitReply) (user_id : ℕ)
    → SameAbout table (mark_all_as_read table reply user_id).0
unfolding mark_all_as_read
mark_all_as_read-SameAbout table reply user_id =
    let marked =
      update_where (λ (n : Notification). n.user_id == user_id && not n.is_read) read table in
    transaction_keeps (SameAbout table) table (ok (marked, tt)) reply (λ b t. refl)
      (λ t done e.
        subst (SameAbout table) (ground arith)
          (update-SameAbout (λ n. n.user_id == user_id && not n.is_read) table))
