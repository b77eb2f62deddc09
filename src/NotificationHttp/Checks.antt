-- ===== src/NotificationHttp/Checks.antt =====
-- What the handlers of the notification service answer.
use meeting_room_booking_sys.Prelude.{
  ℕ, ℤ, pos, negsuc, ◌≤◌, ◌<◌, ◌≡◌, refl, ap, ◌∙◌, arith, true, false, Bool-cases, Option-cases,
  inl, inr, ◌⊎◌, any, select, update_where, length, length-Perm, List, [], ◌∷◌, Option, none, some,
  zero, suc, take, drop,
}
use meeting_room_booking_sys.Database.{committed}
use meeting_room_booking_sys.Database.Sorting.{Order}
use meeting_room_booking_sys.Hub.{Notification}
use meeting_room_booking_sys.Notifications.{
  is_listed, is_owned, read, list_by_user_id, update_read, mark_as_read, mark_all_as_read,
}
use meeting_room_booking_sys.NotificationHttp.{
  Library, clamp, parse_int_param, refuse, notifications, empty, internal_error, not_found,
  map_error, Server, mark_found, mark_read, mark_all_read, list,
}
use meeting_room_booking_sys.NotificationHttp.Isolation.{is_unread}

empty_of_length : {A : Type 0} (xs : List A) → length xs ≡ 0 → xs ≡ []
empty_of_length [] h = refl
empty_of_length (x ∷ xs) h = absurd (omega arith)

none_unread :
    (who : ℕ) (table : List Notification)
    → select (is_listed who true) (update_where (is_unread who) read table) ≡ []
none_unread who [] = refl
none_unread who (n ∷ table) = ground (arith, none_unread who table)

desc_empty :
    (order : Order) (xs : List Notification)
    → xs ≡ []
    → order.desc Notification (λ n. n.created_at) xs ≡ []
desc_empty order xs e =
    empty_of_length _
      (length-Perm (order.desc-perm Notification (λ n. n.created_at) xs) ∙ ap length e)

page_of_empty :
    {A : Type 0} (limit offset : ℕ) (xs : List A) → xs ≡ [] → take limit (drop offset xs) ≡ []
page_of_empty zero zero xs e = refl
page_of_empty (suc n) zero xs e = rw e refl
page_of_empty zero (suc m) xs e = refl
page_of_empty (suc n) (suc m) xs e = rw e refl

-- After a request to mark all notifications as read has been committed, the list of the user's unread
-- notifications is empty, with any limit and offset.
pub list-mark_all_read :
    (lib : Library) (order : Order) (s : Server) (who : ℕ) (limit offset : List ℕ)
    → (list lib order (mark_all_read s who committed).0 who none limit offset true).1
      ≡ notifications 200 [] 0
unfolding list_by_user_id mark_all_as_read
list-mark_all_read lib order s who limit offset =
    rw (page_of_empty _ _ _ (desc_empty order _ (none_unread who s.table))) refl

-- With the statement carried out, a request to mark a notification as read answers 500 for a text
-- that is no UUID and 404 for a notification that is not the user's own, and changes nothing then; for
-- the user's own notification it answers 204, and that row is read afterwards and nothing else differs.
pub mark_read_lem :
    (lib : Library) (s : Server) (who : ℕ) (text : List ℕ)
    → ((lib.read_uuid text ≡ none)
        × (mark_read lib s who none committed text ≡ (s, refuse 500 internal_error)))
      ⊎ ((id : ℕ) × (lib.read_uuid text ≡ some id)
          × (((any (is_owned id who) s.table ≡ false)
                × (mark_read lib s who none committed text ≡ (s, refuse 404 not_found)))
              ⊎ ((any (is_owned id who) s.table ≡ true)
                  × (mark_read lib s who none committed text ≡ (
                    record s { table = update_where (is_owned id who) read s.table },
                    empty 204,
                  )))))
unfolding map_error mark_as_read update_read
mark_read_lem lib s who text = elim (Option-cases (lib.read_uuid text)) [
  | inl e ↦ inl (e, ap (mark_found s who none committed) e)
  | inr (id, e) ↦ inr (
    id,
    e,
    elim (Bool-cases (any (is_owned id who) s.table)) [
      | inl own ↦ inr (own, ap (mark_found s who none committed) e ∙ rw own refl)
      | inr foreign ↦ inl (foreign, ap (mark_found s who none committed) e ∙ rw foreign refl)
    ],
  )
]

clamp_bounds :
    (v : Option ℤ) (default min max : ℕ)
    → min ≤ default
    → default ≤ max
    → 0 < max
    → (min ≤ clamp v default min max) × (clamp v default min max ≤ max)
clamp_bounds none default min max low high p = (low, high)
clamp_bounds (some (pos n)) default min max low high p = ground arith
clamp_bounds (some (negsuc n)) default min max low high p = (low, high)

-- A limit or an offset of the notification service stays between its bounds, whatever the text.
pub parse_int_param_bounds :
    (lib : Library) (text : List ℕ) (default min max : ℕ)
    → min ≤ default
    → default ≤ max
    → 0 < max
    → (min ≤ parse_int_param lib text default min max)
      × (parse_int_param lib text default min max ≤ max)
unfolding parse_int_param
parse_int_param_bounds lib [] default min max low high p = (low, high)
parse_int_param_bounds lib (c ∷ text) default min max low high p =
    clamp_bounds (lib.atoi (c ∷ text)) default min max low high p
