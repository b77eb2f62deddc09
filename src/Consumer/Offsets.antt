-- ===== src/Consumer/Offsets.antt =====
-- The consumer over restarts of its process, with the offsets of its group in Kafka: the topic is a
-- partition, read from offset zero, and a new process goes on at the offset that was committed last.
-- Between messages, requests mark notifications as read.
pub mod Announcement
use meeting_room_booking_sys.Prelude.{
  ℕ, suc, ◌+◌, ◌≤◌, ◌<◌, ◌≡◌, ◌⊎◌, inl, inr, refl, sym, ap, ◌∙◌, subst, arith, Bool, true, false,
  if◌then◌else◌, ◌&&◌, ◌==◌, not, List, Option, none, some, any, any_of_count_pos, count_where,
  count_where_pos, count_where-update_where, update_where, Bool-cases,
}
use meeting_room_booking_sys.Model.{BookingEvent, Result, ok, err, attempt, ◌>>◌, >>=-ok}
use meeting_room_booking_sys.Database.{committed, CommitReply, transaction}
use meeting_room_booking_sys.Database.Commits.{transaction_keeps}
use meeting_room_booking_sys.Hub.{Hub, Notification, NotificationType, new_hub}
use meeting_room_booking_sys.Notifications.{
  Service, is_about, type_of, notification_of, mark_as_read, mark_all_as_read, update_read,
  is_owned, read,
}
use meeting_room_booking_sys.Notifications.Delivery.{IsUnique}
use meeting_room_booking_sys.Consumer.{Delivery, process}
use meeting_room_booking_sys.Consumer.Progress.{process-IsUnique}
use meeting_room_booking_sys.Consumer.Storage.{insert_known, add_event, add_keeps, process_table}

-- The offset of the next message that the reader gives, and the offset that the group has committed.
pub record Group : Type 0 where
  pub service : Service
  pub position : ℕ
  pub offset : ℕ

-- `CommitMessages` moves the offset of the group behind the message; if it answers an error, Kafka may
-- still have taken it.
abbrev pub offset_after : Group → Option ℕ → Bool → ℕ
offset_after g none is_taken = suc g.position
offset_after g (some e) is_taken = if is_taken then suc g.position else g.offset

abbrev pub with_table : Service → List Notification → Service
with_table s table = record s { table = table }

unfoldable pub begin : Service → Group
begin s = record { service = s; position = 0; offset = 0 }

-- A new process, with a hub of its own, reads on from the offset of the group.
abbrev pub resume : Group → Group
resume g = record g { service = record g.service { hub = some new_hub }; position = g.offset }

module _ (decode : List ℕ → Option BookingEvent) (topic : ℕ → Option (List ℕ)) where
  abbrev pub handled : Group → Delivery → Bool → Group
  handled g d is_taken = record {
    service = process decode g.service d;
    position = suc g.position;
    offset = offset_after g d.commit_fails is_taken;
  }

  -- One round of the loop of `Run`; a request; a process that ends at any moment, and the next one,
  -- with a hub of its own.
  pub data Step (g : Group) : Group → Type 0 where
    handles :
        (d : Delivery) (is_taken : Bool)
        → topic g.position ≡ some d.value
        → Step g (handled g d is_taken)
    marks :
        (fails : Option ℕ) (reply : CommitReply) (id user_id : ℕ)
        → Step g (record g {
          service = with_table g.service (mark_as_read g.service.table fails reply id user_id).0;
        })
    marks_all :
        (reply : CommitReply) (user_id : ℕ)
        → Step g (record g {
          service = with_table g.service (mark_all_as_read g.service.table reply user_id).0;
        })
    restarts : Step g (resume g)

  pub data Reached (from : Service) : Group → Type 0 where
    initially : Reached from (begin from)
    stepped : {before now : Group} → Step before now → Reached from before → Reached from now

  -- The database stores the notification of a message, under an identifier that no row has.
  abbrev pub IsAnswered : (g h : Group) → Step g h → Type 0
  IsAnswered g h (handles d is_taken e) =
      (d.reply ≡ committed) × (any (λ n. n.id == d.new_id) g.service.table ≡ false)
  IsAnswered g h (marks fails reply id user_id) = Unit {0}
  IsAnswered g h (marks_all reply user_id) = Unit {0}
  IsAnswered g h restarts = Unit {0}

  abbrev pub AllAnswered : (from : Service) {g : Group} → Reached from g → Type 0
  AllAnswered from initially = Unit {0}
  AllAnswered from (stepped {before} {now} st earlier) =
      IsAnswered before now st × AllAnswered from earlier
