-- ===== src/Consumer/Offsets/Announcement.antt =====
-- Kafka's offset passes a message only when its event has been announced, over any number of restarts.
use meeting_room_booking_sys.Prelude.{
  ℕ, suc, ◌≤◌, ◌<◌, ◌≡◌, inl, inr, sym, ap, ◌∙◌, subst, arith, Bool, true, false, ◌==◌, List,
  Option, none, some, any, any_of_count_pos, count_where, count_where_pos, Bool-cases, ==_iff,
}
use meeting_room_booking_sys.Model.{BookingEvent}
use meeting_room_booking_sys.Database.{committed}
use meeting_room_booking_sys.Hub.{Notification, NotificationType}
use meeting_room_booking_sys.Notifications.{Service, is_about, type_of, notification_of}
use meeting_room_booking_sys.Notifications.Delivery.{IsUnique}
use meeting_room_booking_sys.Notifications.Reading.{
  SameAbout, mark_as_read-SameAbout, mark_all_as_read-SameAbout,
}
use meeting_room_booking_sys.Consumer.{Delivery, process}
use meeting_room_booking_sys.Consumer.Progress.{process-IsUnique}
use meeting_room_booking_sys.Consumer.Storage.{insert_known, add_keeps, process_table}
use meeting_room_booking_sys.Consumer.Offsets.{
  handled, Group, offset_after, begin, with_table, Step, handles, marks, marks_all, restarts,
  Reached, initially, stepped, IsAnswered, AllAnswered,
}

module _ (decode : List ℕ → Option BookingEvent) (topic : ℕ → Option (List ℕ)) where
  -- The event of the message at an offset has its notification.
  abbrev IsDone : List Notification → ℕ → Type 0
  IsDone table k =
      (value : List ℕ) (event : BookingEvent) (type : NotificationType)
      → topic k ≡ some value
      → decode value ≡ some event
      → type_of event.event_type ≡ some type
      → event.slot_start < event.slot_end
      → any (is_about event.booking_id type) table ≡ true

  record Inv (g : Group) : Type 0 where
    unique : IsUnique g.service.table
    behind : g.offset ≤ g.position
    done : (k : ℕ) → k < g.position → IsDone g.service.table k

  marked-Inv :
      (g : Group) (table : List Notification)
      → SameAbout g.service.table table
      → Inv g
      → Inv (record g { service = with_table g.service table })
  marked-Inv g table same v = record {
    unique = λ b t. omega (arith, same b t, v.unique b t);
    behind = v.behind;
    done = λ k l value event type e d y lasts.
        any_of_count_pos (is_about event.booking_id type) table (
          omega (
            arith,
            same event.booking_id type,
            count_where_pos (is_about event.booking_id type) g.service.table
                (v.done k l value event type e d y lasts),
          ));
  }

  processed_keeps :
      (s : Service) (d : Delivery) (p : Notification → Bool)
      → d.reply ≡ committed
      → any p s.table ≡ true
      → any p (process decode s d).table ≡ true
  processed_keeps s d p r h =
      rw (process_table decode s d) (add_keeps s.table d (decode d.value) p r h)

  processed_known :
      (s : Service) (d : Delivery) (event : BookingEvent) (type : NotificationType)
      → d.reply ≡ committed
      → any (λ n. n.id == d.new_id) s.table ≡ false
      → decode d.value ≡ some event
      → type_of event.event_type ≡ some type
      → event.slot_start < event.slot_end
      → any (is_about event.booking_id type) (process decode s d).table ≡ true
  processed_known s d event type r fresh here known lasts = rw (process_table decode s d) (
      rw here (
        rw known
          (rw r (insert_known s.table (notification_of type d.new_id d.now event) lasts fresh))))

  offset-le :
      (g : Group) (o : Option ℕ) (t : Bool)
      → g.offset ≤ g.position
      → offset_after g o t ≤ suc g.position
  offset-le g none t h = omega arith
  offset-le g (some e) true h = omega arith
  offset-le g (some e) false h = omega arith

  handles-Inv :
      (g : Group) (d : Delivery) (is_taken : Bool)
      → topic g.position ≡ some d.value
      → d.reply ≡ committed
      → any (λ n. n.id == d.new_id) g.service.table ≡ false
      → Inv g
      → Inv (handled decode topic g d is_taken)
  handles-Inv g d is_taken at r fresh v = record {
    unique = process-IsUnique decode g.service d v.unique;
    behind = offset-le g d.commit_fails is_taken v.behind;
    done = λ k l value event type e here known lasts. elim (Bool-cases (k == g.position)) [
      | inl now ↦
          processed_known g.service d event type r fresh
            (subst (λ x. decode x ≡ some event)
              (cc (sym e ∙ ap topic ((==_iff k g.position).0 now) ∙ at)) here)
            known lasts
      | inr before ↦
          processed_keeps g.service d (is_about event.booking_id type) r
            (v.done k (ground arith) value event type e here known lasts)
    ];
  }

  Step-Inv :
      {g h : Group} (st : Step decode topic g h) → IsAnswered decode topic g h st → Inv g → Inv h
  Step-Inv {g} (handles d is_taken at) (r, fresh) v = handles-Inv g d is_taken at r fresh v
  Step-Inv {g} (marks fails reply id user_id) a v =
      marked-Inv g _ (mark_as_read-SameAbout g.service.table fails reply id user_id) v
  Step-Inv {g} (marks_all reply user_id) a v =
      marked-Inv g _ (mark_all_as_read-SameAbout g.service.table reply user_id) v
  Step-Inv {g} restarts a v = record {
    unique = v.unique;
    behind = omega arith;
    done = λ k l. v.done k (omega (arith, l, v.behind));
  }

  Reached-Inv :
      (from : Service) {g : Group} (r : Reached decode topic from g)
      → IsUnique from.table
      → AllAnswered decode topic from r
      → Inv g
  Reached-Inv from initially u a =
      unfold begin in
      record { unique = u; behind = omega arith; done = λ k l. absurd (omega arith) }
  Reached-Inv from (stepped st earlier) u a = Step-Inv st a.0 (Reached-Inv from earlier u a.1)

  -- The consumer reads a partition over any number of processes, each of which may end at any moment,
  -- with commits of offsets that fail, whether or not Kafka has taken them, and with requests that mark
  -- notifications as read; the database stores what each message gives it, under a new identifier. As
  -- soon as the offset of the group has passed a message that carries an event of a known type, whose
  -- slot starts before it ends, there is exactly one notification of the event's booking and
  -- type, however often the message was delivered.
  pub committed_announced :
      (from : Service) (g : Group) (r : Reached decode topic from g) (k : ℕ) (value : List ℕ)
      (event : BookingEvent) (type : NotificationType)
      → IsUnique from.table
      → AllAnswered decode topic from r
      → k < g.offset
      → topic k ≡ some value
      → decode value ≡ some event
      → type_of event.event_type ≡ some type
      → event.slot_start < event.slot_end
      → count_where (is_about event.booking_id type) g.service.table ≡ 1
  committed_announced from g r k value event type u a l e here known lasts =
      let v = Reached-Inv from r u a in
      omega (
        arith,
        v.unique event.booking_id type,
        count_where_pos (is_about event.booking_id type) g.service.table
            (v.done k (omega (arith, l, v.behind)) value event type e here known lasts),
      )
