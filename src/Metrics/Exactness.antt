-- ===== src/Metrics/Exactness.antt =====
-- What the counters say is what happened.
use Prim.Native.String.{String}
use mathlib.Core.List.{append-nil, append_assoc}
use meeting_room_booking_sys.Prelude.{
  ℕ, suc, ◌+◌, ◌≤◌, ◌≡◌, inl, inr, refl, ap, arith, Bool, if◌then◌else◌, List, [], ◌∷◌, ◌++◌, map,
  Option, none, some, select, length, length-append, Bool-cases, Option-cases,
}
use meeting_room_booking_sys.Model.{BookingEvent, Result, ok, err}
use meeting_room_booking_sys.Database.{OutboxRow, CommitReply, committed, refused, lost}
use meeting_room_booking_sys.Database.Sorting.{Order}
use meeting_room_booking_sys.Relay.{
  Store, Poll, WriteReply, delivered, failed, message_of, fetch_pending, process_batch,
  process_records, append_topic, finish, publish,
}
use meeting_room_booking_sys.Notifications.{Service, create_from_event}
use meeting_room_booking_sys.Consumer.{Delivery, process}
use meeting_room_booking_sys.Metrics.{
  Label, Call, label_of, metrics_all, RelayMetrics, count_batch, count_batches, ConsumerMetrics,
  count_handled, count_message,
}

-- The requests without the middleware.
module _ {S R : Type 0} (status : R → ℕ) (is_exempt : String → Bool) where
  abbrev pub serve_all : List (Call × (S → S × R)) → S → S × List R
  serve_all [] s = (s, [])
  serve_all ((c, next) ∷ calls) s =
      let (t, r) = next s in let (u, rs) = serve_all calls t in (u, r ∷ rs)

  -- The labels of the requests that are not exempt, with the codes of their replies.
  abbrev pub labels : List (Call × (S → S × R)) → List R → List Label
  labels [] rs = []
  labels (c ∷ calls) [] = []
  labels ((c, next) ∷ calls) (r ∷ rs) =
      let rest = labels calls rs in
      if is_exempt c.url_path then rest else label_of c (status r) ∷ rest

  -- The middleware changes neither what the handlers do nor what they reply, and counts every request
  -- to a path that is not exempt once, under the pattern of its route and the code of its reply.
  pub metrics_all_lem :
      (calls : List (Call × (S → S × R))) (counted : List Label) (s : S)
      → metrics_all status is_exempt calls (counted, s) ≡ (
        (counted ++ labels calls (serve_all calls s).1, (serve_all calls s).0),
        (serve_all calls s).1,
      )
  unfolding metrics_all
  metrics_all_lem [] counted s = simp append-nil
  metrics_all_lem ((c, next) ∷ calls) counted s = elim (Bool-cases (is_exempt c.url_path)) [
    | inl e ↦ rw e (rw (metrics_all_lem calls counted (next s).0) refl)
    | inr e ↦ rw e (
        rw (metrics_all_lem calls (counted ++ label_of c (status (next s).1) ∷ []) (next s).0)
          (simp append_assoc))
  ]

-- A batch that succeeds reports as many messages as the topic gained; the topic never shrinks.
abbrev Reports : Store → Store × Result ℕ → Type 0
Reports s (t, ok n) = length t.topic ≡ length s.topic + n
Reports s (t, err e) = length s.topic ≤ length t.topic

length-messages : (rows : List OutboxRow) → length (map message_of rows) ≡ length rows
length-messages [] = refl
length-messages (r ∷ rows) = ap suc (length-messages rows)

finish-Reports :
    (c : Poll) (records : List OutboxRow) (s : Store) (fails : Option ℕ) (r : CommitReply)
    → c.mark_fails ≡ fails
    → c.commit_reply ≡ r
    → Reports s (finish c records (append_topic s (map message_of records)))
finish-Reports c records s (some x) r m e =
    rw m (omega (arith, length-append s.topic (map message_of records)))
finish-Reports c records s none committed m e =
    rw m (
      rw e (omega (arith, length-append s.topic (map message_of records), length-messages records)))
finish-Reports c records s none (refused x) m e =
    rw m (rw e (omega (arith, length-append s.topic (map message_of records))))
finish-Reports c records s none (lost x) m e =
    rw m (rw e (omega (arith, length-append s.topic (map message_of records))))

publish-Reports :
    (c : Poll) (records : List OutboxRow) (s : Store) (w : WriteReply)
    → c.write_reply ≡ w
    → Reports s (publish c records s)
publish-Reports c records s delivered e =
    rw e (finish-Reports c records s c.mark_fails c.commit_reply refl refl)
publish-Reports c records s (failed x taken) e =
    rw e (omega (arith, length-append s.topic (select taken (map message_of records))))

records-Reports :
    (c : Poll) (records : List OutboxRow) (s : Store) → Reports s (process_records c records s)
records-Reports c [] s = omega arith
records-Reports c (r ∷ rows) s = publish-Reports c (r ∷ rows) s c.write_reply refl

batch-Reports : (order : Order) (s : Store) (c : Poll) → Reports s (process_batch order s c)
unfolding process_batch
batch-Reports order s c = elim (Option-cases c.begin_fails) [
  | inr (e, b) ↦ rw b (omega arith)
  | inl b ↦ elim (Option-cases c.fetch_fails) [
    | inr (e, f) ↦ rw b (rw f (omega arith))
    | inl f ↦ rw b (rw f (records-Reports c (fetch_pending order c s.outbox) s))
  ]
]

counted-Reports :
    (m : RelayMetrics) (s : Store) (r : Store × Result ℕ)
    → Reports s r
    → (count_batch m r.1).published_total + length s.topic ≤ m.published_total + length r.0.topic
counted-Reports m s (t, ok n) h = omega (arith, h)
counted-Reports m s (t, err e) h = omega (arith, h)

-- The counter of published records never overstates: over any polls of the relay, whatever fails in
-- them, it grows by at most as much as the topic.
pub count_batches-le :
    (order : Order) (m : RelayMetrics) (s : Store) (polls : List Poll)
    → (count_batches order (m, s) polls).0.published_total + length s.topic
      ≤ m.published_total + length (count_batches order (m, s) polls).1.topic
unfolding count_batches
count_batches-le order m s [] = omega arith
count_batches-le order m s (c ∷ polls) =
    let r = process_batch order s c in
    omega (
      arith,
      counted-Reports m s r (batch-Reports order s c),
      count_batches-le order (count_batch m r.1) r.0 polls,
    )

module _ (decode : List ℕ → Option BookingEvent) where
  handled_once :
      (m : ConsumerMetrics) (r : Result (Unit {0}))
      → (count_handled m r).consumed_total + (count_handled m r).errors_total
        ≡ suc (m.consumed_total + m.errors_total)
  handled_once m (ok done) = omega arith
  handled_once m (err e) = omega arith

  -- Each message is counted once, as consumed or as an error, and counting it changes nothing else.
  pub count_message_lem :
      (m : ConsumerMetrics) (s : Service) (d : Delivery)
      → ((count_message decode (m, s) d).0.consumed_total
            + (count_message decode (m, s) d).0.errors_total
          ≡ suc (m.consumed_total + m.errors_total))
        × ((count_message decode (m, s) d).1 ≡ process decode s d)
  count_message_lem m s d = elim (Option-cases (decode d.value)) [
    | inl e ↦ rw (e, count_message) (rw (e, process) (omega arith, refl))
    | inr (event, e) ↦
        rw (e, count_message)
          (rw (e, process)
            (handled_once m (create_from_event s d.new_id d.now d.reply event).1, refl))
  ]
