-- ===== src/Metrics.antt =====
-- The counters of booking-service/internal/metrics/metrics.go and
-- notification-service/internal/metrics/metrics.go, the middleware `Metrics` of both services
-- (internal/http/middleware/metrics.go), and where booking-service/internal/outbox/relay.go,
-- booking-service/internal/http/handlers/booking.go and
-- notification-service/internal/kafka/consumer.go count. A counter with labels is the list of its
-- increments. The histograms and the gauge are left out, as are the clock and chi's routing, whose
-- pattern of a request is an argument.
pub mod Exactness
use Prim.Native.String.{String}
use text.Mathlib.Text.{◌==◌ as ◌==ˢ◌}
use meeting_room_booking_sys.Prelude.{
  ℕ, zero, suc, ◌+◌, ◌==◌, ◌||◌, ◌&&◌, Bool, if◌then◌else◌, List, [], ◌∷◌, ◌++◌, Option, none, some,
}
use meeting_room_booking_sys.Model.{BookingEvent, Error, slot_already_booked, Result, ok, err}
use meeting_room_booking_sys.Database.{Db}
use meeting_room_booking_sys.Database.Sorting.{Order}
use meeting_room_booking_sys.Model.{Booking}
use meeting_room_booking_sys.Relay.{Store, Poll, process_batch}
use meeting_room_booking_sys.Notifications.{Service, create_from_event}
use meeting_room_booking_sys.Consumer.{Delivery}

-- `http_requests_total` by method, path and code.
pub record Label : Type 0 where
  pub method : String
  pub path : String
  pub code : ℕ

-- A request: its method and path, and the pattern of the route that serves it.
pub record Call : Type 0 where
  pub method : String
  pub url_path : String
  pub pattern : String

-- The paths that are not counted.
abbrev pub is_booking_exempt : String → Bool
is_booking_exempt path = path ==ˢ "/metrics"

abbrev pub is_notification_exempt : String → Bool
is_notification_exempt path = path ==ˢ "/metrics" || path ==ˢ "/notifications/stream"

abbrev pub label_of : Call → ℕ → Label
label_of c code = record { method = c.method; path = c.pattern; code = code }

-- The middleware around a handler, for the state `S` and replies `R` with their status.
module _ {S R : Type 0} (status : R → ℕ) (is_exempt : String → Bool) where
  abbrev pub count_request : Call → List Label → S × R → (List Label × S) × R
  count_request c counted (s, r) = ((counted ++ label_of c (status r) ∷ [], s), r)

  abbrev pub uncounted : List Label → S × R → (List Label × S) × R
  uncounted counted (s, r) = ((counted, s), r)

  unfoldable pub metrics : (S → S × R) → Call → List Label × S → (List Label × S) × R
  metrics next c (counted, s) =
      if is_exempt c.url_path then uncounted counted (next s) else count_request c counted (next s)

  -- Requests one after another, and their replies.
  unfoldable pub metrics_all :
      List (Call × (S → S × R)) → List Label × S → (List Label × S) × List R
  unfolding metrics
  metrics_all [] s = (s, [])
  metrics_all ((c, next) ∷ calls) s =
      let (t, r) = metrics next c s in let (u, rs) = metrics_all calls t in (u, r ∷ rs)

-- `booking_outbox_published_total` and `booking_outbox_errors_total`.
pub record RelayMetrics : Type 0 where
  pub published_total : ℕ
  pub errors_total : ℕ

abbrev pub count_batch : RelayMetrics → Result ℕ → RelayMetrics
count_batch m (ok n) = record m { published_total = m.published_total + n }
count_batch m (err e) = record m { errors_total = suc m.errors_total }

-- Polls of `Relay.processBatch`, one after another, with the rows that requests write before each.
unfoldable pub count_batches : Order → RelayMetrics × Store → List Poll → RelayMetrics × Store
unfolding process_batch
count_batches order (m, s) [] = (m, s)
count_batches order (m, s) (c ∷ polls) =
    let (t, r) = process_batch order s c in count_batches order (count_batch m r, t) polls

-- `booking_slot_conflicts_total`, counted by the handler `createBooking`.
abbrev pub count_conflict : ℕ → Result Booking → ℕ
count_conflict n (err slot_already_booked) = suc n
count_conflict n other = n

-- `notification_kafka_messages_consumed_total` and `notification_kafka_consumer_errors_total`.
pub record ConsumerMetrics : Type 0 where
  pub consumed_total : ℕ
  pub errors_total : ℕ

abbrev pub count_handled : ConsumerMetrics → Result (Unit {0}) → ConsumerMetrics
count_handled m (ok done) = record m { consumed_total = suc m.consumed_total }
count_handled m (err e) = record m { errors_total = suc m.errors_total }

module _ (decode : List ℕ → Option BookingEvent) where
  abbrev pub count_message : ConsumerMetrics × Service → Delivery → ConsumerMetrics × Service
  count_message (m, s) d = elim (decode d.value) [
    | none ↦ (record m { errors_total = suc m.errors_total }, s)
    | some event ↦
        let (t, r) = create_from_event s d.new_id d.now d.reply event in (count_handled m r, t)
  ]
