-- ===== src/NotificationLifecycle.antt =====
-- The goroutines of notification-service/cmd/main.go (`run` from the start of the consumer to the
-- return): one life of the process of the notification service, in every interleaving of `run`, the
-- HTTP server with its requests and streams, and the consumer (Consumer.Offsets). A step that a
-- timeout makes may come at any time.
pub mod Shutdown
use meeting_room_booking_sys.Prelude.{
  ℕ, zero, suc, ◌≡◌, ◌≢◌, Bool, true, false, List, Option, none, some,
}
use meeting_room_booking_sys.Model.{BookingEvent}
use meeting_room_booking_sys.Database.{CommitReply}
use meeting_room_booking_sys.Notifications.{Service, mark_as_read, mark_all_as_read}
use meeting_room_booking_sys.Consumer.{Delivery}
use meeting_room_booking_sys.Consumer.Offsets.{Group, handled, with_table, resume}
use meeting_room_booking_sys.Consumer.Offsets

-- `ListenAndServe` accepts requests, or has failed, or returned because of `Shutdown`; `Shutdown` has
-- returned without an error, after the last request and the last stream; or `Close` has cut the
-- connections.
pub data Server : Type 0 where
  listening : Server
  failed : ℕ → Server
  finishing closed cut : Server

abbrev pub stop_listening : Server → Server
stop_listening listening = finishing
stop_listening (failed e) = failed e
stop_listening finishing = finishing
stop_listening closed = closed
stop_listening cut = cut

-- `run` waits at its first `select`; waits for the consumer because the server failed; is in
-- `srv.Shutdown`; waits for the consumer after it; or has returned, with or without an error.
pub data Main : Type 0 where
  serving : Main
  failing : ℕ → Main
  shutting_down awaiting_consumer : Main
  returned : Option ℕ → Main

-- `is_signalled` is `ctx.Done`; `is_consuming` ends with `consumerWg.Done`; `streams` counts the open
-- streams.
pub record Life : Type 0 where
  pub group : Group
  pub server : Server
  pub main : Main
  pub is_consuming : Bool
  pub is_signalled : Bool
  pub has_pool : Bool
  pub has_reader : Bool
  pub streams : ℕ

unfoldable pub begin : Group → Life
begin g = record {
  group = g;
  server = listening;
  main = serving;
  is_consuming = true;
  is_signalled = false;
  has_pool = true;
  has_reader = true;
  streams = 0;
}

-- `run` returns: the deferred `consumer.Close`, `stop` and `pool.Close`.
abbrev pub return : Life → Option ℕ → Life
return s error = record s {
  main = returned error;
  is_signalled = true;
  has_pool = false;
  has_reader = false;
}

abbrev pub with_group : Life → Group → Life
with_group s g = record s { group = g }

module _ (decode : List ℕ → Option BookingEvent) (topic : ℕ → Option (List ℕ)) where
  pub data Step (s : Life) : Life → Type 0 where
    -- A round of the consumer. Its loop ends only when the context is done.
    consumes :
        (d : Delivery) (is_taken : Bool)
        → s.is_consuming ≡ true
        → topic s.group.position ≡ some d.value
        → Step s (with_group s (handled decode topic s.group d is_taken))
    ends_consumer :
        s.is_consuming ≡ true → s.is_signalled ≡ true → Step s (record s { is_consuming = false })
    -- The requests.
    marks :
        (fails : Option ℕ) (reply : CommitReply) (id user_id : ℕ)
        → s.has_pool ≡ true
        → s.server ≢ closed
        → Step s (
            with_group s (record s.group {
              service =
                  with_table s.group.service
                    (mark_as_read s.group.service.table fails reply id user_id).0;
            }))
    marks_all :
        (reply : CommitReply) (user_id : ℕ)
        → s.has_pool ≡ true
        → s.server ≢ closed
        → Step s (
            with_group s (record s.group {
              service =
                  with_table s.group.service
                    (mark_all_as_read s.group.service.table reply user_id).0;
            }))
    opens_stream : s.server ≢ closed → Step s (record s { streams = suc s.streams })
    closes_stream : (n : ℕ) → s.streams ≡ suc n → Step s (record s { streams = n })
    server_fails : (e : ℕ) → s.server ≡ listening → Step s (record s { server = failed e })
    signals : Step s (record s { is_signalled = true })
    -- The steps of `run`. `Shutdown` does not end while a stream is open.
    begins_failing :
        (e : ℕ)
        → s.main ≡ serving
        → s.server ≡ failed e
        → Step s (record s { main = failing e; is_signalled = true })
    returns_error :
        (e : ℕ) → s.main ≡ failing e → s.is_consuming ≡ false → Step s (return s (some e))
    begins_shutdown :
        s.main ≡ serving
        → s.is_signalled ≡ true
        → Step s (record s { main = shutting_down; server = stop_listening s.server })
    ends_shutdown :
        s.main ≡ shutting_down
        → s.streams ≡ 0
        → Step s (record s { main = awaiting_consumer; server = closed })
    cuts_connections :
        s.main ≡ shutting_down → Step s (record s { main = awaiting_consumer; server = cut })
    returns : s.main ≡ awaiting_consumer → s.is_consuming ≡ false → Step s (return s none)

  pub data Reached (g : Group) : Life → Type 0 where
    initially : Reached g (begin g)
    stepped : {before now : Life} → Step before now → Reached g before → Reached g now

  -- One process after another on the same table and partition, each of which may end at any moment.
  pub data Lives (from : Service) : Group → Type 0 where
    unstarted : Lives from (Offsets.begin from)
    lived : {g : Group} {s : Life} → Reached (resume g) s → Lives from g → Lives from s.group
