-- ===== src/Lifecycle.antt =====
-- The goroutines of booking-service/cmd/main.go (`run` from the start of the relay to the return) and
-- of booking-service/internal/outbox/relay.go (`Run`): one life of the process of the booking
-- service, in every interleaving of `run`, the HTTP server with its requests, and the relay. Each
-- batch of the relay is a step, and so is each group of rows that a request commits. When the
-- timeouts end is not modelled: a step that a timeout makes may come at any time.
pub mod Shutdown
pub mod Restarts
pub mod Races
use meeting_room_booking_sys.Prelude.{
  ℕ, zero, suc, ◌≡◌, ◌≢◌, Bool, true, false, List, [], ◌++◌, Option, none, some,
}
use meeting_room_booking_sys.Database.{OutboxRow}
use meeting_room_booking_sys.Database.Sorting.{Order}
use meeting_room_booking_sys.Relay.{Store, Poll, process_batch, published}
use meeting_room_booking_sys.Relay.Counting.{IsKeyed}

-- `ListenAndServe` accepts requests, or has failed, or returned because `Shutdown` was called; and
-- `Shutdown` has returned without an error, after the last request. Only then no handler runs.
pub data Server : Type 0 where
  listening : Server
  failed : ℕ → Server
  finishing : Server
  closed : Server

abbrev pub stop_listening : Server → Server
stop_listening listening = finishing
stop_listening (failed e) = failed e
stop_listening finishing = finishing
stop_listening closed = closed

-- `run` waits at its first `select`, is in `srv.Shutdown`, waits for the relay, or has returned, with
-- or without an error.
pub data Main : Type 0 where
  serving : Main
  shutting_down : Main
  awaiting_relay : Main
  returned : Option ℕ → Main

-- The loop of `Relay.Run` before `ctx.Done`, its drain, and after its return (`relayDone`).
pub data RelayPhase : Type 0 where
  polling : RelayPhase
  draining : RelayPhase
  stopped : RelayPhase

-- The drain goes on after a batch that published something.
abbrev pub relay_after : ℕ → RelayPhase
relay_after zero = stopped
relay_after (suc n) = draining

-- `is_signalled` is `ctx.Done`; `written` are the rows of the outbox that requests have committed.
pub record Life : Type 0 where
  pub store : Store
  pub server : Server
  pub main : Main
  pub relay : RelayPhase
  pub is_signalled : Bool
  pub has_pool : Bool
  pub written : List OutboxRow

unfoldable pub begin : Store → Life
begin store = record {
  store = store;
  server = listening;
  main = serving;
  relay = polling;
  is_signalled = false;
  has_pool = true;
  written = [];
}

abbrev pub with_rows : Store → List OutboxRow → Store
with_rows store rows = record store { outbox = store.outbox ++ rows }

-- `run` returns: the deferred `stop`, and then `pool.Close`, after which no statement is carried out.
abbrev pub return : Life → Option ℕ → Life
return s error = record s { main = returned error; is_signalled = true; has_pool = false }

module _ (order : Order) where
  pub data Step (s : Life) : Life → Type 0 where
    -- A request commits, under new keys.
    commits :
        (rows : List OutboxRow)
        → s.has_pool ≡ true
        → s.server ≢ closed
        → IsKeyed (s.store.outbox ++ rows)
        → Step s (record s { store = with_rows s.store rows; written = s.written ++ rows })
    server_fails : (e : ℕ) → s.server ≡ listening → Step s (record s { server = failed e })
    signals : Step s (record s { is_signalled = true })
    -- A tick of the relay, and its drain. The drain ends at a batch that publishes nothing, or when
    -- its time is over; without a pool it publishes nothing.
    ticks :
        (c : Poll)
        → s.relay ≡ polling
        → s.has_pool ≡ true
        → Step s (record s { store = (process_batch order s.store c).0 })
    begins_drain :
        s.relay ≡ polling → s.is_signalled ≡ true → Step s (record s { relay = draining })
    drains :
        (c : Poll)
        → s.relay ≡ draining
        → s.has_pool ≡ true
        → Step s (record s {
          store = (process_batch order s.store c).0;
          relay = relay_after (published (process_batch order s.store c).1);
        })
    stops_drain : s.relay ≡ draining → Step s (record s { relay = stopped })
    -- The steps of `run`.
    returns_error : (e : ℕ) → s.main ≡ serving → s.server ≡ failed e → Step s (return s (some e))
    begins_shutdown :
        s.main ≡ serving
        → s.is_signalled ≡ true
        → Step s (record s { main = shutting_down; server = stop_listening s.server })
    ends_shutdown :
        s.main ≡ shutting_down → Step s (record s { main = awaiting_relay; server = closed })
    abandons_shutdown : s.main ≡ shutting_down → Step s (record s { main = awaiting_relay })
    returns : s.main ≡ awaiting_relay → s.relay ≡ stopped → Step s (return s none)
    abandons_relay : s.main ≡ awaiting_relay → Step s (return s none)

  -- What a process that starts on a store can become.
  pub data Reached (store : Store) : Life → Type 0 where
    initially : Reached store (begin store)
    stepped : {before now : Life} → Step before now → Reached store before → Reached store now

  -- One process after another, each of which may crash at any moment: the store at the end, and all
  -- rows that were written.
  pub data Lives (store : Store) : Store → List OutboxRow → Type 0 where
    unstarted : Lives store store []
    lived :
        {middle : Store} {written : List OutboxRow} {s : Life}
        → Reached middle s
        → Lives store middle written
        → Lives store s.store (written ++ s.written)
