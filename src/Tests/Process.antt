-- ===== src/Tests/Process.antt =====
-- The processes of the booking service, and how they start.
use meeting_room_booking_sys.Prelude.{
  ◌≤◌, ◌≡◌, ◌+◌, ◌&&◌, refl, arith, Bool, true, false, [], ◌∷◌, none, count_where,
}
use meeting_room_booking_sys.Model.{ok}
use meeting_room_booking_sys.Database.Sorting.{stable}
use meeting_room_booking_sys.Relay.{Message, Store, is_pending, message_of, drain, process_batch}
use meeting_room_booking_sys.Relay.Counting.{IsKeyed}
use meeting_room_booking_sys.Lifecycle.{
  Life, begin, listening, serving, returned, closed, stopped, commits, signals, ticks, begins_drain,
  drains, Reached, initially, stepped, Lives, unstarted, lived,
}
use meeting_room_booking_sys.Lifecycle.Restarts.{nothing_lost}
use meeting_room_booking_sys.Lifecycle.Shutdown.{IsSmooth, AllSteps, quiet_drained}
use meeting_room_booking_sys.Lifecycle.Races.{late_commit}
use meeting_room_booking_sys.Startup.{
  Resources, PoolConfig, PoolReply, MigrateReply, up_failed, IsStarted, start, start_lem,
}
use meeting_room_booking_sys.Tests.Data.{
  booked_row, full, poll, poll-Succeeds, one_row, second_row, broken,
}

abbrev two : Store
two = record { outbox = booked_row ∷ second_row ∷ []; topic = [] }

two-IsKeyed : IsKeyed (booked_row ∷ second_row ∷ [])
two-IsKeyed id = ground arith

-- The first process crashes after a request has written a row; the second one after the broker took a
-- message and its answer was lost.
abbrev after_crash : Store
after_crash = (process_batch stable two broken).0

crashes : Lives stable full after_crash (second_row ∷ [])
unfolding begin
crashes =
    lived (stepped (ticks broken refl refl) initially)
      (lived (stepped (commits (second_row ∷ []) refl (λ x. cc) two-IsKeyed) initially) unstarted)

nothing_lost_example :
    (count_where is_pending (drain stable after_crash (poll 63 ∷ [])).outbox ≡ 0)
    × ((q : Message → Bool)
        → count_where q []
            + count_where (λ o. is_pending o && q (message_of o)) (booked_row ∷ [])
            + count_where (λ o. is_pending o && q (message_of o)) (second_row ∷ [])
          ≤ count_where q (drain stable after_crash (poll 63 ∷ [])).topic)
unfolding process_batch stable
nothing_lost_example =
    nothing_lost stable full after_crash (second_row ∷ []) (poll 63 ∷ []) one_row crashes
      (poll-Succeeds 63, tt) (omega arith)

-- A process that is signalled and drains a row.
abbrev drained : Life
drained = record {
  store = (process_batch stable (process_batch stable full (poll 60)).0 (poll 61)).0;
  server = listening;
  main = serving;
  relay = stopped;
  is_signalled = true;
  has_pool = true;
  written = [];
}

drained-Reached : Reached stable full drained
unfolding begin process_batch stable
drained-Reached = stepped (drains (poll 61) refl refl) (
    stepped (drains (poll 60) refl refl)
      (stepped (begins_drain refl refl) (stepped signals initially)))

quiet_drained_example : count_where is_pending drained.store.outbox ≡ 0
unfolding begin process_batch stable drained-Reached
quiet_drained_example =
    quiet_drained stable full drained drained-Reached
      (poll-Succeeds 61, (poll-Succeeds 60, (tt, (tt, tt)))) (tt, (tt, (tt, (tt, tt)))) one_row refl

abbrev idle : Store
idle = record { outbox = []; topic = [] }

late_commit_example :
    (s : Life) × (r : Reached stable idle s) × AllSteps stable (IsSmooth stable) idle r
    × (s.main ≡ returned none)
    × (s.server ≡ closed)
    × (s.relay ≡ stopped)
    × (count_where is_pending s.store.outbox ≡ 1)
late_commit_example =
    late_commit stable idle (poll 60) booked_row (poll-Succeeds 60) refl refl one_row

abbrev defaults : PoolConfig
defaults = record {
  max_conns = 4;
  min_conns = 0;
  max_conn_lifetime = 3600;
  max_conn_idle_time = 1800;
  connect_timeout = 0;
}

abbrev nothing_open : Resources
nothing_open = record { pools = 0; migrators = 0; is_migrated = false }

-- The database answers, and a migration fails.
abbrev pool_reply : PoolReply
pool_reply = record { parsed = ok defaults; create_fails = none; ping_fails = none }

abbrev migrate_reply : MigrateReply
migrate_reply = record { open_fails = none; up = up_failed 7 }

start_lem_example : IsStarted 20 nothing_open (start 20 pool_reply migrate_reply nothing_open)
start_lem_example = start_lem 20 pool_reply migrate_reply nothing_open
