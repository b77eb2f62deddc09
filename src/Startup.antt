-- ===== src/Startup.antt =====
-- How both services start: booking-service/internal/postgres/postgres.go and
-- notification-service/internal/postgres/postgres.go (`NewPool`), and in booking-service/cmd/main.go
-- and notification-service/cmd/main.go `runMigrations` and the beginning of `run`. The services
-- differ in the number of connections only. pgxpool and golang-migrate are parameters: what each of
-- their calls answers.
use meeting_room_booking_sys.Prelude.{ℕ, suc, ◌-◌, ◌≡◌, refl, arith, Bool, true, Option, none, some}
use meeting_room_booking_sys.Model.{Result, ok, err, other}

pub record PoolConfig : Type 0 where
  pub max_conns : ℕ
  pub min_conns : ℕ
  pub max_conn_lifetime : ℕ
  pub max_conn_idle_time : ℕ
  pub connect_timeout : ℕ

-- In seconds, where the source has a `time.Duration`.
abbrev pub booking_max_conns : ℕ
booking_max_conns = 20

abbrev pub notification_max_conns : ℕ
notification_max_conns = 10

abbrev pub configure : ℕ → PoolConfig → PoolConfig
configure max_conns cfg = record cfg {
  max_conns = max_conns;
  min_conns = 2;
  max_conn_lifetime = 3600;
  max_conn_idle_time = 1800;
  connect_timeout = 5;
}

-- What is open in the process, and whether every migration was applied.
pub record Resources : Type 0 where
  pub pools : ℕ
  pub migrators : ℕ
  pub is_migrated : Bool

-- `pool.Close` and `m.Close`.
abbrev pub close_pool : Resources → Resources
close_pool r = record r { pools = r.pools - 1 }

abbrev pub close_migrator : Resources → Resources
close_migrator r = record r { migrators = r.migrators - 1 }

-- What `ParseConfig` reads from the DSN, and whether `NewWithConfig` and `Ping` fail.
pub record PoolReply : Type 0 where
  pub parsed : Result PoolConfig
  pub create_fails : Option ℕ
  pub ping_fails : Option ℕ

-- A pool that does not answer is closed again.
abbrev pub pinged : Option ℕ → Resources → PoolConfig → Resources × Result PoolConfig
pinged none r cfg = (r, ok cfg)
pinged (some e) r cfg = (close_pool r, err (other e))

abbrev pub created : PoolReply → Option ℕ → Resources → PoolConfig → Resources × Result PoolConfig
created c (some e) r cfg = (r, err (other e))
created c none r cfg = pinged c.ping_fails (record r { pools = suc r.pools }) cfg

abbrev pub with_config :
    PoolReply → ℕ → Resources → Result PoolConfig → Resources × Result PoolConfig
with_config c max_conns r (err e) = (r, err e)
with_config c max_conns r (ok cfg) = created c c.create_fails r (configure max_conns cfg)

unfoldable pub new_pool : ℕ → PoolReply → Resources → Resources × Result PoolConfig
new_pool max_conns c r = with_config c max_conns r c.parsed

-- `m.Up`: it applied the missing migrations, there were none (`ErrNoChange`), or it failed.
pub data UpReply : Type 0 where
  applied no_change : UpReply
  up_failed : ℕ → UpReply

-- Whether `migrate.New` fails, and the answer of `m.Up`. The errors of `m.Close` are logged only.
pub record MigrateReply : Type 0 where
  pub open_fails : Option ℕ
  pub up : UpReply

abbrev pub migrate_up : UpReply → Resources → Resources × Result (Unit {0})
migrate_up (up_failed e) r = (close_migrator r, err (other e))
migrate_up no_change r = (close_migrator (record r { is_migrated = true }), ok tt)
migrate_up applied r = (close_migrator (record r { is_migrated = true }), ok tt)

abbrev pub migrator_opened : MigrateReply → Option ℕ → Resources → Resources × Result (Unit {0})
migrator_opened c (some e) r = (r, err (other e))
migrator_opened c none r = migrate_up c.up (record r { migrators = suc r.migrators })

unfoldable pub run_migrations : MigrateReply → Resources → Resources × Result (Unit {0})
run_migrations c r = migrator_opened c c.open_fails r

-- The deferred `pool.Close` runs where `run` returns.
abbrev pub migrated : PoolConfig → Resources × Result (Unit {0}) → Resources × Result PoolConfig
migrated cfg (r, err e) = (close_pool r, err e)
migrated cfg (r, ok done) = (r, ok cfg)

abbrev pub connected : MigrateReply → Resources × Result PoolConfig → Resources × Result PoolConfig
connected c (r, err e) = (r, err e)
connected c (r, ok cfg) = migrated cfg (run_migrations c r)

-- `run` up to the line "migrations applied".
unfoldable pub start : ℕ → PoolReply → MigrateReply → Resources → Resources × Result PoolConfig
unfolding new_pool run_migrations
start max_conns pool migrate r = connected migrate (new_pool max_conns pool r)

-- How a start ends: ready, with one more pool of the right size and the schema migrated, or with an
-- error, and then nothing more is open than before.
abbrev pub IsStarted : ℕ → Resources → Resources × Result PoolConfig → Type 0
IsStarted max_conns before (after, ok cfg) =
    (after.pools ≡ suc before.pools)
    × (after.migrators ≡ before.migrators)
    × (after.is_migrated ≡ true)
    × (cfg.max_conns ≡ max_conns)
IsStarted max_conns before (after, err e) =
    (after.pools ≡ before.pools) × (after.migrators ≡ before.migrators)

migrate_up-IsStarted :
    (max_conns : ℕ) (r : Resources) (cfg : PoolConfig) (up : UpReply)
    → cfg.max_conns ≡ max_conns
    → IsStarted max_conns r (
        migrated cfg
          (migrate_up up (record r { pools = suc r.pools; migrators = suc r.migrators })))
migrate_up-IsStarted max_conns r cfg applied h = (refl, omega arith, refl, h)
migrate_up-IsStarted max_conns r cfg no_change h = (refl, omega arith, refl, h)
migrate_up-IsStarted max_conns r cfg (up_failed e) h = (omega arith, omega arith)

opened-IsStarted :
    (max_conns : ℕ) (c : MigrateReply) (fails : Option ℕ) (r : Resources) (cfg : PoolConfig)
    → cfg.max_conns ≡ max_conns
    → IsStarted max_conns r
        (migrated cfg (migrator_opened c fails (record r { pools = suc r.pools })))
opened-IsStarted max_conns c (some e) r cfg h = (omega arith, refl)
opened-IsStarted max_conns c none r cfg h = migrate_up-IsStarted max_conns r cfg c.up h

created-IsStarted :
    (max_conns : ℕ) (pool : PoolReply) (c : MigrateReply) (create ping : Option ℕ) (r : Resources)
    (cfg : PoolConfig)
    → pool.ping_fails ≡ ping
    → cfg.max_conns ≡ max_conns
    → IsStarted max_conns r (connected c (created pool create r cfg))
unfolding run_migrations
created-IsStarted max_conns pool c (some e) ping r cfg p h = (refl, refl)
created-IsStarted max_conns pool c none none r cfg p h =
    rw p (opened-IsStarted max_conns c c.open_fails r cfg h)
created-IsStarted max_conns pool c none (some e) r cfg p h = rw p (omega arith, refl)

with_config-IsStarted :
    (max_conns : ℕ) (pool : PoolReply) (c : MigrateReply) (r : Resources) (cfg : Result PoolConfig)
    → IsStarted max_conns r (connected c (with_config pool max_conns r cfg))
with_config-IsStarted max_conns pool c r (err e) = (refl, refl)
with_config-IsStarted max_conns pool c r (ok cfg) =
    created-IsStarted max_conns pool c pool.create_fails pool.ping_fails r (configure max_conns cfg)
      refl refl

-- Whatever pgxpool and golang-migrate answer, a start either ends ready, with one more pool that has
-- the given number of connections, with the schema migrated and with no migrator left open; or it
-- ends with an error, and then no pool and no migrator is left open that was not open before.
pub start_lem :
    (max_conns : ℕ) (pool : PoolReply) (migrate : MigrateReply) (r : Resources)
    → IsStarted max_conns r (start max_conns pool migrate r)
unfolding start
start_lem max_conns pool migrate r = with_config-IsStarted max_conns pool migrate r pool.parsed
