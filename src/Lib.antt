-- ===== src/Lib.antt =====
-- A meeting room booking system in two Go services that share one event format.
--
-- The booking service (booking-service/) keeps rooms, schedules, slots and bookings in PostgreSQL.
-- Slots are made from a room's schedule when a day is asked for. A booking and a cancellation each
-- write an event to the table `outbox` in their own transaction; a relay publishes the pending rows
-- to Kafka. The notification service (notification-service/) consumes the topic, stores at most one
-- notification per booking and type, and sends a new one to the open streams of its user. A stream
-- is opened with a one-time token.
--
-- Which file models which part:
--   Model           booking-service/internal/model, shared/events/events.go: entities, errors, events
--   Database        the tables of booking-service/migrations, transactions, ORDER BY
--   Bookings        booking-service/internal/repo/booking/booking.go; Bookings/Calendar is an abstract
--                   view of it, the holder of each slot, and Bookings/Offers what it means for the
--                   free slots
--   BookingService  booking-service/internal/service/booking/booking.go and
--                   booking-service/internal/client/conference/conference.go
--   Clock           what the code uses of Go's package time and of TO_CHAR
--   Slots           booking-service/internal/repo/slot/slot.go, and isDayInSchedule and generateSlots
--                   of booking-service/internal/service/slot/slot.go
--   SlotService     ListAvailableSlots of booking-service/internal/service/slot/slot.go
--   Schedules       booking-service/internal/repo/schedule/schedule.go, RoomExists of
--                   booking-service/internal/repo/room/room.go
--   Rooms           CreateRoom and ListRooms of booking-service/internal/repo/room/room.go
--   Accounts        booking-service/internal/repo/auth/auth.go,
--                   booking-service/internal/service/auth/auth.go
--   Relay           booking-service/internal/repo/outbox/outbox.go,
--                   booking-service/internal/outbox/relay.go
--   Jwt             booking-service/internal/pkg/jwt/jwt.go, and what its tokens are worth
--   Http            booking-service/internal/http: middleware, handlers, errors and router
--   NotificationHttp
--                   notification-service/internal/http without the stream, and
--                   notification-service/internal/pkg/jwt/jwt.go
--   Config          booking-service/internal/config/config.go,
--                   notification-service/internal/config/config.go, the list of brokers of
--                   booking-service/cmd/main.go; Config/Url has what the first uses of net/url
--   Notifications   notification-service/internal/repo/notification/notification.go,
--                   notification-service/internal/service/notification/notification.go
--   Consumer        notification-service/internal/kafka/consumer.go, and the loop of
--                   notification-service/cmd/main.go that runs it again
--                   Consumer/Offsets adds the offsets of its group and the restarts of its process
--   Pipeline        the way of an event: the outbox, the relay, the topic, the consumer, the table
--   Hub             notification-service/internal/hub/hub.go
--   Tokens          notification-service/internal/hub/token.go
--   Streams         notification-service/internal/http/handlers/sse.go
--   Startup         booking-service/internal/postgres/postgres.go,
--                   notification-service/internal/postgres/postgres.go, and `runMigrations` and the
--                   beginning of `run` of booking-service/cmd/main.go and
--                   notification-service/cmd/main.go
--   Lifecycle       the rest of `run` of booking-service/cmd/main.go, with the server and the relay
--   NotificationLifecycle
--                   the rest of `run` of notification-service/cmd/main.go, with the server, the
--                   streams and the consumer
--   Metrics         the counters of booking-service/internal/metrics/metrics.go and
--                   notification-service/internal/metrics/metrics.go, and the middleware that counts
--   Prelude         Boolean tests, lists, counting and integers that the other files share
--   Tests           the theorems at concrete inputs
--
-- State and operations. The booking database is a record of tables (Database.Db), a table the list
-- of its rows; an operation takes the database and gives the new one with a Result. A Go function
-- `CreateBooking` is `create_booking`, and so on; the repository's and the service's functions of
-- one name stand in Bookings and in BookingService. The text of each SQL statement is translated,
-- with the constraints of the migrations on the tables that it writes: primary keys, the unique
-- indexes, the foreign keys and the CHECKs. A transaction is one function from the tables at its
-- start to the tables at its end, so what another transaction does falls between transactions; where
-- a Go function makes several of them, the changes of others between them are arguments (`later`,
-- `before_insert`, `before_link`, `before_list`). A commit is done, refused, or done with its answer
-- lost. Every statement may fail.
--
-- The hub and the token store are behind a mutex, so each operation is a step. In Hub/Isolation the
-- copy of the channels by Broadcast and each send are steps of their own, in any interleaving with
-- subscriptions, unsubscriptions and reads. A Go map is a function to an Option, and a channel a
-- number with the list of what waits in it.
--
-- A process is a step relation on the states of its goroutines (Lifecycle, NotificationLifecycle): the
-- commits of requests, the batches of the relay, the messages of the consumer and the steps of `run`
-- come in any order, and what a timeout ends may end at any time. Processes follow one another on the
-- same tables, and each may end at any moment.
--
-- Parameters. What is not code of the repository is an argument: the clock, fresh UUIDs, the broker,
-- the Kafka reader, the order in which PostgreSQL returns rows with equal keys (Database.Sorting.Order,
-- whose laws an insertion sort fulfils), the cast of a text to TIME, the conference client, the JSON
-- decoder, uuid.Parse, strconv.Atoi, mail.ParseAddress, bcrypt, and golang-jwt, with what it
-- documents as named hypotheses (Jwt.IsDocumented).
--
-- Numbers. A UUID is a natural number that is only compared. The strings of an event that stand for
-- UUIDs are such numbers too: a message that has another text there counts as one that does not
-- decode. The source decodes it, and the database refuses its row; either way nothing is stored or
-- sent, and the message is logged, counted and committed. An instant counts nanoseconds since the
-- start of year 0 in UTC, without the limits of 64 bits, which dates up to the year 9999 in
-- PostgreSQL's range do not meet; a date counts days. Days of the week are integers, cut to 32 bits
-- where the code does. Texts that are parsed are bytes.
--
-- Fuel. The loop of generateSlots runs 49 rounds: a window lies in one day of 48 half hours, and a
-- last round ends the loop. The drain of the relay has one poll for each batch that its timeout
-- allows; the loop of the consumer has one fetch for each message, and the loop around it one pause
-- for each error.
--
-- Not modelled: logging, the profiler, histograms and gauges, the time that timeouts take, generated
-- mocks, tests and load tests.
pub mod Prelude
pub mod Hub
pub mod Tokens
pub mod Model
pub mod Database
pub mod Bookings
pub mod Clock
pub mod Slots
pub mod Schedules
pub mod BookingService
pub mod SlotService
pub mod Relay
pub mod Notifications
pub mod Consumer
pub mod Pipeline
pub mod Http
pub mod Rooms
pub mod Jwt
pub mod Config
pub mod NotificationHttp
pub mod Accounts
pub mod Streams
pub mod Metrics
pub mod Startup
pub mod Lifecycle
pub mod NotificationLifecycle
pub mod Tests
