-- ===== src/Tests.antt =====
-- Concrete runs of the model: each theorem applied to tables, calls and histories that exercise it.
pub mod Data
pub mod Booking
pub mod Pipeline
pub mod Token
pub mod Inbox
pub mod Slot
pub mod Stream
pub mod Web
pub mod Account
pub mod Process
pub mod Group
