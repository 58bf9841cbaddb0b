-- ===== src/Server.antt =====
-- server/Server.h and server/Server.cpp: the server of the game and of the chat.
pub mod State
pub mod Transport
pub mod Registry
pub mod Heartbeat
pub mod Lifecycle
pub mod Listener
pub mod Accounts
pub mod AccountLaws
pub mod Traffic
pub mod WellFormed
pub mod Visit
pub mod Sweep
pub mod Beats
pub mod Invariant
pub mod Reach
pub mod Timeouts
pub mod Lookup
mod Tests
mod AccountTests
