-- ===== src/Engine.antt =====
-- src/core/engine_impl.h and engine_impl.cpp.
pub mod Chunks
pub mod Carries
pub mod Transfer
pub mod Post
pub mod Cases
pub mod Turns
pub mod Lane
pub mod Ending
pub mod Once
pub mod Threads
pub mod Alone
pub mod Lifetime
pub mod Queues
pub mod Fifo
pub mod Metadata
pub mod Dialling
pub mod Peering
pub mod Choosing
pub mod Importing
pub mod Registering
pub mod Evicting
pub mod Handed
pub mod Released
pub mod Registered
pub mod Served
pub mod Invalidating
pub mod Notifying
pub mod Settled
pub mod Settling
pub mod Notified
pub mod Exchange
pub mod Handoffs
pub mod Scheduling
pub mod Draining
pub mod Waiting
pub mod Submitting
pub mod Admitted
pub mod Counted
mod Tests
mod Scenarios
