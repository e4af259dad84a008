-- ===== src/Rdma.antt =====
-- src/transport/rdma/rdma_provider.h and rdma_provider.cpp, as far as the verbs library, sockets and
-- devices are not what decides.
pub mod Control
pub mod Framing
pub mod Sending
pub mod Delivery
pub mod Queues
pub mod Submit
pub mod Retire
pub mod Numbered
pub mod Outstanding
pub mod Planned
pub mod Taken
pub mod Accounts
pub mod Anchors
mod Tests
