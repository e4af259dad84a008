-- ===== src/Region.antt =====
-- src/core/region_impl.h and region_impl.cpp: descriptors of memory regions, the registrations
-- behind them, and the handles. An address is its number.
pub mod Descriptor
pub mod RoundTrip
pub mod Truncated
pub mod Registration
pub mod Covers
mod Tests
