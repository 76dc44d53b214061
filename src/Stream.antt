-- ===== src/Stream.antt =====
-- The CDVD streaming layer of modules/iopcore/cdvdman/streaming.c, over the asynchronous read path
-- of modules/iopcore/cdvdman/cdvdman.c: a ring of banks of sectors that a reading thread fills and
-- the game drains.
pub mod State
pub mod Fill
pub mod Reader
pub mod Control
pub mod Memory
pub mod Invariant
pub mod Bank
pub mod Keep
pub mod Steps
pub mod Drain
pub mod Reading
pub mod Arrivals
pub mod Delivery
pub mod Session
pub mod Blocking
pub mod Stall
mod Tests
