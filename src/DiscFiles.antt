-- ===== src/DiscFiles.antt =====
-- The files of the cdrom device, modules/iopcore/cdvdman/ioops.c: the file handles, opening, reading and seeking.
pub mod Handles
pub mod Bytes
pub mod Reading
pub mod Calls
pub mod Opening
pub mod Slots
pub mod Listing
mod Tests
