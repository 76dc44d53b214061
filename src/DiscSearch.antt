-- ===== src/DiscSearch.antt =====
-- The search for a file on a disc image, modules/iopcore/cdvdman/searchfile.c: the entries of a directory, the walk
-- along a path, the trimmed name, and the volume descriptors.
pub mod Toc
pub mod Locate
pub mod Directory
pub mod Walk
pub mod Trim
pub mod Search
pub mod Found
pub mod Stall
mod Tests
