-- ===== src/Text.antt =====
-- C strings as lists of their bytes, without the NUL at the end, and the functions of the C library
-- and of src/util.c that the program calls on them.
mod Laws
pub use Laws.*
unfoldable pub use Defs.*
mod Defs
