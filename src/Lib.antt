-- ===== src/Lib.antt =====
-- A verification library for Open PS2 Loader: models of parts of the program and the theorems that
-- make them correct.
--
-- The program runs on two processors. On the I/O processor it takes the place of the console's CD
-- driver, and games stream audio and video through its ring buffer. On the main processor its user
-- interface reads and writes configuration files, packs glyphs into textures, moves a selection
-- through lists of games, and hands slow work to a worker thread; before a game starts it records
-- the launch and passes the cheats of the game to the loader.
--
-- Stream (modules/iopcore/cdvdman/streaming.c, with the calls it makes of cdvdman.c and ncmd.c):
--   Stream/State is `struct SteamingData` and the part of `cdvdman_status_t` that streaming uses.
--   How many sectors a read gives (`given`) and whether the reading thread runs within
--   `StFillStreamBuffer` once it has enabled interrupts again (`preempted`) are fields of the state.
--   Stream/Fill is the side that fills the buffer: `StFillStreamBuffer`, `StmCallback`, the alarm,
--   `cdvdman_AsyncRead` and the reading thread. Stream/Reader is `ReadSectors` and `ReadSectorsEE`.
--   Stream/Control is the calls of the game. What other threads and interrupts do between the game's
--   calls, and inside a copy while interrupts are enabled, is an explicit list of events, so that a
--   theorem for all lists is one for all interleavings. A blocking read takes the list of what
--   happens before each of its rounds; its length bounds the rounds, and a read that is not done at
--   the end of the list has no result. The disc is a function from addresses to sectors.
--   Stream/Invariant says what a well formed drive is, the modules from Memory to Arrivals that
--   every step keeps it, Delivery, Session and Blocking what the game receives, and Stall where the
--   stream stops.
-- Atlas (src/atlas.c): the tree of `allocPlace` and the copies of `atlasPlace`. Placement says what
--   one request does to the tree, Packing what any number of requests do, Copying where the copies
--   end. Memory is taken to be available.
-- Config (src/config.c, include/config.h): sets as linked lists whose items have an address, so that
--   `tail` is modelled as the pointer it is. Linked and Keeping are the invariant of the list,
--   Lookup what the getters return, Colors the colours, Lines the reader and the writer of a file by
--   lines, Roundtrip what is read back, and Files `configRead`, `configReadBuffer` and `configWrite`
--   with the file buffers they use. DiscId is the identifier that is passed on as bytes.
-- IoQueue (src/ioman.c): the handlers, the queue with its end pointer, the two semaphores and the
--   worker thread, one step for each part of its loop between two waits; a run is a list of events,
--   so that a theorem for all lists is one for all interleavings. A call is one step, also
--   `ioPutRequest`, whose tests stand before its semaphore. Where the worker is gone, both semaphores
--   are deleted. Order is the order of service, Removal
--   `ioRemoveRequests`, Stuck the semaphore that a failed registration keeps. What follows the
--   deletion of the semaphores by the worker's exit, `ioGetPendingRequestCount` and the waiting loop
--   of `ioBlockOps` are not modelled.
-- Cheats (src/cheatman.c, include/cheatman.h, ee_core/src/cheat_api.c): Lines is what is done with
--   one line of a cheat file, Parser the loop of `parse_buf` with its writes outside an array and
--   its reads behind the end as results, Selection `set_cheats_list`, and Cheats itself
--   `SetupCheats`, which sorts the list into hooks and codes. The masks on 32 bits are written as
--   divisions and remainders. The fuel of the parser is the length of the text, since each round but
--   the last takes a line. Rounds splits the text into lines, Accepted and Digits are about the
--   codes, Screened and Comments about names and comments, Printed is a file that is printed and
--   parsed, Counts how much is stored, and Handover goes from the file to the loader's lists.
-- FileBuffer (src/util.c, include/util.h): `file_buffer_t` opened for writing and for reading. A
--   reader is the text from `lastPtr` on and what is left of the file; the fuel of a call is the
--   bytes that are left, since each round but the last takes one of them. Writing is the file that
--   is left, Reading and Finding are one round of `readFileBuffer`, Rounds what it does with the
--   line, and Scanning the lines that its calls return. `read` and `write` are taken to transfer all
--   they can, and memory to be available.
-- History (src/OSDHistory.c, include/OSDHistory.h): `AddHistoryRecord` on the 21 entries of the
--   history file, each with its name as the 16 bytes of the array, and `GetBootFilename`. What
--   `rand` returns is a list; a call whose loop comes to the end of the list has no result, and a
--   list that hits each of the six bits is enough for a call. The time stamp of a call is a
--   parameter. Names is about names and bits, Victim about `LeastUsedRecord`, Scanning about the
--   first loop, Recording about one call, Keeping about any number of calls, and BootPath about the
--   file name.
-- Menu (src/menusys.c, include/menusys.h): a submenu as its nodes in the order of `next`, each with
--   its address and its `prev` pointer. The text of a language and `strcasecmp` are parameters.
--   Passes is one pass of the sort, Sorting all of them, with as many passes as the caller gives,
--   and Removal the links after a removal. Pages is the selection with the first item of its page,
--   by positions in a list with the links of its order, and Paging what the keys do to it.
-- TexCache (src/texcache.c, include/texcache.h): Pool is the pool of requests, Lru the linked lists
--   by their pointers, where an access through NULL has no result, and Calls the caches with
--   `cacheGetTexture` and the loading of an image. Frames, memory, the queue of requests and the
--   result of loading an image are parameters of a call. Requests is about any sequence of calls,
--   Eviction about `lru_evict`.
-- DiscSearch (modules/iopcore/cdvdman/searchfile.c): Toc is the loops over the entries of a
--   directory, byte by byte, Locate the walk along a path, Trim the end of a name, and Search the
--   volume descriptors and `cdvdman_findfile`. What `sceCdRead` and `sceCdReadDvdDualInfo` give is
--   a parameter, and where the C code writes or reads out of bounds the result is `fault`. The fuel
--   of a search is shared by its three loops: 2^20 sectors are the longest directory, a sector has
--   at most 2017 rounds, and each part of a path takes one. Directory and Walk state what an image
--   holds, Found what is found on it, and Stall is an entry that the loop does not get over.
-- DiscFiles (modules/iopcore/cdvdman/ioops.c): Handles is the file handles with opening, closing,
--   reading and seeking, where in `cdrom_read` a read that `sceCdRead` refuses is repeated until it is accepted.
--   Bytes is a file by its bytes, Reading the phases of `cdrom_read`, Calls reads and seeks in any
--   order, Opening a file that is searched and read, Slots the handle that a file gets, and Listing
--   `cdrom_dread`, with fuel for as many rounds as the directory has entries, and one more.
-- Text: strings as bytes without their NUL, `strncpy`, `strncmp`, `strchr`, and the digits of
--   src/util.c.
-- Base: the names, tests and lemmas that the components share.
--
-- Words keep their width: `unsigned short` and `u32` fields of the stream and the bytes of a
-- colour wrap around as in C. Debug output, the creation of threads and semaphores, and the
-- transfers to the main processor's memory beyond which sectors they carry are not modelled. The
-- drawing of the user interface, the loader that patches the running game, the file systems of the
-- main processor, the network stack and the device drivers are not modelled: they are mostly calls
-- of the console's libraries.
pub mod Base
pub mod Stream
pub mod Atlas
pub mod Text
pub mod TexCache
pub mod DiscSearch
pub mod DiscFiles
pub mod Cheats
pub mod Config
pub mod FileBuffer
pub mod History
pub mod IoQueue
pub mod Menu
