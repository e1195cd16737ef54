-- ===== src/Lib.antt =====
-- The SKY SDK: a C library that wraps memory, containers, text codecs, time and synchronisation of
-- the system for its programs. The parts share an allocator (sky_mem.c); each hands out handles to
-- structs of its own, and sky.c starts the parts, ends them, and closes a handle by its type.
--
-- Which file models which part (paths from the repository's root):
-- - Memory: sky_mem_alloc and sky_mem_free (sky/src/sky_mem.c) and the malloc, realloc and free that
--   sky_map.c calls. A function says of each request whether it is granted, so the theorems hold
--   for every pattern of failures; the number of live blocks is part of the state.
-- - Map: sky/src/sky_map.c. MapData is the struct. Map/Storage has mallocandstrcpy_s and the two
--   functions that grow and shrink the arrays, Map/Entries the search, insertNewKeyValue and the
--   removal, Map/Api the operations, Map/Lifetime sky_map_destroy and sky_map_clone. Map/Rep says
--   when a struct represents a list of entries and owns its blocks.
-- - SkyList: sky/src/sky_list.c. Items live on a heap with one map for each field. SkyList/Front has
--   creation, the queries, and the operations at the ends; SkyList/Scan those that walk the list.
--   SkyList/Rep says when a store holds a list in order: the chain from sentinel to sentinel in
--   both directions, the chain of spare items, no address in both, and the count within its limit.
-- - Base64: sky/src/sky_base64.c up to sky_base64_decode, with the table that sky_base64_init fills.
-- - Hash: sky/src/sky_hash.c over the table of the C library (hsearch_r), which is a parameter with the
--   documented behaviour as hypotheses.
-- - Sys: sky/src/sky_sys.c: the tick, the absolute time of a timeout, the paths of the program;
--   Sys/Sleep has sky_systick_sleep, Sys/Calendar the clock and the conversions of dates.
-- - CriticalSection: sky/src/sky_critical_section.c over the recursive mutex of pthreads, which is a
--   parameter with what POSIX documents as hypotheses; a step relation for the interleaved threads.
-- - Rwlock: sky/src/sky_rwlock.c on both kinds of lock. The loop of a lock with a timeout takes the
--   tick of Sys. Rwlock/Holders has the interleaved calls of several handles over flock, a parameter.
-- - ShareMemory: sky/src/sky_ipc_shm.c, composed from the list of SkyList and the critical section that
--   guards it; ShareMemory/Statics has its start and end.
-- - Regex: sky/src/sky_regex.c over regcomp and regexec, which are a parameter; Regex/Entries tells what
--   the loops over the entries of a match come to without them.
-- - Socket: sky/src/sky_local_socket.c. The checksum, the byte order, the macros on messages, and
--   parse_routes and sky_inet_ntoa, which are not in the repository, are parameters; Socket/Routes has
--   sky_if_get_gateway.
-- - Dll: sky/src/sky_dll.c. dlsym is a parameter; what dlopen returned is an argument.
-- - Str: sky/src/sky_str.c: copies into buffers, searches, the conversions to and from hexadecimal
--   digits, and sky_str_dup.
-- - Des: the ciphers of sky/src/sky_base64.c over those of the RPC library, which are a parameter with
--   what it documents as hypotheses; the key and the vector are copied by Str.
-- - Process: sky/src/sky_process.c. flock is a parameter; the processes of a machine are a relation on
--   histories of calls and ends.
-- - Debug: sky/src/sky_debug.c and the macros of sky/include/sky_debug.h.
-- - Sky: sky/src/sky.c: start, end, and the dispatch of a handle.
--
-- A read or write outside a block, through NULL, or of a block that is not live, and the use of a
-- value that was not set, is a `fault` (Base/Runs); a theorem that a run `Returns` excludes it. The
-- widths of numbers are written out where the code relies on them (the ticks of 32 bits, the length
-- of the encoder's output, the count of a list); the lengths of strings and arrays are unbounded. Where
-- an int counts what may pass INT_MAX, passing it is a fault (Base64, Str), none (Socket) or wraps (Sky).
-- Loops are recursive on the list they walk. The loops of sky_list.c that run to the tail sentinel
-- have count + 1 rounds of fuel, which is enough for a list in order; running out is a fault.
-- Assertions are those of a release build. The log lines of other parts are left out of their models.
--
-- Calls of the system are logged where they take or give back something, the latest in front, and what
-- they returned is an argument: a descriptor or none for -1, a list of the outcomes that a loop meets in
-- turn. Such a list is also the fuel of its loop; the loops of sky_regex.c and of sky_systick_sleep have
-- a number for it. Of
-- either, what is enough is a hypothesis on the clock, the matches, or the sizes of the messages.
-- nanosleep and ioctl are functions of what they are asked for.
-- Histories (Map/Histories, SkyList/Histories) are lists of calls on one container; the abstract
-- containers that they refine are in Map/Calls and SkyList/Calls.
--
-- Not modelled: the functions on strings, blocks and the environment that forward to the C library; the formatting of
-- lines by printf; the functions of sky_sys.c that return constants.
pub mod Base
pub mod Memory
pub mod Map
pub mod SkyList
pub mod Base64
pub mod Des
pub mod Hash
pub mod Str
pub mod Sys
pub mod Rwlock
pub mod CriticalSection
pub mod ShareMemory
pub mod Regex
pub mod Socket
pub mod Dll
pub mod Process
pub mod Debug
pub mod Sky
