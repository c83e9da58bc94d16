-- ===== src/Lib.antt =====
-- HVAC keeps the training files of a job on the node-local storage of its nodes. A preloaded client
-- library (hvac_client.cpp, hvac_comm_client.cpp) tracks the files that a process opens under the
-- data directory, and sends its reads to servers over Mercury calls. A server (hvac_comm.cpp) opens,
-- reads and closes files; on a close it hands the path to the data mover (hvac_data_mover.cpp), which
-- copies the file to node-local storage and enters the copy in a cache that later opens are redirected
-- through. A consistent-hashing ring (hvac_hashing.h) gives the server of a path, and a file of
-- addresses (`.ports.cfg.<job>`) the address of a server.
--
-- The parts of the library, and the code that they model:
--   Common      numbers, integers, text, lists and maps of C++; how a call ends (Run)
--   Ring        hvac_hashing.h: `HashRing`; Ring/Servers: `initialize_hash_ring` and the route of a
--               path (hvac_client.cpp)
--   Posix       the operating system as a parameter, with the results it documents as laws
--   Server      the state of a server (globals of hvac_data_mover.cpp) and its operations:
--               Server/Read  `hvac_rpc_handler`, `hvac_rpc_handler_bulk_cb` (hvac_comm.cpp)
--               Server/Files `hvac_open_rpc_handler`, `hvac_close_rpc_handler`,
--                            `hvac_seek_rpc_handler` (hvac_comm.cpp)
--               Server/Mover `hvac_data_mover_fn` (hvac_data_mover.cpp), in Server/Mover/Thread as a
--                            thread that the handlers wake
--               Server/Cache the files under both, and all interleavings of their steps
--   Ports       `hvac_comm_list_addr` (hvac_comm.cpp) and `hvac_client_comm_lookup_addr`
--               (hvac_comm_client.cpp)
--   Address     `extract_ip_portion`; Hex: `buffer_to_hex` (hvac_comm.cpp)
--   Client      the globals of the client and the parameters it runs under:
--               Client/Calls  the four calls, their callbacks and waits (hvac_comm_client.cpp)
--               Client/Remote `hvac_remote_read`, `_pread`, `_lseek`, `_close`, `hvac_get_path`,
--                             `hvac_remove_fd` (hvac_client.cpp)
--               Client/Track  `hvac_track_file` (hvac_client.cpp)
--               and below it what the operations keep and what they do
--   Wrappers    wrappers.c: the calls of libc that the preloaded client stands in for
--   Progress    `hvac_progress_fn` (hvac_comm.cpp)
--   Logging     `hvac_init_logging`, `log_preformatter_internal` (hvac_logging.c)
--   Cluster     clients and servers together: the calls of a client are served by the handlers of
--               Server, at the address that the client finds; Cluster/Stream: reads one after the
--               other
--   Earlier     backup/: the version before the ring (hvac_client.cpp, hvac_comm_client.cpp,
--               hvac_comm.cpp, hvac_server.cpp, hvac_data_mover.cpp, wrappers.c), and where the
--               later one does the same
--   Startup     `hvac_client_init` (hvac_client.cpp), `hvac_get_addr` (hvac_comm_client.cpp), the rank
--               of a server in `hvac_init_comm` (hvac_comm.cpp)
--   Launch      the start of a server (hvac_server.cpp) and the set-up of Mercury by both sides
--               (`hvac_init_comm`, `hvac_comm_list_addr`, the registrations; hvac_comm.cpp,
--               hvac_comm_client.cpp)
--   Tests       the theorems at concrete inputs
--
-- A map that is searched by key is an association list; the ring, whose order matters, is kept
-- sorted. A call that does not return is a fault: a failed assertion, an uncaught exception, an
-- exit, a wait that nothing ends, or undefined behaviour. Integers of 32 and 64 bits wrap where the
-- code converts them (`to_int32`, `to_unsigned`). Loops over replicas, servers, lists and text are
-- structural. Three run on fuel: printing a number, for which the number and one is enough, since
-- each digit divides it by ten; the search of the file of addresses, for which the length of the
-- file is enough, since each entry takes a character; and the progress thread, for which two units
-- are enough once the shutdown flag is set.
--
-- Mercury, pthreads, files and `std::hash` are no code of the repository: what they answer is a
-- parameter (`Posix`, `Libc`, `HgCalls`, `Mercury`, `MercurySetup`, `Rpc`, `Env`, `Surroundings`),
-- and so is what log4c does with the C library. Log lines are modelled where the making of one
-- reads freed memory; the null path that `pread` logs is printed as `(null)`, and the uninitialised
-- buffer of `hvac_get_addr` holds a text that is a parameter. Not modelled are the objects of
-- log4c, the functions of hvac_comm.cpp that wrap one call of Mercury in an assertion, its two
-- functions for files of log lines, which nothing calls, and what backup/ has in common with the
-- later version: its logging, its registrations and its progress thread.
pub mod Common
pub mod Ring
pub mod Posix
pub mod Server
pub mod Ports
pub mod Client
pub mod Address
pub mod Hex
pub mod Startup
pub mod Launch
pub mod Wrappers
pub mod Progress
pub mod Logging
pub mod Earlier
pub mod Cluster
mod Tests
