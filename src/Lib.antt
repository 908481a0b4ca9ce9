-- ===== src/Lib.antt =====
-- threaders: a library of user-level threads (hilolay), a scheduler server (suse), a memory server
-- (muse) and a file system server (sac_server) with their clients (libmuse, sac_cli), which talk
-- over sockets in the packages of shared-common. This library models the parts below in a cubical
-- type theory and proves what they do.
--
-- The parts and their files. Paths of the program are from the repository's root.
--   Hilolay      hilolay/hilolay.c, hilolay.h: the table of threads, the ready queue linked through
--                it, th_yield, th_create, th_return, th_stop, the alarm. A pointer into the table
--                is an index. Hilolay/Queue, Valid, Create, Exit, Fair, Reach and Interrupted hold
--                the proofs; Reach has the steps that a program can take and the states that they
--                reach; the alarm is a step between calls. One within th_return is in Interrupted,
--                and other alarms within a function of the library are not followed.
--   Suse         suse/src/scheduler, program, semaphore and config: the queues of the scheduler,
--                the admission of threads (long term), the choice of the shortest burst (short
--                term) and the end of threads. A pointer to a thread or a program is an address of
--                a store. Suse/Config has suse/src/config/suse_config.c and the start of the
--                scheduler, Suse/Metrics the lines of the metrics and the delay between them,
--                Suse/Destroy the freeing of scheduler_destroy from a store of live blocks,
--                Suse/Degree the degree of multiprogramming under any order of calls, and Suse/Main
--                main of suse/src/suse.c.
--   Wire         shared-common/common/utils.c, serializer.c, protocols.h: the structures of the
--                messages as bytes (Bytes, Protocol), packages (Package), what is sent and what is
--                made of it on the other side (Message); strings and arrays of strings (Strings).
--   Muse         muse/src/muse.c, muse.h: frames and pages (Frames), processes (Users), the
--                handlers of GET and COPY (Access), of MALLOC with asignar_dir_memoria (Alloc) and
--                of MEMFREE (Free), which answer through Wire, and one round of the loop that takes
--                a request to its handler (Server), with what holds in every state that such rounds
--                reach (Server/Reached). Main is main of muse.c with muse/src/config/muse_config.c
--                and the whole loop, Estado two helpers without a caller.
--   Libmuse      libmuse/libmuse.c: each call as the bytes that it sends and what it makes of the
--                answer. Served, Granted, Fetched and Copied put it together with Muse/Server over
--                Wire.
--   ClientTests  client-tests/src/client-tests.c: main with its calls of Libmuse, each of which
--                Muse/Server serves in one round, and the threads for hilolay (Turns).
--   Sac          sac_server/src: path names of sac_operate.c (Paths), the table of nodes with
--                determinar_nodo and sac_create_directory of sac_write.c (Nodes), the calls of
--                sac_read.c (Read), the requests of a client of sac_server.c (Connection), and its
--                main with init_server (Server).
--   SacCli       sac_cli/sac_cli.c: what the calls of FUSE send, and sac_cli_init (Init). Fate puts
--                the calls together with Sac/Connection over Wire.
--   Sockets      shared-common/common/sockets.c: listeners and connections (Setup), the array of
--                client sockets and the loop around select (Select), and the threads that send back
--                what they get (Threads). Muse/Main and Sac/Server listen through Setup.
--   Commons      the list operations of so-commons-library, which the programs call: an interface,
--                with the documented behaviour as laws. Suse, Wire, Muse, Libmuse and
--                Sac/Connection take it as a parameter, and so do those that use them.
--   Base         names, lists and signed integers that all share.
--
-- Operations are functions that take the state and return the new one, under the names of the code.
-- An access outside an object is an outcome of its own (`none`, `fault`, `crashed`, `overread`),
-- and so is the end of a connection. Numbers are natural numbers, and the code's wrap-around is
-- written out where it computes on them, such as offsets of sac_read modulo 2^64. The size of a
-- package is a C int: a sum from 2^31 on is an outcome without a message, and a size that comes in
-- from 2^31 on is negative. When a connection ends within a message, the code goes on with memory
-- that was never written; that is an outcome of its own, and what follows is not modelled. Signed
-- counters and times of hilolay and suse are unbounded integers.
--
-- Fuel. determinar_nodo calls itself on shorter paths and gets the length of the path, which is
-- proved to be enough for paths of good names. The loops over the table of nodes and over the table
-- of threads get the size of the table. utils_receive_package takes at least four bytes from the
-- buffer with each value and gets the buffer's length, which is proved to be enough on every input.
-- handle_connection gets the length of its input, and each round takes at least one byte; so does
-- the loop of muse_server_init (server_loop), where a round leaves no more bytes than follow its
-- first. The long-term scheduler gets the length of its queue, which its theorem shows to be
-- enough. MEMFREE gets fuel for its loop over the headers of the memory, and each step moves by at
-- least one byte, so that the address of the block is proved to be enough where the headers lead to
-- it. Where they do not, the loop may go on for ever, and no theorem says that a MEMFREE ends.
--
-- Outside the program. What the calls of the operating system on sockets return is the record
-- System of Sockets/Setup, or an argument. list_iterate and list_destroy_and_destroy_elements of
-- so-commons-library are arguments, and where a theorem needs it a hypothesis says that they call
-- their function for each element in order. What a round of the memory server gets from outside is
-- the record Environment of Muse/Server: what malloc returns and how much room its blocks really
-- have, the address of the memory, the page size, the bytes of padding, and those behind the four
-- bytes of a t_copy_response, of which a COPY sends eight. recorer_segmento_espacio_libre of muse
-- is a merge of two versions with unbalanced braces, which no compiler takes: it has no meaning to
-- model, and MALLOC gets it as an argument of any behaviour.
--
-- Not modelled: log lines other than those of the metrics and of a failed listener; reading a
-- configuration file, which so-commons-library does; saved contexts and stacks of threads, which
-- belong to the C library; suse_exit_gracefully, which stands behind a loop that never ends, and
-- the blocks of lists of threads. sac_cli_init of sac_cli.c lacks a brace, so that the file does
-- not compile; it and the calls behind it are modelled as they are meant to stand. What the test
-- program does without a connection is not followed. No theorem speaks of the parts left out.
pub mod Base
pub mod ClientTests
pub mod Commons
pub mod Hilolay
pub mod Libmuse
pub mod Muse
pub mod Sac
pub mod SacCli
pub mod Sockets
pub mod Suse
pub mod Wire
