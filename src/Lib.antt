-- ===== src/Lib.antt =====
-- Models of the homework programs of CSE 320, translated from their C sources, with the
-- theorems that make them correct. hw1 is birp, which keeps greyscale images as binary decision
-- diagrams, hw3 is a memory allocator, hw4 is a print spooler, and hw5 is a chat server, which
-- keeps its users in a registry.
--
-- Base holds what the other files share: Boolean tests and lists over the native numbers,
-- binary digits, signed integers and chains of optional results.
--
-- Bdd models hw1/src/bdd.c and the helpers of hw1/src/custom_functions.c. Bdd/Store.antt has
-- the node table, the hash map and bdd_lookup as functions from a store to a run, which
-- returns, calls exit, or has used up its fuel. Bdd/Image.antt has bdd_apply, bdd_map,
-- bdd_rotate and bdd_zoom, and Bdd/Raster.antt bdd_min_level, split_raster_data,
-- bdd_from_raster and bdd_to_raster. The proofs stand in the other modules of Bdd: Occupancy,
-- Probe, Invariant, Insert and Lookup for the table, Denote for the image that a node stands
-- for (a leaf for each path of halvings), Combine and Skip for the calls that put two images
-- side by side, and a module for each operation.
--
-- A node pointer is its index in bdd_nodes, an index of -1 is none, and the static
-- BDD_NODE_INDEX is a field of the store. The probe loop has one round of fuel for each slot,
-- and a recursive function has one for each nested call: the theorems show that the number of
-- levels is enough. Shifts of an int stop at bit 30, where C leaves the next one undefined.
--
-- Bdd/Serial.antt models bdd_serialize and bdd_deserialize of hw1/src/bdd.c over bytes, where a
-- use of bdd_index_map out of its bounds is a run that diverged. The fuel of
-- bdd_serialize_helper is its depth of calls, and that of bdd_deserialize its rounds. Existing,
-- Reading, Numbering and Serialize are about the round trip.
--
-- Birp models the command line of hw1: Birp/Strings.antt has the string functions of
-- hw1/src/custom_functions.c, and Birp/Args.antt validargs of hw1/src/birp.c, as a scan of the
-- list of arguments, and the choice of main in hw1/src/main.c, with the options as the bit
-- pattern of global_options. Options is about the options that are accepted.
--
-- Alloc models the allocator of hw3: Alloc/Memory.antt has the rows of memory as one map from
-- addresses, and the functions of hw3/src/custom_functions.c that join, file, split and check
-- blocks, with sf_free of hw3/src/sfmm.c; Alloc/Malloc.antt has the search of the free lists,
-- the wilderness and the other functions of sfmm.c. sf_mem_grow is an argument. The fuel is a
-- number of blocks looked at in a list, and of pages added. Blocks reads the headers and the
-- footers as a list of blocks, Heap says when a memory is such a heap with its free lists,
-- Links tells which rows these take, and Cycle, Reach and Ring what is linked and reached from
-- the heads; Sizes tells the size of each free block, and Sample is a small heap for the tests.
-- Coalesce, Release, Freed and Among are about the blocks after sf_add_to_free_list, Rings,
-- Lists, Ringed and Apart about the free lists, Check and Free about sf_free, and Split, Shrink
-- and Realloc about sf_realloc.
--
-- Chat models the users and the registry of users of the chat server of hw5: hw5/src/user.c and
-- hw5/src/user_registry.c. Chat/Users.antt has the heap and the operations, where none is a
-- call that uses memory which is not allocated, waits for a locked mutex, or runs out of fuel;
-- what malloc and pthread_mutex_init return is an argument, the record Library. Chat/Links.antt
-- is about circular doubly linked lists, Chat/Registry.antt reads the list at a head as rows of
-- an entry, its user, the handle and the count, and Append, Init, Register, Twice, Unregister
-- and Fini are about the operations on rows.
--
-- Spool models the print spooler of hw4, hw4/src/custom_functions.c and hw4/src/cli.c.
-- Spool/State.antt has the tables of printers and jobs and the functions that fill them,
-- Spool/Jobs.antt start_job as the parent sees it, the scanner and job_handler,
-- Spool/Words.antt split_string and the numbers of jobs, Spool/Commands.antt the commands, and
-- Spool/Cli.antt a round of run_cli. The slots of jobs are a mask (Spool/Mask.antt). What fork,
-- malloc, the clock and the conversions library answer is an argument. Signals are blocked
-- where the code changes the tables, so a handler is a step of its own; the scanner is taken as
-- one step too. What is printed and the text of an error are left out. Invariant, Keep,
-- Processes, Tables, Scan, ScanKeep, Reap, Lines, Dispatch and Rounds are about the invariant,
-- Reach about the steps, and Idle, Deleted, Verdicts and WordsLaws about the scanner, deletion,
-- verdicts and words.
--
-- Chat/Mailbox.antt models the mailboxes of hw5, hw5/src/mailbox.c and the hook of
-- hw5/src/server.c, on a heap of mailboxes and queue cells, where none is a use of memory that
-- is not allocated or not set, a wait that never ends, or fuel that runs out. The fuel is that
-- of the loop of mb_unref, one round for each entry and one more. MailQueue reads the circular
-- list at the head of a mailbox as a list of entries, Deliver is about adding and taking
-- entries, and Stalled about calls that give none.
--
-- Chat/Protocol.antt models hw5/src/protocol.c, with what each call of read and write gives as
-- an argument; a header is its bytes in memory, where the compiler puts three bytes after the
-- type. The fuel of each loop is one round for each byte and one more, because each call that
-- does not fail moves one byte at least. Sending and Receiving are about the two functions.
--
-- Chat/Clients.antt models the clients of hw5/src/client.c and their registry,
-- hw5/src/client_registry.c, over the heap of users and that of the mailboxes, and
-- Chat/Login.antt is client_login. Slots is about the count of the registry and Lockout about
-- the mutex of client_login.
--
-- Chat/Replies.antt models client_send_ack and client_send_nack of hw5/src/client.c over the
-- packets, where the result of clock_gettime is an argument.
--
-- Chat/Service.antt models what chla_mailbox_service of hw5/src/server.c does with one entry,
-- over the mailboxes and the replies.
--
-- Not modelled are the conversions and image files of hw1, the conversion pipeline of hw4, the
-- client service of hw5/src/server.c, the loop of its mailbox service and the wait for all
-- clients to end, hw2, a copy of another project's program, hw0, which prints a greeting, and
-- code that only calls the C library and the system.
pub mod Base
pub mod Alloc
pub mod Bdd
pub mod Birp
pub mod Chat
pub mod Spool
