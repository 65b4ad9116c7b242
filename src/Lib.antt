-- ===== src/Lib.antt =====
-- A verification library for libopenssh, the OpenSSH code base restructured as a library (ssh/).
--
-- Parts, and where they are modelled. Paths are from the repository's root; a C function
-- `sshbuf_foo` of ssh/sshbuf.c is `foo` in the module Sshbuf, and so on for the other files.
--
-- - Sshbuf (ssh/sshbuf.c): the growable byte buffer under every packet, key and channel. The record
--   `Sshbuf` has the fields of `struct sshbuf`; `mem` is the block at `cd`. An operation takes a buffer
--   to a buffer and a result. Children: Sanity (the invariant), Content (the queue of bytes that a
--   buffer stands for), Keeps (packing), Reserve (making room), Limits and MaxSize (creation, reset,
--   limits), Refusals.
-- - Getput (ssh/sshbuf-getput-basic.c, the PEEK and POKE macros of ssh/sshbuf.h): readers and writers
--   of integers and strings. Children: Codec, Put, Get, PutString, GetString, RoundTrip, Cstring,
--   Granted, and Between (sshbuf_get_stringb).
-- - Sharing (sshbuf_set_parent, sshbuf_fromb and sshbuf_free of ssh/sshbuf.c, sshbuf_froms of
--   ssh/sshbuf-getput-basic.c): buffers that read a block of their parent, in a store of structs.
--   Children: Drop, Lifetime, Dangling, Strings.
-- - Match (ssh/match.c): wildcard patterns, pattern lists, and the choice of a common algorithm.
--   Children: Wildcard, Complete, PatternList, Verdicts, Negotiation.
-- - Compat (ssh/compat.c): the flags of a peer's version over the patterns of Match, the list of
--   protocols, and the cipher proposal. Children: Table, Fellows, ProtoSpec, Ciphers.
-- - Channel (ssh/channels.h, the senders and shut-downs of ssh/nchan.c): the state of a channel, over
--   the buffers of Sshbuf.
-- - Nchan (the handlers of ssh/nchan.c, channel_input_ieof of ssh/channels.c): the half-close state
--   machines of a channel. Children: Protocol2, Order, Steps, Dead.
-- - Queue: what the calls of Sshbuf and Getput promise, a bounded queue of bytes whose answers are a
--   relation. Child: Calls, where the functions answer the calls of a client in any order.
-- - Cipher, Mac and KeyKind (the tables of ssh/cipher.c, ssh/mac.c and ssh/key.c): look-ups by name and
--   the checks of name lists.
-- - Kex (ssh/kex.c): proposals of algorithms on the wire, over Getput, and the choice between two of
--   them, over match_list and the tables. Children: Names, Wire, Choice, Agree, Mirror, Conf. The digest
--   sizes of OpenSSL are the parameter `md_size`.
-- - Flow (ssh/channels.c): the data of a channel and the windows, over the state of Channel and the
--   handlers of Nchan. Children: Write (what is written to the descriptors), Send (what is sent to the
--   peer), Accounts, Runs, Credit, Packets. A channel has no filter here; a round of
--   channel_output_poll is the body of its loop, for one channel.
-- - Dispatch (ssh/dispatch.c, kex_reset_dispatch of ssh/kex.c): the table of message handlers and the
--   loop over the packets that come; `ssh_dispatch_foo` is `dispatch_foo`. What the handlers do, and
--   how packets are read, are parameters. Children: Table, Loop.
-- - Addr (ssh/addrmatch.c): addresses, masks, and lists of networks. What getaddrinfo does is the
--   parameter `resolve`. Children: Parse (reading addresses and networks), Lists (the lists, and
--   match_host_and_ip and match_user of ssh/match.c), Bits, Block, Network (what a network contains),
--   Verdicts, Cidr.
-- - Packet (ssh/packet.c): one packet of protocol 2 sent and read, ssh_packet_send2_wrapped in Send
--   and ssh_packet_read_poll2 in Poll, and the packets that wait for new keys, ssh_packet_send2 in
--   Rekeying. The ciphers, the compression, the taking of new keys and what follows a corrupt packet
--   are the parameter `Env`; the buffers are the queues of bytes that they stand for, each with the
--   limit of a new buffer, and `room` says for which lengths memory is granted. Children: Padding,
--   Plain and Received (before the first keys), Overflow, Room (`reserved` against sshbuf_reserve).
-- - Tree: what the tree macros that ssh/krl.c calls promise, as a record of functions with their laws.
-- - Krl (ssh/krl.c): revocation lists in memory; `ssh_krl_foo` is `foo`, or `krl_foo` where that names
--   nothing. Children: Revoke and Check (the operations, over the functions on keys as the parameter
--   `KeyOps`), Ranges, Fitting and Insert (ranges of serial numbers), Places, Serial, Authority.
-- - Err (ssh/err.h) has the error codes and the result type, Libc the C library's memory, Base the
--   shared helpers, and Tests concrete runs.
--
-- Conventions. `ok`, `err` and `fault` are a return of 0, a negative code and undefined behaviour; the
-- theorems on well-formed buffers exclude the last. realloc and calloc are an `Allocator`, a record of
-- functions with their documented laws, and every theorem holds for all of them; the allocation of a
-- struct or of a copy is a Boolean argument, and the copies that match_list makes are granted where
-- Kex calls it. A realloc to size 0 that frees the block is left out. The bytes that a grown block gains are whatever realloc
-- returned. A size_t is below 2 ^ 64 and sums of sizes are written with their wrap-around;
-- differences are taken where the code has tested that they do not wrap. Bytes are numbers; a reader
-- takes each modulo 256, as the cast to u_char does. A C string is the list of the bytes in front of
-- its NUL. strsep, strchr, strspn, strcmp, memcmp, memchr, strtoul, isupper and tolower are written out as the C standard has them, in
-- the C locale.
--
-- Fuel. The outer loop of match_pattern_list has the length of the list as fuel; each round takes at
-- least one byte, and match_pattern_list-judge shows that the fuel never runs out. All other loops
-- are structural recursions. The fuel of sshbuf_free bounds the chain of parents; the theorems on it
-- hold for every fuel that covers their chain. atoi is a parameter of proto_spec. The loop of
-- ssh_dispatch_run has the packets that come as its list, and waits at the end of it.
--
-- Not modelled: the life of the channel table, channel requests and reading from descriptors,
-- formatted output, the format of revocation lists in files, and the rest of the programs: protocol
-- 1, discarding and the limits on rekeying in the packet layer, the messages and methods of key
-- exchange, the ciphers themselves, authentication, sessions, the agent and file transfer. The
-- fields of a channel are those that the handlers use; the result of shutdown() and close() is not
-- looked at by the code beyond a message, and is left out. A packet that cannot be sent ends the
-- process by fatal(), so that the handlers of Nchan and Flow are modelled on the runs in which it is
-- sent.
pub mod Base
pub mod Err
pub mod Libc
pub mod Sshbuf
pub mod Getput
pub mod Sharing
pub mod Match
pub mod Compat
pub mod Cipher
pub mod Mac
pub mod KeyKind
pub mod Kex
pub mod Flow
pub mod Dispatch
pub mod Addr
pub mod Tree
pub mod Packet
pub mod Krl
pub mod Channel
pub mod Nchan
pub mod Queue
pub mod Tests
