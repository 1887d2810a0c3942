-- ===== src/Lib.antt =====
-- Programs of a networking course in C: a router that forwards IP packets, answers ARP and ICMP
-- and keeps an ARP table (tema1/), an HTTP client that writes requests and receives replies into a
-- growing buffer (lab10/), a link emulator with two protocols over it (3lab/, lab3/), an earlier
-- router (mizerie/), a game for two over a server (training/x_si_0/), a server for tables of names
-- (training/dns_server/), a hangman server (training/spanzuratoarea/), a number guessing server
-- (training/practic/), a chat server (training/multi_chat/) and `ping` (lab5/). The programs run on
-- Linux on a little-endian machine; where two have the same code, each has a copy of its own.
--
-- The router. `main` of tema1/router.c reads a routing table from a file, sorts it, and then
-- handles one received packet per round of its loop. A round reads the packet through header
-- structs laid over its payload, looks routes and neighbours up, and sends at most one packet.
--   Router/Layout/* : the header structs as offsets; `arpPkt` of tema1/include/arp_parser.h has the
--     padding that the compiler puts in.
--   Router/Packet   : `packet` and `init_packet`, `complete_ip_icmp`, and the two lines that set a
--     header's check (tema1/include/skel.h, tema1/skel.c, tema1/router.c).
--   Router/Checksum : `checksum` of tema1/skel.c, at any alignment of its block.
--   Router/Hwaddr   : `hex2num`, `hex2byte` and `hwaddr_aton` of tema1/skel.c.
--   Router/Route    : tema1/route.c: `compare_func`, `parse_route_table`, `binarySearch` and
--     `get_best_route`.
--   Router/Arp      : tema1/arp.c: `get_arp_entry`, `update_arp_table`, `complete_arp_pack`.
--   Router/Step     : the loop body of `main` in tema1/router.c, `step`, from the ARP table and a
--     packet to the new ARP table and the packet sent.
--   Router/Tests    : concrete packets and tables.
-- The earlier router. mizerie/router.c searches its routing table from end to end and reads the
-- hardware addresses of its neighbours from a file.
--   Earlier/*       : `get_best_route` and the loop body of `main`, `handle`, over the packets,
--     checksum and ARP lookup of Router, whose code is the same in both programs.
-- The HTTP client. `receive_from_server` of lab10/helpers.c reads a reply into a buffer, looks in
-- it for the end of the header and for the length, and then reads on up to that length. The requests
-- are put together from lines in blocks of fixed size.
--   Http/Buffer     : lab10/buffer.c, `data` as the block that it points to.
--   Http/Receive    : `receive_from_server`, over the list of the results of its calls of `read`.
--   Http/Text       : strings in blocks of BUFLEN and LINELEN bytes, `compute_message` of
--     lab10/helpers.c, and `%d`.
--   Http/Requests   : lab10/requests.c: `compute_get_request` and `compute_post_request`.
--   Http/Send       : `send_to_server`, over the list of the results of its calls of `write`.
--   Http/Tests      : concrete buffers, requests and replies.
-- The link emulator. 3lab/link_emulator/ passes packets on with delay and loss; its threads hand
-- them over in linked queues.
--   Link/Queue      : 3lab/link_emulator/queue.c, on a heap that is part of the state.
--   Link/Threads    : `link_scheduler` and `run_forwarding` of 3lab/link_emulator/link.c as a step
--     relation. A section of code under `buffer_lock` is one step, and so is the code between two
--     such sections; either thread may take the next step. The clock does not go back.
--   Link/Params     : `split_param` of 3lab/link_emulator/link.c, an argument of the command line.
--   Link/Reverse    : `run_reverse_forwarding` and its `receive_message`, over the results of the calls
--     of `recvfrom`.
--   Link/Tests      : concrete queues, runs and arguments.
-- The exchange over it. 3lab/send.c keeps a window of messages unanswered, and 3lab/recv.c answers
-- each of them, ACK or NACK as its parity byte says.
--   Window          : the messages, the parity byte, the answers, and `send_message` and
--     `recv_message` of 3lab/link_emulator/lib.c between the two layouts of a message.
--   Window/Exchange : the loops of both processes as a step relation, with a link emulator that may
--     lose the next message or flip a bit of it, by `flip_bit` of Link/Threads.
--   Window/Tests    : concrete messages and runs.
-- The file transfer. lab3/send.c sends a file in packets, each of which lab3/recv.c acknowledges.
--   Transfer        : the two processes as functions that make a move when their message is there,
--     and the messages between them, which are neither lost nor reordered; `xor_sum` of
--     lab3/link_emulator/lib.c.
--   Transfer/Tests  : a concrete file.
-- The game. training/x_si_0/ has a server that pairs players and passes their messages on.
--   Game/Client     : the loop of `main` in training/x_si_0/client.c: a line from the keyboard, and a
--     message of the server.
--   Game/Server     : the loop of `main` in training/x_si_0/server.c: a connection, and data on a
--     socket, over the array of games.
--   Game/Server/Joining : which clients come to play with each other.
--   Game/Server/Pairs   : who gets what a player sends.
--   Game/Play       : two players with the messages between them.
--   Game/Tests      : concrete games.
-- The server for names. training/dns_server/server.cpp keeps addresses, names and mail servers in
-- three tables, and answers questions about them.
--   Names           : `tokenize` and the six commands, over the words that `boost::split` returns.
--   Names/Split     : what the server relies on `boost::split` for, and a function in its place.
--   Names/Loop      : the loop of `main`: connections, data, and the keyboard.
--   Names/History   : the answers as the entries added before determine them.
--   Names/Tests     : concrete messages.
-- The hangman server. In training/spanzuratoarea/server.cpp the first client sets a word and the
-- others guess its letters.
--   Hangman         : the loop of `main`: connections, the keyboard, `set` and `guess`.
--   Hangman/Scan    : its `sscanf`.
--   Hangman/Game    : a game, from the message that sets the word on.
--   Hangman/Sending : who receives what is sent to all.
--   Hangman/Answers : what the players are told about a guess.
--   Hangman/Tests   : concrete games.
-- The guessing game. In training/practic/server.cpp the first player sets a number and the others
-- guess it.
--   Guess           : the loop of `main`: connections, data, the keyboard.
--   Guess/Atoi      : `atoi`, as the cast of `strtol` to `int`.
--   Guess/Game      : a game, message by message.
--   Guess/Players   : the vector of the players over the events of the loop.
--   Guess/Tests     : concrete games.
-- The chat server. training/multi_chat/server.cpp keeps a list of its clients.
--   Chat            : the loop of `main`: connections, ends of connections, and `LIST`.
--   Chat/Listed     : the list as the connections before determine it.
--   Chat/Tests      : a concrete run.
-- Ping. lab5/icmp.c sends ICMP echo requests, numbered or with growing times to live, and waits for
-- a packet after each.
--   Ping            : `ping` and `traceroute`, over the packets that arrive; the headers and
--     `checksum` are those of Router.
--   Ping/Replies    : which packets lab5/utils.c takes for replies.
--   Ping/Requests   : the fields and checksums of what is sent.
--   Ping/Probes     : what is sent, how often, and when a run ends.
--   Ping/Tests      : concrete packets.
-- Base, Bits, Bytes, Text and Select hold what the parts share: Boolean tests, lists and signed
-- integers over the native numbers, `|` on fields that do not overlap and the laws of `^`, byte
-- memory with `htons`, `memcpy` and loads and stores of 16 and 32 bits, C strings in buffers, and the
-- descriptors that `select` is given, with `close_all_sock`.
--
-- How code is modelled. A C array is a function from offsets to bytes with the size of its
-- allocation beside it, or a list; an access outside the allocation is a value, `fault`, `broken` or
-- `none`. Unsigned arithmetic wraps where it is written with `%`; -1 and other negative results are
-- `negsuc`. The addresses of the buffers, on which the alignment in `checksum` depends, are fields
-- of `System` and `Host`, as are the answers of the system about the interfaces. `strtol`, `tolower`,
-- `strcasecmp`, `boost::split` and the conversions of a line of the routing table are parameters.
--
-- Fuel. `binary_search` gets the number of cells and two more rounds, `run_end` the cells that are
-- left, and `fold_carries` four rounds; `digits` gets one round more than its number, and
-- `run_reverse_forwarding` and `traceroute` one round more than the messages. The proofs show that
-- none of them runs out. The other loops recurse on what they walk over.
--
-- Bounds. The sizes and positions that the code keeps in an `int` are narrowed where it does so in
-- `buffer_find`, in the size of the file of lab3 and in `atoi`, and stay below 2^31 elsewhere, as the
-- lengths of messages in `send_to_server` do. `realloc` to no bytes, which no caller of `buffer_add`
-- asks for, keeps a block. What lies behind the routes of a table was never written: where a theorem
-- takes it for zero, its hypotheses say so.
--
-- Messages. One call of `recv` or `recvfrom` reads one message. `start` of each step relation is the
-- state behind the set-up of sockets and threads. The product in `window_size` is assumed to stay
-- below 2^31.
--
-- Not modelled: sockets, files and printing, and the ends of a process after a failed call of them;
-- allocation, which succeeds; `qsort`, in whose place the theorems say what order they need of the
-- table; the reads of `strtol` itself; the copies of the link emulator in lab2/ and lab3/; the sender
-- and receiver of lab2/, an earlier state of those of lab3/; lab4/, whose router is that of mizerie/;
-- training/smtp_server/, whose server is that of training/dns_server/; the other laboratories and
-- exercises.
pub mod Base
pub mod Bytes
pub mod Bits
pub mod Text
pub mod Select
pub mod Router
pub mod Http
pub mod Link
pub mod Game
pub mod Transfer
pub mod Window
pub mod Earlier
pub mod Names
pub mod Hangman
pub mod Ping
pub mod Guess
pub mod Chat
