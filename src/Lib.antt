-- ===== src/Lib.antt =====
-- tinc-quic: a mesh VPN daemon whose packets and metadata travel over QUIC, disguised as HTTP/3.
--
-- The parts of the program that are modelled, and the files that model them:
--
--   Http3     src/http3_frames.c: variable-length integers (Http3/Varint), frame headers, DATA and
--             HEADERS frames (Http3/Frame), the text of a HEADERS frame and when one is sent
--             (Http3/Headers). Functions keep their C names.
--   Padding   src/padding.c: the size of padding, padding_add and padding_remove.
--   Quic      src/quic.c: the layout of a VPN packet in a datagram by quic_send_packet and its
--             reading by quic_connection_callback (Quic/Datagram), the wrapping of metadata by
--             quic_send_meta and its unwrapping by quic_stream_callback (Quic/Stream), and the pool of
--             send buffers (Quic/Pool).
--   Buffer    src/buffer.c: the buffers of metadata, as queues of bytes (Buffer/Queue,
--             Buffer/Add, Buffer/Read).
--   Hash      src/hash.c: the direct-mapped tables (Hash, Hash/Slots).
--   Subnet    src/subnet_parse.c: masks (Subnet/Mask) and the order of subnets (Subnet/Compare);
--             src/subnet.c: the lookups of the subnet of an address (Subnet/Lookup).
--   Graph     src/graph.c with the records of src/node.h and src/edge.h, and update_node_udp of
--             src/node.c: the breadth-first search (Graph/Bfs), the spanning tree (Graph/Kruskal),
--             and what a change of reachability does (Graph/Reachability).
--   Edges     src/edge.c: the trees of edges, with edge_add (Edges/Entered, Edges/Add, Edges/Added),
--             edge_del (Edges/Delete) and lookup_edge (Edges/Lookup); src/protocol_edge.c: del_edge_h
--             (Edges/Requests, Edges/Deleted).
--   Route     src/route.c: checksums and the time to live (Route, Route/Checksum), the rate limit
--             (Route/Limit), clamp_mss (Route/Clamp), fragments (Route/Fragment), route_ipv4 and
--             route_ipv6 (Route/Forward).
--   Protocol  src/protocol.c: which requests receive_request passes to a handler
--             (Protocol/Dispatch), and the tree of past requests (Protocol/Past).
--   Splay     src/splay_tree.c: the splay trees that hold nodes, edges, subnets, requests and events
--             (the search in Splay, insertion and removal in Splay/Update), on the list of their nodes
--             (Splay/Search, Splay/Insert, Splay/Unlink, Splay/Delete).
--   Event     src/event.c with timeradd and timersub of src/dropin.h: the timeouts (Event/Timeouts),
--             what a call changes (Event/Changes,
--             Event/Deletion, Event/Calls), and get_time_remaining (Event/Loop).
--   Utils     src/utils.c: hexadecimal text (Utils/Hex), Base64 (Utils/Base64), the rules for
--             names (Utils/Names).
--   Common    what all share: tests on numbers, lists under native indices, words, text.
--
-- quic_send_packet builds datagrams from padding and HTTP/3 frames; the receiver undoes both. A
-- subnet lookup asks its cache, a hash table, before it walks through the tree of subnets. A run of
-- `graph` flushes those caches, searches the graph of nodes, marks the reachable ones and chooses the
-- connections that broadcasts take. route_ipv4 looks up the subnet of a packet's destination and sends
-- the packet to its owner over the next node that the graph gives.
--
-- How the code is read. A pair (pointer, size) of an input is the list of its bytes, and a pointer
-- into it that a function returns is an offset. What a function writes to an output buffer is the
-- list of the bytes written from its start; the size of the buffer is an argument. A returned 0 or
-- false is `none`. NULL pointers of arguments have no counterpart. Unsigned numbers are natural, and
-- a conversion to a narrower type is written out (u8, u16, u32, u64). What rand() and time() return
-- is an argument. Log messages are left out. The loop of Quic.Stream.unwrap_frames runs on fuel, as
-- many rounds as the buffer has bytes; a frame has two bytes at least. Hash.hash_rounds runs on as
-- many rounds as the key has bytes; a round takes four. The tree of subnets is the list of them that
-- splay_each walks through; nodes are given by their names there. An `int` is an integer; a difference
-- of two of them wraps as on 32 bits (Common.Int.int_difference), and so does the number that atoi
-- reads. Theorems on the trees of edges assume weights whose differences fit an int (WeightsFit), and
-- those on the spanning tree a list of edges in the order of their weights (Weighed).
-- In the graph a node is a number, an edge carries the position of its reverse edge, and the searches
-- run on fuel: Graph.Bfs.Shortest.rounds and Graph.Kruskal.Loop.rounds give numbers of rounds that
-- are always enough. What a routing function does with a packet at last is an action that it returns.
-- Route.fold_carries takes two rounds, which fold any 32-bit sum, Route.Clamp.search_mss as many as
-- there are bytes of options, and Route.Fragment.fragments_from as many as there are bytes of data.
-- A node of a splay tree is its address, a number; `payload` gives its data and `compare` the order,
-- which is a parameter. The shape of the tree, by its left, right and parent pointers, is a data type,
-- and the threads through its nodes are a list of their own beside it. splay_insert_before and
-- splay_insert_after are modelled where they are called, with the closest node at the root. A timeout
-- is its address too; callbacks are a parameter, and run_timeouts runs on fuel, one more than there
-- are timeouts whose time is over.
-- An edge in Edges is its address as well, with its fields as functions of it, and each tree of edges
-- is a splay tree whose node for an edge has the edge's number.
-- The breadth-first search is shown to end where no edge has OPTION_INDIRECT. The handlers of
-- requests are an argument of receive_request. What sscanf reads from a DEL_EDGE request, and what
-- graph() makes of the reachability of nodes, are arguments of del_edge_h.
--
-- Not modelled: msquic, OpenSSL and the operating system with the code that only calls them
-- (connection set-up, certificates, devices, sockets), the control program, and the configuration. Of
-- the graph, sockets, host names, timeouts and the tree of UDP addresses are left out; scripts are
-- events. Of route.c, switching by MAC address, ARP, neighbour discovery and the bodies of the ICMP
-- replies are left out. Of event.c, input and output and signals are left out. Of subnet.c, adding and removing subnets and the scripts are left out.
pub mod Common
pub mod Http3
pub mod Padding
pub mod Quic
pub mod Buffer
pub mod Graph
pub mod Hash
pub mod Subnet
pub mod Utils
pub mod Route
pub mod Protocol
pub mod Splay
pub mod Event
pub mod Edges
