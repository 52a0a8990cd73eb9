-- ===== src/Lib.antt =====
-- tcpflow captures the packets of TCP connections and stores what each direction of a connection
-- says in a transcript file of its own.
--
-- A packet comes from libpcap to a handler for its data link (src/datalink.cpp), which hands its IP
-- datagram to the demultiplexer (src/tcpdemux.cpp, the class tcpdemux). That finds or creates the
-- flow of the packet's five-part address and lets it store the data (src/tcpip.cpp, the class
-- tcpip), closing the files of other flows when descriptors run out (src/intrusive_list.h keeps
-- them in access order), under a name made from a template (src/flow.cpp).
--
-- The parts:
--   Base        numbers, lists, machine words, association lists and std::sort, that all parts share.
--   Flow        src/tcpip.h: ipaddr (a list of 16 bytes), flow_addr, timeval, flow.
--   Tcpip       src/tcpip.cpp. File is a regular file with a position, as POSIX has it; Shift is
--               shift_file; State the class tcpip; Store the function store_packet, split at its
--               steps: place (where the bytes go, and how many), open_up (room at the start),
--               is_keepalive, move_by (the seek), write_packet. Store/Sequence,
--               Store/Stream and Store/Reassembly hold its theorems.
--   OpenFlows   src/intrusive_list.h. A cell is a node of the std::list, an iterator its number.
--   Filename    src/flow.cpp: flow::filename and its template letters; macaddr of src/util.cpp.
--               Options is what -F and -T of src/tcpflow.cpp do to the template, and Counts how
--               names differ.
--   Demux       src/tcpdemux.cpp. Os is a model of the system calls on files; State the class
--               tcpdemux, with the tcpip objects in a heap by address; Files opens and closes
--               transcripts (retrying_open, new_filename, open_file, close_file); Flows is the map
--               of flows and the end of a flow; Segment reads headers; Tcp is process_tcp, split at
--               its parts; Packet is process_ip4, process_ip6 and process_pkt. Rules are those of a
--               program logic for the methods, and Invariant holds what the methods keep, one file
--               for each group of them.
--   Datalink    src/datalink.cpp: the handlers up to the bytes that they pass on, and their table.
--   AddressTree src/iptree.h: the radix tree of address counts, with its cache and its pruning
--               (Sum, Limit, Stale), its histogram (Histogram, Names) and the tree of pairs (Pairs).
--               A pointer to a node is the path of bits that leads to it. The functions go on where
--               an assertion fails; those of pruning are in Limit/Asserts, as a test that a run
--               passes.
--   Mime        src/mime_map.cpp: the table of types, in five parts, and its lookup.
--   Http        src/scan_http.cpp: the callbacks of the HTTP parser (Open, Headers, Body, Complete)
--               on the files of Demux.Os, and the scan of a transcript (Scan).
--   Netviz      src/netviz: Ports, Addresses and Time are the three histograms, Report is the class
--               one_page_report up to its drawing, which feeds them and two address trees.
--   Commas      src/util.cpp: comma_number_string; ReadBack is a reader of what it writes, Placed
--               says where the commas are.
--   PcapWriter  src/pcap_writer.h: the bytes of a capture file. Reader is a reader by the format,
--               which the program does not have.
--   Tests       runs on concrete inputs, and each theorem at one.
--
-- A method of the demultiplexer returns a result and a new state, or the way in which the program
-- stops: died (die or exit), aborted (an assertion), dangling (an access to a deleted flow),
-- undefined (another step that C++ leaves undefined, such as a read behind the captured bytes, or
-- through a null iterator), out_of_fuel. Machine integers keep their wrap-around: uint32_t and
-- uint64_t by `%`, int32_t as ℤ from its pattern. A native byte is a number that no theorem needs
-- to bound.
--
-- Fuel: shift_file has one round more than the file has bytes, and each round moves one at least.
-- retrying_open has two rounds more than there are open flows, since each repeated round closes one.
-- new_filename tries one name more than there are files, one of which is free if the names differ.
-- The loops of the data link handlers have the length of the frame, of which each round takes four
-- bytes, and prune_if_needed has the number of nodes, of which each round but the last removes one
-- or two. scan_chunks has the bytes that are left, of which a round that does not end the loop takes
-- one at least, and inflate_loop what zlib has left to do, which a successful call lowers. The reader
-- of captures has the number of records, and comma_number_string the number itself.
--
-- Parameters: boost::icl::interval_set (ReconSet), inet_ntop and strftime (Naming), the version of
-- a datagram that be13_api reads, and what its packet_info tells the report; http_parser (a tree
-- of callbacks) and zlib; fwrite, by how much it accepts; the product of a bucket count and the
-- float 0.1; whether a port has a color. The system calls are those that POSIX documents, where
-- writes to regular files are complete and a descriptor number is used once.
--
-- Not modelled: the console formats, the time stamps of files, directories, sqlite, the limit on
-- subprocesses of the demultiplexer, the sorting of dissect_tcp; the text of messages (only the one
-- that reads a removed flow is there); the text that iptree dumps; drawing with cairo; other
-- options, signals and the capture loop of the main program; wifipcap, which is the copy of
-- another project; the plugin system and libpcap. `flow_map` and the other hash tables are
-- association lists: the order in which a table is walked is the order of insertion.
pub mod Base
pub mod Flow
pub mod Tcpip
pub mod OpenFlows
pub mod Filename
pub mod Demux
pub mod Datalink
pub mod AddressTree
pub mod Mime
pub mod Http
pub mod Netviz
pub mod PcapWriter
pub mod Commas
mod Tests
