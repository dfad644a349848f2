-- ===== src/Lib.antt =====
-- Verification of a user-space IP and TCP stack in Go: nodes send IPv4 packets over UDP links,
-- routers learn routes by RIP, and hosts run TCP connections with ring buffers, early-packet
-- queues and retransmission.
--
-- Base holds what the parts share: Boolean tests, lists and get/take/drop over native numbers,
-- uint8, uint16 and uint32 with their wrap-around written out, reads of a slice that fail as Go
-- panics, and maps as association lists. Netip holds what the program uses of net/netip.
--
-- Rip is pkg/rip/rip.go: RipUpdate and RipPacket, marshal_rip for MarshalRIP and extract_rip for
-- ExtractRIP. A received slice comes as its bytes and the spare bytes behind them within its
-- capacity; none is a panic. Ipv4 is pkg/iptcp-headers/ipv4header.go: marshal for Marshal and
-- parse_header for ParseHeader. Pq is pkg/pq/pq.go: Pq/Queue has EarlyPacket and the five methods
-- Len, Less, Swap, Push and Pop on the slice, where an index out of range panics, and Pq/Container
-- the Push and Pop of Go's container/heap that the receiver calls, with its documented steps: up
-- runs on the length of the queue, as every round goes from a child to its parent, and down on one
-- more than the length, as every round goes to a child. The receiver takes them as the record Heap
-- of operations and laws, which container_heap of Pq/Least fills.
--
-- Lnxconfig is pkg/lnxconfig/lnxconfig.go: parse_config for ParseConfig, on the lines of the file,
-- over a record Scanner for the parsers of net/netip and for Fscanf on the three formats; a slice
-- index out of range is the result panics.
--
-- Tcp is pkg/tcpstack/tcpstack.go. Tcp/Ring has the byte arrays of the socket buffers, with copy
-- and slices. Tcp/ReadBuffer is the receive buffer: insert_payload is the copying loop of
-- ReceiverThread, whose fuel is the length of the payload, as every round takes a byte; v_read is
-- VRead, where a wait for readCond is the result blocked. Tcp/WriteBuffer is the send buffer:
-- v_write is VWrite, given the values of UNA and NXT that the sender sets between its rounds, and
-- sender_payload is what SenderThread takes out; Tcp/WriteBuffer/Pipe has their interleavings as a
-- step relation. Tcp/Segment and Tcp/Socket are the data of a connection; the retransmission
-- timing of a socket is left out. Tcp/Receive is one round of ReceiverThread as a function to an
-- Outcome: the new socket and the effects on channels and the network, a wait for the state mutex,
-- or a panic. The loop over early packets runs on the length of the queue, as every round takes
-- one out; put_early is the push of a packet that is ahead.
--
-- Tcp/Wire is marshallTCPPacket, the functions of pkg/iptcp_utils/iptcp_utils.go that the stack
-- calls, and protocol6 of the node, over a record Netstack for the header package of netstack; its
-- laws, IsNetstack, are the documented behaviour of Encode and of the accessors. Tcp/Stack has the
-- tables of the stack, the goroutine of Initialize that passes segments to sockets (dispatch),
-- VListen and deleteTCB; a socket stands in the table itself, so that a change of it is a change
-- of its entry, and one in SYN_SENT, whose buffers are nil, is a constructor of its own. Tcp/Open
-- is VConnect and VAccept, on the list of what ends each of their waits; a list that ends too
-- early is a result in which the call still waits. Tcp/Close is VClose of a connected socket and
-- the goroutine it starts. Tcp/Send is slidingWindow, which Tcp/Send/Thread has a round of
-- SenderThread call: Transfer is a call in its loop, with the list of window nodes from the head
-- to the tail, sending is the part of a round that sends (the label normal), Tcp/Send/Acks the
-- part that takes acknowledgements, Tcp/Send/Probe a zero-window probe, and Tcp/Send/Retransmit
-- what retransThread does when its ticker fires; Tcp/Send/Steps has the interleavings of the three
-- with the receiver as a step relation, of which Tcp/Send/Kept has the invariant and
-- Tcp/Send/Frozen what it comes to after a duplicate acknowledgement. Tcp/Exchange puts the sender
-- and the receivers of both sides together. Tcp/File is SendFile and ReceiveFile: a file is its
-- bytes, and receive_round is a round of the loop of ReceiveFile on the socket and the file.
--
-- Node is pkg/node/node.go. Node/State has the tables of a node; Go maps are association lists, an
-- iteration goes over the list, and a Go string is its bytes. Node/Neighbors is
-- createNeighborTable. Node/Routes has checkDest, FindNext and neighborUDP; Node/Packets has
-- makePacket, handlePackets, forwardPacket and HandleSend, over a parameter for the function
-- Checksum of the package netstack, whose documented behaviour is the record IsOnesSum of
-- Node/Packets/Checksum. Node/Rip has the loop of protocol200 over the entries of a response, the
-- entries that sendRIP advertises, and a pass of garbageCollector; Node/Rip/Learned puts the two
-- sides of a response together. Node/Protocol has sendRIP and protocol200 whole. Node/Start is
-- Initialize, one round of each goroutine it starts (interfaceRoutine on either of its channels,
-- periodicUpdates, garbageCollector), and ToggleInterface. Node/Network takes a packet over
-- several nodes: the UDP network is a parameter, a function from a UDP address to the node and
-- interface that listen there; a datagram is cut to the 1400 bytes of the buffer of
-- interfaceRoutine, and travel runs on the time to live, since every node takes one off. A route
-- is shared by pointer between the forwarding table and the map of triggered updates; the model
-- puts each change into both.
--
-- Repl is pkg/repl/repl.go, one line of the terminal at a time: repl_line decides which call a
-- line makes, Repl/Calls performs it on the node or the sockets, and Repl/Words has the functions
-- of the package strings it uses, for ASCII text. Boot is the main of cmd/vhost and cmd/vrouter up
-- to the loop of the terminal: the two parse a configuration and start a node.
--
-- Not modelled: the values of the retransmission timers (recomputeRTO, which computes with
-- floats), the UDP sockets, how long a thread sleeps, what is printed, the position of an early
-- packet in its queue (the field Index, which is never read), and the parts of iptcp_utils that
-- only print or that nothing calls. Sequence numbers wrap in the code by uint32; the theorems on
-- reassembly cover streams that end below the wrap, since the code compares sequence numbers as
-- plain numbers. The theorem on the tables covers stacks that give out no more than 65535 socket
-- identifiers, since those are uint16 and wrap.
pub mod Base
pub mod Netip
pub mod Rip
pub mod Pq
pub mod Ipv4
pub mod Node
pub mod Lnxconfig
pub mod Tcp
pub mod Repl
pub mod Boot
