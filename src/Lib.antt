-- ===== src/Lib.antt =====
-- go-graphsync: an implementation of the GraphSync protocol, which exchanges the blocks that a
-- selector traverses. A requestor keeps what it has traversed in a traversal record and holds the
-- links that a remote sends against it; a responder runs the selector, asks the peer's link tracker
-- whether to send each block, asks the memory allocator for room, and puts what it has to say into
-- the message queue of the peer, which builds messages, sends them and gives the memory back.
--
-- The files, each with the code that it models (the map of definitions to lines is kept beside the
-- library):
--   Base: the names that the files share, 64-bit arithmetic, lists over the native numbers, and maps.
--   Allocator: allocator/allocator.go. Accounts and Granting hold the invariant of an allocator and
--     what one answer to a request does to it, Loop is processPendingAllocations, Operations the
--     methods, Order the comparator, Queue the interface of the priority queue, SortedQueue a queue
--     that fills it.
--   LinkTracker: linktracker/linktracker.go; Counts is about its reference counts.
--   PeerTracker: responsemanager/responseassembler/peerlinktracker.go, which keeps a link tracker for
--     the peer and one for each dedup key in use. Trackers and Dedup hold its invariant, SendsOnce is
--     about the decision to send a block.
--   Message: message/message.go, and Message.Builder: message/builder.go. Extensions is about the
--     merging of extensions, Scrub about the removal of responses, Responses about the responses that
--     Build makes of what a builder was given.
--   MessageQueue: messagequeue/builder.go and messagequeue/messagequeue.go. Scrub is about the
--     removal of responses from the messages that wait, Sending about what becomes of a message.
--   Assembler: responsemanager/responseassembler/responseBuilder.go and responseassembler.go, which
--     use the peer's link tracker and the message queue; Memory is about the sizes asked for.
--   Traversal: requestmanager/reconciledloader/traversalrecord/traversalrecord.go. Shape is the
--     invariant of a record, Paths its reading as a map, Matching the verifier against a recursive
--     description of what a remote may send, RoundTrip a record against its own verifier.
--   ResponseCode: responsecode.go; Errors is about AsError.
--   RemoteQueue: requestmanager/reconciledloader/remotequeue.go, pathtracker.go and injest.go.
--     Contents and Queueing say to which items a queue leads, Ingesting which items it is given.
--   Loader: requestmanager/reconciledloader/reconciledloader.go and load.go, which use the traversal
--     record, its verifier and the remote queue; Waiting is about the loop of waitRemote, Remote
--     about loadRemote.
--   ResponseManager: responsemanager/server.go and preparequery.go, with the handlers of messages.go;
--     Hooks are responsemanager/hooks, Effects and Protection the connections that are protected, Waiting
--     the tasks that wait, Completing the state before the end, Subscriber and NetworkErrors
--     subscriber.go with the message queue.
--   RequestManager: requestmanager/server.go; Hooks are requestmanager/hooks, Loop messages.go. Validity
--     is the invariant under which no handler faults, Responding is about processResponses, with About and
--     Untouched for the requests that it leaves alone, Channels and Orderly about the channels on which a
--     request's caller gets blocks and errors.
--   Executor: requestmanager/executor/executor.go; Asking is about when the remote is asked.
--   Collector: requestmanager/responsecollector.go; Delivery is about one event, Runs about all.
--   PeerState: peerstate/peerstate.go and what both managers give it; Agreement and Tracked say when
--     the diagnostics are empty.
--   PeerManager: peermanager/peermanager.go; Counting is about the counts and the processes.
--   Notifications: notifications/publisher.go; Listening is about the two maps of the registry and
--     Commands about the publisher's commands. The message queue publishes to it, and the subscriber of
--     the response manager listens.
--   A file Tests holds runs and instances of the theorems of the files beside it.
--
-- How the code is represented. Peers, request ids, cids, topics, extension names and data, selectors,
-- streams and subscribers are numbers: this code passes them on or compares them. A Go map is an
-- association list, in which a new binding replaces the old one; where the code ranges over a map,
-- the order is that of the list. A uint64 is a number with its wrap-around at 2^64 written out. A
-- method takes the state and gives back the new one; a fault (a nil pointer) is `none`, an error is a
-- value; what a method does outside of its state (an answer on a channel, an event, memory given back)
-- is a list, in order. Methods that hold a lock throughout are single steps.
--
-- Bounds and fuel. The loop of processPendingAllocations runs on fuel: the number of requests that
-- wait and of peers in the queue, and one more, is enough from an allocator in order, since each round
-- answers a request or drops a peer. The tries of sendMessage are counted down from the queue's
-- maximum. The loop of waitRemote takes an item from the queue in each round, so fuel beyond the
-- number of items is enough. Where a theorem needs a sum to stay below 2^64, it says so.
--
-- Parameters. The priority queue (github.com/ipfs/go-ipfs-pq) is a record of operations with its
-- documented laws: Peek and Pop give an element that no other one is less than, and the other
-- operations keep the elements. The encoded length of an extension (dagcbor.EncodedLength) is a
-- function, how each try to send a message ended is an argument, and the local store is a state with a
-- function that writes a block and says whether it could. What the traverser and the loader give the
-- executor in each round is a list; which peers' processes have Startup is a function, and so are the
-- checks of a new request and the results of the hooks of all managers.
--
-- Not modelled: goroutines, channels and the order in which they are served, spans and log lines, the
-- libp2p network, the wire encoding, the selector traversal of go-ipld-prime, and so far the executor of
-- responses, block hooks, the local loads of the reconciled loader, the task queue, persistence options
-- and listeners.
mod Base
pub mod Allocator
pub mod LinkTracker
pub mod PeerTracker
pub mod Message
pub mod MessageQueue
pub mod Assembler
pub mod Traversal
pub mod ResponseCode
pub mod RemoteQueue
pub mod Loader
pub mod ResponseManager
pub mod RequestManager
pub mod PeerState
pub mod Collector
pub mod PeerManager
pub mod Notifications
pub mod Executor
