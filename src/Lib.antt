-- ===== src/Lib.antt =====
-- A model of the exchange's trading core: the matching engine, the gateway, the account service, and the
-- queues, pools and receivers that join their threads.
--
-- A client logs in at a gateway, which asks the account service for the client's account. An order
-- reaches the gateway, which checks it against the client's funds and sends it to the matching
-- engine of its asset. The engine trades it against its book and publishes two streams: reports on
-- orders, and changes of the book. The gateway and the account service receive the reports by multicast
-- and apply them to their clients' states. Threads hand work to each other through queues of one
-- producer and one consumer; what they hand over is an object of a pool.
--
-- Files and the code that they model:
--   Wire: market_server/common/include/order.hpp, order_state_report.hpp, order_book_update.hpp,
--     client_account_snapshot.hpp and routed_auth_request.hpp, the messages, without the timestamps of
--     NAOTO_PERF.
--   HashMap: market_server/common/include/flat_hash_map.hpp, as the list of its keys and values, which is
--     how the other files use it. HashMap/Table has its slots and `GetVal`, HashMap/Update `AddNode` and
--     `DeleteNode`; a vector of sixteen slots is its lanes, a mask the list of its set lanes. Buckets says
--     what a table stands for, Rows, Writes, HomeLoop, Find and Shift are about sixteen slots, Lookup,
--     Insert and Delete about one operation, Refines about runs.
--   Queue: market_server/common/include/spsc_queue.hpp, `TryPush`, `TryPop` and `GetSize` with the
--     counters of the two handles. Queue/Window is about the buffer's places, Queue/Counters about
--     the wrap at 2^64, Queue/Fifo about one operation, Queue/Runs about sequences of them.
--   Pool: market_server/common/include/single_threaded_storage_pool.hpp; a pointer to an object is
--     its index.
--   Mempool: market_server/common/include/storage_pool.hpp, the pool of one acquiring and one
--     releasing thread, on top of Queue. Mempool/Owned is about who has which object.
--   Consumer: market_server/common/include/consumer.hpp, `TryConsume` over any handler, on top of
--     Queue and Mempool.
--   Multicast: market_server/common/include/udp_multicast_receiver.hpp, `Receive`; Multicast/Ring:
--     sequence_ring_buffer.hpp of the same directory. Multicast/Order is about the loop that empties
--     the buffer, Gaps about reports that are missing, Progress about the one that is awaited.
--   Emitter: market_server/common/include/udp_multicast_emitter.hpp, the two functions `Send`, for the
--     reports. What DPDK answers in a call is an argument. Emitter/Numbers is about sequence ids, Packets,
--     Bursts and Delivers about what is sent, Arrives and Stalls about the receiver of Multicast
--     behind it.
--   VersionedFd: market_server/common/include/versioned_fd.hpp, the packed word and its halves.
--   Matching/Level: market_server/matching_engine/include/price_level.hpp and order_node.hpp. The
--     doubly linked list of nodes is a list, a pointer to a node is the node's address.
--   Matching/Links: price_level.hpp again, with the pointers of its nodes: `AddOrder` and `DeleteOrder` on
--     `Head`, `Tail`, `Prev` and `Next`. Matching/Links/Levels sets it beside Matching/Level.
--   Matching/Book: market_server/matching_engine/include/order_book.hpp. The skip list of levels,
--     with its hash map from prices, is the list of levels in the skip list's order.
--   Matching/BidAsk: market_server/matching_engine/include/bid_ask.hpp, the matching thread.
--     BidAsk has the state and the outgoing messages, Fill the loops of `FillBuyOrder` and
--     `FillSellOrder`, Handlers everything from `AddLimitOrder` to `MarketExecutionLoop`. The code's
--     twin functions for the two sides are one function with the side as its argument.
--     Matching/Resting, Book/Sorted and the other children hold what the proofs need.
--   Gateway/Client: market_server/order_gateway/include/client_state.hpp, client_delta.hpp and
--     local_attempts.hpp.
--   Gateway/Risk: order_risk_check.hpp and order_confirmation.hpp of the same directory.
--   Gateway/Router: `consumeOrder` of order_router.hpp with what it calls, in the build over sockets,
--     and market_server/common/include/bytes_buffer.hpp. An order comes with what the router finds at
--     its turn: the client's state, the word of the engine's descriptor, the results of `send`.
--   Gateway/Buffer: client_states.hpp, the three copies of a client's state. Gateway/Buffer/Spec
--     says what they stand for.
--   Gateway/Writer: client_states_writer.hpp, the thread that updates the clients' states.
--   Gateway/Server: gateway_server.hpp, the handlers that the epoll server calls, on top of Queue and Mempool;
--     client_auth_request.hpp of market_server/common/include.
--   Gateway/Connections: the watchers of order_router.hpp, `etcdOnMEResponse` and
--     `etcdOnAccountServiceResponse`, and what `EtcdClientSetUp` does before, over the sockets that are
--     open; what `ls`, `connectToService` and `send` return is given. Sockets counts sockets, Tracks says
--     which the watchers leave open, Opens follows a router from its start.
--   Triple and Batch: what the triple buffers and the writers of the gateway and of the account
--     service share: three copies and the one that is shown, and a batch that is flushed once for
--     each client, over any buffer that keeps the laws of the record `Buffered`.
--   Account/Client: market_server/account_service/include/client_state.hpp and client_delta.hpp.
--   Account/Buffer: client_states.hpp of the same directory, the three copies of an account.
--   Account/Writer: client_states_writer.hpp, the thread that books the engines' reports.
--   Account/Requests: src/client_request_processor.cpp and include/routed_message.hpp of the
--     service, the answers to the gateways. SHA-256 is a parameter, any function of 32 bytes.
--   Account/Dispatcher: gateway_response_dispatcher.hpp of the service, `ConsumeMessages` and `SendMessage`, on
--     top of Queue, Mempool and VersionedFd. What a call of `send` meets is an argument.
--   Epoll: market_server/common/include/epoll_server.hpp, the loop of `readMessage`, with object_buffer.hpp
--     and object_batch.hpp of the same directory, on the bytes of one client. Epoll/First has the first
--     message of a connection and the whole of `readMessage`, Epoll/Greeting is about all its calls.
--   Login: the answers of Account/Requests, handled by Gateway/Writer.
--   Common: Boolean tests, lists and integers that all of these share.
--   The files named Tests run the definitions and apply the theorems at concrete inputs.
--
-- State is a record that each operation takes and returns. A handler of the matching thread ends in
-- an `Outcome`: `terminated` where the process ends, by std::terminate or a null pointer, `corrupted` where a
-- cancel names the wrong side and the code would unlink a node from a list that it is not in, or an order would
-- rest in a level that the skip list does not take. For each report and update of a handler it is given whether
-- it finds an object and room in its queue. Loops are recursion
-- on what they go through: the fill loops on the levels and orders of the other side, the searches
-- on the number of places left, the catch-up on the number of reports that were missed. The
-- loop of the multicast receiver that empties its buffer runs on fuel, a turn for each slot of
-- the buffer; the theorem on it says that this is enough. The loops of the hash map's `AddNode` and the
-- second of `DeleteNode` take fuel and give none without it: 16 is enough while no hash has more than
-- sixteen keys, which the theorem on them says. The emitter's loop has a round for each object.
--
-- Assumptions. An `int64_t` does not leave its range and is an integer, but for the amount that the risk
-- check computes, which wraps; `uint32_t` and `uint64_t` wrap where a definition says so. No hash of a hash
-- map comes to more than sixteen keys, and the skip list has a node for each level. A queue has 2^k places, k at most 63. One
-- operation of a queue or of the triple buffer runs as a whole, and each side's operations are seen
-- by the other in the order in which they happen.
--
-- The payload of a multicast packet is given as the objects that the turns of the loop over it
-- copy. The action, side and type of an order are values of their enums, and its asset is one of the
-- router's engines. The calls of `send` after those that a
-- turn lists fail. What stands in a batch of the epoll server behind the received bytes is given with them.
-- The other side of a pool or a queue does nothing while a receiver empties its buffer.
--
-- Not modelled: sockets and shared memory themselves, accepting connections,
-- etcd and process start-up, logging, the blocking and timed operations of the queue and of its
-- consumers, the placement of nodes in the skip list, the start-up of the emitter, the router's
-- build over shared memory, addresses and their parsing, the account service's `DrainResendBuffers`, which nothing
-- calls, the client.
pub mod Common
pub mod Wire
pub mod HashMap
pub mod Batch
pub mod VersionedFd
pub mod Pool
pub mod Mempool
pub mod Consumer
pub mod Multicast
pub mod Emitter
pub mod Epoll
pub mod Queue
pub mod Triple
pub mod Account
pub mod Gateway
pub mod Login
pub mod Matching
