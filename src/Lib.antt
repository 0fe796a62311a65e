-- ===== src/Lib.antt =====
-- Verification of the limit-order matching engine.
--
-- The program reads order commands from a file (src/feed_handler.cpp) and hands them to one ring
-- buffer per symbol (include/hyperliquid/spsc_queue.h). The engine of each symbol
-- (src/matching_engine.cpp) pops them, runs them on its order book
-- (include/hyperliquid/order_book.h), and pushes the trades and book updates to an output ring, from
-- which the publisher (src/publisher.cpp) writes two logs. A second feed takes JSON messages from
-- the network (include/hyperliquid/network_feed_handler.h, json_serializer.h).
--
-- Files and what they model (headers stand in include/hyperliquid):
--   Base, Base/*            shared names, lists over the native numbers, signed integers
--   Types, Command          types.h, command.h, event.h
--   Order                   order.h: `LevelFIFO` as the list of its orders, oldest first
--   PriceLevels             price_levels_array.h: the levels of a price band in an array
--   Order/Enqueue, Resizing what joining a queue and losing quantity keep of it
--   Order/Links             order.h with the links between the nodes, over a store; Chains: what a
--                           list is in the store; Refinement, Reducing: the operations against the list
--   Order/Copies            how often a node's address is in use, in queues and the free list
--   SlabPool                mempool.h: the free list that order nodes come from; Allocating: a node
--                           is always found; Sharing: a node is free or in use, never both
--   FlatMap                 flat_map.h: the index from order ids to nodes; Probing: its probe loops;
--                           Counting: `size`; Inserting: `insert` and `resize`; Wrapping: an erase
--                           at the end of the table
--   Book/State              order_book.h: the book, its events, `refresh_best_after_depletion`
--   Book/Matching           `match_against_side`, `check_fok_liquidity`
--   Book/Submit, Cancel     `submit_limit`, `submit_market`, `cancel`, `modify`
--   Book/Consume, Fills     a reference for the trades at one level, and the loop held to it
--   Book/Search, Sides      the search for the next best price, and what a side keeps
--   Book/Trading            one trade with a maker
--   Book/Matched, Filled, Filling, Rounds, MatchLoop
--                           a round of matching, and the loop over the rounds
--   Book/Takers             market orders, and limit orders that never rest; Liquidity: the check of
--                           fill-or-kill orders
--   Book/Erasing, Without, Cancels
--                           cancelling an order
--   Book/Joining, Resting, Limits
--                           an order that comes to rest, and limit orders that may rest
--   Book/Sound, Opening     the invariant of the whole book, and the constructor's book
--   Book/Cancelled, InPlace, Modifies
--                           `cancel` and `modify` under that invariant
--   Book/Uncrossed, Crossing
--                           best prices that do not cross, and orders that make them cross
--   SpscQueue               spsc_queue.h; Fifo: the items that the ring holds; Threads: the loads and
--                           stores of its two threads; Steps, Interleaving: what they keep;
--                           Popping: a pop step by step
--   MatchingEngine          matching_engine.h, src/matching_engine.cpp; Output: its output queue;
--                           Serving: one command; Reachable: the books that commands lead to;
--                           Uncrossing: best prices that do not cross
--   Bridge                  tools/engine_bridge.cpp; Loop: its main loop; Fields: a field of a line;
--                           Latencies: the statistics; Identifiers, Active: what the loop keeps
--   FeedHandler             src/feed_handler.cpp; Routing: where the commands go
--   Publisher               src/publisher.cpp; Logs: what a queue's events become
--   Json                    json_serializer.h; Parse: its parser; Decimal: numbers read back
--   LevelTree               price_levels_avl.h; Search: the next level that holds
--                           orders; Cleanup: dropping empty levels
--   WebSocketServer         websocket_server.h; Sessions: its set; Runs: which sessions stay in it
--   LogConverter            tools/log_converter.cpp; Reading: records read back from a log; Rows: the
--                           text that is written
--   NetworkFeed             network_feed_handler.h
--   LatencyTracker          latency_tracker.h; Order: the percentiles
--   BinaryProtocol          binary_protocol.h; RoundTrip: numbers and headers; Messages: serializer
--                           and parser; Messages/Laws: the messages read back
--   Program                 src/main.cpp: its arguments and its engines; Splitting: the lists of the
--                           arguments; Engines: the engines at their start
--   Pipeline                the threads of src/main.cpp with one symbol; Serial: commands served one
--                           after another; Lanes, Progress: the threads against that; System: the
--                           whole program; History, Kept, Whole: each symbol in it
--   Tests                   runs at concrete inputs
--
-- State is passed on explicitly. A function returns `none` where the source would fail an
-- assertion, read out of range, end with an exception, overflow the number that it parses, or wait
-- for ever. Left out is one assertion, `in_use_ > 0` when a node goes back to the pool: only
-- assertions read that count, and in the model it stops at 0. The callbacks of the book append to a
-- list of events. `now_ns n` is the answer of the n-th call of the clock. A price is held in offset form,
-- the price plus 2^63; a quantity is a signed integer without bounds, since the overflow of the
-- source's `int64_t` is undefined. A pointer to an order node is the node's address.
--
-- Bounds: `match_against_side` runs on fuel for one round more than the array has levels; each
-- round but the last empties a level and moves the best price on over the array, so the fuel is
-- enough. The probe loops of the index run for capacity + 1 slots, more than the way round to an
-- empty slot. `drain` takes fuel for one pop more than there are events. The searches keep the
-- source's own bounds of 10000 steps. The loop that reads a log has fuel for one round more than
-- the log has bytes.
--
-- Not modelled: files, sockets and Boost.Beast, the start and the end of threads, CPU pinning and
-- the clock's hardware; weaker memory orders than one step after another for the ring's atomics; the
-- command line tools other than the bridge and the log converter. `std::sort` is a parameter of the
-- latency tracker; the floating-point numbers and the order of the unordered map are parameters of
-- the bridge; the layout of a record in memory is a parameter of the log converter.
pub mod Base
pub mod Types
pub mod Command
pub mod Order
pub mod PriceLevels
pub mod Pipeline
pub mod Program
pub mod SlabPool
pub mod FlatMap
pub mod Book
pub mod Bridge
pub mod SpscQueue
pub mod MatchingEngine
pub mod FeedHandler
pub mod Publisher
pub mod Json
pub mod LevelTree
pub mod LogConverter
pub mod WebSocketServer
pub mod NetworkFeed
pub mod LatencyTracker
pub mod BinaryProtocol
pub mod Tests
