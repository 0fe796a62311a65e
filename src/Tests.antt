-- ===== src/Tests.antt =====
-- Runs of the program at concrete inputs, by part: the book of include/hyperliquid/order_book.h, the
-- index of include/hyperliquid/flat_map.h, and the queues, feeds and logs around them.
mod Book
mod Matching
mod Index
mod Queues
mod Engine
mod Links
mod Crossing
mod Sockets
mod Converter
mod Pipeline
mod Bridge
mod Program
mod Formats
