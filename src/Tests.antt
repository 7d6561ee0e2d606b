-- ===== src/Tests.antt =====
-- Tests and examples of the modules for src/msgpack/rpc: each theorem about the code at concrete
-- data, over small objects that stand for msgpack's.
pub mod Objects
mod Addresses
mod Sessions
mod Futures
mod Pools
mod Transports
mod Calls
mod Copies
mod Tables
mod Broadcasts
mod Datagrams
mod Threads
mod Echo
mod Handles
mod Peers
mod Loops
mod Buffers
mod Chunks
mod Order
mod Requests
mod Streams
mod Windows
mod Proxies
