-- ===== src/Connection.antt =====
-- http_proxy/connection.c: one thread of the proxy, as a step function over its connection and
-- what the threads share, with `cache_dtor` of http_proxy/main.c and `initServerSocketToUrl` of
-- http_proxy/address_utils.c.
--
-- `World` holds the cache table, the heap of cache entries by address (none where there is no
-- entry or it was freed), and what has been sent and closed. The results of the system calls that
-- an iteration makes are given in its `Calls`. Another thread may change the `World` between steps.
pub mod State
pub mod Handlers
pub mod Response
pub mod Loop
pub mod Serving
pub mod Edges
pub mod Requests
pub mod Replies
pub mod Turns
pub mod Caching
pub mod Forwarding
