-- ===== src/Rx.antt =====
-- http_boundary.c and the receive-side bookkeeping of rx_stash.c.
pub mod Boundary
pub mod Terminator
pub mod Tail
pub mod Chunks
pub mod Split
pub mod Stash
pub mod Pool
