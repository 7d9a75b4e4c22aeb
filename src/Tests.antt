-- ===== src/Tests.antt =====
-- Each theorem that has a hypothesis or a variable, applied to concrete input.
mod Rx
mod Url
mod Range
mod Tx
mod Http
mod Headers
mod Pipeline
mod Store
mod Accept
mod Deadline
mod Wheel
mod Auth
mod Compression
mod Lifecycle
