-- ===== src/Lib.antt =====
-- Lamseryn: a model of the request path of the HTTP/1 server, with its theorems.
--
-- A worker receives bytes into a connection's buffer or stash, cuts them at the end of a header
-- block, feeds them to the request pipeline, and turns the pipeline's plan into a response that the
-- transmit state machine sends. It finds connections in a table by their descriptor, accepts new ones
-- unless it is short of descriptors, and times out those that wait. The parts and their files:
--
--   Rx (src/http_boundary.c, src/rx_stash.c): Rx/Boundary is the search for the end of the header
--     block, `http_find_header_terminator_end`; Rx/Tail is `conn_rx_tail_update_after_feed` and
--     `conn_split_on_header_end`; Rx/Stash is `conn_rx_stash_append` and `conn_rx_stash_consume`;
--     Rx/Pool is the pool of their blocks.
--     Rx/Terminator, Rx/Chunks and Rx/Split hold the proofs.
--   Url (src/url.c): Url has `url_split_path_query` and `url_percent_decode_strict`, Url/Normalize
--     has `url_path_normalize_absolute`. Url/Segments is the specification of normalisation by
--     segments; Url/Steps, Url/Scan, Url/Refine and Url/Paths lead from the loop to it.
--   Range (src/http_range.c): `parse_u64`, `http_range_parse` and `http_range_resolve`.
--   Responses (include/types.h): the kinds of responses.
--   Tx (src/tx.c): the transmit state and all operations on it but `tx_build_headers`.
--   Http (src/http_parser.c, include/conn.h): Http1 is the state of a request; `complete_headers` is
--     `on_headers_complete` from the point where the last header is accounted for. Http/Values and
--     Http/Collect have `on_url`, `on_body`, the buffers for header text and the reading of
--     Content-Length. Http/Tokens has the lists of tokens in Transfer-Encoding and Expect, Http/Ids
--     the table of src/http_headers.c, and Http/Fields the callbacks for names and values of headers,
--     the whole of `on_headers_complete`, the capture of headers and the limit on their number
--     (src/http1_limits.c). Http/Gather and Http/Events have the proofs on these callbacks, and
--     Http/Target and Http/Served say what a request has that gets through.
--   Pipeline (src/http_pipeline.c): classification of a request, the plans, and the feed, which
--     calls on Http's state and takes the request parser, llhttp, as an argument.
--   Store (src/conn_store.c): the table of connections; Store/Represent says which map a table holds,
--     and Store/Lookup, Store/Put and Store/Delete compare the operations with it.
--   Accept (src/accept_controller.c, include/ring_ops.h): the flags of the accept controller and the
--     staging of requests; Accept/Handlers has the completions, Accept/Listeners the set-up.
--     Accept/Moves is the controller as a step relation, with its invariant.
--   Deadline (src/conn_deadline.c, src/timing_wheel.c): the state of a connection as far as its
--     timeout depends on it, and the deadline that follows from it.
--   Wheel (src/timing_wheel.c, src/conn_deadline.c): the buckets of the timing wheel as connections
--     linked in both directions, and the operations that move a connection between them. Wheel/Chain
--     says which list a bucket holds, Wheel/Linked says so of all of them, Wheel/Relink, Wheel/Apart
--     and Wheel/Unlink are the steps to Wheel/Removal and Wheel/Insertion.
--   Auth (src/auth.c): the check of a request's credentials and the 401 response; Auth/Base64 is
--     `auth_base64_decode`, Auth/Compare `auth_ct_strcmp` and Auth/Load `auth_store_load`. Auth/Encode
--     has the encoding of RFC 4648; Auth/Verify, Auth/Access and Auth/Present say who gets in,
--     Auth/Loaded and Auth/Written what is loaded, and Auth/Deny what the response holds.
--   Compression (src/compression.c): `compress_parse_accept_encoding`; Compression/Compressors has the
--     MIME types and the compressors, with zlib and Brotli as arguments. Compression/Negotiate and
--     Compression/Accepted say what a header that lists codings means.
--   Lifecycle (src/conn_lifecycle.c): the set of active descriptors. Lifecycle/Active says when it is
--     right, Lifecycle/Leaving and Lifecycle/Removed are about taking a descriptor out.
--     Lifecycle/Reset has `conn_reset_request` and the request state that `conn_init` sets up.
--   Prelude: shared names, Boolean tests on numbers, and lists over the native numbers.
--   Tests: each theorem at a concrete input.
--
-- Conventions. A byte is a number, a buffer with its length is a list of bytes, NULL and the
-- descriptor -1 are `none`, flags are Booleans. Arithmetic that can wrap around in the source is
-- written with its modulus. An allocation that can fail is a Boolean argument. NULL arguments that
-- no caller passes are left out.
--
-- Fuel. The loop of the normaliser has as much fuel as the path has bytes after its first, plus
-- one; every round takes a byte, and that this is enough is part of its theorem. The loops over
-- tokens have as many rounds as the text has bytes. The loop that doubles a capacity has 64
-- rounds, after which a size_t has wrapped around. A search of the connection table has as many
-- rounds as the table has slots, and that these are enough is part of its theorems. The loops over
-- Accept-Encoding have as many rounds as the text has bytes. The loop over a credential file has
-- one round more than the file has bytes, and each round takes one at least.
--
-- Not modelled: the request parser itself (a library), `tx_build_headers` (formatting), the lookup of
-- the route rule that sets a body limit (an argument here), the tick of the timing wheel, which closes
-- connections, logging, and the parts that are mostly system calls: the worker loop, io_uring
-- submissions, TLS, static files and start-up. Of the life cycle of connections
-- the free list and closing are left out, and so is configuration.
mod Prelude
mod Tests
pub mod Rx
pub mod Url
pub mod Range
pub mod Responses
pub mod Tx
pub mod Http
pub mod Pipeline
pub mod Store
pub mod Accept
pub mod Deadline
pub mod Wheel
pub mod Auth
pub mod Compression
pub mod Lifecycle
