-- ===== src/Lib.antt =====
-- pyrsedis is a Redis client in Rust for Python. This library models the core of it and proves what
-- makes it correct.
--
-- The program's parts. A command is encoded as an array of bulk strings (src/resp/writer.rs) and
-- sent over a pooled connection (src/connection); what comes back is parsed as RESP
-- (src/resp/parser.rs), either into values (src/resp/types.rs) or into Python objects
-- (src/response.rs). Redis errors are sorted into kinds (src/error.rs), on which the routers
-- (src/router) redirect and retry.
--
-- The files.
--   Prelude: Boolean tests on numbers, byte strings and their lemmas, machine integers.
--   Text: the functions of the standard library on strings that the sources call; is_utf8, digits,
--     white space.
--   Error: src/error.rs. RedisErrorKind, from_error_msg, PyrsedisError and the exception classes.
--     Formatted messages are the data type Message.
--   Outcome: Result of src/error.rs, with a panic and a lack of fuel as further cases;
--     Outcome/Rules has the predicates on outcomes that proofs are made of.
--   External: the crates memchr and itoa, the float parser and printer of the standard library and
--     its replacement of text that is no UTF-8, as a record of functions and the laws that they
--     promise. External/Sample is an instance for the tests.
--   Resp/Types: src/resp/types.rs. A vector of values is Values and one of pairs is Pairs, mutual
--     with RespValue. A float is its 64 bits.
--   Resp/Line: find_crlf, read_line and parse_int_from_bytes of src/resp/parser.rs.
--   Resp/Parser: parse and the parser of each type, of the same file. A recursive call is an
--     argument of each function; parse_within ties the knot on fuel.
--   Resp/Frame: resp_frame_len of the same file.
--   Resp/Writer: src/resp/writer.rs.
--   Resp/Grammar: the wire format as an inductive relation, the specification of the parser.
--
--   Crc16: src/crc16.rs. Crc16/Xor has the laws of exclusive or, Crc16/Checksum the checksum
--     against division bit by bit, Crc16/Slots the hash tag.
--   Response: src/response.rs. Response/Fused is parse_to_python, with its integers in
--     Response/Integer; Response/Convert has resp_to_python and the accessors; Response/Python is
--     what the crate pyo3 offers, a record of operations. Response/Agreement compares one pass with
--     two, Response/Bounds has its end.
--   Connection: src/connection/tcp.rs, read_response and read_raw_response. What the socket yields
--     is a list of events; Connection/Buffer is the crate bytes as a record of operations and laws.
--   Connection/Stream, Connection/Chunks, Connection/Frames, Connection/Stalls: that loop on a
--     stream in chunks, in Connection/Stalls where its timer ends.
--   Connection/Replies: the loops over the replies of pipeline and pipeline_raw in
--     src/router/standalone.rs.
--   Connection/Session: auth, select_db, ping, hello3 and init of src/connection/tcp.rs, over what
--     executing a command comes to; Connection/Session/Script is a server that answers from a list,
--     on which Connection/Session/Init shows what init sends.
--   Connection/Pool: src/connection/pool.rs, with the tasks' steps in any order in Pool/Bounded.
--   Standalone: src/router/standalone.rs, its calls from the pool to the reply; Standalone/Permits
--     has what they leave of the pool.
--   Cluster: src/router/cluster.rs. The slot map with its binary search (Cluster/Lookup) and its
--     building from the reply to CLUSTER SLOTS (Cluster/Slots, Cluster/Sorted), the key of a
--     command and the node that it is routed to (Cluster/Keys), execute_on (Cluster/Redirects) and
--     pipeline (Cluster/Pipeline) over nodes that are a parameter.
--   Sentinel: src/router/sentinel.rs, resolve_master, failover and execute_with_retry over a
--     network that is a parameter; Sentinel/Retries has what is returned, Sentinel/Sends how often
--     is sent, Sentinel/Pipeline the pipeline.
--   Graph: src/graph.rs. Graph/Cells has the values and how a cell becomes one, Graph/Format the
--     compact format as a relation, Graph/Results whole results.
--   Client: src/client.rs. A call of a method is a case of the data type Command, with one file for
--     each group of methods (Client/Basic to Client/Servers) and on_any for execute_command;
--     Client/Args has how the arguments are built, Client/Calls the methods of Redis,
--     Client/Pipeline the class Pipeline, Client/Texts and Client/Answers the way from the bytes of
--     a reply to the object.
--   Config: src/config.rs, from_url on every scheme, with its addresses in Config/Address and the
--     full standalone URL in Config/Standalone.
--
-- Integers. An i64 is an integer with its range checked where the sources check it, and wrapped
-- where they do not (neg_i64): the model follows the release profile. Lengths are natural numbers:
-- no sum of the sources passes 2^64, as each is of a length below 2^63 and an index into a buffer.
--
-- Fuel. parse and resp_frame_len recur on parts of the buffer. Their fuel is one more than its
-- length, since each value inside another is shorter than it. parse_to_python takes 514, two more
-- than the depth that it allows.
--
-- Not modelled. The sockets, the clock and the async runtime (src/runtime.rs): what they give is an
-- argument of the functions that use it. The pools of the nodes of src/router/cluster.rs, and the
-- construction of the routers of src/router/sentinel.rs and src/router/cluster.rs. The texts of
-- errors and of __repr__. The registration of classes with Python (src/lib.rs), the conversion of
-- arguments from Python, and Python's errors for want of memory.
mod Prelude
pub mod Text
pub mod Error
pub mod Graph
pub mod Outcome
pub mod External
pub mod Client
pub mod Cluster
pub mod Config
pub mod Connection
pub mod Crc16
pub mod Resp
pub mod Response
pub mod Sentinel
pub mod Standalone
