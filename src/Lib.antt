-- ===== src/Lib.antt =====
-- socks-hub is a proxy server: it takes HTTP proxy requests, or SOCKS5 connections, and forwards
-- them to a SOCKS5 server, or directly to the target where an access control list (ACL) says so.
--
-- A host program configures it (src/config.rs) and starts and stops it (src/api.rs); one of the two
-- servers (src/http2socks.rs, src/socks2socks.rs) reads its ACL file once (src/acl/mod.rs, with
-- the tree of src/acl/sub_domains_tree.rs), accepts connections, authenticates each client by the
-- configured credentials (with src/base64_wrapper.rs for HTTP), asks the ACL whether the target
-- must be proxied, and connects to the target or, by src/lib.rs, to the SOCKS5 server.
--
-- Files, and the code they model:
--   Prelude, Text, Io, Net: shared notation and lemmas; the operations of the standard library on
--     `str`, `io::Result` and addresses that the code calls. A text is its list of code points.
--   Acl/SubDomainsTree: src/acl/sub_domains_tree.rs. `insert` and `contains` are its methods, with
--     their loops as recursion on the labels; Coverage, Subdomain and Shape hold the proofs.
--   Acl/Externals: the crates ipnet, iprange, regex and idna as the fields of a record.
--   Acl/Rules, Acl/ParsingRules: `Rules` and `ParsingRules` of src/acl/mod.rs.
--   Acl/AccessControl: `load_from_file`, a line at a time, and in Checks the methods that ask;
--     Loading, Lines, Retention, Addresses and Verdicts hold the proofs.
--   Acl/Contents: the lines of an ACL file from its bytes; Stored has a whole file from its rules to
--     its bytes and back.
--   Acl/Reading: what an ACL file says, described without the states of the loader: each line is
--     read by itself, and a rule belongs to the section line above it. RuleSets forgets the order of
--     a section's rules by a quotient, and Orders compares files so; Writing writes a file from its
--     rules.
--   Acl/Center: the static `ACL_CENTER` of each server module and the lines that compute
--     `must_proxied`, which src/http2socks.rs has twice and src/socks2socks.rs once.
--   Effects: an asynchronous function is the list of the actions that it takes and its result;
--     Sessions are types for the order of these actions.
--   Network: src/lib.rs, over a record of what sockets, resolver and SOCKS client answer.
--   Base64, Credentials, Config: src/base64_wrapper.rs and src/config.rs; Config/Arguments is its
--     command line, over clap as a parameter.
--   Http2Socks: `proxy`, `tunnel` and what they call in src/http2socks.rs; World is the HTTP library.
--     Proxy/Session is the type of the order of the actions.
--   Listener: the accept loop of both servers.
--   Socks2Socks: `handle` (Handle; its Session is a type for the order of the actions), UDP
--     associations (Udp, with the buffers of its sockets in Udp/Datagrams) and the choice of the
--     authentication (Server) of src/socks2socks.rs; Client is the server side of socks5-impl.
--   Service: `main_entry` of src/lib.rs and of the two servers, from binding to the accept loop. Tasks
--     is what the started tasks do, and composes the parts to the run of a server; Schedules are the
--     orders in which tasks that run at the same time can act. Runs says what such a run may do, and
--     Serving which tasks it has.
--   Api: `api_internal_run` and `api_internal_stop` of src/api.rs, over tokio's channel as a
--     parameter; Running composes the first with the server. Threads has both as the steps of the
--     host's threads, an access of `TUN_QUIT` or of a channel at a time and interleaved in any order.
--   Tokiort: src/tokiort.rs, the streams of tokio and of hyper as each other, over the lengths and
--     the memory of their buffers, and in Timer the timer and the executor.
--   Ffi, Ffi/Program: src/ffi.rs and src/bin/socks-hub.rs.
--   DumpLogger: src/dump_logger.rs. A thread waits for its mutex while another one has it.
--   Tests: the model on concrete inputs.
--
-- The features `acl` and `sockshub` are enabled. Every loop is structural recursion, on the labels
-- of a name, on the lines of a file, or on the list of the events that `tokio::select!` reports, so
-- no fuel is used. An answer of a crate, a socket or the system is a field of a record that the
-- theorems quantify over, so they hold for all answers; within a task each answer is a function of
-- the call's arguments, and each task has its own answers. An access of `TUN_QUIT` is taken as one
-- step, though the code has no lock. Ports and addresses are natural numbers that the code only
-- passes on.
--
-- Not modelled: log lines but for the logger itself, the serde instances, which are derived, tokio's
-- and hyper's tasks and wakers, the bytes that TCP connections carry, and what a panic does to other
-- tasks.
mod Prelude
pub mod Text
pub mod Io
pub mod Net
pub mod Acl
pub mod Effects
pub mod Network
pub mod Base64
pub mod Credentials
pub mod Config
pub mod Http2Socks
pub mod Listener
pub mod Socks2Socks
pub mod Service
pub mod Tokiort
pub mod DumpLogger
pub mod Ffi
pub mod Api
mod Tests
