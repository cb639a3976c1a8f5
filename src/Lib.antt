-- ===== src/Lib.antt =====
-- A verification library for the reverse proxy of this repository (src/*.rs).
--
-- The program accepts HTTP connections, parses a request, and hands it to a pipeline of modules sorted by
-- priority. A module may answer the request itself (cache, limiter, breaker, health endpoint), change it or note
-- something in the request's context (request id, load balancer, rewriter, compression), or fetch the answer from a backend
-- (proxy core, by way of the connection pool). The response then passes the modules that saw the request in the
-- reverse order. Modules can also be scripts of a small language. A configuration in TOML says what is loaded.
--
-- Which file models which part (a folder with the file's name holds what is proved of it):
--   Http/Headers, Http/Request, Http/Response - src/http/request.rs, src/http/response.rs, get_hdr of src/http/mod.rs
--   Http/Scan - find_hdr_end, raw_hdr and find_zero_chunk of src/http/mod.rs
--   Http/Reader - read_http_message of src/http/mod.rs: one event for each read of the stream
--   Context - src/context.rs; a value of any type is a text with the name of its type
--   Metrics - src/metrics.rs: one record of counters, each of 64 bits; Metrics/Printing - its two printers
--   Modules/Pipeline - src/modules/mod.rs: Pipeline::add_with_priority, override_module, sort, handle
--   Modules/CircuitBreaker - src/modules/circuit_breaker.rs: `step` is one access of handle or on_response to an
--     atomic or the lock; `handle` and `on_response` run the accesses of one call; CircuitBreaker/Threads
--     interleaves those of several calls by a schedule
--   Modules/Cache, Modules/RateLimiter, Modules/LoadBalancer, Modules/UrlRewriter, Modules/Compression,
--     Modules/RequestId, Modules/ActiveHealth, Modules/ProxyCore - the files of src/modules of these names
--   Modules/HealthCheck - src/modules/health_check.rs and src/modules/metrics_exporter.rs
--   Modules/AdminApi - handle of src/modules/admin_api.rs behind its reading loop, extract_header, constant_time_eq, respond;
--     AdminApi/Reading - that loop, with 65,536 rounds of fuel, since each one reads a byte;
--     AdminApi/Printing - the bodies of its answers; AdminApi/Repair - config_verify and config_repair
--   Modules/Instances - the impl Module blocks of src/modules over one state, `Statics`, with the counters in front of it
--   Modules/Register - register of each module and register_all of src/modules/mod.rs; Modules/Defaults - default_config of
--     each module and collect_defaults
--   Modules/Helpers - the readers of settings of src/modules/helpers.rs
--   Pool - src/pool.rs: the map of idle connections behind its lock
--   Script/Syntax, Script/Blocks, Script/Parser - src/script/parser.rs; Script/Runtime - src/script/runtime.rs and
--     ScriptModule of src/script/loader.rs
--   Script/Loader - load_script_modules of src/script/loader.rs over the entries of the folder, resolve_config of src/script/parser.rs;
--     Loader/Defaults - to_toml, default_config_table, collect_script_defaults; Loader/Listing - list_loaded_mods
--   Script/Stdlib - src/script/stdlib.rs: Limiting, Caching, Breaking, Messages and Balancing hold its functions, Calls what
--     call_request and call_response dispatch to, Starting what call_init does, Administering admin_handle
--   Server/Http1 - handle_h1 and reject_overloaded of src/server.rs: the pipeline's state holds the counters
--   Server/Workers - ThreadPool, ConnGuard, the acceptor of Server::run_plain and ThreadPool::shutdown of src/server.rs:
--     `Step` is one access of the listener, a worker or the shutdown to what they share; `Reach` is any sequence of these
--   Server/Streams - handle_stream of src/h2_handler.rs and handle_request of src/h3_handler.rs
--   Config - Srv::validate of src/config.rs; Config/Loading - load_config and generate_config
--   Log - src/log.rs: the level and the time stamp; Log/Lines - the lines that are printed, src/colors.rs
--   Start - main of src/main.rs up to the run of the server
--   Base, Strings, Sync, Toml - what these files share: maps as association lists, texts as lists of code points with
--     the functions of the standard library that the source calls, a lock that can be poisoned, values of TOML
--   Tests - concrete runs
--
-- How the code is carried over. A method that changes its object returns the new object. The clock does not move
-- during a call; times are natural numbers of nanoseconds. A lock is its content and whether a panic poisoned it. A thread that
-- sleeps and works in turns is modelled by one turn. Atomic counters wrap around at 2^64. A hash map is an
-- association list; where the source goes through a map in no fixed order the model takes the order of the list.
-- The calls of the log are left out of the code that makes them, and so is what a write to the client brings, which the source ignores. A handler that panics ends
-- as one that returns.
--
-- Bounds and fuel. `read_loop` counts the 500 reads that the source allows. `parse_block` and `parse_loop` run on the number
-- of lines plus one, `chunk_loop` on the number of bytes plus one, since each round takes at least one (Http/Scan/Chunks). The loop of
-- `record_latency` runs on the list of the values that its failed exchanges saw. `year_loop` has a 365th of the days plus one as fuel, which
-- Log/Dates shows to be enough. All else is recursion on the data.
--
-- Parameters, since their code is not in the repository: `Float` (f64, with the laws of IEEE 754 that are used as
-- `FloatLaws`), `Toml` (the crate toml), the gzip encoder, `Host` (which addresses parse, which files exist), `Network`
-- (sockets). `Format` (what the crate toml makes of a configuration). `StdLib` is the interface of the functions that scripts call;
-- Script/Stdlib/Calls is an instance of it. `Init` is that of the calls in on_init; Script/Stdlib/Starting is an instance, which Start
-- uses. In Modules/Instances the record `Host` gathers the parameters of all modules. `Builder` is what the constructors of the crate toml
-- give back to its readers.
--
-- Not modelled: of src/server.rs the sockets, TLS, the acceptor of run_tls, the start of the listeners, the wait of run
-- for the last connections and the signal handlers; the acceptors of src/h2_handler.rs and src/h3_handler.rs (glue to
-- other crates); the acceptor of src/modules/admin_api.rs; the copying of src/modules/raw_tcp.rs and
-- src/modules/helpers.rs; the path and the writing of the configuration file; build.rs, which
-- generates src/modules/mod.rs; and the Go program in cli.
pub mod Base
pub mod Strings
pub mod Sync
pub mod Http
pub mod Context
pub mod Metrics
pub mod Modules
pub mod Pool
pub mod Toml
pub mod Script
pub mod Server
pub mod Config
pub mod Log
pub mod Start
pub mod Tests
