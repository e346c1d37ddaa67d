-- ===== src/Lib.antt =====
-- Verification library of geocode-csv, a command line tool that geocodes the addresses in a CSV file.
--
-- The program reads a CSV file, takes one address per row for each prefix of a column spec, geocodes
-- the addresses in chunks, and writes the rows with the geocoded columns appended. A geocoder is a
-- trait object, and geocoders wrap each other: a cache, a filter of invalid addresses, a normalizer
-- and a pair, over the web service Smarty or the library libpostal. Paths are from the root of
-- the repository.
--
-- Base: what all parts share. Text is Rust's String as a list of code points (Base/Text), Dict a
-- HashMap as an association list (Base/Dict), Outcome the result of a call: a value, an Err or
-- a panic (Base/Outcome). M is effectful code over an unknown world W, what is done before an error
-- stays done (Base/Effect), and Safe its contract (Base/Effect/Safe).
-- UnpackVec: src/unpack_vec.rs, unpack_vec and its loop.
-- Addresses: src/addresses.rs. Address is the struct Address, Columns the keys of its columns and
-- extract_address_from_record, Spec is AddressColumnSpec with its prefixes and duplicate_columns,
-- Indices is the trait ConvertToIndices and convert_to_indices_using_headers.
-- Geocoders: src/geocoders/mod.rs, the trait Geocoder as a record, and Implements, what a client of
-- the trait relies on. Under it MatchStrategy, Skipper (src/geocoders/invalid_record_skipper.rs),
-- Paired (src/geocoders/paired.rs), LibPostal (src/geocoders/libpostal.rs), Normalizer
-- (src/geocoders/normalizer.rs), Cache (src/geocoders/cache/mod.rs and compression.rs), CachePrefix
-- (the trait's cache_prefix) and Smarty (src/geocoders/smarty/mod.rs, client.rs, structure.rs and
-- structures/complete.json).
-- Cache/Hits is a call whose results are all stored, Cache/Slots a call with hits and misses, and
-- Cache/Slots/Repeats the same call made again.
-- KeyValueStores: src/key_value_stores/mod.rs, the trait as a record, and Stores, what the cache
-- relies on. Contents is what a store holds. Redis is src/key_value_stores/redis.rs, BigTable is src/key_value_stores/bigtable.rs,
-- and Open is new_from_url, which chooses one.
-- Pipeline: src/pipeline.rs. Read is read_csv_from_stdin, Geocode is geocode_chunk, Retry its loop of
-- retries, Write is write_csv_to_stdout, geocode_message and the loop that forwards messages.
-- Rectangular joins reading and geocoding. Stdio is geocode_stdio, which runs all of them,
-- and Background its threads (src/async_util.rs).
-- ChunkCount is the counter of existing chunks, over interleaved steps. Threads is geocode_stdio
-- again, as the interleaved steps of its three concurrent parts with the bounded channels between
-- them: Progress is its termination, Bounded what the parts hold, Order (and Order/Steps) the order
-- of messages, Written what is written, Panics and Geocoded what geocoding may come to, and Finishes
-- the result of a run. Turns and Sequential relate it to Stdio.
-- Server: src/server.rs, the handler of POST /geocode; Run is run_server, over axum, whose binding to
-- an address may panic.
-- Metrics: crates/metrics-exporter-newrelic/src. Summary is the summary of a histogram, NewRelic the
-- report and its client, Opinionated is crates/opinionated_metrics/src/lib.rs.
-- LibpostalRust: crates/libpostal-rust/src/lib.rs. Init is init.rs and probe.rs, Setup that each part
-- of the library is set up once.
-- MemoryUsed: src/memory_used.rs, the sizes of data structures.
-- CommandLine: src/main.rs, the stack of geocoders, the rate limiter and the parsing of labels; Main
-- is main, which joins all parts.
-- Tests: the theorems at concrete inputs, and runs.
--
-- Bounds. Only slice::chunks has fuel: the length of the slice, which is enough since a chunk takes an
-- element. The wait between retries doubles in a u64 of seconds, so theorems about the retries
-- allow 62 of them; with more the program overflows, and it would have slept for longer than
-- 10 ^ 11 years. Other sizes are far from the width of usize and are natural numbers.
--
-- Parameters. The CSV library gives outcomes of records and writes records. The C library libpostal
-- with the file system, the clients of Redis, BigTable and NewRelic, bincode, serde_json, axum, the
-- HTTP client, the rate limiter and the sending half of a channel are arguments, with what is relied on
-- as hypotheses.
--
-- Two models of geocode_stdio. Stdio runs the reader, the loop and the writer one after the other,
-- with the list of messages for a channel; main and its theorems use it. Threads takes the channels'
-- capacities, backpressure, the order in which futures finish, and early returns into account, and
-- lets each geocoding start in any world that keeps the geocoder's invariant, since concurrent calls
-- may change the world between them. A writer may fail at any message.
--
-- Not modelled: the inside of tokio, futures, axum and clap, the bindings of libpostal, logging and
-- the recording of metrics, debug assertions.
pub mod Base
pub mod UnpackVec
pub mod Addresses
pub mod Geocoders
pub mod KeyValueStores
pub mod Pipeline
pub mod MemoryUsed
pub mod Server
pub mod Metrics
pub mod LibpostalRust
pub mod CommandLine
pub mod Tests
