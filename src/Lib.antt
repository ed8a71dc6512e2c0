-- ===== src/Lib.antt =====
-- xprobe measures the latency between two kinds of events of a process: host functions, syscalls,
-- tracepoints, Python garbage collections, and the CUDA calls, kernels, copies and NVTX ranges that
-- CUPTI reports. Captured events (xprobe/protocol) are written as a trace (xprobe/exporter/src/lib.rs)
-- or given to the correlator (xprobe/correlator/src/lib.rs): `measure` parses two selectors, takes the
-- events that each matches, checks clocks and limits, pairs starts with ends by one of five policies,
-- and summarises the latencies. Before a capture the target is inspected (xprobe/core/src/inspect.rs),
-- probes are resolved in it (resolve.rs, usdt.rs), and the validation (validate.rs) turns the two
-- selectors into endpoints, checks what they need of the target and the machine, and recommends a
-- policy; the command line (xprobe/cli/src/main.rs) proposes selectors from an aggregate inventory. Two
-- other inventories are made in xprobe/core/src: sampled stacks (cpu_sampling.rs and
-- cpu_sampling_analysis.rs) and system calls (syscall_aggregate.rs), both with selectors to measure.
--
-- Files:
--   Prelude       Boolean tests, lists and predicates on lists over native numbers.
--   Rust          what the code uses of the language: stable sort, ordered maps (`BTreeMap` as a list
--                 of entries in the order of the keys), texts as their bytes, machine words, `Result`.
--   Protocol      the types of xprobe/protocol/src: Event, Measurement, Errors, Validate (validate.rs
--                 and resolve.rs), Process (process.rs and capability.rs), CpuSampling,
--                 SyscallAggregate.
--   Correlator    xprobe/correlator/src/lib.rs. Errors: `MeasureError`. Selector and Regex: the
--                 selectors and their parsers. Policy: `matches`, `validate_policy`. Pairs: `Pair`,
--                 `Outcome`, `CorrelationKey`. One module per matching function, with its proofs below
--                 it: FirstAfter, Nearest, StackNested, StreamOrder, Exact, and Lifecycle (the loop
--                 that `correlate_thread_lifecycle` and `correlate_nvtx_lifecycle` share, over the key
--                 of an event). Timeline: the order in which starts and ends are visited. Statistics:
--                 `statistics` and the timestamp errors. Checks: the options, the clocks and the window.
--                 Measure: `measure`, in the parts `prepare` (up to the window) and `correlate`.
--   Core          xprobe/core/src. Inspect: `run`, `verify_target` and the parsers of /proc. Resolve:
--                 `run`, in the parts `mapped_regions`, `locate` and `place`. Usdt: the notes of probes.
--                 CuptiCompat: the CUDA major and its library. Validate: `run`, in the parts
--                 `resolve_endpoint` and `validation_of`, with the checks in Validate/Checks. Policy: the
--                 endpoints, `check_policy` and `recommend_policy`, compared with the policies of the
--                 correlator. Selectors: the parsers of CUDA selectors, compared with those of the
--                 correlator; its copies of `is_bounded_name_regex` and `regex_literal` share the
--                 model of Correlator/Regex. CpuSampling: cpu_sampling.rs. CpuAnalysis:
--                 cpu_sampling_analysis.rs, one module per step. SyscallAggregate and SyscallNumbers:
--                 the inventory of system calls, and the two tables of their names. Object and Report:
--                 functions that several of these files declare alike.
--   Exporter      xprobe/exporter/src/lib.rs: the fields of a Chrome trace event.
--   Cli           Hints: `escape_selector_regex` and `aggregate_selector_hints`.
--
-- How the code is rendered:
--   * A slice or a `Vec` is a list, and an index that moves through one is the list that is left.
--   * A `str` is the list of its UTF-8 bytes: the code only ever tests for ASCII characters.
--   * A number is a natural number. Where the code subtracts u64 values, the difference wraps as in a
--     release build, and so does the product in the rank of a percentile; 99 times the number of events
--     is below 2^64 for every slice, which is below 2^63 bytes long with more than 64 for an event.
--     Counters are not reduced: they count elements of slices.
--   * A panic (an index out of range, a failed `expect`) is `none`; loops are structural recursion on
--     the list they visit. The loop over the notes of Usdt runs on fuel, a note per 12 bytes and two
--     more, which is enough because each note starts with a header of 12 bytes; numbers are written
--     with as many digits at most as a u64 value has (Rust/Fmt).
--   * Reads of /proc are calls of a file system (`FileSystem`); where a function reads several times it
--     is given one file system for each moment (`Moments`), as the target runs on in between.
--   * A path is its text, and paths are compared by their components.
--   * Where the code reads bytes as text and takes what is not UTF-8 for U+FFFD, so does the model
--     (Rust/Lines/Lossy); the paths of a report and of a memory map are UTF-8 already.
--   * The message of an error is a reason without its text, so `Display` is left out.
--   * Parameters: the regex crate (`regex_new`, `is_match`, and the type of its expressions), the
--     object and cpp_demangle crates (`parse_object`, `demangle`), JSON values of serde_json (their
--     type, and `as_str`), floating point (`Float`: conversion of an integer, and division), the file
--     system, the run of ldconfig, and the result of the doctor.
--
-- Not modelled: the collectors, the kernel programs and the CUPTI agent, the doctor, the discovery of
-- processes and the injection, the writing of JSON, and the parts of the command line that run
-- processes or print: most of these read the system or drive third-party libraries.

pub mod Prelude
pub mod Rust
pub mod Protocol
pub mod Correlator
pub mod Cli
pub mod Core
pub mod Exporter
