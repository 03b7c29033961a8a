-- ===== src/Lib.antt =====
-- RateThrottle: a fixed-window rate limiter behind an LRU cache, and the tools around it.
--
-- The limiter (include/ThrottlePro/RateLimiter.h, src/ThrottlePro/RateLimiter.cpp) keeps, for each key
-- of its cache, the time at which the key's window began and the number of requests in it. `allow`
-- answers under a mutex whether a request may pass. Limiter models the class: `RateLimiter` is its
-- state, `construct` its constructor, `allow` the method, `decide` its branches behind the lookup,
-- `count_up` the counter's increment on a size_t, `open_window` the write of a fresh window. Times are
-- signed nanoseconds and durations signed milliseconds; the 64-bit range of the clock is not modelled.
-- The cache is not part of the repository: LruCache is its interface, with the documented behaviour of
-- an LRU cache as laws, and LruCache/ListCache a list that fulfils them. Limiter/Window is the
-- automaton of one key, which knows neither the cache nor the other keys, and the specification that
-- the others refer to; it has its own test of when a window is over. Limiter/Threads is a step relation
-- of any number of threads inside `allow`: a thread takes the mutex, looks the key up, decides, and
-- releases it; Threads/Serial is about the answers and Threads/Liveness about the progress of the calls.
-- Limiter/Recovery is about keys that were refused.
--
-- The fuzz target (fuzz/fuzz_rate_limiter.cpp) runs two limiters over a list of bytes and compares one
-- of them with a map: Fuzz models LLVMFuzzerTestOneInput as `fuzz_one_input`, its loop as `fuzz_loop`,
-- a turn as `steady_call` or `overflow_call`, and shadowAllow as `shadow_allow`; std::abort, a thrown
-- exception and the returned number are its outcomes. It uses the limiter's `construct` and `allow`.
--
-- The regression tool (regression/custom) compares benchmark snapshots. Regression/Results models the
-- results, their lookup and the filters (getCns, uniqueOperations, filterByOperation,
-- applyMethodFilter); Regression/Groups groupMethodsByLetter; Regression/MethodIds the ids of methods
-- and their resolution; Regression/Versions and Versions/Newest the version tags and latestBaseline;
-- Regression/Table displayWidth, padCell and truncateCell; Regression/Report the table, its rows
-- (Report/Rows) and its summary (Report/Summary); Regression/Cli main of regression_main.cpp and
-- export.h; Regression/Listing printMethods and printList, and Listing/Usage printUsage. The tool's
-- globals are the fields of `Tool`; what is printed is a list of pieces, escape sequences and texts. A
-- std::string is its bytes. Doubles are an interface without laws
-- (Regression/Double). The entries of the baselines' directory and the reading of a snapshot are
-- parameters of the model. The fuel of `clip` is the length of the text, and each round takes a byte.
--
-- The test tool (tests/custom): TestTool models its counters and the macros CHK, CHK_THROWS and RUN
-- (support/macros.h), the registry (support/registry.h) and the dispatch of test_main.cpp. A suite is
-- given by the checks that its tests make.
--
-- The benchmark tool (benchmarks/custom): Bench models its globals and the table that its rows open,
-- switch and close (ensureTable, closeTable), with each printed line marked by its place in the table;
-- Bench/Rows the rows, the macros BENCH to BENCH_SOLO_CUSTOM with the clock's readings as arguments,
-- and printOneSuite; Bench/Runs the summary, the exported files and main of bench_main.cpp.
--
-- The google regression tool (regression/google) does the same over snapshots of Google Benchmark:
-- Google models its results, baseName, the filters by name and latestBaseline, Google/Ids the ids,
-- Google/Table and Google/Summary the table and the summary, Google/Cli main and export.h, and
-- Google/Listing what it lists. Google/Common names the functions whose text is the same in both tools;
-- they are defined as the custom tool's.
--
-- The example tool (examples): Examples models the registrar of support/registry.h and, as the other
-- tools' functions, the helpers; Examples/Printing what support/framework.h prints; Examples/Mains main
-- of example_main.cpp, and Examples/Suites the examples of examples/suite over the cache that is a
-- parameter. The tool is given an example by what it prints; the time that a run takes and the clock's
-- readings are arguments.
--
-- Prelude, Assoc and Text hold what these share: integers, lists, association lists, byte strings and
-- numbers in decimal. Counters that are ints in the source are numbers without a bound.
--
-- Not modelled: loadResults of both regression tools, which reads a file with a JSON library; the
-- printed boxes and lists of the test and the benchmark tool; the test and benchmark suites, which are
-- clients of the limiter; packaging, scripts and the build.
pub mod Prelude
pub mod Assoc
pub mod LruCache
pub mod Limiter
pub mod Text
pub mod Regression
pub mod TestTool
pub mod Examples
pub mod Fuzz
pub mod Google
pub mod Bench
