-- ===== src/Lib.antt =====
-- FastDL Metamod: an HTTP server inside a game server, which sends maps, sounds and other files to players.
--
-- The development models what decides who is served which bytes, and when. One module stands for each part;
-- a module's children hold its proofs, and Tests its checks at concrete inputs.
--
--   Prelude       Boolean tests, lists, machine words, texts as lists of bytes, digits, integers.
--   RateLimiter   src/rate_limiter.h and .cpp. The map of clients is an association list (Clients); the
--                 functions keep their names (`requestExceeded` is `request_exceeded`), and each takes the
--                 time that it reads from the clock, in nanoseconds. The mutex makes every call one step,
--                 so a history is a list of calls (`Call`, `step`, `run`).
--   Bandwidth     src/bandwidth_limiter.h and .cpp. Clients that leases share are cells of a heap, and the
--                 validity of a weak pointer is a parameter. A loop of compare-exchange is its successful
--                 exchange; a wait is its deadline, whether it was cancelled, and whether the limiter was
--                 stopped meanwhile.
--   Config        src/config_parser.cpp, and `writeDefaultConfig` and `loadConfigFile` of
--                 src/meta_plugin.cpp. A file is the list of its lines; the errors of opening and writing
--                 it are not modelled.
--   Http          The functions of src/fastdl_server.cpp on header texts: ranges (Range) and the others
--                 (Text).
--   Resolver      src/path_resolver.h and .cpp. A path is the list of its components, and the file system
--                 is the record `FileSystem` of what the standard library answers about it. The argument
--                 `windows` says whether names are compared without case.
--   Metrics       src/transfer_metrics.h and .cpp. Each atomic operation is one step. The quotient that
--                 `snapshot` takes in floating point is left as its two numbers.
--   Server        src/fastdl_server.h and .cpp: `respondText` and `respondRangeError` (Responses),
--                 `serveFile` (Files), `dispatch`, `handleRequest` and `requestCompleted` (Dispatch), and
--                 the body's callback `fileReader` (Reader); Requests has all the calls for one request.
--                 libmicrohttpd, the files, the HTTP dates, the cache of compressed files and the readings
--                 of the clock are fields of `Environment`. A request passes through RateLimiter, then
--                 Resolver, then Http and Bandwidth, and Metrics counts it. Exceptions and null arguments
--                 of the callbacks are not modelled.
--   SecureFile    src/secure_file.h and .cpp: what is inspected and read through a descriptor, on POSIX and on
--                 Windows, from the answers of the system calls. Server and Cache take it as a parameter.
--   Logger        src/logger.h and .cpp. Each section under the mutex is a step: `write`, the two parts of a round
--                 of the thread's loop (`take_batch`, `flush_batch`) and `stop`; `Event`, `step` and `run` are
--                 their histories. The stream's failures, the local time and `mktime` are parameters.
--   Cache         src/compression_cache.h and .cpp: keys, markers, `lookup` and the queue (Cache), the thread
--                 and `start` and `stop` (Worker), the loops of `compress` that make the gzip file (Compress)
--                 and its renames (Publish), `maintainCache` (Maintain). The directory is a list of files;
--                 which calls on it succeed (`Access`, `Attempt`), the served files (`Content`) and miniz
--                 (`Miniz`, with its documented behaviour in `Codec`) are parameters.
--   Service       `start` and `stop` of src/fastdl_server.cpp, which start and stop Cache, Logger, Bandwidth and
--                 Metrics, with the answers of the system in `Host`. A thread that is stopped has ended: what it
--                 still does before the join is a history of Logger or Cache.
--   Plugin        src/meta_plugin.cpp: `readConfig`, the public URL, and when the server starts and stops. A
--                 `float` of the engine is not finite, negative, or a whole part and a fraction in units of 2^-149.
--                 Whether the server's `start` succeeds is a parameter there; Service/Whole has the plugin together
--                 with the server, and Service/Refinement that the two agree.
--
-- Numbers are native; a machine word has its wrap-around written out, with 32 bits for `std::size_t`, since
-- the plugin is a 32-bit library. All loops are structural recursions. The digits of a number are on
-- fuel, which is the number of digits of the largest 64-bit word in that base (20 and 16).
--
-- The loops of `compress` are on fuel: the size of the file for the loop over it, since each read gives a byte at
-- least, and for those over the compressor's output the bound `work` that miniz has on its calls. That this is
-- enough is a result below.
--
-- Not modelled: the walk of `scanAndBuild` over the served directories, the
-- console commands and messages of src/meta_plugin.cpp and its exports to the
-- engine, the log line and HTTP dates of the server, exceptions, and the copies of libmicrohttpd and miniz
-- under vendor/.
pub mod Prelude
pub mod RateLimiter
pub mod Bandwidth
pub mod Config
pub mod Http
pub mod Resolver
pub mod Metrics
pub mod SecureFile
pub mod Cache
pub mod Logger
pub mod Server
pub mod Service
pub mod Plugin
