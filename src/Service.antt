-- ===== src/Service.antt =====
-- src/fastdl_server.cpp: `start` and `stop` of the server, which start and stop its parts.
pub mod Startup
pub mod Whole
pub mod Refinement
pub mod Tests
use fastdl_mm.Bandwidth
use fastdl_mm.Metrics
use fastdl_mm.RateLimiter
use fastdl_mm.Logger
use fastdl_mm.Resolver
use fastdl_mm.Cache.Worker
use fastdl_mm.Cache.Worker.{Places, StartError}
use fastdl_mm.Bandwidth.{Limiter, Mbps}
use fastdl_mm.RateLimiter.{RateLimiter}
use fastdl_mm.Metrics.{Metrics}
use fastdl_mm.Resolver.{FilePath, FileSystem, PathResolver}
use fastdl_mm.Prelude.{
  ℕ, Bool, true, false, not, ◌&&◌, ◌||◌, Option, none, some, [], ◌∷◌, ◌++◌, if◌then◌else◌, is_empty,
  Bytes, codes, bytes_eq,
}

-- The fields of `FastdlConfig` that `start` reads.
pub record ServiceConfig : Type 0 where
  pub enabled : Bool
  pub base_dir : FilePath
  pub root : FilePath
  pub serve_dirs : Bytes
  pub serve_types : Bytes
  pub serve_root_types : Bytes
  pub gzip : Bool
  pub gzip_cache : Bool
  pub gzip_cache_path : FilePath
  pub gzip_cache_max_bytes : ℕ
  pub max_file_bytes : ℕ
  pub log_path : FilePath
  pub log_age_days : ℕ
  pub bandwidth_max : Mbps
  pub bandwidth_ip : Mbps
  pub bind_address : Bytes

-- What the system answers to a start: `normal` is `lexically_normal` and `make_preferred`, `places` what the cache asks
-- of its path and of the content root, `log_made` and `log_probed` whether the log's directory and file can be made,
-- `is_address` is `inet_pton`, `daemon_starts` whether libmicrohttpd starts.
pub record Host : Type 0 where
  pub windows : Bool
  pub fs : FileSystem
  pub normal : FilePath → FilePath
  pub places : FilePath → FilePath → Places
  pub log_made : Bool
  pub log_probed : Bool
  pub bandwidth_now : ℕ
  pub metrics_now : ℕ
  pub is_address : Bytes → Bool
  pub daemon_starts : Bool

-- The server's parts; `daemon` is whether there is one, and `resolver` is none before the first start.
pub record Service : Type 0 where
  pub daemon : Bool
  pub logging : Bool
  pub log_base : FilePath
  pub config : ServiceConfig
  pub resolver : Option PathResolver
  pub limiter : RateLimiter
  pub bandwidth : Limiter
  pub metrics : Metrics
  pub compression : Worker.System
  pub compression_error : Option StartError
  pub logger : Logger.System

abbrev pub is_absolute : FilePath → Bool
is_absolute [] = false
is_absolute (c ∷ p) = bytes_eq c (codes "/")

unfoldable pub resolve_against_base : Host → FilePath → FilePath → FilePath
resolve_against_base host base path =
    host.normal (if is_absolute path || is_empty base then path else base ++ path)

-- `AsyncLogger::stop`, whose join returns once the thread has ended.
unfoldable pub stop_logger : Logger.System → Logger.System
stop_logger s =
    Logger.clear
      (record s { logger = record s.logger { stopping = true }; running = false; hand = none })

-- `CompressionCache::stop`, whose join returns once the thread has ended.
unfoldable pub stop_compression : Worker.System → Worker.System
stop_compression s = Worker.clear (Worker.stop_threads (record s { active = none }))

unfoldable pub stop : Service → Service
stop s = record s {
  bandwidth = Bandwidth.stop s.bandwidth;
  daemon = false;
  compression = stop_compression s.compression;
  logger = stop_logger s.logger;
  logging = false;
  limiter = RateLimiter.clear s.limiter;
}

-- The parts that are stopped where `start` fails after it has started them.
unfoldable pub stop_parts : Service → Service
stop_parts s = record s {
  logger = stop_logger s.logger;
  bandwidth = Bandwidth.stop s.bandwidth;
  compression = stop_compression s.compression;
  logging = false;
}

unfoldable pub start_compression : Host → ServiceConfig → PathResolver → Service → Service
start_compression host config r s =
    let path = resolve_against_base host config.base_dir config.gzip_cache_path in
    let started =
      Worker.start host.windows (host.places path r.root) config.gzip_cache_max_bytes
        config.max_file_bytes s.compression in
    if config.gzip && config.gzip_cache
    then record s { compression = started.0; compression_error = started.1 }
    else record s { compression_error = none }

unfoldable pub start_logger : Host → ServiceConfig → Service → Service
start_logger host config s =
    let base = resolve_against_base host config.base_dir config.log_path in
    let started =
      Logger.start (stop_logger s.logger) base config.log_age_days host.log_made host.log_probed in
    record s { log_base = base; logger = started.0; logging = started.1 }

abbrev pub is_any_address : Bytes → Bool
is_any_address address =
    is_empty address || (bytes_eq address (codes "0.0.0.0") || bytes_eq address (codes "*"))

-- `start` once the resolver has been configured.
unfoldable pub start_parts : Host → ServiceConfig → PathResolver → Service → Service × Bool
start_parts host config r s =
    let s1 =
      start_logger host config (start_compression host config r (record s { resolver = some r })) in
    let s2 = record s1 {
      bandwidth =
          Bandwidth.configure s1.bandwidth config.bandwidth_max config.bandwidth_ip
            host.bandwidth_now;
      metrics = Metrics.reset host.metrics_now;
    } in
    if not (is_any_address config.bind_address) && not (host.is_address config.bind_address)
    then (stop_parts s2, false)
    else if not host.daemon_starts
    then (stop_parts s2, false)
    else (record s2 { daemon = true }, true)

abbrev pub start_resolved : Host → ServiceConfig → Option PathResolver → Service → Service × Bool
start_resolved host config none s = (s, false)
start_resolved host config (some r) s = start_parts host config r s

unfoldable pub start : Host → ServiceConfig → Service → Service × Bool
start host config s =
    let s1 = record (stop s) { config = config } in
    if not config.enabled
    then (s1, true)
    else start_resolved host config
        (Resolver.configure host.fs (resolve_against_base host config.base_dir config.root)
          config.serve_dirs config.serve_types config.serve_root_types)
        s1
