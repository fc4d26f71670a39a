-- ===== src/Service/Startup.antt =====
-- src/fastdl_server.cpp: what runs after `start` and `stop`.
use fastdl_mm.Prelude.{
  ℕ, ◌≡◌, refl, ap, ◌∙◌, ◌⊎◌, inl, inr, Bool, true, false, not, ◌&&◌, ◌||◌, Option, none, some,
  if◌then◌else◌, if-elim, if-elim_false, is_none, is_empty,
}
use fastdl_mm.Bandwidth
use fastdl_mm.Metrics
use fastdl_mm.Logger
use fastdl_mm.Resolver
use fastdl_mm.Resolver.{FilePath, PathResolver}
use fastdl_mm.Cache.{Directory}
use fastdl_mm.Cache.Worker.{StartError}
use fastdl_mm.Cache.Worker
use fastdl_mm.Service.{
  ServiceConfig, Host, Service, stop, stop_parts, stop_logger, stop_compression, start_compression,
  start_logger, start_parts, start_resolved, start, is_any_address, resolve_against_base,
}

-- No part runs: no daemon and no thread, nothing is logged, no transfer waits, and nothing is compressed.
pub record IsStopped (s : Service) : Type 0 where
  pub no_daemon : s.daemon ≡ false
  pub no_logging : s.logging ≡ false
  pub no_logger : s.logger.running ≡ false
  pub discards : s.logger.logger.stopping ≡ true
  pub released : s.bandwidth.stopping ≡ true
  pub no_compression : s.compression.cache.running ≡ false
  pub no_jobs : s.compression.cache.stopping ≡ true

-- The daemon runs, transfers are let through, lines are logged exactly if the log's thread runs to write them, and the
-- cache runs exactly if it was asked for and its own start reported no error.
pub record IsRunning (config : ServiceConfig) (s : Service) : Type 0 where
  pub daemon : s.daemon ≡ true
  pub let_through : s.bandwidth.stopping ≡ false
  pub logged : s.logging ≡ s.logger.running
  pub compressed :
      s.compression.cache.running
      ≡ (config.gzip && (config.gzip_cache && is_none s.compression_error))

-- What a start leaves.
abbrev pub Starts : ServiceConfig → Service × Bool → Type 0
Starts config (s, true) = IsRunning config s
Starts config (s, false) = IsStopped s

-- Whether the bind address is one, and libmicrohttpd starts.
abbrev pub listens : Host → ServiceConfig → Bool
listens host config =
    (is_any_address config.bind_address || host.is_address config.bind_address)
    && host.daemon_starts

-- After `stop`, whatever ran before, no part runs.
pub stop-IsStopped : (s : Service) → IsStopped (stop s)
unfolding stop stop_logger stop_compression Bandwidth.stop Logger.clear Worker.clear
    Worker.stop_threads
stop-IsStopped s = record {
  no_daemon = refl;
  no_logging = refl;
  no_logger = refl;
  discards = refl;
  released = refl;
  no_compression = refl;
  no_jobs = refl;
}

stop_parts-IsStopped : (s : Service) → s.daemon ≡ false → IsStopped (stop_parts s)
unfolding stop_parts stop_logger stop_compression Bandwidth.stop Logger.clear Worker.clear
    Worker.stop_threads
stop_parts-IsStopped s h = record {
  no_daemon = h;
  no_logging = refl;
  no_logger = refl;
  discards = refl;
  released = refl;
  no_compression = refl;
  no_jobs = refl;
}

start_logger-logging :
    (host : Host) (config : ServiceConfig) (s : Service)
    → (start_logger host config s).logging ≡ (start_logger host config s).logger.running
unfolding start_logger Logger.start stop_logger Logger.clear
start_logger-logging host config s =
    let base = resolve_against_base host config.base_dir config.log_path in
    let P : Logger.System × Bool → Type 0 = λ r. r.1 ≡ r.0.running in
    if-elim P (not (is_empty (Logger.parent_path base)) && not host.log_made) refl
      (if-elim P (not host.log_probed) refl refl)

start_compression-daemon :
    (host : Host) (config : ServiceConfig) (r : PathResolver) (s : Service)
    → (start_compression host config r s).daemon ≡ s.daemon
unfolding start_compression
start_compression-daemon host config r s =
    if-elim (λ (t : Service). t.daemon ≡ s.daemon) (config.gzip && config.gzip_cache) refl refl

started-running :
    (s : Worker.System) (files : Directory) (max_bytes max_file_bytes : ℕ)
    (r : StartError ⊎ FilePath)
    → s.cache.running ≡ false
    → let t = Worker.started s files max_bytes max_file_bytes r in t.0.cache.running ≡ is_none t.1
started-running s files max_bytes max_file_bytes (inl e) h = h
started-running s files max_bytes max_file_bytes (inr path) h = refl

chosen-running :
    (g c : Bool) (a b : Service)
    → a.compression.cache.running ≡ is_none a.compression_error
    → b.compression.cache.running ≡ false
    → let t : Service = if g && c then a else b in
      t.compression.cache.running ≡ (g && (c && is_none t.compression_error))
chosen-running true true a b h k = h
chosen-running true false a b h k = k
chosen-running false c a b h k = k

start_compression-running :
    (host : Host) (config : ServiceConfig) (r : PathResolver) (s : Service)
    → s.compression.cache.running ≡ false
    → let t = start_compression host config r s in
      t.compression.cache.running
      ≡ (config.gzip && (config.gzip_cache && is_none t.compression_error))
unfolding start_compression Worker.start Worker.clear Worker.stop_threads
start_compression-running host config r s h =
    let path = resolve_against_base host config.base_dir config.gzip_cache_path in
    let p = host.places path r.root in
    let cleared = Worker.clear (Worker.stop_threads s.compression) in
    let made =
      Worker.started cleared p.files config.gzip_cache_max_bytes config.max_file_bytes
        (Worker.check_places host.windows p) in
    chosen-running config.gzip config.gzip_cache
      (record s { compression = made.0; compression_error = made.1 })
      (record s { compression_error = none })
      (started-running cleared p.files config.gzip_cache_max_bytes config.max_file_bytes
        (Worker.check_places host.windows p) refl)
      h

logged_daemon :
    (host : Host) (config : ServiceConfig) (r : PathResolver) (s : Service)
    → s.daemon ≡ false
    → (start_logger host config
        (start_compression host config r (record s { resolver = some r }))).daemon
      ≡ false
unfolding start_logger
logged_daemon host config r s h =
    start_compression-daemon host config r (record s { resolver = some r }) ∙ h

logged-running :
    (host : Host) (config : ServiceConfig) (r : PathResolver) (s : Service)
    → s.compression.cache.running ≡ false
    → let t =
        start_logger host config
          (start_compression host config r (record s { resolver = some r })) in
      t.compression.cache.running
      ≡ (config.gzip && (config.gzip_cache && is_none t.compression_error))
unfolding start_logger
logged-running host config r s h =
    start_compression-running host config r (record s { resolver = some r }) h

result_lem :
    (a b d : Bool) (x y z : Service)
    → let r : Service × Bool =
        if not a && not b then (x, false) else if not d then (y, false) else (z, true) in
      r.1 ≡ ((a || b) && d)
result_lem true b true x y z = refl
result_lem true b false x y z = refl
result_lem false true true x y z = refl
result_lem false true false x y z = refl
result_lem false false d x y z = refl

start_parts-Starts :
    (host : Host) (config : ServiceConfig) (r : PathResolver) (s : Service)
    → s.daemon ≡ false
    → s.compression.cache.running ≡ false
    → Starts config (start_parts host config r s)
      × ((start_parts host config r s).1 ≡ listens host config)
unfolding start_parts Bandwidth.configure
start_parts-Starts host config r s h k =
    let compressed = start_compression host config r (record s { resolver = some r }) in
    let s1 = start_logger host config compressed in
    let s2 = record s1 {
      bandwidth =
          Bandwidth.configure s1.bandwidth config.bandwidth_max config.bandwidth_ip
            host.bandwidth_now;
      metrics = Metrics.reset host.metrics_now;
    } in
    let idle : s1.daemon ≡ false = logged_daemon host config r s h in
    let stopped = stop_parts-IsStopped s2 idle in
    let a = is_any_address config.bind_address in
    let b = host.is_address config.bind_address in
    (
      if-elim (Starts config) (not a && not b) stopped (
          if-elim (Starts config) (not host.daemon_starts) stopped (record {
            daemon = refl;
            let_through = refl;
            logged = start_logger-logging host config compressed;
            compressed = logged-running host config r s k;
          })),
      result_lem a b host.daemon_starts (stop_parts s2) (stop_parts s2)
          (record s2 { daemon = true }),
    )

start_resolved-Starts :
    (host : Host) (config : ServiceConfig) (o : Option PathResolver) (s : Service)
    → IsStopped s
    → Starts config (start_resolved host config o s)
      × ((start_resolved host config o s).1 ≡ (not (is_none o) && listens host config))
start_resolved-Starts host config none s h = (h, refl)
start_resolved-Starts host config (some r) s h =
    start_parts-Starts host config r s h.no_daemon h.no_compression

-- A start of an enabled server succeeds exactly if the resolver could be configured, the bind address is one and
-- libmicrohttpd starts: a log or a cache that fails to start does not make it fail. A start that succeeds leaves the
-- daemon running, transfers let through, `logging` true exactly if the log's thread runs, and the cache running exactly
-- if it was asked for and its own start reported no error. One that fails leaves nothing running: no thread, daemon or
-- waiting transfer of a part that was started before the one that failed.
pub start-Starts :
    (host : Host) (config : ServiceConfig) (s : Service)
    → config.enabled ≡ true
    → Starts config (start host config s)
      × ((start host config s).1 ≡ (
          not (
            is_none (
              Resolver.configure host.fs
                (resolve_against_base host config.base_dir config.root)
                config.serve_dirs
                config.serve_types
                config.serve_root_types))
          && listens host config))
unfolding start
start-Starts host config s h =
    let stopped = stop-IsStopped s in
    let s1 = record (stop s) { config = config } in
    let o =
      Resolver.configure host.fs (resolve_against_base host config.base_dir config.root)
        config.serve_dirs config.serve_types config.serve_root_types in
    let kept : IsStopped s1 = record {
      no_daemon = stopped.no_daemon;
      no_logging = stopped.no_logging;
      no_logger = stopped.no_logger;
      discards = stopped.discards;
      released = stopped.released;
      no_compression = stopped.no_compression;
      no_jobs = stopped.no_jobs;
    } in
    if-elim_false
      (λ (r : Service × Bool). Starts config r × (r.1 ≡ (not (is_none o) && listens host config)))
      (ap not h) _ (start_resolved-Starts host config o s1 kept)
