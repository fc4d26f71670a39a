-- ===== src/Service/Tests.antt =====
-- The theorems on the server's start, with a daemon that starts or does not.
use fastdl_mm.Prelude.{◌≡◌, refl, List, not, ◌&&◌, is_none, true, false, none, some, [], ◌∷◌, codes}
use fastdl_mm.Bandwidth
use fastdl_mm.Metrics
use fastdl_mm.RateLimiter
use fastdl_mm.Logger
use fastdl_mm.Cache.{CompressionCache}
use fastdl_mm.Resolver
use fastdl_mm.Resolver.{FileSystem, found}
use fastdl_mm.Plugin
use fastdl_mm.Plugin.{Engine, finite}
use fastdl_mm.Service.Whole.{
  Startup, Whole, Call, game_init, frame, restart, detach, calls, view, events_of,
}
use fastdl_mm.Service.Refinement.{view-calls}
use fastdl_mm.Service.{ServiceConfig, Host, Service, resolve_against_base, start}
use fastdl_mm.Service.Startup.{Starts, listens, start-Starts}

abbrev everything : FileSystem
everything = record {
  canonical = λ p. found p;
  no_entry = λ p. false;
  is_regular_file = λ p. true;
  is_directory = λ p. true;
  file_size = λ p. some 10;
}

abbrev busy_port : Host
busy_port = record {
  windows = false;
  fs = everything;
  normal = λ p. p;
  places = λ cache content. record {
    content = some content;
    absolute = some cache;
    prospective = some cache;
    creates = true;
    canonical = some cache;
    files = [];
  };
  log_made = true;
  log_probed = true;
  bandwidth_now = 5;
  metrics_now = 5;
  is_address = λ address. true;
  daemon_starts = false;
}

abbrev config : ServiceConfig
config = record {
  enabled = true;
  base_dir = codes "/" ∷ codes "srv" ∷ [];
  root = codes "cstrike" ∷ [];
  serve_dirs = codes "maps,sound";
  serve_types = codes "bsp,wav";
  serve_root_types = codes "wad";
  gzip = true;
  gzip_cache = true;
  gzip_cache_path = codes "cache" ∷ [];
  gzip_cache_max_bytes = 1000;
  max_file_bytes = 5000;
  log_path = codes "fastdl.log" ∷ [];
  log_age_days = 7;
  bandwidth_max = Bandwidth.not_positive;
  bandwidth_ip = Bandwidth.not_positive;
  bind_address = codes "0.0.0.0";
}

abbrev no_cache : CompressionCache
no_cache = record {
  directory = [];
  max_file_bytes = 0;
  max_bytes = 0;
  jobs = [];
  pending = [];
  stopping = true;
  build_requested = false;
  running = false;
  entries = 0;
  bytes = 0;
  hits = 0;
  misses = 0;
  failures = 0;
}

abbrev first_day : Logger.Tm
first_day = record { tm_year = 126; tm_mon = 0; tm_mday = 1; tm_yday = 0 }

abbrev service : Service
service = record {
  daemon = false;
  logging = false;
  log_base = [];
  config = config;
  resolver = none;
  limiter = RateLimiter.init;
  bandwidth = Bandwidth.initial;
  metrics = Metrics.reset 0;
  compression = record { cache = no_cache; path = []; active = none };
  compression_error = none;
  logger = record {
    logger = record { base_path = []; keep_days = 7; queue = []; stopping = false; dropped = 0 };
    running = false;
    worker = record { opened = false; open_day = first_day; good = true; file = [] };
    hand = none;
    disk = [];
    removed = [];
  };
}

start-Starts_example :
    Starts config (start busy_port config service)
    × ((start busy_port config service).1 ≡ (
        not (
          is_none (
            Resolver.configure everything
              (resolve_against_base busy_port config.base_dir config.root)
              config.serve_dirs
              config.serve_types
              config.serve_root_types))
        && listens busy_port config))
start-Starts_example = start-Starts busy_port config service refl

-- An engine in which every number is one and every string is a URL.
abbrev engine : Engine
engine = record {
  cvar_float = λ name. finite 1 0;
  cvar_string = λ name. codes "http://fast.example/";
}

abbrev free_port : Startup
free_port = record {
  engine = engine;
  host = record busy_port { daemon_starts = true };
  settings = config;
}

abbrev no_port : Startup
no_port = record { engine = engine; host = busy_port; settings = config }

abbrev loaded : Whole
loaded = record {
  globals = record {
    registered = false;
    start_pending = false;
    download_url_managed = false;
    previous_download_url = [];
    running = false;
    sv_downloadurl = codes "http://old/";
  };
  service = service;
}

abbrev life : List Call
life = game_init ∷ frame free_port ∷ restart no_port ∷ detach ∷ []

view-calls_example : view (calls loaded life) ≡ Plugin.run (view loaded) (events_of loaded life)
view-calls_example = view-calls loaded life
