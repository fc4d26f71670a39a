-- ===== src/Plugin.antt =====
-- src/meta_plugin.cpp: the plugin between the game's engine and the server: its settings, the URL that it sets for the
-- clients, and when the server starts and stops. The engine's variables and the server's `start` are parameters.
pub mod Settings
pub mod Url
pub mod Lifecycle
pub mod Tests
use fastdl_mm.Prelude.{
  ℕ, zero, ◌+◌, ◌*◌, ◌/◌, ◌%◌, ◌^◌, min, max, Bool, true, false, not, ◌&&◌, ◌||◌, Option, none,
  some, List, [], ◌∷◌, ◌++◌, ltb, leb, ◌==◌, if◌then◌else◌, length, drop, any, Bytes, codes,
  starts_with, back?, cut_at,
}
use fastdl_mm.Config.{trim}

-- A `float` of the engine: its whole part, and its fraction in units of 2^-149, of which every `float` is a multiple; a
-- negative one is below zero.
pub data Float : Type 0 where
  not_finite : Float
  negative : Float
  finite : ℕ → ℕ → Float

-- What the engine's variables answer.
pub record Engine : Type 0 where
  pub cvar_float : Bytes → Float
  pub cvar_string : Bytes → Bytes

unfoldable pub bounded_unsigned : Float → (minimum maximum fallback : ℕ) → ℕ
bounded_unsigned not_finite minimum maximum fallback = fallback
bounded_unsigned negative minimum maximum fallback = minimum
bounded_unsigned (finite whole fraction) minimum maximum fallback = max minimum (min whole maximum)

-- The units of 2^-149 in one, and in the `float` next to 0.1, which is 13421773 / 2^27.
abbrev pub float_one : ℕ
float_one = 2 ^ 149

abbrev pub float_tenth : ℕ
float_tenth = 13421773 * 2 ^ 122

-- The result is the value of the `double`, in units of 2^-149.
unfoldable pub bounded_rate : Float → ℕ
bounded_rate not_finite = 0
bounded_rate negative = 0
bounded_rate (finite whole fraction) =
    let value = whole * float_one + fraction in
    if value == 0 then 0 else max float_tenth (min value (10000 * float_one))

-- The comparison with zero; what is not a number differs from it.
abbrev pub is_set : Float → Bool
is_set not_finite = true
is_set negative = true
is_set (finite whole fraction) = not (whole == 0 && fraction == 0)

-- A number from 1 to 65535, cut to a whole one.
abbrev pub port_of : Float → Option ℕ
port_of not_finite = none
port_of negative = none
port_of (finite whole fraction) =
    if leb 1 whole && (ltb whole 65535 || (whole == 65535 && fraction == 0))
    then some whole
    else none

abbrev pub or_port : Option ℕ → ℕ → ℕ
or_port none rest = rest
or_port (some port) rest = port

unfoldable pub first_port : List Float → ℕ
first_port [] = 27015
first_port (value ∷ values) = or_port (port_of value) (first_port values)

unfoldable pub game_port : Engine → ℕ
game_port engine =
    first_port (engine.cvar_float (codes "hostport") ∷ engine.cvar_float (codes "port") ∷ [])

-- The numbers and switches of `FastdlConfig`, with the rates in units of 2^-149, and its URL; the paths and lists are the strings of their variables.
pub record FastdlConfig : Type 0 where
  pub enabled : Bool
  pub port : ℕ
  pub max_file_bytes : ℕ
  pub threads : ℕ
  pub max_connections : ℕ
  pub max_connections_per_ip : ℕ
  pub connection_timeout_seconds : ℕ
  pub requests_per_minute : ℕ
  pub denials_per_minute : ℕ
  pub block_seconds : ℕ
  pub bandwidth_max_mbps : ℕ
  pub bandwidth_ip_mbps : ℕ
  pub steam_only : Bool
  pub gzip : Bool
  pub gzip_cache : Bool
  pub gzip_cache_max_bytes : ℕ
  pub auto_download_url : Bool
  pub public_url : Bytes
  pub log_age_days : ℕ

unfoldable pub read_config : Engine → FastdlConfig
read_config engine =
    let bounded : Bytes → ℕ → ℕ → ℕ → ℕ = λ name. bounded_unsigned (engine.cvar_float name) in
    let flag : Bytes → Bool = λ name. is_set (engine.cvar_float name) in
    let port = bounded (codes "fastdl_port") 0 65535 0 in
    let connections = bounded (codes "fastdl_max_connections") 8 128 64 in
    record {
      enabled = flag (codes "fastdl_enabled");
      port = (if port == 0 then game_port engine else port) % 65536;
      max_file_bytes = bounded (codes "fastdl_max_file_mb") 1 2048 250 * 1024 * 1024;
      threads = bounded (codes "fastdl_threads") 1 4 1;
      max_connections = connections;
      max_connections_per_ip = bounded (codes "fastdl_max_connections_ip") 1 connections 32;
      connection_timeout_seconds = bounded (codes "fastdl_connection_timeout") 5 300 30;
      requests_per_minute = bounded (codes "fastdl_requests_minute") 1 10000 500;
      denials_per_minute = bounded (codes "fastdl_denials_minute") 1 1000 36;
      block_seconds = bounded (codes "fastdl_block_seconds") 1 86400 180;
      bandwidth_max_mbps = bounded_rate (engine.cvar_float (codes "fastdl_bandwidth_max_mbps"));
      bandwidth_ip_mbps = bounded_rate (engine.cvar_float (codes "fastdl_bandwidth_ip_mbps"));
      steam_only = flag (codes "fastdl_steam_only");
      gzip = flag (codes "fastdl_gzip");
      gzip_cache = flag (codes "fastdl_gzip_cache");
      gzip_cache_max_bytes = bounded (codes "fastdl_gzip_cache_max_mb") 16 1024 256 * 1024 * 1024;
      auto_download_url = flag (codes "fastdl_auto_downloadurl");
      public_url = engine.cvar_string (codes "fastdl_public_url");
      log_age_days = bounded (codes "fastdl_log_age") 0 3650 7;
    }

-- A byte that a URL may not have.
abbrev pub is_bad : ℕ → Bool
is_bad c = leb c 32 || (c == 127 || (c == b'"' || c == b'#'))

abbrev pub is_last : ℕ → Option ℕ → Bool
is_last c none = false
is_last c (some d) = c == d

abbrev pub last_is : ℕ → Bytes → Bool
last_is c s = is_last c (back? s)

-- Whether a host is there, without a colon at either end.
abbrev pub is_authority : Bytes → Bool
is_authority [] = false
is_authority (c ∷ s) = not (c == b':') && not (last_is b':' (c ∷ s))

abbrev pub with_slash : Bytes → Bytes
with_slash s = if last_is b'/' s then s else s ++ b'/' ∷ []

unfoldable pub normalized_public_url : Bytes → Option Bytes
normalized_public_url configured =
    let url = trim configured in
    if not (starts_with (codes "http://") url) || ltb (length url) 8
    then none
    else if any is_bad url
    then none
    else if not (is_authority (cut_at b'/' (drop 7 url)).0)
    then none
    else if leb (length (with_slash url)) 127
    then some (with_slash url)
    else none

-- The plugin's globals, whether the server runs, and the engine's `sv_downloadurl`.
pub record Plugin : Type 0 where
  pub registered : Bool
  pub start_pending : Bool
  pub download_url_managed : Bool
  pub previous_download_url : Bytes
  pub running : Bool
  pub sv_downloadurl : Bytes

unfoldable pub restore_download_url : Plugin → Plugin
restore_download_url p = if not p.download_url_managed then p else record p {
  sv_downloadurl = p.previous_download_url;
  previous_download_url = [];
  download_url_managed = false;
}

abbrev pub manage_url : Plugin → Option Bytes → Plugin
manage_url p none = p
manage_url p (some url) = record p {
  previous_download_url = p.sv_downloadurl;
  sv_downloadurl = url;
  download_url_managed = true;
}

unfoldable pub configure_download_url : FastdlConfig → Plugin → Plugin
configure_download_url config p =
    if not config.auto_download_url
    then p
    else manage_url p (normalized_public_url config.public_url)

-- `startServer`; `starts` is whether `FastdlServer::start` succeeds, which stops the server first.
unfoldable pub start_server : Engine → Bool → Plugin → Plugin
start_server engine starts p =
    let p1 = restore_download_url p in
    let config = read_config engine in
    if not config.enabled || not starts
    then record p1 { running = false }
    else configure_download_url config (record p1 { running = true })

unfoldable pub register_plugin : Plugin → Plugin
register_plugin p = if p.registered then p else record p { registered = true; start_pending = true }

unfoldable pub start_frame : Engine → Bool → Plugin → Plugin
start_frame engine starts p =
    if p.start_pending then start_server engine starts (record p { start_pending = false }) else p

unfoldable pub meta_detach : Plugin → Plugin
meta_detach p = record (restore_download_url p) { running = false }

-- What calls the plugin: the game's start, a frame, the restart command and the end of the engine; and who else sets
-- `sv_downloadurl`.
pub data Event : Type 0 where
  game_init : Event
  frame : Engine → Bool → Event
  restart : Engine → Bool → Event
  detach : Event
  sets_url : Bytes → Event

unfoldable pub step : Plugin → Event → Plugin
step p game_init = register_plugin p
step p (frame engine starts) = start_frame engine starts p
step p (restart engine starts) = start_server engine starts p
step p detach = meta_detach p
step p (sets_url url) = record p { sv_downloadurl = url }

unfoldable pub run : Plugin → List Event → Plugin
run p [] = p
run p (e ∷ es) = run (step p e) es
