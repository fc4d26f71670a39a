-- ===== src/Plugin/Settings.antt =====
-- src/meta_plugin.cpp: the ranges of the settings.
use fastdl_mm.Prelude.{
  ℕ, ◌+◌, ◌*◌, ◌%◌, ◌≤◌, max, ◌≡◌, refl, ap, ◌⊎◌, inl, inr, ◌&&◌, ◌||◌, Option, none, some, List,
  [], ◌∷◌, arith, ltb, leb, ◌==◌, if◌then◌else◌, Bool-cases, if-elim, no_some, Bytes, codes,
}
use fastdl_mm.Plugin.{
  bounded_unsigned, float_one, float_tenth, bounded_rate, port_of, or_port, first_port, game_port,
  read_config, Float, Engine, FastdlConfig, not_finite, negative, finite,
}

-- What the server is given, whatever stands in the engine's variables.
pub record InRange (c : FastdlConfig) : Type 0 where
  pub port : (1 ≤ c.port) × (c.port ≤ 65535)
  pub max_file_bytes : (1048576 ≤ c.max_file_bytes) × (c.max_file_bytes ≤ 2147483648)
  pub threads : (1 ≤ c.threads) × (c.threads ≤ 4)
  pub connections : (8 ≤ c.max_connections) × (c.max_connections ≤ 128)
  pub per_ip :
      (1 ≤ c.max_connections_per_ip) × (c.max_connections_per_ip ≤ max 32 c.max_connections)
  pub timeout : (5 ≤ c.connection_timeout_seconds) × (c.connection_timeout_seconds ≤ 300)
  pub requests : (1 ≤ c.requests_per_minute) × (c.requests_per_minute ≤ 10000)
  pub denials : (1 ≤ c.denials_per_minute) × (c.denials_per_minute ≤ 1000)
  pub block : (1 ≤ c.block_seconds) × (c.block_seconds ≤ 86400)
  pub rate_max :
      (c.bandwidth_max_mbps ≡ 0)
      ⊎ ((float_tenth ≤ c.bandwidth_max_mbps) × (c.bandwidth_max_mbps ≤ 10000 * float_one))
  pub rate_ip :
      (c.bandwidth_ip_mbps ≡ 0)
      ⊎ ((float_tenth ≤ c.bandwidth_ip_mbps) × (c.bandwidth_ip_mbps ≤ 10000 * float_one))
  pub cache : (16777216 ≤ c.gzip_cache_max_bytes) × (c.gzip_cache_max_bytes ≤ 1073741824)
  pub log_age : c.log_age_days ≤ 3650

bounded_unsigned-le :
    (value : Float) (minimum maximum fallback : ℕ)
    → minimum ≤ maximum
    → minimum ≤ fallback
    → (minimum ≤ bounded_unsigned value minimum maximum fallback)
      × (bounded_unsigned value minimum maximum fallback ≤ max fallback maximum)
unfolding bounded_unsigned
bounded_unsigned-le not_finite minimum maximum fallback h k = (k, omega arith)
bounded_unsigned-le negative minimum maximum fallback h k = (omega arith, omega (arith, h))
bounded_unsigned-le (finite whole fraction) minimum maximum fallback h k =
    (omega arith, omega (arith, h))

bounded_rate-le :
    (value : Float)
    → (bounded_rate value ≡ 0)
      ⊎ ((float_tenth ≤ bounded_rate value) × (bounded_rate value ≤ 10000 * float_one))
unfolding bounded_rate
bounded_rate-le not_finite = inl refl
bounded_rate-le negative = inl refl
bounded_rate-le (finite whole fraction) =
    if-elim (λ v. (v ≡ 0) ⊎ ((float_tenth ≤ v) × (v ≤ 10000 * float_one)))
      (whole * float_one + fraction == 0) (inl refl) (inr (omega arith, omega arith))

port_of-le : (value : Float) (port : ℕ) → port_of value ≡ some port → (1 ≤ port) × (port ≤ 65535)
port_of-le not_finite port h = no_some h
port_of-le negative port h = no_some h
port_of-le (finite whole fraction) port h =
    let test = leb 1 whole && (ltb whole 65535 || (whole == 65535 && fraction == 0)) in
    elim (Bool-cases test) [
      | inl e ↦
          let k : some whole ≡ some port = simp e at h in
          let same : whole ≡ port = ap (λ o. or_port o 0) k in
          let low : 1 ≤ whole = ground (arith, e) in
          let high : whole ≤ 65535 = ground (arith, e) in
          (omega (arith, same, low), omega (arith, same, high))
      | inr e ↦ let k : none ≡ some port = simp e at h in no_some k
    ]

or_port-le :
    (o : Option ℕ) (rest : ℕ)
    → ((port : ℕ) → o ≡ some port → (1 ≤ port) × (port ≤ 65535))
    → (1 ≤ rest) × (rest ≤ 65535)
    → (1 ≤ or_port o rest) × (or_port o rest ≤ 65535)
or_port-le none rest h k = k
or_port-le (some port) rest h k = h port refl

first_port-le : (values : List Float) → (1 ≤ first_port values) × (first_port values ≤ 65535)
unfolding first_port
first_port-le [] = (omega arith, omega arith)
first_port-le (value ∷ values) =
    or_port-le (port_of value) (first_port values) (port_of-le value) (first_port-le values)

chosen_port-le :
    (port game : ℕ)
    → port ≤ 65535
    → (1 ≤ game) × (game ≤ 65535)
    → (1 ≤ (if port == 0 then game else port) % 65536)
      × ((if port == 0 then game else port) % 65536 ≤ 65535)
chosen_port-le port game h k = elim (Bool-cases (port == 0)) [
  | inl e ↦ simp e (omega (arith, k.0, k.1), omega arith)
  | inr e ↦
      let some_port : 1 ≤ port = ground (arith, e) in
      simp e (omega (arith, h, some_port), omega arith)
]

-- Every number that `readConfig` gives to the server lies in its range, a bandwidth being zero or from 0.1 (the `float`
-- next to it) to 10000 Mbps, also where a variable holds a negative or a huge
-- number or none at all; the port is one that can be listened on. The limit of connections of one address can exceed
-- that of all, as far as 32.
pub read_config-InRange : (engine : Engine) → InRange (read_config engine)
unfolding read_config game_port
read_config-InRange engine =
    let value : Bytes → Float = engine.cvar_float in
    let port =
      bounded_unsigned-le (value (codes "fastdl_port")) 0 65535 0 (omega arith) (omega arith) in
    let size =
      bounded_unsigned-le (value (codes "fastdl_max_file_mb")) 1 2048 250 (omega arith)
        (omega arith) in
    let threads =
      bounded_unsigned-le (value (codes "fastdl_threads")) 1 4 1 (omega arith) (omega arith) in
    let connections =
      bounded_unsigned-le (value (codes "fastdl_max_connections")) 8 128 64 (omega arith)
        (omega arith) in
    let all = bounded_unsigned (value (codes "fastdl_max_connections")) 8 128 64 in
    let per_ip =
      bounded_unsigned-le (value (codes "fastdl_max_connections_ip")) 1 all 32
        (omega (arith, connections.0)) (omega arith) in
    let timeout =
      bounded_unsigned-le (value (codes "fastdl_connection_timeout")) 5 300 30 (omega arith)
        (omega arith) in
    let requests =
      bounded_unsigned-le (value (codes "fastdl_requests_minute")) 1 10000 500 (omega arith)
        (omega arith) in
    let denials =
      bounded_unsigned-le (value (codes "fastdl_denials_minute")) 1 1000 36 (omega arith)
        (omega arith) in
    let block =
      bounded_unsigned-le (value (codes "fastdl_block_seconds")) 1 86400 180 (omega arith)
        (omega arith) in
    let cache =
      bounded_unsigned-le (value (codes "fastdl_gzip_cache_max_mb")) 16 1024 256 (omega arith)
        (omega arith) in
    let log_age =
      bounded_unsigned-le (value (codes "fastdl_log_age")) 0 3650 7 (omega arith) (omega arith) in
    record {
      port =
          chosen_port-le (bounded_unsigned (value (codes "fastdl_port")) 0 65535 0) _
            (omega (arith, port.1))
            (first_port-le (value (codes "hostport") ∷ value (codes "port") ∷ []));
      max_file_bytes = (omega (arith, size.0), omega (arith, size.1));
      threads = (threads.0, omega (arith, threads.1));
      connections = (connections.0, omega (arith, connections.1));
      per_ip = per_ip;
      timeout = (timeout.0, omega (arith, timeout.1));
      requests = (requests.0, omega (arith, requests.1));
      denials = (denials.0, omega (arith, denials.1));
      block = (block.0, omega (arith, block.1));
      rate_max = bounded_rate-le (value (codes "fastdl_bandwidth_max_mbps"));
      rate_ip = bounded_rate-le (value (codes "fastdl_bandwidth_ip_mbps"));
      cache = (omega (arith, cache.0), omega (arith, cache.1));
      log_age = omega (arith, log_age.1);
    }
