-- ===== src/RateLimiter/Tests.antt =====
-- The theorems on the rate limiter at concrete histories.
use fastdl_mm.Prelude.{
  ◌+◌, ◌*◌, ◌≤◌, ◌≡◌, refl, ap, ◌≢◌, List, [], ◌∷◌, ◌++◌, arith, ltb, length, sub_size, add_size,
  Bytes, bytes_eq,
}
use fastdl_mm.RateLimiter.{
  second, init, trim, is_stale, sweep, cleanup, create, find_or_create, blocked, admit,
  request_exceeded, strike, record_denial, step, run, Call, asks, requests, denies,
}
use fastdl_mm.RateLimiter.Clients.{lookup, put}
use fastdl_mm.RateLimiter.Accounting.{run-init-IsValid, IsValid}
use fastdl_mm.RateLimiter.Blocks.{blocked-run, record_denial-blocks}
use fastdl_mm.RateLimiter.Window.{recent}
use fastdl_mm.RateLimiter.Limit.{admitted, admitted-recent-le}

abbrev alice : Bytes
alice = b'a' ∷ []

abbrev bob : Bytes
bob = b'b' ∷ b'o' ∷ []

abbrev history : List Call
history = requests alice 2 10 ∷ requests bob 2 20 ∷ denies bob 2 30 25 ∷ []

bob≢alice : bob ≢ alice
bob≢alice e = let h : 2 ≡ 1 = ap (λ (s : Bytes). length s) e in omega (arith, h)

admitted-recent-le_example : recent 30 (admitted alice init history ++ 30 ∷ []) ≤ 2
unfolding request_exceeded run step cleanup find_or_create admit create sweep is_stale trim lookup
    put record_denial strike sub_size add_size bytes_eq
admitted-recent-le_example =
    admitted-recent-le alice 2 30 history (omega arith, (omega arith, (omega arith, omega arith)))
      (tt, (tt, (tt, tt))) refl

run-init-IsValid_example : IsValid (run init history)
run-init-IsValid_example = run-init-IsValid history

record_denial-blocks_example :
    (blocked (run (record_denial (run init history) bob 2 30 40) (asks alice 50 ∷ [])) bob 60).1
    ≡ ltb 60 (40 + 30 * second)
unfolding run step cleanup find_or_create admit create sweep is_stale trim lookup put record_denial
    strike sub_size add_size request_exceeded bytes_eq
record_denial-blocks_example =
    record_denial-blocks (run init history) bob 2 30 40 60 1 (asks alice 50 ∷ [])
      (run-init-IsValid history) refl (omega arith) (omega arith, tt)

blocked-run_example :
    (blocked (run (run init history) (denies bob 2 30 40 ∷ requests alice 2 50 ∷ [])) alice 60).1
    ≡ (blocked (run init history) alice 60).1
blocked-run_example =
    blocked-run (run init history) alice 60 (denies bob 2 30 40 ∷ requests alice 2 50 ∷ [])
      (run-init-IsValid history) ((omega arith, bob≢alice), (omega arith, tt))
