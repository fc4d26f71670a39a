-- ===== src/Http/TextLaws.antt =====
-- src/fastdl_server.cpp: what goes into a log line, and entity tags.
use fastdl_mm.Prelude.{
  ℕ, ◌+◌, ◌/◌, ◌%◌, ◌≤◌, ◌<◌, ◌≡◌, false, [], ◌∷◌, arith, length, All, Bytes, hex_digit,
}
use fastdl_mm.Http.Text.{is_control, sanitize_from, sanitize}

hex_digit-printable : (n : ℕ) → n < 16 → is_control (hex_digit n) ≡ false
unfolding hex_digit
hex_digit-printable n h = ground arith

sanitize_from_lem :
    (size : ℕ) (s : Bytes) (limit : ℕ)
    → size ≤ limit
    → All (λ c. c < 256) s
    → (size + length (sanitize_from size s limit) ≤ limit)
      × All (λ c. is_control c ≡ false) (sanitize_from size s limit)
unfolding sanitize_from
sanitize_from_lem size [] limit h k = (omega arith, tt)
sanitize_from_lem size (c ∷ s) limit h k = ground (
  arith,
  sanitize_from_lem (size + 4) s limit,
  sanitize_from_lem (size + 1) s limit,
  hex_digit-printable (c / 16),
  hex_digit-printable (c % 16),
)

-- Whatever a client sends, the text that reaches a log line is at most `limit` bytes long and holds no
-- control byte, so that no request can begin a log line of its own.
pub sanitize-IsSafe :
    (s : Bytes) (limit : ℕ)
    → All (λ c. c < 256) s
    → (length (sanitize s limit) ≤ limit) × All (λ c. is_control c ≡ false) (sanitize s limit)
unfolding sanitize
sanitize-IsSafe s limit h =
    let (short, safe) = sanitize_from_lem 0 s limit (omega arith) h in (omega arith, safe)
