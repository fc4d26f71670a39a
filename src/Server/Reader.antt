-- ===== src/Server/Reader.antt =====
-- src/fastdl_server.cpp: `fileReader`, the callback by which the daemon asks for more of a file's body. It
-- works on a live context, as the daemon calls it.
use fastdl_mm.Metrics
use fastdl_mm.Prelude.{
  ℕ, zero, suc, ◌+◌, ◌-◌, ◌%◌, ◌≤◌, min, ◌≡◌, refl, Bool, true, false, Option, none, some, arith,
  ltb, leb, ◌==◌, if◌then◌else◌, u64_mod, u64_max,
}
use fastdl_mm.Bandwidth.{acquire}
use fastdl_mm.Bandwidth.Grants.{acquire-grants}
use fastdl_mm.Server.{RequestState, FastdlServer}

-- The fields of `TransferContext` that the callback reads; the descriptor is what `read` reads from.
pub record TransferContext : Type 0 where
  pub source_offset : ℕ
  pub count : ℕ
  pub lease : Option ℕ

-- What the callback returns: the end, an error, or the number of bytes that it has put in the buffer.
pub data Reading : Type 0 where
  end_of_stream end_with_error : Reading
  supplied : ℕ → Reading

-- The server and the request's state behind a call.
abbrev pub Read : Type 0
Read = FastdlServer × RequestState × Reading

-- The counts after `readFileAt`, of which `none` is an error.
unfoldable pub count_read : FastdlServer → RequestState → ℕ → Option ℕ → Read
count_read s st now none = (s, st, end_with_error)
count_read s st now (some zero) = (s, st, end_with_error)
count_read s st now (some (suc n)) = (
  record s { metrics = fastdl_mm.Metrics.bytes_supplied s.metrics (suc n) now },
  record st { bytes_supplied = (st.bytes_supplied + suc n) % u64_mod },
  supplied (suc n),
)

-- `read` is `readFileAt` by offset and size. The call starts at `now`; its wait is cancelled if
-- `cancelled`, and the limiter has stopped by its end if `stopped`; its bytes are counted in second
-- `counted`.
unfoldable pub file_reader :
    (ℕ → ℕ → Option ℕ)
    → FastdlServer
    → RequestState
    → TransferContext
    → (position room now : ℕ) → (cancelled stopped : Bool) → ℕ
    → Read
file_reader read s st c position room now cancelled stopped counted =
    let granting =
      acquire s.bandwidth c.lease (min (c.count - position) room) now cancelled stopped in
    let s1 = record s { bandwidth = granting.0 } in
    if leb c.count position
    then (s, st, end_of_stream)
    else if granting.2 == 0
    then (s1, st, end_with_error)
    else if ltb (u64_max - position) c.source_offset
    then (s1, st, end_with_error)
    else count_read s1 st counted (read (c.source_offset + position) granting.2)

abbrev pub size_of : Reading → ℕ
size_of (supplied n) = n
size_of _ = 0

count_read-le :
    (s : FastdlServer) (st : RequestState) (now : ℕ) (r : Option ℕ) (bound : ℕ)
    → ((n : ℕ) → r ≡ some n → n ≤ bound)
    → size_of (count_read s st now r).2 ≤ bound
unfolding count_read
count_read-le s st now none bound h = omega arith
count_read-le s st now (some zero) bound h = omega arith
count_read-le s st now (some (suc n)) bound h = h (suc n) refl

if-le :
    (b : Bool) (x y : Read) {bound : ℕ}
    → size_of x.2 ≡ 0
    → size_of y.2 ≤ bound
    → size_of (if b then x else y).2 ≤ bound
if-le true x y h k = omega (arith, h)
if-le false x y h k = k

-- If reading a file never gives more bytes than were asked for, then one call of the callback puts at
-- most as many bytes in the buffer as it has room for, and none past the end of the body.
pub file_reader-le :
    (read : ℕ → ℕ → Option ℕ) (s : FastdlServer) (st : RequestState) (c : TransferContext)
    (position room now : ℕ) (cancelled stopped : Bool) (counted : ℕ)
    → ((offset size n : ℕ) → read offset size ≡ some n → n ≤ size)
    → let given = size_of (file_reader read s st c position room now cancelled stopped counted).2 in
      (given ≤ room) × (given ≤ c.count - position)
unfolding file_reader
file_reader-le read s st c position room now cancelled stopped counted h =
    let granting =
      acquire s.bandwidth c.lease (min (c.count - position) room) now cancelled stopped in
    let granted =
      (acquire-grants s.bandwidth c.lease (min (c.count - position) room) now cancelled
        stopped).0 in
    let s1 : FastdlServer = record s { bandwidth = granting.0 } in
    let read_at = c.source_offset + position in
    let last : size_of (count_read s1 st counted (read read_at granting.2)).2
        ≤ min (c.count - position) room =
      omega (
        arith,
        granted,
        count_read-le s1 st counted (read read_at granting.2) granting.2 (h read_at granting.2),
      ) in
    let bound : size_of (file_reader read s st c position room now cancelled stopped counted).2
        ≤ min (c.count - position) room =
      if-le (leb c.count position) (s, st, end_of_stream) _ refl
        (if-le (granting.2 == 0) (s1, st, end_with_error) _ refl
          (if-le (ltb (u64_max - position) c.source_offset) (s1, st, end_with_error) _ refl
            last)) in
    (omega (arith, bound), omega (arith, bound))
