-- ===== src/Server/Representations.antt =====
-- src/fastdl_server.cpp: the part of a file that `serveFile` chooses to send.
use fastdl_mm.Prelude.{ℕ, ◌+◌, ◌≤◌, ◌<◌, ◌≡◌, ◌⊎◌, Bool, true, false, if◌then◌else◌}
use fastdl_mm.Http.Range.{ByteRange}
use fastdl_mm.Resolver.{FilePath}
use fastdl_mm.Server.Files.{is_valid, Representation}

-- What a representation of a file of the given size may be: the file from an offset, up to its end at
-- most and not empty if it is a part; or a copy of the whole file.
unfoldable pub Fits : ℕ → FilePath → Representation → Type 0
Fits size path r =
    ((r.source ≡ path) × (r.offset + r.count ≤ size) × ((r.partial ≡ false) ⊎ (0 < r.count)))
    ⊎ ((r.compressed ≡ true) × (r.partial ≡ false) × (r.offset ≡ 0))

abbrev Within : ℕ → ByteRange → Type 0
Within size range =
    is_valid range.status ≡ true → (0 < range.count) × (range.start + range.count ≤ size)

abbrev whole_of : FilePath → ℕ → ByteRange → Bool → Representation
whole_of path size range partial = record {
  source = path;
  offset = if partial then range.start else 0;
  count = if partial then range.count else size;
  partial = partial;
  compressed = false;
}
