-- ===== src/SecureFile.antt =====
-- src/secure_file.cpp: opening, inspecting and reading a file by its descriptor, on POSIX and on Windows. The system
-- calls are parameters.
pub mod Identity
pub mod Tests
use Prim.Native.Nat.{bit_xor, bit_or}
use fastdl_mm.Prelude.{
  ℕ, ◌+◌, ◌-◌, ◌*◌, ◌/◌, ◌%◌, Bool, true, false, not, ◌&&◌, ◌||◌, Option, none, some, [], ◌++◌, ltb,
  leb, ◌==◌, if◌then◌else◌, drop, is_empty, u64_mod, u64_max, i64_max, Bytes, codes, starts_with,
}
use fastdl_mm.Prelude.Int.{ℤ, pos, negsuc}
use fastdl_mm.Server.{OpenedFileInfo, text, file}

-- The fields of `struct stat` that the source reads.
pub record Stat : Type 0 where
  pub is_regular : Bool
  pub device : ℕ
  pub inode : ℕ
  pub size : ℤ
  pub seconds : ℤ
  pub nanoseconds : ℕ

-- The conversion of a signed number to 64 bits.
abbrev pub to_u64 : ℤ → ℕ
to_u64 (pos n) = n % u64_mod
to_u64 (negsuc n) = u64_max - n % u64_mod

unfoldable pub modified_identity : ℤ → ℕ → ℕ
modified_identity seconds nanoseconds =
    (to_u64 seconds * 1000000000 % u64_mod + nanoseconds) % u64_mod

abbrev pub is_negative : ℤ → Bool
is_negative (pos n) = false
is_negative (negsuc n) = true

abbrev pub same_file : Stat → Stat → Bool
same_file opened current = opened.device == current.device && opened.inode == current.inode

-- `inspectReadFile` on POSIX, from what `fstat` says of the descriptor and `stat` of the path.
unfoldable pub inspect_posix : Option Stat → Option Stat → Option OpenedFileInfo
inspect_posix none current = none
inspect_posix (some opened) none = none
inspect_posix (some opened) (some current) =
    if not opened.is_regular || (not (same_file opened current) || is_negative opened.size)
    then none
    else some (record {
      size = to_u64 opened.size;
      modified_seconds = opened.seconds;
      modified_identity = modified_identity opened.seconds opened.nanoseconds;
      file_identity = bit_xor opened.device (opened.inode * 1099511628211 % u64_mod);
    })

-- The fields of `BY_HANDLE_FILE_INFORMATION` that the source reads.
pub record HandleInformation : Type 0 where
  pub is_directory : Bool
  pub size_high : ℕ
  pub size_low : ℕ
  pub write_high : ℕ
  pub write_low : ℕ
  pub volume : ℕ
  pub index_high : ℕ
  pub index_low : ℕ

abbrev pub joined : ℕ → ℕ → ℕ
joined high low = bit_or (high * 4294967296 % u64_mod) low

abbrev pub unix_epoch_ticks : ℕ
unix_epoch_ticks = 116444736000000000

-- The path of a handle, without the prefixes of the normalized form; the text is that of the system.
unfoldable pub path_from_handle : Bytes → Bytes
path_from_handle path =
    if starts_with (codes "\\\\?\\UNC\\") path
    then codes "\\\\" ++ drop 8 path
    else if starts_with (codes "\\\\?\\") path
    then drop 4 path
    else path

-- `inspectReadFile` on Windows, from what the system says of the handle, its path, and whether two paths name one file.
unfoldable pub inspect_windows :
    Option HandleInformation → Option Bytes → (Bytes → Bool) → Option OpenedFileInfo
inspect_windows none path equivalent = none
inspect_windows (some native) none equivalent = none
inspect_windows (some native) (some path) equivalent =
    let opened = path_from_handle path in
    let ticks = joined native.write_high native.write_low in
    if native.is_directory || (is_empty opened || not (equivalent opened))
    then none
    else some (record {
      size = joined native.size_high native.size_low;
      modified_seconds =
          pos (if leb unix_epoch_ticks ticks then (ticks - unix_epoch_ticks) / 10000000 else 0);
      modified_identity = ticks;
      file_identity =
          bit_xor
            (bit_xor (native.volume * 4294967296 % u64_mod) (native.index_high * 65536 % u64_mod))
            native.index_low;
    })

-- `readFileAt` on POSIX, by the largest offset of `pread`.
unfoldable pub read_posix : ℕ → (ℕ → ℕ → Option Bytes) → ℕ → ℕ → Option Bytes
read_posix largest pread offset size = if ltb largest offset then none else pread offset size

-- `readFileAt` on Windows; `seeks` is whether the descriptor can be set to the offset.
unfoldable pub read_windows : (ℕ → Bool) → (ℕ → ℕ → Option Bytes) → ℕ → ℕ → Option Bytes
read_windows seeks read offset size =
    if ltb i64_max offset || (ltb 4294967295 size || not (seeks offset))
    then none
    else read offset size
