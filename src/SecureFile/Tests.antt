-- ===== src/SecureFile/Tests.antt =====
-- The theorem on inspections at a concrete file.
use Prim.Native.Nat.{bit_xor}
use fastdl_mm.Prelude.{◌≡◌, refl, true, some, arith}
use fastdl_mm.Prelude.Int.{pos}
use fastdl_mm.Server.{OpenedFileInfo}
use fastdl_mm.SecureFile.{modified_identity, same_file, inspect_posix, Stat}
use fastdl_mm.SecureFile.Identity.{inspect_posix_same, IsTime}

abbrev map_file : Stat
map_file = record {
  is_regular = true;
  device = 1;
  inode = 2;
  size = pos 10;
  seconds = pos 5;
  nanoseconds = 7;
}

abbrev map_info : OpenedFileInfo
map_info = record {
  size = 10;
  modified_seconds = pos 5;
  modified_identity = 5000000007;
  file_identity = bit_xor 1 2199023256422;
}

map_info_lem : inspect_posix (some map_file) (some map_file) ≡ some map_info
unfolding inspect_posix modified_identity
map_info_lem = refl

map_file-IsTime : IsTime map_file
map_file-IsTime = record { whole = 5; seconds = refl; fits = omega arith; fraction = omega arith }

inspect_posix_same_example :
    (map_file.seconds ≡ map_file.seconds)
    × ((map_file.nanoseconds ≡ map_file.nanoseconds)
        × ((same_file map_file map_file ≡ true) × (same_file map_file map_file ≡ true)))
inspect_posix_same_example =
    inspect_posix_same map_file map_file map_file map_file map_info map_info map_file-IsTime
      map_file-IsTime map_info_lem map_info_lem refl
