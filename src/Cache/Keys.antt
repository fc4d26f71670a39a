-- ===== src/Cache/Keys.antt =====
-- src/compression_cache.cpp: the names of the cache's files.
use fastdl_mm.Prelude.{
  ℕ, ◌+◌, ◌≡◌, refl, subst, true, [], ◌∷◌, ◌++◌, arith, ==_iff, length, take, drop, all,
  length-append, drop-append, take-append, All, All-append, Bytes, bytes_eq_refl, to_hex,
  zero_padded, IsHexDigit, to_hex-IsHexDigit, length-to_hex,
}
use fastdl_mm.Cache.{fnv1a, cache_key}
use fastdl_mm.Cache.Maintain.{is_xdigit, cache_name}

pub length-cache_key : (identity : Bytes) → length (cache_key identity) ≡ 32
unfolding cache_key
length-cache_key identity =
    let first = fnv1a identity 14695981039346656037 in
    let second = fnv1a identity 7809847782465536322 in
    omega (
      arith,
      length-append (zero_padded 16 (to_hex first)) (zero_padded 16 (to_hex second)),
      length-to_hex first,
      length-to_hex second,
    )

cache_key-IsHexDigit : (identity : Bytes) → All IsHexDigit (cache_key identity)
unfolding cache_key
cache_key-IsHexDigit identity =
    let first = fnv1a identity 14695981039346656037 in
    let second = fnv1a identity 7809847782465536322 in
    All-append IsHexDigit (zero_padded 16 (to_hex first)) (zero_padded 16 (to_hex second))
      (to_hex-IsHexDigit 16 first) (to_hex-IsHexDigit 16 second)

is_xdigit_lem : (b : ℕ) → IsHexDigit b → is_xdigit b ≡ true
is_xdigit_lem b h = ground (arith, h)

all_xdigits : (s : Bytes) → All IsHexDigit s → all is_xdigit s ≡ true
all_xdigits [] h = refl
all_xdigits (b ∷ s) h = rw (is_xdigit_lem b h.0) (all_xdigits s h.1)

take-cache_key :
    (identity suffix : Bytes) → take 32 (cache_key identity ++ suffix) ≡ cache_key identity
take-cache_key identity suffix =
    let key = cache_key identity in
    subst (λ n. take n (key ++ suffix) ≡ key) (length-cache_key identity) (take-append key suffix)

drop-cache_key : (identity suffix : Bytes) → drop 32 (cache_key identity ++ suffix) ≡ suffix
drop-cache_key identity suffix =
    let key = cache_key identity in
    subst (λ n. drop n (key ++ suffix) ≡ suffix) (length-cache_key identity)
      (drop-append key suffix)

-- Every name that the cache gives to a file, a key with one of its endings, is one that `maintainCache` takes for
-- its own by that ending.
pub cache_name-cache_key :
    (suffix identity : Bytes) → cache_name suffix (cache_key identity ++ suffix) ≡ true
unfolding cache_name
cache_name-cache_key suffix identity =
    let key = cache_key identity in
    rw
      (
        drop-cache_key identity suffix,
        take-cache_key identity suffix,
        bytes_eq_refl suffix,
        (==_iff (length (key ++ suffix)) (32 + length suffix)).1
            (omega (arith, length-append key suffix, length-cache_key identity)),
        all_xdigits key (cache_key-IsHexDigit identity),
      )
      refl
