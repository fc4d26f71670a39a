-- ===== src/Cache/Gzip.antt =====
-- src/compression_cache.cpp: what is in a file that `compress` writes.
use fastdl_mm.Prelude.{
  ℕ, suc, ◌-◌, ◌%◌, ◌≡◌, refl, sym, ap, ◌∙◌, ◌≢◌, true, Option, none, some, [], ◌++◌, arith, ◌==◌,
  ==_iff, length, length-append, drop-append, take-append, u32_mod, Bytes, bytes_eq_refl,
}
use fastdl_mm.Cache.Compress.{
  write_little_endian, gzip_header, finish, read_loop, trailer, gzip_from, Miniz, Attempt, Progress,
}
use fastdl_mm.Cache.Codec.{
  Reads, Ends, little_endian, gunzip, and_then-Ends, little_endian_lem, Codec,
}
use fastdl_mm.Cache.Loops.{Whole, finish-Ends, Done, read_loop-Ends, Read}

some_not_none {ℓ} : {A : Type ℓ} {a : A} → some a ≢ none
some_not_none h = cc

module _ (mz : Miniz) (codec : Codec mz) where
  length-write_little_endian : (n : ℕ) → length (write_little_endian n) ≡ 4
  unfolding write_little_endian
  length-write_little_endian n = refl

  gunzip_lem :
      (content made : Bytes) (crc : ℕ)
      → codec.inflate made ≡ some content
      → crc ≡ mz.crc32 (mz.crc32 0 []) content
      → gunzip mz.crc32 codec.inflate ((gzip_header ++ made) ++ trailer mz crc (length content))
        ≡ some content
  unfolding write_little_endian
  gunzip_lem content made crc h k =
      let first = write_little_endian (crc % u32_mod) in
      let second = write_little_endian (length content % u32_mod) in
      let tail = first ++ second in
      let size : length (made ++ tail) - 8 ≡ length made = omega (arith, length-append made tail) in
      let crc_right : (little_endian first == mz.crc32 (mz.crc32 0 []) content % u32_mod) ≡ true =
        (==_iff (little_endian first) (mz.crc32 (mz.crc32 0 []) content % u32_mod)).1
          (little_endian_lem (crc % u32_mod) (omega arith) ∙ ap (λ x. x % u32_mod) k) in
      let size_right : (little_endian second == length content % u32_mod) ≡ true =
        (==_iff (little_endian second) (length content % u32_mod)).1
          (little_endian_lem (length content % u32_mod) (omega arith)) in
      rw
        (
          size,
          take-append made tail,
          drop-append made tail,
          h,
          bytes_eq_refl gzip_header,
          crc_right,
          size_right,
        )
        refl

  gzip_init-Ends :
      (t : Attempt) (content : Bytes) (st : Option mz.Stream)
      → Reads t content
      → mz.init ≡ st
      → Ends
          (λ gz. gunzip mz.crc32 codec.inflate gz ≡ some content)
          (gzip_from mz t (length content) st)
  unfolding gzip_from
  gzip_init-Ends t content none r e = tt
  gzip_init-Ends t content (some st) r e =
      let p : Progress mz = record {
        stream = st;
        crc = mz.crc32 0 [];
        offset = 0;
        output = gzip_header;
      } in
      let Q : Bytes → Type 0 = λ gz. gunzip mz.crc32 codec.inflate gz ≡ some content in
      let none_read : Read mz codec content p = record {
        input = [];
        wrote = ([], (refl, codec.starts st e));
        split = refl;
        checked = sym (codec.crc32-append 0 [] []);
      } in
      and_then-Ends (Done mz codec content) Q (read_loop mz (length content) t (length content) p) _
        (read_loop-Ends mz codec (length content) t content p r none_read (omega arith))
        (λ q done.
          and_then-Ends (Whole mz codec content) Q
            (finish mz (suc (mz.work q.stream)) q.stream q.output) _
            (finish-Ends mz codec (suc (mz.work q.stream)) q.stream content q.output done.0
              (omega arith))
            (λ output whole. rw whole.1.0 (gunzip_lem content whole.0 q.crc whole.1.1 done.1)))

  -- If the file still has the content that it had when it was opened, the loops of `compress` come to an end; if
  -- they get through, what they have written is a gzip file with this content, whose CRC and size are right.
  pub gzip_from-Ends :
      (t : Attempt) (content : Bytes)
      → Reads t content
      → Ends
          (λ gz. gunzip mz.crc32 codec.inflate gz ≡ some content)
          (gzip_from mz t (length content) mz.init)
  gzip_from-Ends t content r = gzip_init-Ends t content mz.init r refl
