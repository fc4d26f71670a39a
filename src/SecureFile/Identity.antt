-- ===== src/SecureFile/Identity.antt =====
-- src/secure_file.cpp: what the identities that `inspectReadFile` gives say of a file.
use fastdl_mm.Prelude.{
  ℕ, ◌<◌, ◌≡◌, sym, ap, ◌∙◌, true, not, ◌||◌, Option, none, some, arith, guarded_some,
}
use fastdl_mm.Prelude.Int.{pos}
use fastdl_mm.Server.{OpenedFileInfo}
use fastdl_mm.SecureFile.{modified_identity, is_negative, same_file, inspect_posix, Stat}

-- A time of modification from 1970 to 2554, which fits in 64 bits in nanoseconds.
pub record IsTime (s : Stat) : Type 0 where
  pub whole : ℕ
  pub seconds : s.seconds ≡ pos whole
  pub fits : whole < 18446744073
  pub fraction : s.nanoseconds < 1000000000

modified_identity_lem :
    (a m b n : ℕ)
    → a < 18446744073
    → m < 1000000000
    → b < 18446744073
    → n < 1000000000
    → modified_identity (pos a) m ≡ modified_identity (pos b) n
    → (a ≡ b) × (m ≡ n)
unfolding modified_identity
modified_identity_lem a m b n h1 h2 h3 h4 e =
    (omega (arith, h1, h2, h3, h4, e), omega (arith, h1, h2, h3, h4, e))

abbrev identity_of : Option OpenedFileInfo → ℕ
identity_of none = 0
identity_of (some info) = info.modified_identity

inspected :
    (opened current : Stat) (info : OpenedFileInfo)
    → inspect_posix (some opened) (some current) ≡ some info
    → (same_file opened current ≡ true)
      × (info.modified_identity ≡ modified_identity opened.seconds opened.nanoseconds)
unfolding inspect_posix
inspected opened current info h =
    let parts =
      guarded_some
        (not opened.is_regular || (not (same_file opened current) || is_negative opened.size)) _
        info h in
    (ground (arith, parts.0), sym (ap identity_of parts.1))

-- Two inspections that succeed were each of the file that stood at the path then; when the files' times lie between 1970
-- and 2554 and the inspections give the same modification identity, the times are the same to the nanosecond.
pub inspect_posix_same :
    (opened current opened_later current_later : Stat) (info later : OpenedFileInfo)
    → IsTime opened
    → IsTime opened_later
    → inspect_posix (some opened) (some current) ≡ some info
    → inspect_posix (some opened_later) (some current_later) ≡ some later
    → info.modified_identity ≡ later.modified_identity
    → (opened.seconds ≡ opened_later.seconds)
      × ((opened.nanoseconds ≡ opened_later.nanoseconds)
          × ((same_file opened current ≡ true) × (same_file opened_later current_later ≡ true)))
inspect_posix_same opened current opened_later current_later info later t u h k e =
    let first = inspected opened current info h in
    let second = inspected opened_later current_later later k in
    let identities : modified_identity (pos t.whole) opened.nanoseconds
        ≡ modified_identity (pos u.whole) opened_later.nanoseconds =
      ap (λ s. modified_identity s opened.nanoseconds) (sym t.seconds)
      ∙ sym first.1
      ∙ e
      ∙ second.1
      ∙ ap (λ s. modified_identity s opened_later.nanoseconds) u.seconds in
    let same =
      modified_identity_lem t.whole opened.nanoseconds u.whole opened_later.nanoseconds t.fits
        t.fraction u.fits u.fraction identities in
    (t.seconds ∙ ap pos same.0 ∙ sym u.seconds, (same.1, (first.0, second.0)))
