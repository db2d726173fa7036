-- ===== src/Ota/Install.antt =====
-- An update is installed as a whole or not at all.
use autotargeting.Base.{
  ◌≡◌, ◌≢◌, ◌⊎◌, inl, inr, refl, true, none, some, Result, ok, arith, Bool-cases, Option-cases,
}
use autotargeting.Ota.{
  Binary, OtaError, UpdateInfo, OtaConfig, Files, Reply, unreachable, refused, garbled, replied,
  Outside, greater, text_eq, sha256_hex, check_for_update, replace, back_up, install,
  download_and_install, check_and_update,
}

-- What a call to the files that may fail does for `new`: all of it, or nothing to the program.
abbrev pub IsWhole : Binary → Files → Files × Result OtaError Unit → Type 0
IsWhole new files (files', r) =
    ((r ≡ ok tt)
      × (files'.binary ≡ some new)
      × (files'.temp ≡ none)
      × ((old : Binary) → files.binary ≡ some old → files'.backup ≡ some old))
    ⊎ ((r ≢ ok tt) × (files'.binary ≡ files.binary))

replace-binary :
    (o : Outside) (new : Binary) (files : Files)
    → let (files', r) = replace o new files in
      ((r ≡ ok tt)
        × (files'.binary ≡ some new)
        × (files'.temp ≡ none)
        × (files'.backup ≡ files.backup))
      ⊎ ((r ≢ ok tt) × (files'.binary ≡ files.binary))
unfolding replace
replace-binary o new files = ground arith

install-IsWhole :
    (o : Outside) (new : Binary) (files : Files) → IsWhole new files (install o new files)
unfolding install back_up
install-IsWhole o new files =
    ground (arith, replace-binary o new files, replace-binary o new (back_up o files).0)

-- A check that reports an update was enabled, found a version that is greater as a string and a program
-- whose 64-bit hash (what `sha256_hex` computes) is the checksum of the answer, and has put that program
-- in place, whole, with a copy of the one before. Every other check, on every path, has left the program
-- as it was.
pub check_and_update-IsWhole :
    (c : OtaConfig) (reply : Reply) (o : Outside) (files : Files)
    → let (files', r) = check_and_update c reply o files in
      ((r ≡ ok true)
        × (info : UpdateInfo) × (new : Binary) × (c.enabled ≡ true)
        × (reply ≡ replied info)
        × (greater info.version c.current_version ≡ true)
        × (o.download ≡ some new)
        × (text_eq (sha256_hex new) info.checksum_sha256 ≡ true)
        × (files'.binary ≡ some new)
        × (files'.temp ≡ none)
        × ((old : Binary) → files.binary ≡ some old → files'.backup ≡ some old))
      ⊎ ((r ≢ ok true) × (files'.binary ≡ files.binary))
unfolding check_and_update check_for_update download_and_install
check_and_update-IsWhole c unreachable o files = inr (ground arith)
check_and_update-IsWhole c refused o files = inr (ground arith)
check_and_update-IsWhole c garbled o files = inr (ground arith)
check_and_update-IsWhole c (replied info) o files = elim (Bool-cases (c.enabled)) [
  | inr off ↦ inr (ground (arith, off))
  | inl on ↦ elim (Bool-cases (greater info.version c.current_version)) [
    | inr old ↦ inr (ground (arith, on, old))
    | inl newer ↦ elim (Option-cases o.download) [
      | inl lost ↦ inr (ground (arith, on, newer, lost))
      | inr (new, got) ↦ elim (Bool-cases (text_eq (sha256_hex new) info.checksum_sha256)) [
        | inr wrong ↦ inr (ground (arith, on, newer, got, wrong))
        | inl right ↦ elim (install-IsWhole o new files) [
          | inr (failed, same) ↦ inr (ground (arith, on, newer, got, right, failed, same))
          | inl (done, placed, moved, saved) ↦ inl (
            ground (arith, on, newer, got, right, done),
            info,
            new,
            on,
            refl,
            newer,
            got,
            right,
            ground (arith, on, newer, got, right, done, placed),
            ground (arith, on, newer, got, right, done, moved),
            λ old here. ground (arith, on, newer, got, right, done, saved old here),
          )
        ]
      ]
    ]
  ]
]
