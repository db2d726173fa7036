-- ===== src/Ota.antt =====
-- auto-targeting/crates/commander/src/ota.rs: the update of the program over the air. What the server
-- and the file system answer is an argument; texts are lists of characters.
pub mod Install
mod Tests
use autotargeting.Base.{
  ℕ, zero, suc, ◌+◌, ◌*◌, ◌/◌, ◌%◌, ◌^◌, Bool, true, false, Option, none, some, List, [], ◌∷◌, ◌++◌,
  if◌then◌else◌, ltb, ◌==◌, u64, Result, ok, err, Fallible,
}

abbrev pub Text : Type 0
Text = List ℕ

abbrev pub Binary : Type 0
Binary = List ℕ

pub data OtaError : Type 0 where
  http : OtaError
  checksum_mismatch : (expected actual : Text) → OtaError
  io : OtaError
  version_check : OtaError

pub record UpdateInfo : Type 0 where
  pub version : Text
  pub binary_url : Text
  pub checksum_sha256 : Text
  pub release_notes : Option Text

pub record OtaConfig : Type 0 where
  pub server_url : Text
  pub current_version : Text
  pub check_interval_secs : ℕ
  pub enabled : Bool

-- The three files that an installation touches.
pub record Files : Type 0 where
  pub binary : Option Binary
  pub backup : Option Binary
  pub temp : Option Binary

-- What the server answers to the request for its version, and how it went.
pub data Reply : Type 0 where
  unreachable : Reply
  refused : Reply  -- a status that is no success
  garbled : Reply
  replied : UpdateInfo → Reply

-- What an installation meets: the download, and how each call of the file system ends. A copy or a
-- write that fails leaves something behind.
pub record Outside : Type 0 where
  pub download : Option Binary
  pub copy_fails : Option (Option Binary)
  pub create_works : Bool
  pub write_fails : Option Binary
  pub sync_works : Bool
  pub mode_works : Bool
  pub rename_works : Bool

-- The comparison of strings.
unfoldable pub greater : Text → Text → Bool
greater [] t = false
greater (x ∷ s) [] = true
greater (x ∷ s) (y ∷ t) =
    let rest = greater s t in if ltb y x then true else if x == y then rest else false

unfoldable pub text_eq : Text → Text → Bool
text_eq [] [] = true
text_eq (x ∷ s) (y ∷ t) = let rest = text_eq s t in if x == y then rest else false
text_eq _ _ = false

unfoldable pub hash_from : ℕ → Binary → ℕ
hash_from hash [] = hash
hash_from hash (byte ∷ data_) = hash_from (u64 (u64 (hash * 31) + byte)) data_

-- A hexadecimal digit as its character.
unfoldable pub digit : ℕ → ℕ
digit n = if ltb n 10 then 48 + n else 87 + n

-- The last `n` hexadecimal digits.
unfoldable pub hex : ℕ → ℕ → Text
unfolding digit
hex zero x = []
hex (suc n) x = hex n (x / 16) ++ (digit (x % 16) ∷ [])

-- `{hash:016x}`; the value has 64 bits.
unfoldable pub sha256_hex : Binary → Text
unfolding hash_from hex
sha256_hex data_ = hex 16 (hash_from 0 data_)

unfoldable pub check_for_update : OtaConfig → Reply → Result OtaError (Option UpdateInfo)
unfolding greater
check_for_update c unreachable = if c.enabled then err http else ok none
check_for_update c refused = if c.enabled then err version_check else ok none
check_for_update c garbled = if c.enabled then err version_check else ok none
check_for_update c (replied info) =
    if c.enabled
    then ok (if greater info.version c.current_version then some info else none)
    else ok none

-- From the temporary file on.
unfoldable pub replace : Outside → Binary → Files → Fallible Files OtaError Unit
replace o new files =
    if o.create_works
    then elim o.write_fails [
      | some part ↦ (record files { temp = some part }, err io)
      | none ↦
          let written = record files { temp = some new } in
          if o.sync_works
          then if o.mode_works
            then if o.rename_works
              then (record written { binary = some new; temp = none }, ok tt)
              else (written, err io)
            else (written, err io)
          else (written, err io)
    ]
    else (files, err io)

unfoldable pub back_up : Outside → Files → Fallible Files OtaError Unit
back_up o files = elim files.binary [
  | none ↦ (files, ok tt)
  | some old ↦ elim o.copy_fails [
    | some left ↦ (record files { backup = left }, err io)
    | none ↦ (record files { backup = some old }, ok tt)
  ]
]

unfoldable pub install : Outside → Binary → Files → Fallible Files OtaError Unit
unfolding back_up replace
install o new files =
    let (saved, copied) = back_up o files in
    elim copied [ err e ↦ (saved, err e) | ok _ ↦ replace o new saved ]

unfoldable pub download_and_install : Outside → UpdateInfo → Files → Fallible Files OtaError Unit
unfolding install sha256_hex text_eq
download_and_install o info files = elim o.download [
  | none ↦ (files, err http)
  | some new ↦
      let actual = sha256_hex new in
      if text_eq actual info.checksum_sha256
      then install o new files
      else (files, err (checksum_mismatch info.checksum_sha256 actual))
]

unfoldable pub check_and_update : OtaConfig → Reply → Outside → Files → Fallible Files OtaError Bool
unfolding check_for_update download_and_install
check_and_update c reply o files = elim (check_for_update c reply) [
  | err e ↦ (files, err e)
  | ok none ↦ (files, ok false)
  | ok (some info) ↦
      let (files', installed) = download_and_install o info files in
      elim installed [ err e ↦ (files', err e) | ok _ ↦ (files', ok true) ]
]
