-- ===== src/Ota/Tests.antt =====
-- The update at work.
use autotargeting.Base.{◌≡◌, ◌≢◌, ◌⊎◌, refl, true, false, none, some, [], ◌∷◌, ok}
use autotargeting.Ota.{
  Text, Binary, UpdateInfo, OtaConfig, Files, replied, Outside, greater, text_eq, sha256_hex,
  check_and_update,
}
use autotargeting.Ota.Install.{check_and_update-IsWhole}

-- "0.9.0" and "0.10.0".
abbrev v_0_9 : Text
v_0_9 = 48 ∷ 46 ∷ 57 ∷ 46 ∷ 48 ∷ []

abbrev v_0_10 : Text
v_0_10 = 48 ∷ 46 ∷ 49 ∷ 48 ∷ 46 ∷ 48 ∷ []

-- Version 0.10.0 is taken for an older one.
not_newer : greater v_0_10 v_0_9 ≡ false
unfolding greater
not_newer = refl

-- Two programs with one checksum.
same_checksum : text_eq (sha256_hex (1 ∷ 0 ∷ [])) (sha256_hex (31 ∷ [])) ≡ true
unfolding text_eq sha256_hex
same_checksum = refl

abbrev settings : OtaConfig
settings = record {
  server_url = [];
  current_version = v_0_10;
  check_interval_secs = 3600;
  enabled = true;
}

abbrev release : UpdateInfo
release = record {
  version = v_0_9;
  binary_url = [];
  checksum_sha256 =
      48 ∷ 48 ∷ 48 ∷ 48 ∷ 48 ∷ 48 ∷ 48 ∷ 48 ∷ 48 ∷ 48 ∷ 48 ∷ 48 ∷ 48 ∷ 48 ∷ 49 ∷ 102 ∷ [];
  release_notes = none;
}

abbrev working : Outside
working = record {
  download = some (1 ∷ 0 ∷ []);
  copy_fails = none;
  create_works = true;
  write_fails = none;
  sync_works = true;
  mode_works = true;
  rename_works = true;
}

abbrev disk : Files
disk = record { binary = some (7 ∷ []); backup = none; temp = none }

abbrev updated : Files
updated = record { binary = some (1 ∷ 0 ∷ []); backup = some (7 ∷ []); temp = none }

installs : check_and_update settings (replied release) working disk ≡ (updated, ok true)
unfolding check_and_update
installs = refl

check_and_update-IsWhole_example :
    let (files', r) = check_and_update settings (replied release) working disk in
    ((r ≡ ok true)
      × (info : UpdateInfo) × (new : Binary) × (true ≡ true)
      × (replied release ≡ replied info)
      × (greater info.version v_0_10 ≡ true)
      × (some (1 ∷ 0 ∷ []) ≡ some new)
      × (text_eq (sha256_hex new) info.checksum_sha256 ≡ true)
      × (files'.binary ≡ some new)
      × (files'.temp ≡ none)
      × ((old : Binary) → disk.binary ≡ some old → files'.backup ≡ some old))
    ⊎ ((r ≢ ok true) × (files'.binary ≡ disk.binary))
check_and_update-IsWhole_example = check_and_update-IsWhole settings (replied release) working disk
