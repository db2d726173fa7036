-- ===== src/Watchdogs.antt =====
-- auto-targeting/crates/commander/src/watchdogs.rs: the watchdog registry. The mutex is held for the
-- whole of each method, so that a method is one step; a reading of `Utc::now` is the argument `now`.
pub mod Expiry
pub mod History
mod Tests
use autotargeting.Base.{
  ℕ, ◌+◌, ◌*◌, ◌/◌, ◌≡◌, ◌↔◌, Bool, true, Option, none, some, List, [], ◌∷◌, arith, u64, ltb, ◌==◌,
  if◌then◌else◌, Key, Map, insert, modify, select, map_values,
}
use autotargeting.Types.{nanos_per_milli, age_ms}

pub data WatchdogId : Type 0 where
  video_loop inference_loop tracking_loop command_loop fc_heartbeat : WatchdogId

pub data WatchdogAction : Type 0 where
  degrade abort : WatchdogAction

abbrev discriminant : WatchdogId → ℕ
discriminant video_loop = 0
discriminant inference_loop = 1
discriminant tracking_loop = 2
discriminant command_loop = 3
discriminant fc_heartbeat = 4

abbrev pub id_eq : WatchdogId → WatchdogId → Bool
id_eq a b = discriminant a == discriminant b

pub id_eq_iff : (a b : WatchdogId) → (id_eq a b ≡ true) ↔ (a ≡ b)
id_eq_iff a b = ground arith

instance abbrev pub id_key : Key WatchdogId
id_key = record { beq = id_eq; beq_iff = id_eq_iff }

pub record WatchdogConfig : Type 0 where
  pub timeout : ℕ  -- nanoseconds
  pub on_expiry : WatchdogAction

pub record WatchdogEntry : Type 0 where
  pub last_fed : ℕ
  pub config : WatchdogConfig
  pub expiry_count : ℕ  -- u64
  pub feed_count : ℕ  -- u64

-- Its `id` is the key under which `snapshot` lists it.
pub record WatchdogSnapshot : Type 0 where
  pub elapsed_ms : ℕ
  pub timeout_ms : ℕ
  pub expired : Bool
  pub expiry_count : ℕ
  pub feed_count : ℕ

abbrev pub WatchdogRegistry : Type 0
WatchdogRegistry = Map WatchdogId WatchdogEntry

-- `Duration::from_millis`, and `as_millis() as u64` back.
abbrev pub from_millis : ℕ → ℕ
from_millis ms = ms * nanos_per_milli

abbrev pub as_millis : ℕ → ℕ
as_millis d = u64 (d / nanos_per_milli)

unfoldable pub new : WatchdogRegistry
new = []

unfoldable pub register : WatchdogRegistry → WatchdogId → WatchdogConfig → ℕ → WatchdogRegistry
register inner id config now =
    insert id (record { last_fed = now; config = config; expiry_count = 0; feed_count = 0 }) inner

abbrev pub fed : ℕ → WatchdogEntry → WatchdogEntry
fed now entry = record entry { last_fed = now; feed_count = u64 (entry.feed_count + 1) }

unfoldable pub feed : WatchdogRegistry → WatchdogId → ℕ → WatchdogRegistry
feed inner id now = modify id (fed now) inner

-- The body of the loop of `check_expired`: the action to push, if any.
unfoldable pub expired_action : ℕ → WatchdogEntry → Option WatchdogAction
expired_action now entry =
    if ltb (as_millis entry.config.timeout) (age_ms now entry.last_fed)
    then some entry.config.on_expiry
    else none

unfoldable pub check_expired : WatchdogRegistry → ℕ → List (WatchdogId × WatchdogAction)
unfolding expired_action
check_expired inner now = select (expired_action now) inner

unfoldable pub snapshot_entry : ℕ → WatchdogEntry → WatchdogSnapshot
snapshot_entry now entry =
    let elapsed = age_ms now entry.last_fed in
    record {
      elapsed_ms = elapsed;
      timeout_ms = as_millis entry.config.timeout;
      expired = ltb (as_millis entry.config.timeout) elapsed;
      expiry_count = entry.expiry_count;
      feed_count = entry.feed_count;
    }

unfoldable pub snapshot : WatchdogRegistry → ℕ → List (WatchdogId × WatchdogSnapshot)
unfolding snapshot_entry
snapshot inner now = map_values (snapshot_entry now) inner

abbrev pub counted : WatchdogEntry → WatchdogEntry
counted entry = record entry { expiry_count = u64 (entry.expiry_count + 1) }

unfoldable pub note_expiry_processed : WatchdogRegistry → WatchdogId → WatchdogRegistry
note_expiry_processed inner id = modify id counted inner
