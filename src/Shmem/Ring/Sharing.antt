-- ===== src/Shmem/Ring/Sharing.antt =====
-- The reaper of auto-targeting/crates/shmem-buffer/src/ring.rs at a slot that readers have shared.
use native.Mathlib.Nat.{mod-eq_of_lt}
use autotargeting.Base.{
  ℕ, zero, suc, ◌+◌, ◌-◌, ◌≤◌, ◌<◌, ◌≡◌, ◌≢◌, ◌↔◌, refl, true, false, none, List, [], ◌∷◌, length,
  ◌==◌, arith,
}
use autotargeting.Shmem.Layout.{writer_lock}
use autotargeting.Shmem.Ring.{
  Ring, FrameGuard, try_acquire, acquire_rounds, validate_taken, drop_guard, taken,
}
use autotargeting.Shmem.Ring.Reaper.{
  System, recover_stale_slots, is_cleared, swept, recover_from-slots, pid_alive,
}

-- Processes that take the slot one after another, whatever frame is in it.
unfoldable pub take_all : Ring → ℕ → List ℕ → Ring
take_all r idx [] = r
take_all r idx (p ∷ ps) = take_all (try_acquire r idx none p).0 idx ps

-- `n` of the guards on the slot are dropped.
unfoldable pub drop_all : ℕ → Ring → FrameGuard → Ring
drop_all zero r g = r
drop_all (suc n) r g = drop_all n (drop_guard r g) g

-- A slot with `n` guards, last taken by the process, whose frame has this time.
record IsShared (r : Ring) (idx n pid ts : ℕ) : Type 0 where
  counted : (r.slots idx).ref_count ≡ n
  noted : (r.slots idx).holder_pid ≡ pid
  timed : (r.slots idx).ts_ns ≡ ts
  inside : idx < r.capacity

-- A slot that is not locked is taken.
acquire_rounds-taken :
    (n : ℕ) (r : Ring) (idx pid : ℕ)
    → ((r.slots idx).ref_count == writer_lock) ≡ false
    → let r' = (acquire_rounds (suc n) r idx none pid).0 in
      (r'.slots idx
        ≡ record (r.slots idx) { ref_count = taken (r.slots idx).ref_count; holder_pid = pid })
      × (r'.header ≡ r.header)
unfolding acquire_rounds validate_taken
acquire_rounds-taken n r idx pid free =
    let same : (idx == idx) ≡ true = ground arith in rw (free, same) (refl, refl)

try_acquire-taken :
    (r : Ring) (idx pid : ℕ)
    → idx < r.capacity
    → ((r.slots idx).ref_count == writer_lock) ≡ false
    → let r' = (try_acquire r idx none pid).0 in
      (r'.slots idx
        ≡ record (r.slots idx) { ref_count = taken (r.slots idx).ref_count; holder_pid = pid })
      × (r'.header ≡ r.header)
unfolding try_acquire
try_acquire-taken r idx pid h free = rw (mod-eq_of_lt h) (acquire_rounds-taken 63 r idx pid free)

try_acquire-IsShared :
    (r : Ring) (idx n q pid ts : ℕ)
    → n + 1 < writer_lock
    → IsShared r idx n q ts
    → IsShared (try_acquire r idx none pid).0 idx (n + 1) pid ts
try_acquire-IsShared r idx n q pid ts small s =
    let c = s.counted in
    let t = try_acquire-taken r idx pid s.inside (ground (arith, c)) in
    record {
      counted = rw t.0 (ground (arith, c));
      noted = rw t.0 refl;
      timed = rw t.0 s.timed;
      inside = rw t.1 s.inside;
    }

take_all-IsShared :
    (r : Ring) (idx n q ts : ℕ) (ps : List ℕ)
    → n + length ps < writer_lock
    → IsShared r idx n q ts
    → (p : ℕ) × IsShared (take_all r idx ps) idx (n + length ps) p ts
unfolding take_all
take_all-IsShared r idx n q ts [] small s = let e : n + 0 ≡ n = omega arith in (q, rw e s)
take_all-IsShared r idx n q ts (p ∷ ps) small s =
    let e : n + suc (length ps) ≡ n + 1 + length ps = omega arith in
    rw e (
      take_all-IsShared (try_acquire r idx none p).0 idx (n + 1) p ts ps (omega arith)
        (try_acquire-IsShared r idx n q p ts (omega arith) s))

drop_guard-IsShared :
    (r : Ring) (idx n pid ts : ℕ) (g : FrameGuard)
    → g.slot_idx ≡ idx
    → 0 < n
    → n < writer_lock
    → IsShared r idx n pid ts
    → IsShared (drop_guard r g) idx (n - 1) pid ts
unfolding drop_guard
drop_guard-IsShared r idx n pid ts g here pos small s =
    let c = s.counted in
    let same : (idx == idx) ≡ true = ground arith in
    record {
      counted = rw (here, same, c) (omega arith);
      noted = rw (here, same) s.noted;
      timed = rw (here, same) s.timed;
      inside = s.inside;
    }

drop_all-IsShared :
    (k : ℕ) (r : Ring) (idx n pid ts : ℕ) (g : FrameGuard)
    → g.slot_idx ≡ idx
    → k ≤ n
    → n < writer_lock
    → IsShared r idx n pid ts
    → IsShared (drop_all k r g) idx (n - k) pid ts
unfolding drop_all
drop_all-IsShared zero r idx n pid ts g here le small s = let e : n - 0 ≡ n = omega arith in rw e s
drop_all-IsShared (suc k) r idx n pid ts g here le small s =
    let e : n - suc k ≡ n - 1 - k = omega arith in
    rw e (
      drop_all-IsShared k (drop_guard r g) idx (n - 1) pid ts g here (omega arith) (omega arith)
        (drop_guard-IsShared r idx n pid ts g here (omega arith) small s))

-- The reaper at a slot that has guards.
swept-IsShared :
    (sys : System) (r : Ring) (age idx n pid ts : ℕ)
    → 0 < n
    → n < writer_lock
    → IsShared r idx n pid ts
    → ((swept sys age r.producer_pid (r.slots idx)).ref_count ≡ 0) ↔ (
        (n ≡ 1)
        × (pid ≢ 0)
        × (pid ≢ sys.own_pid)
        × (sys.exists_pid pid ≡ false)
        × (age < sys.now_ns - ts))
unfolding is_cleared pid_alive
swept-IsShared sys r age idx n pid ts pos small s =
    let c = s.counted in
    let q = s.noted in
    let t = s.timed in (λ h. ground (arith, c, q, t), λ h. ground (arith, c, q, t))

-- A free slot is taken by the processes `ps` one after another and then by `pid`, whatever frame is in
-- it, and `k` of their guards, but not all, are dropped. The reaper then frees the slot exactly when one
-- guard is left, `pid` is not 0 and not the process of the reaper and does not exist any more, and the
-- frame is older than the limit: whose guard is left plays no part. The guards are fewer than the value
-- that locks a slot.
pub recover_stale_slots-shared :
    (sys : System) (r : Ring) (age idx pid k : ℕ) (ps : List ℕ) (g : FrameGuard)
    → idx < r.capacity
    → (r.slots idx).ref_count ≡ 0
    → length ps + 1 < writer_lock
    → k ≤ length ps
    → g.slot_idx ≡ idx
    → let taken_last = (try_acquire (take_all r idx ps) idx none pid).0 in
      let left = drop_all k taken_last g in
      (((recover_stale_slots sys left age).0.slots idx).ref_count ≡ 0) ↔ (
        (length ps ≡ k)
        × (pid ≢ 0)
        × (pid ≢ sys.own_pid)
        × (sys.exists_pid pid ≡ false)
        × (age < sys.now_ns - (r.slots idx).ts_ns))
unfolding recover_stale_slots
recover_stale_slots-shared sys r age idx pid k ps g inside free small le here =
    let ts = (r.slots idx).ts_ns in
    let fresh : IsShared r idx 0 (r.slots idx).holder_pid ts = record {
      counted = free;
      noted = refl;
      timed = refl;
      inside = inside;
    } in
    let all = take_all-IsShared r idx 0 (r.slots idx).holder_pid ts ps (omega arith) fresh in
    let last =
      try_acquire-IsShared (take_all r idx ps) idx (0 + length ps) all.0 pid ts (omega arith)
        all.1 in
    let shared =
      drop_all-IsShared k (try_acquire (take_all r idx ps) idx none pid).0 idx (0 + length ps + 1)
        pid ts g here (omega arith) (omega arith) last in
    let left = drop_all k (try_acquire (take_all r idx ps) idx none pid).0 g in
    let after =
      recover_from-slots sys age left.capacity 0 idx (left, 0) (omega arith)
        (omega (arith, shared.inside)) in
    let verdict =
      swept-IsShared sys left age idx (0 + length ps + 1 - k) pid ts (omega arith) (omega arith)
        shared in
    rw after (
      λ h. let v = verdict.0 h in (omega (arith, v.0), v.1, v.2, v.3, v.4),
      λ h. verdict.1 (omega (arith, h.0), h.1, h.2, h.3, h.4),
    )
