-- ===== src/Shmem/Ring/Log.antt =====
-- The frames that the ring of auto-targeting/crates/shmem-buffer/src/ring.rs keeps, by the answers of
-- `publish`.
use autotargeting.Base.{
  ℕ, ◌+◌, ◌%◌, ◌≤◌, ◌<◌, ◌≡◌, ◌⊎◌, inl, inr, List, [], ◌∷◌, ok, err, Result, arith, ◌==◌,
  if◌then◌else◌,
}
use autotargeting.Shmem.Config.{RingError}
use autotargeting.Shmem.Ring.{Ring, Bytes, PublishResult, published, dropped, publish, write_frame}
use autotargeting.Shmem.Ring.Producer.{IsWindowed, publish_all, publish-IsWindowed, mod-ne}

-- The bytes and the time of the frame with a number.
abbrev pub Log : Type 0
Log = ℕ → Bytes × ℕ

-- What the producer notes of an answer.
abbrev pub noted : Result RingError PublishResult → Bytes × ℕ → Log → Log
noted (ok (published id)) f log = λ n. if n == id then f else log n
noted (ok (dropped why)) f log = log
noted (err e) f log = log

unfoldable pub logged : Ring → Log → List (Bytes × ℕ) → Log
logged r log [] = log
logged r log ((d, ts) ∷ rest) = let p = publish r d ts in logged p.0 (noted p.1 (d, ts) log) rest

-- The last `capacity` numbers stand in their slots, with the time and the bytes of the log.
pub record IsLogged (r : Ring) (log : Log) : Type 0 where
  pub windowed : IsWindowed r
  pub timed :
      (n : ℕ)
      → 0 < n
      → n ≤ r.write_seq
      → r.write_seq < n + r.capacity
      → (r.slots (n % r.capacity)).ts_ns ≡ (log n).1
  pub copied :
      (n k : ℕ)
      → 0 < n
      → n ≤ r.write_seq
      → r.write_seq < n + r.capacity
      → k < r.frame_size
      → (r.slots (n % r.capacity)).pixels k ≡ (log n).0.at k

outcome :
    (r : Ring) (d : Bytes) (ts : ℕ) (log : Log)
    → let (r', result) = publish r d ts in
      ((r' ≡ write_frame r d ts (r.write_seq + 1) ((r.write_seq + 1) % r.capacity))
        × (result ≡ ok (published (r.write_seq + 1))))
      ⊎ ((r'.slots ≡ r.slots)
          × (r'.write_seq ≡ r.write_seq)
          × (r'.capacity ≡ r.capacity)
          × (r'.frame_size ≡ r.frame_size)
          × (noted result (d, ts) log ≡ log))
unfolding publish
outcome r d ts log = ground arith

write_frame-timed :
    (r : Ring) (d : Bytes) (ts : ℕ) (log : Log) (n : ℕ)
    → IsLogged r log
    → let id = r.write_seq + 1 in
      let r' = write_frame r d ts id (id % r.capacity) in
      0 < n
      → n ≤ r'.write_seq
      → r'.write_seq < n + r.capacity
      → (r'.slots (n % r.capacity)).ts_ns ≡ (noted (ok (published id)) (d, ts) log n).1
unfolding write_frame
write_frame-timed r d ts log n w h k l =
    ground (arith, mod-ne n (r.write_seq + 1) r.capacity, w.timed n h)

write_frame-copied :
    (r : Ring) (d : Bytes) (ts : ℕ) (log : Log) (n k : ℕ)
    → IsLogged r log
    → let id = r.write_seq + 1 in
      let r' = write_frame r d ts id (id % r.capacity) in
      0 < n
      → n ≤ r'.write_seq
      → r'.write_seq < n + r.capacity
      → k < r.frame_size
      → (r'.slots (n % r.capacity)).pixels k ≡ (noted (ok (published id)) (d, ts) log n).0.at k
unfolding write_frame
write_frame-copied r d ts log n k w h p l q =
    ground (arith, mod-ne n (r.write_seq + 1) r.capacity, w.copied n k h)

publish-IsLogged :
    (r : Ring) (d : Bytes) (ts : ℕ) (log : Log)
    → IsLogged r log
    → IsLogged (publish r d ts).0 (noted (publish r d ts).1 (d, ts) log)
unfolding write_frame
publish-IsLogged r d ts log w =
    let windowed = publish-IsWindowed r d ts w.windowed in
    elim (outcome r d ts log) [
      | inl (stored, told) ↦ record {
        windowed = windowed;
        timed = rw (stored, told) (λ n. write_frame-timed r d ts log n w);
        copied = rw (stored, told) (λ n k. write_frame-copied r d ts log n k w);
      }
      | inr (slots, seq, capacity, size, same) ↦ record {
        windowed = windowed;
        timed = rw (slots, seq, capacity, same) w.timed;
        copied = rw (slots, seq, capacity, size, same) w.copied;
      }
    ]

-- On a ring whose last frames are those of a log, whatever frames are offered one after another, the
-- last `capacity` of the numbers that `publish` has answered stand in their slots, each with the time
-- and, in its first `frame_size` bytes, the content of the frame for which it was answered, or that the
-- log had before.
pub publish_all-IsLogged :
    (r : Ring) (log : Log) (offers : List (Bytes × ℕ))
    → IsLogged r log
    → IsLogged (publish_all r offers) (logged r log offers)
unfolding publish_all logged
publish_all-IsLogged r log [] w = w
publish_all-IsLogged r log ((d, ts) ∷ rest) w =
    publish_all-IsLogged (publish r d ts).0 (noted (publish r d ts).1 (d, ts) log) rest
      (publish-IsLogged r d ts log w)
