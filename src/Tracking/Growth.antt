-- ===== src/Tracking/Growth.antt =====
-- The calls of the multi-target tracker: numbers are never used twice, and there are not too many
-- tracks.
use autotargeting.Base.{
  ℕ, ◌+◌, ◌≤◌, ◌<◌, ◌^◌, ◌≡◌, ◌≢◌, ◌⊎◌, inl, inr, refl, max, Bool, true, false, ◌||◌, Option, some,
  List, [], ◌∷◌, if◌then◌else◌, leb, ◌==◌, u64, length, Map, nat_key, select, map_values, arith,
  Bool-cases, Option-cases, length-insert-le, insert-IsDistinct, lookup-insert,
}
use autotargeting.Floats.{Float}
use autotargeting.Detections.{Detection}
use autotargeting.Assignment.{solve}
use autotargeting.Tracking.Multi.{
  Track, MultiTargetTracker, set_tracks, new_track, predict_only, create_track, create_from,
  remove_lost_tracks, stays, cost_matrix, assigned, update,
}
use autotargeting.Tracking.Numbering.{
  IsNumbered, Grows, Kept, Keyed-insert, Keyed-mono, Kept-select, Kept-map_values, stays-same,
  predict-id, aged-Kept,
}

module _ {F : Type 0} where
  Grows-refl : (t : MultiTargetTracker F) → IsNumbered t → Grows t t
  Grows-refl t h = record { numbered = h; onward = omega arith; gone = λ id _ h. h }

  Grows-trans : (a b c : MultiTargetTracker F) → Grows a b → Grows b c → Grows a c
  Grows-trans a b c g h = record {
    numbered = h.numbered;
    onward = omega (arith, g.onward, h.onward);
    gone = λ id less none_before.
        h.gone id (omega (arith, less, g.onward)) (g.gone id less none_before);
  }

  Grows-Kept :
      (t : MultiTargetTracker F) (tracks : Map ℕ (Track F))
      → Kept t.next_id t.tracks tracks
      → Grows t (set_tracks tracks t)
  Grows-Kept t tracks (distinct, keyed, gone, few) = record {
    numbered = (distinct, keyed);
    onward = omega arith;
    gone = λ id _ none_before. gone id none_before;
  }

module _ {F : Type 0} ⦃f : Float F⦄ where
  new_track-id : (id : ℕ) (d : Detection F) (now : ℕ) → (new_track id d now).id ≡ id
  unfolding new_track
  new_track-id id d now = refl

  create_track-Grows :
      (d : Detection F) (now : ℕ) (t : MultiTargetTracker F)
      → IsNumbered t
      → t.next_id + 1 < 2 ^ 64
      → let (created, id) = create_track d now t in
        Grows t created
        × (created.next_id ≡ t.next_id + 1)
        × (created.max_tracks ≡ t.max_tracks)
        × (length created.tracks ≤ length t.tracks + 1)
  unfolding create_track
  create_track-Grows d now t (distinct, keyed) small =
      let track = new_track t.next_id d now in
      let wider = Keyed-mono t.next_id (t.next_id + 1) t.tracks (omega arith) keyed in
      let more =
        Keyed-insert (t.next_id + 1) t.next_id track t.tracks (omega arith)
          (new_track-id t.next_id d now) wider in
      let same : u64 (t.next_id + 1) ≡ t.next_id + 1 = omega arith in
      (
        record {
          numbered = (insert-IsDistinct t.next_id track t.tracks distinct, rw same more);
          onward = omega (arith, same);
          gone = λ id less none_before.
              ground (arith, lookup-insert t.next_id id track t.tracks, none_before);
        },
        same,
        refl,
        length-insert-le t.next_id track t.tracks,
      )

  create_from-none :
      (matched : ℕ → Bool) (now j : ℕ) (t : MultiTargetTracker F)
      → create_from matched now j [] t ≡ t
  unfolding create_from
  create_from-none matched now j t = refl

  create_from-next :
      (matched : ℕ → Bool) (now j : ℕ) (d : Detection F) (ds : List (Detection F))
      (t : MultiTargetTracker F)
      → create_from matched now j (d ∷ ds) t
        ≡ create_from matched now (j + 1) ds (
            if matched j || leb t.max_tracks (length t.tracks) then t else (create_track d now t).0)
  unfolding create_from
  create_from-next matched now j d ds t = refl

  pub create_from-Grows :
      (matched : ℕ → Bool) (now j : ℕ) (ds : List (Detection F)) (t : MultiTargetTracker F)
      → IsNumbered t
      → t.next_id + length ds < 2 ^ 64
      → let t' = create_from matched now j ds t in
        Grows t t' × (length t'.tracks ≤ max t.max_tracks (length t.tracks))
  create_from-Grows matched now j [] t h room =
      rw (create_from-none matched now j t) (Grows-refl t h, omega arith)
  create_from-Grows matched now j (d ∷ ds) t h room =
      rw (create_from-next matched now j d ds t)
        (elim (Bool-cases (matched j || leb t.max_tracks (length t.tracks))) [
          | inl skip ↦ rw skip (create_from-Grows matched now (j + 1) ds t h (omega arith))
          | inr fits ↦
              let created = (create_track d now t).0 in
              let (grows, next, limit, few) = create_track-Grows d now t h (omega arith) in
              let (on, bound) =
                create_from-Grows matched now (j + 1) ds created grows.numbered
                  (omega (arith, next)) in
              rw fits (
                Grows-trans t created (create_from matched now (j + 1) ds created) grows on,
                ground (arith, bound, limit, few, fits),
              )
        ])

  remove_lost_tracks-Kept :
      (now n : ℕ) (from : Map ℕ (Track F)) (t : MultiTargetTracker F)
      → Kept n from t.tracks
      → Kept n from (remove_lost_tracks now t).tracks
  unfolding remove_lost_tracks
  remove_lost_tracks-Kept now n from t h =
      Kept-select n from (stays now t) t.tracks (stays-same now t) h

  remove_lost_tracks-Grows :
      (now : ℕ) (t : MultiTargetTracker F)
      → IsNumbered t
      → Grows t (remove_lost_tracks now t)
        × (length (remove_lost_tracks now t).tracks ≤ length t.tracks)
  unfolding remove_lost_tracks
  remove_lost_tracks-Grows now t (distinct, keyed) =
      let kept =
        Kept-select t.next_id t.tracks (stays now t) t.tracks (stays-same now t)
          (distinct, keyed, (λ id h. h), omega arith) in
      let (_, _, _, few) = kept in (Grows-Kept t (select (stays now t) t.tracks) kept, few)

  create_if :
      (b : Bool) (matched : ℕ → Bool) (now : ℕ) (ds : List (Detection F))
      (t aged : MultiTargetTracker F)
      → Grows t aged
      → aged.next_id ≡ t.next_id
      → aged.max_tracks ≡ t.max_tracks
      → length aged.tracks ≤ length t.tracks
      → t.next_id + length ds < 2 ^ 64
      → let t' = if b then create_from matched now 0 ds aged else aged in
        Grows t t' × (length t'.tracks ≤ max t.max_tracks (length t.tracks))
  create_if true matched now ds t aged grows same limit few room =
      let (more, bound) =
        create_from-Grows matched now 0 ds aged grows.numbered (omega (arith, same, room)) in
      (
        Grows-trans t aged (create_from matched now 0 ds aged) grows more,
        ground (arith, bound, limit, few),
      )
  create_if false matched now ds t aged grows same limit few room = (grows, omega (arith, few))

  assigned-Grows :
      (ds : List (Detection F)) (now : ℕ) (assignment : List (Option ℕ)) (t : MultiTargetTracker F)
      → IsNumbered t
      → t.next_id + length ds < 2 ^ 64
      → let t' = assigned ds now assignment t in
        Grows t t' × (length t'.tracks ≤ max t.max_tracks (length t.tracks))
  assigned-Grows ds now assignment t h room =
      let (aged, matched, same, set, kept) = aged-Kept ds now assignment t h in
      let (_, _, _, few) = kept in
      let grows : Grows t aged = rw set (Grows-Kept t aged.tracks kept) in
      rw same (
        create_if t.auto_create_tracks matched now ds t aged grows (ground (arith, set))
          (ground (arith, set)) few room)

  predicted-Grows :
      (t : MultiTargetTracker F)
      → IsNumbered t
      → let t' = set_tracks (map_values predict_only t.tracks) t in
        Grows t t' × (length t'.tracks ≤ length t.tracks)
  predicted-Grows t (distinct, keyed) =
      let kept =
        Kept-map_values t.next_id t.tracks predict_only t.tracks predict-id
          (distinct, keyed, (λ id h. h), omega arith) in
      let (_, _, _, few) = kept in (Grows-Kept t (map_values predict_only t.tracks) kept, few)

  removed-Grows :
      (later : ℕ) (t s : MultiTargetTracker F) (n : ℕ)
      → Grows t s × (length s.tracks ≤ n)
      → let t' = remove_lost_tracks later s in Grows t t' × (length t'.tracks ≤ n)
  removed-Grows later t s n (grows, few) =
      let (on, fewer) = remove_lost_tracks-Grows later s grows.numbered in
      (Grows-trans t s (remove_lost_tracks later s) grows on, omega (arith, few, fewer))

module _ {F G : Type 0} ⦃f : Float F⦄ ⦃g : Float G⦄ (widen : F → G) where
  -- How an update returns.
  pub update-cases :
      (ds : List (Detection F)) (now later : ℕ) (t t' : MultiTargetTracker F)
      → update widen ds now later t ≡ some t'
      → ((length t.tracks ≡ 0)
          × (t' ≡ (if t.auto_create_tracks then create_from (λ _. false) now 0 ds t else t)))
        ⊎ ((length t.tracks ≢ 0)
            × (t' ≡ remove_lost_tracks later (set_tracks (map_values predict_only t.tracks) t)))
        ⊎ ((length t.tracks ≢ 0)
            × (r : List (Option ℕ)) × (solve widen (cost_matrix t.tracks ds) ≡ some r)
            × (t' ≡ remove_lost_tracks later (assigned ds now r t)))
  unfolding update
  update-cases ds now later t t' e = elim (Bool-cases (length t.tracks == 0)) [
    | inl empty ↦ inl (ground (arith, empty), ground (arith, e, empty))
    | inr some_tracks ↦ elim (Bool-cases (length ds == 0)) [
      | inl unseen ↦ inr (inl (ground (arith, some_tracks), ground (arith, e, some_tracks, unseen)))
      | inr seen ↦ elim (Option-cases (solve widen (cost_matrix t.tracks ds))) [
        | inl never ↦ ground (arith, e, some_tracks, seen, never)
        | inr (r, solved) ↦ inr (
            inr (
              ground (arith, some_tracks),
              r,
              solved,
              ground (arith, e, some_tracks, seen, solved),
            ))
      ]
    ]
  ]

  -- An update that returns keeps the numbers of the tracks distinct and their own, gives new tracks new
  -- numbers, never gives a track to a number that had lost its track, and leaves at most `max_tracks`
  -- tracks, or as many as there were. The numbers have not run out.
  pub update-Grows :
      (ds : List (Detection F)) (now later : ℕ) (t t' : MultiTargetTracker F)
      → IsNumbered t
      → t.next_id + length ds < 2 ^ 64
      → update widen ds now later t ≡ some t'
      → Grows t t' × (length t'.tracks ≤ max t.max_tracks (length t.tracks))
  update-Grows ds now later t t' h room e = elim (update-cases ds now later t t' e) [
    | inl (_, same) ↦ rw same (
        create_if t.auto_create_tracks (λ _. false) now ds t t (Grows-refl t h) refl refl
          (omega arith) room)
    | inr (inl (_, same)) ↦
        let s = set_tracks (map_values predict_only t.tracks) t in
        let (grows, few) = predicted-Grows t h in
        rw same
          (removed-Grows later t s (max t.max_tracks (length t.tracks)) (grows, omega (arith, few)))
    | inr (inr (_, r, _, same)) ↦ rw same (
        removed-Grows later t (assigned ds now r t) (max t.max_tracks (length t.tracks))
          (assigned-Grows ds now r t h room))
  ]
