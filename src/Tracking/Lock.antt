-- ===== src/Tracking/Lock.antt =====
-- The lock of the single-target tracker, and which detection it follows.
use autotargeting.Base.{
  ℕ, ◌+◌, ◌≡◌, ◌⊎◌, inl, inr, refl, Bool, true, false, ◌||◌, ◌&&◌, none, some, List, [], ◌∷◌,
  if◌then◌else◌, ltb, leb, arith, Bool-cases,
}
use autotargeting.Floats.{Float}
use autotargeting.Detections.{BoundingBox, Detection, iou}
use autotargeting.Tracking.Single.{
  ActiveTrack, TargetTracker, acquire, best_match, greater_overlap, follow, miss, update_track,
  update, is_locked,
}

-- A call of `update`: the detections and the time.
abbrev pub Frame : Type 0 → Type 0
Frame F = List (Detection F) × ℕ

module _ {F : Type 0} ⦃f : Float F⦄ where
  -- Some detection overlaps the box by more than the threshold.
  abbrev pub in_sight : F → BoundingBox → List (Detection F) → Bool
  in_sight threshold box [] = false
  in_sight threshold box (d ∷ ds) = f.lt threshold (iou d.bbox box) || in_sight threshold box ds

  best_match-some :
      (threshold : F) (box : BoundingBox) (b : Detection F × F) (ds : List (Detection F))
      → (r : Detection F × F) × (best_match threshold box (some b) ds ≡ some r)
  unfolding best_match
  best_match-some threshold box b [] = (b, refl)
  best_match-some threshold box b (d ∷ ds) = elim (Bool-cases (f.lt threshold (iou d.bbox box))) [
    | inl near ↦
        let best = greater_overlap (some b) d (iou d.bbox box) in
        let (r, e) = best_match-some threshold box best ds in (r, rw near e)
    | inr far ↦ let (r, e) = best_match-some threshold box b ds in (r, rw far e)
  ]

  -- There is a match exactly if one is in sight.
  best_match-in_sight :
      (threshold : F) (box : BoundingBox) (ds : List (Detection F))
      → ((in_sight threshold box ds ≡ false) × (best_match threshold box none ds ≡ none))
        ⊎ ((in_sight threshold box ds ≡ true)
            × (r : Detection F × F) × (best_match threshold box none ds ≡ some r))
  unfolding best_match
  best_match-in_sight threshold box [] = inl (refl, refl)
  best_match-in_sight threshold box (d ∷ ds) = elim (Bool-cases (f.lt threshold (iou d.bbox box))) [
    | inl near ↦
        let (r, e) = best_match-some threshold box (d, iou d.bbox box) ds in
        inr (ground (arith, near), r, rw near e)
    | inr far ↦ rw far (best_match-in_sight threshold box ds)
  ]

  abbrev pub run : List (Frame F) → TargetTracker F → TargetTracker F
  run [] t = t
  run ((ds, now) ∷ frames) t = run frames (update ds now t)

  abbrev pub sees : TargetTracker F → List (Detection F) → Bool
  sees t ds = elim t.active [
    | none ↦ false
    | some a ↦ in_sight t.match_iou_threshold a.last_bbox ds
  ]

  -- How many of the frames had the target in sight.
  abbrev pub sightings : List (Frame F) → TargetTracker F → ℕ
  sightings [] t = 0
  sightings ((ds, now) ∷ frames) t =
      (if sees t ds then 1 else 0) + sightings frames (update ds now t)

  update_step :
      (ds : List (Detection F)) (now : ℕ) (t : TargetTracker F) (a : ActiveTrack F)
      → t.active ≡ some a
      → (b : ActiveTrack F) × (update ds now t ≡ record t { active = some b })
        × (b.confirmation_count ≡ (
            if sees t ds && ltb a.confirmation_count t.lock_confirmation_frames
            then a.confirmation_count + 1
            else a.confirmation_count))
  unfolding update update_track follow miss
  update_step ds now t a here = elim (best_match-in_sight t.match_iou_threshold a.last_bbox ds) [
    | inl (unseen, no_match) ↦
        (miss a, ground (arith, here, no_match), ground (arith, here, unseen))
    | inr (seen, (d, o), match) ↦ (
      follow t.lock_confirmation_frames now d a,
      ground (arith, here, match),
      ground (arith, here, seen),
    )
  ]

  locked_from :
      (frames : List (Frame F)) (t : TargetTracker F) (a : ActiveTrack F)
      → t.active ≡ some a
      → is_locked (run frames t)
        ≡ leb t.lock_confirmation_frames (a.confirmation_count + sightings frames t)
  unfolding is_locked
  locked_from [] t a here = ground (arith, here)
  locked_from ((ds, now) ∷ frames) t a here =
      let (b, same, count) = update_step ds now t a here in
      let rest = locked_from frames (update ds now t) b (ground (arith, same)) in
      ground (arith, rest, same, count)

  -- A target is locked exactly when the frames that had it in sight since it was acquired, and the
  -- one of the acquisition, are as many as the lock asks for. They need not follow each other.
  pub locked_after :
      (frames : List (Frame F)) (d : Detection F) (now counter : ℕ) (t : TargetTracker F)
      → let acquired = (acquire d now counter t).0 in
        is_locked (run frames acquired)
        ≡ leb t.lock_confirmation_frames (1 + sightings frames acquired)
  unfolding acquire
  locked_after frames d now counter t =
      let acquired = (acquire d now counter t).0 in locked_from frames acquired _ refl
