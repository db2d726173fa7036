-- ===== src/Tracking/Choice.antt =====
-- The detection that the single-target tracker follows.
use autotargeting.Base.{
  ℕ, ◌≡◌, ◌⊎◌, inl, inr, refl, Bool, true, false, ◌&&◌, none, some, List, [], ◌∷◌, arith,
  Bool-cases, All, Any, All-map,
}
use mathlib.Core.Path.{subst}
use autotargeting.Floats.{Float, IsIeee}
use autotargeting.Detections.{BoundingBox, Detection, iou}
use autotargeting.Tracking.Single.{
  ActiveTrack, TargetTracker, best_match, follow, miss, update_track, update,
}

module _ {F : Type 0} ⦃f : Float F⦄ (ieee : IsIeee F) (threshold : F) (box : BoundingBox) where
  -- It overlaps the box by more than the threshold, and by more than `o`.
  abbrev pub beats : F → Detection F → Bool
  beats o e = f.lt threshold (iou e.bbox box) && f.lt o (iou e.bbox box)

  -- With `o` above the threshold, what `e` did not beat before it does not beat after.
  less_beaten :
      (o overlap : F) (e : Detection F)
      → f.lt threshold o ≡ true
      → f.lt overlap o ≡ false
      → beats o e ≡ false
      → beats overlap e ≡ false
  less_beaten o overlap e above least h =
      ground (arith, above, least, h, ieee.lt_split threshold o overlap (iou e.bbox box))

  self_beaten :
      (o : F) (e : Detection F)
      → f.lt (iou e.bbox box) o ≡ true ⊎ (o ≡ iou e.bbox box)
      → beats o e ≡ false
  self_beaten o e (inl less) = ground (arith, less, ieee.lt_asym (iou e.bbox box) o)
  self_beaten o e (inr same) = ground (arith, same, ieee.lt_asym (iou e.bbox box) o)

  pub unbeaten_by :
      (o : F) (e : Detection F)
      → f.lt threshold o ≡ true
      → beats o e ≡ false
      → f.lt o (iou e.bbox box) ≡ false
  unbeaten_by o e above h =
      let other : F = iou e.bbox box in
      ground (arith, above, h, ieee.lt_split o other threshold o, ieee.lt_asym o other)

  -- What the search for the best match ends with, from `b` with overlap `o` on.
  record IsGreatest (b : Detection F) (o : F) (ds : List (Detection F)) (r : Detection F) (p : F)
      : Type 0 where
    result : best_match threshold box (some (b, o)) ds ≡ some (r, p)
    over : f.lt threshold p ≡ true
    before : (e : Detection F) → beats o e ≡ false → beats p e ≡ false
    unbeaten : All (λ e. beats p e ≡ false) ds
    source : ((r ≡ b) × (p ≡ o)) ⊎ (Any (λ e. e ≡ r) ds × (p ≡ iou r.bbox box))

  best_match-IsGreatest :
      (b : Detection F) (o : F) (ds : List (Detection F))
      → f.lt threshold o ≡ true
      → (r : Detection F) × (p : F) × IsGreatest b o ds r p
  unfolding best_match
  best_match-IsGreatest b o [] above = (
    b,
    o,
    record {
      result = refl;
      over = above;
      before = λ e h. h;
      unbeaten = tt;
      source = inl (refl, refl);
    },
  )
  best_match-IsGreatest b o (d ∷ ds) above =
      let overlap = iou d.bbox box in
      elim (Bool-cases (f.lt threshold overlap)) [
        | inl near ↦ elim (Bool-cases (f.lt overlap o)) [
          | inl lower ↦
              let (r, p, best) = best_match-IsGreatest b o ds above in
              (
                r,
                p,
                record {
                  result = ground (arith, near, lower, best.result);
                  over = best.over;
                  before = best.before;
                  unbeaten = (best.before d (self_beaten o d (inl lower)), best.unbeaten);
                  source = ground (arith, best.source);
                },
              )
          | inr higher ↦
              let (r, p, best) = best_match-IsGreatest d overlap ds near in
              (
                r,
                p,
                record {
                  result = ground (arith, near, higher, best.result);
                  over = best.over;
                  before = λ e h. best.before e (less_beaten o overlap e above higher h);
                  unbeaten = (best.before d (self_beaten overlap d (inr refl)), best.unbeaten);
                  source = ground (arith, best.source);
                },
              )
        ]
        | inr far ↦
            let (r, p, best) = best_match-IsGreatest b o ds above in
            (
              r,
              p,
              record {
                result = ground (arith, far, best.result);
                over = best.over;
                before = best.before;
                unbeaten = (ground (arith, far), best.unbeaten);
                source = ground (arith, best.source);
              },
            )
      ]

  best_match_outcome :
      (ds : List (Detection F))
      → ((best_match threshold box none ds ≡ none)
          × All (λ e. f.lt threshold (iou e.bbox box) ≡ false) ds)
        ⊎ ((r : Detection F) × (best_match threshold box none ds ≡ some (r, iou r.bbox box))
            × Any (λ e. e ≡ r) ds
            × (f.lt threshold (iou r.bbox box) ≡ true)
            × All (λ e. beats (iou r.bbox box) e ≡ false) ds)
  unfolding best_match
  best_match_outcome [] = inl (refl, tt)
  best_match_outcome (d ∷ ds) = elim (Bool-cases (f.lt threshold (iou d.bbox box))) [
    | inl near ↦
        let overlap = iou d.bbox box in
        let (r, p, best) = best_match-IsGreatest d overlap ds near in
        let own : p ≡ iou r.bbox box = ground (arith, best.source) in
        let among : Any (λ e. e ≡ r) (d ∷ ds) = ground (arith, best.source) in
        let all : All (λ e. beats p e ≡ false) (d ∷ ds) =
          (best.before d (self_beaten overlap d (inr refl)), best.unbeaten) in
        inr (
          r,
          ground (arith, near, best.result, own),
          among,
          ground (arith, best.over, own),
          subst (λ q. All (λ e. beats q e ≡ false) (d ∷ ds)) own all,
        )
    | inr far ↦ elim (best_match_outcome ds) [
      | inl (nothing, all) ↦ inl (rw far nothing, (far, all))
      | inr (r, result, among, over, unbeaten) ↦
          inr (r, rw far result, inr among, over, (ground (arith, far), unbeaten))
    ]
  ]

module _ {F : Type 0} ⦃f : Float F⦄ (ieee : IsIeee F) where
  -- With an active target, an update follows a detection that overlaps its box by more than the
  -- threshold, and no other by more; if there is none, it predicts.
  pub update_follows :
      (ds : List (Detection F)) (now : ℕ) (t : TargetTracker F) (a : ActiveTrack F)
      → t.active ≡ some a
      → ((update ds now t ≡ record t { active = some (miss a) })
          × All (λ e. f.lt t.match_iou_threshold (iou e.bbox a.last_bbox) ≡ false) ds)
        ⊎ ((d : Detection F) × (update ds now t
              ≡ record t { active = some (follow t.lock_confirmation_frames now d a) })
            × Any (λ e. e ≡ d) ds
            × (f.lt t.match_iou_threshold (iou d.bbox a.last_bbox) ≡ true)
            × All (λ e. f.lt (iou d.bbox a.last_bbox) (iou e.bbox a.last_bbox) ≡ false) ds)
  unfolding update update_track
  update_follows ds now t a here =
      elim (best_match_outcome ieee t.match_iou_threshold a.last_bbox ds) [
        | inl (nothing, all) ↦ inl (ground (arith, here, nothing), all)
        | inr (d, result, among, over, unbeaten) ↦ inr (
          d,
          ground (arith, here, result),
          among,
          over,
          All-map _ _
              (λ e h.
                unbeaten_by ieee t.match_iou_threshold a.last_bbox (iou d.bbox a.last_bbox) e over
                  h)
              ds unbeaten,
        )
      ]
