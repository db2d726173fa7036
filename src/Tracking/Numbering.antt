-- ===== src/Tracking/Numbering.antt =====
-- The tracks of the multi-target tracker have numbers of their own, and there are not too many.
use autotargeting.Base.{
  ℕ, ◌≤◌, ◌<◌, ◌≡◌, ◌⊎◌, inl, inr, refl, Bool, false, Option, none, some, List, [], ◌∷◌,
  if◌then◌else◌, length, get_elem?, Map, nat_key, lookup, insert, modify, select, map_values,
  remove, arith, Bool-cases, Option-cases, All, IsDistinct, length-modify, length-map_values,
  length-select-le, modify-IsDistinct, select-IsDistinct, lookup-modify, lookup-select,
  lookup-map_values,
}
use autotargeting.Floats.{Float}
use autotargeting.Detections.{Detection}
use autotargeting.Tracking.Multi.{
  Track, MultiTargetTracker, Matched, set_tracks, update_with_detection, predict_only, create_from,
  stays, cost_matrix, apply_cell, apply_assignment, age_unmatched, assigned,
}

-- Every track stands under its own number, below `n`.
abbrev pub Keyed : {F : Type 0} → ℕ → Map ℕ (Track F) → Type 0
Keyed n tracks = All (λ e. (e.0 < n) × (e.1.id ≡ e.0)) tracks

-- The numbers are distinct, and those to come are new.
abbrev pub IsNumbered : {F : Type 0} → MultiTargetTracker F → Type 0
IsNumbered t = IsDistinct t.tracks × Keyed t.next_id t.tracks

-- From `t` to `t'`: a number that was given and has no track has none again.
pub record Grows {F : Type 0} (t t' : MultiTargetTracker F) : Type 0 where
  pub numbered : IsNumbered t'
  pub onward : t.next_id ≤ t'.next_id
  pub gone : (id : ℕ) → id < t.next_id → lookup id t.tracks ≡ none → lookup id t'.tracks ≡ none

module _ {F : Type 0} where
  pub Keyed-mono : (n m : ℕ) (tracks : Map ℕ (Track F)) → n ≤ m → Keyed n tracks → Keyed m tracks
  Keyed-mono n m [] le h = tt
  Keyed-mono n m ((i, v) ∷ tracks) le h = ((omega arith, h.0.1), Keyed-mono n m tracks le h.1)

  Keyed-modify :
      (n k : ℕ) (g : Track F → Track F) (tracks : Map ℕ (Track F))
      → ((v : Track F) → (g v).id ≡ v.id)
      → Keyed n tracks
      → Keyed n (modify k g tracks)
  unfolding modify
  Keyed-modify n k g [] keeps h = tt
  Keyed-modify n k g ((i, v) ∷ tracks) keeps h =
      ground (arith, keeps v, Keyed-modify n k g tracks keeps h.1)

  Keyed-map_values :
      (n : ℕ) (g : Track F → Track F) (tracks : Map ℕ (Track F))
      → ((v : Track F) → (g v).id ≡ v.id)
      → Keyed n tracks
      → Keyed n (map_values g tracks)
  unfolding map_values
  Keyed-map_values n g [] keeps h = tt
  Keyed-map_values n g ((i, v) ∷ tracks) keeps h =
      ground (arith, keeps v, Keyed-map_values n g tracks keeps h.1)

  Keyed-select :
      (n : ℕ) (g : Track F → Option (Track F)) (tracks : Map ℕ (Track F))
      → ((v w : Track F) → g v ≡ some w → w ≡ v)
      → Keyed n tracks
      → Keyed n (select g tracks)
  unfolding select
  Keyed-select n g [] keeps h = tt
  Keyed-select n g ((i, v) ∷ tracks) keeps h = elim (Option-cases (g v)) [
    | inl lost ↦ ground (arith, lost, Keyed-select n g tracks keeps h.1)
    | inr (w, same) ↦ ground (arith, same, keeps v w same, Keyed-select n g tracks keeps h.1)
  ]

  pub Keyed-remove :
      (n k : ℕ) (tracks : Map ℕ (Track F)) → Keyed n tracks → Keyed n (remove k tracks)
  unfolding remove
  Keyed-remove n k [] h = tt
  Keyed-remove n k ((i, v) ∷ tracks) h = ground (arith, Keyed-remove n k tracks h.1)

  pub Keyed-insert :
      (n k : ℕ) (v : Track F) (tracks : Map ℕ (Track F))
      → k < n
      → v.id ≡ k
      → Keyed n tracks
      → Keyed n (insert k v tracks)
  unfolding insert
  Keyed-insert n k v [] less own h = ((less, own), tt)
  Keyed-insert n k v ((i, w) ∷ tracks) less own h =
      ground (arith, Keyed-insert n k v tracks less own h.1)

  pub Keyed-fresh : (n : ℕ) (tracks : Map ℕ (Track F)) → Keyed n tracks → lookup n tracks ≡ none
  unfolding lookup
  Keyed-fresh n [] h = refl
  Keyed-fresh n ((i, v) ∷ tracks) h = ground (arith, Keyed-fresh n tracks h.1)

  -- Some of the tracks of `from`, changed.
  abbrev pub Kept : ℕ → Map ℕ (Track F) → Map ℕ (Track F) → Type 0
  Kept n from tracks =
      IsDistinct tracks
      × Keyed n tracks
      × ((id : ℕ) → lookup id from ≡ none → lookup id tracks ≡ none)
      × (length tracks ≤ length from)

  Kept-modify :
      (n : ℕ) (from : Map ℕ (Track F)) (k : ℕ) (g : Track F → Track F) (tracks : Map ℕ (Track F))
      → ((v : Track F) → (g v).id ≡ v.id)
      → Kept n from tracks
      → Kept n from (modify k g tracks)
  Kept-modify n from k g tracks keeps (distinct, keyed, gone, few) = (
    modify-IsDistinct k g tracks distinct,
    Keyed-modify n k g tracks keeps keyed,
    λ id none_before. ground (arith, lookup-modify k id g tracks, gone id none_before),
    ground (arith, few, length-modify k g tracks),
  )

  pub Kept-select :
      (n : ℕ) (from : Map ℕ (Track F)) (g : Track F → Option (Track F)) (tracks : Map ℕ (Track F))
      → ((v w : Track F) → g v ≡ some w → w ≡ v)
      → Kept n from tracks
      → Kept n from (select g tracks)
  Kept-select n from g tracks keeps (distinct, keyed, gone, few) = (
    select-IsDistinct g tracks distinct,
    Keyed-select n g tracks keeps keyed,
    λ id none_before. ground (arith, lookup-select id g tracks distinct, gone id none_before),
    omega (arith, few, length-select-le g tracks),
  )

  map_values-IsDistinct :
      (g : Track F → Track F) (tracks : Map ℕ (Track F))
      → IsDistinct tracks
      → IsDistinct (map_values g tracks)
  unfolding map_values
  map_values-IsDistinct g [] h = tt
  map_values-IsDistinct g ((i, v) ∷ tracks) h =
      ground (arith, lookup-map_values i g tracks, map_values-IsDistinct g tracks h.1)

  pub Kept-map_values :
      (n : ℕ) (from : Map ℕ (Track F)) (g : Track F → Track F) (tracks : Map ℕ (Track F))
      → ((v : Track F) → (g v).id ≡ v.id)
      → Kept n from tracks
      → Kept n from (map_values g tracks)
  Kept-map_values n from g tracks keeps (distinct, keyed, gone, few) = (
    map_values-IsDistinct g tracks distinct,
    Keyed-map_values n g tracks keeps keyed,
    λ id none_before. ground (arith, lookup-map_values id g tracks, gone id none_before),
    ground (arith, few, length-map_values g tracks),
  )

module _ {F : Type 0} ⦃f : Float F⦄ where
  pub stays-same :
      (now : ℕ) (t : MultiTargetTracker F) (v w : Track F) → stays now t v ≡ some w → w ≡ v
  unfolding stays
  stays-same now t v w e = ground (arith, e)

  update-id : (d : Detection F) (now : ℕ) (v : Track F) → (update_with_detection d now v).id ≡ v.id
  unfolding update_with_detection
  update-id d now v = refl

  pub predict-id : (v : Track F) → (predict_only v).id ≡ v.id
  unfolding predict_only
  predict-id v = refl

  -- A cell changes at most its own track.
  pub apply_cell-tracks :
      (threshold : F) (ds : List (Detection F)) (now id : ℕ) (row : List F) (j : ℕ) (m : Matched F)
      → ((apply_cell threshold ds now id row (some j) m).tracks ≡ m.tracks)
        ⊎ ((d : Detection F) × ((apply_cell threshold ds now id row (some j) m).tracks
              ≡ modify id (update_with_detection d now) m.tracks))
  unfolding apply_cell
  apply_cell-tracks threshold ds now id row j m = elim (Option-cases (get_elem? row j)) [
    | inl outside ↦ inl (ground (arith, outside))
    | inr (c, priced) ↦ elim (Option-cases (get_elem? ds j)) [
      | inl outside ↦ inl (ground (arith, priced, outside))
      | inr (d, seen) ↦ elim (Bool-cases (f.le threshold (f.sub f.one c))) [
        | inl near ↦ inr (d, ground (arith, priced, seen, near))
        | inr far ↦ inl (ground (arith, priced, seen, far))
      ]
    ]
  ]

  apply_cell-Kept :
      (n : ℕ) (from : Map ℕ (Track F)) (threshold : F) (ds : List (Detection F)) (now id : ℕ)
      (row : List F) (o : Option ℕ) (m : Matched F)
      → Kept n from m.tracks
      → Kept n from (apply_cell threshold ds now id row o m).tracks
  unfolding apply_cell
  apply_cell-Kept n from threshold ds now id row none m h = h
  apply_cell-Kept n from threshold ds now id row (some j) m h =
      elim (apply_cell-tracks threshold ds now id row j m) [
        | inl same ↦ rw same h
        | inr (d, changed) ↦
            rw changed
              (Kept-modify n from id (update_with_detection d now) m.tracks (update-id d now) h)
      ]

  apply_assignment-Kept :
      (n : ℕ) (from : Map ℕ (Track F)) (threshold : F) (ds : List (Detection F)) (now : ℕ)
      (ids : Map ℕ (Track F)) (rows : List (List F)) (assignment : List (Option ℕ)) (m : Matched F)
      → Kept n from m.tracks
      → Kept n from (apply_assignment threshold ds now ids rows assignment m).tracks
  unfolding apply_assignment
  apply_assignment-Kept n from threshold ds now ((id, _) ∷ ids) (row ∷ rows) (o ∷ os) m h =
      apply_assignment-Kept n from threshold ds now ids rows os
        (apply_cell threshold ds now id row o m)
        (apply_cell-Kept n from threshold ds now id row o m h)
  apply_assignment-Kept n from threshold ds now [] rows os m h = h
  apply_assignment-Kept n from threshold ds now (e ∷ ids) [] os m h = h
  apply_assignment-Kept n from threshold ds now (e ∷ ids) (row ∷ rows) [] m h = h

  age_unmatched-Kept :
      (n : ℕ) (from : Map ℕ (Track F)) (matched : ℕ → Bool) (ids tracks : Map ℕ (Track F))
      → Kept n from tracks
      → Kept n from (age_unmatched matched ids tracks)
  unfolding age_unmatched
  age_unmatched-Kept n from matched [] tracks h = h
  age_unmatched-Kept n from matched ((id, v) ∷ ids) tracks h = elim (Bool-cases (matched id)) [
    | inl seen ↦ rw seen (age_unmatched-Kept n from matched ids tracks h)
    | inr unseen ↦ rw unseen (
        age_unmatched-Kept n from matched ids (modify id predict_only tracks)
          (Kept-modify n from id predict_only tracks predict-id h))
  ]

  -- What `assigned` has before it creates tracks.
  pub aged-Kept :
      (ds : List (Detection F)) (now : ℕ) (assignment : List (Option ℕ)) (t : MultiTargetTracker F)
      → IsNumbered t
      → (aged : MultiTargetTracker F) × (matched : ℕ → Bool) × (assigned ds now assignment t
          ≡ (if t.auto_create_tracks then create_from matched now 0 ds aged else aged))
        × (aged ≡ set_tracks aged.tracks t)
        × Kept t.next_id t.tracks aged.tracks
  unfolding assigned
  aged-Kept ds now assignment t (distinct, keyed) =
      let start : Matched F = record {
        tracks = t.tracks;
        detections = λ _. false;
        ids = λ _. false;
      } in
      let rows = cost_matrix t.tracks ds in
      let m = apply_assignment t.match_iou_threshold ds now t.tracks rows assignment start in
      (
        set_tracks (age_unmatched m.ids t.tracks m.tracks) t,
        m.detections,
        refl,
        refl,
        age_unmatched-Kept t.next_id t.tracks m.ids t.tracks m.tracks (
            apply_assignment-Kept t.next_id t.tracks t.match_iou_threshold ds now t.tracks rows
              assignment start (distinct, keyed, (λ id h. h), omega arith)),
      )
