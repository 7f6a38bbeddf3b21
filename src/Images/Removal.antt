-- ===== src/Images/Removal.antt =====
-- components/server/rpcservices.go: `RemoveImage`.
use corectl.Base.{
  ℕ, suc, ◌+◌, ◌<◌, false, Bool-cases, inl, inr, none, some, List, [], ◌∷◌, ◌++◌, Text, ◌≡◌, ◌≢◌,
  refl, ap, append-nil, ◌↔◌, length-append, =t_ne, ◌∙◌, ◌=t◌, =t_iff, All, arith, ltb, length, take,
  drop,
}
use native.Mathlib.Nat.{zero-add}
use corectl.Coreos.{Semver}
use corectl.Images.{find_version, remove_image}

module _ (s : Semver) where
  -- The index that the search ends at, for a list that starts at `i`.
  find_at :
      (t : Text) (before : List s.Version) (v : s.Version) (after : List s.Version) (i : ℕ)
      (seen : ℕ × s.Version)
      → All (λ w. t ≢ s.string w) before
      → t ≡ s.string v
      → find_version s t i seen (before ++ v ∷ after) ≡ (i + length before, v)
  unfolding find_version
  find_at t [] v after i seen h e =
      rw ((=t_iff t (s.string v)).1 e) (ap (λ (n : ℕ). (n, v)) (omega arith))
  find_at t (w ∷ before) v after i seen h e =
      rw (=t_ne t (s.string w) h.0)
        (find_at t before v after (suc i) (i, w) h.1 e ∙ ap (λ (n : ℕ). (n, v)) (omega arith))

  find_absent :
      (t : Text) (vs : List s.Version) (v : s.Version) (i : ℕ) (seen : ℕ × s.Version)
      → All (λ w. t ≢ s.string w) (vs ++ v ∷ [])
      → find_version s t i seen (vs ++ v ∷ []) ≡ (i + length vs, v)
  unfolding find_version
  find_absent t [] v i seen h = rw (=t_ne t (s.string v) h.0) (ap (λ (n : ℕ). (n, v)) (omega arith))
  find_absent t (w ∷ vs) v i seen h =
      rw (=t_ne t (s.string w) h.0)
        (find_absent t vs v (suc i) (i, w) h.1 ∙ ap (λ (n : ℕ). (n, v)) (omega arith))

  cut_out :
      (before : List s.Version) (v : s.Version) (after : List s.Version)
      → take (length before) (before ++ v ∷ after) ++ drop (length before + 1) (before ++ v ∷ after)
        ≡ before ++ after
  cut_out [] v after = refl
  cut_out (w ∷ before) v after =
      let n : suc (length before) + 1 ≡ suc (length before + 1) = omega arith in
      rw n (ap (◌∷◌ w) (cut_out before v after))

  in_bounds :
      (before : List s.Version) (v : s.Version) (after : List s.Version)
      → ltb (length (before ++ v ∷ after)) (length before + 1) ≡ false
  in_bounds before v after = ground (arith, length-append before (v ∷ after))

  -- If a version prints as the text, `RemoveImage` takes the first such version out of the list,
  -- keeps all others in order, and deletes the files of that version.
  pub remove_image_found :
      (t : Text) (before : List s.Version) (v : s.Version) (after : List s.Version)
      → All (λ w. t ≢ s.string w) before
      → t ≡ s.string v
      → remove_image s t (before ++ v ∷ after) ≡ some (before ++ after, v)
  unfolding remove_image
  remove_image_found t before v after h e =
      rw (find_at t before v after 0 (0, s.zero) h e, zero-add (length before))
        (rw (in_bounds before v after) (ap (λ l. some (l, v)) (cut_out before v after)))

  -- If no version prints as the text, `RemoveImage` does not refuse: it takes the last version, the
  -- newest image, out of the list, and deletes the files of that version.
  pub remove_image_unknown :
      (t : Text) (vs : List s.Version) (v : s.Version)
      → All (λ w. t ≢ s.string w) (vs ++ v ∷ [])
      → remove_image s t (vs ++ v ∷ []) ≡ some (vs, v)
  unfolding remove_image
  remove_image_unknown t vs v h =
      rw (find_absent t vs v 0 (0, s.zero) h, zero-add (length vs))
        (rw (in_bounds vs v []) (ap (λ l. some (l, v)) (cut_out vs v [] ∙ append-nil vs)))

  find_in_range :
      (t : Text) (v : s.Version) (vs : List s.Version) (i : ℕ) (seen : ℕ × s.Version)
      → (find_version s t i seen (v ∷ vs)).0 < i + suc (length vs)
  unfolding find_version
  find_in_range t v [] i seen = elim (Bool-cases (t =t s.string v)) [
    | inl e ↦ rw e (omega arith)
    | inr e ↦ rw e (omega arith)
  ]
  find_in_range t v (w ∷ vs) i seen = elim (Bool-cases (t =t s.string v)) [
    | inl e ↦ rw e (omega arith)
    | inr e ↦ rw e (omega (arith, find_in_range t w vs (suc i) (i, v)))
  ]

  -- `RemoveImage` panics exactly on a channel with no image.
  pub remove_image_panics :
      (t : Text) (vs : List s.Version) → (remove_image s t vs ≡ none) ↔ (vs ≡ [])
  unfolding remove_image
  remove_image_panics t [] = (λ h. refl, λ h. refl)
  remove_image_panics t (v ∷ vs) = (
    λ h.
        let bound : ltb (suc (length vs)) ((find_version s t 0 (0, s.zero) (v ∷ vs)).0 + 1)
            ≡ false =
          ground (arith, find_in_range t v vs 0 (0, s.zero)) in
        cc (rw bound at h),
    λ h. cc,
  )
