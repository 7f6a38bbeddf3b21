-- ===== src/Commands/Purge.antt =====
-- cmd/delete.go and components/server/rpcservices.go: the removal of old images, from the command
-- to the list that the server keeps.
use corectl.Base.{
  ◌-◌, Option, none, some, List, [], ◌∷◌, ◌++◌, map, Text, ◌≡◌, refl, ap, ◌∙◌, arith, length,
  length-append, take, returns,
}
use corectl.Commands.{remove_each, purge}
use corectl.Coreos.{Semver}
use corectl.Daemon.{Error}
use corectl.Images.{remove_image}
use corectl.Images.Removal.{remove_image_found}

take-length : {A : Type 0} (xs ys : List A) → take (length xs) (xs ++ ys) ≡ xs
take-length [] ys = refl
take-length (x ∷ xs) ys = ap (λ l. x ∷ l) (take-length xs ys)

take_init :
    {A : Type 0} (xs : List A) (x : A) → take (length (xs ++ x ∷ []) - 1) (xs ++ x ∷ []) ≡ xs
take_init xs x =
    let n : length (xs ++ x ∷ []) - 1 ≡ length xs = omega (arith, length-append xs (x ∷ [])) in
    ap (λ k. take k (xs ++ x ∷ [])) n ∙ take-length xs (x ∷ [])

remove_each_all :
    (remove : Text → Option Error) (ts : List Text)
    → ((t : Text) → remove t ≡ none)
    → remove_each remove ts ≡ (ts, none)
unfolding remove_each
remove_each_all remove [] h = refl
remove_each_all remove (t ∷ ts) h = ground (arith, h t, remove_each_all remove ts h)

module _ (s : Semver) where
  purge_requests :
      (remove : Text → Option Error) (vs : List s.Version) (v : s.Version)
      → purge s remove (vs ++ v ∷ [])
        ≡ returns
            (remove_each remove (map s.string (take (length (vs ++ v ∷ []) - 1) (vs ++ v ∷ []))))
  unfolding purge
  purge_requests remove [] v = refl
  purge_requests remove (w ∷ vs) v = refl

  -- What the requests make of the server's list; `none` is a panic.
  pub remove_all : List Text → List s.Version → Option (List s.Version)
  remove_all [] l = some l
  remove_all (t ∷ ts) l = elim (remove_image s t l) [ none ↦ none | some r ↦ remove_all ts r.0 ]

  remove_all_old :
      (vs : List s.Version) (v : s.Version)
      → remove_all (map s.string vs) (vs ++ v ∷ []) ≡ some (v ∷ [])
  unfolding remove_all
  remove_all_old [] v = refl
  remove_all_old (w ∷ vs) v =
      rw (remove_image_found s (s.string w) [] w (vs ++ v ∷ []) tt refl, remove_all)
        (remove_all_old vs v)

  -- If no removal fails, `rm` of the old images asks for every image but the newest on disk, in
  -- order. If the server's list, which it made at its start, is that of the disk, then these requests
  -- leave the newest alone in it.
  pub purge_lem :
      (remove : Text → Option Error) (vs media : List s.Version) (v : s.Version)
      → ((t : Text) → remove t ≡ none)
      → media ≡ vs ++ v ∷ []
      → (purge s remove (vs ++ v ∷ []) ≡ returns (map s.string vs, none))
        × (remove_all (map s.string vs) media ≡ some (v ∷ []))
  purge_lem remove vs media v h m = (
    purge_requests remove vs v
        ∙ ap returns (
            ap (λ l. remove_each remove (map s.string l)) (take_init vs v)
            ∙ remove_each_all remove (map s.string vs) h),
    ap (remove_all (map s.string vs)) m ∙ remove_all_old vs v,
  )
