-- ===== src/Services/Frame.antt =====
-- components/server/rpcservices.go: what the services leave as it is.
use corectl.Base.{
  [], ◌∷◌, Option-cases, inl, inr, List, Text, ◌≡◌, refl, lookup, if_elim, not, Outcome, returns,
  hangs, panics, Result, ok, err,
}
use corectl.Coreos.{Semver}
use corectl.Daemon.{Daemon, Error}
use corectl.Images.{Store, remove_image, or_empty}
use corectl.Services.{
  Host, Query, echo, handles_nfs, available_images, active_vms, remove_an_image, uuid_to_mac_addr,
  Served, serve, guarded, echo_service, nfs_service, images_service, vms_service,
  remove_image_service, mac_address_service, list_images, remove_service, delete_files, mac_service,
}

module _ (s : Semver) where
  -- A service of the RPC server leaves the VMs and the reports as they are.
  pub record Keeps (d e : Daemon s.Version) : Type 0 where
    pub active : e.active ≡ d.active
    pub accepting : e.accepting_requests ≡ d.accepting_requests
    pub oops : e.oops ≡ d.oops

  unchanged : (d : Daemon s.Version) → Keeps d d
  unchanged d = record { active = refl; accepting = refl; oops = refl }

  abbrev pub Kept : Daemon s.Version → Outcome (Served s) → Type 0
  Kept d (returns r) = Keeps d r.daemon
  Kept d hangs = Unit
  Kept d panics = Unit

  list_images-Kept :
      (r : Store × Result Error (List (Text × List s.Version))) (d e : Daemon s.Version)
      → Keeps d e
      → Kept d (list_images s r e)
  unfolding list_images
  list_images-Kept (store, ok images) d e k = k
  list_images-Kept (store, err x) d e k = k

  delete_files-Kept :
      (h : Host s) (channel version : Text) (d e : Daemon s.Version) (store : Store)
      → Keeps d e
      → Kept d (delete_files s h channel version e store)
  unfolding delete_files
  delete_files-Kept h channel version d e store k =
      elim (Option-cases (h.remove_dir channel version store)) [
        | inl t ↦ rw (t, Kept) k
        | inr (left, t) ↦ rw (t, Kept) (list_images-Kept _ d e k)
      ]

  remove_service-Kept :
      (h : Host s) (channel version : Text) (d : Daemon s.Version) (store : Store)
      → Kept d (remove_service s h channel version d store)
  unfolding remove_service
  remove_service-Kept h channel version d store =
      elim (Option-cases (remove_image s version (or_empty (lookup channel d.media)))) [
        | inl t ↦ rw (t, Kept) tt
        | inr (r, t) ↦
            rw (t, Kept)
              (delete_files-Kept h channel (s.string r.1) d _ store
                (record { active = refl; accepting = refl; oops = refl }))
      ]

  guarded-Kept :
      (d : Daemon s.Version) (store : Store) (o : Outcome (Served s))
      → Kept d o
      → Kept d (guarded s d store o)
  guarded-Kept d store o k = if_elim (Kept d) (not d.accepting_requests) _ _ (unchanged d) k

  mac-Kept :
      (h : Host s) (uuid : Text) (d : Daemon s.Version) (store : Store)
      → Kept d (mac_service s h uuid d store)
  unfolding mac_service
  mac-Kept h uuid d store = unchanged d

  pub serve-Kept :
      (h : Host s) (q : Query s) (d : Daemon s.Version) (store : Store)
      → Kept d (serve s h q d store)
  unfolding serve echo_service nfs_service images_service vms_service remove_image_service
      mac_address_service
  serve-Kept h echo d store = guarded-Kept d store _ (unchanged d)
  serve-Kept h handles_nfs d store = guarded-Kept d store _ (unchanged d)
  serve-Kept h available_images d store =
      guarded-Kept d store _ (list_images-Kept _ d d (unchanged d))
  serve-Kept h active_vms d store = guarded-Kept d store _ (unchanged d)
  serve-Kept h (remove_an_image []) d store = tt
  serve-Kept h (remove_an_image (c ∷ [])) d store = tt
  serve-Kept h (remove_an_image (c ∷ v ∷ ts)) d store =
      guarded-Kept d store _ (remove_service-Kept h c v d store)
  serve-Kept h (uuid_to_mac_addr []) d store = tt
  serve-Kept h (uuid_to_mac_addr (u ∷ [])) d store = tt
  serve-Kept h (uuid_to_mac_addr (u ∷ o ∷ ts)) d store =
      guarded-Kept d store _ (mac-Kept h u d store)
