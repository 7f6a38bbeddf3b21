-- ===== src/Storage/Config.antt =====
-- components/server/run.go: what `ValidateCloudConfig` and `ValidateCDROM` leave in the VM.
use corectl.Base.{
  true, Bool-cases, Option-cases, inl, inr, ◌⊎◌, none, some, [], ◌∷◌, Text, codes, ◌≡◌, refl, arith,
  has_suffix,
}
use corectl.Daemon.{Error, bad_suffix, os_error}
use corectl.Storage.{Files, validate_cloud_config, validate_cdrom, insert_cdrom}
use corectl.Vm.{Vm, local_file, remote_url}

-- A cloud-config that was accepted is where the VM says: a remote one answered with success at the
-- given URL, a local one is the absolute path of a file that exists. An empty name changes nothing.
pub validate_cloud_config_sound :
    (f : Files) (config : Text) (vm : Vm)
    → (validate_cloud_config f config vm).1 ≡ none
    → let vm' = (validate_cloud_config f config vm).0 in
      ((config ≡ []) × (vm' ≡ vm))
      ⊎ ((vm'.cc_location ≡ remote_url) × (vm'.cloud_config ≡ config))
      ⊎ ((vm'.cc_location ≡ local_file)
          × (f.exists vm'.cloud_config ≡ true)
          × (f.abs config ≡ some vm'.cloud_config))
unfolding validate_cloud_config
validate_cloud_config_sound f [] vm e = inl (refl, refl)
validate_cloud_config_sound f (c ∷ config) vm e = ground arith

-- `ValidateCDROM` has nothing to do, or leaves one CD-ROM at slot 0 with the absolute path of a
-- file that exists and ends in ".iso", or reports an error and changes nothing.
pub validate_cdrom_cases :
    (f : Files) (path : Text) (vm : Vm)
    → ((path ≡ []) × (validate_cdrom f path vm ≡ (vm, none)))
      ⊎ ((abs : Text) × (has_suffix path (codes ".iso") ≡ true)
          × (f.exists path ≡ true)
          × (f.abs path ≡ some abs)
          × (validate_cdrom f path vm ≡ (insert_cdrom abs vm, none)))
      ⊎ ((e : Error) × (validate_cdrom f path vm ≡ (vm, some e)))
unfolding validate_cdrom
validate_cdrom_cases f [] vm = inl (refl, refl)
validate_cdrom_cases f (c ∷ path) vm = elim (Bool-cases (has_suffix (c ∷ path) (codes ".iso"))) [
  | inr s ↦ inr (inr (bad_suffix, rw s refl))
  | inl s ↦ elim (Bool-cases (f.exists (c ∷ path))) [
    | inr x ↦ inr (inr (os_error, rw (s, x) refl))
    | inl x ↦ elim (Option-cases (f.abs (c ∷ path))) [
      | inl e ↦ inr (inr (os_error, rw (s, x, e) refl))
      | inr (abs, e) ↦ inr (inl (abs, s, x, e, rw (s, x, e) refl))
    ]
  ]
]
