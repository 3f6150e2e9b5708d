-- ===== src/Service/Lookup.antt =====
-- efi-wrapper/efi/service.c: the tests on services, configurations and instances, and the lookups.
use text.Mathlib.Text.{◌==◌ as str_eq}
use efi_wrapper.Prelude.{
  ℕ, Bool, true, false, not, ◌&&◌, ◌||◌, ◌==◌, Option, none, some, List, [], ◌∷◌, if◌then◌else◌,
}
use efi_wrapper.Service.{
  ServiceStatus, starting, started, stopping, conditioning, skip, failed, Service, ServiceCfg,
  Instance,
}

abbrev pub is_started : ServiceStatus → Bool
is_started started = true
is_started _ = false

abbrev pub is_tried : ServiceStatus → Bool
is_tried skip = true
is_tried failed = true
is_tried conditioning = true
is_tried stopping = true
is_tried starting = true
is_tried started = true
is_tried _ = false

abbrev pub has_guid : Option ℕ → Bool
has_guid none = false
has_guid (some g) = true

-- efi_guid_equals, with a null pointer on the right.
abbrev pub guid_is : ℕ → Option ℕ → Bool
guid_is g none = false
guid_is g (some h) = g == h

abbrev pub any_guid : ℕ → List ℕ → Bool
any_guid g [] = false
any_guid g (h ∷ hs) = g == h || any_guid g hs

module _ {World : Type 0} where
  unfoldable pub svc_valid : Service World → Bool
  svc_valid svc = not (str_eq svc.name "") && has_guid svc.guid

  unfoldable pub svc_cfg_valid : ServiceCfg World → Bool
  unfolding svc_valid
  svc_cfg_valid cfg = not (str_eq cfg.cfg_name "") && svc_valid cfg.cfg_service

  unfoldable pub svc_ins_valid : Instance World → Bool
  unfolding svc_valid svc_cfg_valid
  svc_ins_valid ins =
      ins.service.id == ins.cfg.cfg_service.id && svc_valid ins.service && svc_cfg_valid ins.cfg

  unfoldable pub svc_is_guid : Service World → ℕ → Bool
  unfolding svc_valid
  svc_is_guid svc g = svc_valid svc && (guid_is g svc.guid || any_guid g svc.provides)

  unfoldable pub svc_ins_is_guid : Instance World → ℕ → Bool
  unfolding svc_ins_valid svc_is_guid
  svc_ins_is_guid ins g = svc_ins_valid ins && svc_is_guid ins.service g

  unfoldable pub same_guid : Service World → Service World → Bool
  same_guid s t = elim s.guid [ none ↦ false | some g ↦ guid_is g t.guid ]

  unfoldable pub svc_cmp : Service World → Service World → Bool
  unfolding svc_valid same_guid
  svc_cmp s t =
      svc_valid s && svc_valid t && (s.id == t.id || same_guid s t || str_eq s.name t.name)

  unfoldable pub svc_cfg_cmp : ServiceCfg World → ServiceCfg World → Bool
  unfolding svc_cfg_valid svc_cmp
  svc_cfg_cmp c d =
      svc_cfg_valid c
      && svc_cfg_valid d
      && (c.cfg_id == d.cfg_id
          || (svc_cmp c.cfg_service d.cfg_service && str_eq c.cfg_name d.cfg_name))

  -- The two instances are different objects wherever the program calls this.
  unfoldable pub svc_ins_cmp : Instance World → Instance World → Bool
  unfolding svc_ins_valid svc_cmp svc_cfg_cmp
  svc_ins_cmp a b =
      svc_ins_valid a && svc_ins_valid b && svc_cmp a.service b.service && svc_cfg_cmp a.cfg b.cfg

  unfoldable pub efi_service_is_svc_started : List (Instance World) → ℕ → Bool
  unfolding svc_ins_is_guid
  efi_service_is_svc_started [] g = false
  efi_service_is_svc_started (ins ∷ rest) g =
      svc_ins_is_guid ins g && is_started ins.status || efi_service_is_svc_started rest g

  unfoldable pub efi_service_is_svc_tried : List (Instance World) → ℕ → Bool
  unfolding svc_ins_is_guid
  efi_service_is_svc_tried [] g = false
  efi_service_is_svc_tried (ins ∷ rest) g =
      svc_ins_is_guid ins g && is_tried ins.status || efi_service_is_svc_tried rest g

  unfoldable pub all_started : List (Instance World) → List ℕ → Bool
  all_started all [] = true
  all_started all (g ∷ gs) = efi_service_is_svc_started all g && all_started all gs

  unfoldable pub all_tried : List (Instance World) → List ℕ → Bool
  all_tried all [] = true
  all_tried all (g ∷ gs) = efi_service_is_svc_tried all g && all_tried all gs

  unfoldable pub efi_service_is_svc_depends_done : List (Instance World) → Service World → Bool
  unfolding all_started all_tried
  efi_service_is_svc_depends_done all svc = all_started all svc.depends && all_tried all svc.after

  unfoldable pub efi_service_lookup_instance : List (Instance World) → ℕ → Option (Instance World)
  unfolding svc_ins_is_guid
  efi_service_lookup_instance [] g = none
  efi_service_lookup_instance (ins ∷ rest) g =
      if svc_ins_is_guid ins g then some ins else efi_service_lookup_instance rest g
