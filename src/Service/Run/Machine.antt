-- ===== src/Service/Run/Machine.antt =====
-- What one round of the start loop does to one instance (efi-wrapper/efi/service.c).
use efi_wrapper.Prelude.{ℕ, ◌≡◌, ◌⊎◌, refl, ◌∙◌, true, false, Option, none, some, List, arith}
use efi_wrapper.Status.{EfiStatus}
use efi_wrapper.Service.{Callback, Instance}
use efi_wrapper.Service.Lookup.{
  is_started, all_started, svc_ins_valid, efi_service_is_svc_depends_done,
}
use efi_wrapper.Service.Run.{
  startable, run_condition, run_start, efi_service_run_instance_condition,
  efi_service_run_instance_start, efi_service_can_instance_start, try_start, start_one,
}

module _ {World : Type 0} where
  -- The condition leaves all but the status alone, and the status of a started instance too.
  pub record Quiet (ins ins' : Instance World) : Type 0 where
    pub same_service : ins'.service ≡ ins.service
    pub same_cfg : ins'.cfg ≡ ins.cfg
    pub still_started : is_started ins.status ≡ true → is_started ins'.status ≡ true
    not_new : is_started ins'.status ≡ true → is_started ins.status ≡ true

  run_condition-Quiet :
      (f : Option (Callback World)) (ins : Instance World) (w : World)
      → Quiet ins (run_condition f ins w).1
  unfolding run_condition
  run_condition-Quiet none ins w = ground arith
  run_condition-Quiet (some f) ins w = ground arith

  pub can_start-Quiet :
      (all : List (Instance World)) (ins : Instance World) (w : World)
      → Quiet ins (efi_service_can_instance_start all ins w).1
  unfolding efi_service_can_instance_start efi_service_run_instance_condition
  can_start-Quiet all ins w = ground (arith, run_condition-Quiet ins.service.condition ins w)

  pub can_start_needs :
      (all : List (Instance World)) (ins : Instance World) (w : World)
      → (efi_service_can_instance_start all ins w).0 ≡ true
      → (all_started all ins.service.depends ≡ true)
        × (ins.service.disabled ≡ false)
        × (startable (efi_service_can_instance_start all ins w).1.status ins.service.restart ≡ true)
  unfolding efi_service_can_instance_start efi_service_run_instance_condition
      efi_service_is_svc_depends_done
  can_start_needs all ins w h = ground arith

  pub svc_ins_valid-same :
      (ins ins' : Instance World)
      → ins'.service ≡ ins.service
      → ins'.cfg ≡ ins.cfg
      → svc_ins_valid ins' ≡ svc_ins_valid ins
  unfolding svc_ins_valid
  svc_ins_valid-same ins ins' e f = rw (e, f)

  pub can_start_valid :
      (all : List (Instance World)) (ins : Instance World) (w : World)
      → (efi_service_can_instance_start all ins w).0 ≡ true
      → svc_ins_valid (efi_service_can_instance_start all ins w).1 ≡ true
  unfolding efi_service_can_instance_start efi_service_run_instance_condition
  can_start_valid all ins w h =
      let ins' = (efi_service_can_instance_start all ins w).1 in
      let q = can_start-Quiet all ins w in
      svc_ins_valid-same ins ins' q.same_service q.same_cfg ∙ was_valid h
    where
      was_valid : (efi_service_can_instance_start all ins w).0 ≡ true → svc_ins_valid ins ≡ true
      was_valid k = ground arith

  run_start-same :
      (o : Option EfiStatus) (ins : Instance World) (w : World)
      → ((run_start o ins w).1.service ≡ ins.service) × ((run_start o ins w).1.cfg ≡ ins.cfg)
  unfolding run_start
  run_start-same none ins w = (refl, refl)
  run_start-same (some st) ins w = (refl, refl)

  module _ (new_handle : World → ℕ × World) (all : List (Instance World)) where
    -- One body of the loop: a started instance stays started, and one that becomes started had
    -- all its dependencies started before, and was not disabled.
    pub record Stepped (ins ins' : Instance World) : Type 0 where
      pub same_service : ins'.service ≡ ins.service
      pub same_cfg : ins'.cfg ≡ ins.cfg
      pub still_started : is_started ins.status ≡ true → is_started ins'.status ≡ true
      pub new_needs :
          is_started ins'.status ≡ true
          → (is_started ins.status ≡ true)
            ⊎ ((all_started all ins.service.depends ≡ true) × (ins.service.disabled ≡ false))

    pub start_one-Stepped :
        (ins : Instance World) (w : World) → Stepped ins (start_one new_handle all ins w).0
    unfolding start_one try_start efi_service_run_instance_start
    start_one-Stepped ins w = ground (arith, can_start-Quiet all ins w, can_start_needs all ins w)
