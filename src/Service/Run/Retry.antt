-- ===== src/Service/Run/Retry.antt =====
-- Services with a condition whose start fails (efi-wrapper/efi/service.c, efi_service_auto_start).
use efi_wrapper.Prelude.{
  ℕ, zero, suc, ◌<◌, ◌≡◌, ◌⊎◌, inl, inr, refl, ◌∙◌, true, false, ◌==◌, none, some, List, [], ◌∷◌,
  ◌++◌, arith, Bool-cases,
}
use efi_wrapper.Status.{efi_error}
use efi_wrapper.Service.{ServiceStatus, stopped, failed, Callback, Service, Instance}
use efi_wrapper.Service.Lookup.{
  svc_ins_valid, all_started, all_tried, efi_service_is_svc_depends_done,
}
use efi_wrapper.Service.Run.{
  may_run_condition, run_condition, efi_service_run_instance_condition,
  efi_service_can_instance_start, efi_service_run_instance_start, run_start, try_start, start_one,
  start_pass, start_rounds,
}
use efi_wrapper.Service.Run.Machine.{svc_ins_valid-same}

module _ {World : Type 0} where
  -- A valid, enabled service that waits for nothing, whose condition holds and whose start fails.
  pub record Failing (svc : Service World) : Type 0 where
    pub enabled : svc.disabled ≡ false
    pub no_depends : svc.depends ≡ []
    pub no_after : svc.after ≡ []
    pub check : Callback World
    pub has_condition : svc.condition ≡ some check
    pub passes : (w : World) → efi_error (check w).0 ≡ false
    pub action : Callback World
    pub has_start : svc.start ≡ some action
    pub fails : (w : World) → efi_error (action w).0 ≡ true

  pub record Stuck (ins : Instance World) : Type 0 where
    pub service_fails : Failing ins.service
    pub is_valid : svc_ins_valid ins ≡ true
    pub waits : may_run_condition ins.status ≡ true

  abbrev pub HasStuck : List (Instance World) → Type 0
  HasStuck [] = ⊥
  HasStuck (x ∷ xs) = Stuck x ⊎ HasStuck xs

  HasStuck-append_left : (xs ys : List (Instance World)) → HasStuck xs → HasStuck (xs ++ ys)
  HasStuck-append_left [] ys h = elim h [ ]
  HasStuck-append_left (x ∷ xs) ys (inl s) = inl s
  HasStuck-append_left (x ∷ xs) ys (inr h) = inr (HasStuck-append_left xs ys h)

  HasStuck-append_right : (xs ys : List (Instance World)) → HasStuck ys → HasStuck (xs ++ ys)
  HasStuck-append_right [] ys h = h
  HasStuck-append_right (x ∷ xs) ys h = inr (HasStuck-append_right xs ys h)

  -- What the two callbacks make of the instance.
  record Turned (to : ServiceStatus) (ins ins' : Instance World) : Type 0 where
    same_service : ins'.service ≡ ins.service
    same_cfg : ins'.cfg ≡ ins.cfg
    turned : ins'.status ≡ to

  run_condition_passes :
      (f : Callback World) (ins : Instance World) (w : World)
      → efi_error (f w).0 ≡ false
      → may_run_condition ins.status ≡ true
      → (efi_error (run_condition (some f) ins w).0 ≡ false)
        × Turned stopped ins (run_condition (some f) ins w).1
  unfolding run_condition
  run_condition_passes f ins w p h = ground arith

  condition_passes :
      (ins : Instance World) (w : World)
      → Stuck ins
      → (efi_error (efi_service_run_instance_condition ins w).0 ≡ false)
        × Turned stopped ins (efi_service_run_instance_condition ins w).1
  unfolding efi_service_run_instance_condition
  condition_passes ins w s =
      simp (s.is_valid, s.service_fails.has_condition)
        (run_condition_passes s.service_fails.check ins w (s.service_fails.passes w) s.waits)

  waits_for_nothing :
      (all : List (Instance World)) (svc : Service World)
      → Failing svc
      → efi_service_is_svc_depends_done all svc ≡ true
  unfolding efi_service_is_svc_depends_done all_started all_tried
  waits_for_nothing all svc f = simp (f.no_depends, f.no_after)

  can_start_passes :
      (all : List (Instance World)) (ins : Instance World) (w : World)
      → Stuck ins
      → ((efi_service_can_instance_start all ins w).0 ≡ true)
        × Turned stopped ins (efi_service_can_instance_start all ins w).1
  unfolding efi_service_can_instance_start
  can_start_passes all ins w s =
      let svc = s.service_fails in
      let (ok, t) = condition_passes ins w s in
      simp (s.is_valid, svc.enabled, waits_for_nothing all ins.service svc, ok, t.turned) (refl, t)

  start_fails :
      (ins : Instance World) (w : World)
      → Failing ins.service
      → svc_ins_valid ins ≡ true
      → ins.status ≡ stopped
      → Turned failed ins (efi_service_run_instance_start ins w).1
  unfolding efi_service_run_instance_start run_start
  start_fails ins w svc valid e =
      rw (valid, e, svc.has_start)
        (rw (svc.fails w) (record { same_service = refl; same_cfg = refl; turned = refl }))

  module _ (new_handle : World → ℕ × World) where
    try_start_fails :
        (ins : Instance World) (w : World)
        → Failing ins.service
        → svc_ins_valid ins ≡ true
        → ins.status ≡ stopped
        → ((try_start new_handle ins w).2 ≡ 1) × Turned failed ins (try_start new_handle ins w).0
    unfolding try_start
    try_start_fails ins w svc valid e =
        let ins2 = record ins { handle = (new_handle w).0 } in
        let t1 =
          start_fails ins2 (new_handle w).1 svc (svc_ins_valid-same ins ins2 refl refl ∙ valid) e in
        elim (Bool-cases (ins.handle == 0)) [
          | inl h ↦ rw h (
            refl,
            record { same_service = t1.same_service; same_cfg = t1.same_cfg; turned = t1.turned },
          )
          | inr h ↦ rw h (refl, start_fails ins w svc valid e)
        ]

    start_one-Stuck :
        (all : List (Instance World)) (ins : Instance World) (w : World)
        → Stuck ins
        → ((start_one new_handle all ins w).2 ≡ 1) × Stuck (start_one new_handle all ins w).0
    unfolding start_one
    start_one-Stuck all ins w s =
        let (can, t) = can_start_passes all ins w s in
        let (_, ins1, w1) = efi_service_can_instance_start all ins w in
        let (one, u) =
          try_start_fails ins1 w1 (rw t.same_service s.service_fails)
            (svc_ins_valid-same ins ins1 t.same_service t.same_cfg ∙ s.is_valid) t.turned in
        let ins3 = (try_start new_handle ins1 w1).0 in
        rw can (
          one,
          record {
            service_fails = rw (u.same_service, t.same_service) s.service_fails;
            is_valid =
                svc_ins_valid-same ins1 ins3 u.same_service u.same_cfg
                ∙ svc_ins_valid-same ins ins1 t.same_service t.same_cfg
                ∙ s.is_valid;
            waits = rw u.turned;
          },
        )

    start_pass_keeps :
        (before rest : List (Instance World)) (w : World)
        → HasStuck before
        → HasStuck (start_pass new_handle before rest w).0
    unfolding start_pass
    start_pass_keeps before [] w h = h
    start_pass_keeps before (ins ∷ rest) w h =
        let (ins', w', n) = start_one new_handle (before ++ ins ∷ rest) ins w in
        start_pass_keeps (before ++ ins' ∷ []) rest w' (HasStuck-append_left before (ins' ∷ []) h)

    start_pass-HasStuck :
        (before rest : List (Instance World)) (w : World)
        → HasStuck rest
        → (0 < (start_pass new_handle before rest w).2)
          × HasStuck (start_pass new_handle before rest w).0
    unfolding start_pass
    start_pass-HasStuck before [] w h = elim h [ ]
    start_pass-HasStuck before (ins ∷ rest) w (inl s) =
        let (ins', w', n) = start_one new_handle (before ++ ins ∷ rest) ins w in
        let (one, s') = start_one-Stuck (before ++ ins ∷ rest) ins w s in
        (
          omega (arith, one),
          start_pass_keeps (before ++ ins' ∷ []) rest w'
              (HasStuck-append_right before (ins' ∷ []) (inl s')),
        )
    start_pass-HasStuck before (ins ∷ rest) w (inr h) =
        let (ins', w', n) = start_one new_handle (before ++ ins ∷ rest) ins w in
        let (some_tried, h') = start_pass-HasStuck (before ++ ins' ∷ []) rest w' h in
        (omega (arith, some_tried), h')

    -- If an instance of the list is valid and in a status in which its condition may run, and its
    -- service is enabled, waits for no other service, and has a condition that always passes and a
    -- start that always fails, then the start rounds do not end, whatever the fuel.
    pub start_rounds_diverge :
        (fuel : ℕ) (all : List (Instance World)) (w : World)
        → HasStuck all
        → start_rounds new_handle fuel all w ≡ none
    unfolding start_rounds
    start_rounds_diverge zero all w h = refl
    start_rounds_diverge (suc fuel) all w h =
        let (all', w', n) = start_pass new_handle [] all w in
        let (busy, h') = start_pass-HasStuck [] all w h in
        ground (arith, busy, start_rounds_diverge fuel all' w' h')
