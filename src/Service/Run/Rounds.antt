-- ===== src/Service/Run/Rounds.antt =====
-- When the start rounds end (efi-wrapper/efi/service.c, efi_service_auto_start).
use efi_wrapper.Prelude.{
  ℕ, zero, suc, ◌+◌, ◌<◌, ◌≤◌, ◌≡◌, ◌≢◌, ◌⊎◌, inl, inr, refl, ◌∙◌, Bool, true, false, ◌||◌, ◌==◌,
  Option, none, some, List, [], ◌∷◌, ◌++◌, length, if◌then◌else◌, arith, Bool-cases,
}
use efi_wrapper.Status.{efi_error}
use efi_wrapper.Service.{ServiceStatus, started, failed, Callback, Service, Instance}
use efi_wrapper.Service.Run.{
  call, run_condition, run_start, efi_service_run_instance_condition, start_refused, startable,
  efi_service_run_instance_start, efi_service_can_instance_start, try_start, start_one, start_pass,
  start_rounds,
}
use efi_wrapper.Service.Lookup.{svc_ins_valid}
use efi_wrapper.Service.Run.Machine.{
  start_one-Stepped, can_start_needs, can_start_valid, can_start-Quiet, svc_ins_valid-same,
}

abbrev has_callback {ℓ} : {A : Type ℓ} → Option A → Bool
has_callback none = false
has_callback (some f) = true

-- The number of starts that an instance has ahead.
weight_at : ServiceStatus → Bool → ℕ
weight_at started retry = 0
weight_at failed retry = if retry then 1 else 0
weight_at _ retry = 1

module _ {World : Type 0} where
  -- A service whose start is not tried again after a failure, or never fails.
  abbrev pub StartEnds : Service World → Type 0
  StartEnds svc =
      ((svc.restart ≡ false) × (svc.condition ≡ none))
      ⊎ ((w : World) → efi_error (call svc.start w).0 ≡ false)

  abbrev pub AllEnd : List (Instance World) → Type 0
  AllEnd [] = Unit
  AllEnd (x ∷ xs) = StartEnds x.service × AllEnd xs

  weight : Instance World → ℕ
  unfolding weight_at
  weight ins = weight_at ins.status (ins.service.restart || has_callback ins.service.condition)

  total : List (Instance World) → ℕ
  total [] = 0
  total (x ∷ xs) = weight x + total xs

  run_condition-weight :
      (f : Option (Callback World)) (ins : Instance World) (w : World)
      → ins.service.condition ≡ f
      → weight (run_condition f ins w).1 ≤ weight ins
  unfolding run_condition weight
  run_condition-weight none ins w e = omega arith
  run_condition-weight (some f) ins w e = ground arith

  run_start-weight :
      (ins : Instance World) (w : World)
      → StartEnds ins.service
      → startable ins.status ins.service.restart ≡ true
      → 1 + weight (run_start (start_refused ins.status ins.service.restart) ins w).1 ≤ weight ins
  unfolding run_start weight
  run_start-weight ins w (inl (r, c)) h = ground arith
  run_start-weight ins w (inr never) h = ground (arith, never w)

  can_start-weight :
      (all : List (Instance World)) (ins : Instance World) (w : World)
      → weight (efi_service_can_instance_start all ins w).1 ≤ weight ins
  unfolding efi_service_can_instance_start efi_service_run_instance_condition
  can_start-weight all ins w = ground (arith, run_condition-weight ins.service.condition ins w)

  instance_start-weight :
      (ins : Instance World) (w : World)
      → StartEnds ins.service
      → svc_ins_valid ins ≡ true
      → startable ins.status ins.service.restart ≡ true
      → 1 + weight (efi_service_run_instance_start ins w).1 ≤ weight ins
  unfolding efi_service_run_instance_start
  instance_start-weight ins w ends valid h = ground (arith, run_start-weight ins w)

  weight-same :
      (ins ins2 : Instance World)
      → ins2.service ≡ ins.service
      → ins2.status ≡ ins.status
      → weight ins2 ≡ weight ins
  unfolding weight
  weight-same ins ins2 e s = rw (e, s)

  handled-weight :
      (ins ins2 : Instance World) (w : World)
      → ins2.service ≡ ins.service
      → ins2.status ≡ ins.status
      → svc_ins_valid ins2 ≡ true
      → StartEnds ins.service
      → startable ins.status ins.service.restart ≡ true
      → 1 + weight (efi_service_run_instance_start ins2 w).1 ≤ weight ins
  handled-weight ins ins2 w e s valid ends h =
      let same : weight ins2 ≡ weight ins = weight-same ins ins2 e s in
      omega (arith, same, instance_start-weight ins2 w (rw e ends) valid (rw (e, s) h))

  module _ (new_handle : World → ℕ × World) where
    try_start-weight :
        (ins : Instance World) (w : World)
        → svc_ins_valid ins ≡ true
        → StartEnds ins.service
        → startable ins.status ins.service.restart ≡ true
        → (try_start new_handle ins w).2 + weight (try_start new_handle ins w).0 ≤ weight ins
    unfolding try_start
    try_start-weight ins w valid ends h = elim (Bool-cases (ins.handle == 0)) [
      | inl e ↦ rw e (
          handled-weight ins (record ins { handle = (new_handle w).0 }) (new_handle w).1 refl refl
            (svc_ins_valid-same ins (record ins { handle = (new_handle w).0 }) refl refl ∙ valid)
            ends h)
      | inr e ↦ rw e (handled-weight ins ins w refl refl valid ends h)
    ]

    start_one-weight :
        (all : List (Instance World)) (ins : Instance World) (w : World)
        → StartEnds ins.service
        → (start_one new_handle all ins w).2 + weight (start_one new_handle all ins w).0
          ≤ weight ins
    unfolding start_one
    start_one-weight all ins w ends =
        let (can, ins1, w1) = efi_service_can_instance_start all ins w in
        let q = can_start-Quiet all ins w in
        elim (Bool-cases can) [
          | inl e ↦ rw e (
              omega (
                arith,
                try_start-weight ins1 w1 (can_start_valid all ins w e) (rw q.same_service ends)
                    (rw q.same_service (can_start_needs all ins w e).2),
                can_start-weight all ins w,
              ))
          | inr e ↦ rw e (omega (arith, can_start-weight all ins w))
        ]

    total-append : (xs ys : List (Instance World)) → total (xs ++ ys) ≡ total xs + total ys
    unfolding total
    total-append [] ys = omega arith
    total-append (x ∷ xs) ys = omega (arith, total-append xs ys)

    AllEnd-append : (xs ys : List (Instance World)) → AllEnd xs → AllEnd ys → AllEnd (xs ++ ys)
    AllEnd-append [] ys p q = q
    AllEnd-append (x ∷ xs) ys p q = (p.0, AllEnd-append xs ys p.1 q)

    start_pass-total :
        (before rest : List (Instance World)) (w : World)
        → AllEnd before
        → AllEnd rest
        → (AllEnd (start_pass new_handle before rest w).0)
          × ((start_pass new_handle before rest w).2 + total (start_pass new_handle before rest w).0
              ≤ total before + total rest)
    unfolding start_pass total
    start_pass-total before [] w ends ends' = (ends, omega arith)
    start_pass-total before (ins ∷ rest) w ends ends' =
        let all = before ++ ins ∷ rest in
        let (ins', w', n) = start_one new_handle all ins w in
        let s = start_one-Stepped new_handle all ins w in
        let (kept, less) =
          start_pass-total (before ++ ins' ∷ []) rest w'
            (AllEnd-append before (ins' ∷ []) ends (rw s.same_service ends'.0, tt)) ends'.1 in
        (
          kept,
          omega (arith, less, start_one-weight all ins w ends'.0, total-append before (ins' ∷ [])),
        )

    start_rounds_end :
        (fuel : ℕ) (all : List (Instance World)) (w : World)
        → AllEnd all
        → total all < fuel
        → start_rounds new_handle fuel all w ≢ none
    unfolding start_rounds total
    start_rounds_end zero all w ends h = absurd (omega arith)
    start_rounds_end (suc fuel) all w ends h =
        let (all', w', n) = start_pass new_handle [] all w in
        let (kept, less) = start_pass-total [] all w tt ends in
        ground (arith, less, start_rounds_end fuel all' w' kept)

  total-le-length : (all : List (Instance World)) → total all ≤ length all
  unfolding total weight
  total-le-length [] = omega arith
  total-le-length (x ∷ xs) = ground (arith, total-le-length xs)

  -- The start rounds end after at most one round more than there are instances, if each service
  -- either has neither a condition nor the restart mark, or a start that never fails.
  pub start_rounds_terminate :
      (new_handle : World → ℕ × World) (all : List (Instance World)) (w : World)
      → AllEnd all
      → start_rounds new_handle (suc (length all)) all w ≢ none
  start_rounds_terminate new_handle all w ends =
      start_rounds_end new_handle (suc (length all)) all w ends (omega (arith, total-le-length all))
