-- ===== src/Service/Run.antt =====
-- efi-wrapper/efi/service.c: the state machine of an instance, and the rounds that start and stop
-- the instances of a context.
pub mod Machine
pub mod Order
pub mod Rounds
pub mod Retry
pub mod Stopping
use efi_wrapper.Prelude.{
  ℕ, zero, suc, ◌+◌, ◌≡◌, refl, Bool, true, false, not, ◌&&◌, ◌||◌, ◌==◌, Option, none, some, List,
  [], ◌∷◌, ◌++◌, if◌then◌else◌, arith,
}
use efi_wrapper.Status.{
  EfiStatus, success, invalid_parameter, not_ready, already_started, efi_error,
}
use efi_wrapper.Service.{
  ServiceStatus, unknown, starting, started, stopping, stopped, conditioning, skip, failed,
  Callback, Service, ServiceCfg, Instance,
}
use efi_wrapper.Service.Lookup.{
  is_started, guid_is, has_guid, svc_ins_valid, svc_is_guid, same_guid,
  efi_service_is_svc_depends_done,
}

abbrev pub may_run_condition : ServiceStatus → Bool
may_run_condition skip = true
may_run_condition failed = true
may_run_condition stopped = true
may_run_condition _ = false

-- What the `switch` of efi_service_run_instance_start answers instead of a start.
abbrev pub start_refused : ServiceStatus → Bool → Option EfiStatus
start_refused stopped restart = none
start_refused failed true = none
start_refused failed false = some already_started
start_refused started restart = some already_started
start_refused _ restart = some not_ready

abbrev pub startable : ServiceStatus → Bool → Bool
startable failed restart = restart
startable stopped restart = true
startable _ restart = false

abbrev pub Step : Type 0 → Type 0
Step World = EfiStatus × Instance World × World

module _ {World : Type 0} where
  -- A null callback succeeds.
  abbrev pub call : Option (Callback World) → Callback World
  call none w = (success, w)
  call (some f) w = f w

  abbrev pub with_status : Instance World → ServiceStatus → Instance World
  with_status ins st = record ins { status = st }

  unfoldable pub run_condition : Option (Callback World) → Instance World → World → Step World
  run_condition none ins w = (success, ins, w)
  run_condition (some f) ins w =
      if may_run_condition ins.status
      then (let (st, w') = f w in
          (st, with_status ins (if efi_error st then skip else stopped), w'))
      else (not_ready, ins, w)

  unfoldable pub efi_service_run_instance_condition : Instance World → World → Step World
  unfolding run_condition
  efi_service_run_instance_condition ins w =
      if svc_ins_valid ins
      then run_condition ins.service.condition ins w
      else (invalid_parameter, ins, w)

  unfoldable pub run_start : Option EfiStatus → Instance World → World → Step World
  run_start (some st) ins w = (st, ins, w)
  run_start none ins w =
      let (st, w') = call ins.service.start w in
      (st, with_status ins (if efi_error st then failed else started), w')

  unfoldable pub efi_service_run_instance_start : Instance World → World → Step World
  unfolding run_start
  efi_service_run_instance_start ins w =
      if svc_ins_valid ins
      then run_start (start_refused ins.status ins.service.restart) ins w
      else (invalid_parameter, ins, w)

  unfoldable pub efi_service_run_instance_stop : Instance World → World → Step World
  efi_service_run_instance_stop ins w =
      if not (svc_ins_valid ins)
      then (invalid_parameter, ins, w)
      else if is_started ins.status
      then (let (st, w') = call ins.service.stop w in
          (st, with_status ins (if efi_error st then failed else stopped), w'))
      else (not_ready, ins, w)

  -- The condition may change the status of the instance, also where the answer is no.
  unfoldable pub efi_service_can_instance_start :
      List (Instance World) → Instance World → World → Bool × Instance World × World
  efi_service_can_instance_start all ins w =
      if not (svc_ins_valid ins)
        || ins.service.disabled
        || not (efi_service_is_svc_depends_done all ins.service)
      then (false, ins, w)
      else (let (st, ins', w') = efi_service_run_instance_condition ins w in
          (not (efi_error st) && startable ins'.status ins.service.restart, ins', w'))

  unfoldable pub needs_service : Service World → List ℕ → Bool
  needs_service svc [] = false
  needs_service svc (g ∷ gs) = svc_is_guid svc g || needs_service svc gs

  unfoldable pub is_dependent : Instance World → Instance World → Bool
  unfolding needs_service
  is_dependent ins x =
      svc_ins_valid x
      && is_started x.status
      && not x.service.disabled
      && not (same_guid x.service ins.service)
      && needs_service ins.service x.service.depends

  unfoldable pub any_dependent : Instance World → List (Instance World) → Bool
  any_dependent ins [] = false
  any_dependent ins (x ∷ xs) = is_dependent ins x || any_dependent ins xs

  unfoldable pub efi_service_can_instance_stop : List (Instance World) → Instance World → Bool
  unfolding any_dependent
  efi_service_can_instance_stop all ins =
      svc_ins_valid ins
      && not ins.service.disabled
      && is_started ins.status
      && any_dependent ins all

  -- `efi_new_handle` gives the handle of a first start.
  module _ (new_handle : World → ℕ × World) where
    abbrev pub with_handle : Instance World → World → Instance World × World
    with_handle ins w =
        if ins.handle == 0
        then (let (h, w') = new_handle w in (record ins { handle = h }, w'))
        else (ins, w)

    unfoldable pub try_start : Instance World → World → Instance World × World × ℕ
    try_start ins w =
        let (ins2, w2) = with_handle ins w in
        let (st, ins3, w3) = efi_service_run_instance_start ins2 w2 in (ins3, w3, 1)

    -- The body of the loop of a round: the new instance, and 1 if a start was tried.
    unfoldable pub start_one :
        List (Instance World) → Instance World → World → Instance World × World × ℕ
    start_one all ins w =
        let (can, ins1, w1) = efi_service_can_instance_start all ins w in
        if can then try_start ins1 w1 else (ins1, w1, 0)

    -- One round over the list: what is done already, what is left.
    unfoldable pub start_pass :
        List (Instance World) → List (Instance World) → World → List (Instance World) × World × ℕ
    start_pass before [] w = (before, w, 0)
    start_pass before (ins ∷ rest) w =
        let (ins', w', tried) = start_one (before ++ ins ∷ rest) ins w in
        let (all, w'', more) = start_pass (before ++ ins' ∷ []) rest w' in (all, w'', tried + more)

    -- `do … while(round>0)` with fuel for the rounds; `none` means that the fuel ran out.
    unfoldable pub start_rounds :
        ℕ → List (Instance World) → World → Option (List (Instance World) × World)
    start_rounds zero all w = none
    start_rounds (suc fuel) all w =
        let (all', w', tried) = start_pass [] all w in
        let more = start_rounds fuel all' w' in if tried == 0 then some (all', w') else more

  unfoldable pub stop_one :
      List (Instance World) → Instance World → World → Instance World × World × ℕ
  stop_one all ins w =
      if efi_service_can_instance_stop all ins
      then (let (st, ins', w') = efi_service_run_instance_stop ins w in (ins', w', 1))
      else (ins, w, 0)

  unfoldable pub stop_pass :
      List (Instance World) → List (Instance World) → World → List (Instance World) × World × ℕ
  stop_pass before [] w = (before, w, 0)
  stop_pass before (ins ∷ rest) w =
      let (ins', w', tried) = stop_one (before ++ ins ∷ rest) ins w in
      let (all, w'', more) = stop_pass (before ++ ins' ∷ []) rest w' in (all, w'', tried + more)

  unfoldable pub stop_rounds :
      ℕ → List (Instance World) → World → Option (List (Instance World) × World)
  stop_rounds zero all w = none
  stop_rounds (suc fuel) all w =
      let (all', w', tried) = stop_pass [] all w in
      let more = stop_rounds fuel all' w' in if tried == 0 then some (all', w') else more
