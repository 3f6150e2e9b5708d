-- ===== src/Examples/Services.antt =====
-- The start and the stop of services (efi-wrapper/efi/service.c) at concrete inputs. The world counts
-- the calls of the start functions.
use efi_wrapper.Prelude.{
  ℕ, String, ◌+◌, ◌≡◌, ◌≢◌, inl, inr, refl, true, false, not, ◌&&◌, Option, none, some, List, [],
  ◌∷◌, ◌++◌, arith,
}
use efi_wrapper.Status.{success, device_error, efi_error}
use efi_wrapper.Service.{ServiceStatus, started, stopped, Callback, Service, ServiceCfg, Instance}
use efi_wrapper.Service.Lookup.{
  svc_valid, svc_cfg_valid, svc_ins_valid, svc_is_guid, svc_ins_is_guid, efi_service_is_svc_started,
  all_started, all_tried, efi_service_is_svc_tried, efi_service_is_svc_depends_done,
}
use efi_wrapper.Service.Run.{
  run_condition, efi_service_run_instance_condition, run_start, efi_service_run_instance_start,
  efi_service_can_instance_start, try_start, start_one, start_pass, start_rounds,
}
use efi_wrapper.Service.Run.Order.{DependsClosed, start_rounds-DependsClosed}
use efi_wrapper.Service.Run.Rounds.{start_rounds_terminate}
use efi_wrapper.Service.Run.Retry.{Failing, Stuck, start_rounds_diverge}
use efi_wrapper.Service.Install.{
  Outcomes, efi_service_install_all, got, ComeFrom, AllSettled, install_all_twice,
}

abbrev count_start : Callback ℕ
count_start w = (success, w + 1)

abbrev fail_start : Callback ℕ
fail_start w = (device_error, w + 1)

abbrev check_passes : Callback ℕ
check_passes w = (success, w)

abbrev service_of : ℕ → ℕ → String → List ℕ → Option (Callback ℕ) → Option (Callback ℕ) → Service ℕ
service_of id guid name depends condition start = record {
  id = id;
  guid = some guid;
  name = name;
  provides = [];
  depends = depends;
  after = [];
  condition = condition;
  start = start;
  stop = none;
  disabled = false;
  restart = false;
  cust_len = 0;
}

abbrev cfg_of : Service ℕ → ServiceCfg ℕ
cfg_of svc = record { cfg_id = svc.id; cfg_name = "default"; cfg_service = svc }

abbrev instance_of : ServiceStatus → ℕ → Service ℕ → Instance ℕ
instance_of st handle svc = record { status = st; cfg = cfg_of svc; service = svc; handle = handle }

abbrev base : Service ℕ
base = service_of 1 10 "base" [] none (some count_start)

abbrev app : Service ℕ
app = service_of 2 20 "app" (10 ∷ []) none (some count_start)

abbrev broken : Service ℕ
broken = service_of 3 30 "broken" [] (some check_passes) (some fail_start)

abbrev new_handle : ℕ → ℕ × ℕ
new_handle w = (99, w)

-- The dependent service stands first in the list.
abbrev all_stopped : List (Instance ℕ)
all_stopped = instance_of stopped 0 app ∷ instance_of stopped 0 base ∷ []

abbrev all_running : List (Instance ℕ)
all_running = instance_of started 99 app ∷ instance_of started 99 base ∷ []

runs : start_rounds new_handle 4 all_stopped 0 ≡ some (all_running, 2)
unfolding start_rounds start_pass start_one try_start efi_service_run_instance_start run_start
    efi_service_can_instance_start efi_service_run_instance_condition run_condition svc_ins_valid
    svc_valid svc_cfg_valid svc_is_guid svc_ins_is_guid efi_service_is_svc_started
    efi_service_is_svc_tried all_started all_tried efi_service_is_svc_depends_done efi_error
runs = refl

start_rounds-DependsClosed_example : DependsClosed all_running
start_rounds-DependsClosed_example =
    start_rounds-DependsClosed new_handle 4 all_stopped 0 runs
      ((λ h. absurd (ground (arith, h))), ((λ h. absurd (ground (arith, h))), tt))

start_rounds_terminate_example : start_rounds new_handle 3 all_stopped 0 ≢ none
start_rounds_terminate_example =
    start_rounds_terminate new_handle all_stopped 0 (inl (refl, refl), (inl (refl, refl), tt))

broken-Failing : Failing broken
unfolding efi_error
broken-Failing = record {
  enabled = refl;
  no_depends = refl;
  no_after = refl;
  check = check_passes;
  has_condition = refl;
  passes = λ w. refl;
  action = fail_start;
  has_start = refl;
  fails = λ w. refl;
}

broken-Stuck : Stuck (instance_of stopped 0 broken)
unfolding svc_ins_valid svc_valid svc_cfg_valid
broken-Stuck = record { service_fails = broken-Failing; is_valid = refl; waits = refl }

start_rounds_diverge_example :
    start_rounds new_handle 50 (instance_of stopped 0 base ∷ instance_of stopped 0 broken ∷ []) 0
    ≡ none
start_rounds_diverge_example =
    start_rounds_diverge new_handle 50
      (instance_of stopped 0 base ∷ instance_of stopped 0 broken ∷ []) 0 (inr (inl broken-Stuck))

-- A service with custom data, and a run that gets no memory for them.
abbrev kept : Service ℕ
kept = record {
  id = 4;
  guid = some 40;
  name = "kept";
  provides = [];
  depends = [];
  after = [];
  condition = none;
  start = none;
  stop = none;
  disabled = false;
  restart = false;
  cust_len = 8;
}

abbrev cfgs : List (ServiceCfg ℕ)
cfgs = cfg_of base ∷ cfg_of kept ∷ []

abbrev lean : Outcomes
lean = record { custom_data = λ turn. false; list_item = λ turn. true }

abbrev plenty : Outcomes
plenty = record { custom_data = λ turn. true; list_item = λ turn. true }

install_all_twice_example :
    ((more : List (Instance ℕ)) × (efi_service_install_all lean cfgs [] ≡ [] ++ more)
      × ComeFrom (got lean) 0 cfgs more)
    × AllSettled lean 0 cfgs (efi_service_install_all lean cfgs [])
    × ((late : List (Instance ℕ)) × (efi_service_install_all plenty cfgs
            (efi_service_install_all lean cfgs [])
          ≡ efi_service_install_all lean cfgs [] ++ late)
        × ComeFrom (λ t c. got plenty t c && not (got lean t c)) 0 cfgs late)
install_all_twice_example = install_all_twice lean plenty cfgs []
