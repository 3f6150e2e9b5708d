-- ===== src/Examples/Tables.antt =====
-- The events and the handle database at concrete inputs. The notification functions count their
-- calls in the world.
use efi_wrapper.Prelude.{
  ◌<◌, take, ℕ, ◌+◌, ◌≡◌, inl, refl, true, false, none, some, List, [], ◌∷◌, ◌++◌, length, arith,
}
use efi_wrapper.Status.{success, invalid_parameter}
use efi_wrapper.Event.{update, with_signaled, with_store, Event, Ctx, with_world}
use efi_wrapper.Event.Queue.{insert_by_tpl, efi_run_event_queue}
use efi_wrapper.Event.Wait.{efi_wait_for_event_impl, queue_wanted, wait_loop, first_signaled}
use efi_wrapper.Event.Waiting.{wait_for_event-Done}
use efi_wrapper.Event.Order.{IsSorted, at_level, insert_by_tpl_lem}
use efi_wrapper.Event.Masking.{settled, acted, state, efi_run_event_queue_lem}
use efi_wrapper.Protocol.{Handle, efi_valid_handle, find_entry, efi_get_protocol}
use efi_wrapper.Protocol.Install.{
  native_interface, new_entry, handles_of, efi_install_protocol_interface_impl,
}
use efi_wrapper.Protocol.Laws.{install-get_protocol}

abbrev event_at : ℕ → ℕ → Event
event_at a tpl = record {
  addr = a;
  type = 0x200;
  tpl = tpl;
  func = 7;
  context = a;
  group = none;
  next = 0;
  time = 0;
  delay = 0;
  signaled = true;
}

abbrev three : List Event
three = event_at 1 8 ∷ event_at 2 16 ∷ event_at 3 8 ∷ []

insert_by_tpl_lem_example :
    IsSorted three (insert_by_tpl three 3 (2 ∷ 1 ∷ []))
    × (at_level three 8 (insert_by_tpl three 3 (2 ∷ 1 ∷ []))
        ≡ at_level three 8 (2 ∷ 1 ∷ []) ++ at_level three 8 (3 ∷ []))
insert_by_tpl_lem_example = insert_by_tpl_lem three 3 8 (2 ∷ 1 ∷ []) ((omega arith, tt), (tt, tt))

abbrev act : ℕ → ℕ → ℕ → ℕ → ℕ
act f a c w = w + c

abbrev call_act : ℕ → ℕ → ℕ → Ctx ℕ → Ctx ℕ
call_act f a c ctx = with_world (act f a c ctx.world) ctx

-- At the level 8 the event of the level 16 is notified, the other two wait.
abbrev queued : Ctx ℕ
queued = record {
  store = three;
  events = 1 ∷ 2 ∷ 3 ∷ [];
  event_queue = 2 ∷ 1 ∷ 3 ∷ [];
  notifies = [];
  tpl = 8;
  timer = false;
  world = 0;
}

efi_run_event_queue_lem_example :
    efi_run_event_queue call_act (λ _. true) 2 queued
    ≡ some (state act (1 ∷ 3 ∷ []) (settled (2 ∷ []) three) (acted act (2 ∷ []) three 0) queued)
efi_run_event_queue_lem_example =
    efi_run_event_queue_lem act (λ _. true) call_act (λ f a c ctx. refl) (2 ∷ []) (1 ∷ 3 ∷ [])
      queued 2 ((event_at 2 16, refl, refl, omega arith), refl, tt)
      (event_at 1 8, refl, omega arith) refl (omega arith)

-- Two events to wait for, both signaled.
abbrev wait_event : ℕ → Event
wait_event a = record {
  addr = a;
  type = 0x100;
  tpl = 8;
  func = 7;
  context = 0;
  group = none;
  next = 0;
  time = 0;
  delay = 0;
  signaled = true;
}

abbrev waiting : Ctx ℕ
waiting = record {
  store = wait_event 1 ∷ wait_event 2 ∷ [];
  events = 1 ∷ 2 ∷ [];
  event_queue = [];
  notifies = [];
  tpl = 4;
  timer = false;
  world = 0;
}

waits :
    efi_wait_for_event_impl call_act (λ _. true) (λ w. w) (λ n w. w + n) true 2 (2 ∷ 1 ∷ []) waiting
    ≡ some (success, 0, with_store (update 2 (with_signaled false) waiting.store) waiting)
unfolding efi_wait_for_event_impl queue_wanted wait_loop first_signaled
waits = refl

wait_for_event-Done_example :
    (0 < length {A = ℕ} (2 ∷ 1 ∷ []))
    × (first_signaled (update 2 (with_signaled false) waiting.store) (take 1 (2 ∷ 1 ∷ [])) 0 ≡ none)
wait_for_event-Done_example =
    wait_for_event-Done call_act (λ _. true) (λ w. w) (λ n w. w + n) 2 (2 ∷ 1 ∷ []) waiting 0
      (with_store (update 2 (with_signaled false) waiting.store) waiting) waits

abbrev two_handles : List Handle
two_handles =
    record { addr = 100; entries = new_entry 5 900 ∷ [] } ∷ record { addr = 200; entries = [] } ∷ []

abbrev db_call : ℕ → ℕ → ℕ → Ctx (List Handle × ℕ) → Ctx (List Handle × ℕ)
db_call f a c ctx = ctx

abbrev db : Ctx (List Handle × ℕ)
db = record {
  store = [];
  events = [];
  event_queue = [];
  notifies = [];
  tpl = 4;
  timer = false;
  world = (two_handles, 0);
}

install-get_protocol_example :
    (after : Ctx (List Handle × ℕ)) × (efi_install_protocol_interface_impl db_call
        (λ _. true)
        true
        1
        none
        (some (some 200))
        (some 6)
        native_interface
        901
        db
      ≡ some (success, some 200, after))
    × (efi_get_protocol (handles_of db_call (λ _. true) after) 200 (some 6) true
        ≡ (success, some (new_entry 6 901)))
    × (efi_get_protocol (handles_of db_call (λ _. true) after) 100 (some 5) true
        ≡ efi_get_protocol (handles_of db_call (λ _. true) db) 100 (some 5) true)
    × (efi_install_protocol_interface_impl db_call
          (λ _. true)
          true
          1
          none
          (some (some 200))
          (some 6)
          native_interface
          902
          after
        ≡ some (invalid_parameter, some 200, after))
unfolding efi_valid_handle find_entry
install-get_protocol_example =
    install-get_protocol db_call (λ _. true) 1 none 200 6 901 100 5 902 db
      (record { addr = 200; entries = [] }) refl refl refl refl tt (omega arith) (inl refl)
