-- ===== src/Event.antt =====
-- efi-wrapper/efi/tables/event.c: events, the queue of events to notify, and priority levels. An
-- event is known by its address; what a notification function does is a parameter, as are the clock,
-- the sleep and whether the allocator has memory.
pub mod Queue
pub mod Services
pub mod Create
pub mod Wait
pub mod Waiting
pub mod Order
pub mod Masking
use efi_wrapper.Prelude.{
  ℕ, zero, suc, ◌+◌, ◌-◌, ◌*◌, Bool, true, false, not, ◌&&◌, ◌||◌, ◌==◌, ltb, leb, Option, none,
  some, List, [], ◌∷◌, ◌++◌, if◌then◌else◌, bit_and,
}

abbrev pub tpl_application : ℕ
tpl_application = 0x04

abbrev pub tpl_callback : ℕ
tpl_callback = 0x08

abbrev pub tpl_notify : ℕ
tpl_notify = 0x10

abbrev pub tpl_high_level : ℕ
tpl_high_level = 0x1F

abbrev pub evt_timer : ℕ
evt_timer = 0x80000000

abbrev pub evt_notify_wait : ℕ
evt_notify_wait = 0x100

abbrev pub evt_notify_signal : ℕ
evt_notify_signal = 0x200

abbrev pub evt_signal_exit_boot_services : ℕ
evt_signal_exit_boot_services = 0x201

abbrev pub evt_signal_virtual_address_change : ℕ
evt_signal_virtual_address_change = 0x60000202

-- efi_timer_delay
abbrev pub timer_cancel : ℕ
timer_cancel = 0

abbrev pub timer_periodic : ℕ
timer_periodic = 1

abbrev pub timer_relative : ℕ
timer_relative = 2

-- `func` is 0 for a null pointer, `group` is `none` for one.
pub record Event : Type 0 where
  pub addr : ℕ
  pub type : ℕ
  pub tpl : ℕ
  pub func : ℕ
  pub context : ℕ
  pub group : Option ℕ
  pub next : ℕ
  pub time : ℕ
  pub delay : ℕ
  pub signaled : Bool

-- efi_register_notify
pub record Notify : Type 0 where
  pub protocol : ℕ
  pub event : ℕ
  pub handles : List ℕ

-- The fields of efi_run_context that the event services use. `store` holds the events that
-- are on the list `events`; `events` and `event_queue` are lists of addresses.
pub record Ctx (World : Type 0) : Type 0 where
  pub store : List Event
  pub events : List ℕ
  pub event_queue : List ℕ
  pub notifies : List Notify
  pub tpl : ℕ
  pub timer : Bool
  pub world : World

-- efi_valid_event (efi-wrapper/efi/handles.c): the event at an address, if it is a valid one.
abbrev pub find : ℕ → List Event → Option Event
find a [] = none
find a (e ∷ store) = if a == e.addr then some e else find a store

abbrev pub update : ℕ → (Event → Event) → List Event → List Event
update a f [] = []
update a f (e ∷ store) = (if a == e.addr then f e else e) ∷ update a f store

abbrev pub with_signaled : Bool → Event → Event
with_signaled b e = record {
  addr = e.addr;
  type = e.type;
  tpl = e.tpl;
  func = e.func;
  context = e.context;
  group = e.group;
  next = e.next;
  time = e.time;
  delay = e.delay;
  signaled = b;
}

abbrev pub with_timer : ℕ → ℕ → ℕ → Bool → Event → Event
with_timer next time delay b e = record {
  addr = e.addr;
  type = e.type;
  tpl = e.tpl;
  func = e.func;
  context = e.context;
  group = e.group;
  next = next;
  time = time;
  delay = delay;
  signaled = b;
}

abbrev pub member : ℕ → List ℕ → Bool
member a [] = false
member a (b ∷ bs) = a == b || member a bs

-- The address behind the first occurrence of one.
abbrev pub next_after : ℕ → List ℕ → Option ℕ
next_after a [] = none
next_after a (b ∷ []) = none
next_after a (b ∷ c ∷ bs) = if a == b then some c else next_after a (c ∷ bs)

abbrev pub list_first : List ℕ → Option ℕ
list_first [] = none
list_first (a ∷ rest) = some a

-- list_obj_del_data, list_obj_del
abbrev pub remove : ℕ → List ℕ → List ℕ
remove a [] = []
remove a (b ∷ bs) = if a == b then bs else b ∷ remove a bs

unfoldable pub check_tpl : ℕ → Bool
check_tpl tpl = tpl == tpl_application || (tpl == tpl_callback || tpl == tpl_notify)

unfoldable pub check_event_type : ℕ → Bool
check_event_type type =
    type == 0
    || (type == evt_timer
        || (type == evt_notify_signal
            || (type == 0x80000200
                || (type == evt_notify_wait
                    || (type == 0x80000100
                        || (type == evt_signal_exit_boot_services
                            || type == evt_signal_virtual_address_change))))))

module _ {World : Type 0} where
  abbrev pub with_queue : List ℕ → List Event → Ctx World → Ctx World
  with_queue queue store ctx = record {
    store = store;
    events = ctx.events;
    event_queue = queue;
    notifies = ctx.notifies;
    tpl = ctx.tpl;
    timer = ctx.timer;
    world = ctx.world;
  }

  abbrev pub with_tpl : ℕ → Ctx World → Ctx World
  with_tpl tpl ctx = record {
    store = ctx.store;
    events = ctx.events;
    event_queue = ctx.event_queue;
    notifies = ctx.notifies;
    tpl = tpl;
    timer = ctx.timer;
    world = ctx.world;
  }

  abbrev pub with_store : List Event → Ctx World → Ctx World
  with_store store ctx = with_queue ctx.event_queue store ctx

  abbrev pub with_world : World → Ctx World → Ctx World
  with_world w ctx = record {
    store = ctx.store;
    events = ctx.events;
    event_queue = ctx.event_queue;
    notifies = ctx.notifies;
    tpl = ctx.tpl;
    timer = ctx.timer;
    world = w;
  }
