-- ===== src/Service.antt =====
-- efi-wrapper/efi/service.c with the types of include/efi/efi_context.h: services, their
-- configurations, and the instances that a context runs. `World` is the state that the callbacks
-- of services work on; they are function pointers of the program's protocols.
pub mod Lookup
pub mod Run
pub mod Install
use efi_wrapper.Prelude.{
  ℕ, String, Bool, true, false, not, ◌&&◌, ◌||◌, ◌==◌, Option, none, some, List,
}
use efi_wrapper.Status.{EfiStatus}

pub data ServiceStatus : Type 0 where
  unknown starting started stopping stopped conditioning skip failed : ServiceStatus

abbrev pub Callback : Type 0 → Type 0
Callback World = World → EfiStatus × World

-- `id` is the address of the object. The arrays `provides`, `depends` and `after` are the lists of
-- what stands before their null pointer; a guid is its 128-bit number.
pub record Service (World : Type 0) : Type 0 where
  pub id : ℕ
  pub guid : Option ℕ
  pub name : String
  pub provides : List ℕ
  pub depends : List ℕ
  pub after : List ℕ
  pub condition : Option (Callback World)
  pub start : Option (Callback World)
  pub stop : Option (Callback World)
  pub disabled : Bool
  pub restart : Bool
  pub cust_len : ℕ

pub record ServiceCfg (World : Type 0) : Type 0 where
  pub cfg_id : ℕ
  pub cfg_name : String
  pub cfg_service : Service World

-- `handle` is 0 until the first start.
pub record Instance (World : Type 0) : Type 0 where
  pub status : ServiceStatus
  pub cfg : ServiceCfg World
  pub service : Service World
  pub handle : ℕ
