-- ===== src/Configuration.antt =====
-- efi-wrapper/efi/tables/configuration.c: the configuration table of the system table. The
-- checksum of the system table, which the function renews on success, is not modelled.
pub mod Laws
pub mod Services
use efi_wrapper.Prelude.{
  ℕ, zero, suc, ◌+◌, ◌-◌, ◌*◌, Bool, true, false, not, ◌&&◌, ◌==◌, ltb, leb, Option, none, some,
  List, [], ◌∷◌, ◌++◌, length, set, if◌then◌else◌,
}
use efi_wrapper.Status.{
  EfiStatus, success, not_ready, invalid_parameter, not_found, out_of_resources,
}

-- efi_configuration_table: 24 bytes
pub record Entry : Type 0 where
  pub guid : ℕ
  pub value : ℕ

abbrev pub entry_size : ℕ
entry_size = 24

-- The block at `st->cfg_table`, `st->entries` and `efi_current_ctx->cfg_table_size`.
pub record CfgTable : Type 0 where
  pub slots : List Entry
  pub entries : ℕ
  pub cfg_table_size : ℕ

-- The index where the search stops; it is the bound if nothing is found.
unfoldable pub find_slot : ℕ → List Entry → ℕ → ℕ
find_slot guid slots zero = 0
find_slot guid [] (suc n) = suc n
find_slot guid (e ∷ slots) (suc n) = if guid == e.guid then 0 else suc (find_slot guid slots n)

-- The copy of n slots one place towards the start, over the slot at an index.
unfoldable pub shift_down : List Entry → ℕ → List Entry
shift_down slots zero = slots
shift_down [] (suc n) = []
shift_down (e ∷ []) (suc n) = e ∷ []
shift_down (e ∷ f ∷ slots) (suc n) = f ∷ shift_down (f ∷ slots) n

unfoldable pub remove_slot : List Entry → ℕ → ℕ → List Entry
unfolding shift_down
remove_slot slots zero n = shift_down slots n
remove_slot [] (suc id) n = []
remove_slot (e ∷ slots) (suc id) n = e ∷ remove_slot slots id n

abbrev pub entry : ℕ → ℕ → Entry
entry guid value = record { guid = guid; value = value }

-- A new entry behind the others. The second argument says whether the block is got. The first
-- block is asked of mem_allocate, a larger one of mem_reallocate, which calls `abort` when there is
-- none; `none` stands for that. The count of the entries grows only with the block.
unfoldable pub insert_entry : CfgTable → Bool → ℕ → Entry → Option (EfiStatus × CfgTable)
insert_entry t alloc_ok id new =
    let size = (t.entries + 1) * entry_size in
    if ltb t.cfg_table_size size
    then (if alloc_ok
        then some (
          success,
          record {
            slots = set (t.slots ++ new ∷ []) id new;
            entries = t.entries + 1;
            cfg_table_size = size;
          },
        )
        else if t.cfg_table_size == 0
        then some (out_of_resources, t)
        else none)
    else some (
      success,
      record { slots = set t.slots id new; entries = t.entries; cfg_table_size = t.cfg_table_size },
    )

unfoldable pub remove_entry : CfgTable → ℕ → CfgTable
unfolding remove_slot
remove_entry t id = record {
  slots = remove_slot t.slots id (t.entries - 1 - id);
  entries = t.entries - 1;
  cfg_table_size = t.cfg_table_size;
}

unfoldable pub replace_entry : CfgTable → ℕ → Entry → CfgTable
replace_entry t id new = record {
  slots = set t.slots id new;
  entries = t.entries;
  cfg_table_size = t.cfg_table_size;
}

-- `guid` is `none` and `value` is 0 for a null pointer; the first argument says whether there are
-- a context and a system table.
unfoldable pub efi_install_configuration_table_impl :
    Bool → Bool → CfgTable → Option ℕ → ℕ → Option (EfiStatus × CfgTable)
unfolding insert_entry remove_entry replace_entry find_slot
efi_install_configuration_table_impl ready alloc_ok t none value = some (invalid_parameter, t)
efi_install_configuration_table_impl false alloc_ok t (some guid) value = some (not_ready, t)
efi_install_configuration_table_impl true alloc_ok t (some guid) value =
    let id = find_slot guid t.slots t.entries in
    if leb t.entries id
    then (if value == 0 then some (not_found, t) else insert_entry t alloc_ok id (entry guid value))
    else if value == 0
    then some (success, remove_entry t id)
    else some (success, replace_entry t id (entry guid value))
