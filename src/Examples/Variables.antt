-- ===== src/Examples/Variables.antt =====
-- The variable services and the configuration table at concrete inputs.
use efi_wrapper.Prelude.{◌≡◌, ◌⊎◌, refl, true, none, some, List, [], ◌∷◌, arith}
use efi_wrapper.Status.{success, not_found}
use efi_wrapper.Ustr.{Ustr, IsUstr}
use efi_wrapper.Variable.{Memory, item, efi_get_var_impl, efi_set_var_impl}
use efi_wrapper.Variable.Store.{Variable, find}
use efi_wrapper.Variable.Laws.{IsValid, Differ}
use efi_wrapper.Variable.Services.{get-set_self, get-set_ne, delete_var}
use efi_wrapper.Variable.Invariant.{set_var-IsValid}
use efi_wrapper.Configuration.{entry, CfgTable, efi_install_configuration_table_impl}
use efi_wrapper.Configuration.Laws.{installed_value, IsTable}
use efi_wrapper.Configuration.Services.{install_value}

abbrev enough : Memory
enough = record { data_ok = true; name_ok = true; item_ok = true }

-- "Lang" and "Boot"
abbrev lang : Ustr
lang = 76 ∷ 97 ∷ 110 ∷ 103 ∷ []

abbrev boot : Ustr
boot = 66 ∷ 111 ∷ 111 ∷ 116 ∷ []

lang-IsUstr : IsUstr lang
lang-IsUstr = (
  omega arith,
  omega arith,
  (omega arith, omega arith, (omega arith, omega arith, (omega arith, omega arith, tt))),
)

boot-IsUstr : IsUstr boot
boot-IsUstr = (
  omega arith,
  omega arith,
  (omega arith, omega arith, (omega arith, omega arith, (omega arith, omega arith, tt))),
)

abbrev vars : List Variable
vars = item 5 lang 3 (101 ∷ 110 ∷ []) ∷ []

vars-IsValid : IsValid vars
unfolding find
vars-IsValid = (record { named = lang-IsUstr; unique = refl; filled = omega arith }, tt)

boot_not_lang : Differ boot 5 lang 5
boot_not_lang (same, _) = absurd (ground (arith, same))

get-set_self_example :
    let (st, after) =
      efi_set_var_impl true enough vars (some boot) (some 5) 7 (some (1 ∷ 2 ∷ [])) in
    (st ≡ success)
    × (efi_get_var_impl true after (some boot) (some 5) (some 4) true
        ≡ (success, none, some (1 ∷ 2 ∷ [])))
get-set_self_example =
    get-set_self enough vars 66 (111 ∷ 111 ∷ 116 ∷ []) 5 7 1 (2 ∷ []) 4 boot-IsUstr vars-IsValid
      (refl, refl, refl) (omega arith)

get-set_ne_example :
    efi_get_var_impl true
      (efi_set_var_impl true enough vars (some boot) (some 5) 7 (some (1 ∷ []))).1
      (some lang)
      (some 5)
      (some 4)
      true
    ≡ efi_get_var_impl true vars (some lang) (some 5) (some 4) true
get-set_ne_example =
    get-set_ne enough vars boot lang 5 5 7 (some (1 ∷ [])) 4 true boot-IsUstr lang-IsUstr
      vars-IsValid boot_not_lang

delete_var_example :
    let (st, after) = efi_set_var_impl true enough vars (some lang) (some 5) 7 none in
    (((find lang 5 vars ≡ none) × (st ≡ not_found))
      ⊎ (((v : Variable) × (find lang 5 vars ≡ some v)) × (st ≡ success)))
    × (efi_get_var_impl true after (some lang) (some 5) (some 4) true ≡ (not_found, none, none))
delete_var_example = delete_var enough vars 76 (97 ∷ 110 ∷ 103 ∷ []) 5 7 4 lang-IsUstr vars-IsValid

set_var-IsValid_example :
    IsValid (efi_set_var_impl true enough vars (some boot) (some 5) 7 (some (1 ∷ []))).1
set_var-IsValid_example =
    set_var-IsValid true enough vars boot (some 5) 7 (some (1 ∷ [])) boot-IsUstr vars-IsValid

-- A table without room to spare, and one after a removal.
abbrev full_table : CfgTable
full_table = record { slots = entry 1 10 ∷ entry 2 20 ∷ []; entries = 2; cfg_table_size = 48 }

full_table-IsTable : IsTable full_table
full_table-IsTable = record { room = omega arith; sized = refl; distinct = (refl, (refl, tt)) }

install_value_example :
    (after : CfgTable) × (efi_install_configuration_table_impl true true full_table (some 3) 30
      ≡ some (success, after))
    × (installed_value 3 after ≡ some 30)
    × (installed_value 2 after ≡ installed_value 2 full_table)
install_value_example = install_value full_table 3 full_table-IsTable 30 2 refl refl refl
