-- ===== src/Configuration/Services.antt =====
-- What readers find after efi_install_configuration_table (efi-wrapper/efi/tables/configuration.c).
use efi_wrapper.Prelude.{
  ℕ, suc, ◌+◌, ◌*◌, ◌<◌, ◌≡◌, refl, sym, ap, true, false, ◌==◌, ltb, leb, none, some, [], ◌∷◌, ◌++◌,
  length, set, arith, inl, inr, ◌∙◌,
}
use efi_wrapper.Status.{success}
use efi_wrapper.Configuration.{
  Entry, entry, entry_size, CfgTable, find_slot, insert_entry, remove_entry, replace_entry,
  efi_install_configuration_table_impl,
}
use efi_wrapper.Configuration.Laws.{
  lookup, installed_value, IsTable, find_slot_lem, replace_self, replace_ne, append_self, append_ne,
  remove_lem_count, set_behind,
}

module _ (t : CfgTable) (guid : ℕ) (valid : IsTable t) where
  -- The outcome for a value that is not null, by what the search finds.
  install_absent :
      (value : ℕ)
      → lookup guid t.slots t.entries ≡ none
      → (value == 0) ≡ false
      → efi_install_configuration_table_impl true true t (some guid) value
        ≡ insert_entry t true t.entries (entry guid value)
  unfolding efi_install_configuration_table_impl
  install_absent value e nonzero = elim (find_slot_lem guid t.slots t.entries valid.room) [
    | inl (_, (v, f)) ↦ absurd (ground (arith, e, f))
    | inr (k, _) ↦
        let absent : leb t.entries (find_slot guid t.slots t.entries) ≡ true = ground arith in
        rw (absent, nonzero) (ap (λ id. insert_entry t true id (entry guid value)) k)
  ]

  insert_full :
      (new : Entry)
      → t.entries ≡ length t.slots
      → insert_entry t true t.entries new
        ≡ some (
          success,
          record {
            slots = set (t.slots ++ new ∷ []) t.entries new;
            entries = t.entries + 1;
            cfg_table_size = (t.entries + 1) * entry_size;
          },
        )
  unfolding insert_entry
  insert_full new full =
      let grows : ltb t.cfg_table_size ((t.entries + 1) * entry_size) ≡ true =
        ground (arith, valid.sized, full) in
      simp grows refl

  -- In a table whose block holds its entries and nothing more, if a larger block can be got,
  -- installing a value that is not null succeeds, a reader finds it, and the value under any
  -- other guid stays.
  pub install_value :
      (value other : ℕ)
      → t.entries ≡ length t.slots
      → (value == 0) ≡ false
      → (other == guid) ≡ false
      → (after : CfgTable) × (efi_install_configuration_table_impl true true t (some guid) value
          ≡ some (success, after))
        × (installed_value guid after ≡ some value)
        × (installed_value other after ≡ installed_value other t)
  unfolding efi_install_configuration_table_impl insert_entry replace_entry
  install_value value other full nonzero d =
      elim (find_slot_lem guid t.slots t.entries valid.room) [
        | inl (k, _) ↦
            let found : leb t.entries (find_slot guid t.slots t.entries) ≡ false = ground arith in
            (
              replace_entry t (find_slot guid t.slots t.entries) (entry guid value),
              simp (found, nonzero) refl,
              replace_self guid value t.slots t.entries valid.room k,
              replace_ne guid value other t.slots t.entries d valid.room k,
            )
        | inr (k, e) ↦
            let new = entry guid value in
            let out = install_absent value e nonzero ∙ insert_full new full in
            let more : t.entries + 1 ≡ suc (length t.slots) = omega (arith, full) in
            let at = λ (g : ℕ).
              ap (λ n. lookup g (set (t.slots ++ new ∷ []) t.entries new) n) more
              ∙ ap (λ id. lookup g (set (t.slots ++ new ∷ []) id new) (suc (length t.slots)))
                  full in
            let whole = λ (g : ℕ). ap (λ n. lookup g t.slots n) full in
            (
              _,
              out,
              at guid ∙ append_self guid value t.slots (sym (whole guid) ∙ e),
              at other ∙ append_ne guid value other t.slots d ∙ sym (whole other),
            )
      ]

  -- In a table whose block has room for more than its entries, installing a value that is not
  -- null under a guid that is not there reports success, but no reader finds it.
  pub install_lost :
      (value : ℕ)
      → t.entries < length t.slots
      → lookup guid t.slots t.entries ≡ none
      → (value == 0) ≡ false
      → (after : CfgTable) × (efi_install_configuration_table_impl true true t (some guid) value
          ≡ some (success, after))
        × (installed_value guid after ≡ none)
  unfolding insert_entry
  install_lost value spare e nonzero =
      let stays : ltb t.cfg_table_size ((t.entries + 1) * entry_size) ≡ false =
        ground (arith, valid.sized, spare) in
      let new = entry guid value in
      (
        record {
          slots = set t.slots t.entries new;
          entries = t.entries;
          cfg_table_size = t.cfg_table_size;
        },
        install_absent value e nonzero ∙ simp stays refl,
        set_behind guid t.entries new t.slots t.entries (omega arith) ∙ e,
      )

  -- Removing a value that is there succeeds and takes it away, and the value under any other
  -- guid stays.
  pub remove_value :
      (v other : ℕ)
      → installed_value guid t ≡ some v
      → (other == guid) ≡ false
      → (after : CfgTable) × (efi_install_configuration_table_impl true true t (some guid) 0
          ≡ some (success, after))
        × (installed_value guid after ≡ none)
        × (installed_value other after ≡ installed_value other t)
  unfolding efi_install_configuration_table_impl remove_entry
  remove_value v other e d = elim (find_slot_lem guid t.slots t.entries valid.room) [
    | inl (k, _) ↦
        let found : leb t.entries (find_slot guid t.slots t.entries) ≡ false = ground arith in
        let gone = λ (other : ℕ).
          remove_lem_count guid other t.slots t.entries valid.room valid.distinct k in
        (
          remove_entry t (find_slot guid t.slots t.entries),
          simp found refl,
          (gone guid).0,
          (gone other).1 d,
        )
    | inr (_, f) ↦ absurd (ground (arith, e, f))
  ]
