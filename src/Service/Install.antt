-- ===== src/Service/Install.antt =====
-- efi-wrapper/efi/service.c: efi_service_install_all. The memory is a state of its own, which other
-- parts of the program use too: what a run sees of it are the outcomes of its two allocations for
-- each configuration.
use efi_wrapper.Prelude.{
  ℕ, suc, ◌≡◌, ◌⊎◌, inl, inr, refl, sym, ◌∙◌, Bool, true, false, not, ◌&&◌, ◌||◌, ltb, ◌==◌, List,
  [], ◌∷◌, ◌++◌, append-nil, append_assoc, if◌then◌else◌, arith, Bool-cases, or_mono,
}
use efi_wrapper.Service.{stopped, ServiceCfg, Instance}
use efi_wrapper.Service.Lookup.{svc_cfg_valid, svc_ins_cmp}

-- Whether mem_aligned_allocate gives the custom data, and whether list_obj_add_new_dup gets its
-- copy, at the turn of the configuration with a number. Where the copy is got but no list item,
-- the macro gives the copy, which is of a pool, to `free`; that case is left out.
pub record Outcomes : Type 0 where
  pub custom_data : ℕ → Bool
  pub list_item : ℕ → Bool

module _ {World : Type 0} where
  unfoldable pub new_instance : ServiceCfg World → Instance World
  new_instance cfg = record { status = stopped; cfg = cfg; service = cfg.cfg_service; handle = 0 }

  unfoldable pub installed : Instance World → List (Instance World) → Bool
  installed ins [] = false
  installed ins (x ∷ xs) = svc_ins_cmp x ins || installed ins xs

  -- list_obj_add_new_dup, whose result is not looked at.
  abbrev pub add_instance : Bool → Instance World → List (Instance World) → List (Instance World)
  add_instance false ins all = all
  add_instance true ins all = all ++ ins ∷ []

  unfoldable pub install_one :
      Outcomes → ℕ → ServiceCfg World → List (Instance World) → List (Instance World)
  unfolding new_instance installed
  install_one memory turn cfg all =
      if not (svc_cfg_valid cfg)
      then all
      else if installed (new_instance cfg) all
      then all
      else if ltb 0 cfg.cfg_service.cust_len && not (memory.custom_data turn)
      then all
      else add_instance (memory.list_item turn) (new_instance cfg) all

  abbrev pub install_from :
      Outcomes → ℕ → List (ServiceCfg World) → List (Instance World) → List (Instance World)
  install_from memory turn [] all = all
  install_from memory turn (cfg ∷ cfgs) all =
      install_from memory (suc turn) cfgs (install_one memory turn cfg all)

  unfoldable pub efi_service_install_all :
      Outcomes → List (ServiceCfg World) → List (Instance World) → List (Instance World)
  efi_service_install_all memory cfgs all = install_from memory 0 cfgs all

  -- A configuration finds the memory that its instance needs.
  abbrev pub got : Outcomes → ℕ → ServiceCfg World → Bool
  got memory turn cfg =
      memory.list_item turn && (cfg.cfg_service.cust_len == 0 || memory.custom_data turn)

  -- The instances are those of some of the configurations in their order, each valid and passing
  -- a test at its turn.
  pub data ComeFrom (test : ℕ → ServiceCfg World → Bool)
      : ℕ → List (ServiceCfg World) → List (Instance World) → Type 0 where
    come_end : {turn : ℕ} → ComeFrom test turn [] []
    come_without :
        {turn : ℕ} {cfg : ServiceCfg World} {cfgs : List (ServiceCfg World)}
        {more : List (Instance World)}
        → ComeFrom test (suc turn) cfgs more
        → ComeFrom test turn (cfg ∷ cfgs) more
    come_with :
        {turn : ℕ} {cfg : ServiceCfg World} {cfgs : List (ServiceCfg World)}
        {more : List (Instance World)}
        → svc_cfg_valid cfg ≡ true
        → test turn cfg ≡ true
        → ComeFrom test (suc turn) cfgs more
        → ComeFrom test turn (cfg ∷ cfgs) (new_instance cfg ∷ more)

  -- A configuration is not valid, or found no memory at its turn, or its instance is there.
  abbrev pub Settled : Outcomes → ℕ → ServiceCfg World → List (Instance World) → Type 0
  Settled memory turn cfg all =
      (svc_cfg_valid cfg ≡ false)
      ⊎ ((got memory turn cfg ≡ false) ⊎ (installed (new_instance cfg) all ≡ true))

  abbrev pub AllSettled : Outcomes → ℕ → List (ServiceCfg World) → List (Instance World) → Type 0
  AllSettled memory turn [] all = Unit
  AllSettled memory turn (cfg ∷ cfgs) all =
      Settled memory turn cfg all × AllSettled memory (suc turn) cfgs all

  -- The instance of a valid configuration is found again by the search that made it.
  svc_ins_cmp-new :
      (cfg : ServiceCfg World)
      → svc_cfg_valid cfg ≡ true
      → svc_ins_cmp (new_instance cfg) (new_instance cfg) ≡ true
  unfolding svc_ins_cmp new_instance
  svc_ins_cmp-new cfg h = ground arith

  installed-append_left :
      (ins : Instance World) (xs ys : List (Instance World))
      → installed ins xs ≡ true
      → installed ins (xs ++ ys) ≡ true
  unfolding installed
  installed-append_left ins [] ys h = cc
  installed-append_left ins (x ∷ xs) ys h =
      or_mono (svc_ins_cmp x ins) (installed ins xs) (svc_ins_cmp x ins) (installed ins (xs ++ ys))
        (λ k. k) (installed-append_left ins xs ys) h

  installed-append_self :
      (ins : Instance World) (xs : List (Instance World))
      → svc_ins_cmp ins ins ≡ true
      → installed ins (xs ++ ins ∷ []) ≡ true
  unfolding installed
  installed-append_self ins [] h = rw h
  installed-append_self ins (x ∷ xs) h =
      or_mono false true (svc_ins_cmp x ins) (installed ins (xs ++ ins ∷ [])) (λ k. cc)
        (λ _. installed-append_self ins xs h) refl

  install_one_skips :
      (memory : Outcomes) (turn : ℕ) (cfg : ServiceCfg World) (all : List (Instance World))
      → Settled memory turn cfg all
      → install_one memory turn cfg all ≡ all
  unfolding install_one
  install_one_skips memory turn cfg all (inl v) = ground arith
  install_one_skips memory turn cfg all (inr (inl g)) = ground arith
  install_one_skips memory turn cfg all (inr (inr h)) = ground arith

  install_one_new :
      (memory : Outcomes) (turn : ℕ) (cfg : ServiceCfg World) (all : List (Instance World))
      → svc_cfg_valid cfg ≡ true
      → got memory turn cfg ≡ true
      → installed (new_instance cfg) all ≡ false
      → install_one memory turn cfg all ≡ all ++ new_instance cfg ∷ []
  unfolding install_one
  install_one_new memory turn cfg all v g h = ground arith

  -- A configuration is settled, or its instance is new.
  install_one_cases :
      (memory : Outcomes) (turn : ℕ) (cfg : ServiceCfg World) (all : List (Instance World))
      → Settled memory turn cfg all
        ⊎ ((svc_cfg_valid cfg ≡ true)
            × (got memory turn cfg ≡ true)
            × (installed (new_instance cfg) all ≡ false))
  install_one_cases memory turn cfg all = elim (Bool-cases (svc_cfg_valid cfg)) [
    | inr v ↦ inl (inl v)
    | inl v ↦ elim (Bool-cases (got memory turn cfg)) [
      | inr g ↦ inl (inr (inl g))
      | inl g ↦ elim (Bool-cases (installed (new_instance cfg) all)) [
        | inl h ↦ inl (inr (inr h))
        | inr h ↦ inr (v, g, h)
      ]
    ]
  ]

  Settled-append :
      (memory : Outcomes) (turn : ℕ) (cfg : ServiceCfg World) (all more : List (Instance World))
      → Settled memory turn cfg all
      → Settled memory turn cfg (all ++ more)
  Settled-append memory turn cfg all more (inl v) = inl v
  Settled-append memory turn cfg all more (inr (inl g)) = inr (inl g)
  Settled-append memory turn cfg all more (inr (inr h)) =
      inr (inr (installed-append_left (new_instance cfg) all more h))

  AllSettled-append :
      (memory : Outcomes) (turn : ℕ) (cfgs : List (ServiceCfg World))
      (all more : List (Instance World))
      → AllSettled memory turn cfgs all
      → AllSettled memory turn cfgs (all ++ more)
  AllSettled-append memory turn [] all more s = tt
  AllSettled-append memory turn (cfg ∷ cfgs) all more (s, ss) = (
    Settled-append memory turn cfg all more s,
    AllSettled-append memory (suc turn) cfgs all more ss,
  )

  -- What a run appends, and that it leaves every configuration settled.
  install_from_lem :
      (memory : Outcomes) (turn : ℕ) (cfgs : List (ServiceCfg World)) (all : List (Instance World))
      → (more : List (Instance World)) × (install_from memory turn cfgs all ≡ all ++ more)
        × ComeFrom (got memory) turn cfgs more
        × AllSettled memory turn cfgs (all ++ more)
  install_from_lem memory turn [] all = ([], sym (append-nil all), come_end, tt)
  install_from_lem memory turn (cfg ∷ cfgs) all = elim (install_one_cases memory turn cfg all) [
    | inl s ↦
        let (more, e, c, ss) = install_from_lem memory (suc turn) cfgs all in
        (
          more,
          rw (install_one_skips memory turn cfg all s) e,
          come_without c,
          (Settled-append memory turn cfg all more s, ss),
        )
    | inr (v, g, h) ↦
        let ins = new_instance cfg in
        let (more, e, c, ss) = install_from_lem memory (suc turn) cfgs (all ++ ins ∷ []) in
        let there = installed-append_self ins all (svc_ins_cmp-new cfg v) in
        let whole : (all ++ ins ∷ []) ++ more ≡ all ++ ins ∷ more =
          append_assoc all (ins ∷ []) more in
        (
          ins ∷ more,
          rw (install_one_new memory turn cfg all v g h) (e ∙ whole),
          come_with v g c,
          rw (← whole) (inr (inr (installed-append_left ins (all ++ ins ∷ []) more there)), ss),
        )
  ]

  -- A run over configurations that another run has left settled.
  install_from_again :
      (memory again : Outcomes) (turn : ℕ) (cfgs : List (ServiceCfg World))
      (all : List (Instance World))
      → AllSettled memory turn cfgs all
      → (late : List (Instance World)) × (install_from again turn cfgs all ≡ all ++ late)
        × ComeFrom (λ t c. got again t c && not (got memory t c)) turn cfgs late
  install_from_again memory again turn [] all s = ([], sym (append-nil all), come_end)
  install_from_again memory again turn (cfg ∷ cfgs) all (s, ss) =
      elim (install_one_cases again turn cfg all) [
        | inl k ↦
            let (late, e, c) = install_from_again memory again (suc turn) cfgs all ss in
            (late, rw (install_one_skips again turn cfg all k) e, come_without c)
        | inr (v, g, h) ↦
            let ins = new_instance cfg in
            let (late, e, c) =
              install_from_again memory again (suc turn) cfgs (all ++ ins ∷ [])
                (AllSettled-append memory (suc turn) cfgs all (ins ∷ []) ss) in
            let lost : got memory turn cfg ≡ false = elim s [
              | inl w ↦ absurd (ground (arith, v, w))
              | inr (inl l) ↦ l
              | inr (inr there) ↦ absurd (ground (arith, h, there))
            ] in
            (
              ins ∷ late,
              rw (install_one_new again turn cfg all v g h) (e ∙ append_assoc all (ins ∷ []) late),
              come_with v (rw (g, lost) refl) c,
            )
      ]

  -- Two runs over the same configurations, whatever memory each finds. The first appends
  -- instances of valid configurations that found memory, in their order, and after it each
  -- configuration is invalid, or found no memory, or is installed. The second appends instances
  -- of those alone that find memory now and found none in the first.
  pub install_all_twice :
      (memory again : Outcomes) (cfgs : List (ServiceCfg World)) (all : List (Instance World))
      → let first = efi_service_install_all memory cfgs all in
        ((more : List (Instance World)) × (first ≡ all ++ more) × ComeFrom (got memory) 0 cfgs more)
        × AllSettled memory 0 cfgs first
        × ((late : List (Instance World)) × (efi_service_install_all again cfgs first
              ≡ first ++ late)
            × ComeFrom (λ t c. got again t c && not (got memory t c)) 0 cfgs late)
  unfolding efi_service_install_all
  install_all_twice memory again cfgs all =
      let (more, e, c, ss) = install_from_lem memory 0 cfgs all in
      let settled : AllSettled memory 0 cfgs (install_from memory 0 cfgs all) = rw e ss in
      (
        (more, e, c),
        settled,
        install_from_again memory again 0 cfgs (install_from memory 0 cfgs all) settled,
      )
