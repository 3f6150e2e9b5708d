-- ===== src/Service/Run/Order.antt =====
-- The order in which services start (efi-wrapper/efi/service.c).
use efi_wrapper.Prelude.{
  ℕ, zero, suc, ◌≡◌, ◌⊎◌, inl, inr, refl, true, ◌&&◌, ◌==◌, some, List, [], ◌∷◌, ◌++◌, append-nil,
  append_assoc, arith, Bool-cases, or_mono, and_parts, eq_of_some,
}
use mathlib.Core.Path.{subst}
use efi_wrapper.Service.{Instance}
use efi_wrapper.Service.Lookup.{
  is_started, all_started, efi_service_is_svc_started, svc_ins_is_guid,
}
use efi_wrapper.Service.Run.{start_one, start_pass, start_rounds}
use efi_wrapper.Service.Run.Machine.{start_one-Stepped}

module _ {World : Type 0} where
  -- Every started instance of the second list has its dependencies started in the first.
  abbrev pub ClosedIn : List (Instance World) → List (Instance World) → Type 0
  ClosedIn all [] = Unit
  ClosedIn all (x ∷ xs) =
      (is_started x.status ≡ true → all_started all x.service.depends ≡ true) × ClosedIn all xs

  abbrev pub DependsClosed : List (Instance World) → Type 0
  DependsClosed all = ClosedIn all all

  -- All that is started in the one list is started in the other.
  abbrev Grows : List (Instance World) → List (Instance World) → Type 0
  Grows all all' =
      (g : ℕ) → efi_service_is_svc_started all g ≡ true → efi_service_is_svc_started all' g ≡ true

  svc_ins_is_guid-same :
      (ins ins' : Instance World) (g : ℕ)
      → ins'.service ≡ ins.service
      → ins'.cfg ≡ ins.cfg
      → svc_ins_is_guid ins' g ≡ svc_ins_is_guid ins g
  unfolding svc_ins_is_guid
  svc_ins_is_guid-same ins ins' g e f = rw (e, f)

  Grows-at :
      (before rest : List (Instance World)) (ins ins' : Instance World)
      → ins'.service ≡ ins.service
      → ins'.cfg ≡ ins.cfg
      → (is_started ins.status ≡ true → is_started ins'.status ≡ true)
      → Grows (before ++ ins ∷ rest) (before ++ ins' ∷ rest)
  unfolding efi_service_is_svc_started
  Grows-at [] rest ins ins' e f h g s =
      or_mono (svc_ins_is_guid ins g && is_started ins.status) (efi_service_is_svc_started rest g)
        (svc_ins_is_guid ins' g && is_started ins'.status) (efi_service_is_svc_started rest g)
        (λ both.
          let (named, on) = and_parts (svc_ins_is_guid ins g) (is_started ins.status) both in
          rw (svc_ins_is_guid-same ins ins' g e f, named, h on))
        (λ k. k) s
  Grows-at (x ∷ before) rest ins ins' e f h g s =
      or_mono (svc_ins_is_guid x g && is_started x.status)
        (efi_service_is_svc_started (before ++ ins ∷ rest) g)
        (svc_ins_is_guid x g && is_started x.status)
        (efi_service_is_svc_started (before ++ ins' ∷ rest) g) (λ k. k)
        (Grows-at before rest ins ins' e f h g) s

  module _ (all all' : List (Instance World)) (grows : Grows all all') where
    all_started-Grows : (gs : List ℕ) → all_started all gs ≡ true → all_started all' gs ≡ true
    unfolding all_started
    all_started-Grows [] h = refl
    all_started-Grows (g ∷ gs) h = ground (arith, grows g, all_started-Grows gs)

    ClosedIn-Grows : (xs : List (Instance World)) → ClosedIn all xs → ClosedIn all' xs
    ClosedIn-Grows [] c = tt
    ClosedIn-Grows (x ∷ xs) c =
        (λ s. all_started-Grows x.service.depends (c.0 s), ClosedIn-Grows xs c.1)

    -- The new list is closed if the changed instance was started or had its dependencies.
    ClosedIn-at :
        (before rest : List (Instance World)) (ins ins' : Instance World)
        → ins'.service ≡ ins.service
        → (is_started ins'.status ≡ true
            → (is_started ins.status ≡ true) ⊎ (all_started all ins.service.depends ≡ true))
        → ClosedIn all (before ++ ins ∷ rest)
        → ClosedIn all' (before ++ ins' ∷ rest)
    ClosedIn-at [] rest ins ins' e needs c = (
      λ s. rw e (all_started-Grows ins.service.depends (ground (arith, needs s, c.0))),
      ClosedIn-Grows rest c.1,
    )
    ClosedIn-at (x ∷ before) rest ins ins' e needs c = (
      λ s. all_started-Grows x.service.depends (c.0 s),
      ClosedIn-at before rest ins ins' e needs c.1,
    )

  module _ (new_handle : World → ℕ × World) where
    start_one-DependsClosed :
        (before rest : List (Instance World)) (ins : Instance World) (w : World)
        → DependsClosed (before ++ ins ∷ rest)
        → DependsClosed (before ++ (start_one new_handle (before ++ ins ∷ rest) ins w).0 ∷ rest)
    start_one-DependsClosed before rest ins w c =
        let all = before ++ ins ∷ rest in
        let ins' = (start_one new_handle all ins w).0 in
        let s = start_one-Stepped new_handle all ins w in
        ClosedIn-at all (before ++ ins' ∷ rest)
          (Grows-at before rest ins ins' s.same_service s.same_cfg s.still_started) before rest ins
          ins' s.same_service (λ h. ground (arith, s.new_needs h)) c

    start_pass-DependsClosed :
        (before rest : List (Instance World)) (w : World)
        → DependsClosed (before ++ rest)
        → DependsClosed (start_pass new_handle before rest w).0
    unfolding start_pass
    start_pass-DependsClosed before [] w c = rw append-nil at c
    start_pass-DependsClosed before (ins ∷ rest) w c =
        let all = before ++ ins ∷ rest in
        let (ins', w', n) = start_one new_handle all ins w in
        start_pass-DependsClosed (before ++ ins' ∷ []) rest w'
          (rw append_assoc (start_one-DependsClosed before rest ins w c))

    -- Whatever the callbacks do to the world, a context in which every started service has its dependencies
    -- started is such a context after the start rounds.
    pub start_rounds-DependsClosed :
        (fuel : ℕ) (all : List (Instance World)) (w : World) {r : List (Instance World) × World}
        → start_rounds new_handle fuel all w ≡ some r
        → DependsClosed all
        → DependsClosed r.0
    unfolding start_rounds
    start_rounds-DependsClosed zero all w e c = cc
    start_rounds-DependsClosed (suc fuel) all w {r} e c =
        let (all', w', n) = start_pass new_handle [] all w in
        let closed = start_pass-DependsClosed [] all w c in
        elim (Bool-cases (n == 0)) [
          | inl h ↦ subst (λ q. DependsClosed q.0) (eq_of_some (rw h at e)) closed
          | inr h ↦ start_rounds-DependsClosed fuel all' w' (rw h at e) closed
        ]
