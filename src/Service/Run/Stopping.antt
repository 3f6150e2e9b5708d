-- ===== src/Service/Run/Stopping.antt =====
-- Which instances the stop rounds reach (efi-wrapper/efi/service.c, efi_service_auto_stop).
use efi_wrapper.Prelude.{
  ℕ, suc, ◌≡◌, refl, false, some, List, [], ◌∷◌, ◌++◌, append-nil, append_assoc, arith,
}
use efi_wrapper.Service.{Instance}
use efi_wrapper.Service.Run.{
  any_dependent, efi_service_can_instance_stop, stop_one, stop_pass, stop_rounds,
}

module _ {World : Type 0} where
  -- No started, enabled instance of `all` needs one of the second list.
  abbrev pub NoDependents : List (Instance World) → List (Instance World) → Type 0
  NoDependents all [] = Unit
  NoDependents all (x ∷ xs) = (any_dependent x all ≡ false) × NoDependents all xs

  stop_one_idle :
      (all : List (Instance World)) (ins : Instance World) (w : World)
      → any_dependent ins all ≡ false
      → stop_one all ins w ≡ (ins, w, 0)
  unfolding stop_one efi_service_can_instance_stop
  stop_one_idle all ins w h = ground arith

  stop_pass_idle :
      (before rest : List (Instance World)) (w : World)
      → NoDependents (before ++ rest) rest
      → stop_pass before rest w ≡ (before ++ rest, w, 0)
  unfolding stop_pass
  stop_pass_idle before [] w h = rw append-nil
  stop_pass_idle before (ins ∷ rest) w h =
      rw (stop_one_idle (before ++ ins ∷ rest) ins w h.0)
        (rw (stop_pass_idle (before ++ ins ∷ []) rest w (rw append_assoc h.1), append_assoc) refl)

  -- If no instance of the list has a dependent, that is a valid, started and enabled instance of
  -- another guid whose dependencies name it, then the stop rounds end after one round, and stop
  -- nothing and call nothing.
  pub stop_rounds_idle :
      (fuel : ℕ) (all : List (Instance World)) (w : World)
      → NoDependents all all
      → stop_rounds (suc fuel) all w ≡ some (all, w)
  unfolding stop_rounds
  stop_rounds_idle fuel all w h = rw (stop_pass_idle [] all w h)
