-- ===== src/Protocol/Connect.antt =====
-- efi-wrapper/efi/tables/controller.c: connecting drivers to controllers.
use efi_wrapper.Prelude.{
  ℕ, zero, suc, Bool, true, false, not, ◌&&◌, ◌||◌, ◌==◌, Option, none, some, List, [], ◌∷◌, ◌++◌,
  get_elem?, if◌then◌else◌,
}
use efi_wrapper.Status.{EfiStatus, success, not_ready, invalid_parameter, not_found, efi_error}
use efi_wrapper.Event.{Ctx}
use efi_wrapper.Protocol.{OpenInfo, InterfaceEntry, Handle, efi_valid_handle}
use efi_wrapper.Protocol.Locate.{search_by_protocol, Located, efi_locate_handle_buffer_impl}
use efi_wrapper.Protocol.Open.{
  Outcome, done, no_fuel, ◌>>=◌, get_protocol, by_child_controller, has_bit, is_valid, Opened,
}
use efi_wrapper.Protocol.Disconnect.{
  g_efi_driver_binding_protocol_guid, entries_of, Answer, closed, efi_open_protocol_impl,
}

-- The handles that are bound in turn: for each driver of the caller's list its places in the
-- buffer, which are set to 0, and then what is left of the buffer.
abbrev pub matches : ℕ → List ℕ → List ℕ
matches driver [] = []
matches driver (h ∷ buffer) =
    if h == driver then h ∷ matches driver buffer else matches driver buffer

abbrev pub zeroed : ℕ → List ℕ → List ℕ
zeroed driver [] = []
zeroed driver (h ∷ buffer) = (if h == driver then 0 else h) ∷ zeroed driver buffer

abbrev pub in_turn : List ℕ → List ℕ → List ℕ
in_turn [] buffer = buffer
in_turn (driver ∷ drivers) buffer = matches driver buffer ++ in_turn drivers (zeroed driver buffer)

abbrev pub listed : Option (List ℕ) → List ℕ
listed none = []
listed (some drivers) = drivers

-- *driver=NULL ends the caller's list before its first driver.
abbrev pub cleared : Option (List ℕ) → Option (List ℕ)
cleared none = none
cleared (some drivers) = some []

-- The loops over the interfaces and their open lists, from a place on, as the lists then are.
abbrev pub item_at : List InterfaceEntry → ℕ → ℕ → Option (Option OpenInfo)
item_at entries j i = elim (get_elem? entries j) [
  | none ↦ none
  | some e ↦ some (get_elem? e.open_list i)
]

module _ {W : Type 0} (mem_ok node_ok : Ctx (List Handle × W) → Bool)
    (stop : ℕ → ℕ → List ℕ → Ctx (List Handle × W) → EfiStatus × Ctx (List Handle × W))
    (supported start : ℕ → ℕ → ℕ → Ctx (List Handle × W) → EfiStatus × Ctx (List Handle × W)) where
  abbrev pub start_supported : ℕ → ℕ → ℕ → Answer mem_ok node_ok → Answer mem_ok node_ok
  start_supported bind controller remain (st, s) =
      let started = start bind controller remain s in if efi_error st then (st, s) else started

  abbrev pub bind_opened : ℕ → ℕ → ℕ → Opened mem_ok node_ok → Answer mem_ok node_ok
  bind_opened controller driver remain (st, bind, s) =
      let r = start_supported bind controller remain (supported bind controller remain s) in
      if efi_error st then (st, s) else (r.0, closed mem_ok node_ok r.1 driver 0)

  unfoldable pub efi_bind_controller :
      ℕ → ℕ → ℕ → ℕ → Ctx (List Handle × W) → Outcome (Answer mem_ok node_ok)
  unfolding efi_open_protocol_impl
  efi_bind_controller fuel controller driver remain s =
      efi_open_protocol_impl mem_ok node_ok stop fuel true s driver
        (some g_efi_driver_binding_protocol_guid) true driver 0 get_protocol
      >>= (λ (o : Opened mem_ok node_ok). done (bind_opened controller driver remain o))

  -- Binding each driver of a list; the result says whether one of them started.
  unfoldable pub bind_all :
      ℕ → ℕ → ℕ → List ℕ → Bool → Ctx (List Handle × W) → Outcome (Bool × Ctx (List Handle × W))
  unfolding efi_bind_controller
  bind_all fuel controller remain [] connected s = done (connected, s)
  bind_all fuel controller remain (driver ∷ drivers) connected s =
      if driver == 0
      then bind_all fuel controller remain drivers connected s
      else efi_bind_controller fuel controller driver remain s >>= (λ (r : Answer mem_ok node_ok).
        bind_all fuel controller remain drivers (connected || not (efi_error r.0)) r.1)

  abbrev pub connect_located :
      ℕ
      → ℕ
      → Option (List ℕ)
      → ℕ
      → Located
      → Ctx (List Handle × W)
      → Outcome (Answer mem_ok node_ok)
  connect_located fuel controller drivers remain (st, count, none) s =
      done ((if efi_error st then st else not_found), s)
  connect_located fuel controller drivers remain (st, count, some buffer) s =
      if efi_error st
      then done (st, s)
      else bind_all fuel controller remain (in_turn (listed drivers) buffer) false s
        >>= (λ (r : Bool × Ctx (List Handle × W)). done ((if r.0 then success else not_found), r.1))

  -- The caller's list of drivers, which ends at a null handle; `none` is a null pointer.
  unfoldable pub efi_connect_single_controller :
      ℕ → ℕ → Option (List ℕ) → ℕ → Ctx (List Handle × W) → Outcome (Answer mem_ok node_ok)
  unfolding bind_all
  efi_connect_single_controller fuel controller drivers remain s =
      connect_located fuel controller drivers remain
        (efi_locate_handle_buffer_impl true (mem_ok s) s.world.0 search_by_protocol
          (some g_efi_driver_binding_protocol_guid) false true)
        s

  unfoldable pub connect_children :
      (ℕ → Ctx (List Handle × W) → Outcome (Answer mem_ok node_ok))
      → ℕ
      → ℕ
      → ℕ
      → ℕ
      → EfiStatus
      → Ctx (List Handle × W)
      → Outcome (Answer mem_ok node_ok)
  connect_children again zero controller j i ret s = no_fuel
  connect_children again (suc fuel) controller j i ret s =
      elim (item_at (entries_of (efi_valid_handle controller s.world.0)) j i) [
        | none ↦ done (ret, s)
        | some none ↦ connect_children again fuel controller (suc j) 0 ret s
        | some (some info) ↦ elim (has_bit info.attrs by_child_controller) [
          | false ↦ connect_children again fuel controller j (suc i) ret s
          | true ↦ again info.controller s >>= (λ (r : Answer mem_ok node_ok).
              connect_children again fuel controller j (suc i)
                (if efi_error r.0 then ret else success) r.1)
        ]
      ]

  -- `remain_ends` says whether the remaining path is given and starts with its end node.
  abbrev pub connect_end : Bool → Answer mem_ok node_ok → Answer mem_ok node_ok
  connect_end remain_ends (ret, s) = ((if efi_error ret && remain_ends then success else ret), s)

  unfoldable pub efi_connect_controller_impl :
      ℕ
      → Bool
      → ℕ
      → Option (List ℕ)
      → ℕ
      → Bool
      → Bool
      → Ctx (List Handle × W)
      → Outcome (Answer mem_ok node_ok)
  unfolding efi_connect_single_controller connect_children
  efi_connect_controller_impl zero ready controller drivers remain remain_ends recursive s = no_fuel
  efi_connect_controller_impl (suc fuel) false controller drivers remain remain_ends recursive s =
      done (not_ready, s)
  efi_connect_controller_impl (suc fuel) true controller drivers remain remain_ends recursive s =
      let again = λ (h : ℕ) (t : Ctx (List Handle × W)).
        efi_connect_controller_impl fuel true h (cleared drivers) remain remain_ends recursive t in
      if not (is_valid controller s.world.0)
      then done (invalid_parameter, s)
      else efi_connect_single_controller fuel controller (cleared drivers) remain s
        >>= (λ (r : Answer mem_ok node_ok).
            let ret : EfiStatus = if efi_error r.0 then not_found else success in
            (if recursive
              then connect_children again fuel controller 0 0 ret r.1
              else done (ret, r.1))
            >>= (λ (q : Answer mem_ok node_ok). done (connect_end remain_ends q)))
