-- ===== src/Protocol/Open.antt =====
-- efi-wrapper/efi/tables/protocol.c: opening a protocol. The state is the context of the event
-- services whose world holds the handle database; `disconnect` stands for
-- efi_disconnect_controller_impl, which an exclusive opening calls.
use efi_wrapper.Prelude.{
  ℕ, zero, suc, ◌+◌, ◌%◌, ◌^◌, bit_and, Bool, true, false, not, ◌&&◌, ◌||◌, ◌==◌, Option, none,
  some, List, [], ◌∷◌, ◌++◌, if◌then◌else◌,
}
use efi_wrapper.Status.{
  EfiStatus, success, not_ready, invalid_parameter, not_found, unsupported, out_of_resources,
  access_denied, already_started, efi_error,
}
use efi_wrapper.Event.{Ctx, with_world}
use efi_wrapper.Protocol.{
  OpenInfo, Handle, Found, efi_valid_handle, efi_get_protocol, update_handle, update_entry, is_some,
}

-- What a call comes to. `reads_freed` is a step to a list node that is gone, `aborts` a call of
-- `abort`, and `no_fuel` the end of the model's fuel.
pub data Outcome (A : Type 0) : Type 0 where
  done : A → Outcome A
  no_fuel : Outcome A
  reads_freed : Outcome A
  aborts : Outcome A

module _ {A B : Type 0} where
  infixl 5 ◌>>=◌
  abbrev pub ◌>>=◌ : Outcome A → (A → Outcome B) → Outcome B
  done a >>= k = k a
  no_fuel >>= k = no_fuel
  reads_freed >>= k = reads_freed
  aborts >>= k = aborts

-- The bits of `attrs`, EFI_OPEN_PROTOCOL_*
abbrev pub by_handle_protocol : ℕ
by_handle_protocol = 1

abbrev pub get_protocol : ℕ
get_protocol = 2

abbrev pub test_protocol : ℕ
test_protocol = 4

abbrev pub by_child_controller : ℕ
by_child_controller = 8

abbrev pub by_driver : ℕ
by_driver = 16

abbrev pub exclusive : ℕ
exclusive = 32

abbrev pub has_bit : ℕ → ℕ → Bool
has_bit attrs bit = not (bit_and attrs bit == 0)

abbrev pub is_valid : ℕ → List Handle → Bool
is_valid h handles = is_some (efi_valid_handle h handles)

-- The switch over the attributes: whether the arguments are accepted.
unfoldable pub accepted : List Handle → ℕ → ℕ → ℕ → Bool
accepted handles agent controller attrs =
    if attrs == by_child_controller
    then not (agent == controller) && is_valid controller handles && is_valid agent handles
    else if attrs == by_driver || attrs == by_driver + exclusive
    then is_valid controller handles && is_valid agent handles
    else if attrs == exclusive
    then is_valid agent handles
    else attrs == by_handle_protocol || attrs == get_protocol || attrs == test_protocol

-- The items that stand against an opening: another driver's and an exclusive one. `none` if the
-- agent has opened the protocol in this way before.
unfoldable pub scan : ℕ → ℕ → Bool → Bool → List OpenInfo → Option (Bool × Bool)
scan agent attrs driven excluded [] = some (driven, excluded)
scan agent attrs driven excluded (i ∷ infos) =
    let rest =
      scan agent attrs (driven || (not (i.agent == agent) && has_bit i.attrs by_driver))
        (excluded || has_bit i.attrs exclusive) infos in
    if i.agent == agent && has_bit attrs by_driver && i.attrs == attrs then none else rest

abbrev pub refused : ℕ → Bool → Bool → Bool
refused attrs driven excluded =
    if has_bit attrs exclusive then excluded else has_bit attrs by_driver && (excluded || driven)

unfoldable pub as_unsupported : EfiStatus → EfiStatus
as_unsupported not_found = unsupported
as_unsupported st = st

abbrev pub same_open : ℕ → ℕ → ℕ → OpenInfo → Bool
same_open agent controller attrs i =
    i.agent == agent && i.attrs == attrs && i.controller == controller

abbrev pub one_more : OpenInfo → OpenInfo
one_more i = record {
  agent = i.agent;
  controller = i.controller;
  attrs = i.attrs;
  count = (i.count + 1) % 2 ^ 32;
}

abbrev pub is_open : ℕ → ℕ → ℕ → List OpenInfo → Bool
is_open agent controller attrs [] = false
is_open agent controller attrs (i ∷ infos) =
    same_open agent controller attrs i || is_open agent controller attrs infos

-- The last item of the same opening is counted up.
unfoldable pub count_up : ℕ → ℕ → ℕ → List OpenInfo → List OpenInfo
count_up agent controller attrs [] = []
count_up agent controller attrs (i ∷ infos) =
    let rest = i ∷ count_up agent controller attrs infos in
    if same_open agent controller attrs i && not (is_open agent controller attrs infos)
    then one_more i ∷ infos
    else rest

abbrev pub new_open : ℕ → ℕ → ℕ → OpenInfo
new_open agent controller attrs = record {
  agent = agent;
  controller = controller;
  attrs = attrs;
  count = 1;
}

-- The items from the one that is the same opening as a given one; `none` if it is gone.
abbrev pub items_from : OpenInfo → List OpenInfo → Option (List OpenInfo)
items_from n [] = none
items_from n (i ∷ infos) =
    if same_open n.agent n.controller n.attrs i then some (i ∷ infos) else items_from n infos

module _ {W : Type 0} (mem_ok node_ok : Ctx (List Handle × W) → Bool) where
  -- A status, `*intf`, which is 0 for null, and the context.
  abbrev pub Opened : Type 0
  Opened = EfiStatus × ℕ × Ctx (List Handle × W)

  abbrev pub infos_of : Found → List OpenInfo
  infos_of (st, none) = []
  infos_of (st, some e) = e.open_list

  -- list_first(entry->open_list)
  abbrev pub infos_at : Ctx (List Handle × W) → ℕ → ℕ → List OpenInfo
  infos_at s h guid = infos_of (efi_get_protocol s.world.0 h (some guid) true)

  abbrev pub with_infos :
      (List OpenInfo → List OpenInfo) → ℕ → ℕ → Ctx (List Handle × W) → Ctx (List Handle × W)
  with_infos f h guid s = with_world (update_handle h (update_entry guid f) s.world.0, s.world.1) s

  -- The end of the opening: the item is found and counted up, or a new one is put at the end. The
  -- item is lost without a list node.
  unfoldable pub record_open : Ctx (List Handle × W) → ℕ → ℕ → ℕ → ℕ → ℕ → ℕ → Opened
  unfolding count_up
  record_open s h guid intf agent controller attrs =
      if is_open agent controller attrs (infos_at s h guid)
      then (success, intf, with_infos (count_up agent controller attrs) h guid s)
      else if not (mem_ok s)
      then (out_of_resources, 0, s)
      else (
        success,
        intf,
        if node_ok s
            then with_infos (λ infos. infos ++ new_open agent controller attrs ∷ []) h guid s
            else s,
      )

  -- The step after a failed disconnection: the next item, which must still be there.
  abbrev pub next_items : List OpenInfo → List OpenInfo → Outcome (List OpenInfo)
  next_items [] now = done []
  next_items (n ∷ rest) now = elim (items_from n now) [
    | none ↦ reads_freed
    | some items ↦ done items
  ]

  module _
      (disconnect : ℕ
        → ℕ
        → ℕ
        → Ctx (List Handle × W)
        → Outcome (EfiStatus × Ctx (List Handle × W))) where
    -- The loop that disconnects the drivers; the result says whether one of them stayed.
    unfoldable pub exclusive_loop :
        ℕ
        → ℕ
        → ℕ
        → Bool
        → List OpenInfo
        → Ctx (List Handle × W)
        → Outcome (Bool × Ctx (List Handle × W))
    exclusive_loop zero h guid stayed infos s = no_fuel
    exclusive_loop (suc fuel) h guid stayed [] s = done (stayed, s)
    exclusive_loop (suc fuel) h guid stayed (i ∷ rest) s = elim (i.attrs == by_driver) [
      | false ↦ exclusive_loop fuel h guid stayed rest s
      | true ↦ disconnect i.controller i.agent 0 s >>= (λ (r : EfiStatus × Ctx (List Handle × W)).
          elim (efi_error r.0) [
            | true ↦
                next_items rest (infos_at r.1 h guid)
                >>= (λ (items : List OpenInfo). exclusive_loop fuel h guid true items r.1)
            | false ↦ exclusive_loop fuel h guid stayed (infos_at r.1 h guid) r.1
          ])
    ]

    abbrev pub after_loop : ℕ → ℕ → ℕ → ℕ → ℕ → ℕ → Bool × Ctx (List Handle × W) → Opened
    after_loop h guid intf agent controller attrs (true, s) = (access_denied, 0, s)
    after_loop h guid intf agent controller attrs (false, s) =
        record_open s h guid intf agent controller attrs

    abbrev pub open_scanned :
        ℕ → Ctx (List Handle × W) → ℕ → ℕ → ℕ → ℕ → ℕ → ℕ → Option (Bool × Bool) → Outcome Opened
    open_scanned fuel s h guid intf agent controller attrs none = done (already_started, 0, s)
    open_scanned fuel s h guid intf agent controller attrs (some (driven, excluded)) =
        if refused attrs driven excluded
        then done (access_denied, 0, s)
        else if has_bit attrs exclusive
        then exclusive_loop fuel h guid false (infos_at s h guid) s
          >>= (λ (r : Bool × Ctx (List Handle × W)).
              done (after_loop h guid intf agent controller attrs r))
        else done (record_open s h guid intf agent controller attrs)

    abbrev pub open_found :
        ℕ → Ctx (List Handle × W) → ℕ → ℕ → Bool → ℕ → ℕ → ℕ → Found → Outcome Opened
    open_found fuel s h guid has_intf agent controller attrs (st, none) =
        done ((if efi_error (as_unsupported st) then as_unsupported st else unsupported), 0, s)
    open_found fuel s h guid has_intf agent controller attrs (st, some e) =
        let intf : ℕ = if attrs == test_protocol then 0 else e.interface in
        if efi_error (as_unsupported st)
        then done (as_unsupported st, 0, s)
        else if agent == 0
        then done (success, intf, s)
        else open_scanned fuel s h guid intf agent controller attrs
            (if has_intf then scan agent attrs false false e.open_list else some (false, false))

    -- `has_intf` says whether `intf` is a pointer.
    unfoldable pub open_protocol :
        ℕ → Bool → Ctx (List Handle × W) → ℕ → Option ℕ → Bool → ℕ → ℕ → ℕ → Outcome Opened
    unfolding exclusive_loop record_open scan accepted
    open_protocol fuel false s h protocol has_intf agent controller attrs = done (not_ready, 0, s)
    open_protocol fuel true s h none has_intf agent controller attrs =
        done (invalid_parameter, 0, s)
    open_protocol fuel true s h (some guid) has_intf agent controller attrs =
        if not (is_valid h s.world.0)
        then done (invalid_parameter, 0, s)
        else if not (attrs == test_protocol) && not has_intf
        then done (invalid_parameter, 0, s)
        else if not (accepted s.world.0 agent controller attrs)
        then done (invalid_parameter, 0, s)
        else open_found fuel s h guid has_intf agent controller attrs
            (efi_get_protocol s.world.0 h (some guid) true)
