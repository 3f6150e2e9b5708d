-- ===== src/DevicePath/MultiInstance.antt =====
-- The test for several instances and the instance size (lib/efi/device_path.c) on encoded paths.
use efi_wrapper.Prelude.{
  ℕ, zero, suc, ◌+◌, ◌<◌, ◌≤◌, ◌≡◌, refl, ap, ◌∙◌, ◌&&◌, ◌==◌, some, List, [], ◌∷◌, ◌++◌, length,
  arith, Bool-cases, inl, inr,
}
use efi_wrapper.DevicePath.{Bytes, end_type, end_instance, efi_device_path_end, uintn_max}
use efi_wrapper.DevicePath.Encoding.{
  Node, IsNode, AllNodes, node_size, encode, nodes_size, length-encode, length-nodes_size,
  head_length, drop_head, get_size-encode,
}
use efi_wrapper.DevicePath.Build.{
  instance_loop, efi_device_path_get_instance_size, multi_loop, efi_device_path_is_multi_instance,
}
use efi_wrapper.DevicePath.Instances.{has_instance_end}

multi_loop_lem :
    (ns : List Node) (rest : Bytes) (fuel : ℕ)
    → AllNodes ns
    → length ns < fuel
    → multi_loop fuel (encode ns (efi_device_path_end ++ rest)) ≡ has_instance_end ns
unfolding multi_loop
multi_loop_lem [] rest zero ok f = absurd (omega arith)
multi_loop_lem [] rest (suc fuel) ok f = refl
multi_loop_lem (n ∷ ns) rest zero ok f = absurd (omega arith)
multi_loop_lem (n ∷ ns) rest (suc fuel) (ok, oks) f =
    let again = multi_loop_lem ns rest fuel oks (omega arith) in
    elim (Bool-cases (n.type == end_type && n.sub_type == end_instance)) [
      | inl e ↦ rw (ok.goes_on, e) refl
      | inr e ↦
          rw
            (
              ok.goes_on,
              e,
              head_length n ns (efi_device_path_end ++ rest),
              drop_head n ns (efi_device_path_end ++ rest),
              again,
            )
            refl
    ]

instance_loop_lem :
    (n : Node) (ns : List Node) (rest : Bytes) (fuel size : ℕ)
    → IsNode n
    → AllNodes ns
    → length ns < fuel
    → instance_loop fuel (encode (n ∷ ns) (efi_device_path_end ++ rest)) size
      ≡ some (size + nodes_size (n ∷ ns))
unfolding instance_loop
instance_loop_lem n ns rest zero size ok oks f = absurd (omega arith)
instance_loop_lem n [] rest (suc fuel) size ok oks f =
    rw
      (
        ok.goes_on,
        head_length n [] (efi_device_path_end ++ rest),
        drop_head n [] (efi_device_path_end ++ rest),
      )
      (ap some (omega arith))
instance_loop_lem n (m ∷ ns) rest (suc fuel) size ok (ok_m, oks) f =
    rw
      (
        ok.goes_on,
        head_length n (m ∷ ns) (efi_device_path_end ++ rest),
        drop_head n (m ∷ ns) (efi_device_path_end ++ rest),
        ok_m.goes_on,
        instance_loop_lem m ns rest fuel (size + node_size n) ok_m oks (omega arith),
      )
      (ap some (omega arith))

-- On an encoded path of well-formed nodes, the test for several instances finds the end of an
-- instance wherever it stands, and the instance size, with fuel for each node, counts the nodes of
-- all instances, not those of the first alone.
pub instances_lem :
    (ns : List Node) (rest : Bytes) (fuel : ℕ)
    → AllNodes ns
    → nodes_size ns + 4 ≤ uintn_max
    → length ns ≤ fuel
    → (efi_device_path_is_multi_instance (some (encode ns (efi_device_path_end ++ rest)))
        ≡ has_instance_end ns)
      × (efi_device_path_get_instance_size fuel (some (encode ns (efi_device_path_end ++ rest)))
          ≡ some (nodes_size ns))
unfolding efi_device_path_is_multi_instance efi_device_path_get_instance_size
instances_lem [] rest fuel ok room f =
    let p = encode [] (efi_device_path_end ++ rest) in
    let (v, _) = get_size-encode [] rest tt room in
    (rw v (multi_loop_lem [] rest (suc (length p)) tt (omega arith)), refl)
instances_lem (n ∷ ns) rest fuel (ok, oks) room f =
    let p = encode (n ∷ ns) (efi_device_path_end ++ rest) in
    let (v, _) = get_size-encode (n ∷ ns) rest (ok, oks) room in
    let enough : length (n ∷ ns) < suc (length p) =
      omega
        (arith, length-encode (n ∷ ns) (efi_device_path_end ++ rest), length-nodes_size (n ∷ ns)) in
    (
      rw v (multi_loop_lem (n ∷ ns) rest (suc (length p)) (ok, oks) enough),
      rw ok.goes_on
          (instance_loop_lem n ns rest fuel 0 ok oks (omega arith) ∙ ap some (omega arith)),
    )
