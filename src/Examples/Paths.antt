-- ===== src/Examples/Paths.antt =====
-- The device paths at concrete inputs.
use efi_wrapper.Prelude.{
  ℕ, ◌+◌, ◌≡◌, refl, true, Option, none, some, [], ◌∷◌, ◌++◌, replicate, arith,
}
use efi_wrapper.DevicePath.{Bytes, efi_device_path_end}
use efi_wrapper.DevicePath.Walk.{efi_device_path_valid, efi_device_path_get_size}
use efi_wrapper.DevicePath.Encoding.{Node, IsNode, encode, nodes_size, get_size-encode}
use efi_wrapper.DevicePath.Build.{
  efi_device_path_append, efi_device_path_instance_next, efi_device_path_from_file_str16,
}
use efi_wrapper.DevicePath.Append.{path_of, append_path}
use efi_wrapper.Ustr.{ustrsize, ustrlen}
use efi_wrapper.DevicePath.FilePath.{file_node, from_file_str16_path}
use efi_wrapper.DevicePath.Instances.{instance_end, instance_next_path}

-- An allocator that fills new blocks with 170.
abbrev filled_block : ℕ → Option Bytes
filled_block n = some (replicate n 170)

-- A vendor node with two bytes, and a file path with an empty name.
abbrev vendor : Node
vendor = record { type = 1; sub_type = 4; payload = 7 ∷ 8 ∷ [] }

abbrev file : Node
file = record { type = 4; sub_type = 4; payload = 0 ∷ 0 ∷ [] }

vendor-IsNode : IsNode vendor
vendor-IsNode = record {
  size_fits = omega arith;
  goes_on = refl;
  terminated = λ h. absurd (ground (arith, h));
}

file-IsNode : IsNode file
file-IsNode = record { size_fits = omega arith; goes_on = refl; terminated = λ _. refl }

get_size-encode_example :
    (efi_device_path_valid (some (encode (vendor ∷ file ∷ []) (efi_device_path_end ++ 9 ∷ []))) 0
      ≡ true)
    × (efi_device_path_get_size (some (encode (vendor ∷ file ∷ []) (efi_device_path_end ++ 9 ∷ [])))
        ≡ nodes_size (vendor ∷ file ∷ []) + 4)
get_size-encode_example =
    get_size-encode (vendor ∷ file ∷ []) (9 ∷ []) (vendor-IsNode, (file-IsNode, tt)) (omega arith)

append_path_example :
    efi_device_path_append filled_block
      (some (encode (vendor ∷ []) (efi_device_path_end ++ [])))
      (some (encode (file ∷ []) (efi_device_path_end ++ 9 ∷ [])))
    ≡ some (path_of ((vendor ∷ []) ++ file ∷ []))
append_path_example =
    append_path filled_block (vendor ∷ []) (file ∷ []) [] (9 ∷ []) (replicate 16 170)
      (vendor-IsNode, tt) (file-IsNode, tt) (omega arith) refl refl

end-IsNode : IsNode instance_end
end-IsNode = record {
  size_fits = omega arith;
  goes_on = refl;
  terminated = λ h. absurd (ground (arith, h));
}

instance_next_path_example :
    efi_device_path_instance_next filled_block
      (some (encode ((vendor ∷ []) ++ instance_end ∷ file ∷ []) (efi_device_path_end ++ 9 ∷ [])))
      true
    ≡ (
      some (path_of (vendor ∷ [])),
      some (nodes_size (vendor ∷ []) + 4),
      some (encode (file ∷ []) (efi_device_path_end ++ 9 ∷ [])),
    )
instance_next_path_example =
    instance_next_path filled_block (vendor ∷ []) (file ∷ []) (9 ∷ []) (replicate 10 170)
      (vendor-IsNode, tt) (vendor-IsNode, (end-IsNode, (file-IsNode, tt))) (refl, tt) (omega arith)
      (omega arith) refl refl

from_file_str16_path_example :
    efi_device_path_from_file_str16 filled_block none (some (65 ∷ []))
    ≡ some (path_of (file_node (65 ∷ []) ∷ []))
unfolding ustrsize ustrlen
from_file_str16_path_example =
    from_file_str16_path filled_block 65 [] (replicate 12 170) (omega arith) refl refl
