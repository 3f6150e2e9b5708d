-- ===== src/Status/ErrnoLaws.antt =====
-- What a status keeps when it is carried through an errno and back (lib/efi/string.c).
use efi_wrapper.Prelude.{◌-◌, ◌^◌, ◌≡◌, ◌↔◌, Bool, true, false, not, ◌==◌, arith}
use efi_wrapper.Status.{
  EfiStatus, success, invalid_parameter, unsupported, not_ready, device_error, write_protected,
  out_of_resources, volume_corrupted, volume_full, not_found, access_denied, timeout,
  already_started, protocol_error, raw, efi_error, status_code,
}
use efi_wrapper.Status.Errno.{efi_status_to_errno, efi_errno_to_status}

-- The statuses that an errno can hold without loss.
abbrev pub survives : EfiStatus → Bool
survives success = true
survives invalid_parameter = true
survives unsupported = true
survives not_ready = true
survives device_error = true
survives write_protected = true
survives out_of_resources = true
survives volume_corrupted = true
survives volume_full = true
survives not_found = true
survives access_denied = true
survives timeout = true
survives already_started = true
survives protocol_error = true
survives (raw n) = n == 2 ^ 64 - 1
survives _ = false

-- A status comes back from its errno exactly if it is one of the listed ones, or the
-- unnamed value -1; every other status comes back as another one.
pub errno_round_trip :
    (s : EfiStatus) → (efi_errno_to_status (efi_status_to_errno s) ≡ s) ↔ (survives s ≡ true)
unfolding efi_status_to_errno efi_errno_to_status
errno_round_trip s = ground arith

-- Carried through an errno, a status is success exactly if it was success: no error is lost,
-- and none is made up.
pub errno_keeps_success :
    (s : EfiStatus) → (efi_errno_to_status (efi_status_to_errno s) ≡ success) ↔ (s ≡ success)
unfolding efi_status_to_errno efi_errno_to_status
errno_keeps_success s = ground arith

-- The test `efi_error` reads the numeric code: it fails exactly at code 0.
efi_error-status_code : (s : EfiStatus) → efi_error s ≡ not (status_code s == 0)
unfolding efi_error status_code
efi_error-status_code s = ground arith
