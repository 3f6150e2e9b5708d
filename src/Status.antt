-- ===== src/Status.antt =====
-- include/efi/efi_status.h: the status codes of the firmware interface.
pub mod Errno
pub mod ErrnoLaws
pub mod Text
pub mod Names
use efi_wrapper.Prelude.{ℕ, ◌+◌, ◌^◌, Bool, true, false, not, ◌==◌}

-- The named values of `efi_status`. `raw n` is a value with no name, as in `(efi_status)-1`.
pub data EfiStatus : Type 0 where
  success load_error invalid_parameter unsupported bad_buffer_size buffer_too_small : EfiStatus
  not_ready device_error write_protected out_of_resources volume_corrupted volume_full : EfiStatus
  no_media media_changed not_found access_denied no_response no_mapping : EfiStatus
  timeout not_started already_started aborted icmp_error tftp_error : EfiStatus
  protocol_error incompatible_version security_violation crc_error end_of_media end_of_file :
      EfiStatus
  invalid_language compromised_data http_error warn_unknown_glyph warn_delete_failure
        warn_write_failure :
      EfiStatus
  warn_buffer_too_small warn_stale_data warn_file_system : EfiStatus
  raw : ℕ → EfiStatus

-- `MAX_BIT` on a 64-bit machine.
abbrev pub max_bit : ℕ
max_bit = 2 ^ 63

unfoldable pub status_code : EfiStatus → ℕ
status_code success = 0
status_code load_error = max_bit + 1
status_code invalid_parameter = max_bit + 2
status_code unsupported = max_bit + 3
status_code bad_buffer_size = max_bit + 4
status_code buffer_too_small = max_bit + 5
status_code not_ready = max_bit + 6
status_code device_error = max_bit + 7
status_code write_protected = max_bit + 8
status_code out_of_resources = max_bit + 9
status_code volume_corrupted = max_bit + 10
status_code volume_full = max_bit + 11
status_code no_media = max_bit + 12
status_code media_changed = max_bit + 13
status_code not_found = max_bit + 14
status_code access_denied = max_bit + 15
status_code no_response = max_bit + 16
status_code no_mapping = max_bit + 17
status_code timeout = max_bit + 18
status_code not_started = max_bit + 19
status_code already_started = max_bit + 20
status_code aborted = max_bit + 21
status_code icmp_error = max_bit + 22
status_code tftp_error = max_bit + 23
status_code protocol_error = max_bit + 24
status_code incompatible_version = max_bit + 25
status_code security_violation = max_bit + 26
status_code crc_error = max_bit + 27
status_code end_of_media = max_bit + 28
status_code end_of_file = max_bit + 31
status_code invalid_language = max_bit + 32
status_code compromised_data = max_bit + 33
status_code http_error = max_bit + 35
status_code warn_unknown_glyph = 1
status_code warn_delete_failure = 2
status_code warn_write_failure = 3
status_code warn_buffer_too_small = 4
status_code warn_stale_data = 5
status_code warn_file_system = 6
status_code (raw n) = n

-- The macro `efi_error(code)`: `code != efi_success`, so that warnings count as errors.
unfoldable pub efi_error : EfiStatus → Bool
efi_error success = false
efi_error (raw n) = not (n == 0)
efi_error _ = true
