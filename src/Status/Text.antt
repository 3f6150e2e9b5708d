-- ===== src/Status/Text.antt =====
-- lib/efi/string.c: the names of status codes and memory types.
use efi_wrapper.Prelude.{String}
use efi_wrapper.Status.{
  EfiStatus, success, load_error, invalid_parameter, unsupported, bad_buffer_size, buffer_too_small,
  not_ready, device_error, write_protected, out_of_resources, volume_corrupted, volume_full,
  no_media, media_changed, not_found, access_denied, no_response, no_mapping, timeout, not_started,
  already_started, aborted, icmp_error, tftp_error, protocol_error, incompatible_version,
  security_violation, crc_error, end_of_media, end_of_file, invalid_language, compromised_data,
  warn_unknown_glyph, warn_delete_failure, warn_write_failure, warn_buffer_too_small,
  warn_stale_data,
}

unfoldable pub efi_status_to_string : EfiStatus → String
efi_status_to_string success = "Success"
efi_status_to_string warn_unknown_glyph = "Unknown Glyph"
efi_status_to_string warn_delete_failure = "Delete Failure"
efi_status_to_string warn_write_failure = "Write Failure"
efi_status_to_string warn_buffer_too_small = "Buffer Too Small"
efi_status_to_string warn_stale_data = "Stale Data"
efi_status_to_string load_error = "Load Error"
efi_status_to_string invalid_parameter = "Invalid Parameter"
efi_status_to_string unsupported = "Unsupported"
efi_status_to_string bad_buffer_size = "Bad Buffer Size"
efi_status_to_string buffer_too_small = "Buffer Too Small"
efi_status_to_string not_ready = "Not Ready"
efi_status_to_string device_error = "Device Error"
efi_status_to_string write_protected = "Write Protected"
efi_status_to_string out_of_resources = "Out of Resources"
efi_status_to_string volume_corrupted = "Volume Corrupt"
efi_status_to_string volume_full = "Volume Full"
efi_status_to_string no_media = "No Media"
efi_status_to_string media_changed = "Media changed"
efi_status_to_string not_found = "Not Found"
efi_status_to_string access_denied = "Access Denied"
efi_status_to_string no_response = "No Response"
efi_status_to_string no_mapping = "No mapping"
efi_status_to_string timeout = "Time out"
efi_status_to_string not_started = "Not started"
efi_status_to_string already_started = "Already started"
efi_status_to_string aborted = "Aborted"
efi_status_to_string icmp_error = "ICMP Error"
efi_status_to_string tftp_error = "TFTP Error"
efi_status_to_string protocol_error = "Protocol Error"
efi_status_to_string incompatible_version = "Incompatible Version"
efi_status_to_string security_violation = "Security Violation"
efi_status_to_string crc_error = "CRC Error"
efi_status_to_string end_of_media = "End of Media"
efi_status_to_string end_of_file = "End of File"
efi_status_to_string invalid_language = "Invalid Language"
efi_status_to_string compromised_data = "Compromised Data"
efi_status_to_string _ = "Unknown"

unfoldable pub efi_status_to_short_string : EfiStatus → String
efi_status_to_short_string success = "success"
efi_status_to_short_string warn_unknown_glyph = "warn-unknown-glyph"
efi_status_to_short_string warn_delete_failure = "warn-delete-failure"
efi_status_to_short_string warn_write_failure = "warn-write-failure"
efi_status_to_short_string warn_buffer_too_small = "warn-buffer-too-small"
efi_status_to_short_string warn_stale_data = "warn-stale-data"
efi_status_to_short_string load_error = "load-error"
efi_status_to_short_string invalid_parameter = "invalid-parameter"
efi_status_to_short_string unsupported = "unsupported"
efi_status_to_short_string bad_buffer_size = "bad-buffer-size"
efi_status_to_short_string buffer_too_small = "buffer-too-small"
efi_status_to_short_string not_ready = "not-ready"
efi_status_to_short_string device_error = "device-error"
efi_status_to_short_string write_protected = "write-protected"
efi_status_to_short_string out_of_resources = "out-of-resources"
efi_status_to_short_string volume_corrupted = "volume-corrupted"
efi_status_to_short_string volume_full = "volume-full"
efi_status_to_short_string no_media = "no-media"
efi_status_to_short_string media_changed = "media-changed"
efi_status_to_short_string not_found = "not-found"
efi_status_to_short_string access_denied = "access-denied"
efi_status_to_short_string no_response = "no-response"
efi_status_to_short_string no_mapping = "no-mapping"
efi_status_to_short_string timeout = "timeout"
efi_status_to_short_string not_started = "not-started"
efi_status_to_short_string already_started = "already-started"
efi_status_to_short_string aborted = "aborted"
efi_status_to_short_string icmp_error = "icmp-error"
efi_status_to_short_string tftp_error = "tftp-error"
efi_status_to_short_string protocol_error = "protocol-error"
efi_status_to_short_string incompatible_version = "incompatible-version"
efi_status_to_short_string security_violation = "security-violation"
efi_status_to_short_string crc_error = "crc-error"
efi_status_to_short_string end_of_media = "end-of-media"
efi_status_to_short_string end_of_file = "end-of-file"
efi_status_to_short_string invalid_language = "invalid-language"
efi_status_to_short_string compromised_data = "compromised-data"
efi_status_to_short_string _ = "unknown"

-- include/efi/efi_types.h; `other_memory_type` is a value outside the enumeration.
pub data EfiMemoryType : Type 0 where
  reserved_memory_type loader_code loader_data bs_code : EfiMemoryType
  bs_data rs_code rs_data conventional_memory : EfiMemoryType
  unusable_memory acpi_reclaim_memory acpi_memory_nvs mmio : EfiMemoryType
  mmio_port_space pal_code persistent_memory max_memory_type : EfiMemoryType
  other_memory_type : EfiMemoryType

unfoldable pub efi_memory_type_to_string : EfiMemoryType → String
efi_memory_type_to_string reserved_memory_type = "Reserved"
efi_memory_type_to_string loader_code = "Loader Code"
efi_memory_type_to_string loader_data = "Loader Data"
efi_memory_type_to_string bs_code = "Boot Services Code"
efi_memory_type_to_string bs_data = "Boot Services Data"
efi_memory_type_to_string rs_code = "Runtime Services Code"
efi_memory_type_to_string rs_data = "Runtime Services Data"
efi_memory_type_to_string conventional_memory = "Conventional"
efi_memory_type_to_string unusable_memory = "Unusable"
efi_memory_type_to_string acpi_reclaim_memory = "ACPI Reclaim"
efi_memory_type_to_string acpi_memory_nvs = "ACPI Memory NVS"
efi_memory_type_to_string mmio = "MMIO"
efi_memory_type_to_string mmio_port_space = "MMIO Port Space"
efi_memory_type_to_string pal_code = "Pal Code"
efi_memory_type_to_string persistent_memory = "Persistent"
efi_memory_type_to_string max_memory_type = "Max"
efi_memory_type_to_string _ = "Unknown"
