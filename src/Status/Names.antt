-- ===== src/Status/Names.antt =====
-- The short names of statuses can be read back (lib/efi/string.c).
use text.Mathlib.Text.{◌==◌ as str_eq}
use efi_wrapper.Prelude.{
  String, ◌≡◌, refl, sym, ap, ◌∙◌, Option, none, some, Bool, true, false, if◌then◌else◌, eq_of_some,
}
use efi_wrapper.Status.{
  EfiStatus, success, warn_unknown_glyph, warn_delete_failure, warn_write_failure,
  warn_buffer_too_small, warn_stale_data, load_error, invalid_parameter, unsupported,
  bad_buffer_size, buffer_too_small, not_ready, device_error, write_protected, out_of_resources,
  volume_corrupted, volume_full, no_media, media_changed, not_found, access_denied, no_response,
  no_mapping, timeout, not_started, already_started, aborted, icmp_error, tftp_error,
  protocol_error, incompatible_version, security_violation, crc_error, end_of_media, end_of_file,
  invalid_language, compromised_data, http_error, warn_file_system, raw,
}
use efi_wrapper.Status.Text.{efi_status_to_short_string}

-- The inverse that the program leaves out.
of_short_string : String → Option EfiStatus
of_short_string t =
    if str_eq t "success"
    then some success
    else if str_eq t "warn-unknown-glyph"
    then some warn_unknown_glyph
    else if str_eq t "warn-delete-failure"
    then some warn_delete_failure
    else if str_eq t "warn-write-failure"
    then some warn_write_failure
    else if str_eq t "warn-buffer-too-small"
    then some warn_buffer_too_small
    else if str_eq t "warn-stale-data"
    then some warn_stale_data
    else if str_eq t "load-error"
    then some load_error
    else if str_eq t "invalid-parameter"
    then some invalid_parameter
    else if str_eq t "unsupported"
    then some unsupported
    else if str_eq t "bad-buffer-size"
    then some bad_buffer_size
    else if str_eq t "buffer-too-small"
    then some buffer_too_small
    else if str_eq t "not-ready"
    then some not_ready
    else if str_eq t "device-error"
    then some device_error
    else if str_eq t "write-protected"
    then some write_protected
    else if str_eq t "out-of-resources"
    then some out_of_resources
    else if str_eq t "volume-corrupted"
    then some volume_corrupted
    else if str_eq t "volume-full"
    then some volume_full
    else if str_eq t "no-media"
    then some no_media
    else if str_eq t "media-changed"
    then some media_changed
    else if str_eq t "not-found"
    then some not_found
    else if str_eq t "access-denied"
    then some access_denied
    else if str_eq t "no-response"
    then some no_response
    else if str_eq t "no-mapping"
    then some no_mapping
    else if str_eq t "timeout"
    then some timeout
    else if str_eq t "not-started"
    then some not_started
    else if str_eq t "already-started"
    then some already_started
    else if str_eq t "aborted"
    then some aborted
    else if str_eq t "icmp-error"
    then some icmp_error
    else if str_eq t "tftp-error"
    then some tftp_error
    else if str_eq t "protocol-error"
    then some protocol_error
    else if str_eq t "incompatible-version"
    then some incompatible_version
    else if str_eq t "security-violation"
    then some security_violation
    else if str_eq t "crc-error"
    then some crc_error
    else if str_eq t "end-of-media"
    then some end_of_media
    else if str_eq t "end-of-file"
    then some end_of_file
    else if str_eq t "invalid-language"
    then some invalid_language
    else if str_eq t "compromised-data"
    then some compromised_data
    else none

-- The statuses that the table names.
abbrev pub has_name : EfiStatus → Bool
has_name http_error = false
has_name warn_file_system = false
has_name (raw n) = false
has_name _ = true

of_short_string-short :
    (s : EfiStatus) → has_name s ≡ true → of_short_string (efi_status_to_short_string s) ≡ some s
unfolding of_short_string efi_status_to_short_string
of_short_string-short http_error h = cc
of_short_string-short warn_file_system h = cc
of_short_string-short (raw n) h = cc
of_short_string-short _ h = refl

-- Two statuses of the table with one short name are the same status.
pub short_names_differ :
    (s t : EfiStatus)
    → has_name s ≡ true
    → has_name t ≡ true
    → efi_status_to_short_string s ≡ efi_status_to_short_string t
    → s ≡ t
short_names_differ s t hs ht e =
    eq_of_some
      (sym (of_short_string-short s hs) ∙ ap of_short_string e ∙ of_short_string-short t ht)
