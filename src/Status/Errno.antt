-- ===== src/Status/Errno.antt =====
-- lib/efi/string.c: between status codes and errno values.
use efi_wrapper.Prelude.{ℕ, ◌-◌, ◌^◌}
use efi_wrapper.Status.{
  EfiStatus, success, load_error, invalid_parameter, unsupported, bad_buffer_size, buffer_too_small,
  not_ready, device_error, write_protected, out_of_resources, volume_corrupted, volume_full,
  no_media, media_changed, not_found, access_denied, no_response, no_mapping, timeout, not_started,
  already_started, aborted, icmp_error, tftp_error, protocol_error, incompatible_version,
  security_violation, crc_error, end_of_media, end_of_file, invalid_language, compromised_data,
  http_error, raw,
}

-- The errno values that the program names (Linux), 0, and every other value.
pub data Errno : Type 0 where
  ok : Errno
  eperm eacces enotdir eisdir econnrefused ekeyrevoked ekeyrejected enoent : Errno
  esrch enxio echild eidrm enocsi enoano enopkg elibacc : Errno
  eio exdev enodev enotty emlink eownerdead enotrecoverable erfkill : Errno
  edeadlk enolck enotempty eloop el2nsync el3hlt el3rst eunatch : Errno
  el2hlt ebade enostr enolink esrmnt e2big enomem enfile : Errno
  emfile enametoolong exfull enosr eoverflow elibmax eusers emsgsize : Errno
  enobufs etoomanyrefs ebadf efault enotblk einval edom erange : Errno
  echrng elnrng ebadr ebadrqc ebadslt ebadfd edestaddrreq enotnam : Errno
  enoexec efbig ebfont elibscn elibexec eilseq eagain ebusy : Errno
  etxtbsy eaddrinuse eaddrnotavail einprogress enokey epipe enomsg eadv : Errno
  ecomm eproto emultihop edotdot ebadmsg enotuniq eremchg estrpipe : Errno
  eprototype eremoteio eexist eisconn ealready edquot enospc espipe : Errno
  enodata ehwpoison elibbad estale erofs enotsup enosys enotsock : Errno
  enoprotoopt eprotonosupport esocktnosupport epfnosupport eafnosupport enavail etime etimedout :
      Errno
  enonet eremote enetdown enetreset ehostdown emediumtype enetunreach ehostunreach : Errno
  ecanceled econnaborted econnreset enotconn eshutdown euclean eisnam enomedium : Errno
  ekeyexpired eintr : Errno
  other_errno : ℕ → Errno

unfoldable pub efi_status_to_errno : EfiStatus → Errno
efi_status_to_errno success = ok
efi_status_to_errno security_violation = eperm
efi_status_to_errno write_protected = erofs
efi_status_to_errno access_denied = eacces
efi_status_to_errno no_media = enomedium
efi_status_to_errno no_response = enodata
efi_status_to_errno not_found = enoent
efi_status_to_errno not_ready = eagain
efi_status_to_errno no_mapping = efault
efi_status_to_errno not_started = esrch
efi_status_to_errno media_changed = ebusy
efi_status_to_errno bad_buffer_size = einval
efi_status_to_errno buffer_too_small = einval
efi_status_to_errno invalid_language = einval
efi_status_to_errno invalid_parameter = einval
efi_status_to_errno out_of_resources = enomem
efi_status_to_errno compromised_data = euclean
efi_status_to_errno volume_corrupted = euclean
efi_status_to_errno load_error = ebadf
efi_status_to_errno icmp_error = eproto
efi_status_to_errno tftp_error = eproto
efi_status_to_errno http_error = eproto
efi_status_to_errno protocol_error = eproto
efi_status_to_errno crc_error = etimedout
efi_status_to_errno timeout = etimedout
efi_status_to_errno volume_full = enospc
efi_status_to_errno end_of_file = enostr
efi_status_to_errno end_of_media = enostr
efi_status_to_errno already_started = ealready
efi_status_to_errno aborted = eintr
efi_status_to_errno unsupported = enosys
efi_status_to_errno device_error = eio
efi_status_to_errno incompatible_version = enotsup
efi_status_to_errno _ = other_errno 255

-- The default is `(efi_status)-1`.
unfoldable pub efi_errno_to_status : Errno → EfiStatus
efi_errno_to_status ok = success
efi_errno_to_status eperm = access_denied
efi_errno_to_status eacces = access_denied
efi_errno_to_status enotdir = access_denied
efi_errno_to_status eisdir = access_denied
efi_errno_to_status econnrefused = access_denied
efi_errno_to_status ekeyrevoked = access_denied
efi_errno_to_status ekeyrejected = access_denied
efi_errno_to_status enoent = not_found
efi_errno_to_status esrch = not_found
efi_errno_to_status enxio = not_found
efi_errno_to_status echild = not_found
efi_errno_to_status eidrm = not_found
efi_errno_to_status enocsi = not_found
efi_errno_to_status enoano = not_found
efi_errno_to_status enopkg = not_found
efi_errno_to_status elibacc = not_found
efi_errno_to_status eio = device_error
efi_errno_to_status exdev = device_error
efi_errno_to_status enodev = device_error
efi_errno_to_status enotty = device_error
efi_errno_to_status emlink = device_error
efi_errno_to_status eownerdead = device_error
efi_errno_to_status enotrecoverable = device_error
efi_errno_to_status erfkill = device_error
efi_errno_to_status edeadlk = device_error
efi_errno_to_status enolck = device_error
efi_errno_to_status enotempty = device_error
efi_errno_to_status eloop = device_error
efi_errno_to_status el2nsync = device_error
efi_errno_to_status el3hlt = device_error
efi_errno_to_status el3rst = device_error
efi_errno_to_status eunatch = device_error
efi_errno_to_status el2hlt = device_error
efi_errno_to_status ebade = device_error
efi_errno_to_status enostr = device_error
efi_errno_to_status enolink = device_error
efi_errno_to_status esrmnt = device_error
efi_errno_to_status e2big = out_of_resources
efi_errno_to_status enomem = out_of_resources
efi_errno_to_status enfile = out_of_resources
efi_errno_to_status emfile = out_of_resources
efi_errno_to_status enametoolong = out_of_resources
efi_errno_to_status exfull = out_of_resources
efi_errno_to_status enosr = out_of_resources
efi_errno_to_status eoverflow = out_of_resources
efi_errno_to_status elibmax = out_of_resources
efi_errno_to_status eusers = out_of_resources
efi_errno_to_status emsgsize = out_of_resources
efi_errno_to_status enobufs = out_of_resources
efi_errno_to_status etoomanyrefs = out_of_resources
efi_errno_to_status ebadf = invalid_parameter
efi_errno_to_status efault = invalid_parameter
efi_errno_to_status enotblk = invalid_parameter
efi_errno_to_status einval = invalid_parameter
efi_errno_to_status edom = invalid_parameter
efi_errno_to_status erange = invalid_parameter
efi_errno_to_status echrng = invalid_parameter
efi_errno_to_status elnrng = invalid_parameter
efi_errno_to_status ebadr = invalid_parameter
efi_errno_to_status ebadrqc = invalid_parameter
efi_errno_to_status ebadslt = invalid_parameter
efi_errno_to_status ebadfd = invalid_parameter
efi_errno_to_status edestaddrreq = invalid_parameter
efi_errno_to_status enotnam = invalid_parameter
efi_errno_to_status enoexec = load_error
efi_errno_to_status efbig = load_error
efi_errno_to_status ebfont = load_error
efi_errno_to_status elibscn = load_error
efi_errno_to_status elibexec = load_error
efi_errno_to_status eilseq = load_error
efi_errno_to_status eagain = not_ready
efi_errno_to_status ebusy = not_ready
efi_errno_to_status etxtbsy = not_ready
efi_errno_to_status eaddrinuse = not_ready
efi_errno_to_status eaddrnotavail = not_ready
efi_errno_to_status einprogress = not_ready
efi_errno_to_status enokey = not_ready
efi_errno_to_status epipe = protocol_error
efi_errno_to_status enomsg = protocol_error
efi_errno_to_status eadv = protocol_error
efi_errno_to_status ecomm = protocol_error
efi_errno_to_status eproto = protocol_error
efi_errno_to_status emultihop = protocol_error
efi_errno_to_status edotdot = protocol_error
efi_errno_to_status ebadmsg = protocol_error
efi_errno_to_status enotuniq = protocol_error
efi_errno_to_status eremchg = protocol_error
efi_errno_to_status estrpipe = protocol_error
efi_errno_to_status eprototype = protocol_error
efi_errno_to_status eremoteio = protocol_error
efi_errno_to_status eexist = already_started
efi_errno_to_status eisconn = already_started
efi_errno_to_status ealready = already_started
efi_errno_to_status edquot = volume_full
efi_errno_to_status enospc = volume_full
efi_errno_to_status espipe = end_of_file
efi_errno_to_status enodata = end_of_file
efi_errno_to_status ehwpoison = compromised_data
efi_errno_to_status elibbad = compromised_data
efi_errno_to_status estale = compromised_data
efi_errno_to_status erofs = write_protected
efi_errno_to_status enotsup = unsupported
efi_errno_to_status enosys = unsupported
efi_errno_to_status enotsock = unsupported
efi_errno_to_status enoprotoopt = unsupported
efi_errno_to_status eprotonosupport = unsupported
efi_errno_to_status esocktnosupport = unsupported
efi_errno_to_status epfnosupport = unsupported
efi_errno_to_status eafnosupport = unsupported
efi_errno_to_status enavail = unsupported
efi_errno_to_status etime = timeout
efi_errno_to_status etimedout = timeout
efi_errno_to_status enonet = no_mapping
efi_errno_to_status eremote = no_mapping
efi_errno_to_status enetdown = no_media
efi_errno_to_status enetreset = no_media
efi_errno_to_status ehostdown = no_media
efi_errno_to_status emediumtype = no_media
efi_errno_to_status enetunreach = no_response
efi_errno_to_status ehostunreach = no_response
efi_errno_to_status ecanceled = aborted
efi_errno_to_status econnaborted = aborted
efi_errno_to_status econnreset = aborted
efi_errno_to_status enotconn = not_started
efi_errno_to_status eshutdown = not_started
efi_errno_to_status euclean = volume_corrupted
efi_errno_to_status eisnam = load_error
efi_errno_to_status enomedium = load_error
efi_errno_to_status ekeyexpired = load_error
efi_errno_to_status _ = raw (2 ^ 64 - 1)
