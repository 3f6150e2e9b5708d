-- ===== src/Lib.antt =====
-- A verification library for efi-wrapper, which runs UEFI programs as processes of an operating
-- system: it gives them the tables of boot and runtime services of a firmware.
--
-- The parts and how they interact. A context (efi_run_context) holds handles with their protocol
-- interfaces, events with a queue of notifications, variables, configuration tables, and the
-- instances of the wrapper's own services. A UEFI program calls the services through function
-- pointers; installing a protocol signals the events of its registrations, and a signaled event
-- calls back into the program.
--
--   Prelude        shared names, tests on numbers, lists and integers over native numbers
--   Status         include/efi/efi_status.h, lib/efi/string.c: codes, errno, texts
--   Ustr           lib/efi/char16.c, include/efi/efi_string.h: strings of 16-bit units; Class has
--                  the tests on units, Compare, Search, Copy and Escape the functions
--   Service        efi-wrapper/efi/service.c: Lookup has the tests and searches, Run the state
--                  machine of an instance and the rounds of efi_service_auto_start and
--                  efi_service_auto_stop, Install efi_service_install_all
--   Variable       efi-wrapper/efi/tables/variable.c; Store has the list efi_current_ctx->vars
--   DevicePath     lib/efi/device_path.c: Walk has the validation and the sizes, Build what makes a
--                  path; Encoding and the others are about nodes in bytes
--   Configuration  efi-wrapper/efi/tables/configuration.c
--   Event          efi-wrapper/efi/tables/event.c: Queue has the queue, Services creation, signals
--                  and timers, Wait the rest; Order, Masking, Create and Waiting are about them
--   Protocol       efi-wrapper/efi/handles.c, efi-wrapper/efi/tables/protocol.c and handles.c:
--                  Locate has the searches for handles, Install new handles and interfaces,
--                  Open and Uninstall the openings of a protocol and its removal; Disconnect and
--                  Connect are efi-wrapper/efi/tables/controller.c; OpenLaws, OneHolder and
--                  DriverLaws are about them
--   Linked         include/list.h, lib/general/list.c: nodes at addresses of a heap; Walk, Link,
--                  Object, Free and Sort have the functions, Shape the sequence that a list stands
--                  for, the other modules say what the functions do to it
--   Memory         include/mem.h, lib/mem.c: a pool with the descriptors of its blocks; Aligned and Resize
--                  have more of its functions; Sums, Accounts, Sound and Freeing are about its
--                  checksums and accounts, RoundTrip and Moving about
--                  allocating, freeing and resizing; Services and ServiceLaws are
--                  efi-wrapper/efi/tables/memory.c
--   Pathname       lib/general/path.c on the bytes of strings; Resolving and Resolved are about
--                  path_resolve, Merging about path_merge, Naming about the other two
--   Examples       the properties at concrete inputs
--
-- Correspondence. A function has the name of the C function; a service with `_impl` takes a Bool
-- that says whether there is a current context, and returns the status with what it writes through
-- its pointers and the new state. Guids are their 128-bit numbers, objects that are compared by
-- address carry it as a number, a null pointer is `none` or 0. The outcome of an allocation is an
-- argument of the function or of its section, one for each turn where a loop allocates, and so are
-- the callbacks of services, the notification functions of events, the clock and the sleep. The
-- callbacks of a service change the world but not the list of instances. Log calls are left out. The functions of a driver
-- binding are given the whole context and may change it; the depth of the calls between opening,
-- disconnecting and connecting is the fuel. A pool takes the checksum s_crc32 and the functions of
-- its allocator as parameters; its descriptors stand in the list `blocks` in the order of their
-- links, and a step through the pointer of the pool is possible where a descriptor stands there.
-- The services look for pools by their addresses, those of the context and any others.
--
-- Fuel. The rounds of the services take fuel for the rounds; one more than there are instances is
-- meant, where each service is started at most once. The walks along a device path take fuel for
-- the nodes, and the functions give them one more than there are bytes. The loops that call
-- notification functions take fuel for the nodes, since such a function may add more; `none` says
-- that the fuel ran out, or that a node was freed while the loop stood on it. The walks along a
-- linked list take fuel for its nodes, a sort also for its passes.
--
-- Not modelled: the map of memory (efi-wrapper/efi/tables/memory.c), the checksum itself, text
-- output of guids, the loader of images, the drivers of screens, consoles and files, and the
-- services that only answer that they are unsupported. The lists of the services other than those
-- of Linked are lists of values; that list_obj_add_new_dup gives its copy to `free` where it gets
-- no list item is left out. A read behind the block of a device path is taken to give 0.
pub mod Prelude
pub mod Status
pub mod Ustr
pub mod Service
pub mod Variable
pub mod DevicePath
pub mod Configuration
pub mod Event
pub mod Protocol
pub mod Linked
pub mod Memory
pub mod Pathname
pub mod Examples
