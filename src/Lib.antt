-- ===== src/Lib.antt =====
-- swbt-daemon: a daemon that presents itself to a game console as a wireless controller. Clients
-- take the controller's lease and submit its state; the daemon sends the state in periodic input
-- reports, and answers the console's subcommands from an emulated flash memory, a device identity
-- and its player lights.
--
-- The parts, and the files of the repository that they model:
--   Common    Helpers: Boolean tests and casts, lists, signed integers, byte arrays, bit fields.
--   Switch    The protocol, swbt/switch/. State is switch_controller_state; Report the input report
--             0x30 (switch_report); Subcommand the parser of output reports (switch_subcommand);
--             Reply the reply report 0x21 (switch_subcommand_reply); Spi and SpiSeed the flash
--             (switch_spi, switch_spi_seed); PlayerLights, Rumble and DeviceInfo the files of those
--             names; Dispatcher the answers to subcommands (switch_subcommand_dispatcher).
--   Support   Metrics, the counters of swbt/support/metrics.
--   Domain    swbt/domain/: Lease and Status are lease and status.h, App and Records the operations of
--             domain.c. Calls has those operations as data, so that a sequence of calls of any clients
--             is a list.
--   Control   swbt/control/control: the layer through which clients and the local program reach the
--             domain. Direct has its operations as data.
--   Bridge    swbt/btstack_bridge/: ReplyQueue is subcommand_reply_queue, the ring of replies that
--             wait for the Bluetooth stack, Scheduler is input_report_scheduler, the periodic report,
--             Timer is input_report_timer_adapter, the loop that joins the two, with Timer/Send for
--             what it sends and Timer/Handlers for its events. HidEvent is hid_event, the decoder of
--             the stack's events; OutputHandler is output_report_handler with
--             output_report_callbacks; AdapterLocation is usb_adapter_location; Device is device,
--             the life cycle of the port, with Device/Protocol for the order of the port's calls.
--   Ipc       swbt/ipc/: the lines of JSON in Scan, Keys and Fields (the readers), Decode (commands)
--             and Encode (responses), all of ipc_json; Adapter is ipc_adapter, which runs a command on
--             the control layer, and Adapter/Sessions has its events as data; Server is ipc_server,
--             with Server/Serve for a round of one connection.
--   Runtime   swbt/runtime/host: the life cycle of the device and its backend.
--   Daemon    swbt/daemon/: SwitchAddress is switch_address, the text of a Bluetooth address; Config
--             is config, the configuration and the environment, with Config/Bounds for its types and
--             Config/Outcome for when it is refused; Options and Launch are
--             launch_options, the arguments and what the daemon is launched with; IpcRunner is
--             ipc_runner, which drives the server of Ipc with one connection at a time, with
--             IpcRunner/Clients for what one client's events do, IpcRunner/Rounds for a round of its
--             connection and IpcRunner/Polls for its polls and its end.
--
-- How code becomes definitions. A struct is a record with the source's fields, an enumeration a
-- data type; `other` stands for any further number that its C type can hold, where the code tests
-- for it. A function swbt_x_y is y in the module of x. A pointer that may be NULL is an option,
-- `none` for NULL; an operation returns its result with what its pointers lead to afterwards.
-- Structs that a caller always owns (lease, metrics, flash, lights, rumble, queue) are values that
-- are passed on. A callback is a function of its arguments, its context being part of it. An array
-- that is written in place is a function from the index to the byte, so writes past its end would
-- show. Unsigned arithmetic keeps its width (% 2 ^ 8, 32, 64); int16_t is a signed integer. Loops
-- with a counter are recursion on the number of their rounds, so they need no fuel. A C string is
-- the list of its characters before the NUL and a pointer into it the rest of that list; loops over
-- it are recursion on the list, but for the lookup of a key, which jumps over the key it reads: its
-- fuel is the length of the text, of which each round takes a character or more. The loop that
-- sends a response has the number of its bytes as fuel, since each round sends one or more. strtoll
-- and strtoul are those of the C locale, strtoll of 64 bits. The strtoul of the configuration takes
-- the number of bits of unsigned long, 64 or, on Windows, 32; that of a client's identifier has 64,
-- and both widths read the eight hexadecimal digits that the daemon prints alike, but a negative
-- number, which is refused with 64 bits, is read modulo 2 ^ 32 where there are 32. The scheduler of
-- the reports keeps a record of the calls of its callback, which the code has not. The domain's
-- operations hold a spin lock from their first read to their last write; each is one step here, so
-- a list of calls is an interleaving of the threads.
--
-- Not modelled: malloc but for whether it gives memory, free, the spin lock itself, the reader of the
-- configuration file, which is written in C++ on a library that is not in the tree, and the parts of
-- the daemon that join the others: the process, its shutdown and its command line, the tables of
-- functions between process and bridge, the C API, and the calls of sockets and of BTstack, whose
-- code is not part of the repository's own. What sockets, the ports of the bridge and the backend of
-- the runtime host answer are arguments of the operations that call them, as is the clock of the
-- report loop; the codes of BTstack's events are arguments of the decoder.
pub mod Common
pub mod Switch
pub mod Support
pub mod Domain
pub mod Control
pub mod Bridge
pub mod Ipc
pub mod Runtime
pub mod Daemon
