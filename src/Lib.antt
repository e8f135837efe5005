-- ===== src/Lib.antt =====
-- The core of TCS, a system of isolated servers on a microkernel: the state machines that decide who
-- may do what, the servers that run them and the messages between these, the formats in which
-- commands and boot data come, and the queues and the line editor between the serial device and a
-- command.
--
-- The parts and the files that model them:
--   Policy      lib/policy.c, include/tcs/policy.h, and the decision and commit of servers/policy.c.
--               `apply` is tcs_policy_apply, `commit` is tcs_policy_commit, `serve` runs both the way
--               the server does, on a copy of the policy and with the answer of the audit server.
--   Lifecycle   lib/lifecycle.c, include/tcs/lifecycle.h: two worker slots that are used once.
--               `apply` is tcs_lc_apply, with one function per case of its switch.
--   Reduction   lib/reduction.c, include/tcs/reduction.h: the latch of containment requests. It owns a
--               lifecycle and runs each call of tcs_lc_apply behind a poll of the requests.
--   Deadline    lib/deadline.c, include/tcs/deadline.h: lifetimes that are not renewed. It owns a latch
--               and turns an end that has come, or a clock that failed, into requests.
--   Serial      lib/serial.c, include/tcs/serial.h: the receive queue of the serial driver, and
--               Serial/Server, the driver itself, servers/serial.c.
--   Terminal    lib/terminal.c, include/tcs/terminal.h: line editing, its echo, and the parser of
--               read-only commands. servers/terminal.c: `decimal`, in Terminal/Output the output
--               buffer, `append` and `flush`, in Terminal/Phrases what is printed, and in
--               Terminal/Server the commands, the signed packet mode and `service`, over any driver,
--               client and administrator. Whether TCS_SIGNED_INPUT is defined is a field of `Build`.
--               Terminal/Server/Uptime runs it over servers/serial.c, and Terminal/Server/Reach over the
--               servers of Servers, the way system/terminal.system does.
--   Admin       lib/admin.c, include/tcs/admin.h: which signed packets are admitted, and when the next
--               one may come. Admin/Receipt: lib/admin_policy.c, lib/admin_receipt.c and the execution
--               of a decoded command by servers/admin_policy.c, which works on the policy of Policy and
--               whose receipt the administrator tests before it completes the command.
--               `encode` is tcs_admin_encode. Admin/Ipc, Admin/Server: include/tcs/admin_ipc.h and the
--               handler of include/tcs/admin_server.h. Admin/PolicyServer: the handler of
--               servers/admin_policy.c.
--   SignedInput lib/signed_input.c: a packet that is typed as hex digits.
--   Ipc         include/tcs/ipc.h: the labels, the requests and the replies.
--   Servers     servers/audit.c, servers/policy.c, servers/storage.c and servers/client.c: one module per
--               handler, `protected`. Servers/System puts them together the way system/tcs.system does:
--               the client calls storage, storage calls the policy server, which calls the audit server.
--               Servers/Console: servers/console.c, which runs the test image, over its three channels.
--   Launch      lib/launch.c: the public identity and the launch context of an instance, as bytes.
--   Boot        lib/boot.c: the reader of the fw_cfg device, and the decoder of the boot context.
--   Startup     servers/launch_boot.c, servers/launch_admin.c and servers/admin.c: how the boot data reach
--               the administrator.
--   Operator    tools/operator.c: the tool on a trusted host, over the calls of its operating system and of
--               monocypher (Operator/Host). Operator/Files holds `directory`, `read_file` and `write_new`,
--               Operator/Identity and Operator/Requests what is read, prepared and signed, Operator/Guest
--               `launch_guest`, Operator/Main `main`. A run that gives up, by `return false` or by
--               `goto done`, is one that gives none; TCS_FIXTURE_MODE and TCS_OPERATOR_MODE are a
--               parameter.
--   Prelude     Boolean tests, 64-bit words, C arrays as lists, and the bits of a mask.
--
-- How C is written here: a `uint64_t` is a natural number, and an addition on one keeps its wrap
-- (`% 2 ^ 64`), but for the count of the audit log, which is tested to be below 64 before it is
-- raised; where a result rests on a value that fits its word, that is a hypothesis (`IsWords`,
-- `InWords`, `InRange`). A field that C code may hold with any value, such as a phase or an operation,
-- is a number, compared the way the code compares it; an actor or a state that only the code itself
-- writes is a data type. An array that an invariant must bound is a list, and a write past its end
-- changes nothing; a table of slots or subjects is a function of the index. A function that changes a
-- struct through a pointer returns the new struct; pointers are not null, but for the text that the
-- parser takes.
--
-- Bounds and fuel: loops over slots run down from `slot_count`, the constant of the source. The loop
-- that stores the digits of a number has the 21 digits of its array for fuel, and 20 are enough below
-- 2 ^ 64. `service` of servers/terminal.c makes the 32 rounds of the source. The loops of Operator/Files
-- have a pass for each byte, one for the end of a file, and one more for each interruption that is still
-- to come (`signals` of Operator/Host), since every other pass moves a byte or ends the loop. A history is a list
-- of requests, events or calls of any length.
--
-- A message is its label and its words; a handler takes its state, the channel and the message, and
-- returns the new state and the reply. A server that a handler calls is a function from its state and
-- a message to its new state and its reply: a parameter of the handler, which Servers/System and
-- Admin/Completion fill with the handlers of the other servers. So are the fw_cfg device of Boot, with
-- its two operations, which may fail at any time, and the registers of Serial/Server.
--
-- Not modelled: the two device operations of servers/launch_boot.c; the debug output; the wiping of
-- memory and the ACL test of macOS in tools/operator.c; and third_party/monocypher, which is another
-- library: its calls are parameters of Admin and Operator.
pub mod Prelude
pub mod Operator
pub mod Policy
pub mod Lifecycle
pub mod Reduction
pub mod Deadline
pub mod Serial
pub mod Terminal
pub mod Admin
pub mod SignedInput
pub mod Ipc
pub mod Servers
pub mod Launch
pub mod Boot
pub mod Startup
