-- ===== src/Operator.antt =====
-- tools/operator.c: the tool on a trusted host that makes identities, prepares single launches and signs
-- administration requests, over the calls of the host's operating system and of monocypher.
pub mod Text
pub mod Host
pub mod Files
pub mod Identity
pub mod Requests
pub mod Guest
pub mod Main
pub mod Keeping
pub mod Consumed
pub mod Steps
pub mod Writing
pub mod Signing
pub mod Loops
pub mod Numbers
mod Examples
mod SigningExamples
