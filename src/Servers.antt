-- ===== src/Servers.antt =====
-- The servers of servers/, each as a function of its state and of an incoming message. A protected
-- call of another server is a call of its function; notifications and debug output are left out.
pub mod Audit
pub mod PolicyServer
pub mod Storage
pub mod Client
pub mod System
pub mod Console
mod Examples
