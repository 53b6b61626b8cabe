-- ===== src/Api.antt =====
-- lib/api.c: what providers call.
pub mod Broadcast
pub mod Register
pub mod Unregister
