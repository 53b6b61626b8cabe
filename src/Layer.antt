-- ===== src/Layer.antt =====
-- lib/kernel/libkernel.c and lib/userspace/libuserspace-layer.c: what the two layers do beside the
-- code that they share.
pub mod Queue
pub mod Dispatch
