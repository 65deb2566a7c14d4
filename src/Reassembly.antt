-- ===== src/Reassembly.antt =====
-- kernel/src/net/ipv4_frag.c: putting the fragments of IPv4 packets together.
pub mod Slots
pub mod Gap
mod Tests
