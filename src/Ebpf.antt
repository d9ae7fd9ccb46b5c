-- ===== src/Ebpf.antt =====
-- The packet programs of ebpf/src/main.rs.
pub mod Exec
pub mod Kernel
pub mod Packet
pub mod Ingress
pub mod IngressWan
pub mod Xdp
pub mod Flow
pub mod Defined
