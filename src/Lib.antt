-- ===== src/Lib.antt =====
-- prototype_net is a VPN gateway that shows clients synthetic IPv6 addresses in place of the real
-- addresses of domains. Three parts act together.
--
-- The DNS server (dns-server/src) answers an AAAA query for a domain with a synthetic address that
-- contains the domain's number; the numbers and the real addresses stand in the table `domains` of
-- Postgres (migrations/). The daemon (daemon/src) copies this table into the kernel's NAT_MAP, at the
-- start and on each notification of the database, and writes the keys. The packet programs
-- (ebpf/src/main.rs) translate: `tc_ingress` replaces the synthetic destination by the origin, and the
-- source by a proxy-source address in which client, domain and flow are encoded under the key;
-- `tc_ingress_wan` decodes that address when the origin replies, and redirects the reply to the tunnel;
-- `xdp_wan` drops other IPv6 traffic at the WAN interface. The crate `common` (common/src) has the
-- formats that all of them share.
--
-- The files:
--   Base, Base/*         lists, Boolean tests and names of the libraries
--   Word, Word/*         machine words on native numbers: u8 to u64, shifts, rotations, bytes, xor
--   Common/Contract      contract.toml and common/build.rs: the constants
--   Common/Types         common/src/lib.rs: ProxySrcCtx, ProxySrcKey with is_zero, map values
--   Common/Address       common/src/lib.rs: domain_id_from_ipv6, synthetic_ipv6, client_vip_from_id24
--   Common/HashCtx       common/src/crypto.rs: hash_ctx; common/src/lib.rs: mix64
--   Common/ProxySrc      common/src/lib.rs: encode_proxy_src, decode_proxy_src
--   Common/Crypto/*      common/src/crypto.rs: PRINCE and its inverse, and SipHash
--   Ebpf/Kernel          what the programs take from the kernel and the crates of its interface
--   Ebpf/Exec            runs of a program on a packet and the maps
--   Ebpf/Packet          the reading and writing helpers of ebpf/src/main.rs
--   Ebpf/Ingress         tc_ingress
--   Ebpf/IngressWan      tc_ingress_wan
--   Ebpf/Xdp             xdp_wan
--   Ebpf/Flow            both classifiers together
--   Ebpf/Defined         all packet programs and undefined behaviour; also Ebpf/Xdp/Defined
--   Control/Run, Text    fallible code on a state; textual forms of addresses
--   Control/Number       numbers in decimal, as the programs read their settings and print them
--   Control/Database     the table and the statements of dns-server/src/db.rs and daemon/src
--   Control/Dns          dns-server/src: handler.rs, resolver.rs, and the replies of main.rs
--   Control/Dns/Serve    dns-server/src/main.rs: the receive loop, with permits, tasks and timeouts
--   Control/Daemon/Key   daemon/src/main.rs: keys in hexadecimal, and the fingerprint
--   Control/Daemon/Load  daemon/src/loader.rs: what is written to the maps
--   Control/Daemon/Startup  daemon/src/loader.rs: the wait for the interface, load_and_attach; and in
--                        Startup/Main `main` of daemon/src/main.rs up to its tasks
--   Control/Daemon/NatMap   daemon/src/maps.rs, resolver.rs, and notifications of db.rs
--   Control/Daemon/Listener, Backoff   daemon/src/db.rs: the listener's connection, and its delays
--   Control/Xtask        xtask/src/main.rs: verify-contract, build-ebpf, decode-proxy-src
--   Tests/*              published vectors, and each theorem applied to concrete data
--
-- How the code is modelled. A packet is the list of its bytes; a run of a program takes a state of
-- packet and maps to an outcome and a state, so that what was written before an error stays
-- written. The outcome `undefined` is undefined behaviour: `unreachable_unchecked` reached, or a
-- read or a write through a pointer that leaves the packet. A next-header byte that is no value of
-- the enum of the crate network_types is taken for another protocol, though Rust gives its read no
-- meaning. Kernel helpers are the record Kernel, with their documented behaviour in IsKernel: loads
-- and stores inside the packet work, and a checksum update at an even offset changes two bytes. The
-- feature dev-mode is a Boolean parameter. Words of w bits are native numbers with the wrap-around
-- written out. In the services a run takes a state to an optional result and a state. A Postgres
-- INTEGER and an i32 are their bit patterns. The textual forms of addresses in Postgres and in Rust
-- are the record Texts, where IsTexts says that what one side prints the other reads; the DNS codec
-- and the upstream resolver are the record Hickory; the hash map of the kernel, as the daemon sees
-- it, is BpfHash, where HasRoom says that an insertion succeeds. The crate aya, with the files and
-- addresses of the system that the loader reads, is the record Aya: each of its calls may fail;
-- IsHealthy says that none does. A notification is one step: the row is read and its entry inserted
-- with nothing in between, though the code waits for the database between the two. Cargo, the file
-- system and the crate toml are the record Host. The receive loop of the DNS server is a relation:
-- a datagram arrives, or a task ends, in any order; a task ends with what its handler returns on
-- some state of the database, or by its timeout. Loops are structural recursion on lists or on a
-- count, so no fuel can run out: is_zero has 16 rounds, a key 32 bytes, a substitution 16 nibbles;
-- the digits of n are printed with n + 1 steps allowed, more than it has digits. The wait for the
-- interface goes over the rounds that have been, and says `waiting` when they are used up.
--
-- Not modelled: log lines, and the logger that the packet programs share; the sockets, and the start of
-- the DNS server; failures of a single statement of the database, apart from the loss of the listener's
-- connection; the shutdown of the daemon; the command line of xtask; the macOS agent, and the files for deployment.
pub mod Base
pub mod Word
pub mod Common
pub mod Ebpf
pub mod Control
pub mod Tests
