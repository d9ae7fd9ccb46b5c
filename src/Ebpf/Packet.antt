-- ===== src/Ebpf/Packet.antt =====
-- The helpers of ebpf/src/main.rs that read a packet.
pub mod Writes
pub mod Layout
use prototype_net.Base.{
  ℕ, ◌+◌, ◌*◌, ◌/◌, ◌%◌, ◌^◌, ltb, ◌==◌, not, ◌&&◌, Bool, true, false, if◌then◌else◌, List, [], ◌∷◌,
  slice, get_or, set, length, Option, none, some,
}
use prototype_net.Word.{from_be_bytes}
use prototype_net.Ebpf.Kernel.{Kernel, eth_len, ipv6_len, tcp_len, udp_len, ether_type_ipv6}
use prototype_net.Ebpf.Exec.{
  State, Exec, pure, fail, unreachable, gets, try_get, try_put, ◌>>=◌, ◌>>◌,
}

-- The protocols that the programs tell apart.
pub data IpProto : Type 0 where
  tcp udp ipv6_icmp : IpProto
  other : ℕ → IpProto

unfoldable pub to_proto : ℕ → IpProto
to_proto n = if n == 6 then tcp else if n == 17 then udp else if n == 58 then ipv6_icmp else other n

-- `IpProto::Tcp | IpProto::Udp`
unfoldable pub is_l4 : IpProto → Bool
is_l4 tcp = true
is_l4 udp = true
is_l4 ipv6_icmp = false
is_l4 (other n) = false

-- `ptr_at::<T>(ctx, offset)` for a `T` of `size` bytes. The pointer is its offset in the packet.
unfoldable pub ptr_at : ℕ → ℕ → Exec ℕ
ptr_at size offset s = if ltb (length s.packet) (offset + size) then fail s else pure offset s

-- `ptr_at_xdp` has the same text for the other kind of context.
unfoldable pub ptr_at_xdp : ℕ → ℕ → Exec ℕ
ptr_at_xdp size offset s = if ltb (length s.packet) (offset + size) then fail s else pure offset s

-- A read of `size` bytes through a pointer: undefined behaviour outside the packet.
abbrev pub deref {ℓ} : {A : Type ℓ} → ℕ → ℕ → (List ℕ → A) → Exec A
deref size ptr read s =
    if ltb (length s.packet) (ptr + size) then unreachable s else pure (read s.packet) s

-- The fields of the headers, read through a pointer.
unfoldable pub ether_type : ℕ → Exec ℕ
unfolding from_be_bytes
ether_type ethhdr = deref 2 (ethhdr + 12) (λ packet. from_be_bytes (slice packet (ethhdr + 12) 2))

-- A byte that stands for no protocol of the enum is `other`.
unfoldable pub next_hdr : ℕ → Exec IpProto
unfolding to_proto
next_hdr ipv6hdr = deref 1 (ipv6hdr + 6) (λ packet. to_proto (get_or packet (ipv6hdr + 6) 0))

unfoldable pub src_addr : ℕ → Exec (List ℕ)
src_addr ipv6hdr = deref 16 (ipv6hdr + 8) (λ packet. slice packet (ipv6hdr + 8) 16)

unfoldable pub dst_addr : ℕ → Exec (List ℕ)
dst_addr ipv6hdr = deref 16 (ipv6hdr + 24) (λ packet. slice packet (ipv6hdr + 24) 16)

-- The two ports at the start of a TCP or UDP header.
unfoldable pub ports_at : ℕ → Exec (ℕ × ℕ)
unfolding from_be_bytes
ports_at l4 =
    deref 4 l4
      (λ packet. (from_be_bytes (slice packet l4 2), from_be_bytes (slice packet (l4 + 2) 2)))

unfoldable pub extract_l4_ports : ℕ → IpProto → Exec (ℕ × ℕ)
unfolding ptr_at ports_at
extract_l4_ports l4_base tcp = do l4 ← ptr_at tcp_len l4_base; ports_at l4
extract_l4_ports l4_base udp = do l4 ← ptr_at udp_len l4_base; ports_at l4
extract_l4_ports l4_base ipv6_icmp = unreachable
extract_l4_ports l4_base (other n) = unreachable

unfoldable pub extract_l4_ports_xdp : ℕ → IpProto → Exec (ℕ × ℕ)
unfolding ptr_at_xdp ports_at
extract_l4_ports_xdp l4_base tcp = do l4 ← ptr_at_xdp tcp_len l4_base; ports_at l4
extract_l4_ports_xdp l4_base udp = do l4 ← ptr_at_xdp udp_len l4_base; ports_at l4
extract_l4_ports_xdp l4_base ipv6_icmp = fail
extract_l4_ports_xdp l4_base (other n) = fail

-- `addr[0..4]` against a prefix, byte by byte.
unfoldable pub has_prefix : List ℕ → List ℕ → Bool
has_prefix addr prefix =
    get_or addr 0 0 == get_or prefix 0 0
    && (get_or addr 1 0 == get_or prefix 1 0
        && (get_or addr 2 0 == get_or prefix 2 0 && get_or addr 3 0 == get_or prefix 3 0))

-- The number of the protocol in the flow context: `Tcp => 6, _ => 17`.
unfoldable pub proto_num : IpProto → ℕ
proto_num tcp = 6
proto_num udp = 17
proto_num ipv6_icmp = 17
proto_num (other n) = 17

-- The offset of the L4 checksum: `Tcp => l4_base + 16, _ => l4_base + 6`.
unfoldable pub csum_at : ℕ → IpProto → ℕ
csum_at l4_base tcp = l4_base + 16
csum_at l4_base udp = l4_base + 6
csum_at l4_base ipv6_icmp = l4_base + 6
csum_at l4_base (other n) = l4_base + 6

-- `u16::to_be` on the little-endian target of the programs.
unfoldable pub to_be16 : ℕ → ℕ
to_be16 p = p % 256 * 256 + p / 256

-- Bytes written one after the other from `offset` on.
unfoldable pub write_bytes : List ℕ → ℕ → List ℕ → List ℕ
write_bytes packet offset [] = packet
write_bytes packet offset (b ∷ bs) = write_bytes (set packet offset b) (offset + 1) bs

module _ (k : Kernel) where
  -- The start of the IPv6 header, with or without an Ethernet header before it.
  unfoldable pub ipv6_offset : Exec ℕ
  unfolding ptr_at ether_type
  ipv6_offset = do
    packet ← gets (λ s. s.packet)
    first_byte ← try_get (k.load packet 0)
    if first_byte / 2 ^ 4 == 6 then pure 0 else do
      ethhdr ← ptr_at eth_len 0
      kind ← ether_type ethhdr
      if not (kind == ether_type_ipv6) then fail else pure eth_len

  -- A loop of one-byte stores from `offset` on.
  unfoldable pub store_all : ℕ → List ℕ → Exec (Unit {0})
  store_all offset [] = pure tt
  store_all offset (b ∷ bs) = do
    packet ← gets (λ s. s.packet)
    try_put (k.store packet offset b)
    store_all (offset + 1) bs

  -- BPF_F_PSEUDO_HDR is 16.
  unfoldable pub update_addr_csum : ℕ → List ℕ → List ℕ → Exec (Unit {0})
  update_addr_csum csum_offset old_addr new_addr = do
    packet ← gets (λ s. s.packet)
    let diff = k.csum_diff old_addr new_addr
    try_put (k.l4_csum_replace packet csum_offset 0 diff 16)
