-- ===== src/Ebpf/Packet/Layout.antt =====
-- A packet that the classifiers of ebpf/src/main.rs handle: an IPv6 header, bare or behind an
-- Ethernet header, followed at once by a TCP or a UDP header.
use prototype_net.Base.{
  ℕ, ◌+◌, ◌%◌, ◌/◌, ◌≤◌, ◌<◌, ◌≡◌, ◌≢◌, ◌⊎◌, inl, inr, arith, List, length, get_or, slice, [], ◌∷◌,
  length-slice, get_or-slice, get_or_past, true, false, ◌==◌, ltb, ltb_ge,
}
use native.Mathlib.Decide.{dec_lt}
use prototype_net.Common.Types.{IsBytes}
use prototype_net.Word.{from_be_bytes}
use prototype_net.Ebpf.Kernel.{Kernel, IsKernel, ipv6_len, tcp_len, udp_len, ether_type_ipv6}
use prototype_net.Ebpf.Exec.{State, ok}
use prototype_net.Ebpf.Packet.{
  IpProto, tcp, udp, ipv6_icmp, other, to_proto, is_l4, has_prefix, ptr_at, extract_l4_ports,
  ipv6_offset, ether_type, ports_at,
}

-- The length of the L4 header that the programs ask for.
abbrev pub l4_len : IpProto → ℕ
l4_len tcp = tcp_len
l4_len udp = udp_len
l4_len ipv6_icmp = 0
l4_len (other n) = 0

pub record IsL4Packet (p : List ℕ) (ip_off : ℕ) (proto : IpProto) : Type 0 where
  pub framing :
      ((ip_off ≡ 0) × (get_or p 0 0 / 16 ≡ 6))
      ⊎ ((ip_off ≡ 14) × (get_or p 0 0 / 16 ≢ 6) × (from_be_bytes (slice p 12 2) ≡ ether_type_ipv6))
  pub next : to_proto (get_or p (ip_off + 6) 0) ≡ proto
  pub l4 : is_l4 proto ≡ true
  pub fits : ip_off + ipv6_len + l4_len proto ≤ length p
  pub bytes : (i : ℕ) → get_or p i 0 < 256

-- The two ports of the L4 header.
abbrev pub src_port_at : List ℕ → ℕ → ℕ
src_port_at p l4 = from_be_bytes (slice p l4 2)

abbrev pub dst_port_at : List ℕ → ℕ → ℕ
dst_port_at p l4 = from_be_bytes (slice p (l4 + 2) 2)

pub ptr_at_fits :
    (size offset : ℕ) (s : State)
    → offset + size ≤ length s.packet
    → ptr_at size offset s ≡ (ok offset, s)
unfolding ptr_at
ptr_at_fits size offset s h = rw (ltb_ge (length s.packet) (offset + size) h)

not_six : (n : ℕ) → n ≢ 6 → (n == 6) ≡ false
not_six n h = ground arith

ports_of :
    (proto : IpProto) (l4_base : ℕ) (s : State)
    → is_l4 proto ≡ true
    → l4_base + l4_len proto ≤ length s.packet
    → extract_l4_ports l4_base proto s
      ≡ (ok (src_port_at s.packet l4_base, dst_port_at s.packet l4_base), s)
unfolding extract_l4_ports is_l4 ports_at
ports_of tcp l4_base s l4 h = rw (
  ltb_ge (length s.packet) (l4_base + tcp_len) h,
  ltb_ge (length s.packet) (l4_base + 4) (omega (arith, h)),
)
ports_of udp l4_base s l4 h = rw (
  ltb_ge (length s.packet) (l4_base + udp_len) h,
  ltb_ge (length s.packet) (l4_base + 4) (omega (arith, h)),
)
ports_of ipv6_icmp l4_base s l4 h = absurd (cc)
ports_of (other n) l4_base s l4 h = absurd (cc)

pub ip_off-even :
    {p : List ℕ} {ip_off : ℕ} {proto : IpProto} → IsL4Packet p ip_off proto → ip_off % 2 ≡ 0
ip_off-even packet = elim packet.framing [
  | inl bare ↦ omega (arith, bare.0)
  | inr framed ↦ omega (arith, framed.0)
]

module _ (k : Kernel) (v : IsKernel k) (s : State) (ip_off : ℕ) (proto : IpProto)
    (packet : IsL4Packet s.packet ip_off proto) where
  pub ipv6_offset_lem : ipv6_offset k s ≡ (ok ip_off, s)
  unfolding ipv6_offset ether_type
  ipv6_offset_lem = elim packet.framing [
    | inl bare ↦ rw (v.load_in s.packet 0 (omega (arith, packet.fits)), bare.1, bare.0)
    | inr framed ↦ rw (
      v.load_in s.packet 0 (omega (arith, packet.fits)),
      not_six (get_or s.packet 0 0 / 16) framed.1,
      ltb_ge (length s.packet) 14 (omega (arith, packet.fits)),
      ltb_ge (length s.packet) 14 (omega (arith, packet.fits)),
      framed.2,
      framed.0,
    )
  ]

  -- The reads of the header stay inside the packet.
  pub next_hdr_read : ltb (length s.packet) (ip_off + 6 + 1) ≡ false
  next_hdr_read = ltb_ge (length s.packet) (ip_off + 6 + 1) (omega (arith, packet.fits))

  pub src_addr_read : ltb (length s.packet) (ip_off + 8 + 16) ≡ false
  src_addr_read = ltb_ge (length s.packet) (ip_off + 8 + 16) (omega (arith, packet.fits))

  pub dst_addr_read : ltb (length s.packet) (ip_off + 24 + 16) ≡ false
  dst_addr_read = ltb_ge (length s.packet) (ip_off + 24 + 16) (omega (arith, packet.fits))

  pub ports_lem :
      extract_l4_ports (ip_off + ipv6_len) proto s
      ≡ (ok (src_port_at s.packet (ip_off + ipv6_len), dst_port_at s.packet (ip_off + ipv6_len)), s)
  ports_lem = ports_of proto (ip_off + ipv6_len) s packet.l4 packet.fits

-- The bytes of an address in a packet.
pub slice-IsBytes :
    (p : List ℕ) (i n : ℕ) → ((j : ℕ) → get_or p j 0 < 256) → IsBytes n (slice p i n)
slice-IsBytes p i n small = record {
  sized = length-slice p i n;
  bytes = λ j. elim (dec_lt j n) [
    | yes inside ↦ rw (get_or-slice p i n j inside) (small (i + j))
    | no outside ↦
        rw (get_or_past (slice p i n) j 0 (omega (arith, length-slice p i n))) (omega arith)
  ];
}

-- A prefix that is compared byte by byte.
pub has_prefix→slice :
    (addr : List ℕ) (a b c d : ℕ)
    → has_prefix addr (a ∷ b ∷ c ∷ d ∷ []) ≡ true
    → slice addr 0 4 ≡ a ∷ b ∷ c ∷ d ∷ []
unfolding has_prefix
has_prefix→slice addr a b c d h = ground arith

pub slice→has_prefix :
    (addr : List ℕ) (a b c d : ℕ)
    → slice addr 0 4 ≡ a ∷ b ∷ c ∷ d ∷ []
    → has_prefix addr (a ∷ b ∷ c ∷ d ∷ []) ≡ true
unfolding has_prefix
slice→has_prefix addr a b c d h = ground arith
