-- ===== src/Ebpf/Kernel.antt =====
-- What ebpf/src/main.rs takes from the kernel and from the crates `aya_ebpf` and `network_types`.
use prototype_net.Base.{ℕ, ◌+◌, ◌%◌, ◌≤◌, ◌<◌, ◌≡◌, ◌⊎◌, Option, some, List, get_or, set, length}
use prototype_net.Common.Types.{ReplyTrackKey, ReplyTrackValue}

-- The contents of the map REPLY_TRACK.
abbrev pub ReplyTrack : Type 0
ReplyTrack = ReplyTrackKey → Option ReplyTrackValue

-- The helpers that the programs call. A packet is the list of its bytes from `data` to `data_end`.
pub record Kernel : Type 0 where
  -- `ctx.load::<u8>(offset)`
  pub load : List ℕ → ℕ → Option ℕ
  -- `ctx.store(offset, &byte, 0)`
  pub store : List ℕ → ℕ → ℕ → Option (List ℕ)
  -- `bpf_csum_diff(old, 16, new, 16, 0)`, cast to u64
  pub csum_diff : List ℕ → List ℕ → ℕ
  -- `ctx.l4_csum_replace(offset, from, to, flags)`
  pub l4_csum_replace : List ℕ → ℕ → ℕ → ℕ → ℕ → Option (List ℕ)
  -- `bpf_redirect(ifindex, 0)`
  pub redirect : ℕ → ℕ
  -- `REPLY_TRACK.insert(&key, &value, 0)`, whose result the program drops
  pub track_insert : ReplyTrack → ReplyTrackKey → ReplyTrackValue → ReplyTrack

-- The bytes of `q` are those of `p`, but perhaps the two at `offset`.
pub record OnlyChecksum (p q : List ℕ) (offset : ℕ) : Type 0 where
  pub same_length : length q ≡ length p
  pub elsewhere : (i : ℕ) → (i < offset) ⊎ (offset + 2 ≤ i) → get_or q i 0 ≡ get_or p i 0

-- The documented behaviour of the helpers inside the packet.
pub record IsKernel (k : Kernel) : Type 0 where
  pub load_in : (p : List ℕ) (i : ℕ) → i < length p → k.load p i ≡ some (get_or p i 0)
  pub store_in : (p : List ℕ) (i b : ℕ) → i < length p → k.store p i b ≡ some (set p i b)
  -- At an even offset the helper writes the two bytes of the checksum and nothing else.
  pub csum_in :
      (p : List ℕ) (offset from to flags : ℕ)
      → offset + 2 ≤ length p
      → offset % 2 ≡ 0
      → (q : List ℕ) × (k.l4_csum_replace p offset from to flags ≡ some q) × OnlyChecksum p q offset

-- Sizes and numbers of the protocols, as `network_types` has them: `EthHdr::LEN`, `Ipv6Hdr::LEN`,
-- the sizes of the TCP and UDP headers, and the EtherType of IPv6.
abbrev pub eth_len : ℕ
eth_len = 14

abbrev pub ipv6_len : ℕ
ipv6_len = 40

abbrev pub tcp_len : ℕ
tcp_len = 20

abbrev pub udp_len : ℕ
udp_len = 8

abbrev pub ether_type_ipv6 : ℕ
ether_type_ipv6 = 0x86dd
