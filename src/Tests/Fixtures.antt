-- ===== src/Tests/Fixtures.antt =====
-- Concrete kernels, packets and maps for the tests of ebpf/src/main.rs.
use prototype_net.Base.{
  ℕ, zero, suc, arith, ◌+◌, ◌<◌, ◌≡◌, refl, ◌∙◌, ◌&&◌, ltb, lt→ltb, ltb_ge, ltb→lt, inl, Bool, true,
  if◌then◌else◌, List, [], ◌∷◌, ◌++◌, length, get_or, set, length-set, get_or-set_ne, none, some,
}
use prototype_net.Common.Types.{ProxySrcKey, NatEntry}
use prototype_net.Ebpf.Kernel.{Kernel, IsKernel}
use prototype_net.Ebpf.Exec.{State, Maps}
use prototype_net.Ebpf.Packet.{tcp, to_proto, is_l4}
use prototype_net.Ebpf.Packet.Layout.{IsL4Packet}

-- A kernel that writes 0 into checksums.
abbrev pub test_kernel : Kernel
test_kernel = record {
  load = λ p i. if ltb i (length p) then some (get_or p i 0) else none;
  store = λ p i b. if ltb i (length p) then some (set p i b) else none;
  csum_diff = λ old new. 0;
  l4_csum_replace = λ p offset from to flags.
      if ltb (length p) (offset + 2) then none else some (set (set p offset 0) (offset + 1) 0);
  redirect = λ idx. idx;
  track_insert = λ m k v. m;
}

pub test_kernel-IsKernel : IsKernel test_kernel
test_kernel-IsKernel = record {
  load_in = λ p i h. rw (lt→ltb i (length p) h) refl;
  store_in = λ p i b h. rw (lt→ltb i (length p) h) refl;
  csum_in = λ p offset from to flags h even. (
    set (set p offset 0) (offset + 1) 0,
    rw (ltb_ge (length p) (offset + 2) h) refl,
    record {
      same_length = length-set (set p offset 0) (offset + 1) 0 ∙ length-set p offset 0;
      elsewhere = λ i e.
          get_or-set_ne (set p offset 0) (offset + 1) i 0 0 (λ q. ground arith)
          ∙ get_or-set_ne p offset i 0 0 (λ q. ground arith);
    },
  );
}

abbrev pub all_bytes : List ℕ → Bool
all_bytes [] = true
all_bytes (b ∷ bs) = ltb b 256 && all_bytes bs

pub all_bytes→bound : (bs : List ℕ) → all_bytes bs ≡ true → (i : ℕ) → get_or bs i 0 < 256
all_bytes→bound [] h i = omega arith
all_bytes→bound (b ∷ bs) h zero = ltb→lt b 256 (ground arith)
all_bytes→bound (b ∷ bs) h (suc i) = all_bytes→bound bs (ground arith) i

abbrev pub zeros : ℕ → List ℕ
zeros zero = []
zeros (suc n) = 0 ∷ zeros n

-- An IPv6 header and a TCP header, between two addresses and two ports.
abbrev pub tcp_packet : List ℕ → List ℕ → List ℕ → List ℕ → List ℕ
tcp_packet src dst src_port dst_port =
    (0x60 ∷ 0 ∷ 0 ∷ 0 ∷ 0 ∷ 20 ∷ 6 ∷ 64 ∷ [])
    ++ (src ++ (dst ++ (src_port ++ (dst_port ++ zeros 16))))

-- Client 0x10001, domain 7, the origin 2606:4700::1, and the key 1, 2, …, 32.
abbrev pub client_addr : List ℕ
client_addr = 0xfd ∷ 0 ∷ 0xab ∷ 0xcd ∷ 0 ∷ 0 ∷ 0 ∷ 1 ∷ 0 ∷ 0 ∷ 0 ∷ 0 ∷ 0 ∷ 1 ∷ 0 ∷ 1 ∷ []

abbrev pub domain_addr : List ℕ
domain_addr = 0xfd ∷ 0 ∷ 0xab ∷ 0xcd ∷ 0 ∷ 0 ∷ 0 ∷ 7 ∷ 0 ∷ 0 ∷ 0 ∷ 0 ∷ 0 ∷ 0 ∷ 0 ∷ 1 ∷ []

abbrev pub origin_addr : List ℕ
origin_addr = 0x26 ∷ 0x06 ∷ 0x47 ∷ 0 ∷ 0 ∷ 0 ∷ 0 ∷ 0 ∷ 0 ∷ 0 ∷ 0 ∷ 0 ∷ 0 ∷ 0 ∷ 0 ∷ 1 ∷ []

abbrev pub counting : ℕ → ℕ → List ℕ
counting zero from = []
counting (suc n) from = from ∷ counting n (from + 1)

abbrev pub test_key : ProxySrcKey
test_key = record { prince_key = counting 16 1; siphash_key = counting 16 17 }

abbrev pub test_entry : NatEntry
test_entry = record { origin_ipv6 = origin_addr }

abbrev pub test_maps : Maps
test_maps = record {
  nat_map = λ d. if ltb d 100 then some test_entry else none;
  xfrm_ifindex = λ i. some 3;
  obfs_keys = λ i. some test_key;
  dev_wan_ipv6 = λ i. none;
  reply_track = λ k. none;
  dbg_counters = zeros 8;
}

abbrev pub client_port : List ℕ
client_port = 0xc3 ∷ 0x50 ∷ []

abbrev pub server_port : List ℕ
server_port = 0x01 ∷ 0xbb ∷ []

abbrev pub request : State
request = record {
  packet = tcp_packet client_addr domain_addr client_port server_port;
  maps = test_maps;
}

-- The address that encodes client, domain and flow, and the reply of the origin.
abbrev pub proxy_addr : List ℕ
proxy_addr =
    32 ∷ 1 ∷ 13 ∷ 184 ∷ 204 ∷ 162 ∷ 66 ∷ 182 ∷ 111 ∷ 246 ∷ 130 ∷ 26 ∷ 108 ∷ 149 ∷ 188 ∷ 131 ∷ []

abbrev pub answer : State
answer = record {
  packet = tcp_packet origin_addr proxy_addr server_port client_port;
  maps = test_maps;
}

pub request_packet : IsL4Packet request.packet 0 tcp
unfolding to_proto is_l4
request_packet = record {
  framing = inl (refl, refl);
  next = refl;
  l4 = refl;
  fits = omega arith;
  bytes = all_bytes→bound request.packet refl;
}

pub answer_packet : IsL4Packet answer.packet 0 tcp
unfolding to_proto is_l4
answer_packet = record {
  framing = inl (refl, refl);
  next = refl;
  l4 = refl;
  fits = omega arith;
  bytes = all_bytes→bound answer.packet refl;
}

-- An Ethernet frame with the request in it, which is not for the proxy-source prefix.
abbrev pub foreign_frame : State
foreign_frame = record { packet = zeros 12 ++ (0x86 ∷ 0xdd ∷ request.packet); maps = test_maps }
