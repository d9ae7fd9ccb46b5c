-- ===== src/Tests/Routing.antt =====
-- When a request is dropped by ebpf/src/main.rs, on a concrete input.
use prototype_net.Base.{◌≡◌, ◌↔◌, refl, false, none, some}
use prototype_net.Ebpf.Exec.{State, act_shot}
use prototype_net.Ebpf.Packet.{tcp, has_prefix}
use prototype_net.Ebpf.Ingress.{tc_ingress, dev_wan}
use prototype_net.Ebpf.Ingress.Drop.{IsUnroutable, tc_ingress-drop_iff}
use prototype_net.Tests.Fixtures.{
  test_kernel, test_kernel-IsKernel, test_maps, request, request_packet,
}

-- The maps of the fixtures, without a domain.
abbrev unknown : State
unknown = record request { maps = record test_maps { nat_map = λ d. none } }

tc_ingress-drop_iff_example :
    (((tc_ingress test_kernel false unknown).0 ≡ some act_shot)
      ↔ IsUnroutable test_kernel test_kernel-IsKernel false unknown 0 tcp request_packet)
    × ((tc_ingress test_kernel false unknown ≡ (some act_shot, unknown))
        ↔ IsUnroutable test_kernel test_kernel-IsKernel false unknown 0 tcp request_packet)
unfolding has_prefix dev_wan
tc_ingress-drop_iff_example =
    tc_ingress-drop_iff test_kernel test_kernel-IsKernel false unknown 0 tcp request_packet refl
      (λ entry h. absurd (cc)) (λ wan h. absurd (cc))
