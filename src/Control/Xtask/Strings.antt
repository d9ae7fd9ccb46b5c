-- ===== src/Control/Xtask/Strings.antt =====
-- The strings of xtask/src/main.rs.
use prototype_net.Base.{[], ◌∷◌}
use prototype_net.Control.Text.{Text}

-- `contract.toml`
abbrev pub contract_path : Text
contract_path = 99 ∷ 111 ∷ 110 ∷ 116 ∷ 114 ∷ 97 ∷ 99 ∷ 116 ∷ 46 ∷ 116 ∷ 111 ∷ 109 ∷ 108 ∷ []

-- `client/swanctl.conf`
abbrev pub client_swanctl : Text
client_swanctl =
    99 ∷ 108 ∷ 105 ∷ 101 ∷ 110 ∷ 116 ∷ 47 ∷ 115 ∷ 119 ∷ 97 ∷ 110 ∷ 99 ∷ 116 ∷ 108 ∷ 46 ∷ 99 ∷ 111
    ∷ 110 ∷ 102 ∷ []

-- `client/entrypoint.sh`
abbrev pub client_entrypoint : Text
client_entrypoint =
    99 ∷ 108 ∷ 105 ∷ 101 ∷ 110 ∷ 116 ∷ 47 ∷ 101 ∷ 110 ∷ 116 ∷ 114 ∷ 121 ∷ 112 ∷ 111 ∷ 105 ∷ 110
    ∷ 116 ∷ 46 ∷ 115 ∷ 104 ∷ []

-- `ansible/roles/prototype_net/templates/swanctl.conf.j2`
abbrev pub swanctl_template : Text
swanctl_template =
    97 ∷ 110 ∷ 115 ∷ 105 ∷ 98 ∷ 108 ∷ 101 ∷ 47 ∷ 114 ∷ 111 ∷ 108 ∷ 101 ∷ 115 ∷ 47 ∷ 112 ∷ 114 ∷ 111
    ∷ 116 ∷ 111 ∷ 116 ∷ 121 ∷ 112 ∷ 101 ∷ 95 ∷ 110 ∷ 101 ∷ 116 ∷ 47 ∷ 116 ∷ 101 ∷ 109 ∷ 112 ∷ 108
    ∷ 97 ∷ 116 ∷ 101 ∷ 115 ∷ 47 ∷ 115 ∷ 119 ∷ 97 ∷ 110 ∷ 99 ∷ 116 ∷ 108 ∷ 46 ∷ 99 ∷ 111 ∷ 110 ∷ 102
    ∷ 46 ∷ 106 ∷ 50 ∷ []

-- `ansible/roles/prototype_net/templates/prototype-xfrm0.service.j2`
abbrev pub xfrm0_template : Text
xfrm0_template =
    97 ∷ 110 ∷ 115 ∷ 105 ∷ 98 ∷ 108 ∷ 101 ∷ 47 ∷ 114 ∷ 111 ∷ 108 ∷ 101 ∷ 115 ∷ 47 ∷ 112 ∷ 114 ∷ 111
    ∷ 116 ∷ 111 ∷ 116 ∷ 121 ∷ 112 ∷ 101 ∷ 95 ∷ 110 ∷ 101 ∷ 116 ∷ 47 ∷ 116 ∷ 101 ∷ 109 ∷ 112 ∷ 108
    ∷ 97 ∷ 116 ∷ 101 ∷ 115 ∷ 47 ∷ 112 ∷ 114 ∷ 111 ∷ 116 ∷ 111 ∷ 116 ∷ 121 ∷ 112 ∷ 101 ∷ 45 ∷ 120
    ∷ 102 ∷ 114 ∷ 109 ∷ 48 ∷ 46 ∷ 115 ∷ 101 ∷ 114 ∷ 118 ∷ 105 ∷ 99 ∷ 101 ∷ 46 ∷ 106 ∷ 50 ∷ []

-- `local_ts = `
abbrev pub local_ts_prefix : Text
local_ts_prefix = 108 ∷ 111 ∷ 99 ∷ 97 ∷ 108 ∷ 95 ∷ 116 ∷ 115 ∷ 32 ∷ 61 ∷ 32 ∷ []

-- `if_id_in = `
abbrev pub if_id_in_prefix : Text
if_id_in_prefix = 105 ∷ 102 ∷ 95 ∷ 105 ∷ 100 ∷ 95 ∷ 105 ∷ 110 ∷ 32 ∷ 61 ∷ 32 ∷ []

-- `if_id_out = `
abbrev pub if_id_out_prefix : Text
if_id_out_prefix = 105 ∷ 102 ∷ 95 ∷ 105 ∷ 100 ∷ 95 ∷ 111 ∷ 117 ∷ 116 ∷ 32 ∷ 61 ∷ 32 ∷ []

-- `if_id `
abbrev pub link_prefix : Text
link_prefix = 105 ∷ 102 ∷ 95 ∷ 105 ∷ 100 ∷ 32 ∷ []

-- ` dev eth0`
abbrev pub link_suffix : Text
link_suffix = 32 ∷ 100 ∷ 101 ∷ 118 ∷ 32 ∷ 101 ∷ 116 ∷ 104 ∷ 48 ∷ []

-- `{{ vip_pool_start }}`
abbrev pub pool_start_placeholder : Text
pool_start_placeholder =
    123 ∷ 123 ∷ 32 ∷ 118 ∷ 105 ∷ 112 ∷ 95 ∷ 112 ∷ 111 ∷ 111 ∷ 108 ∷ 95 ∷ 115 ∷ 116 ∷ 97 ∷ 114 ∷ 116
    ∷ 32 ∷ 125 ∷ 125 ∷ []

-- `{{ vip_pool_end }}`
abbrev pub pool_end_placeholder : Text
pool_end_placeholder =
    123 ∷ 123 ∷ 32 ∷ 118 ∷ 105 ∷ 112 ∷ 95 ∷ 112 ∷ 111 ∷ 111 ∷ 108 ∷ 95 ∷ 101 ∷ 110 ∷ 100 ∷ 32 ∷ 125
    ∷ 125 ∷ []

-- `{{ synthetic_prefix_cidr }}`
abbrev pub prefix_placeholder : Text
prefix_placeholder =
    123 ∷ 123 ∷ 32 ∷ 115 ∷ 121 ∷ 110 ∷ 116 ∷ 104 ∷ 101 ∷ 116 ∷ 105 ∷ 99 ∷ 95 ∷ 112 ∷ 114 ∷ 101 ∷ 102
    ∷ 105 ∷ 120 ∷ 95 ∷ 99 ∷ 105 ∷ 100 ∷ 114 ∷ 32 ∷ 125 ∷ 125 ∷ []

-- `{{ xfrm_if_id }}`
abbrev pub xfrm_j2_placeholder : Text
xfrm_j2_placeholder =
    123 ∷ 123 ∷ 32 ∷ 120 ∷ 102 ∷ 114 ∷ 109 ∷ 95 ∷ 105 ∷ 102 ∷ 95 ∷ 105 ∷ 100 ∷ 32 ∷ 125 ∷ 125 ∷ []

-- `+nightly`
abbrev pub nightly : Text
nightly = 43 ∷ 110 ∷ 105 ∷ 103 ∷ 104 ∷ 116 ∷ 108 ∷ 121 ∷ []

-- `build`
abbrev pub build : Text
build = 98 ∷ 117 ∷ 105 ∷ 108 ∷ 100 ∷ []

-- `-Z`
abbrev pub unstable : Text
unstable = 45 ∷ 90 ∷ []

-- `build-std=core`
abbrev pub build_std : Text
build_std = 98 ∷ 117 ∷ 105 ∷ 108 ∷ 100 ∷ 45 ∷ 115 ∷ 116 ∷ 100 ∷ 61 ∷ 99 ∷ 111 ∷ 114 ∷ 101 ∷ []

-- `--target`
abbrev pub target_flag : Text
target_flag = 45 ∷ 45 ∷ 116 ∷ 97 ∷ 114 ∷ 103 ∷ 101 ∷ 116 ∷ []

-- `bpfel-unknown-none`
abbrev pub target : Text
target =
    98 ∷ 112 ∷ 102 ∷ 101 ∷ 108 ∷ 45 ∷ 117 ∷ 110 ∷ 107 ∷ 110 ∷ 111 ∷ 119 ∷ 110 ∷ 45 ∷ 110 ∷ 111 ∷ 110
    ∷ 101 ∷ []

-- `--release`
abbrev pub release : Text
release = 45 ∷ 45 ∷ 114 ∷ 101 ∷ 108 ∷ 101 ∷ 97 ∷ 115 ∷ 101 ∷ []

-- `--features`
abbrev pub features : Text
features = 45 ∷ 45 ∷ 102 ∷ 101 ∷ 97 ∷ 116 ∷ 117 ∷ 114 ∷ 101 ∷ 115 ∷ []

-- `dev-mode`
abbrev pub dev_mode : Text
dev_mode = 100 ∷ 101 ∷ 118 ∷ 45 ∷ 109 ∷ 111 ∷ 100 ∷ 101 ∷ []

-- `ebpf`
abbrev pub ebpf_dir : Text
ebpf_dir = 101 ∷ 98 ∷ 112 ∷ 102 ∷ []

-- `target`
abbrev pub target_dir : Text
target_dir = 116 ∷ 97 ∷ 114 ∷ 103 ∷ 101 ∷ 116 ∷ []
