-- ===== src/Sidecar.antt =====
-- internal/controller/webhook.go, `SidecarConfig`: the containers and volumes that are injected, and
-- how they are fitted to a pod. `itoa` prints an integer as `fmt` does.
pub mod Laws
use Prim.Native.String.{◌++◌ as cat}
use edge_q.Prelude.{String, ◌==◌, not, Option, none, some, List, [], ◌∷◌, ◌++◌, if◌then◌else◌}
use edge_q.Prelude.Int.{ℤ}
use edge_q.K8s.{Container, Volume, EnvVar}

pub record SidecarConfig : Type 0 where
  pub init_containers : List Container
  pub containers : List Container
  pub volumes : List Volume

-- `for _, x := range xs { acc = append(acc, x) }`
append_each {ℓ} : {A : Type ℓ} → List A → List A → List A
append_each acc [] = acc
append_each acc (x ∷ xs) = append_each (acc ++ x ∷ []) xs

unfoldable pub clone : SidecarConfig → SidecarConfig
unfolding append_each
clone sc = record {
  init_containers = append_each [] sc.init_containers;
  containers = append_each [] sc.containers;
  volumes = append_each [] sc.volumes;
}

-- The first init container with another command; the others are dropped.
with_args : String → List Container → List Container
with_args arg [] = []
with_args arg (c ∷ _) = record c { command = "/bin/sh" ∷ "-c" ∷ []; args = arg ∷ [] } ∷ []

module _ (itoa : ℤ → String) where
  abbrev pub proxy_rule : String → ℤ → String
  proxy_rule addr port = cat "iptables -t nat -A OUTPUT -p tcp -d " (
      cat addr (
        cat " --dport " (
          cat (itoa port)
            " -m owner ! --uid-owner 65532 -j DNAT --to-destination 127.0.0.1:15051")))

  unfoldable pub add_proxy_iptables_rule : String → ℤ → SidecarConfig → SidecarConfig
  unfolding with_args
  add_proxy_iptables_rule addr port sc = record sc {
    init_containers = with_args (proxy_rule addr port) sc.init_containers;
  }

  abbrev pub broker_rule : ℤ → String
  broker_rule port =
      cat "iptables -t nat -A PREROUTING -p tcp  --dport "
        (cat (itoa port) " -j REDIRECT --to-port 15050;")

  unfoldable pub add_broker_iptables_rule : ℤ → SidecarConfig → SidecarConfig
  unfolding with_args
  add_broker_iptables_rule port sc = record sc {
    init_containers = with_args (broker_rule port) sc.init_containers;
  }

  target_env : ℤ → String → List EnvVar
  target_env port addr =
      record { name = "TARGET_PORT"; value = itoa port }
      ∷ (if not (addr == "") then record { name = "TARGET_ADDRESS"; value = addr } ∷ [] else [])

  add_target : ℤ → String → List Container → List Container
  add_target port addr [] = []
  add_target port addr (c ∷ cs) =
      record c { env = c.env ++ target_env port addr } ∷ add_target port addr cs

  unfoldable pub add_target_to_env : ℤ → String → SidecarConfig → SidecarConfig
  unfolding add_target target_env
  add_target_to_env port addr sc = record sc { containers = add_target port addr sc.containers }

rename_volumes : String → String → List Volume → List Volume
rename_volumes cm volume_name [] = []
rename_volumes cm volume_name (v ∷ vs) =
    (if v.name == volume_name then record v { config_map = some cm } else v)
    ∷ rename_volumes cm volume_name vs

unfoldable pub rename_volume_ref_cm : String → String → SidecarConfig → SidecarConfig
unfolding rename_volumes
rename_volume_ref_cm cm volume_name sc = record sc {
  volumes = rename_volumes cm volume_name sc.volumes;
}

module _ (itoa : ℤ → String) where
  unfoldable pub get_proxy_sidecar_config : String → String → ℤ → SidecarConfig → SidecarConfig
  get_proxy_sidecar_config proxy_cm server_addr server_port proxy_sidecar =
      rename_volume_ref_cm proxy_cm "proxy-config" (
        add_target_to_env itoa server_port server_addr
          (add_proxy_iptables_rule itoa server_addr server_port (clone proxy_sidecar)))

  unfoldable pub get_broker_sidecar_config : String → ℤ → SidecarConfig → SidecarConfig
  get_broker_sidecar_config broker_cm server_container_port broker_sidecar =
      rename_volume_ref_cm broker_cm "broker-config" (
        add_target_to_env itoa server_container_port ""
          (add_broker_iptables_rule itoa server_container_port (clone broker_sidecar)))
