-- ===== src/Sidecar/Laws.antt =====
-- The sidecars of internal/controller/webhook.go, container by container and volume by volume.
use mathlib.Core.List.{append_assoc, append-nil}
use edge_q.Prelude.{String, ◌≡◌, refl, ◌∙◌, ◌==◌, some, List, [], ◌∷◌, ◌++◌, arith, if◌then◌else◌}
use edge_q.Prelude.Int.{ℤ}
use edge_q.K8s.{Container, Volume}
use edge_q.Sidecar.{
  SidecarConfig, append_each, clone, with_args, add_proxy_iptables_rule, add_target, target_env,
  add_target_to_env, rename_volumes, rename_volume_ref_cm, get_proxy_sidecar_config, proxy_rule,
}

append_each_lem {ℓ} : {A : Type ℓ} (acc xs : List A) → append_each acc xs ≡ acc ++ xs
unfolding append_each
append_each_lem acc [] = rw append-nil
append_each_lem acc (x ∷ xs) = append_each_lem (acc ++ x ∷ []) xs ∙ append_assoc acc (x ∷ []) xs

clone_lem : (sc : SidecarConfig) → clone sc ≡ sc
unfolding clone
clone_lem sc = rw (
  append_each_lem [] sc.init_containers,
  append_each_lem [] sc.containers,
  append_each_lem [] sc.volumes,
)

-- No init container, or the first one alone, with the rule as the argument of its shell.
abbrev pub Redirects : String → List Container → List Container → Type 0
Redirects rule [] [] = Unit {0}
Redirects rule (c ∷ _) (d ∷ []) = d ≡ record c { command = "/bin/sh" ∷ "-c" ∷ []; args = rule ∷ [] }
Redirects rule _ _ = ⊥

with_args-Redirects : (rule : String) (cs : List Container) → Redirects rule cs (with_args rule cs)
unfolding with_args
with_args-Redirects rule [] = tt
with_args-Redirects rule (c ∷ _) = refl

-- The volumes that are named for the configuration refer to the map; nothing else of them changes, and
-- the other volumes are as they were.
abbrev pub Refers : String → String → List Volume → List Volume → Type 0
Refers cm name [] [] = Unit {0}
Refers cm name (v ∷ vs) (w ∷ ws) =
    (w ≡ (if v.name == name then record v { config_map = some cm } else v)) × Refers cm name vs ws
Refers cm name _ _ = ⊥

rename_volumes-Refers :
    (cm name : String) (vs : List Volume) → Refers cm name vs (rename_volumes cm name vs)
unfolding rename_volumes
rename_volumes-Refers cm name [] = tt
rename_volumes-Refers cm name (v ∷ vs) = (refl, rename_volumes-Refers cm name vs)

-- Every container gets the port of the target, and its address where there is one, after its own
-- environment.
abbrev pub Targets : (ℤ → String) → ℤ → String → List Container → List Container → Type 0
Targets itoa port addr [] [] = Unit {0}
Targets itoa port addr (c ∷ cs) (d ∷ ds) =
    (d ≡ record c {
      env =
          c.env
          ++ (record { name = "TARGET_PORT"; value = itoa port }
              ∷ (if addr == "" then [] else record { name = "TARGET_ADDRESS"; value = addr } ∷ []));
    })
    × Targets itoa port addr cs ds
Targets itoa port addr _ _ = ⊥

add_target-Targets :
    (itoa : ℤ → String) (port : ℤ) (addr : String) (cs : List Container)
    → Targets itoa port addr cs (add_target itoa port addr cs)
unfolding add_target target_env
add_target-Targets itoa port addr [] = tt
add_target-Targets itoa port addr (c ∷ cs) = (ground arith, add_target-Targets itoa port addr cs)

-- The sidecar of a proxy: its only init container redirects the port and the address of the server,
-- every container is told both, and exactly the volumes named `proxy-config` refer to the given
-- configuration map, all else being that of the configured sidecar.
pub proxy_sidecar_fits :
    (itoa : ℤ → String) (cm addr : String) (port : ℤ) (sc : SidecarConfig)
    → let out = get_proxy_sidecar_config itoa cm addr port sc in
      Redirects (proxy_rule itoa addr port) sc.init_containers out.init_containers
      × Targets itoa port addr sc.containers out.containers
      × Refers cm "proxy-config" sc.volumes out.volumes
unfolding get_proxy_sidecar_config add_proxy_iptables_rule add_target_to_env rename_volume_ref_cm
proxy_sidecar_fits itoa cm addr port sc = rw (clone_lem sc) (
  with_args-Redirects (proxy_rule itoa addr port) sc.init_containers,
  add_target-Targets itoa port addr sc.containers,
  rename_volumes-Refers cm "proxy-config" sc.volumes,
)
