-- ===== src/Utils.antt =====
-- pkg/utils/common.go.
use edge_q.Prelude.{
  String, ◌≡◌, Bool, false, ◌||◌, Option, none, some, List, [], ◌∷◌, ◌==◌, eq_iff, arith,
  if◌then◌else◌,
}
use edge_q.Prelude.Int.{ℤ, pos, eqb_ℤ}
use edge_q.Maps.{Map, insert}
use edge_q.K8s.{Container, ContainerPort, Pod}

unfoldable pub remove_string : List String → String → List String
remove_string [] s = []
remove_string (item ∷ slice) s =
    let rest = remove_string slice s in if item == s then rest else item ∷ rest

unfoldable pub has_string : List String → String → Bool
has_string [] str = false
has_string (s ∷ slice) str = s == str || has_string slice str

-- A string that is removed is gone, and every other string is there as before.
pub has_string-remove_string :
    (slice : List String) (s t : String)
    → has_string (remove_string slice s) t ≡ (if s == t then false else has_string slice t)
unfolding has_string remove_string
has_string-remove_string [] s t = ground arith
has_string-remove_string (item ∷ slice) s t =
    ground (arith, eq_iff item s, eq_iff s t, eq_iff item t, has_string-remove_string slice s t)

-- `additions` stands in the order in which the map is visited; a nil map of labels becomes an empty one.
unfoldable pub merge_labels : List (String × String) → Map String → Map String
merge_labels [] origin = origin
merge_labels ((key, value) ∷ additions) origin = merge_labels additions (insert key value origin)

port_in : ℤ → List ContainerPort → Option ℤ
port_in host_port [] = none
port_in host_port (p ∷ ports) =
    if eqb_ℤ p.host_port host_port then some p.container_port else port_in host_port ports

port_of : ℤ → List Container → ℤ
port_of host_port [] = pos 0
port_of host_port (c ∷ cs) = elim (port_in host_port c.ports) [
  | some p ↦ p
  | none ↦ port_of host_port cs
]

-- The container port of the first port with the host port; 0 if there is none.
unfoldable pub get_target_container_port : Pod → ℤ → ℤ
unfolding port_in port_of
get_target_container_port pod host_port = port_of host_port pod.containers
