-- ===== src/K8s/Resolver/Lookup.antt =====
-- internal/k8s/resolver.go: FindPort and filterByPod.
use kube_forwarding_proxy.Base.{
  ℕ, ◌≡◌, inl, inr, some, List, [], ◌∷◌, map, Text, text_eq, text_beq_iff, if◌then◌else◌, nat_beq,
  ok, arith, Option-cases,
}
use kube_forwarding_proxy.K8s.Resolver.{
  Endpoint, ResolvedService, TargetPort, number, named, int_val, ApiPort, port_of, find_pod,
  filter_by_pod, find_port,
}

find_pod_lem :
    (pod : Text) (eps : List Endpoint) (ep : Endpoint)
    → find_pod pod eps ≡ some ep
    → ep.pod_name ≡ pod
unfolding find_pod
find_pod_lem pod [] ep h = absurd (cc)
find_pod_lem pod (x ∷ eps) ep h =
    ground (arith, text_beq_iff x.pod_name pod, find_pod_lem pod eps ep)

-- The pod port that a service port means, by its declaration in the API.
abbrev pub meant_port : ApiPort → TargetPort → ℕ
meant_port p (number n) = if nat_beq n 0 then p.port else n
meant_port p (named s) = p.port

-- FindPort, for the first port with the service's number: the numeric target port if one is set,
-- else the service port itself. It is the service port also where the target port has a name,
-- whatever port the pod gives that name.
pub find_port_first :
    (p : ApiPort) (ps : List ApiPort)
    → find_port (map port_of (p ∷ ps)) p.port ≡ some (meant_port p p.target_port)
unfolding find_port port_of int_val
find_port_first p ps = ground arith

-- A pod that is asked for by name is the one endpoint that filterByPod keeps; the ports stay.
pub filter_by_pod_ok :
    (c x : ResolvedService) (b : ℕ) (pod : Text)
    → filter_by_pod c (b ∷ pod) ≡ ok x
    → (ep : Endpoint) × (x.endpoints ≡ ep ∷ []) × (ep.pod_name ≡ b ∷ pod) × (x.ports ≡ c.ports)
unfolding filter_by_pod
filter_by_pod_ok c x b pod h = elim (Option-cases (find_pod (b ∷ pod) c.endpoints)) [
  | inl missing ↦ absurd (ground arith)
  | inr (ep, found) ↦ (ep, ground arith, find_pod_lem (b ∷ pod) c.endpoints ep found, ground arith)
]
