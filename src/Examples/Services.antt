-- ===== src/Examples/Services.antt =====
-- internal/k8s/resolver.go at a concrete service: `web` in `prod`, with one ready pod.
use kube_forwarding_proxy.Base.{◌≡◌, refl, true, none, some, [], ◌∷◌, map, Text, arith, lookup, ok}
use kube_forwarding_proxy.K8s.Resolver.{
  Endpoint, ResolvedService, named, ApiPort, ServiceApi, Clients, Resolver, port_of, resolve,
}
use kube_forwarding_proxy.K8s.Resolver.Answers.{resolve_again}

abbrev pub http : ApiPort
http = record { name = b'h' ∷ []; port = 80; target_port = named (b'w' ∷ []); protocol = b'T' ∷ [] }

abbrev pod_ip : Text
pod_ip = 10 ∷ 1 ∷ []

abbrev pod : Text
pod = b'p' ∷ b'0' ∷ []

abbrev api : ServiceApi
api = record {
  get_service = λ ns svc. ok (http ∷ []);
  list_endpoint_slices = λ ns svc.
      ok ((record { ready = some true; target_ref = some pod; addresses = pod_ip ∷ [] } ∷ []) ∷ []);
}

abbrev clients : Clients
clients = record { current = b'd' ∷ []; names = (b'd' ∷ []) ∷ []; client = λ name. some api }

abbrev pub empty : Resolver
empty = record { manager = some clients; test_context_names = none; cache = []; cache_ttl = 30 }

abbrev pub endpoint : Endpoint
endpoint = record { pod_name = pod; namespace = b'n' ∷ []; ip = pod_ip }

abbrev pub answered : ResolvedService
answered = record { endpoints = endpoint ∷ []; ports = map port_of (http ∷ []); cached_at = 100 }

resolves_web : (resolve empty (b'd' ∷ []) (b'n' ∷ []) (b'w' ∷ []) [] 100).1 ≡ ok answered
unfolding resolve lookup
resolves_web = refl

resolve_again_example :
    let r = record (resolve empty (b'd' ∷ []) (b'n' ∷ []) (b'w' ∷ []) [] 100).0 {
      manager = none;
    } in
    resolve r (b'd' ∷ []) (b'n' ∷ []) (b'w' ∷ []) [] 120 ≡ (r, ok answered)
resolve_again_example =
    resolve_again empty b'd' [] (b'n' ∷ []) (b'w' ∷ []) [] 100 120 answered none resolves_web
      (omega arith)
