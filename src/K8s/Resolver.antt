-- ===== src/K8s/Resolver.antt =====
-- internal/k8s/resolver.go. The Kubernetes API at the moment of a call and the clock are arguments;
-- the lock makes each access to the cache one step.
pub mod Answers
pub mod Lookup
use kube_forwarding_proxy.Base.{
  ℕ, zero, suc, ◌-◌, Bool, true, false, not, ◌&&◌, Option, none, some, List, [], ◌∷◌, ◌++◌, map,
  Text, text_eq, text_beq, Dict, lookup, insert, delete, if◌then◌else◌, ltb, nat_beq, Result, ok,
  err,
}

pub record Endpoint : Type 0 where
  pub pod_name : Text
  pub namespace : Text
  pub ip : Text

-- The ports are int32 values that Kubernetes keeps between 0 and 65535.
pub record ServicePort : Type 0 where
  pub name : Text
  pub port : ℕ
  pub target_port : ℕ
  pub protocol : Text

pub record ResolvedService : Type 0 where
  pub endpoints : List Endpoint
  pub ports : List ServicePort
  pub cached_at : ℕ

-- The parts of the API's objects that Resolve reads. A target port is a number or a name.
pub data TargetPort : Type 0 where
  number : ℕ → TargetPort
  named : Text → TargetPort

-- IntVal: 0 for a name.
unfoldable pub int_val : TargetPort → ℕ
int_val (number n) = n
int_val (named s) = 0

pub record ApiPort : Type 0 where
  pub name : Text
  pub port : ℕ
  pub target_port : TargetPort
  pub protocol : Text

pub record ApiEndpoint : Type 0 where
  pub ready : Option Bool
  pub target_ref : Option Text
  pub addresses : List Text

-- What one clientset answers for a namespace and a service.
pub record ServiceApi : Type 0 where
  pub get_service : Text → Text → Result Text (List ApiPort)
  pub list_endpoint_slices : Text → Text → Result Text (List (List ApiEndpoint))

pub data ResolveError : Type 0 where
  no_live_client unknown_context : ResolveError
  getting_service listing_slices : Text → ResolveError
  no_ready_endpoints pod_not_found : ResolveError

-- What Resolve reads of the client manager: the current context, the names, and the clients.
pub record Clients : Type 0 where
  pub current : Text
  pub names : List Text
  pub client : Text → Option ServiceApi

pub record Resolver : Type 0 where
  pub manager : Option Clients
  pub test_context_names : Option (List Text)
  pub cache : Dict Text ResolvedService
  pub cache_ttl : ℕ

abbrev pub slash : ℕ
slash = b'/'

unfoldable pub cache_key : Text → Text → Text → Text
cache_key context_name namespace service_name =
    context_name ++ (slash ∷ (namespace ++ (slash ∷ service_name)))

unfoldable pub port_of : ApiPort → ServicePort
unfolding int_val
port_of p = record {
  name = p.name;
  port = p.port;
  target_port = int_val p.target_port;
  protocol = p.protocol;
}

-- ep.Conditions.Ready != nil && !*ep.Conditions.Ready
unfoldable pub is_unready : Option Bool → Bool
is_unready none = false
is_unready (some ready) = not ready

unfoldable pub pod_name_of : Option Text → Text
pod_name_of none = []
pod_name_of (some name) = name

unfoldable pub endpoints_of_addresses : Text → Text → List Text → List Endpoint
endpoints_of_addresses namespace pod [] = []
endpoints_of_addresses namespace pod (addr ∷ rest) =
    record { pod_name = pod; namespace = namespace; ip = addr }
    ∷ endpoints_of_addresses namespace pod rest

unfoldable pub endpoints_of_slice : Text → List ApiEndpoint → List Endpoint
unfolding is_unready pod_name_of endpoints_of_addresses
endpoints_of_slice namespace [] = []
endpoints_of_slice namespace (ep ∷ eps) =
    let rest = endpoints_of_slice namespace eps in
    if is_unready ep.ready
    then rest
    else endpoints_of_addresses namespace (pod_name_of ep.target_ref) ep.addresses ++ rest

unfoldable pub endpoints_of_slices : Text → List (List ApiEndpoint) → List Endpoint
unfolding endpoints_of_slice
endpoints_of_slices namespace [] = []
endpoints_of_slices namespace (slice ∷ slices) =
    endpoints_of_slice namespace slice ++ endpoints_of_slices namespace slices

-- The first endpoint of the pod.
unfoldable pub find_pod : Text → List Endpoint → Option Endpoint
find_pod pod [] = none
find_pod pod (ep ∷ eps) = if text_beq ep.pod_name pod then some ep else find_pod pod eps

unfoldable pub filter_by_pod : ResolvedService → Text → Result ResolveError ResolvedService
unfolding find_pod
filter_by_pod resolved [] = ok resolved
filter_by_pod resolved (c ∷ pod) = elim (find_pod (c ∷ pod) resolved.endpoints) [
  | none ↦ err pod_not_found
  | some ep ↦ ok (record resolved { endpoints = ep ∷ [] })
]

-- The service as the API gives it, or the error.
unfoldable pub service_of_endpoints :
    List Endpoint → List ApiPort → ℕ → Result ResolveError ResolvedService
unfolding port_of
service_of_endpoints [] ports now = err no_ready_endpoints
service_of_endpoints (ep ∷ eps) ports now =
    ok (record { endpoints = ep ∷ eps; ports = map port_of ports; cached_at = now })

unfoldable pub fetch : ServiceApi → Text → Text → ℕ → Result ResolveError ResolvedService
unfolding endpoints_of_slices service_of_endpoints
fetch api namespace service_name now = elim (api.get_service namespace service_name) [
  | err e ↦ err (getting_service e)
  | ok ports ↦ elim (api.list_endpoint_slices namespace service_name) [
    | err e ↦ err (listing_slices e)
    | ok slices ↦ service_of_endpoints (endpoints_of_slices namespace slices) ports now
  ]
]

unfoldable pub resolve_context : Resolver → Text → Text
resolve_context r [] = elim r.manager [ none ↦ [] | some c ↦ c.current ]
resolve_context r (b ∷ context_name) = b ∷ context_name

-- A cached entry that is younger than the TTL.
unfoldable pub fresh_entry : Resolver → Text → ℕ → Option ResolvedService
fresh_entry r key now = elim (lookup key r.cache) [
  | none ↦ none
  | some cached ↦ if ltb (now - cached.cached_at) r.cache_ttl then some cached else none
]

-- A fetched service goes to the cache before the pod is looked for.
unfoldable pub store_fetched :
    Resolver
    → Text
    → Text
    → Result ResolveError ResolvedService
    → Resolver × Result ResolveError ResolvedService
unfolding filter_by_pod
store_fetched r key pod (err e) = (r, err e)
store_fetched r key pod (ok resolved) =
    (record r { cache = insert key resolved r.cache }, filter_by_pod resolved pod)

-- With the context's clientset, if there is one.
unfoldable pub resolve_by :
    Option ServiceApi
    → Resolver
    → Text
    → Text
    → Text
    → Text
    → ℕ
    → Resolver × Result ResolveError ResolvedService
unfolding fetch store_fetched
resolve_by none r key namespace service_name pod now = (r, err unknown_context)
resolve_by (some api) r key namespace service_name pod now =
    store_fetched r key pod (fetch api namespace service_name now)

unfoldable pub resolve_live :
    Option Clients
    → Resolver
    → Text
    → Text
    → Text
    → Text
    → ℕ
    → Resolver × Result ResolveError ResolvedService
unfolding resolve_by cache_key
resolve_live none r context_name namespace service_name pod now = (r, err no_live_client)
resolve_live (some manager) r context_name namespace service_name pod now =
    resolve_by (manager.client context_name) r (cache_key context_name namespace service_name)
      namespace service_name pod now

-- With the cached entry, if a fresh one was found; else the live answer.
unfoldable pub answer :
    Option ResolvedService
    → Resolver
    → Text
    → Resolver × Result ResolveError ResolvedService
    → Resolver × Result ResolveError ResolvedService
unfolding filter_by_pod
answer (some cached) r pod live = (r, filter_by_pod cached pod)
answer none r pod live = live

-- Resolve for the context's own name.
unfoldable pub resolve_in :
    Resolver → Text → Text → Text → Text → ℕ → Resolver × Result ResolveError ResolvedService
unfolding fresh_entry answer resolve_live cache_key
resolve_in r context_name namespace service_name pod now =
    let live = resolve_live r.manager r context_name namespace service_name pod now in
    answer (fresh_entry r (cache_key context_name namespace service_name) now) r pod live

unfoldable pub resolve :
    Resolver → Text → Text → Text → Text → ℕ → Resolver × Result ResolveError ResolvedService
unfolding resolve_context resolve_in
resolve r context_name namespace service_name pod now =
    resolve_in r (resolve_context r context_name) namespace service_name pod now

-- The port that FindPort gives for the first entry with the service's port.
unfoldable pub find_port : List ServicePort → ℕ → Option ℕ
find_port [] service_port = none
find_port (p ∷ ps) service_port =
    let rest = find_port ps service_port in
    if nat_beq p.port service_port
    then (if nat_beq p.target_port 0 then some p.port else some p.target_port)
    else rest

-- AllContextNames. (The names of a resolver with neither are never asked for: the manager is nil in
-- tests only, and they give the names.)
unfoldable pub resolver_context_names : Resolver → List Text
resolver_context_names r = elim r.test_context_names [
  | some names ↦ names
  | none ↦ elim r.manager [ none ↦ [] | some c ↦ c.names ]
]

-- resolved.Endpoints[i] for the random i; `none` is the panic of an index out of range.
unfoldable pub pick_endpoint : List Endpoint → ℕ → Option Endpoint
pick_endpoint [] i = none
pick_endpoint (ep ∷ eps) zero = some ep
pick_endpoint (ep ∷ eps) (suc i) = pick_endpoint eps i

unfoldable pub seed : Text → Text → Text → ResolvedService → Resolver → Resolver
unfolding cache_key
seed context_name namespace service_name svc r = record r {
  cache = insert (cache_key context_name namespace service_name) svc r.cache;
}

unfoldable pub invalidate : Text → Text → Text → Resolver → Resolver
unfolding cache_key resolve_context
invalidate context_name namespace service_name r = record r {
  cache = delete (cache_key (resolve_context r context_name) namespace service_name) r.cache;
}
