-- ===== src/K8s/Resolver/Answers.antt =====
-- internal/k8s/resolver.go: the cache, and the endpoints that an answer has.
use kube_forwarding_proxy.Base.{
  ℕ, ◌-◌, ◌<◌, ◌≡◌, ◌≢◌, refl, true, Option, none, some, [], ◌∷◌, Text, text_eq, lookup,
  lookup-insert_self, ltb, Result, ok, err, arith,
}
use kube_forwarding_proxy.K8s.Resolver.{
  ResolvedService, ServiceApi, ResolveError, Clients, Resolver, resolve_by, answer, cache_key,
  filter_by_pod, fetch, fresh_entry, store_fetched, resolve_live, resolve_in, resolve,
  resolve_context,
}

-- What filterByPod keeps: the time of the entry, and an endpoint if there was one.
record IsFiltered (c x : ResolvedService) : Type 0 where
  same_time : x.cached_at ≡ c.cached_at
  same_ports : x.ports ≡ c.ports

filter_by_pod-IsFiltered :
    (c x : ResolvedService) (pod : Text) → filter_by_pod c pod ≡ ok x → IsFiltered c x
unfolding filter_by_pod
filter_by_pod-IsFiltered c x [] h = ground arith
filter_by_pod-IsFiltered c x (b ∷ pod) h = ground arith

-- Every entry of the cache has an endpoint.
abbrev pub HasEndpoints : Resolver → Type 0
HasEndpoints r = (key : Text) (s : ResolvedService) → lookup key r.cache ≡ some s → s.endpoints ≢ []

-- An answer, its entry in the cache behind the call, and what stays.
record IsAnswered (r r' : Resolver) (key pod : Text) (x : ResolvedService) : Type 0 where
  entry : ResolvedService
  stored : lookup key r'.cache ≡ some entry
  filtered : filter_by_pod entry pod ≡ ok x
  same_ttl : r'.cache_ttl ≡ r.cache_ttl

store_fetched-IsAnswered :
    (r : Resolver) (key pod : Text) (f : Result ResolveError ResolvedService) (x : ResolvedService)
    → (store_fetched r key pod f).1 ≡ ok x
    → IsAnswered r (store_fetched r key pod f).0 key pod x
unfolding store_fetched
store_fetched-IsAnswered r key pod (err e) x h = absurd (cc)
store_fetched-IsAnswered r key pod (ok s) x h = record {
  entry = s;
  stored = lookup-insert_self key s r.cache;
  filtered = h;
  same_ttl = refl;
}

module _ (context_name namespace service_name pod : Text) (now : ℕ) where
  by-IsAnswered :
      (api : Option ServiceApi) (r : Resolver) (key : Text) (x : ResolvedService)
      → (resolve_by api r key namespace service_name pod now).1 ≡ ok x
      → IsAnswered r (resolve_by api r key namespace service_name pod now).0 key pod x
  unfolding resolve_by
  by-IsAnswered none r key x h = absurd (cc)
  by-IsAnswered (some api) r key x h =
      store_fetched-IsAnswered r key pod (fetch api namespace service_name now) x h

  live-IsAnswered :
      (m : Option Clients) (r : Resolver) (x : ResolvedService)
      → (resolve_live m r context_name namespace service_name pod now).1 ≡ ok x
      → IsAnswered r
          (resolve_live m r context_name namespace service_name pod now).0
          (cache_key context_name namespace service_name)
          pod
          x
  unfolding resolve_live
  live-IsAnswered none r x h = absurd (cc)
  live-IsAnswered (some manager) r x h = by-IsAnswered (manager.client context_name) r _ x h

fresh_entry_stored :
    (r : Resolver) (key : Text) (now : ℕ) (c : ResolvedService)
    → fresh_entry r key now ≡ some c
    → lookup key r.cache ≡ some c
unfolding fresh_entry
fresh_entry_stored r key now c h = ground arith

answer-IsAnswered :
    (o : Option ResolvedService) (r : Resolver) (key pod : Text)
    (live : Resolver × Result ResolveError ResolvedService) (x : ResolvedService)
    → ((c : ResolvedService) → o ≡ some c → lookup key r.cache ≡ some c)
    → (live.1 ≡ ok x → IsAnswered r live.0 key pod x)
    → (answer o r pod live).1 ≡ ok x
    → IsAnswered r (answer o r pod live).0 key pod x
unfolding answer
answer-IsAnswered none r key pod live x s l h = l h
answer-IsAnswered (some c) r key pod live x s l h = record {
  entry = c;
  stored = s c refl;
  filtered = h;
  same_ttl = refl;
}

resolve-IsAnswered :
    (r : Resolver) (context_name namespace service_name pod : Text) (now : ℕ) (x : ResolvedService)
    → (resolve_in r context_name namespace service_name pod now).1 ≡ ok x
    → IsAnswered r
        (resolve_in r context_name namespace service_name pod now).0
        (cache_key context_name namespace service_name)
        pod
        x
unfolding resolve_in
resolve-IsAnswered r context_name namespace service_name pod now x h =
    let key = cache_key context_name namespace service_name in
    answer-IsAnswered (fresh_entry r key now) r key pod
      (resolve_live r.manager r context_name namespace service_name pod now) x
      (λ c e. fresh_entry_stored r key now c e)
      (live-IsAnswered context_name namespace service_name pod now r.manager r x) h

resolve_cached :
    (r : Resolver) (context_name namespace service_name pod : Text) (later : ℕ)
    (c x : ResolvedService)
    → lookup (cache_key context_name namespace service_name) r.cache ≡ some c
    → later - c.cached_at < r.cache_ttl
    → filter_by_pod c pod ≡ ok x
    → resolve_in r context_name namespace service_name pod later ≡ (r, ok x)
unfolding resolve_in fresh_entry
resolve_cached r context_name namespace service_name pod later c x stored young f =
    let key = cache_key context_name namespace service_name in
    let test : ltb (later - c.cached_at) r.cache_ttl ≡ true = ground arith in
    let fresh : fresh_entry r key later ≡ some c = rw (stored, fresh_entry) (rw test) in
    rw (fresh, answer) (rw f)

-- For a context that is named: while the answer of a successful Resolve is younger than the TTL,
-- Resolve gives it again, from the cache alone, whatever the clients and their clusters have
-- become, and leaving the cache as it is.
pub resolve_again :
    (r : Resolver) (c : ℕ) (context_name namespace service_name pod : Text) (now later : ℕ)
    (x : ResolvedService) (m : Option Clients)
    → (resolve r (c ∷ context_name) namespace service_name pod now).1 ≡ ok x
    → later - x.cached_at < r.cache_ttl
    → let r' = record (resolve r (c ∷ context_name) namespace service_name pod now).0 {
      manager = m;
    } in
      resolve r' (c ∷ context_name) namespace service_name pod later ≡ (r', ok x)
unfolding resolve resolve_context
resolve_again r c context_name namespace service_name pod now later x m h young =
    let r' = (resolve r (c ∷ context_name) namespace service_name pod now).0 in
    let a = resolve-IsAnswered r (c ∷ context_name) namespace service_name pod now x h in
    resolve_cached (record r' { manager = m }) (c ∷ context_name) namespace service_name pod later
      a.entry x a.stored
      (omega (arith, a.same_ttl, (filter_by_pod-IsFiltered a.entry x pod a.filtered).same_time))
      a.filtered
