-- ===== src/K8s/Kubeconfig/Laws.antt =====
-- internal/k8s/kubeconfig.go: whose tunnels an update shuts down.
use kube_forwarding_proxy.Base.{
  ◌≡◌, ◌≢◌, ◌↔◌, ◌⊎◌, refl, sym, ap, ◌∙◌, inl, inr, Bool, true, false, Option, none, some, [], ◌∷◌,
  Text, text_eq, text_beq_iff, Dict, lookup, Result, ok, err, arith, IsMap,
}
use kube_forwarding_proxy.K8s.Config.{ApiTypes, Context, Config}
use kube_forwarding_proxy.K8s.Config.Merge.{IsConfig, merge_configs-IsConfig}
use kube_forwarding_proxy.K8s.ClientManager.Contexts.{mem}
use kube_forwarding_proxy.K8s.ClientManager.{
  ClientGo, ClientManager, ManagerError, load_error, conflict_error, reset, add,
  merge_and_overwrite, merge_dynamic, merged_config,
}
use kube_forwarding_proxy.K8s.Kubeconfig.{
  no_content_204, with_body, error_status, get_config, get, delete_request, other_method, Status,
  bad_request_400, Response, option_beq, context_beq, is_affected, is_affected_by, affected_of,
  affected_contexts, finish, handle_with, parse_body, Request, post, put, patch,
}

option_beq_iff :
    {A : Type 0} (beq : A → A → Bool)
    → ((a b : A) → (beq a b ≡ true) ↔ (a ≡ b))
    → (o p : Option A) → (option_beq beq o p ≡ true) ↔ (o ≡ p)
unfolding option_beq
option_beq_iff beq h none none = (λ e. refl, λ e. refl)
option_beq_iff beq h none (some b) = (λ e. cc, λ e. cc)
option_beq_iff beq h (some a) none = (λ e. cc, λ e. cc)
option_beq_iff beq h (some a) (some b) = (λ e. ap some ((h a b).0 e), λ e. (h a b).1 (cc))

module _ (t : ApiTypes) where
  -- What a context's clients are made from: its entry, and the cluster and auth info it names.
  pub record Effective : Type 0 where
    pub context : Context t.Extra
    pub cluster : Option t.Cluster
    pub auth : Option t.AuthInfo

  abbrev pub effective_of : Config t → Option (Context t.Extra) → Option Effective
  effective_of c none = none
  effective_of c (some x) = some (record {
    context = x;
    cluster = lookup x.cluster c.clusters;
    auth = lookup x.auth_info c.auth_infos;
  })

  -- The effective configuration of a name, if the name is a context's.
  abbrev pub effective : Config t → Text → Option Effective
  effective c name = effective_of c (lookup name c.contexts)

  context_beq_iff : (a b : Context t.Extra) → (context_beq t a b ≡ true) ↔ (a ≡ b)
  unfolding context_beq
  context_beq_iff a b = ground (
    arith,
    text_beq_iff a.cluster b.cluster,
    text_beq_iff a.auth_info b.auth_info,
    t.extra_eq.beq_iff a.extra b.extra,
  )

  is_affected_iff :
      (old new : Config t) (x : Context t.Extra) (y : Option (Context t.Extra))
      → (is_affected t old new x y ≡ false) ↔ (effective_of old (some x) ≡ effective_of new y)
  unfolding is_affected
  is_affected_iff old new x none = (λ e. cc, λ e. cc)
  is_affected_iff old new x (some y) = ground (
    arith,
    context_beq_iff x y,
    option_beq_iff t.cluster_eq.beq t.cluster_eq.beq_iff (lookup x.cluster old.clusters)
        (lookup y.cluster new.clusters),
    option_beq_iff t.auth_eq.beq t.auth_eq.beq_iff (lookup x.auth_info old.auth_infos)
        (lookup y.auth_info new.auth_infos),
  )

  abbrev affected_at : Config t → Config t → Text → Option (Context t.Extra) → Bool
  affected_at old new n none = false
  affected_at old new n (some x) = is_affected_by t old (some new) n x

  mem-affected_of :
      (old new : Config t) (n : Text) (m : Dict Text (Context t.Extra))
      → IsMap m
      → mem n (affected_of t old (some new) m) ≡ affected_at old new n (lookup n m)
  unfolding affected_of lookup
  mem-affected_of old new n [] h = refl
  mem-affected_of old new n ((k, x) ∷ m) h =
      ground (arith, text_beq_iff k n, mem-affected_of old new n m h.1)

  affected_at_iff :
      (old new : Config t) (n : Text) (o : Option (Context t.Extra))
      → (affected_at old new n o ≡ false) ↔ ((o ≡ none) ⊎ (effective_of old o ≡ effective new n))
  unfolding is_affected_by
  affected_at_iff old new n none = (λ e. inl refl, λ e. refl)
  affected_at_iff old new n (some x) =
      let i = is_affected_iff old new x (lookup n new.contexts) in
      (λ e. inr (i.0 e), λ s. elim s [ inl e ↦ cc | inr e ↦ i.1 e ])

  -- Between two configurations, affectedContexts leaves a name out exactly when the old one has no
  -- such context, or the context's entry, its cluster and its auth info are all the same in both.
  pub affected_contexts_iff :
      (old new : Config t) (n : Text)
      → IsMap old.contexts
      → (mem n (affected_contexts t (some old) (some new)) ≡ false)
        ↔ ((lookup n old.contexts ≡ none) ⊎ (effective old n ≡ effective new n))
  unfolding affected_contexts
  affected_contexts_iff old new n h =
      let i = affected_at_iff old new n (lookup n old.contexts) in
      let e = mem-affected_of old new n old.contexts h in (λ a. i.0 (sym e ∙ a), λ a. e ∙ i.1 a)

module _ {t : ApiTypes} (go : ClientGo t) (load : Text → Result Text (Config t))
    (raw : Config t) where
  abbrev merged : ClientManager go → Config t
  merged cm = merge_dynamic raw cm.dynamic_config

  -- The tunnels that a response shuts down are those of the contexts that changed.
  abbrev pub Exact : Text → ClientManager go → ClientManager go × Response → Type 0
  Exact n cm r = (mem n r.1.shut_down ≡ false) ↔ (
      (lookup n (merge_dynamic raw cm.dynamic_config).contexts ≡ none)
      ⊎ (effective t (merge_dynamic raw cm.dynamic_config) n
          ≡ effective t (merge_dynamic raw r.0.dynamic_config) n))

  merged-IsMap : (o : Option (Config t)) → IsConfig raw → IsMap (merge_dynamic raw o).contexts
  unfolding merge_dynamic
  merged-IsMap none h = h.contexts
  merged-IsMap (some c) h = (merge_configs-IsConfig raw c true h).contexts

  finish-Exact :
      (n : Text) (cm : ClientManager go) (status : ManagerError → Status)
      (r : ClientManager go × Option ManagerError)
      → IsConfig raw
      → ((e : ManagerError) → status e ≢ no_content_204)
      → (finish go load true (ok raw) cm status r).1.status ≡ no_content_204
      → Exact n cm (finish go load true (ok raw) cm status r)
  unfolding finish merged_config
  finish-Exact n cm status (cm', some e) h ne s = absurd (ne e s)
  finish-Exact n cm status (cm', none) h ne s =
      affected_contexts_iff t (merged cm) (merged cm') n (merged-IsMap cm.dynamic_config h)

  with_body-Exact :
      (n : Text) (cm : ClientManager go) (p : Result (Unit {0}) (Config t))
      (f : Config t → ClientManager go × Response)
      → ((cfg : Config t) → (f cfg).1.status ≡ no_content_204 → Exact n cm (f cfg))
      → (with_body go load cm p f).1.status ≡ no_content_204
      → Exact n cm (with_body go load cm p f)
  unfolding with_body
  with_body-Exact n cm (err e) f h s = absurd (cc)
  with_body-Exact n cm (ok cfg) f h s = h cfg s

  error_status_ne : (e : ManagerError) → error_status go load e ≢ no_content_204
  unfolding error_status
  error_status_ne (load_error e) = λ s. cc
  error_status_ne (conflict_error ns) = λ s. cc

  bad_request_ne : (e : ManagerError) → bad_request_400 ≢ no_content_204
  bad_request_ne e = λ s. cc

  get_config_ne :
      (write : Config t → Result Text Text) (o : Option (Config t))
      → get_config go load write o ≢ no_content_204
  unfolding get_config
  get_config_ne write none = λ s. ground arith
  get_config_ne write (some c) = λ s. ground arith

  -- Where the file-based config loads and a ForwardManager is set, a PUT, POST, PATCH or DELETE
  -- that answers 204 shuts down the tunnels of exactly those contexts of the merged configuration
  -- whose entry, cluster or auth info is changed or gone after it.
  pub handle_with-Exact :
      (write : Config t → Result Text Text) (cm : ClientManager go) (req : Request) (n : Text)
      → IsConfig raw
      → (handle_with go load write true (ok raw) cm req).1.status ≡ no_content_204
      → Exact n cm (handle_with go load write true (ok raw) cm req)
  unfolding handle_with
  handle_with-Exact write cm get n h s = absurd (get_config_ne write cm.dynamic_config s)
  handle_with-Exact write cm other_method n h s = absurd (cc)
  handle_with-Exact write cm delete_request n h s =
      affected_contexts_iff t (merged cm) (merged (reset go (ok raw) none cm).0) n
        (merged-IsMap cm.dynamic_config h)
  handle_with-Exact write cm (put body) n h s =
      with_body-Exact n cm (parse_body go load body) _
        (λ cfg. finish-Exact n cm _ (reset go (ok raw) (some cfg) cm) h bad_request_ne) s
  handle_with-Exact write cm (post body) n h s =
      with_body-Exact n cm (parse_body go load body) _
        (λ cfg. finish-Exact n cm _ (add go (ok raw) cfg cm) h error_status_ne) s
  handle_with-Exact write cm (patch body) n h s =
      with_body-Exact n cm (parse_body go load body) _
        (λ cfg. finish-Exact n cm _ (merge_and_overwrite go (ok raw) cfg cm) h bad_request_ne) s
