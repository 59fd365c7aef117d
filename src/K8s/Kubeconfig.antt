-- ===== src/K8s/Kubeconfig.antt =====
-- internal/k8s/kubeconfig.go: the /kubeconfig endpoint. Loading and writing YAML is client-go's and
-- a parameter; the contexts whose tunnels a request shuts down are part of the response, in order.
pub mod Laws
use kube_forwarding_proxy.Base.{
  ℕ, Bool, true, false, not, ◌&&◌, ◌||◌, Option, none, some, List, [], ◌∷◌, Text, Eq, text_eq,
  text_beq, Dict, lookup, if◌then◌else◌, ltb, leb, nat_beq, Result, ok, err,
}
use kube_forwarding_proxy.K8s.Config.{ApiTypes, Context, Config, new_config}
use kube_forwarding_proxy.K8s.ClientManager.{
  ClientGo, ClientManager, ManagerError, load_error, conflict_error, merged_config, reset, add,
  merge_and_overwrite,
}

-- The methods of a request, with what reading its body gives.
pub data Request : Type 0 where
  get : Request
  put post patch : Result Text Text → Request
  delete_request : Request
  other_method : Request

pub data Status : Type 0 where
  ok_200 no_content_204 bad_request_400 not_allowed_405 conflict_409 : Status
  internal_error_500 not_implemented_501 : Status

pub record Response : Type 0 where
  pub status : Status
  pub shut_down : List Text

-- reflect.DeepEqual of two pointers: both nil, or equal values.
unfoldable pub option_beq : {A : Type 0} → (A → A → Bool) → Option A → Option A → Bool
option_beq eq none none = true
option_beq eq none (some b) = false
option_beq eq (some a) none = false
option_beq eq (some a) (some b) = eq a b

-- bytes.TrimSpace leaves nothing. (Of its non-ASCII spaces no configuration is made either.)
unfoldable pub is_space : ℕ → Bool
is_space c = (leb 9 c && leb c 13) || nat_beq c 32

unfoldable pub is_blank : Text → Bool
unfolding is_space
is_blank [] = true
is_blank (c ∷ s) = is_space c && is_blank s

module _ (t : ApiTypes) where
  open t use {cluster_eq, auth_eq, extra_eq}

  unfoldable pub context_beq : Context t.Extra → Context t.Extra → Bool
  context_beq a b =
      text_beq a.cluster b.cluster
      && (text_beq a.auth_info b.auth_info && extra_eq.beq a.extra b.extra)

  -- The body of affectedContexts' loop, for a context and what the new configuration has for it.
  unfoldable pub is_affected :
      Config t → Config t → Context t.Extra → Option (Context t.Extra) → Bool
  unfolding context_beq option_beq
  is_affected old_cfg new_cfg old_ctx none = true
  is_affected old_cfg new_cfg old_ctx (some new_ctx) =
      if not (context_beq old_ctx new_ctx)
      then true
      else if not (
          option_beq cluster_eq.beq (lookup old_ctx.cluster old_cfg.clusters)
            (lookup new_ctx.cluster new_cfg.clusters))
      then true
      else not (
          option_beq auth_eq.beq (lookup old_ctx.auth_info old_cfg.auth_infos)
            (lookup new_ctx.auth_info new_cfg.auth_infos))

  -- `none` is a newCfg that is nil.
  unfoldable pub is_affected_by : Config t → Option (Config t) → Text → Context t.Extra → Bool
  unfolding is_affected
  is_affected_by old_cfg none name old_ctx = true
  is_affected_by old_cfg (some new_cfg) name old_ctx =
      is_affected old_cfg new_cfg old_ctx (lookup name new_cfg.contexts)

  unfoldable pub affected_of :
      Config t → Option (Config t) → Dict Text (Context t.Extra) → List Text
  unfolding is_affected_by
  affected_of old_cfg new_cfg [] = []
  affected_of old_cfg new_cfg ((name, old_ctx) ∷ rest) =
      let names = affected_of old_cfg new_cfg rest in
      if is_affected_by old_cfg new_cfg name old_ctx then name ∷ names else names

  unfoldable pub affected_contexts : Option (Config t) → Option (Config t) → List Text
  unfolding affected_of
  affected_contexts none new_cfg = []
  affected_contexts (some old_cfg) new_cfg = affected_of old_cfg new_cfg old_cfg.contexts

module _ {t : ApiTypes} (go : ClientGo t) (load : Text → Result Text (Config t)) where
  -- parseAndValidate.
  unfoldable pub parse_and_validate : Text → Result (Unit {0}) (Config t)
  unfolding is_blank
  parse_and_validate raw =
      if is_blank raw then err tt else elim (load raw) [ err e ↦ err tt | ok cfg ↦ ok cfg ]

  -- The body of a request, read and parsed.
  unfoldable pub parse_body : Result Text Text → Result (Unit {0}) (Config t)
  unfolding parse_and_validate
  parse_body (err e) = err tt
  parse_body (ok raw) = parse_and_validate raw

  -- cm.MergedConfig(), whose error the handler drops.
  unfoldable pub merged_or_nil : Result Text (Config t) → ClientManager go → Option (Config t)
  unfolding merged_config
  merged_or_nil file cm = elim (merged_config file cm.dynamic_config) [
    | err e ↦ none
    | ok merged ↦ some merged
  ]

  -- shutdownTunnelsForContexts: nothing where no ForwardManager is configured.
  unfoldable pub tunnels : Bool → List Text → List Text
  tunnels true names = names
  tunnels false names = []

  -- The status of a failed update.
  unfoldable pub error_status : ManagerError → Status
  error_status (load_error e) = bad_request_400
  error_status (conflict_error names) = conflict_409

  -- An update was made: the affected contexts' tunnels are shut down, or the error is reported.
  unfoldable pub finish :
      Bool
      → Result Text (Config t)
      → ClientManager go
      → (ManagerError → Status)
      → ClientManager go × Option ManagerError
      → ClientManager go × Response
  unfolding merged_or_nil tunnels affected_contexts
  finish has_fm file cm status (cm', some e) = (cm', record { status = status e; shut_down = [] })
  finish has_fm file cm status (cm', none) = (
    cm',
    record {
      status = no_content_204;
      shut_down =
          tunnels has_fm (affected_contexts t (merged_or_nil file cm) (merged_or_nil file cm'));
    },
  )

  -- With the parsed body, if it is one.
  unfoldable pub with_body :
      ClientManager go
      → Result (Unit {0}) (Config t)
      → (Config t → ClientManager go × Response)
      → ClientManager go × Response
  with_body cm (err e) f = (cm, record { status = bad_request_400; shut_down = [] })
  with_body cm (ok cfg) f = f cfg

  -- clientcmd.Write of the dynamic config, or of EmptyConfig.
  unfoldable pub get_config : (Config t → Result Text Text) → Option (Config t) → Status
  unfolding new_config
  get_config write none = elim (write (new_config t)) [ err e ↦ internal_error_500 | ok s ↦ ok_200 ]
  get_config write (some c) = elim (write c) [ err e ↦ internal_error_500 | ok s ↦ ok_200 ]

  -- `file` is what the loader finds while the request is served. The handler's locked sections (the
  -- merged config before, the update, the merged config behind it) follow each other with nothing of
  -- another request between them.
  unfoldable pub handle_with :
      (Config t → Result Text Text)
      → Bool
      → Result Text (Config t)
      → ClientManager go
      → Request
      → ClientManager go × Response
  unfolding parse_body finish with_body error_status get_config
  handle_with write has_fm file cm get =
      (cm, record { status = get_config write cm.dynamic_config; shut_down = [] })
  handle_with write has_fm file cm (put body) =
      with_body cm (parse_body body)
        (λ cfg. finish has_fm file cm (λ e. bad_request_400) (reset go file (some cfg) cm))
  handle_with write has_fm file cm (post body) =
      with_body cm (parse_body body)
        (λ cfg. finish has_fm file cm error_status (add go file cfg cm))
  handle_with write has_fm file cm (patch body) =
      with_body cm (parse_body body)
        (λ cfg. finish has_fm file cm (λ e. bad_request_400) (merge_and_overwrite go file cfg cm))
  handle_with write has_fm file cm delete_request =
      let (cm', e) = reset go file none cm in
      finish has_fm file cm (λ x. no_content_204) (cm', none)
  handle_with write has_fm file cm other_method =
      (cm, record { status = not_allowed_405; shut_down = [] })

  -- handleKubeconfig: 501 until SetManagers has set a client manager.
  unfoldable pub handle_kubeconfig :
      (Config t → Result Text Text)
      → Bool
      → Result Text (Config t)
      → Option (ClientManager go)
      → Request
      → Option (ClientManager go) × Response
  unfolding handle_with
  handle_kubeconfig write has_fm file none req =
      (none, record { status = not_implemented_501; shut_down = [] })
  handle_kubeconfig write has_fm file (some cm) req =
      let (cm', r) = handle_with write has_fm file cm req in (some cm', r)

  -- The handler with its two managers; of the forward manager it is known whether it is there.
  pub record KubeconfigHandler : Type 0 where
    pub client_manager : Option (ClientManager go)
    pub has_forward_manager : Bool

  -- SetManagers, which is given two managers.
  unfoldable pub set_managers : ClientManager go → KubeconfigHandler → KubeconfigHandler
  set_managers cm h = record { client_manager = some cm; has_forward_manager = true }

  unfoldable pub serve_kubeconfig :
      (Config t → Result Text Text)
      → Result Text (Config t)
      → KubeconfigHandler
      → Request
      → KubeconfigHandler × Response
  unfolding handle_kubeconfig
  serve_kubeconfig write file h req =
      let (cm, r) = handle_kubeconfig write h.has_forward_manager file h.client_manager req in
      (record h { client_manager = cm }, r)
