-- ===== src/K8s/ClientManager.antt =====
-- internal/k8s/client_manager.go. The lock makes each method one step. What the file system holds
-- at the moment of a call (`RawConfig`) is an argument of the call; the construction of a client
-- is client-go's and a parameter.
pub mod Updates
pub mod Adding
pub mod Contexts
use kube_forwarding_proxy.Base.{
  ℕ, ◌≡◌, Bool, true, false, ◌&&◌, ◌||◌, Option, none, some, List, [], ◌∷◌, ◌++◌, map, Text,
  text_eq, Dict, keys, is_some, lookup, if◌then◌else◌, ltb, nat_beq, Result, ok, err,
}
use kube_forwarding_proxy.K8s.Config.{ApiTypes, Config, new_config, merge_configs}

-- client-go: from a configuration and a context's name to a client, or an error.
pub record ClientGo (t : ApiTypes) : Type 1 where
  pub RestConfig : Type 0
  pub Clientset : Type 0
  pub client_config : Config t → Text → Result Text RestConfig
  pub new_for_config : RestConfig → Result Text Clientset

-- contextClient.
pub record ContextClient (R C : Type 0) : Type 0 where
  pub clientset : C
  pub rest_config : R

pub data ManagerError : Type 0 where
  load_error : Text → ManagerError
  conflict_error : List Text → ManagerError

-- sort.Strings: the order of bytes.
unfoldable pub text_leb : Text → Text → Bool
text_leb [] t = true
text_leb (c ∷ s) [] = false
text_leb (c ∷ s) (d ∷ t) = ltb c d || (nat_beq c d && text_leb s t)

unfoldable pub insert_sorted : Text → List Text → List Text
unfolding text_leb
insert_sorted s [] = s ∷ []
insert_sorted s (t ∷ ts) = if text_leb s t then s ∷ t ∷ ts else t ∷ insert_sorted s ts

unfoldable pub sort_strings : List Text → List Text
unfolding insert_sorted
sort_strings [] = []
sort_strings (s ∷ ss) = insert_sorted s (sort_strings ss)

-- The names that both maps hold, behind a prefix.
unfoldable pub conflicts_of : {V : Type 0} → Text → Dict Text V → Dict Text V → List Text
conflicts_of prefix have [] = []
conflicts_of prefix have ((name, v) ∷ given) =
    let rest = conflicts_of prefix have given in
    if is_some (lookup name have) then (prefix ++ name) ∷ rest else rest

abbrev pub cluster_prefix : Text
cluster_prefix = b'c' ∷ b'l' ∷ b'u' ∷ b's' ∷ b't' ∷ b'e' ∷ b'r' ∷ b':' ∷ []

abbrev pub context_prefix : Text
context_prefix = b'c' ∷ b'o' ∷ b'n' ∷ b't' ∷ b'e' ∷ b'x' ∷ b't' ∷ b':' ∷ []

abbrev pub user_prefix : Text
user_prefix = b'u' ∷ b's' ∷ b'e' ∷ b'r' ∷ b':' ∷ []

module _ {t : ApiTypes} where
  -- The three loops of Add, before the names are sorted.
  unfoldable pub conflicts : Config t → Config t → List Text
  unfolding conflicts_of
  conflicts have given =
      conflicts_of cluster_prefix have.clusters given.clusters
      ++ (conflicts_of context_prefix have.contexts given.contexts
          ++ conflicts_of user_prefix have.auth_infos given.auth_infos)

  -- mergedConfig: the file's configuration under the dynamic one.
  unfoldable pub merge_dynamic : Config t → Option (Config t) → Config t
  unfolding merge_configs
  merge_dynamic raw none = raw
  merge_dynamic raw (some dynamic) = merge_configs raw dynamic true

  unfoldable pub merged_config :
      Result Text (Config t) → Option (Config t) → Result ManagerError (Config t)
  unfolding merge_dynamic
  merged_config (err e) dynamic = err (load_error e)
  merged_config (ok raw) dynamic = ok (merge_dynamic raw dynamic)

module _ {t : ApiTypes} (go : ClientGo t) where
  open go use {RestConfig, Clientset, client_config, new_for_config}

  pub record ClientManager : Type 0 where
    pub dynamic_config : Option (Config t)
    pub clients : Dict Text (ContextClient RestConfig Clientset)
    pub current_ctx : Text

  -- One context of rebuild: `none` is a context that is skipped with a warning.
  unfoldable pub build_client : Config t → Text → Option (ContextClient RestConfig Clientset)
  build_client merged name = elim (client_config merged name) [
    | err e ↦ none
    | ok rest_config ↦ elim (new_for_config rest_config) [
      | err e ↦ none
      | ok cs ↦ some (record { clientset = cs; rest_config = rest_config })
    ]
  ]

  unfoldable pub add_client :
      Text
      → Option (ContextClient RestConfig Clientset)
      → Dict Text (ContextClient RestConfig Clientset)
      → Dict Text (ContextClient RestConfig Clientset)
  add_client name none clients = clients
  add_client name (some c) clients = (name, c) ∷ clients

  unfoldable pub build_clients :
      Config t → List Text → Dict Text (ContextClient RestConfig Clientset)
  unfolding build_client add_client
  build_clients merged [] = []
  build_clients merged (name ∷ names) =
      add_client name (build_client merged name) (build_clients merged names)

  -- Where loading fails nothing is rebuilt.
  unfoldable pub rebuild :
      Result Text (Config t) → ClientManager → ClientManager × Option ManagerError
  unfolding merged_config build_clients
  rebuild file cm = elim (merged_config file cm.dynamic_config) [
    | err e ↦ (cm, some e)
    | ok merged ↦ (
      record cm {
        clients = build_clients merged (keys merged.contexts);
        current_ctx = merged.current_context;
      },
      none,
    )
  ]

  unfoldable pub new_client_manager : Result Text (Config t) → ClientManager × Option ManagerError
  unfolding rebuild
  new_client_manager file =
      rebuild file (record { dynamic_config = none; clients = []; current_ctx = [] })

  unfoldable pub reset :
      Result Text (Config t)
      → Option (Config t)
      → ClientManager
      → ClientManager × Option ManagerError
  unfolding rebuild
  reset file cfg cm = rebuild file (record cm { dynamic_config = cfg })

  -- Add to the dynamic config `have`, with the conflicts that were found.
  unfoldable pub add_to :
      List Text
      → Result Text (Config t)
      → Config t
      → Config t
      → ClientManager
      → ClientManager × Option ManagerError
  unfolding rebuild sort_strings
  add_to [] file have cfg cm =
      rebuild file (record cm { dynamic_config = some (merge_configs have cfg false) })
  add_to (name ∷ names) file have cfg cm = (cm, some (conflict_error (sort_strings (name ∷ names))))

  unfoldable pub add_by :
      Option (Config t)
      → Result Text (Config t)
      → Config t
      → ClientManager
      → ClientManager × Option ManagerError
  unfolding rebuild add_to conflicts
  add_by none file cfg cm = rebuild file (record cm { dynamic_config = some cfg })
  add_by (some have) file cfg cm = add_to (conflicts have cfg) file have cfg cm

  unfoldable pub add :
      Result Text (Config t) → Config t → ClientManager → ClientManager × Option ManagerError
  unfolding add_by
  add file cfg cm = add_by cm.dynamic_config file cfg cm

  unfoldable pub dynamic_or_new : Option (Config t) → Config t
  unfolding new_config
  dynamic_or_new none = new_config t
  dynamic_or_new (some c) = c

  unfoldable pub merge_and_overwrite :
      Result Text (Config t) → Config t → ClientManager → ClientManager × Option ManagerError
  unfolding rebuild dynamic_or_new
  merge_and_overwrite file cfg cm = rebuild file (record cm {
    dynamic_config = some (merge_configs (dynamic_or_new cm.dynamic_config) cfg true);
  })

  unfoldable pub client_for_context :
      Text → ClientManager → Option (ContextClient RestConfig Clientset)
  client_for_context name cm = lookup name cm.clients

  unfoldable pub all_context_names : ClientManager → List Text
  unfolding sort_strings
  all_context_names cm = sort_strings (keys cm.clients)
