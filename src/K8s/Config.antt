-- ===== src/K8s/Config.antt =====
-- client-go's api.Config as internal/k8s uses it, and `mergeConfigs` of client_manager.go.
pub mod Merge
use kube_forwarding_proxy.Base.{
  ℕ, ◌≡◌, ◌↔◌, Bool, true, false, not, ◌&&◌, ◌||◌, Option, none, some, List, [], ◌∷◌, Text, Eq,
  ◌==◌, text_eq, text_beq, Dict, is_some, lookup, insert, if◌then◌else◌, or_else, arith,
}

-- The structs of client-go whose fields the program does not read, with reflect.DeepEqual.
pub record ApiTypes : Type 1 where
  pub Cluster : Type 0
  pub AuthInfo : Type 0
  pub Extra : Type 0
  pub cluster_eq : Eq Cluster
  pub auth_eq : Eq AuthInfo
  pub extra_eq : Eq Extra

-- A context names its cluster and its auth info; the rest is opaque.
pub record Context (X : Type 0) : Type 0 where
  pub cluster : Text
  pub auth_info : Text
  pub extra : X

pub record Config (t : ApiTypes) : Type 0 where
  pub clusters : Dict Text t.Cluster
  pub contexts : Dict Text (Context t.Extra)
  pub auth_infos : Dict Text t.AuthInfo
  pub current_context : Text

-- clientcmdapi.NewConfig().
unfoldable pub new_config : (t : ApiTypes) → Config t
new_config t = record { clusters = []; contexts = []; auth_infos = []; current_context = [] }

-- One of the three loops of mergeConfigs; the values are copied.
unfoldable pub merge_entries : {V : Type 0} → Bool → Dict Text V → Dict Text V → Dict Text V
merge_entries overwrite dst [] = dst
merge_entries overwrite dst ((name, v) ∷ src) =
    merge_entries overwrite
      (if not (is_some (lookup name dst)) || overwrite then insert name v dst else dst) src

unfoldable pub merge_configs : {t : ApiTypes} → Config t → Config t → Bool → Config t
unfolding merge_entries
merge_configs dst src overwrite = record {
  clusters = merge_entries overwrite dst.clusters src.clusters;
  contexts = merge_entries overwrite dst.contexts src.contexts;
  auth_infos = merge_entries overwrite dst.auth_infos src.auth_infos;
  current_context =
      if not (text_beq src.current_context []) && (overwrite || text_beq dst.current_context [])
      then src.current_context
      else dst.current_context;
}
