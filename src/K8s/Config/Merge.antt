-- ===== src/K8s/Config/Merge.antt =====
-- internal/k8s/client_manager.go: what mergeConfigs leaves under each name.
use kube_forwarding_proxy.Base.{
  ◌≡◌, refl, Bool, true, false, not, ◌||◌, Option, [], ◌∷◌, Text, text_eq, text_beq_iff, Dict,
  is_some, lookup, insert, lookup-insert, insert-IsMap, or_else, IsMap, arith, Bool-cases, inl, inr,
}
use kube_forwarding_proxy.K8s.Config.{ApiTypes, Config, merge_entries, merge_configs}

-- The source's value wins when it may overwrite, and the destination's otherwise.
abbrev pub merged_value {ℓ} : {A : Type ℓ} → Bool → Option A → Option A → Option A
merged_value true dst src = or_else src dst
merged_value false dst src = or_else dst src

pub lookup-merge_entries :
    {V : Type 0} (overwrite : Bool) (name : Text) (dst src : Dict Text V)
    → IsMap src
    → lookup name (merge_entries overwrite dst src)
      ≡ merged_value overwrite (lookup name dst) (lookup name src)
unfolding merge_entries lookup
lookup-merge_entries true name dst [] h = refl
lookup-merge_entries false name dst [] h = ground arith
lookup-merge_entries true name dst ((k, v) ∷ src) h = ground (
  arith,
  lookup-merge_entries true name (insert k v dst) src h.1,
  lookup-merge_entries true name dst src h.1,
  lookup-insert name k v dst,
  text_beq_iff k name,
)
lookup-merge_entries false name dst ((k, v) ∷ src) h = ground (
  arith,
  lookup-merge_entries false name (insert k v dst) src h.1,
  lookup-merge_entries false name dst src h.1,
  lookup-insert name k v dst,
  text_beq_iff k name,
)

pub merge_entries-IsMap :
    {V : Type 0} (overwrite : Bool) (dst src : Dict Text V)
    → IsMap dst
    → IsMap (merge_entries overwrite dst src)
unfolding merge_entries
merge_entries-IsMap overwrite dst [] h = h
merge_entries-IsMap overwrite dst ((k, v) ∷ src) h =
    elim (Bool-cases (not (is_some (lookup k dst)) || overwrite)) [
      | inl put ↦
          rw put (merge_entries-IsMap overwrite (insert k v dst) src (insert-IsMap k v dst h))
      | inr kept ↦ rw kept (merge_entries-IsMap overwrite dst src h)
    ]

-- The three maps of a configuration are Go maps.
pub record IsConfig {t : ApiTypes} (c : Config t) : Type 0 where
  pub clusters : IsMap c.clusters
  pub contexts : IsMap c.contexts
  pub auth_infos : IsMap c.auth_infos

-- mergeConfigs, name by name, for a source whose maps have one entry for a key: with `overwrite`
-- the source's entry is found under each of its names, without it the destination's; every other
-- name keeps what either side has. That holds of the clusters, the contexts and the auth infos.
pub merge_configs_lem :
    {t : ApiTypes} (dst src : Config t) (overwrite : Bool)
    → IsConfig src
    → let c = merge_configs dst src overwrite in
      ((n : Text)
        → lookup n c.clusters
          ≡ merged_value overwrite (lookup n dst.clusters) (lookup n src.clusters))
      × ((n : Text)
          → lookup n c.contexts
            ≡ merged_value overwrite (lookup n dst.contexts) (lookup n src.contexts))
      × ((n : Text)
          → lookup n c.auth_infos
            ≡ merged_value overwrite (lookup n dst.auth_infos) (lookup n src.auth_infos))
unfolding merge_configs
merge_configs_lem dst src overwrite h = (
  λ n. lookup-merge_entries overwrite n dst.clusters src.clusters h.clusters,
  λ n. lookup-merge_entries overwrite n dst.contexts src.contexts h.contexts,
  λ n. lookup-merge_entries overwrite n dst.auth_infos src.auth_infos h.auth_infos,
)

pub merge_configs-IsConfig :
    {t : ApiTypes} (dst src : Config t) (overwrite : Bool)
    → IsConfig dst
    → IsConfig (merge_configs dst src overwrite)
unfolding merge_configs
merge_configs-IsConfig dst src overwrite h = record {
  clusters = merge_entries-IsMap overwrite dst.clusters src.clusters h.clusters;
  contexts = merge_entries-IsMap overwrite dst.contexts src.contexts h.contexts;
  auth_infos = merge_entries-IsMap overwrite dst.auth_infos src.auth_infos h.auth_infos;
}
