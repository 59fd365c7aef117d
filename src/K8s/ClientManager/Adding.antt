-- ===== src/K8s/ClientManager/Adding.antt =====
-- internal/k8s/client_manager.go: which entries Add takes, and what a file's entries come to.
use kube_forwarding_proxy.Base.{
  ◌≡◌, ◌≢◌, refl, sym, ap, ◌∙◌, inl, inr, Bool, true, false, ◌&&◌, ◌||◌, none, some, List, [], ◌∷◌,
  ◌++◌, Text, text_eq, text_beq_iff, Dict, is_some, lookup, Result, ok, err, arith, or_else,
  Bool-cases, subst,
}
use kube_forwarding_proxy.K8s.Config.{ApiTypes, Context, Config, merge_configs}
use kube_forwarding_proxy.K8s.Config.Merge.{IsConfig, merge_configs_lem}
use kube_forwarding_proxy.K8s.ClientManager.{
  ClientGo, load_error, conflict_error, sort_strings, conflicts_of, cluster_prefix, context_prefix,
  user_prefix, add_by, conflicts, merge_dynamic, merged_config, ClientManager, rebuild, reset,
  add_to, add,
}

-- A name that both maps hold is reported.
conflicts_of_common :
    {V : Type 0} (prefix n : Text) (have given : Dict Text V)
    → is_some (lookup n have) ≡ true
    → is_some (lookup n given) ≡ true
    → conflicts_of prefix have given ≢ []
unfolding conflicts_of lookup
conflicts_of_common prefix n have [] h g = λ e. cc
conflicts_of_common prefix n have ((k, v) ∷ given) h g =
    ground (arith, text_beq_iff k n, conflicts_of_common prefix n have given h)

none_of_three :
    (a b c d e f : Bool)
    → (a && b) || ((c && d) || (e && f)) ≡ true
    → (a ≡ true → b ≡ true → ⊥)
    → (c ≡ true → d ≡ true → ⊥)
    → (e ≡ true → f ≡ true → ⊥)
    → ⊥
none_of_three true true c d e f o x y z = x refl refl
none_of_three a b true true e f o x y z = y refl refl
none_of_three a b c d true true o x y z = z refl refl
none_of_three a b c d e f o x y z = ground arith

append_nil_parts : (xs ys : List Text) → xs ++ ys ≡ [] → (xs ≡ []) × (ys ≡ [])
append_nil_parts [] ys e = (refl, e)
append_nil_parts (x ∷ xs) ys e = absurd (cc)

module _ {t : ApiTypes} where
  -- A name of a cluster, a context or an auth info that both configurations hold.
  abbrev pub overlaps : Config t → Config t → Text → Bool
  overlaps a b n =
      (is_some (lookup n a.clusters) && is_some (lookup n b.clusters))
      || ((is_some (lookup n a.contexts) && is_some (lookup n b.contexts))
          || (is_some (lookup n a.auth_infos) && is_some (lookup n b.auth_infos)))

  conflicts_overlap :
      (have cfg : Config t) (n : Text) → overlaps have cfg n ≡ true → conflicts have cfg ≢ []
  unfolding conflicts
  conflicts_overlap have cfg n o e =
      let cl = conflicts_of cluster_prefix have.clusters cfg.clusters in
      let cx = conflicts_of context_prefix have.contexts cfg.contexts in
      let us = conflicts_of user_prefix have.auth_infos cfg.auth_infos in
      let outer = append_nil_parts cl (cx ++ us) e in
      let inner = append_nil_parts cx us outer.1 in
      none_of_three _ _ _ _ _ _ o
        (λ h g. conflicts_of_common cluster_prefix n have.clusters cfg.clusters h g outer.0)
        (λ h g. conflicts_of_common context_prefix n have.contexts cfg.contexts h g inner.0)
        (λ h g. conflicts_of_common user_prefix n have.auth_infos cfg.auth_infos h g inner.1)

module _ {t : ApiTypes} (go : ClientGo t) where
  open go use {RestConfig, Clientset}

  add_to_found :
      (names : List Text) (file : Result Text (Config t)) (have cfg : Config t)
      (cm : ClientManager go)
      → names ≢ []
      → (ns : List Text) × (add_to go names file have cfg cm ≡ (cm, some (conflict_error ns)))
  unfolding add_to
  add_to_found [] file have cfg cm h = absurd (h refl)
  add_to_found (x ∷ xs) file have cfg cm h = (sort_strings (x ∷ xs), refl)

  -- Where the dynamic config already holds a cluster, a context or an auth info of a name that Add
  -- is given, Add reports a conflict, and changes nothing.
  pub add_conflict :
      (file : Result Text (Config t)) (have cfg : Config t) (cm : ClientManager go) (n : Text)
      → cm.dynamic_config ≡ some have
      → overlaps have cfg n ≡ true
      → (ns : List Text) × (add go file cfg cm ≡ (cm, some (conflict_error ns)))
  unfolding add add_by
  add_conflict file have cfg cm n d o =
      let (ns, e) =
        add_to_found (conflicts have cfg) file have cfg cm (conflicts_overlap have cfg n o) in
      (ns, ap (λ x. add_by go x file cfg cm) d ∙ e)

  add_to_kept :
      (names : List Text) (raw have cfg : Config t) (cm : ClientManager go)
      → (add_to go names (ok raw) have cfg cm).1 ≡ none
      → (names ≡ [])
        × ((add_to go names (ok raw) have cfg cm).0.dynamic_config
            ≡ some (merge_configs have cfg false))
  unfolding add_to rebuild merged_config
  add_to_kept [] raw have cfg cm h = (refl, refl)
  add_to_kept (x ∷ xs) raw have cfg cm h = absurd (cc)

  -- Add to a dynamic config, without an error and with a file-based config that loads: no name was
  -- in both, every entry that was there is still found, and every new one is.
  pub add_ok :
      (raw have cfg : Config t) (cm : ClientManager go) (n : Text)
      → IsConfig cfg
      → cm.dynamic_config ≡ some have
      → (add go (ok raw) cfg cm).1 ≡ none
      → (overlaps have cfg n ≡ false)
        × (dyn : Config t) × ((add go (ok raw) cfg cm).0.dynamic_config ≡ some dyn)
        × (lookup n dyn.clusters ≡ or_else (lookup n have.clusters) (lookup n cfg.clusters))
        × (lookup n dyn.contexts ≡ or_else (lookup n have.contexts) (lookup n cfg.contexts))
        × (lookup n dyn.auth_infos ≡ or_else (lookup n have.auth_infos) (lookup n cfg.auth_infos))
  unfolding add add_by
  add_ok raw have cfg cm n c d h =
      let step = ap (λ x. add_by go x (ok raw) cfg cm) d in
      let (nothing, kept) =
        add_to_kept (conflicts have cfg) raw have cfg cm (ap (λ r. r.1) (sym step) ∙ h) in
      let laws = merge_configs_lem have cfg false c in
      (
        elim (Bool-cases (overlaps have cfg n)) [
          | inl o ↦ absurd (conflicts_overlap have cfg n o nothing)
          | inr o ↦ o
        ],
        merge_configs have cfg false,
        ap (λ r. r.0.dynamic_config) step ∙ kept,
        laws.0 n,
        laws.1 n,
        laws.2 n,
      )

  -- Names that only the file holds are no conflict: Add to an empty dynamic config goes through
  -- whenever the file loads, and from then on its contexts are the ones that the merged
  -- configuration shows.
  pub add_shadows_file :
      (raw cfg : Config t) (cm : ClientManager go) (n : Text) (c : Context t.Extra)
      → IsConfig cfg
      → cm.dynamic_config ≡ none
      → lookup n cfg.contexts ≡ some c
      → let after = add go (ok raw) cfg cm in
        (after.1 ≡ none) × (lookup n (merge_dynamic raw after.0.dynamic_config).contexts ≡ some c)
  unfolding add add_by rebuild merged_config merge_dynamic
  add_shadows_file raw cfg cm n c h d e =
      subst
        (λ x.
          let after = add_by go x (ok raw) cfg cm in
          (after.1 ≡ none)
          × (lookup n (merge_dynamic raw after.0.dynamic_config).contexts ≡ some c))
        (sym d)
        (
          refl,
          (merge_configs_lem raw cfg true h).1 n ∙ ap (λ o. or_else o (lookup n raw.contexts)) e,
        )

  -- A Reset that fails because the file cannot be loaded has replaced the dynamic config all the
  -- same: once the file loads again, the contexts of the refused configuration are merged.
  pub reset_error_replaces :
      (raw cfg : Config t) (msg : Text) (cm : ClientManager go) (n : Text) (c : Context t.Extra)
      → IsConfig cfg
      → lookup n cfg.contexts ≡ some c
      → let after = reset go (err msg) (some cfg) cm in
        (after.1 ≡ some (load_error msg))
        × (lookup n (merge_dynamic raw after.0.dynamic_config).contexts ≡ some c)
  unfolding reset rebuild merged_config merge_dynamic
  reset_error_replaces raw cfg msg cm n c h e =
      (refl, (merge_configs_lem raw cfg true h).1 n ∙ ap (λ o. or_else o (lookup n raw.contexts)) e)
