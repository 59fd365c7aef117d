-- ===== src/Examples/Configs.antt =====
-- internal/k8s/client_manager.go and kubeconfig.go at concrete configurations. A cluster, an auth
-- info and the rest of a context are numbers here; a client is its context's name.
use kube_forwarding_proxy.Base.{
  ℕ, ◌≡◌, refl, true, false, none, some, List, [], ◌∷◌, Text, text_eq, nat_eq, lookup, text_beq,
  Result, ok, err,
}
use kube_forwarding_proxy.K8s.Config.{ApiTypes, Config, merge_configs}
use kube_forwarding_proxy.K8s.Config.Merge.{IsConfig, merge_configs_lem}
use kube_forwarding_proxy.K8s.ClientManager.{
  ClientGo, ClientManager, load_error, conflict_error, merge_and_overwrite, reset, add,
}
use kube_forwarding_proxy.K8s.ClientManager.Updates.{
  adds, resets, update, IsSynced, update-IsSynced, SameClients, update_failed,
}
use kube_forwarding_proxy.K8s.ClientManager.Adding.{
  add_conflict, add_ok, add_shadows_file, reset_error_replaces, overlaps,
}
use kube_forwarding_proxy.K8s.Kubeconfig.{no_content_204, patch, handle_with}
use kube_forwarding_proxy.K8s.Kubeconfig.Laws.{Exact, handle_with-Exact}

abbrev types : ApiTypes
types = record {
  Cluster = ℕ;
  AuthInfo = ℕ;
  Extra = ℕ;
  cluster_eq = nat_eq;
  auth_eq = nat_eq;
  extra_eq = nat_eq;
}

abbrev go : ClientGo types
go = record {
  RestConfig = Text;
  Clientset = Text;
  client_config = λ c name. ok name;
  new_for_config = λ rest. ok rest;
}

abbrev dev : Text
dev = b'd' ∷ b'e' ∷ b'v' ∷ []

abbrev prod : Text
prod = b'p' ∷ b'r' ∷ b'o' ∷ b'd' ∷ []

-- A configuration of one context, with its cluster and its auth info under the same name.
abbrev config_of : Text → ℕ → Config types
config_of name n = record {
  clusters = (name, n) ∷ [];
  contexts = (name, record { cluster = name; auth_info = name; extra = 0 }) ∷ [];
  auth_infos = (name, n) ∷ [];
  current_context = name;
}

config_of-IsConfig : (name : Text) (n : ℕ) → IsConfig (config_of name n)
unfolding lookup text_beq
config_of-IsConfig name n = record {
  clusters = (refl, tt);
  contexts = (refl, tt);
  auth_infos = (refl, tt);
}

-- The file has `dev`, and nothing is dynamic.
abbrev file_only : ClientManager go
file_only = record {
  dynamic_config = none;
  clients = (dev, record { clientset = dev; rest_config = dev }) ∷ [];
  current_ctx = dev;
}

-- `prod` has been added.
abbrev with_prod : ClientManager go
with_prod = record {
  dynamic_config = some (config_of prod 1);
  clients =
      (dev, record { clientset = dev; rest_config = dev })
      ∷ (prod, record { clientset = prod; rest_config = prod })
      ∷ [];
  current_ctx = prod;
}

adds_dev : (add go (ok (config_of dev 1)) (config_of dev 2) with_prod).1 ≡ none
unfolding add lookup text_beq
adds_dev = refl

resets_fails : (update go (err dev) (resets none) with_prod).1 ≡ some (load_error dev)
unfolding reset
resets_fails = refl

both_have_prod : overlaps (config_of prod 1) (config_of prod 2) prod ≡ true
unfolding lookup text_beq
both_have_prod = refl

has_dev :
    (n : ℕ)
    → lookup dev (config_of dev n).contexts
      ≡ some (record { cluster = dev; auth_info = dev; extra = 0 })
unfolding lookup text_beq
has_dev n = refl

merge_configs_lem_example :
    lookup dev (merge_configs (config_of dev 1) (config_of dev 2) true).clusters ≡ some 2
unfolding lookup text_beq
merge_configs_lem_example =
    (merge_configs_lem (config_of dev 1) (config_of dev 2) true (config_of-IsConfig dev 2)).0 dev

update-IsSynced_example :
    IsSynced go
      (config_of dev 1)
      (update go (ok (config_of dev 1)) (adds (config_of dev 2)) with_prod).0
      prod
update-IsSynced_example =
    update-IsSynced go (config_of dev 1) (adds (config_of dev 2)) with_prod prod adds_dev

update_failed_example : SameClients go with_prod (update go (err dev) (resets none) with_prod).0
update_failed_example =
    update_failed go (err dev) (resets none) with_prod (load_error dev) resets_fails

add_conflict_example :
    (ns : List Text) × (add go (ok (config_of dev 1)) (config_of prod 2) with_prod
      ≡ (with_prod, some (conflict_error ns)))
add_conflict_example =
    add_conflict go (ok (config_of dev 1)) (config_of prod 1) (config_of prod 2) with_prod prod refl
      both_have_prod

add_ok_example : overlaps (config_of prod 1) (config_of dev 2) dev ≡ false
add_ok_example =
    (add_ok go (config_of dev 1) (config_of prod 1) (config_of dev 2) with_prod dev
      (config_of-IsConfig dev 2) refl adds_dev).0

add_shadows_file_example : (add go (ok (config_of dev 1)) (config_of dev 2) file_only).1 ≡ none
add_shadows_file_example =
    (add_shadows_file go (config_of dev 1) (config_of dev 2) file_only dev
      (record { cluster = dev; auth_info = dev; extra = 0 }) (config_of-IsConfig dev 2) refl
      (has_dev 2)).0

reset_error_replaces_example :
    (reset go (err prod) (some (config_of dev 2)) file_only).1 ≡ some (load_error prod)
reset_error_replaces_example =
    (reset_error_replaces go (config_of dev 1) (config_of dev 2) prod file_only dev
      (record { cluster = dev; auth_info = dev; extra = 0 }) (config_of-IsConfig dev 2)
      (has_dev 2)).0

-- A body that is one byte names the configuration of `dev` with that number.
abbrev load : Text → Result Text (Config types)
load (n ∷ []) = ok (config_of dev n)
load _ = err []

patches_dev :
    (handle_with go load
      (λ c. ok [])
      true
      (ok (config_of dev 1))
      with_prod
      (patch (ok (65 ∷ [])))).1.status
    ≡ no_content_204
unfolding handle_with merge_and_overwrite
patches_dev = refl

handle_with-Exact_example :
    Exact go load (config_of dev 1) dev with_prod (
      handle_with go load (λ c. ok []) true (ok (config_of dev 1)) with_prod (patch (ok (65 ∷ []))))
handle_with-Exact_example =
    handle_with-Exact go load (config_of dev 1) (λ c. ok []) with_prod (patch (ok (65 ∷ []))) dev
      (config_of-IsConfig dev 1) patches_dev
