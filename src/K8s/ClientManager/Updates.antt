-- ===== src/K8s/ClientManager/Updates.antt =====
-- internal/k8s/client_manager.go: the client table behind the three updates, and behind a failure.
use kube_forwarding_proxy.Base.{
  ◌≡◌, refl, true, false, Option, none, some, List, [], ◌∷◌, Text, text_eq, text_beq, text_beq_iff,
  Dict, keys, is_some, lookup, if◌then◌else◌, Result, ok, err, arith, or_else,
}
use kube_forwarding_proxy.K8s.Config.{ApiTypes, Config, merge_configs}
use kube_forwarding_proxy.K8s.ClientManager.{
  ClientGo, ContextClient, ManagerError, add_by, conflicts, merge_dynamic, merged_config,
  ClientManager, build_client, add_client, build_clients, rebuild, reset, add_to, add,
  dynamic_or_new, merge_and_overwrite, client_for_context,
}

pub data Update (t : ApiTypes) : Type 0 where
  resets : Option (Config t) → Update t
  adds : Config t → Update t
  overwrites : Config t → Update t

module _ {t : ApiTypes} (go : ClientGo t) where
  open go use {RestConfig, Clientset}

  abbrev pub update :
      Result Text (Config t) → Update t → ClientManager go → ClientManager go × Option ManagerError
  update file (resets c) cm = reset go file c cm
  update file (adds c) cm = add go file c cm
  update file (overwrites c) cm = merge_and_overwrite go file c cm

  lookup-add_client :
      (n k : Text) (o : Option (ContextClient RestConfig Clientset))
      (rest : Dict Text (ContextClient RestConfig Clientset))
      → lookup n (add_client go k o rest)
        ≡ or_else (if text_beq k n then o else none) (lookup n rest)
  unfolding add_client lookup
  lookup-add_client n k none rest = ground arith
  lookup-add_client n k (some c) rest = ground arith

  lookup-build_clients :
      {V : Type 0} (merged : Config t) (n : Text) (m : Dict Text V)
      → lookup n (build_clients go merged (keys m))
        ≡ (if is_some (lookup n m) then build_client go merged n else none)
  unfolding build_clients add_client lookup
  lookup-build_clients merged n [] = refl
  lookup-build_clients merged n ((k, v) ∷ m) = ground (
    arith,
    text_beq_iff k n,
    lookup-add_client n k (build_client go merged k) (build_clients go merged (keys m)),
    lookup-build_clients merged n m,
  )

  -- The table that rebuild makes: a client for each context of the merged configuration for which
  -- one can be built.
  pub record IsSynced (raw : Config t) (cm : ClientManager go) (n : Text) : Type 0 where
    pub clients : client_for_context go n cm ≡ (
        let merged = merge_dynamic raw cm.dynamic_config in
        if is_some (lookup n merged.contexts) then build_client go merged n else none)
    pub current : cm.current_ctx ≡ (merge_dynamic raw cm.dynamic_config).current_context

  rebuild-IsSynced :
      (raw : Config t) (cm : ClientManager go) (n : Text)
      → IsSynced raw (rebuild go (ok raw) cm).0 n
  unfolding rebuild client_for_context merged_config
  rebuild-IsSynced raw cm n = record {
    clients =
        lookup-build_clients (merge_dynamic raw cm.dynamic_config) n
          (merge_dynamic raw cm.dynamic_config).contexts;
    current = refl;
  }

  add_to-IsSynced :
      (names : List Text) (raw have cfg : Config t) (cm : ClientManager go) (n : Text)
      → (add_to go names (ok raw) have cfg cm).1 ≡ none
      → IsSynced raw (add_to go names (ok raw) have cfg cm).0 n
  unfolding add_to
  add_to-IsSynced [] raw have cfg cm n h =
      rebuild-IsSynced raw (record cm { dynamic_config = some (merge_configs have cfg false) }) n
  add_to-IsSynced (x ∷ xs) raw have cfg cm n h = absurd (cc)

  add_by-IsSynced :
      (dynamic : Option (Config t)) (raw cfg : Config t) (cm : ClientManager go) (n : Text)
      → (add_by go dynamic (ok raw) cfg cm).1 ≡ none
      → IsSynced raw (add_by go dynamic (ok raw) cfg cm).0 n
  unfolding add_by
  add_by-IsSynced none raw cfg cm n h =
      rebuild-IsSynced raw (record cm { dynamic_config = some cfg }) n
  add_by-IsSynced (some have) raw cfg cm n h =
      add_to-IsSynced (conflicts have cfg) raw have cfg cm n h

  -- After each update (Reset, Add or MergeAndOverwrite) that reports no error while the file-based
  -- config loads, the client of every name and the current context are those of the file's
  -- configuration merged with the new dynamic one: no stale client is left, and none is missing.
  pub update-IsSynced :
      (raw : Config t) (u : Update t) (cm : ClientManager go) (n : Text)
      → (update (ok raw) u cm).1 ≡ none
      → IsSynced raw (update (ok raw) u cm).0 n
  unfolding reset add add_to merge_and_overwrite
  update-IsSynced raw (resets c) cm n h = rebuild-IsSynced raw (record cm { dynamic_config = c }) n
  update-IsSynced raw (overwrites c) cm n h =
      rebuild-IsSynced raw
        (record cm {
          dynamic_config = some (merge_configs (dynamic_or_new go cm.dynamic_config) c true);
        })
        n
  update-IsSynced raw (adds c) cm n h = add_by-IsSynced cm.dynamic_config raw c cm n h

  -- What a failed update leaves alone.
  abbrev pub SameClients : ClientManager go → ClientManager go → Type 0
  SameClients a b = (b.clients ≡ a.clients) × (b.current_ctx ≡ a.current_ctx)

  rebuild_failed :
      (file : Result Text (Config t)) (cm : ClientManager go) (e : ManagerError)
      → (rebuild go file cm).1 ≡ some e
      → SameClients cm (rebuild go file cm).0
  unfolding rebuild merged_config
  rebuild_failed (err msg) cm e h = (refl, refl)
  rebuild_failed (ok raw) cm e h = absurd (cc)

  add_by_failed :
      (dynamic : Option (Config t)) (file : Result Text (Config t)) (cfg : Config t)
      (cm : ClientManager go) (e : ManagerError)
      → (add_by go dynamic file cfg cm).1 ≡ some e
      → SameClients cm (add_by go dynamic file cfg cm).0
  unfolding add_by
  add_by_failed none file cfg cm e h =
      rebuild_failed file (record cm { dynamic_config = some cfg }) e h
  add_by_failed (some have) file cfg cm e h = go_on (conflicts have cfg) h
    where
      go_on :
          (names : List Text)
          → (add_to go names file have cfg cm).1 ≡ some e
          → SameClients cm (add_to go names file have cfg cm).0
      go_on [] h' =
          rebuild_failed file (record cm { dynamic_config = some (merge_configs have cfg false) }) e
            h'
      go_on (x ∷ xs) h' = (refl, refl)

  -- An update that fails, for a conflict or because the file cannot be loaded, leaves every client
  -- and the current context as they were.
  pub update_failed :
      (file : Result Text (Config t)) (u : Update t) (cm : ClientManager go) (e : ManagerError)
      → (update file u cm).1 ≡ some e
      → SameClients cm (update file u cm).0
  unfolding reset add merge_and_overwrite
  update_failed file (resets c) cm e h = rebuild_failed file (record cm { dynamic_config = c }) e h
  update_failed file (adds c) cm e h = add_by_failed cm.dynamic_config file c cm e h
  update_failed file (overwrites c) cm e h =
      rebuild_failed file
        (record cm {
          dynamic_config = some (merge_configs (dynamic_or_new go cm.dynamic_config) c true);
        })
        e h
