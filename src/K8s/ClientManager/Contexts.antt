-- ===== src/K8s/ClientManager/Contexts.antt =====
-- internal/k8s/client_manager.go: AllContextNames.
use kube_forwarding_proxy.Base.{
  ◌≡◌, refl, Bool, true, false, ◌||◌, List, [], ◌∷◌, Text, text_eq, text_beq, Dict, keys, is_some,
  lookup, arith,
}
use kube_forwarding_proxy.K8s.Config.{ApiTypes}
use kube_forwarding_proxy.K8s.ClientManager.{
  ClientGo, ClientManager, text_leb, insert_sorted, sort_strings, client_for_context,
  all_context_names,
}

-- Whether a name is in a list.
abbrev pub mem : Text → List Text → Bool
mem n [] = false
mem n (s ∷ ss) = text_beq s n || mem n ss

-- No text stands before a smaller one.
abbrev pub IsSorted : List Text → Type 0
IsSorted [] = Unit
IsSorted (s ∷ []) = Unit
IsSorted (s ∷ t ∷ ts) = (text_leb s t ≡ true) × IsSorted (t ∷ ts)

text_leb_total : (s t : Text) → text_leb s t ≡ false → text_leb t s ≡ true
unfolding text_leb
text_leb_total [] t h = cc
text_leb_total (c ∷ s) [] h = refl
text_leb_total (c ∷ s) (d ∷ t) h = ground (arith, text_leb_total s t)

mem-insert_sorted : (n s : Text) (ss : List Text) → mem n (insert_sorted s ss) ≡ mem n (s ∷ ss)
unfolding insert_sorted
mem-insert_sorted n s [] = refl
mem-insert_sorted n s (t ∷ ts) = ground (arith, mem-insert_sorted n s ts)

mem-sort_strings : (n : Text) (ss : List Text) → mem n (sort_strings ss) ≡ mem n ss
unfolding sort_strings
mem-sort_strings n [] = refl
mem-sort_strings n (s ∷ ss) =
    ground (arith, mem-insert_sorted n s (sort_strings ss), mem-sort_strings n ss)

insert_sorted-IsSorted : (s : Text) (ss : List Text) → IsSorted ss → IsSorted (insert_sorted s ss)
unfolding insert_sorted
insert_sorted-IsSorted s [] h = tt
insert_sorted-IsSorted s (t ∷ []) h = ground (arith, text_leb_total s t)
insert_sorted-IsSorted s (t ∷ u ∷ ts) h =
    ground (arith, text_leb_total s t, insert_sorted-IsSorted s (u ∷ ts) h.1)

sort_strings-IsSorted : (ss : List Text) → IsSorted (sort_strings ss)
unfolding sort_strings
sort_strings-IsSorted [] = tt
sort_strings-IsSorted (s ∷ ss) =
    insert_sorted-IsSorted s (sort_strings ss) (sort_strings-IsSorted ss)

mem-keys : {V : Type 0} (n : Text) (m : Dict Text V) → mem n (keys m) ≡ is_some (lookup n m)
unfolding lookup
mem-keys n [] = refl
mem-keys n ((k, v) ∷ m) = ground (arith, mem-keys n m)

-- AllContextNames lists exactly the names that have a client, in the order of their bytes.
pub all_context_names_lem :
    {t : ApiTypes} (go : ClientGo t) (cm : ClientManager go) (n : Text)
    → (mem n (all_context_names go cm) ≡ is_some (client_for_context go n cm))
      × IsSorted (all_context_names go cm)
unfolding all_context_names client_for_context
all_context_names_lem go cm n = (
  rw (mem-sort_strings n (keys cm.clients)) (mem-keys n cm.clients),
  sort_strings-IsSorted (keys cm.clients),
)
