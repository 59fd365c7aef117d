-- ===== src/Proxy/Cluster/Soundness.antt =====
-- internal/proxy/cluster.go: what an accepted host name says.
use mathlib.Core.Option.{some-injective}
use kube_forwarding_proxy.Base.{
  subst, append_assoc, contains-byte, has_byte, ℕ, ◌+◌, ◌≡◌, ◌≢◌, refl, ◌⊎◌, sym, ap, ◌∙◌, inl, inr,
  Bool, true, false, some, List, [], ◌∷◌, ◌++◌, Text, arith, All, IsFree, split, split-All, join,
  join-split, append_of_cut_suffix, append_of_last_index, drop_past, Option-cases, length, take,
  drop, cut_suffix, last_index, text_beq_iff,
}
use kube_forwarding_proxy.Proxy.Cluster.{
  dot, ClusterHost, host_of_labels, parse_labels, parse_suffixed, parse_cluster_host,
}

-- The labels that a parsed host names: a host with no pod has two.
abbrev pub labels : ClusterHost → Bool → List Text
labels h true = h.pod_name ∷ h.svc_name ∷ h.namespace ∷ []
labels h false = h.svc_name ∷ h.namespace ∷ []

-- The domain, behind which the context stands if there is one.
abbrev pub domain_part : Text → Text → Text
domain_part domain [] = dot ∷ domain
domain_part domain (c ∷ ctx) = (dot ∷ domain) ++ dot ∷ (c ∷ ctx)

-- The host reads as its labels, joined by dots, before the domain.
pub record IsNamed (host domain : Text) (h : ClusterHost) (with_pod : Bool) : Type 0 where
  pub spelled : host ≡ join dot (labels h with_pod) ++ domain_part domain h.context_name
  pub plain : All (IsFree dot) (labels h with_pod)
  pub plain_context : IsFree dot h.context_name
  pub no_pod : (with_pod ≡ true) ⊎ (h.pod_name ≡ [])

abbrev NamedLabels : Text → Text → ClusterHost → Type 0
NamedLabels prefix ctx h =
    (with_pod : Bool) × (prefix ≡ join dot (labels h with_pod))
    × All (IsFree dot) (labels h with_pod)
    × (h.context_name ≡ ctx)
    × ((with_pod ≡ true) ⊎ (h.pod_name ≡ []))

host_of_labels-NamedLabels :
    (ls : List Text) (prefix ctx : Text) (h : ClusterHost)
    → host_of_labels ls ctx ≡ some h
    → prefix ≡ join dot ls
    → All (IsFree dot) ls
    → NamedLabels prefix ctx h
unfolding host_of_labels
host_of_labels-NamedLabels [] prefix ctx h e j a = ground arith
host_of_labels-NamedLabels (s ∷ []) prefix ctx h e j a = ground arith
host_of_labels-NamedLabels (s ∷ n ∷ []) prefix ctx h e j a =
    subst (NamedLabels prefix ctx) (some-injective _ _ e) (false, j, a, refl, inr refl)
host_of_labels-NamedLabels (p ∷ s ∷ n ∷ []) prefix ctx h e j a =
    subst (NamedLabels prefix ctx) (some-injective _ _ e) (true, j, a, refl, inl refl)
host_of_labels-NamedLabels (p ∷ s ∷ n ∷ m ∷ ls) prefix ctx h e j a = ground arith

parse_labels-NamedLabels :
    (prefix ctx : Text) (h : ClusterHost)
    → parse_labels prefix ctx ≡ some h
    → NamedLabels prefix ctx h
unfolding parse_labels
parse_labels-NamedLabels prefix ctx h e =
    host_of_labels-NamedLabels (split dot prefix) prefix ctx h e (sym (join-split dot prefix))
      (split-All dot prefix)

-- What an accepted context-suffixed host consists of.
record IsSuffixed (host suffix : Text) (h : ClusterHost) : Type 0 where
  prefix : Text
  context : Text
  spelled : host ≡ prefix ++ (suffix ++ dot ∷ context)
  given : context ≢ []
  plain : IsFree dot context
  parsed : parse_labels prefix context ≡ some h

parse_at_index-IsSuffixed :
    (host suffix : Text) (h : ClusterHost) (idx : ℕ)
    → last_index host (suffix ++ dot ∷ []) ≡ some idx
    → parse_suffixed host suffix ≡ some h
    → IsSuffixed host suffix h
unfolding parse_suffixed
parse_at_index-IsSuffixed host suffix h idx found e =
    let after = drop (idx + length suffix + 1) host in
    let e' = rw (found, parse_suffixed) at e in
    record {
      prefix = take idx host;
      context = after;
      spelled =
          append_of_last_index host (suffix ++ dot ∷ []) idx found
          ∙ ap (◌++◌ (take idx host)) (
              append_assoc suffix (dot ∷ []) _
              ∙ ap (λ w. suffix ++ dot ∷ w) (sym (drop_past idx dot suffix host)));
      given = λ empty. ground (arith, text_beq_iff after []);
      plain = ground (arith, contains-byte dot after);
      parsed = ground arith;
    }

parse_suffixed-IsSuffixed :
    (host suffix : Text) (h : ClusterHost)
    → parse_suffixed host suffix ≡ some h
    → IsSuffixed host suffix h
unfolding parse_suffixed
parse_suffixed-IsSuffixed host suffix h e =
    elim (Option-cases (last_index host (suffix ++ dot ∷ []))) [
      | inl missing ↦ absurd (let e' = rw (missing, parse_suffixed) at e in cc)
      | inr (idx, found) ↦ parse_at_index-IsSuffixed host suffix h idx found e
    ]

domain_part_given :
    (domain ctx : Text) → ctx ≢ [] → domain_part domain ctx ≡ (dot ∷ domain) ++ dot ∷ ctx
domain_part_given domain [] h = absurd (h refl)
domain_part_given domain (c ∷ ctx) h = refl

suffixed-IsNamed :
    (host domain : Text) (h : ClusterHost)
    → IsSuffixed host (dot ∷ domain) h
    → (with_pod : Bool) × IsNamed host domain h with_pod
suffixed-IsNamed host domain h s =
    let (with_pod, j, a, c, n) = parse_labels-NamedLabels s.prefix s.context h s.parsed in
    (
      with_pod,
      record {
        spelled =
            rw (c, domain_part_given domain s.context s.given)
              (s.spelled ∙ ap (λ p. p ++ ((dot ∷ domain) ++ dot ∷ s.context)) j);
        plain = a;
        plain_context = rw c s.plain;
        no_pod = n;
      },
    )

bare-IsNamed :
    (host domain before : Text) (h : ClusterHost)
    → cut_suffix host (dot ∷ domain) ≡ some before
    → parse_labels before [] ≡ some h
    → (with_pod : Bool) × IsNamed host domain h with_pod
unfolding has_byte
bare-IsNamed host domain before h cut e =
    let (with_pod, j, a, c, n) = parse_labels-NamedLabels before [] h e in
    (
      with_pod,
      record {
        spelled =
            rw c (append_of_cut_suffix host (dot ∷ domain) cut ∙ ap (λ p. p ++ dot ∷ domain) j);
        plain = a;
        plain_context = rw c refl;
        no_pod = n;
      },
    )

-- An accepted host is exactly its two or three labels, joined by dots, before the cluster domain
-- and, if it names one, the context; no label and no context holds a dot.
pub parse_cluster_host-IsNamed :
    (host domain : Text) (h : ClusterHost)
    → parse_cluster_host host domain ≡ some h
    → (with_pod : Bool) × IsNamed host domain h with_pod
unfolding parse_cluster_host
parse_cluster_host-IsNamed host domain h e = elim (Option-cases (cut_suffix host (dot ∷ domain))) [
  | inl missing ↦
      suffixed-IsNamed host domain h
        (parse_suffixed-IsSuffixed host (dot ∷ domain) h (rw (missing, parse_cluster_host) at e))
  | inr (before, cut) ↦ bare-IsNamed host domain before h cut (rw (cut, parse_cluster_host) at e)
]
