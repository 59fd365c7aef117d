-- ===== src/Proxy/Cluster.antt =====
-- internal/proxy/cluster.go. A host name is the list of its bytes. The parser's four result
-- strings are a record, and its `ok` is the `some`.
pub mod Soundness
pub mod RoundTrip
use kube_forwarding_proxy.Base.{
  ℕ, ◌+◌, ◌≡◌, Bool, true, false, not, ◌&&◌, ◌||◌, Option, none, some, List, [], ◌∷◌, ◌++◌, Text,
  if◌then◌else◌, text_beq, length, take, drop, has_suffix, cut_suffix, index, last_index, contains,
  split,
}

abbrev pub dot : ℕ
dot = b'.'

pub record ClusterHost : Type 0 where
  pub pod_name : Text
  pub svc_name : Text
  pub namespace : Text
  pub context_name : Text

-- host[idx+len(domain)+1:] is one label: not empty and with no dot.
unfoldable pub is_context_suffix : Text → Bool
is_context_suffix rest = not (text_beq rest []) && not (contains rest (dot ∷ []))

unfoldable pub is_cluster_host : Text → Text → Bool
unfolding is_context_suffix
is_cluster_host host cluster_domain =
    let domain = dot ∷ cluster_domain in
    if has_suffix host domain || has_suffix host (domain ++ dot ∷ [])
    then true
    else elim (index host (domain ++ dot ∷ [])) [
      | none ↦ false
      | some idx ↦ is_context_suffix (drop (idx + length domain + 1) host)
    ]

-- The labels before the domain: `<service>.<namespace>` or `<pod>.<service>.<namespace>`.
unfoldable pub host_of_labels : List Text → Text → Option ClusterHost
host_of_labels (s ∷ n ∷ []) c =
    some (record { pod_name = []; svc_name = s; namespace = n; context_name = c })
host_of_labels (p ∷ s ∷ n ∷ []) c =
    some (record { pod_name = p; svc_name = s; namespace = n; context_name = c })
host_of_labels _ c = none

unfoldable pub parse_labels : Text → Text → Option ClusterHost
unfolding host_of_labels
parse_labels prefix context_name = host_of_labels (split dot prefix) context_name

-- The context-suffixed form, `<prefix>.svc.cluster.local.<context>`.
unfoldable pub parse_suffixed : Text → Text → Option ClusterHost
unfolding parse_labels
parse_suffixed host suffix = elim (last_index host (suffix ++ dot ∷ [])) [
  | none ↦ none
  | some idx ↦
      let after = drop (idx + length suffix + 1) host in
      if text_beq after [] || contains after (dot ∷ [])
      then none
      else parse_labels (take idx host) after
]

unfoldable pub parse_cluster_host : Text → Text → Option ClusterHost
unfolding parse_labels parse_suffixed
parse_cluster_host host cluster_domain =
    let suffix = dot ∷ cluster_domain in
    elim (cut_suffix host suffix) [
      | some before ↦ parse_labels before []
      | none ↦ parse_suffixed host suffix
    ]
