-- ===== src/Vip/Allocator/Refinement.antt =====
-- internal/vip/allocator.go as a book of addresses: what its callers see, without the candidates, the
-- skipped addresses and the reverse map.
use kube_forwarding_proxy.Base.{
  ◌≡◌, ◌≢◌, refl, sym, ap, ◌∙◌, inl, inr, Option, none, some, List, [], ◌∷◌, Text, text_eq, arith,
  ◌==◌, if◌then◌else◌, Option-cases, Result, ok, err, lookup,
}
use kube_forwarding_proxy.Vip.Address.{Ip, NetText}
use kube_forwarding_proxy.Vip.Interface.{InterfaceAddressManager}
use kube_forwarding_proxy.Vip.Allocator.{
  Allocator, AllocatorError, Outcome, allocate, release_vip, lookup_vip,
}
use kube_forwarding_proxy.Vip.Allocator.Invariant.{IsValid, ip_string-injective}
use kube_forwarding_proxy.Vip.Allocator.Allocation.{
  allocate_held, allocate-IsValid, allocate_ok, allocate_err,
}
use kube_forwarding_proxy.Vip.Allocator.Release.{release_held, release_unheld, release_vip-IsValid}

-- The address of each key.
abbrev pub Book : Type 0
Book = Text → Option Ip

pub data Call : Type 0 where
  allocates : Text → Call
  releases : Ip → Call

pub data Answer : Type 0 where
  allocated : Result AllocatorError Ip → Answer
  released : Option AllocatorError → Answer

-- What a call may answer, and the book behind it: an address is given to one key only, and given back
-- whatever the interface says.
pub data Promise (b : Book) : Call → Answer → Book → Type 0 where
  keeps :
      (key : Text) (ip : Ip) (c : Book)
      → b key ≡ some ip
      → ((j : Text) → c j ≡ b j)
      → Promise b (allocates key) (allocated (ok ip)) c
  assigns :
      (key : Text) (ip : Ip) (c : Book)
      → b key ≡ none
      → ((j : Text) → b j ≢ some ip)
      → ((j : Text) → c j ≡ (if key == j then some ip else b j))
      → Promise b (allocates key) (allocated (ok ip)) c
  fails :
      (key : Text) (x : AllocatorError) (c : Book)
      → b key ≡ none
      → ((j : Text) → c j ≡ b j)
      → Promise b (allocates key) (allocated (err x)) c
  drops :
      (key : Text) (ip : Ip) (x : Option AllocatorError) (c : Book)
      → b key ≡ some ip
      → ((j : Text) → c j ≡ (if key == j then none else b j))
      → Promise b (releases ip) (released x) c
  ignores :
      (ip : Ip) (c : Book)
      → ((j : Text) → b j ≢ some ip)
      → ((j : Text) → c j ≡ b j)
      → Promise b (releases ip) (released none) c

-- The promises of a sequence of calls.
pub data Promises : Book → List Call → List Answer → Book → Type 0 where
  done : {b : Book} → Promises b [] [] b
  and_next :
      {x : Call} {xs : List Call} {y : Answer} {ys : List Answer} {b c d : Book}
      → Promise b x y c
      → Promises c xs ys d
      → Promises b (x ∷ xs) (y ∷ ys) d

abbrev pub view : Allocator → Book
view a key = lookup_vip key a

module _ (net : NetText) (m : InterfaceAddressManager) where
  open net use {ip_string}
  open m use {Iface}

  -- One call of the allocator, and a sequence of them.
  abbrev allocate_answer : Option (Outcome Iface) → Option (Answer × Allocator × Iface)
  allocate_answer none = none
  allocate_answer (some o) = some (allocated o.result, o.allocator, o.iface)

  abbrev pub call : Call → Allocator → Iface → Option (Answer × Allocator × Iface)
  call (allocates key) a s = allocate_answer (allocate net m key a s)
  call (releases ip) a s = let (b, t, e) = release_vip net m ip a s in some (released e, b, t)

  abbrev prepend :
      Answer → Option (List Answer × Allocator × Iface) → Option (List Answer × Allocator × Iface)
  prepend y none = none
  prepend y (some (ys, a, s)) = some (y ∷ ys, a, s)

  abbrev and_then :
      Option (Answer × Allocator × Iface)
      → (Allocator → Iface → Option (List Answer × Allocator × Iface))
      → Option (List Answer × Allocator × Iface)
  and_then none rest = none
  and_then (some (y, a, s)) rest = prepend y (rest a s)

  abbrev pub calls : List Call → Allocator → Iface → Option (List Answer × Allocator × Iface)
  calls [] a s = some ([], a, s)
  calls (x ∷ xs) a s = and_then (call x a s) (calls xs)

  new_address-Promise :
      (key : Text) (a : Allocator) (s : Iface) (o : Outcome Iface) (r : Result AllocatorError Ip)
      → IsValid net a
      → lookup_vip key a ≡ none
      → allocate net m key a s ≡ some o
      → o.result ≡ r
      → Promise (view a) (allocates key) (allocated r) (view o.allocator)
  unfolding lookup_vip
  new_address-Promise key a s o (ok ip) v new e r =
      let behind = (allocate_ok net m key a s o ip key v new e r).1 in
      assigns key ip _ new (λ j held. absurd (omega (arith, (v.handed_out j ip held).1, behind)))
        (λ j. (allocate_ok net m key a s o ip j v new e r).0.found)
  new_address-Promise key a s o (err x) v new e r =
      fails key x _ new (λ j. (allocate_err net m key a s o x j [] v new e r).0)

  -- One call returns, and keeps its promise.
  record Keeps (x : Call) (a : Allocator) (answer : Option (Answer × Allocator × Iface))
      : Type 0 where
    outcome : Answer × Allocator × Iface
    total : answer ≡ some outcome
    valid : IsValid net outcome.1
    promise : Promise (view a) x outcome.0 (view outcome.1)

  call-Keeps : (x : Call) (a : Allocator) (s : Iface) → IsValid net a → Keeps x a (call x a s)
  unfolding lookup_vip
  call-Keeps (allocates key) a s v = elim (Option-cases (lookup_vip key a)) [
    | inl new ↦
        let (o, total, valid, moved) = allocate-IsValid net m key a s v in
        record {
          outcome = (allocated o.result, o.allocator, o.iface);
          total = ap allocate_answer total;
          valid = valid;
          promise = new_address-Promise key a s o o.result v new total refl;
        }
    | inr (ip, held) ↦ record {
      outcome = (allocated (ok ip), a, s);
      total = ap allocate_answer (allocate_held net m key a s ip held);
      valid = v;
      promise = keeps key ip _ held (λ j. refl);
    }
  ]
  call-Keeps (releases ip) a s v = elim (Option-cases (lookup (ip_string ip) a.reverse)) [
    | inl missing ↦
        let free : (j : Text) → view a j ≢ some ip =
          λ j held. absurd (let back = v.mirrored j ip held in cc) in
        record {
          outcome = (released none, a, s);
          total = ap (λ t. some (released t.2, t.0, t.1)) (release_unheld net m ip a s v free);
          valid = v;
          promise = ignores ip _ free (λ j. refl);
        }
    | inr (key, found) ↦
        let (ip', same, held') = v.backed (ip_string ip) key found in
        let held : lookup_vip key a ≡ some ip =
          held' ∙ ap some (sym (ip_string-injective net ip ip' same)) in
        record {
          outcome = _;
          total = refl;
          valid = release_vip-IsValid net m ip a s v;
          promise = drops key ip _ _ held (λ j. (release_held net m ip a s key j v held).0);
        }
  ]

  -- A sequence of calls.
  record KeepsAll (xs : List Call) (a : Allocator)
      (answer : Option (List Answer × Allocator × Iface)) : Type 0 where
    outcome : List Answer × Allocator × Iface
    total : answer ≡ some outcome
    valid : IsValid net outcome.1
    promises : Promises (view a) xs outcome.0 (view outcome.1)

  calls-KeepsAll :
      (xs : List Call) (a : Allocator) (s : Iface) → IsValid net a → KeepsAll xs a (calls xs a s)
  calls-KeepsAll [] a s v = record {
    outcome = ([], a, s);
    total = refl;
    valid = v;
    promises = done;
  }
  calls-KeepsAll (x ∷ xs) a s v =
      let first = call-Keeps x a s v in
      let (y, b, t) = first.outcome in
      let rest = calls-KeepsAll xs b t first.valid in
      record {
        outcome = (y ∷ rest.outcome.0, rest.outcome.1, rest.outcome.2);
        total = ap (λ o. and_then o (calls xs)) first.total ∙ ap (prepend y) rest.total;
        valid = rest.valid;
        promises = and_next first.promise rest.promises;
      }

  -- Every sequence of Allocate and ReleaseVIP calls, from a valid allocator and whatever the interface
  -- answers, returns, and is a sequence of the book's promises with the same answers: a key keeps its
  -- address until that is released, an address is given only to a key without one and only while no
  -- key has it, an Allocate that fails changes no address, and a ReleaseVIP of an address that a key
  -- has takes it from the key even where it fails.
  pub calls-refine :
      (xs : List Call) (a : Allocator) (s : Iface)
      → IsValid net a
      → (ys : List Answer) × (b : Allocator) × (t : Iface) × (calls xs a s ≡ some (ys, b, t))
        × IsValid net b
        × Promises (view a) xs ys (view b)
  calls-refine xs a s v =
      let all = calls-KeepsAll xs a s v in
      (all.outcome.0, all.outcome.1, all.outcome.2, all.total, all.valid, all.promises)
