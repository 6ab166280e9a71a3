-- ===== src/Cluster.antt =====
-- The API server, behind controller-runtime's `client.Client`: the calls that the operator makes of
-- it and what the operator relies on in their answers. The server's own state is left open.
use project_onboarding_opera.Base.{
  String, ◌≡◌, ◌≢◌, Bool, true, false, Option, none, some, List, Reason, Error, reason_of, ok, fail,
}
use project_onboarding_opera.Base.Dict.{Dict, lookup}
use project_onboarding_opera.Base.Lists.{All, Among}
use project_onboarding_opera.Effects.{Effect}
use project_onboarding_opera.Content.{Content, quota_spec}

pub data Kind : Type 0 where
  namespace resource_quota limit_range network_policy role_binding : Kind
  egress_ip group app_project : Kind

-- client.ObjectKey with the kind; the namespace of a cluster-scoped object is "".
pub record Key : Type 0 where
  pub kind : Kind
  pub namespace : String
  pub name : String

abbrev pub cluster_key : Kind → String → Key
cluster_key kind name = record { kind = kind; namespace = ""; name = name }

abbrev pub namespaced_key : Kind → String → String → Key
namespaced_key kind ns_name name = record { kind = kind; namespace = ns_name; name = name }

-- metav1.OwnerReference, without its UID.
pub record OwnerReference : Type 0 where
  pub kind : String
  pub name : String
  pub controller : Bool

-- What the operator reads and writes of a stored object; `deleting` says that its deletion timestamp
-- is set.
pub record Object : Type 0 where
  pub key : Key
  pub labels : Dict String
  pub annotations : Dict String
  pub owners : List OwnerReference
  pub deleting : Bool
  pub content : Content

-- apierrors.IsNotFound(err)
unfoldable pub is_not_found : Error → Bool
is_not_found e = elim (reason_of e) [
  | none ↦ false
  | some r ↦ elim r [ Reason.not_found ↦ true | _ ↦ false ]
]

-- meta.IsNoMatchError(err)
unfoldable pub is_no_match : Error → Bool
is_no_match e = elim (reason_of e) [
  | none ↦ false
  | some r ↦ elim r [ Reason.no_match ↦ true | _ ↦ false ]
]

-- `list` takes a kind, client.InNamespace, where it is given, and client.MatchingLabels; `patch` takes
-- the object that client.MergeFrom was given, and the one that it is to become.
pub record Client : Type 1 where
  pub State : Type 0
  pub get : Key → Effect State Object
  pub list : Kind → Option String → Dict String → Effect State (List Object)
  pub delete : Object → Effect State (Unit {0})
  pub create : Object → Effect State (Unit {0})
  pub patch : Object → Object → Effect State (Unit {0})

-- The labels hold every pair of the selector.
abbrev pub Matches : Dict String → Dict String → Type 0
Matches selector labels = All (λ pair. lookup pair.0 labels ≡ some pair.1) selector

abbrev pub InNamespace : Option String → Object → Type 0
InNamespace none o = Unit
InNamespace (some ns) o = o.key.namespace ≡ ns

-- There is nothing under the key, or what is there is being deleted.
abbrev pub IsGone : Option Object → Type 0
IsGone none = Unit
IsGone (some o) = o.deleting ≡ true

-- A value that is there is the value.
abbrev pub Covers : Option String → Option String → Type 0
Covers none w = Unit
Covers (some v) w = w ≡ some v

-- The server keeps the hard limits of a quota as they are; it may complete other specs.
abbrev pub SameHard : Content → Content → Type 0
SameHard (quota_spec hard) content = content ≡ quota_spec hard
SameHard _ content = Unit

-- What is stored carries the labels that were sent, and a quota the hard limits that were sent.
abbrev pub Holds : Object → Option Object → Type 0
Holds o none = ⊥
Holds o (some x) =
    ((k : String) → Covers (lookup k o.labels) (lookup k x.labels)) × SameHard o.content x.content

-- What the API server documents of its answers, for a client whose reads are current: reads change
-- nothing and answer what is stored, a list holds what its selectors select and nothing else, and a
-- deletion, a creation or a patch touches no other object during the call. A creation that succeeds
-- stores its object; so does a patch that starts from what is stored.
pub record Lawful (client : Client) : Type 1 where
  pub stored : client.State → Key → Option Object
  pub stored_key : (s : client.State) (k : Key) (o : Object) → stored s k ≡ some o → o.key ≡ k
  pub get_keeps : (k : Key) (s : client.State) (j : Key) → stored (client.get k s).1 j ≡ stored s j
  pub get_found :
      (k : Key) (s : client.State) (o : Object) → (client.get k s).0 ≡ ok o → stored s k ≡ some o
  pub get_missing :
      (k : Key) (s : client.State) (e : Error)
      → (client.get k s).0 ≡ fail e
      → is_not_found e ≡ true
      → stored s k ≡ none
  pub list_keeps :
      (kind : Kind) (ns : Option String) (selector : Dict String) (s : client.State) (j : Key)
      → stored (client.list kind ns selector s).1 j ≡ stored s j
  pub list_found :
      (kind : Kind) (ns : Option String) (selector : Dict String) (s : client.State)
      (os : List Object)
      → (client.list kind ns selector s).0 ≡ ok os
      → All
          (λ o.
            (stored s o.key ≡ some o)
            × (o.key.kind ≡ kind)
            × InNamespace ns o
            × Matches selector o.labels)
          os
  pub list_complete :
      (kind : Kind) (ns : Option String) (selector : Dict String) (s : client.State)
      (os : List Object) (k : Key) (o : Object)
      → (client.list kind ns selector s).0 ≡ ok os
      → stored s k ≡ some o
      → k.kind ≡ kind
      → InNamespace ns o
      → Matches selector o.labels
      → Among o os
  pub delete_others :
      (o : Object) (s : client.State) (j : Key)
      → j ≢ o.key
      → stored (client.delete o s).1 j ≡ stored s j
  pub delete_done :
      (o : Object) (s : client.State)
      → (client.delete o s).0 ≡ ok tt
      → IsGone (stored (client.delete o s).1 o.key)
  pub delete_missing :
      (o : Object) (s : client.State) (e : Error)
      → (client.delete o s).0 ≡ fail e
      → is_not_found e ≡ true
      → IsGone (stored (client.delete o s).1 o.key)
  pub create_others :
      (o : Object) (s : client.State) (j : Key)
      → j ≢ o.key
      → stored (client.create o s).1 j ≡ stored s j
  pub create_done :
      (o : Object) (s : client.State)
      → (client.create o s).0 ≡ ok tt
      → Holds o (stored (client.create o s).1 o.key)
  pub patch_others :
      (base o : Object) (s : client.State) (j : Key)
      → j ≢ o.key
      → stored (client.patch base o s).1 j ≡ stored s j
  pub patch_done :
      (base o : Object) (s : client.State)
      → stored s o.key ≡ some base
      → (client.patch base o s).0 ≡ ok tt
      → Holds o (stored (client.patch base o s).1 o.key)
