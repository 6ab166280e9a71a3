-- ===== src/Tests/OneObject.antt =====
-- An API server that holds at most one object: the smallest lawful client.
use project_onboarding_opera.Base.{
  String, ◌≡◌, ◌≢◌, refl, sym, ap, subst, ◌∙◌, Bool, true, false, ◌&&◌, Option, none, some, List,
  [], ◌∷◌, Error, Reason, api, Outcome, ok, fail, arith, ◌=ℕ◌, if◌then◌else◌, inl,
}
use project_onboarding_opera.Base.Dict.{Dict, lookup}
use project_onboarding_opera.Base.Lists.{All, Among}
use project_onboarding_opera.Content.{
  Content, no_spec, quota_spec, limits_spec, policy_spec, binding_spec, group_users, egress_spec,
  project_spec,
}
use project_onboarding_opera.Cluster.{
  Covers, SameHard, Holds, Kind, Key, Object, Client, Matches, InNamespace, IsGone, Lawful,
}
use project_onboarding_opera.Tests.Selectors.{
  kind_code, kind_of, kind_of-code, key_eq, key_eq_sound, same_number, key_eq_refl, both-true,
  true-both, fits, fits-Matches, Matches-fits, inside, inside-InNamespace, InNamespace-inside,
}

abbrev pub holds : Option Object → Key → Option Object
holds none k = none
holds (some o) k = if key_eq o.key k then some o else none

abbrev pub missing : Error
missing = api Reason.not_found "not found"

abbrev pub answer : Option Object → Outcome Object
answer none = fail missing
answer (some o) = ok o

abbrev picked : Kind → Option String → Dict String → Object → Bool
picked kind ns selector o =
    (kind_code o.key.kind =ℕ kind_code kind) && (inside ns o && fits selector o.labels)

abbrev pub listed : Kind → Option String → Dict String → Option Object → List Object
listed kind ns selector none = []
listed kind ns selector (some o) = if picked kind ns selector o then o ∷ [] else []

abbrev removed : Bool → Object → Outcome (Unit {0}) × Option Object
removed true x = (ok tt, none)
removed false x = (fail missing, some x)

abbrev pub delete_one : Object → Option Object → Outcome (Unit {0}) × Option Object
delete_one o none = (fail missing, none)
delete_one o (some x) = removed (key_eq x.key o.key) x

abbrev pub full : Error
full = api Reason.other "there is no room"

abbrev pub create_one : Object → Option Object → Outcome (Unit {0}) × Option Object
create_one o none = (ok tt, some o)
create_one o (some x) = (fail full, some x)

abbrev replaced : Bool → Object → Object → Outcome (Unit {0}) × Option Object
replaced true o x = (ok tt, some o)
replaced false o x = (fail missing, some x)

abbrev pub patch_one : Object → Object → Option Object → Outcome (Unit {0}) × Option Object
patch_one base o none = (fail missing, none)
patch_one base o (some x) = replaced (key_eq x.key o.key) o x

abbrev pub one_object : Client
one_object = record {
  State = Option Object;
  get = λ k s. (answer (holds s k), s);
  list = λ kind ns selector s. (ok (listed kind ns selector s), s);
  delete = delete_one;
  create = create_one;
  patch = patch_one;
}

pub holds-key : (s : Option Object) (k : Key) (o : Object) → holds s k ≡ some o → o.key ≡ k
holds-key none k o h = absurd (cc h)
holds-key (some x) k o h = branch (key_eq x.key k) refl h
  where
    branch : (b : Bool) → key_eq x.key k ≡ b → (if b then some x else none) ≡ some o → o.key ≡ k
    branch true e f =
        let same : x ≡ o = cc f in ap (λ (y : Object). y.key) (sym same) ∙ key_eq_sound x.key k e
    branch false e f = absurd (cc f)

pub answer-found : (r : Option Object) (o : Object) → answer r ≡ ok o → r ≡ some o
answer-found none o h = absurd (cc h)
answer-found (some x) o h = cc h

pub answer-missing : (r : Option Object) (e : Error) → answer r ≡ fail e → r ≡ none
answer-missing none e h = refl
answer-missing (some x) e h = absurd (cc h)

pub delete-others :
    (o : Object) (s : Option Object) (j : Key) → j ≢ o.key → holds (delete_one o s).1 j ≡ holds s j
delete-others o none j ne = refl
delete-others o (some x) j ne = branch (key_eq x.key o.key) refl
  where
    apart : x.key ≡ o.key → (b : Bool) → key_eq x.key j ≡ b → none ≡ (if b then some x else none)
    apart same true e = absurd (ne (sym (key_eq_sound x.key j e) ∙ same))
    apart same false e = refl

    branch : (b : Bool) → key_eq x.key o.key ≡ b → holds (removed b x).1 j ≡ holds (some x) j
    branch true e = apart (key_eq_sound x.key o.key e) (key_eq x.key j) refl
    branch false e = refl

pub delete-IsGone : (o : Object) (s : Option Object) → IsGone (holds (delete_one o s).1 o.key)
delete-IsGone o none = tt
delete-IsGone o (some x) = branch (key_eq x.key o.key) refl
  where
    branch : (b : Bool) → key_eq x.key o.key ≡ b → IsGone (holds (removed b x).1 o.key)
    branch true e = tt
    branch false e = rw e tt

pub listed-found :
    (kind : Kind) (ns : Option String) (selector : Dict String) (s : Option Object)
    → All
        (λ o.
          (holds s o.key ≡ some o)
          × (o.key.kind ≡ kind)
          × InNamespace ns o
          × Matches selector o.labels)
        (listed kind ns selector s)
listed-found kind ns selector none = tt
listed-found kind ns selector (some x) = branch (picked kind ns selector x) refl
  where
    branch :
        (b : Bool)
        → picked kind ns selector x ≡ b
        → All
            (λ o.
              (holds (some x) o.key ≡ some o)
              × (o.key.kind ≡ kind)
              × InNamespace ns o
              × Matches selector o.labels)
            (if b then x ∷ [] else [])
    branch true e =
        let (k, rest) =
          both-true (kind_code x.key.kind =ℕ kind_code kind) (inside ns x && fits selector x.labels)
            e in
        let (i, f) = both-true (inside ns x) (fits selector x.labels) rest in
        let here = key_eq_refl x.key in
        let c : kind_code x.key.kind ≡ kind_code kind = ground (arith) in
        (
          (
            rw here refl,
            sym (kind_of-code x.key.kind) ∙ (ap kind_of c ∙ kind_of-code kind),
            inside-InNamespace ns x i,
            fits-Matches selector x.labels f,
          ),
          tt,
        )
    branch false e = tt

pub listed_complete :
    (kind : Kind) (ns : Option String) (selector : Dict String) (s : Option Object) (k : Key)
    (o : Object)
    → holds s k ≡ some o
    → k.kind ≡ kind
    → InNamespace ns o
    → Matches selector o.labels
    → Among o (listed kind ns selector s)
listed_complete kind ns selector none k o h of_kind i m = absurd (cc h)
listed_complete kind ns selector (some x) k o h of_kind i m =
    let at = holds-key (some x) k o h in
    let same : x ≡ o = held x k o h in
    let c : (kind_code o.key.kind =ℕ kind_code kind) ≡ true =
      rw (ap (λ (j : Key). j.kind) at ∙ of_kind) (same_number (kind_code kind)) in
    let p : picked kind ns selector o ≡ true =
      true-both _ _ c
        (true-both _ _ (InNamespace-inside ns o i) (Matches-fits selector o.labels m)) in
    rw (same, p) (inl refl)
  where
    held :
        (x : Object) (k : Key) (o : Object)
        → (if key_eq x.key k then some x else none) ≡ some o
        → x ≡ o
    held x k o h = branch (key_eq x.key k) h
      where
        branch : (b : Bool) → (if b then some x else none) ≡ some o → x ≡ o
        branch true f = cc f
        branch false f = absurd (cc f)

pub unwrap-list : (xs ys : List Object) → Outcome.ok xs ≡ ok ys → xs ≡ ys
unwrap-list xs ys e = cc e

other_key :
    (o : Object) (j : Key) (b : Bool)
    → j ≢ o.key
    → key_eq o.key j ≡ b
    → (if b then some o else none) ≡ Option.none
other_key o j true ne e = absurd (ne (sym (key_eq_sound o.key j e)))
other_key o j false ne e = refl

pub create-others :
    (o : Object) (s : Option Object) (j : Key) → j ≢ o.key → holds (create_one o s).1 j ≡ holds s j
create-others o none j ne = other_key o j (key_eq o.key j) ne refl
create-others o (some x) j ne = refl

SameHard-refl : (c : Content) → SameHard c c
SameHard-refl no_spec = tt
SameHard-refl (quota_spec h) = refl
SameHard-refl (limits_spec h) = tt
SameHard-refl (policy_spec h) = tt
SameHard-refl (binding_spec h) = tt
SameHard-refl (group_users h) = tt
SameHard-refl (egress_spec h l) = tt
SameHard-refl (project_spec h) = tt

Covers-refl : (v : Option String) → Covers v v
Covers-refl none = tt
Covers-refl (some v) = refl

Holds-itself : (o : Object) → Holds o (holds (some o) o.key)
Holds-itself o =
    rw (key_eq_refl o.key) (λ k. Covers-refl (lookup k o.labels), SameHard-refl o.content)

pub create-Holds :
    (o : Object) (s : Option Object)
    → (create_one o s).0 ≡ ok tt
    → Holds o (holds (create_one o s).1 o.key)
create-Holds o none e = Holds-itself o
create-Holds o (some x) e = absurd (cc e)

pub patch-others :
    (base o : Object) (s : Option Object) (j : Key)
    → j ≢ o.key
    → holds (patch_one base o s).1 j ≡ holds s j
patch-others base o none j ne = refl
patch-others base o (some x) j ne = branch (key_eq x.key o.key) refl
  where
    branch : (b : Bool) → key_eq x.key o.key ≡ b → holds (replaced b o x).1 j ≡ holds (some x) j
    branch true e =
        other_key o j (key_eq o.key j) ne refl
        ∙ sym (other_key x j (key_eq x.key j) (λ f. ne (f ∙ key_eq_sound x.key o.key e)) refl)
    branch false e = refl

-- A patch that succeeds stores the object as it was sent.
pub patch-exact :
    (base o : Object) (s : Option Object)
    → (patch_one base o s).0 ≡ ok tt
    → holds (patch_one base o s).1 o.key ≡ some o
patch-exact base o none e = absurd (cc e)
patch-exact base o (some x) e = branch (key_eq x.key o.key) e
  where
    branch : (b : Bool) → (replaced b o x).0 ≡ ok tt → holds (replaced b o x).1 o.key ≡ some o
    branch true f = rw (key_eq_refl o.key) refl
    branch false f = absurd (cc f)

pub patch-Holds :
    (base o : Object) (s : Option Object)
    → (patch_one base o s).0 ≡ ok tt
    → Holds o (holds (patch_one base o s).1 o.key)
patch-Holds base o s e =
    subst (Holds o) (sym (patch-exact base o s e))
      (λ k. Covers-refl (lookup k o.labels), SameHard-refl o.content)

abbrev pub one_object_laws : Lawful one_object
one_object_laws = record {
  stored = holds;
  stored_key = holds-key;
  get_keeps = λ k s j. refl;
  get_found = λ k s o e. answer-found (holds s k) o e;
  get_missing = λ k s e f gone. answer-missing (holds s k) e f;
  list_keeps = λ kind ns selector s j. refl;
  list_found = λ kind ns selector s os e.
      subst
        (All (λ o.
          (holds s o.key ≡ some o)
          × (o.key.kind ≡ kind)
          × InNamespace ns o
          × Matches selector o.labels))
        (unwrap-list _ os e) (listed-found kind ns selector s);
  list_complete = λ kind ns selector s os k o e h of_kind i m.
      subst (Among o) (unwrap-list _ os e) (listed_complete kind ns selector s k o h of_kind i m);
  delete_others = delete-others;
  delete_done = λ o s e. delete-IsGone o s;
  delete_missing = λ o s e f gone. delete-IsGone o s;
  create_others = create-others;
  create_done = create-Holds;
  patch_others = patch-others;
  patch_done = λ base o s h e. patch-Holds base o s e;
}
