-- ===== src/Tests/Server.antt =====
-- An API server with room for one object of each kind, which is enough to reconcile an entry.
use project_onboarding_opera.Base.{
  ◌≡◌, refl, sym, ap, subst, ◌∙◌, Bool, true, false, Option, some, Outcome, ok, arith, ◌=ℕ◌,
  if◌then◌else◌,
}
use project_onboarding_opera.Base.Lists.{All, All-map, Among}
use project_onboarding_opera.Cluster.{
  Kind, Key, Object, Client, Matches, InNamespace, IsGone, Holds, Lawful,
}
use project_onboarding_opera.Reconcile.Adopted.{PatchesExactly}
use project_onboarding_opera.Tests.Selectors.{kind_code, kind_of, kind_of-code, same_number}
use project_onboarding_opera.Tests.OneObject.{
  holds, answer, listed, delete_one, create_one, patch_one, holds-key, answer-found, answer-missing,
  delete-others, delete-IsGone, listed-found, listed_complete, unwrap-list, create-others,
  create-Holds, patch-others, patch-Holds, patch-exact,
}

abbrev pub Slots : Type 0
Slots = Kind → Option Object

abbrev pub set_slot : Kind → Option Object → Slots → Slots
set_slot kind v s j = if kind_code j =ℕ kind_code kind then v else s j

set_slot-same : (kind : Kind) (v : Option Object) (s : Slots) → set_slot kind v s kind ≡ v
set_slot-same kind v s = rw (same_number (kind_code kind)) refl

same_kind : (j k : Kind) → (kind_code j =ℕ kind_code k) ≡ true → j ≡ k
same_kind j k h =
    let c : kind_code j ≡ kind_code k = ground (arith) in
    sym (kind_of-code j) ∙ (ap kind_of c ∙ kind_of-code k)

-- A change of the slot of a kind changes what is stored under a key no more than it does there.
pub slot-others :
    (kind : Kind) (v : Option Object) (s : Slots) (j : Key)
    → holds v j ≡ holds (s kind) j
    → holds (set_slot kind v s j.kind) j ≡ holds (s j.kind) j
slot-others kind v s j e = branch (kind_code j.kind =ℕ kind_code kind) refl
  where
    branch :
        (b : Bool)
        → (kind_code j.kind =ℕ kind_code kind) ≡ b
        → holds (if b then v else s j.kind) j ≡ holds (s j.kind) j
    branch true f = e ∙ ap (λ (q : Kind). holds (s q) j) (sym (same_kind j.kind kind f))
    branch false f = refl

pub slot-done :
    (P : Option Object → Type 0) (kind : Kind) (v : Option Object) (s : Slots) (j : Key)
    → P (holds v j)
    → j.kind ≡ kind
    → P (holds (set_slot kind v s j.kind) j)
slot-done P kind v s j p e =
    subst (λ w. P (holds w j)) (sym (ap (set_slot kind v s) e ∙ set_slot-same kind v s)) p

abbrev pub in_slot :
    Object
    → (Option Object → Outcome (Unit {0}) × Option Object)
    → Slots
    → Outcome (Unit {0}) × Slots
in_slot o change s = let (r, v) = change (s o.key.kind) in (r, set_slot o.key.kind v s)

abbrev pub server : Client
server = record {
  State = Slots;
  get = λ k s. (answer (holds (s k.kind) k), s);
  list = λ kind ns selector s. (ok (listed kind ns selector (s kind)), s);
  delete = λ o. in_slot o (delete_one o);
  create = λ o. in_slot o (create_one o);
  patch = λ base o. in_slot o (patch_one base o);
}

abbrev pub server_laws : Lawful server
server_laws = record {
  stored = λ s k. holds (s k.kind) k;
  stored_key = λ s k. holds-key (s k.kind) k;
  get_keeps = λ k s j. refl;
  get_found = λ k s o e. answer-found (holds (s k.kind) k) o e;
  get_missing = λ k s e f gone. answer-missing (holds (s k.kind) k) e f;
  list_keeps = λ kind ns selector s j. refl;
  list_found = λ kind ns selector s os e.
      All-map _ _ os
        (λ o (h, of_kind, i, m).
          (subst (λ (q : Kind). holds (s q) o.key ≡ some o) (sym of_kind) h, of_kind, i, m))
        (subst
          (All (λ o.
            (holds (s kind) o.key ≡ some o)
            × (o.key.kind ≡ kind)
            × InNamespace ns o
            × Matches selector o.labels))
          (unwrap-list _ os e) (listed-found kind ns selector (s kind)));
  list_complete = λ kind ns selector s os k o e h of_kind i m.
      subst (Among o) (unwrap-list _ os e) (
        listed_complete kind ns selector (s kind) k o
          (subst (λ (q : Kind). holds (s q) k ≡ some o) of_kind h) of_kind i m);
  delete_others = λ o s j ne. slot-others o.key.kind _ s j (delete-others o (s o.key.kind) j ne);
  delete_done =
      λ o s e. slot-done IsGone o.key.kind _ s o.key (delete-IsGone o (s o.key.kind)) refl;
  delete_missing =
      λ o s e f gone. slot-done IsGone o.key.kind _ s o.key (delete-IsGone o (s o.key.kind)) refl;
  create_others = λ o s j ne. slot-others o.key.kind _ s j (create-others o (s o.key.kind) j ne);
  create_done =
      λ o s e. slot-done (Holds o) o.key.kind _ s o.key (create-Holds o (s o.key.kind) e) refl;
  patch_others =
      λ base o s j ne. slot-others o.key.kind _ s j (patch-others base o (s o.key.kind) j ne);
  patch_done = λ base o s h e.
      slot-done (Holds o) o.key.kind _ s o.key (patch-Holds base o (s o.key.kind) e) refl;
}

-- The server stores a patched object as it was sent.
pub server-PatchesExactly : PatchesExactly server server_laws
server-PatchesExactly base o s h e =
    slot-done (λ r. r ≡ some o) o.key.kind _ s o.key (patch-exact base o (s o.key.kind) e) refl
