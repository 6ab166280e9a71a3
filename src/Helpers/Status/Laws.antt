-- ===== src/Helpers/Status/Laws.antt =====
-- What a status message and a list of conditions keep to.
use project_onboarding_opera.Base.{
  ℕ, zero, suc, ◌-◌, ◌≤◌, String, ◌≡◌, refl, ap, ◌∙◌, Bool, true, false, ◌&&◌, Option, none, some,
  List, [], ◌∷◌, ◌++◌, leb, ◌==◌, eq_iff, eq_refl, arith, if◌then◌else◌, Bool-cases, inl, inr,
  leb→le,
}
use project_onboarding_opera.Base.Lists.{length, length-append}
use project_onboarding_opera.Helpers.Status.{
  Bytes, take, max_status_message_len, truncate_at, truncate_status_message, Condition, bytes_eq,
  update_condition, set_condition,
}

length-take {ℓ} : {A : Type ℓ} (n : ℕ) (xs : List A) → length (take n xs) ≤ n
length-take zero xs = omega arith
length-take (suc n) [] = omega arith
length-take (suc n) (x ∷ xs) = let h = length-take n xs in omega arith

length-truncate_at :
    (most : ℕ) (message : Bytes) → 3 ≤ most → length (truncate_at most message) ≤ most
unfolding truncate_at
length-truncate_at most message room = branch (leb (length message) most) refl
  where
    branch :
        (b : Bool)
        → leb (length message) most ≡ b
        → length (if b then message else take (most - 3) message ++ b'.' ∷ b'.' ∷ b'.' ∷ []) ≤ most
    branch true h = leb→le (length message) most h
    branch false h = omega (
      arith,
      length-append (take (most - 3) message) (b'.' ∷ b'.' ∷ b'.' ∷ []),
      length-take (most - 3) message,
    )

-- A status message that is truncated has at most 32000 bytes.
pub length-truncate_status_message :
    (message : Bytes) → length (truncate_status_message message) ≤ max_status_message_len
unfolding truncate_status_message
length-truncate_status_message message =
    length-truncate_at max_status_message_len message (omega arith)

-- The first condition of a type, as `meta.FindStatusCondition` finds it.
unfoldable pub find_condition : String → List Condition → Option Condition
find_condition type [] = none
find_condition type (c ∷ conditions) =
    if c.type == type then some c else find_condition type conditions

bytes_eq_sound : (s t : Bytes) → bytes_eq s t ≡ true → s ≡ t
unfolding bytes_eq
bytes_eq_sound [] [] h = refl
bytes_eq_sound [] (b ∷ t) h = absurd (cc h)
bytes_eq_sound (a ∷ s) [] h = absurd (cc h)
bytes_eq_sound (a ∷ s) (b ∷ t) h =
    let e : a ≡ b = ground (arith) in let r = bytes_eq_sound s t (ground (arith)) in cc (e, r)

-- The condition says what it was set to.
abbrev pub Says : String → String → Bytes → Option Condition → Type 0
Says status reason message none = ⊥
Says status reason message (some c) =
    (c.status ≡ status) × (c.reason ≡ reason) × (c.message ≡ message)

module _ (now : ℕ) (status reason : String) (message : Bytes) where
  update_condition-type :
      (c : Condition) → (update_condition now status reason message c).type ≡ c.type
  unfolding update_condition
  update_condition-type c =
      branch (c.status == status && c.reason == reason && bytes_eq c.message message)
    where
      branch :
          (b : Bool)
          → (if b then c else record c {
            status = status;
            reason = reason;
            message = message;
            last_transition_time = now;
          }).type
            ≡ c.type
      branch true = refl
      branch false = refl

  update_condition-Says :
      (c : Condition)
      → Says status reason message (some (update_condition now status reason message c))
  unfolding update_condition
  update_condition-Says c =
      branch (c.status == status && c.reason == reason && bytes_eq c.message message) refl
    where
      branch :
          (b : Bool)
          → (c.status == status && c.reason == reason && bytes_eq c.message message) ≡ b
          → Says status reason message (
              some (
                if b then c else record c {
                  status = status;
                  reason = reason;
                  message = message;
                  last_transition_time = now;
                }))
      branch true h = (
        ground (arith, eq_iff c.status status),
        ground (arith, eq_iff c.reason reason),
        bytes_eq_sound c.message message (ground (arith)),
      )
      branch false h = (refl, refl, refl)

  find_condition-set_condition-other :
      (type other : String) (conditions : List Condition)
      → (type == other) ≡ false
      → find_condition other (set_condition now type status reason message conditions)
        ≡ find_condition other conditions
  unfolding set_condition find_condition
  find_condition-set_condition-other type other [] differ = rw differ refl
  find_condition-set_condition-other type other (c ∷ conditions) differ =
      elim (Bool-cases (c.type == type)) [
        | inl same ↦
            let e : c.type ≡ type = ground (arith, eq_iff c.type type) in
            let no : (c.type == other) ≡ false = ap (λ t. t == other) e ∙ differ in
            let no' : ((update_condition now status reason message c).type == other) ≡ false =
              ap (λ t. t == other) (update_condition-type c) ∙ no in
            rw (same, find_condition, no', no) refl
        | inr differs ↦
            let rest = find_condition-set_condition-other type other conditions differ in
            rw (differs, find_condition, rest) refl
      ]

  find_condition-set_condition :
      (type : String) (conditions : List Condition)
      → Says status reason message
          (find_condition type (set_condition now type status reason message conditions))
  unfolding set_condition find_condition
  find_condition-set_condition type [] = rw (eq_refl type) (refl, refl, refl)
  find_condition-set_condition type (c ∷ conditions) = elim (Bool-cases (c.type == type)) [
    | inl same ↦
        let yes : ((update_condition now status reason message c).type == type) ≡ true =
          ap (λ t. t == type) (update_condition-type c) ∙ same in
        rw (same, find_condition, yes) (update_condition-Says c)
    | inr differs ↦
        let rest = find_condition-set_condition type conditions in
        rw (differs, find_condition, differs) rest
  ]

-- `SetCondition` sets the condition of its type, and no other: the first condition of the type says
-- afterwards what was asked for, and what is found for any other type is what was found before.
pub set_condition_lem :
    (now : ℕ) (type status reason : String) (message : Bytes) (conditions : List Condition)
    → Says status reason message
        (find_condition type (set_condition now type status reason message conditions))
      × ((other : String)
          → (type == other) ≡ false
          → find_condition other (set_condition now type status reason message conditions)
            ≡ find_condition other conditions)
set_condition_lem now type status reason message conditions = (
  find_condition-set_condition now status reason message type conditions,
  λ other differ.
      find_condition-set_condition-other now status reason message type other conditions differ,
)
