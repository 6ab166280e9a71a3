-- ===== src/Helpers/Status.antt =====
-- internal/onboarding/helpers.go: the messages and conditions of a status. A message is its bytes,
-- since the source cuts it at a byte offset.
pub mod Laws
use project_onboarding_opera.Base.{
  ℕ, zero, suc, ◌-◌, String, Bool, true, false, ◌&&◌, List, [], ◌∷◌, ◌++◌, leb, ◌==◌, if◌then◌else◌,
}
use project_onboarding_opera.Base.Lists.{length}

abbrev pub Bytes : Type 0
Bytes = List ℕ

abbrev pub take {ℓ} : {A : Type ℓ} → ℕ → List A → List A
take zero xs = []
take (suc n) [] = []
take (suc n) (x ∷ xs) = x ∷ take n xs

abbrev pub max_status_message_len : ℕ
max_status_message_len = 32000

-- `truncate` at any limit; the source's limit is `max_status_message_len`.
unfoldable pub truncate_at : ℕ → Bytes → Bytes
truncate_at most message =
    if leb (length message) most
    then message
    else take (most - 3) message ++ b'.' ∷ b'.' ∷ b'.' ∷ []

unfoldable pub truncate_status_message : Bytes → Bytes
unfolding truncate_at
truncate_status_message message = truncate_at max_status_message_len message

pub record Condition : Type 0 where
  pub type : String
  pub status : String
  pub reason : String
  pub message : Bytes
  pub last_transition_time : ℕ

unfoldable pub bytes_eq : Bytes → Bytes → Bool
bytes_eq [] [] = true
bytes_eq (a ∷ s) (b ∷ t) = leb a b && leb b a && bytes_eq s t
bytes_eq _ _ = false

-- The body of the loop of `SetCondition` on the condition of the type; `now` is metav1.Now().
unfoldable pub update_condition : ℕ → String → String → Bytes → Condition → Condition
unfolding bytes_eq
update_condition now status reason message c =
    if c.status == status && c.reason == reason && bytes_eq c.message message then c else record c {
      status = status;
      reason = reason;
      message = message;
      last_transition_time = now;
    }

unfoldable pub set_condition :
    ℕ → String → String → String → Bytes → List Condition → List Condition
unfolding update_condition
set_condition now type status reason message [] =
    record {
      type = type;
      status = status;
      reason = reason;
      message = message;
      last_transition_time = now;
    }
    ∷ []
set_condition now type status reason message (c ∷ conditions) =
    let rest = set_condition now type status reason message conditions in
    if c.type == type then update_condition now status reason message c ∷ conditions else c ∷ rest
