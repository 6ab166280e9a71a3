-- ===== src/Tests/Parsers.antt =====
-- A stand-in for the parser of quantities: it rejects the empty text and texts with a space.
use Prim.Native.Nat.{zero, suc}
use Prim.Native.Char.{Char, code}
use Prim.Native.String.{[], ◌∷◌}
use project_onboarding_opera.Base.{
  ℕ, String, ◌/◌, ◌%◌, ◌≡◌, refl, Bool, true, false, not, ◌&&◌, ◌||◌, Option, none, some, ◌=ℕ◌, ltb,
  if◌then◌else◌,
}
use project_onboarding_opera.Base.Text.{
  ℤ, pos, negsuc, digit, decimal_onto, decimal, decimal_signed,
}
use project_onboarding_opera.Helpers.Names.{normalize_quantity}
use project_onboarding_opera.Quota.Panics.{IsQuantityParser}

has_no_space : String → Bool
has_no_space [] = true
has_no_space (c ∷ s) = not (code c =ℕ 32) && has_no_space s

abbrev starts : String → Bool
starts [] = false
starts (_ ∷ _) = true

unfoldable pub spaceless_error : String → Option String
unfolding has_no_space
spaceless_error v = if starts v && has_no_space v then none else some "not a quantity"

both : (a b : Bool) → a ≡ true → b ≡ true → (a && b) ≡ true
both a b h k = cc (h, k)

halves : (a b : Bool) → (a && b) ≡ true → (a ≡ true) × (b ≡ true)
halves true b h = (refl, h)
halves false b h = absurd (cc h)

pick_char :
    (b : Bool) (x y : Char)
    → not (code x =ℕ 32) ≡ true
    → not (code y =ℕ 32) ≡ true
    → not (code (if b then x else y) =ℕ 32) ≡ true
pick_char true x y h k = h
pick_char false x y h k = k

digit-visible : (d : ℕ) → not (code (digit d) =ℕ 32) ≡ true
unfolding digit
digit-visible d = pick_char (d =ℕ 0) "0" _ refl (
    pick_char (d =ℕ 1) "1" _ refl (
      pick_char (d =ℕ 2) "2" _ refl (
        pick_char (d =ℕ 3) "3" _ refl (
          pick_char (d =ℕ 4) "4" _ refl (
            pick_char (d =ℕ 5) "5" _ refl (
              pick_char (d =ℕ 6) "6" _ refl
                (pick_char (d =ℕ 7) "7" _ refl (pick_char (d =ℕ 8) "8" "9" refl refl))))))))

pick_text :
    (b : Bool) (s t : String)
    → has_no_space s ≡ true
    → has_no_space t ≡ true
    → has_no_space (if b then s else t) ≡ true
pick_text true s t h k = h
pick_text false s t h k = k

pick_starts :
    (b : Bool) (s t : String)
    → starts s ≡ true
    → starts t ≡ true
    → starts (if b then s else t) ≡ true
pick_starts true s t h k = h
pick_starts false s t h k = k

decimal_onto-spaceless :
    (fuel n : ℕ) (out : String)
    → has_no_space out ≡ true
    → has_no_space (decimal_onto fuel n out) ≡ true
unfolding decimal_onto has_no_space
decimal_onto-spaceless zero n out h = h
decimal_onto-spaceless (suc fuel) n out h =
    pick_text (ltb n 10) (digit n ∷ out) _ (both _ _ (digit-visible n) h) (
      decimal_onto-spaceless fuel (n / 10) (digit (n % 10) ∷ out)
        (both _ _ (digit-visible (n % 10)) h))

decimal_onto-starts :
    (fuel n : ℕ) (out : String) → starts out ≡ true → starts (decimal_onto fuel n out) ≡ true
unfolding decimal_onto
decimal_onto-starts zero n out h = h
decimal_onto-starts (suc fuel) n out h =
    pick_starts (ltb n 10) (digit n ∷ out) _ refl
      (decimal_onto-starts fuel (n / 10) (digit (n % 10) ∷ out) refl)

decimal-starts : (n : ℕ) → starts (decimal n) ≡ true
unfolding decimal decimal_onto
decimal-starts n =
    pick_starts (ltb n 10) (digit n ∷ []) _ refl
      (decimal_onto-starts n (n / 10) (digit (n % 10) ∷ []) refl)

decimal-spaceless : (n : ℕ) → has_no_space (decimal n) ≡ true
unfolding decimal has_no_space
decimal-spaceless n = decimal_onto-spaceless (suc n) n "" refl

-- The tests of `normalize_quantity` on two characters.
abbrev is_gi : Char → Char → Bool
is_gi c d = code c =ℕ b'g' && code d =ℕ b'i' || code c =ℕ b'G' && code d =ℕ b'I'

abbrev is_mi : Char → Char → Bool
is_mi c d = code c =ℕ b'm' && code d =ℕ b'i' || code c =ℕ b'M' && code d =ℕ b'I'

normalize_quantity-spaceless :
    (v : String) → has_no_space v ≡ true → has_no_space (normalize_quantity v) ≡ true
unfolding normalize_quantity has_no_space
normalize_quantity-spaceless [] h = h
normalize_quantity-spaceless (c ∷ []) h = h
normalize_quantity-spaceless (c ∷ d ∷ v) h =
    let (first, rest) = halves (not (code c =ℕ 32)) _ h in
    let (second, more) = halves (not (code d =ℕ 32)) (has_no_space v) rest in
    pick_text (is_gi c d) ("G" ∷ "i" ∷ normalize_quantity v) _ (normalize_quantity-spaceless v more)
      (pick_text (is_mi c d) ("M" ∷ "i" ∷ normalize_quantity v) (c ∷ normalize_quantity (d ∷ v))
        (normalize_quantity-spaceless v more)
        (both _ _ first (normalize_quantity-spaceless (d ∷ v) rest)))

normalize_quantity-starts : (v : String) → starts v ≡ true → starts (normalize_quantity v) ≡ true
unfolding normalize_quantity
normalize_quantity-starts [] h = h
normalize_quantity-starts (c ∷ []) h = h
normalize_quantity-starts (c ∷ d ∷ v) h =
    pick_starts (is_gi c d) ("G" ∷ "i" ∷ normalize_quantity v) _ refl (
      pick_starts (is_mi c d) ("M" ∷ "i" ∷ normalize_quantity v) (c ∷ normalize_quantity (d ∷ v))
        refl refl)

accepted : (v : String) → starts v ≡ true → has_no_space v ≡ true → spaceless_error v ≡ none
unfolding spaceless_error
accepted v h k = rw (h, k) refl

accepted-good :
    (v : String) → spaceless_error v ≡ none → (starts v ≡ true) × (has_no_space v ≡ true)
unfolding spaceless_error
accepted-good v h = halves (starts v) (has_no_space v) (branch (starts v && has_no_space v) h)
  where
    reply : Bool → Option String
    reply b = if b then none else some "not a quantity"

    branch : (b : Bool) → reply b ≡ none → b ≡ true
    branch true h = refl
    branch false h = absurd (cc h)

integers : (n : ℤ) → spaceless_error (decimal_signed n) ≡ none
unfolding decimal_signed has_no_space
integers (pos n) = accepted (decimal n) (decimal-starts n) (decimal-spaceless n)
integers (negsuc n) = accepted ("-" ∷ decimal (suc n)) refl (decimal-spaceless (suc n))

pub spaceless-IsQuantityParser : IsQuantityParser spaceless_error
spaceless-IsQuantityParser = record {
  counts = integers;
  spellings = λ v h.
      let (s, n) = accepted-good v h in
      accepted (normalize_quantity v) (normalize_quantity-starts v s)
        (normalize_quantity-spaceless v n);
}
