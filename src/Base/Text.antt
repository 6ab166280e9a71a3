-- ===== src/Base/Text.antt =====
-- The operations of Go's `strings`, `regexp` and `fmt` that the source calls, on native texts.
-- A text is walked by code points; what is compared or replaced is ASCII, so bytes agree.
use Prim.Native.Nat.{ℕ, zero, suc, ◌/◌, ◌%◌}
use Prim.Native.Char.{Char, code}
use Prim.Native.String.{String, [], ◌∷◌, ◌++◌}
use mathlib.Core.Logic.{dite}
use mathlib.Core.HLevel.{hedberg}
use text.Mathlib.Text.{◌==◌}
use text.Mathlib.TextEquality.{eq_iff}
use mathlib.Core.Bool.{Bool-discrete, Bool, true, false, ◌&&◌, ◌||◌}
use mathlib.Core.List.{List}
use project_onboarding_opera.Base.Tests.{leb, ltb, ◌=ℕ◌, if◌then◌else◌}

-- s == ""
abbrev pub is_empty : String → Bool
is_empty [] = true
is_empty (_ ∷ _) = false

-- strings.ReplaceAll(s, from, to), for texts of one character
unfoldable pub replace_all : Char → Char → String → String
replace_all from to [] = []
replace_all from to (c ∷ s) = (if code c =ℕ code from then to else c) ∷ replace_all from to s

-- unicode.IsSpace
unfoldable pub is_space : Char → Bool
is_space c =
    let n = code c in
    leb 9 n && leb n 13
    || n =ℕ 32
    || n =ℕ 133
    || n =ℕ 160
    || n =ℕ 5760
    || leb 8192 n && leb n 8202
    || n =ℕ 8232
    || n =ℕ 8233
    || n =ℕ 8239
    || n =ℕ 8287
    || n =ℕ 12288

unfoldable pub trim_left : String → String
unfolding is_space
trim_left [] = []
trim_left (c ∷ s) = let rest = trim_left s in if is_space c then rest else c ∷ s

unfoldable pub trim_right : String → String
unfolding is_space
trim_right [] = []
trim_right (c ∷ s) = let rest = trim_right s in if is_space c && is_empty rest then [] else c ∷ rest

-- strings.TrimSpace
unfoldable pub trim_space : String → String
unfolding trim_left trim_right
trim_space s = trim_right (trim_left s)

-- unicode.ToLower, for the characters whose lower case is ASCII
lower : Char → Char
lower c =
    let n = code c in
    if n =ℕ b'A'
    then "a"
    else if n =ℕ b'B'
    then "b"
    else if n =ℕ b'C'
    then "c"
    else if n =ℕ b'D'
    then "d"
    else if n =ℕ b'E'
    then "e"
    else if n =ℕ b'F'
    then "f"
    else if n =ℕ b'G'
    then "g"
    else if n =ℕ b'H'
    then "h"
    else if n =ℕ b'I'
    then "i"
    else if n =ℕ b'J'
    then "j"
    else if n =ℕ b'K'
    then "k"
    else if n =ℕ b'L'
    then "l"
    else if n =ℕ b'M'
    then "m"
    else if n =ℕ b'N'
    then "n"
    else if n =ℕ b'O'
    then "o"
    else if n =ℕ b'P'
    then "p"
    else if n =ℕ b'Q'
    then "q"
    else if n =ℕ b'R'
    then "r"
    else if n =ℕ b'S'
    then "s"
    else if n =ℕ b'T'
    then "t"
    else if n =ℕ b'U'
    then "u"
    else if n =ℕ b'V'
    then "v"
    else if n =ℕ b'W'
    then "w"
    else if n =ℕ b'X'
    then "x"
    else if n =ℕ b'Y'
    then "y"
    else if n =ℕ b'Z'
    then "z"
    else if n =ℕ 304
    then "i"
    else if n =ℕ 8490
    then "k"
    else c

-- strings.ToLower, compared by the source with ASCII texts only
unfoldable pub to_lower : String → String
unfolding lower
to_lower [] = []
to_lower (c ∷ s) = lower c ∷ to_lower s

-- strings.HasPrefix
unfoldable pub has_prefix : String → String → Bool
has_prefix s [] = true
has_prefix [] (p ∷ ps) = false
has_prefix (c ∷ s) (p ∷ ps) = code c =ℕ code p && has_prefix s ps

-- strings.Contains
unfoldable pub contains : String → String → Bool
unfolding has_prefix
contains [] sub = is_empty sub
contains (c ∷ s) sub = has_prefix (c ∷ s) sub || contains s sub

-- strings.Join
unfoldable pub join : List String → String → String
join List.[] sep = ""
join (List.◌∷◌ s List.[]) sep = s
join (List.◌∷◌ s (List.◌∷◌ t more)) sep = s ++ (sep ++ join (List.◌∷◌ t more) sep)

unfoldable pub digit : ℕ → Char
digit d =
    if d =ℕ 0
    then "0"
    else if d =ℕ 1
    then "1"
    else if d =ℕ 2
    then "2"
    else if d =ℕ 3
    then "3"
    else if d =ℕ 4
    then "4"
    else if d =ℕ 5
    then "5"
    else if d =ℕ 6
    then "6"
    else if d =ℕ 7
    then "7"
    else if d =ℕ 8
    then "8"
    else "9"

-- The digits of a number before a text; the fuel is above the number, which loses a digit a round.
unfoldable pub decimal_onto : ℕ → ℕ → String → String
decimal_onto zero n out = out
decimal_onto (suc fuel) n out =
    let more = decimal_onto fuel (n / 10) (digit (n % 10) ∷ out) in
    if ltb n 10 then digit n ∷ out else more

-- fmt.Sprintf("%d", n)
unfoldable pub decimal : ℕ → String
unfolding decimal_onto digit
decimal n = decimal_onto (suc n) n ""

-- The escapes of strconv.Quote for ASCII texts: the quote, the backslash and the named controls.
quote_char : Char → String
quote_char c =
    let n = code c in
    if n =ℕ 34
    then "\\\""
    else if n =ℕ 92
    then "\\\\"
    else if n =ℕ 7
    then "\\a"
    else if n =ℕ 8
    then "\\b"
    else if n =ℕ 12
    then "\\f"
    else if n =ℕ 10
    then "\\n"
    else if n =ℕ 13
    then "\\r"
    else if n =ℕ 9
    then "\\t"
    else if n =ℕ 11
    then "\\v"
    else c ∷ []

quote_chars : String → String
unfolding quote_char
quote_chars [] = "\""
quote_chars (c ∷ s) = quote_char c ++ quote_chars s

-- fmt.Sprintf("%q", s)
unfoldable pub quote : String → String
unfolding quote_chars
quote s = "\"" ++ quote_chars s

-- An int32 or int64: `negsuc n` is -(n + 1).
pub data ℤ : Type 0 where
  pos : ℕ → ℤ
  negsuc : ℕ → ℤ

-- fmt.Sprintf("%d", n) of a signed number
unfoldable pub decimal_signed : ℤ → String
unfolding decimal
decimal_signed (pos n) = decimal n
decimal_signed (negsuc n) = "-" ∷ decimal (suc n)

String-discrete : Discrete String
String-discrete s t =
    dite (Bool-discrete (s == t) true) (λ same. yes ((eq_iff s t).0 same))
      (λ differ. no (λ p. differ ((eq_iff s t).1 p)))

pub String-set : IsSet String
String-set = hedberg String-discrete
