-- ===== src/Prelude/Text.antt =====
-- Text as the program cuts and builds it. A `String` is Go's string; the separators are ASCII.
use Prim.Native.Nat.{ℕ, zero, suc, ◌/◌, ◌%◌}
use Prim.Native.Char.{Char, code}
use Prim.Native.String.{String, [], ◌∷◌, ◌++◌ as ◌<>◌, compare}
use mathlib.Core.Path.{◌≡◌, refl}
use mathlib.Core.Bool.{Bool, false, ◌||◌}
use mathlib.Core.Option.{Option, none, some}
use native.Mathlib.Omega.{arith}
use text.Mathlib.Text.{is_lt}
use envelope.Prelude.Tests.{◌==◌, ltb, if◌then◌else◌}
use envelope.Prelude.Int.{ℤ, pos, negsuc}

-- Go's `<` on strings.
abbrev pub before : String → String → Bool
before s t = is_lt (compare s t)

abbrev pub in_front : Char → Option (String × String) → Option (String × String)
in_front c none = none
in_front c (some (head, tail)) = some (c ∷ head, tail)

-- strings.Cut at a one-character separator, given by its number.
unfoldable pub cut : ℕ → String → Option (String × String)
cut separator [] = none
cut separator (c ∷ s) = if code c == separator then some ([], s) else in_front c (cut separator s)

-- strings.ReplaceAll of one character by another.
unfoldable pub replace : ℕ → Char → String → String
replace old new [] = []
replace old new (c ∷ s) = (if code c == old then new else c) ∷ replace old new s

-- Whether a character occurs.
unfoldable pub has_char : ℕ → String → Bool
has_char n [] = false
has_char n (c ∷ s) = (code c == n) || has_char n s

pub has_char-replace :
    (n old : ℕ) (new : Char) (s : String)
    → (code new == n) ≡ false
    → has_char n s ≡ false
    → has_char n (replace old new s) ≡ false
unfolding has_char replace
has_char-replace n old new [] h e = refl
has_char-replace n old new (c ∷ s) h e = ground (arith, has_char-replace n old new s)

pub has_char-replace_self :
    (old : ℕ) (new : Char) (s : String)
    → (code new == old) ≡ false
    → has_char old (replace old new s) ≡ false
unfolding has_char replace
has_char-replace_self old new [] h = refl
has_char-replace_self old new (c ∷ s) h = ground (arith, has_char-replace_self old new s)

-- %d of a number that is not negative.
digit : ℕ → Char
digit n =
    if n == 0
    then "0"
    else if n == 1
    then "1"
    else if n == 2
    then "2"
    else if n == 3
    then "3"
    else if n == 4
    then "4"
    else if n == 5
    then "5"
    else if n == 6
    then "6"
    else if n == 7
    then "7"
    else if n == 8
    then "8"
    else "9"

decimal_from : ℕ → ℕ → String → String
decimal_from zero n tail = tail
decimal_from (suc fuel) n tail =
    let more = decimal_from fuel (n / 10) (digit (n % 10) ∷ tail) in
    if ltb n 10 then digit n ∷ tail else more

unfoldable pub decimal : ℕ → String
unfolding decimal_from digit
decimal n = decimal_from (suc n) n []

-- %q of printable text: quoted, a quote or backslash escaped.
quoted : String → String
quoted [] = "\""
quoted (c ∷ s) = if (code c == 34) || (code c == 92) then "\\" <> (c ∷ quoted s) else c ∷ quoted s

unfoldable pub quote : String → String
unfolding quoted
quote s = "\"" <> quoted s

-- strings.TrimSuffix of one character.
unfoldable pub trim_last : ℕ → String → String
trim_last n [] = []
trim_last n (c ∷ []) = if code c == n then [] else c ∷ []
trim_last n (c ∷ (d ∷ s)) = c ∷ trim_last n (d ∷ s)

-- strconv.Itoa
unfoldable pub itoa : ℤ → String
unfolding decimal
itoa (pos n) = decimal n
itoa (negsuc n) = "-" <> decimal (suc n)

-- net.JoinHostPort
unfoldable pub join_host_port : String → String → String
unfolding has_char
join_host_port host port =
    if has_char b':' host then "[" <> (host <> ("]:" <> port)) else host <> (":" <> port)

-- strings.CutPrefix: what follows the prefix.
unfoldable pub strip_prefix : String → String → Option String
strip_prefix [] s = some s
strip_prefix (c ∷ prefix) [] = none
strip_prefix (c ∷ prefix) (d ∷ s) =
    let rest = strip_prefix prefix s in if code c == code d then rest else none

-- The first result of strings.Cut.
unfoldable pub before_first : ℕ → String → String
before_first separator [] = []
before_first separator (c ∷ s) =
    let rest = before_first separator s in if code c == separator then [] else c ∷ rest
