-- ===== src/Common/Words.antt =====
-- 64-bit words, Go's times and durations, and the `%x` format.
-- A time is a number of nanoseconds since the year 1, so that every time at which the program runs
-- is above 2 ^ 63 and a duration of either sign can be added to it.
use Prim.Native.Nat.{ℕ, zero, suc, ◌+◌, ◌-◌, ◌*◌, ◌/◌, ◌%◌, ◌^◌, ◌<◌}
use Prim.Native.Char.{code}
use Prim.Native.String
use Prim.Native.String.{String}
use mathlib.Core.Path.{◌≡◌, refl}
use mathlib.Core.List.{List, [], ◌∷◌}
use native.Mathlib.Omega.{arith}
use mathlib.Core.Bool.{◌&&◌, ◌||◌}
use text.Mathlib.Text.{◌==◌}
use text.Mathlib.TextLemmas.{append-nil}
use lslc_core.Common.Tests.{ltb, eqb, if◌then◌else◌}

-- `t.Add(time.Duration(seconds) * time.Second)`: the product is an int64, and wraps.
unfoldable pub add_seconds : ℕ → ℕ → ℕ
add_seconds t seconds =
    let w = seconds * 1_000_000_000 % 2 ^ 64 in if ltb w (2 ^ 63) then t + w else t + w - 2 ^ 64

-- Within the range of a duration the sum is exact.
pub add_seconds_exact :
    (t seconds : ℕ)
    → seconds * 1_000_000_000 < 2 ^ 63
    → add_seconds t seconds ≡ t + seconds * 1_000_000_000
unfolding add_seconds
add_seconds_exact t seconds h = ground arith

-- One hexadecimal digit.
digit : ℕ → String
digit n = Prim.Native.String.slice "0123456789abcdef" n (n + 1)

-- At most 20 digits: every 64-bit word.
decimal_from : ℕ → ℕ → String → String
decimal_from zero n tail = tail
decimal_from (suc fuel) n tail =
    let text = String.◌++◌ (digit (n % 10)) tail in
    let more = decimal_from fuel (n / 10) text in if ltb n 10 then text else more

-- `%d` of a number that is not negative.
unfoldable pub format_decimal : ℕ → String
unfolding digit decimal_from
format_decimal n = decimal_from 20 n ""

test_decimal : format_decimal 100 ≡ "100"
unfolding format_decimal digit decimal_from
test_decimal = refl

-- At most 16 digits: every 64-bit word.
hex_from : ℕ → ℕ → String → String
hex_from zero n tail = tail
hex_from (suc fuel) n tail =
    let more = hex_from fuel (n / 16) (String.◌++◌ (digit (n % 16)) tail) in
    if eqb n 0 then tail else more

-- fmt.Sprintf("%x", n) of an int64, given by its bits
unfoldable pub format_hex : ℕ → String
unfolding hex_from digit
format_hex n =
    if eqb n 0
    then "0"
    else if ltb n (2 ^ 63)
    then hex_from 16 n ""
    else String.◌++◌ "-" (hex_from 16 (2 ^ 64 - n) "")

test_hex : format_hex 1448465733 ≡ "5655d545"
unfolding format_hex
test_hex = refl

-- The texts one after the other: what fmt.Sprintf does with `%s`.
abbrev pub concat : List String → String
concat [] = ""
concat (s ∷ l) = String.◌++◌ s (concat l)

-- bytes.TrimRight(s, "\n\r")
unfoldable pub trim_newlines : String → String
trim_newlines String.[] = String.[]
trim_newlines (String.◌∷◌ c s) =
    let rest = trim_newlines s in
    if rest == "" && (eqb (code c) 10 || eqb (code c) 13) then String.[] else String.◌∷◌ c rest

test_trim : trim_newlines "21\n\n" ≡ "21"
unfolding trim_newlines
test_trim = refl

-- strings.Join(l, " ")
abbrev pub join_words : List String → String
join_words [] = ""
join_words (s ∷ []) = s
join_words (s ∷ t ∷ l) = String.◌++◌ s (String.◌++◌ " " (join_words (t ∷ l)))

-- A text alone is itself.
pub concat_one : (s : String) → concat (s ∷ []) ≡ s
concat_one s = append-nil s
