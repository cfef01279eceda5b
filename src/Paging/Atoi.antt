-- ===== src/Paging/Atoi.antt =====
-- Go's strconv.Atoi for a 64-bit `int`: an optional sign, at least one decimal digit, and the range.
use lslc_core.Common.{
  ℕ, ◌+◌, ◌-◌, ◌*◌, ◌^◌, String, ◌&&◌, List, [], ◌∷◌, Option, none, some, leb, ltb, eqb,
  if◌then◌else◌,
}
use lslc_core.Common.Texts.{codes}
use lslc_core.Common.Int.{ℤ, pos, negsuc}

decimal_from : ℕ → List ℕ → Option ℕ
decimal_from n [] = some n
decimal_from n (c ∷ cs) =
    let rest = decimal_from (n * 10 + (c - b'0')) cs in
    if leb b'0' c && leb c b'9' then rest else none

decimal : List ℕ → Option ℕ
unfolding decimal_from
decimal [] = none
decimal (c ∷ cs) = decimal_from 0 (c ∷ cs)

in_range : Option ℕ → Option ℤ
in_range none = none
in_range (some n) = if ltb n (2 ^ 63) then some (pos n) else none

negated : Option ℕ → Option ℤ
negated none = none
negated (some n) =
    if eqb n 0 then some (pos 0) else if leb n (2 ^ 63) then some (negsuc (n - 1)) else none

signed : List ℕ → Option ℤ
unfolding decimal in_range negated
signed [] = none
signed (c ∷ cs) =
    if eqb c b'-'
    then negated (decimal cs)
    else if eqb c b'+'
    then in_range (decimal cs)
    else in_range (decimal (c ∷ cs))

unfoldable pub atoi : String → Option ℤ
unfolding signed
atoi text = signed (codes text)
