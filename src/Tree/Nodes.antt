-- ===== src/Tree/Nodes.antt =====
-- The nodes of the secondary indices and their comparison functions: `Map`, `stringKeys` and
-- `timeKeys` of src/linksmart.eu/lc/core/catalog/resource/controller.go and `Map` and `timeKeys`
-- of catalog/service/controller.go. A time is a number of nanoseconds since the year 1.
use Prim.Native.Nat.{Ordering}
use Prim.Native.String.{compare}
use text.Mathlib.Text.{is_lt}
use lslc_core.Common.{ℕ, String, Bool, true, false, ltb, if◌then◌else◌}

pub record Map (K : Type 0) : Type 0 where
  pub key : K
  pub value : String

-- `<` on Go's strings: by the bytes, which is by the code points
abbrev pub str_lt : String → String → Bool
str_lt a b = is_lt (compare a b)

abbrev pub is_gt : Ordering → Bool
is_gt Ordering.gt = true
is_gt _ = false

-- `>` on Go's strings
abbrev pub str_gt : String → String → Bool
str_gt a b = is_gt (compare a b)

unfoldable pub string_keys : Map String → Map String → Ordering
string_keys a b =
    if str_lt a.key b.key
    then Ordering.lt
    else if str_gt a.key b.key
    then Ordering.gt
    else Ordering.eq

unfoldable pub time_keys : Map ℕ → Map ℕ → Ordering
time_keys a b =
    if ltb a.key b.key then Ordering.lt else if ltb b.key a.key then Ordering.gt else Ordering.eq
