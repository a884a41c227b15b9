-- ===== src/Common/Show.antt =====
-- `String(id)` for a request id, and joined texts (template literals).
use Prim.Native.Nat.{ℕ, zero, suc, ◌/◌, ◌%◌}
use Prim.Native.String
use Prim.Native.String.{String}
use mathlib.Core.List.{List, [], ◌∷◌}
use mathlib.Core.Option.{Option, none, some}
use mokei.Common.Tests.{ltb, if◌then◌else◌}
use mokei.Common.Lists.{get_elem?}
use mokei.Common.Json.{ℤ, pos, negsuc}
use mokei.Common.Keys.{RequestId, integer, string}

abbrev digits_text : List String
digits_text = "0" ∷ "1" ∷ "2" ∷ "3" ∷ "4" ∷ "5" ∷ "6" ∷ "7" ∷ "8" ∷ "9" ∷ []

or_empty : Option String → String
or_empty none = ""
or_empty (some s) = s

digit : ℕ → String
unfolding or_empty
digit n = or_empty (get_elem? digits_text n)

-- Each round divides by ten, so `n` rounds are more than enough for `n`.
show_from : ℕ → ℕ → String → String
show_from zero n acc = acc
show_from (suc fuel) n acc =
    let more = show_from fuel (n / 10) (String.◌++◌ (digit (n % 10)) acc) in
    if ltb n 10 then String.◌++◌ (digit n) acc else more

unfoldable pub show_nat : ℕ → String
unfolding show_from digit
show_nat n = show_from (suc n) n ""

unfoldable pub show_int : ℤ → String
unfolding show_nat
show_int (pos n) = show_nat n
show_int (negsuc n) = String.◌++◌ "-" (show_nat (suc n))

unfoldable pub show_id : RequestId → String
unfolding show_int
show_id (integer n) = show_int n
show_id (string s) = s

unfoldable pub concat : List String → String
concat [] = ""
concat (s ∷ rest) = String.◌++◌ s (concat rest)
