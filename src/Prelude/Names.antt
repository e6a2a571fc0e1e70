-- ===== src/Prelude/Names.antt =====
-- Python's `sorted(set(...))` of names: one of each, in code point order.
use Prim.Native.String.{compare}
use text.Mathlib.Text.{is_lt}
use Prim.Native.String.{String}
use mathlib.Core.Path.{◌≡◌, refl}
use mathlib.Core.Bool.{true, false, ◌&&◌, ◌||◌}
use mathlib.Core.List.{List, [], ◌∷◌}
use native.Mathlib.Omega.{arith}
use text.Mathlib.Text.{◌==◌}
use text.Mathlib.TextEquality.{eq_iff}
use decision_ledger.Prelude.Tests.{if◌then◌else◌}
use decision_ledger.Prelude.Lists.{contains, distinct}

unfoldable pub dedupe : List String → List String
dedupe [] = []
dedupe (n ∷ ns) = let rest = dedupe ns in if contains rest n then rest else n ∷ rest

unfoldable pub insert_name : String → List String → List String
insert_name n [] = n ∷ []
insert_name n (m ∷ ms) = if is_lt (compare m n) then m ∷ insert_name n ms else n ∷ m ∷ ms

unfoldable pub sort_names : List String → List String
unfolding insert_name
sort_names [] = []
sort_names (n ∷ ns) = insert_name n (sort_names ns)

unfoldable pub sorted_set : List String → List String
unfolding dedupe sort_names
sorted_set names = sort_names (dedupe names)

-- `a - b`
unfoldable pub without : List String → List String → List String
without [] removed = []
without (n ∷ ns) removed =
    let rest = without ns removed in if contains removed n then rest else n ∷ rest

contains-dedupe : (ns : List String) (k : String) → contains (dedupe ns) k ≡ contains ns k
unfolding dedupe
contains-dedupe [] k = refl
contains-dedupe (n ∷ ns) k = ground (arith, contains-dedupe ns k, contains-dedupe ns n, eq_iff n k)

contains-insert_name :
    (n : String) (ns : List String) (k : String)
    → contains (insert_name n ns) k ≡ (n == k || contains ns k)
unfolding insert_name
contains-insert_name n [] k = refl
contains-insert_name n (m ∷ ms) k = ground (arith, contains-insert_name n ms k)

contains-sort_names : (ns : List String) (k : String) → contains (sort_names ns) k ≡ contains ns k
unfolding sort_names
contains-sort_names [] k = refl
contains-sort_names (n ∷ ns) k =
    ground (arith, contains-insert_name n (sort_names ns) k, contains-sort_names ns k)

-- The elements are those of the list.
pub contains-sorted_set :
    (ns : List String) (k : String) → contains (sorted_set ns) k ≡ contains ns k
unfolding sorted_set
contains-sorted_set ns k = rw (contains-sort_names, contains-dedupe)

pub contains-without :
    (ns removed : List String) (k : String)
    → contains (without ns removed) k
      ≡ (contains ns k && (if contains removed k then false else true))
unfolding without
contains-without [] removed k = refl
contains-without (n ∷ ns) removed k = ground (arith, contains-without ns removed k, eq_iff n k)

distinct-dedupe : (ns : List String) → distinct (dedupe ns) ≡ true
unfolding dedupe
distinct-dedupe [] = refl
distinct-dedupe (n ∷ ns) = ground (arith, distinct-dedupe ns)

distinct-insert_name :
    (n : String) (ns : List String) → distinct (insert_name n ns) ≡ distinct (n ∷ ns)
unfolding insert_name
distinct-insert_name n [] = refl
distinct-insert_name n (m ∷ ms) =
    ground (arith, distinct-insert_name n ms, contains-insert_name n ms m, eq_iff n m, eq_iff m n)

distinct-sort_names : (ns : List String) → distinct (sort_names ns) ≡ distinct ns
unfolding sort_names
distinct-sort_names [] = refl
distinct-sort_names (n ∷ ns) =
    rw distinct-insert_name (rw (contains-sort_names, distinct-sort_names ns))

-- None is listed twice.
pub distinct-sorted_set : (ns : List String) → distinct (sorted_set ns) ≡ true
unfolding sorted_set
distinct-sorted_set ns = rw distinct-sort_names (distinct-dedupe ns)
