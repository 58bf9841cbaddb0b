-- ===== src/Resources/Tests.antt =====
-- A manager with one path, for the theorems about resources.
use sfrpg.Base.{◌≡◌, refl, ◌∷◌, [], Option, none, some, List, Text, codes, ℕ, length, arith}
use sfrpg.Resources.{Manager, find_entry}
use sfrpg.Resources.Spec.{Call, requires, releases, spec_calls, calls, users_of, available}
use sfrpg.Resources.Counts.{calls-spec_calls}

abbrev shelf : Manager ℕ
shelf = record {
  resources = (codes "grass", (8, 2)) ∷ [];
  paths = (codes "grass", codes "g.png") ∷ (codes "tree", codes "tree.png") ∷ [];
}

abbrev load_length : Text → Option ℕ
load_length [] = none
load_length (c ∷ path) = some (length path)

abbrev script : List Call
script =
    requires (codes "tree")
    ∷ releases (codes "grass")
    ∷ releases (codes "tree")
    ∷ requires (codes "rock")
    ∷ []

calls-spec_calls_example :
    let run = calls load_length script shelf in
    let expected = spec_calls (available load_length shelf.paths) script (users_of shelf) in
    (run.1 ≡ expected.1) × ((j : Text) → users_of run.0 j ≡ expected.0 j)
unfolding find_entry
calls-spec_calls_example =
    calls-spec_calls load_length script shelf (omega arith) (refl, (omega arith, omega arith), tt)
