-- ===== src/Common/Tables.antt =====
-- Tables checked entry by entry, and predicates on every element of a list.
use Prim.Native.Nat.{ℕ, zero, suc, ◌<◌}
use mathlib.Core.Path.{◌≡◌}
use mathlib.Core.Bool.{Bool, true, ◌&&◌}
use mathlib.Core.List.{List, [], ◌∷◌}
use native.Mathlib.Omega.{arith}

-- Does the entry at each index below `size` pass the test?
unfoldable pub every_entry : (ℕ → Bool) → (size : ℕ) → Bool
every_entry ok zero = true
every_entry ok (suc size) = every_entry ok size && ok size

pub entry_of_every :
    (ok : ℕ → Bool) (size i : ℕ) → i < size → every_entry ok size ≡ true → ok i ≡ true
unfolding every_entry
entry_of_every ok zero i below passed = elim below [ ]
entry_of_every ok (suc size) i below passed = ground (arith, entry_of_every ok size i)

abbrev pub All {ℓ κ} : {A : Type ℓ} → (A → Type κ) → List A → Type κ
All P [] = Unit
All P (x ∷ xs) = P x × All P xs
