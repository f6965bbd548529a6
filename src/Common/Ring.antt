-- ===== src/Common/Ring.antt =====
-- Arrays that are used as a ring: the items from a start index on, going round at the end.
use Prim.Native.Nat.{ℕ, zero, suc, ◌+◌, ◌-◌, ◌%◌, ◌≤◌, ◌<◌}
use mathlib.Core.Path.{◌≡◌, refl, sym, ap, ap₂, ◌∙◌}
use mathlib.Core.Logic.{◌≢◌, ◌⊎◌, inl, inr}
use mathlib.Core.List.{List, [], ◌∷◌, ◌++◌}
use native.Mathlib.Nat.{mod-add-mod, mod-eq_of_lt, mod-eq-sub-mod, add-zero}
use native.Mathlib.Decide.{dec_lt}
use native.Mathlib.Omega.{arith}
use linux_programs.Common.Lists.{length, get_or, set, get_or-set_self, get_or-set_ne}

-- Where the index `h + k` comes to lie, for two indices below the size.
pub around :
    (n h k : ℕ)
    → h < n
    → k ≤ n
    → ((h + k < n) × ((h + k) % n ≡ h + k)) ⊎ ((n ≤ h + k) × ((h + k) % n ≡ h + k - n))
around n h k p q = elim (dec_lt (h + k) n) [
  | yes below ↦ inl (below, mod-eq_of_lt below)
  | no past ↦ inr (
    omega arith,
    omega (
      arith,
      mod-eq-sub-mod {n = h + k} {m = n} (omega arith),
      mod-eq_of_lt {n = h + k - n} {m = n} (omega arith),
    ),
  )
]

pub index_lt : (n h : ℕ) → 0 < n → h % n < n
index_lt n h p = omega arith

-- `i = (i + 1 == n) ? 0 : i + 1` and `i = (i + 1) % n` are the same on an index.
pub next_index : (n i : ℕ) → i < n → i + 1 ≡ n → (i + 1) % n ≡ 0
next_index n i p e = omega (arith, around n i 1 p (omega arith))

pub next-mod : (n h k : ℕ) → ((h + k) % n + 1) % n ≡ (h + suc k) % n
next-mod n h k = rw mod-add-mod (ap (λ (t : ℕ). t % n) (omega arith))

pub length-snoc {ℓ} : {A : Type ℓ} (xs : List A) (x : A) → length (xs ++ (x ∷ [])) ≡ suc (length xs)
length-snoc [] x = refl
length-snoc (y ∷ xs) x = ap suc (length-snoc xs x)

module _ {ℓ} {A : Type ℓ} (n : ℕ) (d : A) where
  -- The `count` items from index `h` on.
  abbrev pub slots : List A → (h count : ℕ) → List A
  slots items h zero = []
  slots items h (suc count) = get_or items h d ∷ slots items ((h + 1) % n) count

  pub length-slots : (items : List A) (h count : ℕ) → length (slots items h count) ≡ count
  length-slots items h zero = refl
  length-slots items h (suc count) = ap suc (length-slots items ((h + 1) % n) count)

  pub step_index : (h k : ℕ) → ((h + 1) % n + k) % n ≡ (h + suc k) % n
  step_index h k = rw mod-add-mod (ap (λ (t : ℕ). t % n) (omega arith))

  -- One more item stands at the end of the window.
  pub slots-suc :
      (items : List A) (h count : ℕ)
      → h < n
      → slots items h (suc count) ≡ slots items h count ++ (get_or items ((h + count) % n) d ∷ [])
  slots-suc items h zero p = rw (add-zero, mod-eq_of_lt p) refl
  slots-suc items h (suc count) p =
      ap (λ r. get_or items h d ∷ r)
        (rw (← step_index h count)
          (slots-suc items ((h + 1) % n) count (index_lt n (h + 1) (omega arith))))

  -- A write outside of the window does not show in it.
  pub slots-set_away :
      (items : List A) (i : ℕ) (v : A) (h count : ℕ)
      → ((k : ℕ) → k < count → (h + k) % n ≢ i)
      → h < n
      → slots (set items i v) h count ≡ slots items h count
  slots-set_away items i v h zero away p = refl
  slots-set_away items i v h (suc count) away p =
      ap₂ ◌∷◌
        (get_or-set_ne items i h v d
          (λ e. away 0 (omega arith) (rw (add-zero, mod-eq_of_lt p) (sym e))))
        (slots-set_away items i v ((h + 1) % n) count
          (λ k q e. away (suc k) (omega arith) (sym (step_index h k) ∙ e))
          (index_lt n (h + 1) (omega arith)))

  -- Writing just past a window makes it one item longer.
  pub slots-set_next :
      (items : List A) (v : A) (h count : ℕ)
      → n ≤ length items
      → h < n
      → count < n
      → slots (set items ((h + count) % n) v) h (suc count) ≡ slots items h count ++ (v ∷ [])
  slots-set_next items v h count room p q =
      let i = (h + count) % n in
      let inside : i < n = index_lt n (h + count) (omega arith) in
      slots-suc (set items i v) h count p
      ∙ ap₂ (λ xs x. xs ++ (x ∷ []))
          (slots-set_away items i v h count
            (λ k below e.
              omega (arith, around n h k p (omega arith), around n h count p (omega arith), e))
            p)
          (get_or-set_self items i v d (omega arith))
