-- ===== src/Poll/Tables/Count.antt =====
-- Searches and writes in the table of watched descriptors, counted.
use linux_programs.Common.{
  ℕ, zero, suc, ◌+◌, ◌≤◌, ◌<◌, ◌≡◌, ◌≢◌, refl, sym, ap, ap₂, ◌∙◌, inl, inr, arith, true, false,
  Bool-cases, Option, none, some, Option-cases, List, [], ◌∷◌, ◌==◌, if◌then◌else◌, get_or, set,
  length, length-set, get_or-set_ne, get_or-set_self,
}
use linux_programs.Poll.Tables.{
  max_service, max_connections, same_fd, find_fd, find_watched, find_index, watch, unwatch,
}

-- 1 for a watched descriptor.
abbrev pub taken : Option ℕ → ℕ
taken none = 0
taken (some fd) = 1

-- 1 for the descriptor `x`.
abbrev pub is_at : ℕ → Option ℕ → ℕ
is_at x none = 0
is_at x (some fd) = if fd == x then 1 else 0

-- The places from `i` on, `left` of them, summed by a measure.
unfoldable pub total_from : (Option ℕ → ℕ) → (left i : ℕ) → List (Option ℕ) → ℕ
total_from f zero i xs = 0
total_from f (suc left) i xs = f (get_or xs i none) + total_from f left (i + 1) xs

-- A found place is in range and holds the descriptor.
pub find_fd-some :
    (left i : ℕ) (xs : List (Option ℕ)) (fd : Option ℕ) {k : ℕ}
    → find_fd left i xs fd ≡ some k
    → (i ≤ k) × (k < i + left) × (same_fd fd (get_or xs k none) ≡ true)
unfolding find_fd
find_fd-some zero i xs fd e = absurd (cc e)
find_fd-some (suc left) i xs fd {k} e = elim (Bool-cases (same_fd fd (get_or xs i none))) [
  | inl here ↦
      let at_i : i ≡ k = cc (here, e) in
      (omega arith, omega arith, ap (λ q. same_fd fd (get_or xs q none)) (sym at_i) ∙ here)
  | inr there ↦
      let (low, high, holds) = find_fd-some left (i + 1) xs fd {k = k} (cc (there, e)) in
      (omega arith, omega arith, holds)
]

-- Where the search finds nothing, no place holds the descriptor.
total_from-is_at :
    (left i : ℕ) (xs : List (Option ℕ)) (fd : ℕ)
    → find_fd left i xs (some fd) ≡ none
    → total_from (is_at fd) left i xs ≡ 0
unfolding find_fd total_from
total_from-is_at zero i xs fd e = refl
total_from-is_at (suc left) i xs fd e = elim (Bool-cases (same_fd (some fd) (get_or xs i none))) [
  | inl here ↦ absurd (cc (here, e))
  | inr there ↦
      let rest = total_from-is_at left (i + 1) xs fd (cc (there, e)) in
      elim (Option-cases (get_or xs i none)) [
        | inl free ↦ rw free (omega (arith, rest))
        | inr (other, held) ↦
            let differ : (fd == other) ≡ false = ap (same_fd (some fd)) (sym held) ∙ there in
            let off : (other == fd) ≡ false = ground arith in rw (held, off) (omega (arith, rest))
      ]
]

-- Where it finds no free place, all places are taken.
total_from-taken :
    (left i : ℕ) (xs : List (Option ℕ))
    → find_fd left i xs none ≡ none
    → total_from taken left i xs ≡ left
unfolding find_fd total_from
total_from-taken zero i xs e = refl
total_from-taken (suc left) i xs e = elim (Option-cases (get_or xs i none)) [
  | inl free ↦
      let here : same_fd none (get_or xs i none) ≡ true = ap (same_fd none) free in
      absurd (cc (here, e))
  | inr (other, held) ↦
      let there : same_fd none (get_or xs i none) ≡ false = ap (same_fd none) held in
      rw held (omega (arith, total_from-taken left (i + 1) xs (cc (there, e))))
]

total_from-set_away :
    (f : Option ℕ → ℕ) (left i : ℕ) (xs : List (Option ℕ)) (k : ℕ) (v : Option ℕ)
    → k < i
    → total_from f left i (set xs k v) ≡ total_from f left i xs
unfolding total_from
total_from-set_away f zero i xs k v low = refl
total_from-set_away f (suc left) i xs k v low =
    ap₂ (λ (a b : ℕ). a + b) (ap f (get_or-set_ne xs k i v none (omega arith)))
      (total_from-set_away f left (i + 1) xs k v (omega arith))

-- What a write to a place in range changes of the sum.
pub total_from-set :
    (f : Option ℕ → ℕ) (left i : ℕ) (xs : List (Option ℕ)) (k : ℕ) (v : Option ℕ)
    → i ≤ k
    → k < i + left
    → k < length xs
    → total_from f left i (set xs k v) + f (get_or xs k none) ≡ total_from f left i xs + f v
unfolding total_from
total_from-set f zero i xs k v low high inside = absurd (omega arith)
total_from-set f (suc left) i xs k v low high inside = elim (Bool-cases (i == k)) [
  | inl here ↦
      let at_k : i ≡ k = ground arith in
      let new : f (get_or (set xs k v) i none) ≡ f v =
        ap f (ap (λ q. get_or (set xs k v) q none) at_k ∙ get_or-set_self xs k v none inside) in
      let old : f (get_or xs i none) ≡ f (get_or xs k none) = ap (λ q. f (get_or xs q none)) at_k in
      omega (arith, new, old, total_from-set_away f left (i + 1) xs k v (omega arith))
  | inr there ↦
      let past : i < k = ground arith in
      let same : f (get_or (set xs k v) i none) ≡ f (get_or xs i none) =
        ap f (get_or-set_ne xs k i v none (omega arith)) in
      omega (arith, same, total_from-set f left (i + 1) xs k v (omega arith) (omega arith) inside)
]

-- The sum over the places of the connections.
abbrev pub watching : (Option ℕ → ℕ) → List (Option ℕ) → ℕ
watching f watched = total_from f max_connections max_service watched

same_fd-none : (o : Option ℕ) → same_fd none o ≡ true → o ≡ none
same_fd-none none e = refl
same_fd-none (some fd) e = absurd (cc e)

-- With a free place, `watch` adds one entry for the descriptor.
pub watch-watching :
    (f : Option ℕ → ℕ) (watched : List (Option ℕ)) (fd : ℕ)
    → length watched ≡ max_connections + max_service
    → f none ≡ 0
    → watching taken watched < max_connections
    → watching f (watch watched fd) ≡ watching f watched + f (some fd)
unfolding watch find_watched
watch-watching f watched fd size zero' room = elim (Option-cases (find_watched watched none)) [
  | inl full ↦ absurd (omega (arith, total_from-taken max_connections max_service watched full))
  | inr (k, found) ↦
      let (low, high, holds) =
        find_fd-some max_connections max_service watched none {k = k} found in
      let free : get_or watched k none ≡ none = same_fd-none (get_or watched k none) holds in
      let empty : f (get_or watched k none) ≡ 0 = ap f free ∙ zero' in
      rw (watch, found)
        (omega (
          arith,
          empty,
          total_from-set f max_connections max_service watched k (some fd) low high
              (omega (arith, size)),
        ))
]

same_fd-some : (fd : ℕ) (o : Option ℕ) → same_fd (some fd) o ≡ true → o ≡ some fd
same_fd-some fd none e = absurd (cc e)
same_fd-some fd (some other) e = let same : other ≡ fd = ground arith in ap some same

-- A watched descriptor is found.
pub find_watched-some :
    (watched : List (Option ℕ)) (fd : ℕ)
    → 0 < watching (is_at fd) watched
    → (k : ℕ) × (find_watched watched (some fd) ≡ some k) × (get_or watched k none ≡ some fd)
unfolding find_watched
find_watched-some watched fd there = elim (Option-cases (find_watched watched (some fd))) [
  | inl missing ↦
      absurd (omega (arith, total_from-is_at max_connections max_service watched fd missing))
  | inr (k, found) ↦
      let (low, high, holds) =
        find_fd-some max_connections max_service watched (some fd) {k = k} found in
      (k, found, same_fd-some fd (get_or watched k none) holds)
]

pub find_index-some :
    (watched : List (Option ℕ)) (fd : ℕ) {k : ℕ}
    → fd ≢ 0
    → find_watched watched (some fd) ≡ some k
    → find_index watched (some fd) ≡ some (some k)
unfolding find_index
find_index-some watched fd nz found =
    let test : (fd == 0) ≡ false = ground arith in rw (find_index, test) (ap some found)

-- `unwatch` of a watched descriptor takes one entry for it away.
pub unwatch-watching :
    (f : Option ℕ → ℕ) (watched : List (Option ℕ)) (fd : ℕ)
    → length watched ≡ max_connections + max_service
    → f none ≡ 0
    → 0 < watching (is_at fd) watched
    → watching f (unwatch watched (some fd)) + f (some fd) ≡ watching f watched
unfolding unwatch find_watched
unwatch-watching f watched fd size zero' there =
    elim (Option-cases (find_watched watched (some fd))) [
      | inl missing ↦
          absurd (omega (arith, total_from-is_at max_connections max_service watched fd missing))
      | inr (k, found) ↦
          let (low, high, holds) =
            find_fd-some max_connections max_service watched (some fd) {k = k} found in
          let held : f (get_or watched k none) ≡ f (some fd) =
            ap f (same_fd-some fd (get_or watched k none) holds) in
          rw (unwatch, found)
            (omega (
              arith,
              held,
              zero',
              total_from-set f max_connections max_service watched k none low high
                  (omega (arith, size)),
            ))
    ]

pub length-watch : (watched : List (Option ℕ)) (fd : ℕ) → length (watch watched fd) ≡ length watched
unfolding watch
length-watch watched fd = elim (Option-cases (find_watched watched none)) [
  | inl full ↦ rw (watch, full)
  | inr (k, found) ↦ rw (watch, found) (length-set watched k (some fd))
]

pub length-unwatch :
    (watched : List (Option ℕ)) (fd : Option ℕ) → length (unwatch watched fd) ≡ length watched
unfolding unwatch
length-unwatch watched fd = elim (Option-cases (find_watched watched fd)) [
  | inl missing ↦ rw (unwatch, missing)
  | inr (k, found) ↦ rw (unwatch, found) (length-set watched k none)
]

set-same :
    (xs : List (Option ℕ)) (k : ℕ) (v : Option ℕ)
    → get_or xs k none ≡ v
    → k < length xs
    → set xs k v ≡ xs
set-same [] k v e inside = refl
set-same (x ∷ xs) zero v e inside = ap (λ y. y ∷ xs) (sym e)
set-same (x ∷ xs) (suc k) v e inside = ap (λ ys. x ∷ ys) (set-same xs k v e (omega arith))

-- To unwatch no descriptor changes nothing.
pub unwatch-none :
    (watched : List (Option ℕ)) → length watched ≡ 13 → unwatch watched none ≡ watched
unfolding unwatch find_watched
unwatch-none watched size = elim (Option-cases (find_watched watched none)) [
  | inl full ↦ rw (unwatch, full)
  | inr (k, found) ↦
      let (low, high, holds) =
        find_fd-some max_connections max_service watched none {k = k} found in
      rw (unwatch, found)
        (set-same watched k none (same_fd-none (get_or watched k none) holds) (omega (arith, size)))
]
