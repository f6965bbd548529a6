-- ===== src/Poll/Tables/Stale.antt =====
-- The searches of `NewConnection`: the first free place, and the connection that is idle for longest.
use linux_programs.Common.{
  ℕ, zero, suc, ◌+◌, ◌-◌, ◌≤◌, ◌<◌, ◌≡◌, refl, sym, ap, ◌∙◌, inl, inr, arith, Bool, true, false,
  Bool-cases, not, ◌&&◌, Option, none, some, List, ltb, ◌==◌, if◌then◌else◌,
}
use mathlib.Core.Path.{subst}
use linux_programs.Poll.{Connection}
use linux_programs.Poll.Tables.{
  client, find_stale, find_unused, is_quiet, max_connections, reserve_conn,
}

pub find_unused-some :
    (left i : ℕ) (clients : List Connection) {k : ℕ}
    → find_unused left i clients ≡ some k
    → (i ≤ k) × (k < i + left) × ((client clients k).in_use ≡ false)
unfolding find_unused
find_unused-some zero i clients e = absurd (cc e)
find_unused-some (suc left) i clients {k} e = elim (Bool-cases (client clients i).in_use) [
  | inl busy ↦
      let (low, high, free) = find_unused-some left (i + 1) clients {k = k} (cc (busy, e)) in
      (omega arith, omega arith, free)
  | inr free ↦
      let at_i : i ≡ k = cc (free, e) in
      (omega arith, omega arith, ap (λ q. (client clients q).in_use) (sym at_i) ∙ free)
]

-- A connection that may be closed to make room.
abbrev pub is_spare : Connection → Bool
is_spare c = is_quiet c.state && not c.client_callback_running_now

-- The idle time of a spare connection, 0 of another one.
abbrev pub spare_time : Connection → ℕ
spare_time c = if is_spare c then c.idle_time else 0

-- What the search has found among the places before `i`, from `first` on.
pub record Best (clients : List Connection) (first i : ℕ) (stale : Option ℕ) (longest : ℕ)
    : Type 0 where
  pub most : (q : ℕ) → first ≤ q → q < i → spare_time (client clients q) ≤ longest
  pub unfound : stale ≡ none → longest ≡ 0
  pub found :
      (k : ℕ)
      → stale ≡ some k
      → (first ≤ k) × (k < i) × (0 < longest) × (spare_time (client clients k) ≡ longest)

-- The test of the loop.
abbrev improves : Connection → ℕ → Bool
improves c longest =
    ltb longest c.idle_time && is_quiet c.state && not c.client_callback_running_now

improves-true :
    (c : Connection) (longest : ℕ)
    → improves c longest ≡ true
    → (spare_time c ≡ c.idle_time) × (longest < c.idle_time)
improves-true c longest e = ground arith

improves-false :
    (c : Connection) (longest : ℕ) → improves c longest ≡ false → spare_time c ≤ longest
improves-false c longest e = ground arith

-- One round of the search.
Best-step :
    (clients : List Connection) (first i : ℕ) (stale : Option ℕ) (longest : ℕ)
    → first ≤ i
    → Best clients first i stale longest
    → Best clients first
        (i + 1)
        (if improves (client clients i) longest then some i else stale)
        (if improves (client clients i) longest then (client clients i).idle_time else longest)
Best-step clients first i stale longest low b =
    elim (Bool-cases (improves (client clients i) longest)) [
      | inl better ↦
          let (time, more) = improves-true (client clients i) longest better in
          rw better (record {
            most = λ q l h. elim (Bool-cases (q == i)) [
              | inl here ↦
                  let at_i : q ≡ i = ground arith in
                  omega (arith, time, ap (λ p. spare_time (client clients p)) at_i)
              | inr there ↦ let before : q < i = ground arith in omega (arith, b.most q l before)
            ];
            unfound = λ e. absurd (cc e);
            found = λ k e.
                let at_i : i ≡ k = cc e in
                (
                  omega arith,
                  omega arith,
                  omega arith,
                  ap (λ p. spare_time (client clients p)) (sym at_i) ∙ time,
                );
          })
      | inr worse ↦
          let less = improves-false (client clients i) longest worse in
          rw worse (record {
            most = λ q l h. elim (Bool-cases (q == i)) [
              | inl here ↦
                  let at_i : q ≡ i = ground arith in
                  omega (arith, less, ap (λ p. spare_time (client clients p)) at_i)
              | inr there ↦ let before : q < i = ground arith in omega (arith, b.most q l before)
            ];
            unfound = b.unfound;
            found = λ k e. let (l, h, m, t) = b.found k e in (l, omega arith, m, t);
          })
    ]

find_stale-Best :
    (left i : ℕ) (clients : List Connection) (first : ℕ) (stale : Option ℕ) (longest : ℕ)
    → first ≤ i
    → Best clients first i stale longest
    → (top : ℕ) × Best clients first (i + left) (find_stale left i clients stale longest) top
unfolding find_stale
find_stale-Best zero i clients first stale longest low b =
    let same : i ≡ i + 0 = omega arith in
    (longest, subst (λ k. Best clients first k stale longest) same b)
find_stale-Best (suc left) i clients first stale longest low b =
    let (top, best) =
      find_stale-Best left (i + 1) clients first
        (if improves (client clients i) longest then some i else stale)
        (if improves (client clients i) longest then (client clients i).idle_time else longest)
        (omega arith) (Best-step clients first i stale longest low b) in
    let same : i + 1 + left ≡ i + suc left = omega arith in
    (
      top,
      subst (λ k. Best clients first k (find_stale (suc left) i clients stale longest) top) same
          best,
    )

-- The connection that `NewConnection` closes to make room: one of the places 2 to 9 that is idle or
-- new, runs no callback, and has been idle for at least as long as any other such connection. When
-- none is found, no such connection has been idle at all.
pub find_stale-longest :
    (clients : List Connection)
    → ((k : ℕ)
        → find_stale (max_connections - reserve_conn) reserve_conn clients none 0 ≡ some k
        → (2 ≤ k)
          × (k < 10)
          × (0 < spare_time (client clients k))
          × ((q : ℕ)
              → 2 ≤ q
              → q < 10
              → spare_time (client clients q) ≤ spare_time (client clients k)))
      × (find_stale (max_connections - reserve_conn) reserve_conn clients none 0 ≡ none
          → (q : ℕ) → 2 ≤ q
          → q < 10
          → spare_time (client clients q) ≡ 0)
find_stale-longest clients =
    let (top, b) = find_stale-Best 8 2 clients 2 none 0 (omega arith) (record {
      most = λ q l h. absurd (omega arith);
      unfound = λ e. refl;
      found = λ k e. absurd (cc e);
    }) in
    (
      λ k e.
          let (low, high, more, time) = b.found k e in
          (low, high, omega (arith, more, time), λ q l h. omega (arith, time, b.most q l h)),
      λ e q l h. omega (arith, b.unfound e, b.most q l h),
    )
