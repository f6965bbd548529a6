-- ===== src/Select/Open.antt =====
-- `NewConnection` keeps the invariant of the table, and finds a place when there is room.
use linux_programs.Common.{
  ℕ, zero, suc, ◌+◌, ◌-◌, ◌≤◌, ◌<◌, ◌≡◌, refl, sym, ap, ◌∙◌, ◌⊎◌, inl, inr, arith, Bool, true,
  false, Bool-cases, not, ◌&&◌, Option, none, some, Option-cases, List, [], ◌∷◌, ltb, if◌then◌else◌,
  set, get_or-set_self, length, length-set, total,
}
use mathlib.Core.Path.{subst}
use linux_programs.Select.{
  Connection, blank, Server, client, reserve_conn, find_stale, find_unused, is_quiet,
  close_connection, opened, establish, new_connection,
}
use linux_programs.Select.Valid.{
  in_use, in_use-yes, in_use-no, IsPlace, IsValid, counted, write-IsValid, close_connection-closes,
  close_connection-IsValid,
}

find_unused-some :
    (left i : ℕ) (clients : List Connection) {k : ℕ}
    → find_unused left i clients ≡ some k
    → (i ≤ k) × (k < i + left) × ((client clients k).in_use ≡ false)
unfolding find_unused
find_unused-some zero i clients e = absurd (cc e)
find_unused-some (suc left) i clients {k} e = elim (Bool-cases (client clients i).in_use) [
  | inl busy ↦
      let (low, high, free) = find_unused-some left (i + 1) clients {k = k} (cc (busy, e)) in
      (omega arith, omega arith, free)
  | inr free ↦
      let at_i : i ≡ k = cc (free, e) in
      (omega arith, omega arith, ap (λ q. (client clients q).in_use) (sym at_i) ∙ free)
]

-- The connections in use at `left` places from `i` on.
unfoldable used_from : (left i : ℕ) → List Connection → ℕ
used_from zero i clients = 0
used_from (suc left) i clients = in_use (client clients i) + used_from left (i + 1) clients

used_from-cons :
    (left i : ℕ) (c : Connection) (xs : List Connection)
    → used_from left (suc i) (c ∷ xs) ≡ used_from left i xs
unfolding used_from
used_from-cons zero i c xs = refl
used_from-cons (suc left) i c xs =
    let next : client (c ∷ xs) (suc i) ≡ client xs i = refl in
    let moved : suc i + 1 ≡ suc (i + 1) = omega arith in
    omega (
      arith,
      ap in_use next,
      ap (λ q. used_from left q (c ∷ xs)) moved,
      used_from-cons left (i + 1) c xs,
    )

used_from-le-total :
    (xs : List Connection) (left i : ℕ)
    → i + left ≤ length xs
    → used_from left i xs ≤ total in_use xs
unfolding used_from total
used_from-le-total xs zero i inside = omega arith
used_from-le-total [] (suc left) i inside = absurd (omega arith)
used_from-le-total (c ∷ xs) (suc left) zero inside =
    omega (arith, used_from-cons left 0 c xs, used_from-le-total xs left 0 (omega arith))
used_from-le-total (c ∷ xs) (suc left) (suc i) inside =
    omega
      (arith, used_from-cons (suc left) i c xs, used_from-le-total xs (suc left) i (omega arith))

-- When no place is free, all of them are in use.
find_unused-none :
    (left i : ℕ) (clients : List Connection)
    → find_unused left i clients ≡ none
    → used_from left i clients ≡ left
unfolding find_unused used_from
find_unused-none zero i clients e = refl
find_unused-none (suc left) i clients e = elim (Bool-cases (client clients i).in_use) [
  | inl busy ↦ omega (
    arith,
    in_use-yes (client clients i) busy,
    find_unused-none left (i + 1) clients (cc (busy, e)),
  )
  | inr free ↦ absurd (cc (free, e))
]

-- What the search for a stale connection may return.
abbrev IsStale : List Connection → (last : ℕ) → ℕ → Type 0
IsStale clients last k = (reserve_conn ≤ k) × (k < last) × (0 < (client clients k).idle_time)

find_stale-some :
    (left i : ℕ) (clients : List Connection) (stale : Option ℕ) (longest : ℕ)
    → reserve_conn ≤ i
    → ((k : ℕ) → stale ≡ some k → IsStale clients (i + left) k)
    → (k : ℕ) → find_stale left i clients stale longest ≡ some k
    → IsStale clients (i + left) k
unfolding find_stale
find_stale-some zero i clients stale longest low old k e = old k e
find_stale-some (suc left) i clients stale longest low old k e =
    let c = client clients i in
    let better = ltb longest c.idle_time && is_quiet c.state && not c.client_callback_running_now in
    let (l, h, t) =
      find_stale-some left (i + 1) clients (if better then some i else stale)
        (if better then c.idle_time else longest) (omega arith)
        (λ q e'. elim (Bool-cases better) [
          | inl yes' ↦
              let at_q : i ≡ q = cc (yes', e') in (omega arith, omega arith, more q at_q yes')
          | inr no' ↦ let (l', h', t') = old q (cc (no', e')) in (l', omega arith, t')
        ])
        k e in
    (l, omega arith, t)
  where
    more :
        (q : ℕ)
        → i ≡ q
        → (ltb longest (client clients i).idle_time
            && is_quiet (client clients i).state
            && not (client clients i).client_callback_running_now)
          ≡ true
        → 0 < (client clients q).idle_time
    more q at_q yes' =
        let here : longest < (client clients i).idle_time = ground arith in
        omega (arith, here, ap (λ p. (client clients p).idle_time) at_q)

-- A new connection on a free place.
opened-IsPlace : (usb : Bool) (fd : ℕ) → IsPlace (opened usb fd)
unfolding opened blank
opened-IsPlace usb fd = record {
  connected = λ e. (fd, refl);
  closed = λ e. absurd (cc e);
  idle = λ h. refl;
}

opened-used : (usb : Bool) (fd : ℕ) → (opened usb fd).in_use ≡ true
unfolding opened
opened-used usb fd = refl

-- With room for one more, a place is found.
establish-stores :
    (usb : Bool) (fd : ℕ) (s : Server)
    → IsValid s
    → s.active < length s.clients - reserve_conn
    → (i : ℕ) × (reserve_conn ≤ i)
      × (i < length s.clients)
      × (establish usb (some fd) s
          ≡ record { clients = set s.clients i (opened usb fd); active = s.active + 1 })
      × IsValid (establish usb (some fd) s)
unfolding establish
establish-stores usb fd s v room =
    elim (Option-cases (find_unused (length s.clients - reserve_conn) reserve_conn s.clients)) [
      | inl full ↦ absurd (
          omega (
            arith,
            v.used,
            find_unused-none (length s.clients - reserve_conn) reserve_conn s.clients full,
            used_from-le-total s.clients (length s.clients - reserve_conn) reserve_conn
                (omega arith),
          ))
      | inr (i, found) ↦
          let (low, high, free) =
            find_unused-some (length s.clients - reserve_conn) reserve_conn s.clients {k = i}
              found in
          let inside : i < length s.clients = omega arith in
          let made : establish usb (some fd) s
              ≡ record { clients = set s.clients i (opened usb fd); active = s.active + 1 } =
            rw (establish, found) refl in
          (
            i,
            low,
            inside,
            made,
            subst IsValid (sym made) (
                write-IsValid s i (s.active + 1) (opened usb fd) v inside low
                  (opened-IsPlace usb fd)
                  (omega (
                    arith,
                    in_use-no (client s.clients i) free,
                    in_use-yes (opened usb fd) (opened-used usb fd),
                  ))
                  (omega arith)),
          )
    ]

establish-none : (usb : Bool) (s : Server) → establish usb none s ≡ s
unfolding establish
establish-none usb s =
    elim (Option-cases (find_unused (length s.clients - reserve_conn) reserve_conn s.clients)) [
      | inl full ↦ rw (establish, full) refl
      | inr (i, found) ↦ rw (establish, found) refl
    ]

-- The connection that is closed to make room.
stale-closed :
    (s : Server) (k : ℕ)
    → IsValid s
    → find_stale (length s.clients - reserve_conn) reserve_conn s.clients none 0 ≡ some k
    → IsValid (close_connection s k)
      × ((close_connection s k).active < length s.clients - reserve_conn)
      × (length (close_connection s k).clients ≡ length s.clients)
stale-closed s k v found =
    let (low, high, idle) =
      find_stale-some (length s.clients - reserve_conn) reserve_conn s.clients none 0 (omega arith)
        (λ q e. absurd (cc e)) k found in
    let inside : k < length s.clients = omega arith in
    let busy = (v.places k).idle idle in
    let (some', high') = counted s k v inside busy in
    let closes = close_connection-closes s k some' in
    (
      close_connection-IsValid s k v inside busy,
      omega (arith, ap (λ (t : Server). t.active) closes, v.bound, some'),
      ap (λ (t : Server). length t.clients) closes ∙ length-set s.clients k blank,
    )

-- `NewConnection` keeps the invariant, whatever `accept` returns: the count is that of the connections
-- in use, and the first four places stay free.
pub new_connection-IsValid :
    (usb : Bool) (accepted : Option ℕ) (s : Server)
    → IsValid s
    → IsValid (new_connection usb accepted s)
unfolding new_connection
new_connection-IsValid usb accepted s v =
    elim (Bool-cases (ltb (s.active + reserve_conn) (length s.clients))) [
      | inl room ↦ rw room (either s v (ground arith) accepted)
      | inr tight ↦
          elim (Option-cases
            (find_stale (length s.clients - reserve_conn) reserve_conn s.clients none 0)) [
              | inl unfound ↦ rw (new_connection, tight, unfound) v
              | inr (k, found) ↦
                  let (v', fewer, size) = stale-closed s k v found in
                  rw (new_connection, tight, found)
                    (either (close_connection s k) v' (omega (arith, fewer, size)) accepted)
            ]
    ]
  where
    either :
        (t : Server)
        → IsValid t
        → t.active < length t.clients - reserve_conn
        → (a : Option ℕ) → IsValid (establish usb a t)
    either t w room none = subst IsValid (sym (establish-none usb t)) w
    either t w room (some fd) =
        let (i, low, high, made, valid) = establish-stores usb fd t w room in valid

-- On a table that satisfies the invariant, when `accept` gives a descriptor and there is room, or a
-- connection that may be closed to make some, `NewConnection` stores the new connection behind the
-- reserved places, and the table satisfies the invariant again.
pub new_connection-stores :
    (usb : Bool) (fd : ℕ) (s : Server)
    → IsValid s
    → (s.active + reserve_conn < length s.clients)
      ⊎ ((k : ℕ) × (find_stale (length s.clients - reserve_conn) reserve_conn s.clients none 0
            ≡ some k))
    → IsValid (new_connection usb (some fd) s)
      × (i : ℕ) × (reserve_conn ≤ i)
      × (i < length s.clients)
      × (client (new_connection usb (some fd) s).clients i ≡ opened usb fd)
unfolding new_connection
new_connection-stores usb fd s v way =
    let (i, low, high, there) = place in
    (new_connection-IsValid usb (some fd) s v, i, low, high, there)
  where
    stored :
        (t : Server)
        → IsValid t
        → t.active < length t.clients - reserve_conn
        → length t.clients ≡ length s.clients
        → new_connection usb (some fd) s ≡ establish usb (some fd) t
        → (i : ℕ) × (reserve_conn ≤ i)
          × (i < length s.clients)
          × (client (new_connection usb (some fd) s).clients i ≡ opened usb fd)
    stored t w room size step =
        let (i, low, high, made, valid) = establish-stores usb fd t w room in
        (
          i,
          low,
          omega (arith, size),
          ap (λ (x : Server). client x.clients i) (step ∙ made)
              ∙ get_or-set_self t.clients i (opened usb fd) blank high,
        )

    place :
        (i : ℕ) × (reserve_conn ≤ i)
        × (i < length s.clients)
        × (client (new_connection usb (some fd) s).clients i ≡ opened usb fd)
    place = elim (Bool-cases (ltb (s.active + reserve_conn) (length s.clients))) [
      | inl room ↦ stored s v (ground arith) refl (rw (new_connection, room) refl)
      | inr tight ↦ elim way [
        | inl room ↦ absurd (ground arith)
        | inr (k, found) ↦
            let (v', fewer, size) = stale-closed s k v found in
            stored (close_connection s k) v' (omega (arith, fewer, size)) size
              (rw (new_connection, tight, found) refl)
      ]
    ]
