-- ===== src/Select/Valid.antt =====
-- The invariant of the table, and that `CloseConnection` on a connection in use keeps it.
use linux_programs.Common.{
  ℕ, zero, suc, ◌+◌, ◌-◌, ◌≤◌, ◌<◌, ◌≡◌, refl, sym, ap, ◌∙◌, inl, inr, arith, Bool, true, false,
  Bool-cases, none, some, List, ltb, ◌==◌, if◌then◌else◌, get_or-set_ne, get_or-set_self, set,
  length, length-set, replicate, total, total-set_or, total-replicate, le-total,
}
use mathlib.Core.Path.{subst}
use linux_programs.Common.Int.{ℤ, pos, negsuc}
use linux_programs.Select.{
  Connection, blank, Server, client, close_connection, initialize, reserve_conn,
}

abbrev pub in_use : Connection → ℕ
in_use c = if c.in_use then 1 else 0

-- What holds of a place: one that is not in use has no socket and has not been idle.
pub record IsPlace (c : Connection) : Type 0 where
  pub connected : c.in_use ≡ true → (fd : ℕ) × (c.socket ≡ some fd)
  pub closed : c.in_use ≡ false → c.socket ≡ none
  pub idle : 0 < c.idle_time → c.in_use ≡ true

-- `connectionsActive` counts the connections in use, which leave four places free. The first four are
-- free.
pub record IsValid (s : Server) : Type 0 where
  pub used : total in_use s.clients ≡ s.active
  pub bound : s.active ≤ length s.clients - reserve_conn
  pub reserved : (i : ℕ) → i < reserve_conn → (client s.clients i).in_use ≡ false
  pub places : (i : ℕ) → IsPlace (client s.clients i)

pub blank_unused : blank.in_use ≡ false
unfolding blank
blank_unused = refl

pub blank-IsPlace : IsPlace blank
unfolding blank
blank-IsPlace = record {
  connected = λ e. absurd (cc e);
  closed = λ e. refl;
  idle = λ h. absurd (omega (arith, h));
}

-- A property of all places survives a write if the new connection has it.
pub set-every :
    (P : ℕ → Connection → Type 0) (clients : List Connection) (k : ℕ) (c : Connection)
    → k < length clients
    → P k c
    → ((i : ℕ) → P i (client clients i))
    → (i : ℕ) → P i (client (set clients k c) i)
set-every P clients k c inside new old i = elim (Bool-cases (k == i)) [
  | inl here ↦
      let at_k : k ≡ i = ground arith in
      subst (λ q. P q (client (set clients k c) q)) at_k
        (subst (P k) (sym (get_or-set_self clients k c blank inside)) new)
  | inr there ↦ subst (P i) (sym (get_or-set_ne clients k i c blank (λ e. ground arith))) (old i)
]

pub in_use-yes : (c : Connection) → c.in_use ≡ true → in_use c ≡ 1
in_use-yes c e = ap (λ (b : Bool). if b then 1 else 0) e

pub in_use-no : (c : Connection) → c.in_use ≡ false → in_use c ≡ 0
in_use-no c e = ap (λ (b : Bool). if b then 1 else 0) e

-- A connection in use is counted, and stands behind the reserved places.
pub counted :
    (s : Server) (i : ℕ)
    → IsValid s
    → i < length s.clients
    → (client s.clients i).in_use ≡ true
    → (0 < s.active) × (reserve_conn ≤ i)
counted s i v inside busy = (
  omega (
    arith,
    in_use-yes (client s.clients i) busy,
    v.used,
    le-total in_use s.clients i blank inside,
  ),
  elim (Bool-cases (ltb i reserve_conn)) [
    | inl low ↦ absurd (cc (busy, v.reserved i (ground arith)))
    | inr high ↦ ground arith
  ],
)

-- A change of a place, with the count that belongs to it, keeps the invariant.
pub write-IsValid :
    (s : Server) (i n : ℕ) (c : Connection)
    → IsValid s
    → i < length s.clients
    → reserve_conn ≤ i
    → IsPlace c
    → n + in_use (client s.clients i) ≡ s.active + in_use c
    → n ≤ length s.clients - reserve_conn
    → IsValid (record { clients = set s.clients i c; active = n })
write-IsValid s i n c v inside high place count room = record {
  used = omega (arith, v.used, count, total-set_or in_use s.clients i c blank inside);
  bound = omega (arith, room, length-set s.clients i c);
  reserved = λ q low.
      ap (λ (x : Connection). x.in_use) (get_or-set_ne s.clients i q c blank (λ e. omega arith))
      ∙ v.reserved q low;
  places = set-every (λ q x. IsPlace x) s.clients i c inside place v.places;
}

pub close_connection-closes :
    (s : Server) (i : ℕ)
    → 0 < s.active
    → close_connection s i ≡ record { clients = set s.clients i blank; active = s.active - 1 }
unfolding close_connection
close_connection-closes s i some' =
    let test : (s.active == 0) ≡ false = ground arith in rw (close_connection, test) refl

pub close_connection-IsValid :
    (s : Server) (i : ℕ)
    → IsValid s
    → i < length s.clients
    → (client s.clients i).in_use ≡ true
    → IsValid (close_connection s i)
close_connection-IsValid s i v inside busy =
    let (some', high) = counted s i v inside busy in
    subst IsValid (sym (close_connection-closes s i some')) (
      write-IsValid s i (s.active - 1) blank v inside high blank-IsPlace
        (omega (arith, in_use-yes (client s.clients i) busy, in_use-no blank blank_unused, some'))
        (omega (arith, v.bound)))

every_blank : (n i : ℕ) → client (replicate n blank) i ≡ blank
every_blank zero i = refl
every_blank (suc n) zero = refl
every_blank (suc n) (suc i) = every_blank n i

-- The table with `n` free places.
pub empty-IsValid : (n : ℕ) → IsValid (record { clients = replicate n blank; active = 0 })
empty-IsValid n = record {
  used = omega (arith, total-replicate in_use n 0 blank (in_use-no blank blank_unused));
  bound = omega arith;
  reserved = λ i low. ap (λ (c : Connection). c.in_use) (every_blank n i) ∙ blank_unused;
  places = λ i. subst IsPlace (sym (every_blank n i)) blank-IsPlace;
}

-- When `malloc` succeeds, `Initialize` leaves a table with the places that were asked for, or 10 where the
-- number is not positive, that satisfies the invariant.
pub initialize-IsValid :
    (desired : ℤ) → (s : Server) × (initialize desired true ≡ some s) × IsValid s
unfolding initialize
initialize-IsValid (pos zero) = (_, refl, empty-IsValid 10)
initialize-IsValid (pos (suc n)) = (_, refl, empty-IsValid (suc n))
initialize-IsValid (negsuc n) = (_, refl, empty-IsValid 10)
