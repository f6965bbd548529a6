-- ===== src/Select/Turn/Uncount.antt =====
-- `TransmitPendingLoop` counts the places that are not in use off `connectionsActive`, and what that
-- means for `ReceiveLoop`.
use linux_programs.Common.{
  ℕ, zero, suc, ◌+◌, ◌-◌, ◌*◌, ◌≤◌, ◌<◌, ◌≡◌, ◌≢◌, refl, sym, ap, ◌∙◌, inl, inr, arith, Bool, true,
  false, Bool-cases, some, List, [], ◌∷◌, ◌==◌, if◌then◌else◌, get_or-set_self, get_or-set_ne,
  length, length-set, total,
}
use linux_programs.Select.{Connection, blank, Server, client, close_connection}
use linux_programs.Select.Valid.{IsValid, in_use, blank_unused}
use linux_programs.Select.Send.{Sent}
use linux_programs.Select.Turn.{
  Received, receive_loop, transmit_client, transmit_from, transmit_pending_loop,
}

-- 1 for a place that is not in use.
abbrev unused : Connection → ℕ
unused c = if c.in_use then 0 else 1

unfoldable unused_from : (left i : ℕ) → List Connection → ℕ
unused_from zero i clients = 0
unused_from (suc left) i clients = unused (client clients i) + unused_from left (i + 1) clients

unused_from-same :
    (left i : ℕ) (xs ys : List Connection)
    → ((q : ℕ) → i ≤ q → client xs q ≡ client ys q)
    → unused_from left i xs ≡ unused_from left i ys
unfolding unused_from
unused_from-same zero i xs ys same = refl
unused_from-same (suc left) i xs ys same = omega (
  arith,
  ap unused (same i (omega arith)),
  unused_from-same left (i + 1) xs ys (λ q low. same q (omega arith)),
)

unused_from-cons :
    (left i : ℕ) (c : Connection) (xs : List Connection)
    → unused_from left (suc i) (c ∷ xs) ≡ unused_from left i xs
unfolding unused_from
unused_from-cons zero i c xs = refl
unused_from-cons (suc left) i c xs =
    let moved : suc i + 1 ≡ suc (i + 1) = omega arith in
    let next : client (c ∷ xs) (suc i) ≡ client xs i = refl in
    omega (
      arith,
      ap unused next,
      ap (λ q. unused_from left q (c ∷ xs)) moved,
      unused_from-cons left (i + 1) c xs,
    )

-- Every place is in use or not.
unused_from-all :
    (xs : List Connection) → unused_from (length xs) 0 xs + total in_use xs ≡ length xs
unfolding unused_from total
unused_from-all [] = refl
unused_from-all (c ∷ xs) =
    let one : unused c + in_use c ≡ 1 = ground arith in
    omega (arith, one, unused_from-cons (length xs) 0 c xs, unused_from-all xs)

-- No connection in use has a descriptor that is set.
abbrev pub IsUnready : (is_set : ℕ → Bool) → Server → Type 0
IsUnready is_set s =
    (i : ℕ)
    → (client s.clients i).in_use ≡ true
    → (fd : ℕ) × ((client s.clients i).socket ≡ some fd) × (is_set fd ≡ false)

-- The table after one place was handled.
record PassedAt (s : Server) (i : ℕ) (s' : Server) : Type 0 where
  places : length s'.clients ≡ length s.clients
  others : (q : ℕ) → i ≢ q → client s'.clients q ≡ client s.clients q
  busy : (client s.clients i).in_use ≡ true → client s'.clients i ≡ client s.clients i
  free : (client s.clients i).in_use ≡ false → (client s'.clients i).in_use ≡ false
  active : s'.active ≡ s.active - unused (client s.clients i)

close_connection-PassedAt :
    (s : Server) (i : ℕ)
    → i < length s.clients
    → (client s.clients i).in_use ≡ false
    → PassedAt s i (close_connection s i)
unfolding close_connection
close_connection-PassedAt s i inside free = elim (Bool-cases (s.active == 0)) [
  | inl empty ↦
      rw (close_connection, empty)
        (record {
          places = refl;
          others = λ q ne. refl;
          busy = λ e. refl;
          free = λ e. e;
          active = ground arith;
        })
  | inr some' ↦
      let one : unused (client s.clients i) ≡ 1 = ap (λ (b : Bool). if b then 0 else 1) free in
      rw (close_connection, some')
        (record {
          places = length-set s.clients i blank;
          others = λ q ne. get_or-set_ne s.clients i q blank blank ne;
          busy = λ e. absurd (cc (free, e));
          free = λ e.
              ap (λ (c : Connection). c.in_use) (get_or-set_self s.clients i blank blank inside)
              ∙ blank_unused;
          active = omega (arith, one);
        })
]

transmit_client-PassedAt :
    {S : Type 0} (is_set : ℕ → Bool) (send : S → List ℕ → Sent × S) (fuel i : ℕ) (s : Server)
    (k : S)
    → i < length s.clients
    → ((client s.clients i).in_use ≡ true
        → (fd : ℕ) × ((client s.clients i).socket ≡ some fd) × (is_set fd ≡ false))
    → (s' : Server) × (transmit_client is_set send fuel i s k ≡ some (s', k)) × PassedAt s i s'
unfolding transmit_client
transmit_client-PassedAt is_set send fuel i s k inside unready =
    elim (Bool-cases (client s.clients i).in_use) [
      | inl busy ↦
          let (fd, on, quiet) = unready busy in
          let one : unused (client s.clients i) ≡ 0 = ap (λ (b : Bool). if b then 0 else 1) busy in
          (
            s,
            simp (transmit_client, busy, on, quiet),
            record {
              places = refl;
              others = λ q ne. refl;
              busy = λ e. refl;
              free = λ e. e;
              active = omega (arith, one);
            },
          )
      | inr free ↦ (
        close_connection s i,
        simp (transmit_client, free),
        close_connection-PassedAt s i inside free,
      )
    ]

transmit_from_lem :
    {S : Type 0} (is_set : ℕ → Bool) (send : S → List ℕ → Sent × S) (fuel left i : ℕ) (s : Server)
    (k : S)
    → i + left ≡ length s.clients
    → IsUnready is_set s
    → (s' : Server) × (transmit_from left i is_set send fuel s k ≡ some (s', k))
      × (s'.active ≡ s.active - unused_from left i s.clients)
      × ((q : ℕ) → (client s.clients q).in_use ≡ true → client s'.clients q ≡ client s.clients q)
unfolding transmit_from unused_from
transmit_from_lem is_set send fuel zero i s k size unready = (s, refl, omega arith, λ q busy. refl)
transmit_from_lem is_set send fuel (suc left) i s k size unready =
    let (s1, run1, at1) =
      transmit_client-PassedAt is_set send fuel i s k (omega arith) (unready i) in
    let (s2, run2, active, kept) =
      transmit_from_lem is_set send fuel left (i + 1) s1 k (omega (arith, at1.places, size))
        (still s1 at1) in
    let behind =
      unused_from-same left (i + 1) s1.clients s.clients (λ q low. at1.others q (omega arith)) in
    (
      s2,
      rw (transmit_from, run1) run2,
      omega (arith, active, at1.active, behind),
      λ q busy.
          let same = stays s1 at1 q busy in
          kept q (ap (λ (c : Connection). c.in_use) same ∙ busy) ∙ same,
    )
  where
    stays :
        (s1 : Server)
        → PassedAt s i s1
        → (q : ℕ) → (client s.clients q).in_use ≡ true
        → client s1.clients q ≡ client s.clients q
    stays s1 at1 q busy = elim (Bool-cases (i == q)) [
      | inl here ↦
          let at_i : i ≡ q = ground arith in
          ap (client s1.clients) (sym at_i)
          ∙ at1.busy (ap (λ p. (client s.clients p).in_use) at_i ∙ busy)
          ∙ ap (client s.clients) at_i
      | inr there ↦ at1.others q (λ e. ground arith)
    ]

    still : (s1 : Server) → PassedAt s i s1 → IsUnready is_set s1
    still s1 at1 q busy = elim (Bool-cases (client s.clients q).in_use) [
      | inl before ↦
          let same = stays s1 at1 q before in
          let (fd, on, quiet) = unready q before in
          (fd, ap (λ (c : Connection). c.socket) same ∙ on, quiet)
      | inr free ↦ elim (Bool-cases (i == q)) [
        | inl here ↦
            let at_i : i ≡ q = ground arith in
            let gone = at1.free (ap (λ p. (client s.clients p).in_use) at_i ∙ free) in
            absurd (cc (gone, ap (λ p. (client s1.clients p).in_use) at_i, busy))
        | inr there ↦
            absurd (
              cc (free, ap (λ (c : Connection). c.in_use) (at1.others q (λ e. ground arith)), busy))
      ]
    ]

-- From a table that satisfies the invariant and has at most half of its places in use, none of them
-- ready for writing, `TransmitPendingLoop` leaves every connection in use as it is, but decrements
-- `connectionsActive` for each place that is not in use, down to 0: `ReceiveLoop` then does nothing,
-- whatever is ready.
pub transmit_pending_loop-starves :
    {S : Type 0} (is_set : ℕ → Bool) (send : S → List ℕ → Sent × S) (fuel : ℕ) (s : Server) (k : S)
    → IsValid s
    → 2 * s.active ≤ length s.clients
    → IsUnready is_set s
    → (s' : Server) × (transmit_pending_loop is_set send fuel s k ≡ some (s', k))
      × (s'.active ≡ 0)
      × ((i : ℕ) → (client s.clients i).in_use ≡ true → client s'.clients i ≡ client s.clients i)
      × ((is_readable' : ℕ → Bool) (received : ℕ → Received)
          → receive_loop is_readable' received s' ≡ s')
unfolding transmit_pending_loop receive_loop
transmit_pending_loop-starves is_set send fuel s k v half unready =
    let (s', run, active, kept) =
      transmit_from_lem is_set send fuel (length s.clients) 0 s k (omega arith) unready in
    let none_left : s'.active ≡ 0 = omega (arith, active, v.used, unused_from-all s.clients) in
    let test : (s'.active == 0) ≡ true = ground (arith, none_left) in
    (s', run, none_left, kept, λ is_readable' received. rw (receive_loop, test) refl)
