-- ===== src/Poll/Turn/Uncount.antt =====
-- `TransmitPendingLoop` counts the places that are not in use off `connectionsActive`.
use linux_programs.Common.{
  ℕ, zero, suc, ◌+◌, ◌-◌, ◌≤◌, ◌<◌, ◌≡◌, ◌≢◌, refl, sym, ap, ◌∙◌, inl, inr, arith, Bool, true,
  false, Bool-cases, Option, none, some, List, [], ◌∷◌, if◌then◌else◌, get_or-set_ne, set, length,
  length-set, replicate, total, total-set_or,
}
use mathlib.Core.Path.{subst}
use linux_programs.Poll.{Connection, blank, Sent, net_buffer_size, pending_string}
use linux_programs.Poll.Transmit.{Alive, transmit_pending-Alive}
use linux_programs.Poll.Tables.{Server, client, close_connection}
use linux_programs.Poll.Tables.Valid.{IsValid, in_use, close_connection-unused}
use linux_programs.Poll.Turn.{is_flagged, transmit_client, transmit_from, transmit_pending_loop}
use linux_programs.Poll.Turn.Receive.{is_flagged-true}

-- 1 for a place that is not in use.
abbrev pub unused : Connection → ℕ
unused c = if c.in_use then 0 else 1

unfoldable unused_from : (left i : ℕ) → List Connection → ℕ
unused_from zero i clients = 0
unused_from (suc left) i clients = unused (client clients i) + unused_from left (i + 1) clients

unused_from-same :
    (left i : ℕ) (xs ys : List Connection)
    → ((q : ℕ) → i ≤ q → client xs q ≡ client ys q)
    → unused_from left i xs ≡ unused_from left i ys
unfolding unused_from
unused_from-same zero i xs ys same = refl
unused_from-same (suc left) i xs ys same =
    let here = ap unused (same i (omega arith)) in
    omega (arith, here, unused_from-same left (i + 1) xs ys (λ q low. same q (omega arith)))

unused_from-cons :
    (left i : ℕ) (c : Connection) (xs : List Connection)
    → unused_from left (suc i) (c ∷ xs) ≡ unused_from left i xs
unfolding unused_from
unused_from-cons zero i c xs = refl
unused_from-cons (suc left) i c xs =
    let moved : suc i + 1 ≡ suc (i + 1) = omega arith in
    let next : client (c ∷ xs) (suc i) ≡ client xs i = refl in
    omega (
      arith,
      ap unused next,
      ap (λ q. unused_from left q (c ∷ xs)) moved,
      unused_from-cons left (i + 1) c xs,
    )

-- Every place is in use or not.
unused_from-all :
    (xs : List Connection) → unused_from (length xs) 0 xs + total in_use xs ≡ length xs
unfolding unused_from total
unused_from-all [] = refl
unused_from-all (c ∷ xs) =
    let one : unused c + in_use c ≡ 1 = ground arith in
    omega (arith, one, unused_from-cons (length xs) 0 c xs, unused_from-all xs)

-- What the loop relies on of a place: in use, it is watched and has a string to send that the fuel is
-- enough for; not in use, it has no socket.
record Sendable (pollout fuel : ℕ) (watched : List (Option ℕ)) (c : Connection) : Type 0 where
  string :
      c.in_use ≡ true
      → (fd : ℕ) × (string : List ℕ) × (c.socket ≡ some fd)
        × (pending_string c.pending_send_buffer ≡ some string)
        × (length string < fuel)
        × (is_flagged pollout watched c.socket ≡ some true)
  free : c.in_use ≡ false → c.socket ≡ none

-- The tables after one place was handled.
record SentAt (s : Server) (i : ℕ) (s' : Server) : Type 0 where
  watched : s'.watched ≡ s.watched
  places : length s'.clients ≡ length s.clients
  others : (q : ℕ) → i ≢ q → client s'.clients q ≡ client s.clients q
  used : total in_use s'.clients ≡ total in_use s.clients
  active : s'.active ≡ s.active - unused (client s.clients i)

transmit_client-SentAt :
    {S : Type 0} {send : S → List ℕ → Sent × S} (a : Alive send) (pollout fuel : ℕ) (i : ℕ)
    (s : Server) (k : S)
    → length s.watched ≡ 13
    → i < length s.clients
    → Sendable pollout fuel s.watched (client s.clients i)
    → (s' : Server) × (k' : S) × (transmit_client pollout send fuel i s k ≡ some (s', k'))
      × SentAt s i s'
unfolding transmit_client
transmit_client-SentAt {S} {send} a pollout fuel i s k size inside ready =
    elim (Bool-cases (client s.clients i).in_use) [
      | inl busy ↦
          let (fd, string, on, pending, enough, flagged) = ready.string busy in
          let (k', run, out) =
            transmit_pending-Alive a fuel k (client s.clients i) string on pending enough in
          let c = record (client s.clients i) {
            pending_send_buffer = replicate net_buffer_size 0;
          } in
          let one : unused (client s.clients i) ≡ 0 = ap (λ (b : Bool). if b then 0 else 1) busy in
          (
            record s { clients = set s.clients i c },
            k',
            simp (transmit_client, busy, flagged, run),
            record {
              watched = refl;
              places = length-set s.clients i c;
              others = λ q ne. get_or-set_ne s.clients i q c blank ne;
              used = omega (arith, total-set_or in_use s.clients i c blank inside);
              active = omega (arith, one);
            },
          )
      | inr free ↦
          let (watched, active, places, others, used) =
            close_connection-unused s i size inside free (ready.free free) in
          let one : unused (client s.clients i) ≡ 1 = ap (λ (b : Bool). if b then 0 else 1) free in
          (
            close_connection s i,
            k,
            simp (transmit_client, free),
            record {
              watched = watched;
              places = places;
              others = others;
              used = used;
              active = omega (arith, one, active);
            },
          )
    ]

transmit_from_lem :
    {S : Type 0} {send : S → List ℕ → Sent × S} (a : Alive send) (pollout fuel : ℕ) (left i : ℕ)
    (s : Server) (k : S)
    → length s.watched ≡ 13
    → length s.clients ≡ 10
    → i + left ≡ 10
    → ((q : ℕ) → i ≤ q → q < 10 → Sendable pollout fuel s.watched (client s.clients q))
    → (s' : Server) × (k' : S) × (transmit_from left i pollout send fuel s k ≡ some (s', k'))
      × (s'.active ≡ s.active - unused_from left i s.clients)
      × (total in_use s'.clients ≡ total in_use s.clients)
unfolding transmit_from unused_from
transmit_from_lem a pollout fuel zero i s k size ten sum ready = (s, k, refl, omega arith, refl)
transmit_from_lem {send} a pollout fuel (suc left) i s k size ten sum ready =
    let (s1, k1, run1, at1) =
      transmit_client-SentAt a pollout fuel i s k size (omega arith)
        (ready i (omega arith) (omega arith)) in
    let still : (q : ℕ) → i + 1 ≤ q → client s1.clients q ≡ client s.clients q =
      λ q low. at1.others q (omega arith) in
    let (s2, k2, run2, active, used) =
      transmit_from_lem a pollout fuel left (i + 1) s1 k1 (ap length at1.watched ∙ size)
        (at1.places ∙ ten) (omega arith)
        (λ q low high.
          subst (λ w. Sendable pollout fuel w (client s1.clients q)) (sym at1.watched)
            (subst (Sendable pollout fuel s.watched) (sym (still q low))
              (ready q (omega arith) high))) in
    (
      s2,
      k2,
      rw (transmit_from, run1) run2,
      omega (arith, active, at1.active, unused_from-same left (i + 1) s1.clients s.clients still),
      used ∙ at1.used,
    )

-- From tables that satisfy the invariant, where every connection in use has a string to send that its
-- peer takes and the fuel is enough for, none is on descriptor 0, and POLLOUT is not 0, `TransmitPendingLoop` ends. It closes
-- each place that is not in use, and each time decrements `connectionsActive`, down to 0 at least:
-- as many connections are in use as before, but it no longer counts them.
pub transmit_pending_loop-uncounts :
    {S : Type 0} {send : S → List ℕ → Sent × S} (a : Alive send) (pollout fuel : ℕ) (s : Server)
    (k : S)
    → IsValid s
    → 0 < pollout
    → ((i : ℕ)
        → i < 10
        → (client s.clients i).in_use ≡ true
        → (string : List ℕ) × (pending_string (client s.clients i).pending_send_buffer
            ≡ some string)
          × (length string < fuel))
    → ((i : ℕ) → i < 10 → (client s.clients i).socket ≢ some 0)
    → (s' : Server) × (k' : S) × (transmit_pending_loop pollout send fuel s k ≡ some (s', k'))
      × (s'.active ≡ s.active - (10 - s.active))
      × (total in_use s'.clients ≡ s.active)
unfolding transmit_pending_loop
transmit_pending_loop-uncounts a pollout fuel s k v more strings positive =
    let (s', k', run, active, used) =
      transmit_from_lem a pollout fuel 10 0 s k v.places v.clients refl ready in
    let free : unused_from 10 0 s.clients + s.active ≡ 10 = omega (
      arith,
      v.used,
      v.clients,
      ap (λ n. unused_from n 0 s.clients) v.clients,
      unused_from-all s.clients,
    ) in
    (s', k', run, omega (arith, active, free), used ∙ v.used)
  where
    ready : (q : ℕ) → 0 ≤ q → q < 10 → Sendable pollout fuel s.watched (client s.clients q)
    ready q low high = record {
      string = λ busy.
          let (fd, on) = v.connected q busy in
          let (string, pending, enough) = strings q high busy in
          (
            fd,
            string,
            on,
            pending,
            enough,
            is_flagged-true pollout s q more v high busy (positive q high),
          );
      free = v.closed q;
    }
