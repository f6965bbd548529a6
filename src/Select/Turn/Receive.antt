-- ===== src/Select/Turn/Receive.antt =====
-- What `ReceiveLoop` of the select server does to the connections.
use linux_programs.Common.{
  ℕ, zero, suc, ◌+◌, ◌≤◌, ◌<◌, ◌≡◌, ◌≢◌, refl, sym, ap, ◌∙◌, inl, inr, arith, Bool, true, false,
  Bool-cases, ◌&&◌, none, some, Option-cases, [], ◌∷◌, ◌++◌, ◌==◌, if◌then◌else◌, get_or-set_self,
  get_or-set_ne, set, length, length-set, drop,
}
use mathlib.Core.Path.{subst}
use linux_programs.Select.{Connection, blank, Server, client, e_data_received, close_connection}
use linux_programs.Select.Valid.{
  IsValid, counted, write-IsValid, close_connection-closes, close_connection-IsValid,
}
use linux_programs.Select.Turn.{
  Received, bytes, failed, receive_bytes, is_readable, receive_from, receive_loop,
}

-- What is to become of a connection: one in use whose descriptor is set has received the bytes, or is
-- closed where there are none; another one stays.
abbrev pub after_bytes : Received → Connection → Connection
after_bytes (bytes (b ∷ bs)) c = record c {
  recv_buffer = (b ∷ bs) ++ drop (suc (length bs)) c.recv_buffer;
  state = e_data_received;
}
after_bytes (bytes []) c = blank
after_bytes failed c = blank

abbrev pub wants : (is_set : ℕ → Bool) → Connection → Bool
wants is_set c = c.in_use && elim c.socket [ none ↦ false | some fd ↦ is_set fd ]

pub wants-in_use : (is_set : ℕ → Bool) (c : Connection) → wants is_set c ≡ true → c.in_use ≡ true
wants-in_use is_set c e = elim (Bool-cases c.in_use) [
  | inl yes' ↦ yes'
  | inr no' ↦ absurd (cc (no', e))
]

abbrev pub after_receive : (is_set : ℕ → Bool) → Received → Connection → Connection
after_receive is_set r c = if wants is_set c then after_bytes r c else c

is_readable-wants :
    (is_set : ℕ → Bool) (i : ℕ) (s : Server)
    → is_readable is_set i s ≡ wants is_set (client s.clients i)
unfolding is_readable
is_readable-wants is_set i s = elim (Option-cases (client s.clients i).socket) [
  | inl closed ↦ elim (Bool-cases (client s.clients i).in_use) [
    | inl busy ↦ simp (is_readable, closed, busy)
    | inr free ↦ simp (is_readable, closed, free)
  ]
  | inr (fd, on) ↦ simp (is_readable, on)
]

-- The table after one place was handled.
record ReceivedAt (c : Connection) (s : Server) (i : ℕ) (s' : Server) : Type 0 where
  valid : IsValid s'
  places : length s'.clients ≡ length s.clients
  here : client s'.clients i ≡ c
  others : (q : ℕ) → i ≢ q → client s'.clients q ≡ client s.clients q

closed-ReceivedAt :
    (s : Server) (i : ℕ)
    → IsValid s
    → i < length s.clients
    → (client s.clients i).in_use ≡ true
    → ReceivedAt blank s i (close_connection s i)
closed-ReceivedAt s i v inside busy =
    let (some', high) = counted s i v inside busy in
    let closes = ap (λ (t : Server). t.clients) (close_connection-closes s i some') in
    record {
      valid = close_connection-IsValid s i v inside busy;
      places = ap length closes ∙ length-set s.clients i blank;
      here = ap (λ cs. client cs i) closes ∙ get_or-set_self s.clients i blank blank inside;
      others = λ q ne. ap (λ cs. client cs q) closes ∙ get_or-set_ne s.clients i q blank blank ne;
    }

-- A connection in use, changed where the invariant does not look.
pub update-IsValid :
    (s : Server) (i : ℕ) (c : Connection)
    → IsValid s
    → i < length s.clients
    → (client s.clients i).in_use ≡ true
    → c.in_use ≡ true
    → c.socket ≡ (client s.clients i).socket
    → IsValid (record s { clients = set s.clients i c })
update-IsValid s i c v inside busy busy' on =
    let (some', high) = counted s i v inside busy in
    write-IsValid s i s.active c v inside high
      (record {
        connected = λ e. let (fd, old) = (v.places i).connected busy in (fd, on ∙ old);
        closed = λ e. absurd (cc (busy', e));
        idle = λ h. busy';
      })
      (ap (λ (b : Bool). s.active + (if b then 1 else 0)) (busy ∙ sym busy')) v.bound

receive_bytes-ReceivedAt :
    (r : Received) (i : ℕ) (s : Server)
    → IsValid s
    → i < length s.clients
    → (client s.clients i).in_use ≡ true
    → ReceivedAt (after_bytes r (client s.clients i)) s i (receive_bytes r i s)
unfolding receive_bytes
receive_bytes-ReceivedAt failed i s v inside busy = closed-ReceivedAt s i v inside busy
receive_bytes-ReceivedAt (bytes []) i s v inside busy = closed-ReceivedAt s i v inside busy
receive_bytes-ReceivedAt (bytes (b ∷ bs)) i s v inside busy =
    let c = after_bytes (bytes (b ∷ bs)) (client s.clients i) in
    record {
      valid = update-IsValid s i c v inside busy busy refl;
      places = length-set s.clients i c;
      here = get_or-set_self s.clients i c blank inside;
      others = λ q ne. get_or-set_ne s.clients i q c blank ne;
    }

step-ReceivedAt :
    (is_set : ℕ → Bool) (r : Received) (i : ℕ) (s : Server)
    → IsValid s
    → i < length s.clients
    → ReceivedAt
        (after_receive is_set r (client s.clients i))
        s
        i
        (if is_readable is_set i s then receive_bytes r i s else s)
step-ReceivedAt is_set r i s v inside =
    subst
      (λ (b : Bool).
        ReceivedAt (after_receive is_set r (client s.clients i)) s i
          (if b then receive_bytes r i s else s))
      (sym (is_readable-wants is_set i s))
      (elim (Bool-cases (wants is_set (client s.clients i))) [
        | inl yes' ↦ rw yes' (receive_bytes-ReceivedAt r i s v inside (busy yes'))
        | inr no' ↦ rw no' (record { valid = v; places = refl; here = refl; others = λ q ne. refl })
      ])
  where
    busy : wants is_set (client s.clients i) ≡ true → (client s.clients i).in_use ≡ true
    busy e = wants-in_use is_set (client s.clients i) e

receive_from_lem :
    (left i : ℕ) (is_set : ℕ → Bool) (received : ℕ → Received) (s : Server)
    → i + left ≡ length s.clients
    → IsValid s
    → IsValid (receive_from left i is_set received s)
      × (length (receive_from left i is_set received s).clients ≡ length s.clients)
      × ((q : ℕ)
          → i ≤ q
          → q < length s.clients
          → client (receive_from left i is_set received s).clients q
            ≡ after_receive is_set (received q) (client s.clients q))
      × ((q : ℕ)
          → q < i
          → client (receive_from left i is_set received s).clients q ≡ client s.clients q)
unfolding receive_from
receive_from_lem zero i is_set received s size v =
    (v, refl, λ q low high. absurd (omega arith), λ q low. refl)
receive_from_lem (suc left) i is_set received s size v =
    let one = step-ReceivedAt is_set (received i) i s v (omega arith) in
    let s' : Server = if is_readable is_set i s then receive_bytes (received i) i s else s in
    let (valid, places, behind, before) =
      receive_from_lem left (i + 1) is_set received s' (omega (arith, one.places, size))
        one.valid in
    (
      valid,
      places ∙ one.places,
      λ q low high. elim (Bool-cases (i == q)) [
        | inl here ↦
            let at_i : i ≡ q = ground arith in
            subst
              (λ p.
                client (receive_from left (i + 1) is_set received s').clients p
                ≡ after_receive is_set (received p) (client s.clients p))
              at_i (before i (omega arith) ∙ one.here)
        | inr there ↦
            let ne : i ≢ q = λ e. ground arith in
            let far : i + 1 ≤ q = ground arith in
            behind q far (omega (arith, one.places, high))
            ∙ ap (after_receive is_set (received q)) (one.others q ne)
      ],
      λ q low. before q (omega arith) ∙ one.others q (λ e. omega arith),
    )

-- From a table that satisfies the invariant, with a connection in use, `ReceiveLoop` leaves such a
-- table again, with as many places. Each connection in use whose descriptor is set has received what its `recv` gave, or is
-- closed where that was nothing, and every other place is as before.
pub receive_loop-receives :
    (is_set : ℕ → Bool) (received : ℕ → Received) (s : Server)
    → IsValid s
    → 0 < s.active
    → IsValid (receive_loop is_set received s)
      × (length (receive_loop is_set received s).clients ≡ length s.clients)
      × ((i : ℕ)
          → i < length s.clients
          → client (receive_loop is_set received s).clients i
            ≡ after_receive is_set (received i) (client s.clients i))
unfolding receive_loop
receive_loop-receives is_set received s v some' =
    let test : (s.active == 0) ≡ false = ground arith in
    let (valid, size, places, before) =
      receive_from_lem (length s.clients) 0 is_set received s (omega arith) v in
    rw (receive_loop, test) (valid, size, λ i low. places i (omega arith) low)
