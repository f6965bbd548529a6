-- ===== src/Poll/Turn/Receive.antt =====
-- What `ReceiveLoop` does to the connections.
use linux_programs.Common.{
  ℕ, zero, suc, ◌+◌, ◌≤◌, ◌<◌, ◌≡◌, ◌≢◌, refl, sym, ap, ◌∙◌, inl, inr, arith, Bool, true, false,
  Bool-cases, some, [], ◌∷◌, ◌++◌, ◌==◌, if◌then◌else◌, get_or-set_self, get_or-set_ne, set, length,
  drop, bit_or, le-bit_or,
}
use linux_programs.Poll.{Connection, blank, e_data_received}
use linux_programs.Poll.Tables.{Server, client, close_connection}
use linux_programs.Poll.Tables.Count.{find_watched-some, find_index-some}
use linux_programs.Poll.Tables.Valid.{
  IsValid, close_connection-IsValid, close_connection-clients, update-IsValid, socket_watched,
}
use linux_programs.Poll.Turn.{
  is_flagged, Received, bytes, nothing, receive_client, receive_from, receive_loop,
}

-- The test by `|` is true for every connection in use.
pub is_flagged-true :
    (flag : ℕ) (s : Server) (i : ℕ)
    → 0 < flag
    → IsValid s
    → i < 10
    → (client s.clients i).in_use ≡ true
    → (client s.clients i).socket ≢ some 0
    → is_flagged flag s.watched (client s.clients i).socket ≡ some true
unfolding is_flagged
is_flagged-true flag s i more v low busy positive =
    let (fd, on) = v.connected i busy in
    let (k, found, held) = find_watched-some s.watched fd (socket_watched s i fd v low busy on) in
    let set' : (bit_or fd flag == 0) ≡ false = ground (arith, le-bit_or fd flag) in
    let index = find_index-some s.watched fd {k = k} (λ e. positive (on ∙ ap some e)) found in
    simp (on, is_flagged, index, held, set')

-- What is to become of a connection: one in use that gives bytes has received them, another one in
-- use is closed, and one that is not in use stays.
abbrev pub after_receive : Received → Connection → Connection
after_receive (bytes (b ∷ bs)) c =
    if c.in_use
    then record c {
      recv_buffer = (b ∷ bs) ++ drop (suc (length bs)) c.recv_buffer;
      state = e_data_received;
    }
    else c
after_receive (bytes []) c = if c.in_use then blank else c
after_receive nothing c = if c.in_use then blank else c

-- The tables after one connection was handled.
record ReceivedAt (r : Received) (s : Server) (i : ℕ) (s' : Server) : Type 0 where
  valid : IsValid s'
  here : client s'.clients i ≡ after_receive r (client s.clients i)
  others : (q : ℕ) → i ≢ q → client s'.clients q ≡ client s.clients q

receive_client-ReceivedAt :
    (pollin : ℕ) (received : ℕ → Received) (i : ℕ) (s : Server)
    → 0 < pollin
    → IsValid s
    → i < 10
    → (client s.clients i).socket ≢ some 0
    → (s' : Server) × (receive_client pollin received i s ≡ some s')
      × ReceivedAt (received i) s i s'
unfolding receive_client
receive_client-ReceivedAt pollin received i s more v low positive =
    elim (Bool-cases (client s.clients i).in_use) [
      | inr free ↦ (
        s,
        rw (receive_client, free),
        record { valid = v; here = idle (received i) free; others = λ q ne. refl },
      )
      | inl busy ↦ in_use (received i) refl busy
    ]
  where
    inside : i < length s.clients
    inside = omega (arith, v.clients)

    idle :
        (r : Received)
        → (client s.clients i).in_use ≡ false
        → client s.clients i ≡ after_receive r (client s.clients i)
    idle (bytes (b ∷ bs)) free = simp free
    idle (bytes []) free = simp free
    idle nothing free = simp free

    closed :
        (r : Received)
        → (client s.clients i).in_use ≡ true
        → after_receive r (client s.clients i) ≡ blank
        → ReceivedAt r s i (close_connection s i)
    closed r busy e =
        let after = close_connection-clients s i v low busy in
        record {
          valid = close_connection-IsValid s i v low busy;
          here =
              ap (λ cs. client cs i) after ∙ get_or-set_self s.clients i blank blank inside ∙ sym e;
          others =
              λ q ne. ap (λ cs. client cs q) after ∙ get_or-set_ne s.clients i q blank blank ne;
        }

    in_use :
        (r : Received)
        → received i ≡ r
        → (client s.clients i).in_use ≡ true
        → (s' : Server) × (receive_client pollin received i s ≡ some s') × ReceivedAt r s i s'
    in_use nothing e busy =
        let flagged = is_flagged-true pollin s i more v low busy positive in
        (
          close_connection s i,
          simp (receive_client, busy, flagged, e),
          closed nothing busy (simp busy),
        )
    in_use (bytes []) e busy =
        let flagged = is_flagged-true pollin s i more v low busy positive in
        (
          close_connection s i,
          simp (receive_client, busy, flagged, e),
          closed (bytes []) busy (simp busy),
        )
    in_use (bytes (b ∷ bs)) e busy =
        let flagged = is_flagged-true pollin s i more v low busy positive in
        let c = record (client s.clients i) {
          recv_buffer = (b ∷ bs) ++ drop (suc (length bs)) (client s.clients i).recv_buffer;
          state = e_data_received;
        } in
        (
          record s { clients = set s.clients i c },
          simp (receive_client, busy, flagged, e),
          record {
            valid = update-IsValid s i c v low refl refl (omega arith);
            here =
                get_or-set_self s.clients i c blank inside
                ∙ ap (λ (q : Bool). if q then c else client s.clients i) (sym busy);
            others = λ q ne. get_or-set_ne s.clients i q c blank ne;
          },
        )

receive_from_lem :
    (left i : ℕ) (pollin : ℕ) (received : ℕ → Received) (s : Server)
    → i + left ≡ 10
    → 0 < pollin
    → IsValid s
    → ((q : ℕ) → i ≤ q → q < 10 → (client s.clients q).socket ≢ some 0)
    → (s' : Server) × (receive_from left i pollin received s ≡ some s')
      × IsValid s'
      × ((q : ℕ)
          → i ≤ q
          → q < 10
          → client s'.clients q ≡ after_receive (received q) (client s.clients q))
      × ((q : ℕ) → q < i → client s'.clients q ≡ client s.clients q)
unfolding receive_from
receive_from_lem zero i pollin received s size more v positive =
    (s, refl, v, λ q low high. absurd (omega arith), λ q low. refl)
receive_from_lem (suc left) i pollin received s size more v positive =
    let (s1, run1, at1) =
      receive_client-ReceivedAt pollin received i s more v (omega arith)
        (positive i (omega arith) (omega arith)) in
    let (s2, run2, v2, later, before) =
      receive_from_lem left (i + 1) pollin received s1 (omega arith) more at1.valid (λ q low high e.
        positive q (omega arith) high
          (sym (ap (λ (c : Connection). c.socket) (at1.others q (omega arith))) ∙ e)) in
    (
      s2,
      rw (receive_from, run1) run2,
      v2,
      λ q low high. elim (Bool-cases (i == q)) [
        | inl here ↦
            let at_q : i ≡ q = ground arith in
            ap (λ p. client s2.clients p) (sym at_q)
            ∙ before i (omega arith)
            ∙ at1.here
            ∙ ap (λ p. after_receive (received p) (client s.clients p)) at_q
        | inr there ↦
            let past : i < q = ground arith in
            later q (omega arith) high
            ∙ ap (after_receive (received q)) (at1.others q (omega arith))
      ],
      λ q low. before q (omega arith) ∙ at1.others q (omega arith),
    )

-- From tables that satisfy the invariant, with at least one connection, none on descriptor 0, for which
-- `findIndex` fails an `assert`, and a POLLIN that is not 0, `ReceiveLoop` ends within the arrays and keeps the invariant. It calls `recv` on every connection in
-- use, whatever `poll` found: those that give bytes have received them, and every other one is
-- closed, also when it only has nothing to read yet.
pub receive_loop-after_receive :
    (pollin : ℕ) (received : ℕ → Received) (s : Server)
    → IsValid s
    → 0 < s.active
    → 0 < pollin
    → ((i : ℕ) → i < 10 → (client s.clients i).socket ≢ some 0)
    → (s' : Server) × (receive_loop pollin received s ≡ some s')
      × IsValid s'
      × ((i : ℕ) → i < 10 → client s'.clients i ≡ after_receive (received i) (client s.clients i))
unfolding receive_loop
receive_loop-after_receive pollin received s v some' more positive =
    let (s', run, v', every, before) =
      receive_from_lem 10 0 pollin received s refl more v (λ q low. positive q) in
    let test : (s.active == 0) ≡ false = ground arith in
    (s', rw (test, run), v', λ i low. every i (omega arith) low)
