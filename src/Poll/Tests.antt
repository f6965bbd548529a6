-- ===== src/Poll/Tests.antt =====
-- A connection with a string to send, to a peer that is gone and to one that reads.
use linux_programs.Common.{
  ℕ, ◌<◌, ◌≡◌, refl, arith, true, none, some, List, [], ◌∷◌, ◌++◌, length, replicate,
}
use linux_programs.Poll.{
  Sent, sent, broken, Connection, blank, net_buffer_size, pending_string, transmit_pending,
}
use linux_programs.Poll.Transmit.{Dead, Alive, transmit_pending-Dead, transmit_pending-Alive}

abbrev connection : Connection
connection = record blank {
  in_use = true;
  socket = some 4;
  pending_send_buffer = 104 ∷ 105 ∷ 0 ∷ 7 ∷ [];
}

string_of : pending_string connection.pending_send_buffer ≡ some (104 ∷ 105 ∷ 0 ∷ [])
unfolding pending_string
string_of = refl

abbrev refuse : List ℕ → List ℕ → Sent × List ℕ
refuse taken buffer = (broken, taken)

abbrev accept : List ℕ → List ℕ → Sent × List ℕ
accept taken [] = (sent 0, taken)
accept taken (b ∷ buffer) = (sent 1, taken ++ (b ∷ []))

abbrev gone_peer : Dead refuse
gone_peer = record { IsDead = λ taken. Unit; fails = λ taken buffer dead. (taken, refl, tt) }

abbrev reader : Alive accept
reader = record { output = λ taken. taken; takes = take_one }
  where
    take_one :
        (taken buffer : List ℕ)
        → 0 < length buffer
        → (front back : List ℕ) × (taken' : List ℕ) × (accept taken buffer
            ≡ (sent (length front), taken'))
          × (buffer ≡ front ++ back)
          × (0 < length front)
          × (taken' ≡ taken ++ front)
    take_one taken [] more = absurd (omega arith)
    take_one taken (b ∷ buffer) more =
        (b ∷ [], buffer, taken ++ (b ∷ []), refl, refl, omega arith, refl)

transmit_pending-Dead_example : transmit_pending refuse 50 [] (some connection) ≡ none
transmit_pending-Dead_example =
    transmit_pending-Dead gone_peer 50 [] connection (104 ∷ 105 ∷ 0 ∷ []) tt refl string_of

transmit_pending-Alive_example :
    (taken : List ℕ) × (transmit_pending accept 9 [] (some connection)
      ≡ some (
        true,
        some (record connection { pending_send_buffer = replicate net_buffer_size 0 }),
        taken,
      ))
    × (taken ≡ 104 ∷ 105 ∷ 0 ∷ [])
transmit_pending-Alive_example =
    transmit_pending-Alive reader 9 [] connection (104 ∷ 105 ∷ 0 ∷ []) refl string_of (omega arith)
