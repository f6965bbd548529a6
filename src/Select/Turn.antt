-- ===== src/Select/Turn.antt =====
-- IOModels/select/serverModel.c: `ReceiveLoop` and `TransmitPendingLoop`. A set of descriptors is its test
-- `FD_ISSET`; `none` is undefined behaviour, as of that test on -1, or a loop that the fuel does not end.
pub mod Receive
pub mod Uncount
use linux_programs.Common.{
  ℕ, zero, suc, ◌+◌, ◌-◌, Bool, true, false, ◌&&◌, Option, none, some, List, [], ◌∷◌, ◌++◌, ◌==◌,
  if◌then◌else◌, set, length, drop,
}
use linux_programs.Select.{Server, client, e_data_received, close_connection}
use linux_programs.Select.Send.{Sent, finished, overrun, spinning, transmit_pending}

-- What `recv` gives on a connection: bytes, none at the end of the stream, or -1.
pub data Received : Type 0 where
  bytes : List ℕ → Received
  failed : Received

-- `recv` and what follows it, for place `i`.
pub receive_bytes : Received → ℕ → Server → Server
unfolding close_connection
receive_bytes failed i s = close_connection s i
receive_bytes (bytes []) i s = close_connection s i
receive_bytes (bytes (b ∷ bs)) i s =
    let c = client s.clients i in
    record s {
      clients = set s.clients i (record c {
        recv_buffer = (b ∷ bs) ++ drop (suc (length bs)) c.recv_buffer;
        state = e_data_received;
      });
    }

-- The test of `ReceiveLoop` for place `i`.
pub is_readable : (is_set : ℕ → Bool) → ℕ → Server → Bool
is_readable is_set i s = elim (client s.clients i).socket [
  | none ↦ false
  | some fd ↦ (client s.clients i).in_use && is_set fd
]

pub receive_from : (left i : ℕ) → (is_set : ℕ → Bool) → (ℕ → Received) → Server → Server
unfolding is_readable receive_bytes
receive_from zero i is_set received s = s
receive_from (suc left) i is_set received s =
    receive_from left (i + 1) is_set received
      (if is_readable is_set i s then receive_bytes (received i) i s else s)

-- `ReceiveLoop`, with a set that is not NULL. `received` gives what `recv` returns for each place.
pub receive_loop : (is_set : ℕ → Bool) → (ℕ → Received) → Server → Server
unfolding receive_from
receive_loop is_set received s =
    let all = receive_from (length s.clients) 0 is_set received s in
    if s.active == 0 then s else all

-- The body of `TransmitPendingLoop` for place `i`. The buffer is an array, so the tests of it
-- against NULL are decided.
pub transmit_client :
    {S : Type 0}
    → (is_set : ℕ → Bool) → (S → List ℕ → Sent × S)
    → (fuel : ℕ) → ℕ
    → Server
    → S
    → Option (Server × S)
unfolding close_connection
transmit_client is_set send fuel i s k =
    let c = client s.clients i in
    elim c.in_use [
      | false ↦ some (close_connection s i, k)
      | true ↦ elim c.socket [
        | none ↦ none
        | some fd ↦ elim (is_set fd) [
          | false ↦ some (s, k)
          | true ↦ elim (transmit_pending send fuel k (some c)) [
            | overrun ↦ none
            | spinning ↦ none
            | finished (status, none, k') ↦ some (s, k')
            | finished (status, some c', k') ↦
                let s' = record s { clients = set s.clients i c' } in
                some (if status then s' else close_connection s' i, k')
          ]
        ]
      ]
    ]

pub transmit_from :
    {S : Type 0}
    → (left i : ℕ) → (is_set : ℕ → Bool) → (S → List ℕ → Sent × S)
    → (fuel : ℕ) → Server
    → S
    → Option (Server × S)
unfolding transmit_client
transmit_from zero i is_set send fuel s k = some (s, k)
transmit_from (suc left) i is_set send fuel s k = elim (transmit_client is_set send fuel i s k) [
  | none ↦ none
  | some (s', k') ↦ transmit_from left (i + 1) is_set send fuel s' k'
]

-- `TransmitPendingLoop`, with a set that is not NULL.
pub transmit_pending_loop :
    {S : Type 0}
    → (is_set : ℕ → Bool) → (S → List ℕ → Sent × S)
    → (fuel : ℕ) → Server
    → S
    → Option (Server × S)
unfolding transmit_from
transmit_pending_loop is_set send fuel s k = transmit_from (length s.clients) 0 is_set send fuel s k
