-- ===== src/Heartbeat/Channel.antt =====
-- sockapi/demo/heartBeat2: the client and the server with a connection of their own for the heartbeats.
-- An event is what the calls of one round of the loop return.
use linux_programs.Common.{
  ℕ, ◌+◌, ◌≡◌, refl, ◌⊎◌, inl, inr, arith, Bool, true, false, Option, none, some, List, [], ◌∷◌,
  ltb, if◌then◌else◌,
}
use linux_programs.Heartbeat.{
  t1, t2, Ended, select_failure, connection_dead, send_failure, terminated, recv_failure,
}

-- The two connections: `sdata`, and `chb` of the client or `shb` of the server.
pub data Socket : Type 0 where
  sdata heartbeat_socket : Socket

-- What a `recv` returns.
pub data Recv : Type 0 where
  got : List ℕ → Recv
  failed : Recv

-- The Boolean of `timed_out` tells whether the `send` succeeds. `ready` has the result of the `recv`
-- for the heartbeat, where `select` finds its connection ready, whether it can be sent back, and the
-- result of the `recv` for the data.
pub data Round : Type 0 where
  select_failed : Round
  timed_out : (send_ok : Bool) → Round
  ready : (beat : Option Recv) → (send_ok : Bool) → (data_bytes : Option Recv) → Round

-- `heartbeats` or `missd_heartbeats`, and `tv.tv_sec`.
pub record Clock : Type 0 where
  pub misses : ℕ
  pub tv_sec : ℕ

-- The connections that `recv` and `send` were called on, and how the round ends.
pub record Trace : Type 0 where
  pub read_from : List Socket
  pub sent_on : List Socket
  pub result : Ended ⊎ Clock

-- A `recv` and its two tests: the program ends, or goes on.
abbrev checked : Recv → Option Ended
checked failed = some recv_failure
checked (got []) = some terminated
checked (got (b ∷ bytes)) = none

-- The part of a round for the data, which reads from `socket`.
abbrev data_part : Socket → Option Recv → (next : Clock) → List Socket × (Ended ⊎ Clock)
data_part socket none next = ([], inr next)
data_part socket (some reply) next =
    (socket ∷ [], elim (checked reply) [ some reason ↦ inl reason | none ↦ inr next ])

-- A round of hb_client.c. The data is read from `chb`, too.
pub client_round : Clock → Round → Trace
client_round c select_failed = record { read_from = []; sent_on = []; result = inl select_failure }
client_round c (timed_out send_ok) =
    if ltb 3 (c.misses + 1)
    then record { read_from = []; sent_on = []; result = inl connection_dead }
    else (record {
      read_from = [];
      sent_on = heartbeat_socket ∷ [];
      result =
          if send_ok then inr (record { misses = c.misses + 1; tv_sec = t2 }) else inl send_failure;
    })
client_round c (ready beat send_ok data_bytes) =
    let (reads, end) = data_part heartbeat_socket data_bytes (record { misses = 0; tv_sec = t1 }) in
    elim beat [
      | none ↦ record { read_from = reads; sent_on = []; result = end }
      | some reply ↦ elim (checked reply) [
        | some reason ↦ record {
          read_from = heartbeat_socket ∷ [];
          sent_on = [];
          result = inl reason;
        }
        | none ↦ record { read_from = heartbeat_socket ∷ reads; sent_on = []; result = end }
      ]
    ]

-- A round of hb_server.c.
pub server_round : Clock → Round → Trace
server_round c select_failed = record { read_from = []; sent_on = []; result = inl select_failure }
server_round c (timed_out send_ok) = record {
  read_from = [];
  sent_on = [];
  result =
      if ltb 3 (c.misses + 1)
      then inl connection_dead
      else inr (record { misses = c.misses + 1; tv_sec = t2 });
}
server_round c (ready beat send_ok data_bytes) =
    let (reads, end) = data_part sdata data_bytes (record { misses = 0; tv_sec = t1 + t2 }) in
    elim beat [
      | none ↦ record { read_from = reads; sent_on = []; result = end }
      | some reply ↦ elim (checked reply) [
        | some reason ↦ record {
          read_from = heartbeat_socket ∷ [];
          sent_on = [];
          result = inl reason;
        }
        | none ↦ elim send_ok [
          | false ↦ record {
            read_from = heartbeat_socket ∷ [];
            sent_on = heartbeat_socket ∷ [];
            result = inl send_failure;
          }
          | true ↦ record {
            read_from = heartbeat_socket ∷ reads;
            sent_on = heartbeat_socket ∷ [];
            result = end;
          }
        ]
      ]
    ]

abbrev pub reads_data : List Socket → Bool
reads_data [] = false
reads_data (sdata ∷ sockets) = true
reads_data (heartbeat_socket ∷ sockets) = reads_data sockets

-- Whatever happens in a round, the client does not read from its data connection: data that has come on
-- it stays there, and where `select` finds it the client waits on the connection of the heartbeats.
-- The server does read from it, where it goes on and the connection is ready.
pub client_round-blind :
    (c c' : Clock) (round : Round) (beat : Option Recv) (reply : Recv) (send_ok : Bool)
    → (server_round c (ready beat send_ok (some reply))).result ≡ inr c'
    → (reads_data (client_round c round).read_from ≡ false)
      × (reads_data (server_round c (ready beat send_ok (some reply))).read_from ≡ true)
unfolding client_round server_round
client_round-blind c c' round beat reply send_ok goes = (blind round, reads beat send_ok goes)
  where
    blind : (round : Round) → reads_data (client_round c round).read_from ≡ false
    blind select_failed = refl
    blind (timed_out ok) = ground arith
    blind (ready none ok none) = refl
    blind (ready none ok (some reply)) = refl
    blind (ready (some failed) ok d) = refl
    blind (ready (some (got [])) ok d) = refl
    blind (ready (some (got (b ∷ bytes))) ok none) = refl
    blind (ready (some (got (b ∷ bytes))) ok (some reply)) = refl

    reads :
        (beat : Option Recv) (ok : Bool)
        → (server_round c (ready beat ok (some reply))).result ≡ inr c'
        → reads_data (server_round c (ready beat ok (some reply))).read_from ≡ true
    reads none ok goes = refl
    reads (some failed) ok goes = absurd (cc goes)
    reads (some (got [])) ok goes = absurd (cc goes)
    reads (some (got (b ∷ bytes))) true goes = refl
    reads (some (got (b ∷ bytes))) false goes = absurd (cc goes)
