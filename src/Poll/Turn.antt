-- ===== src/Poll/Turn.antt =====
-- IOModels/poll/serverModel.c: the loops over the connections, the state machine of `ServerRun`, and one
-- round of the loop of `ServerModelMain`.
pub mod Receive
pub mod Uncount
pub mod Hook
mod Tests
use linux_programs.Common.{
  ℕ, zero, suc, ◌+◌, ◌-◌, Bool, true, false, not, ◌&&◌, Option, none, some, List, [], ◌∷◌, ◌++◌,
  ltb, ◌==◌, if◌then◌else◌, get_or, set, length, drop, bit_or,
}
use linux_programs.Poll.{
  Sent, Connection, ConnectionState, e_idle, e_new_connection, e_data_received, transmit_pending,
}
use linux_programs.Poll.Tables.{
  Server, client, max_connections, find_index, close_connection, new_connection,
}

-- `watchedfds[findIndex(socket)].fd | flag`, as a test; `none` is a failed `assert` of `findIndex`, or a
-- read in front of the array. On -1 every bit is set.
pub is_flagged : (flag : ℕ) → List (Option ℕ) → Option ℕ → Option Bool
is_flagged flag watched socket = elim (find_index watched socket) [
  | none ↦ none
  | some none ↦ none
  | some (some k) ↦ elim (get_or watched k none) [
    | none ↦ some true
    | some fd ↦ some (not (bit_or fd flag == 0))
  ]
]

-- What `recv` gives on a connection: bytes, none at the end of the stream, or -1, also when a
-- non-blocking socket has nothing to read.
pub data Received : Type 0 where
  bytes : List ℕ → Received
  nothing : Received

-- The body of `ReceiveLoop` for place `i`.
pub receive_client : (pollin : ℕ) → (ℕ → Received) → ℕ → Server → Option Server
unfolding is_flagged
receive_client pollin received i s =
    let c = client s.clients i in
    if c.in_use
    then elim (is_flagged pollin s.watched c.socket) [
      | none ↦ none
      | some false ↦ some s
      | some true ↦ elim (received i) [
        | nothing ↦ some (close_connection s i)
        | bytes [] ↦ some (close_connection s i)
        | bytes (b ∷ bs) ↦ some (record s {
          clients = set s.clients i (record c {
            recv_buffer = (b ∷ bs) ++ drop (suc (length bs)) c.recv_buffer;
            state = e_data_received;
          });
        })
      ]
    ]
    else some s

receive_from : (left i : ℕ) → (pollin : ℕ) → (ℕ → Received) → Server → Option Server
unfolding receive_client
receive_from zero i pollin received s = some s
receive_from (suc left) i pollin received s = elim (receive_client pollin received i s) [
  | none ↦ none
  | some s' ↦ receive_from left (i + 1) pollin received s'
]

-- `ReceiveLoop`, where `watchedfds` is allocated.
pub receive_loop : (pollin : ℕ) → (ℕ → Received) → Server → Option Server
unfolding receive_from
receive_loop pollin received s =
    let all = receive_from max_connections 0 pollin received s in
    if s.active == 0 then some s else all

-- The body of `TransmitPendingLoop` for place `i`. The buffer is an array, so the tests of it
-- against NULL are decided.
pub transmit_client :
    {S : Type 0}
    → (pollout : ℕ) → (S → List ℕ → Sent × S)
    → (fuel : ℕ) → ℕ
    → Server
    → S
    → Option (Server × S)
unfolding is_flagged
transmit_client pollout send fuel i s k =
    let c = client s.clients i in
    elim c.in_use [
      | false ↦ some (close_connection s i, k)
      | true ↦ elim (is_flagged pollout s.watched c.socket) [
        | none ↦ none
        | some false ↦ some (s, k)
        | some true ↦ elim (transmit_pending send fuel k (some c)) [
          | none ↦ none
          | some (status, none, k') ↦ some (s, k')
          | some (status, some c', k') ↦
              let s' = record s { clients = set s.clients i c' } in
              some (if status then s' else close_connection s' i, k')
        ]
      ]
    ]

transmit_from :
    {S : Type 0}
    → (left i : ℕ) → (pollout : ℕ) → (S → List ℕ → Sent × S)
    → (fuel : ℕ) → Server
    → S
    → Option (Server × S)
unfolding transmit_client
transmit_from zero i pollout send fuel s k = some (s, k)
transmit_from (suc left) i pollout send fuel s k = elim (transmit_client pollout send fuel i s k) [
  | none ↦ none
  | some (s', k') ↦ transmit_from left (i + 1) pollout send fuel s' k'
]

-- `TransmitPendingLoop`, where `watchedfds` is allocated.
pub transmit_pending_loop :
    {S : Type 0}
    → (pollout : ℕ) → (S → List ℕ → Sent × S)
    → (fuel : ℕ) → Server
    → S
    → Option (Server × S)
unfolding transmit_from
transmit_pending_loop pollout send fuel s k = transmit_from max_connections 0 pollout send fuel s k

-- `SpawnHookThread`: `created` tells whether `pthread_create` returns 0. `none` is a failed `assert`.
pub spawn_hook_thread : (created : Bool) → Connection → Option Bool
spawn_hook_thread created c = elim c.socket [
  | none ↦ none
  | some fd ↦ if created then none else some true
]

-- `HandleConnectionHook`, with the connection that it leaves.
pub handle_connection_hook : (created : Bool) → Connection → Option (Bool × Connection)
unfolding spawn_hook_thread
handle_connection_hook created c =
    let c' = record c {
      client_callback_stack_size =
          if c.client_callback_stack_size == 0 then 2048 else c.client_callback_stack_size;
    } in
    elim (spawn_hook_thread created c') [
      | none ↦ none
      | some false ↦ some (false, record c' { client_callback_running_now = false })
      | some true ↦ some (true, record c' { client_callback_running_now = true })
    ]

-- How the state machine of a connection ends; `spinning` is a loop that the fuel does not end.
pub data Run : Type 0 where
  done : Connection → Run
  aborted spinning : Run

-- The `switch` of `ServerRun` for the states that serverModel.h has.
pub run_state : (created : Bool) → Connection → Option Connection
unfolding handle_connection_hook
run_state created c = elim c.state [
  | e_idle ↦ some (record c { wait_tick_valid = false })
  | e_new_connection ↦ some (record c { wait_tick_valid = false })
  | e_data_received ↦
      if c.client_callback_running_now
      then some c
      else (let c' = record c { wait_tick_valid = false } in
          elim c.client_callback [
            | none ↦ some c'
            | some callback ↦ elim (handle_connection_hook created c') [
              | none ↦ none
              | some (result, c2) ↦ some c2
            ]
          ])
]

abbrev pub same_state : ConnectionState → ConnectionState → Bool
same_state e_idle e_idle = true
same_state e_new_connection e_new_connection = true
same_state e_data_received e_data_received = true
same_state _ _ = false

-- `do … while (origState != pClients[i].state)`.
pub run_states : (fuel : ℕ) → (created : Bool) → Connection → Run
unfolding run_state
run_states zero created c = spinning
run_states (suc fuel) created c = elim (run_state created c) [
  | none ↦ aborted
  | some c' ↦ elim (same_state c.state c'.state) [
    | true ↦ done c'
    | false ↦ run_states fuel created c'
  ]
]

-- `idleTime` after it was counted.
abbrev pub next_idle : ConnectionState → ℕ → ℕ
next_idle e_idle time = time + 1
next_idle e_new_connection time = time + 1
next_idle e_data_received time = 0

abbrev pub counted : Connection → Connection
counted c = record c { idle_time = next_idle c.state c.idle_time }

-- The body of `ServerRun` for one connection.
pub run_client : (fuel : ℕ) → (created : Bool) → Connection → Run
unfolding run_states
run_client fuel created c =
    if c.in_use
    then (let c' =
          if c.client_callback_running_now then record c { wait_tick_valid = false } else c in
        run_states fuel created (counted c'))
    else done c

run_from : (left i : ℕ) → (fuel : ℕ) → (ℕ → Bool) → Server → Option Server
unfolding run_client
run_from zero i fuel created s = some s
run_from (suc left) i fuel created s = elim (run_client fuel (created i) (client s.clients i)) [
  | aborted ↦ none
  | spinning ↦ none
  | done c ↦ run_from left (i + 1) fuel created (record s { clients = set s.clients i c })
]

-- `ServerRun`; `created` tells for each place whether its thread can be created.
pub server_run : (fuel : ℕ) → (ℕ → Bool) → Server → Option Server
unfolding run_from
server_run fuel created s = run_from max_connections 0 fuel created s

-- What the kernel does in a round of `ServerModelMain`: the flags, whether `poll` succeeds and finds the
-- listening socket ready, and the results of the other calls.
pub record Events (S : Type 0) : Type 0 where
  pub pollin : ℕ
  pub pollout : ℕ
  pub created : ℕ → Bool
  pub poll_ok : Bool
  pub listening : Option ℕ
  pub listen_ready : Bool
  pub accepted : Option ℕ
  pub received : ℕ → Received
  pub send : S → List ℕ → Sent × S

-- The new connections of a round.
accept_ready : {S : Type 0} → (port1_callback : ℕ) → Events S → Server → Server
accept_ready callback e s = elim e.listening [
  | none ↦ s
  | some listening ↦
      if e.listen_ready && ltb s.active max_connections
      then (new_connection callback listening e.accepted s).1
      else s
]

-- One round of the loop of `ServerModelMain`; `none` is a failed `assert`, a loop that does not end, or
-- undefined behaviour.
pub server_round :
    {S : Type 0} → (port1_callback fuel : ℕ) → Events S → Server → S → Option (Server × S)
unfolding server_run accept_ready receive_loop transmit_pending_loop
server_round callback fuel e s k = elim (server_run fuel e.created s) [
  | none ↦ none
  | some s1 ↦
      if e.poll_ok
      then elim (receive_loop e.pollin e.received (accept_ready callback e s1)) [
        | none ↦ none
        | some s2 ↦ transmit_pending_loop e.pollout e.send fuel s2 k
      ]
      else none
]
