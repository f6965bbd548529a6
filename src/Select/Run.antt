-- ===== src/Select/Run.antt =====
-- IOModels/select/serverModel.c: `ServerRun`, its state machine and the call of the hooks.
-- What the file calls and does not have, and the hooks themselves, are the arguments in `Calls`.
pub mod Hook
pub mod Keeps
pub mod Ends
use linux_programs.Common.{
  ℕ, zero, suc, ◌+◌, ◌-◌, Bool, true, false, Option, none, some, ltb, ◌==◌, if◌then◌else◌, set,
  length,
}
use linux_programs.Select.{
  Connection, ConnectionState, Server, client, close_connection, e_idle, e_new_connection,
  e_wait_for_recv_data, e_wait_for_send_data, e_processing_request, e_data_received, e_data_sending,
  e_finished_request, e_unrecoverable_failure_or_end,
}

-- How a function ends: it returns, an `assert` fails, NULL is called, or the fuel does not end a loop.
pub data Outcome (A : Type 0) : Type 0 where
  returned : A → Outcome A
  aborted undefined spinning : Outcome A

-- `created` tells whether `pthread_create` returns 0. `hook` is the function at an address, with what it
-- returns and makes of the connection; so is `determine` for `DetermineClientRequest`. `now` is
-- `bTicks2Time(clock_gettick())`, `max_waiting` is `MAX_WAITING_HTTP_CLIENT`. `unported` stands for the
-- code of the states whose functions and fields are declared nowhere.
pub record Calls : Type 0 where
  pub created : Bool
  pub hook : ℕ → Connection → Bool × Connection
  pub determine : Connection → Bool × Connection
  pub now : ℕ
  pub max_waiting : ℕ
  pub unported : Server → ℕ → Outcome Server

-- `SpawnHookThread` on a connection.
pub spawn_hook_thread : (created : Bool) → Outcome Bool
spawn_hook_thread created = if created then aborted else returned true

-- `HandleConnectionHook`, with the connection that it leaves.
pub handle_connection_hook : Calls → Connection → Outcome (Bool × Connection)
unfolding spawn_hook_thread
handle_connection_hook calls c =
    let c' = record c { client_callback_running_now = true } in
    if c.client_callback_stack_size == 0
    then elim c.client_callback [
      | none ↦ undefined
      | some callback ↦ returned (calls.hook callback c)
    ]
    else elim (spawn_hook_thread calls.created) [
      | returned true ↦ returned (true, c')
      | returned false ↦ returned (false, record c' { client_callback_running_now = false })
      | aborted ↦ aborted
      | undefined ↦ undefined
      | spinning ↦ spinning
    ]

-- The server with another connection at place `i`.
abbrev pub put : Server → ℕ → Connection → Server
put s i c = record s { clients = set s.clients i c }

abbrev pub put_outcome : Server → ℕ → Outcome (Bool × Connection) → Outcome Server
put_outcome s i (returned (result, c)) = returned (put s i c)
put_outcome s i aborted = aborted
put_outcome s i undefined = undefined
put_outcome s i spinning = spinning

-- The case `eDataReceived`.
pub run_received : Calls → Server → ℕ → Outcome Server
unfolding handle_connection_hook
run_received calls s i =
    let c = client s.clients i in
    if c.client_callback_running_now
    then returned s
    else (let c' = record c { wait_tick_valid = false } in
        elim c.client_callback [
          | none ↦ put_outcome s i (handle_connection_hook calls c')
          | some callback ↦
              let (result, c2) = calls.determine c' in
              if result
              then put_outcome s i (handle_connection_hook calls c2)
              else returned (put s i c2)
        ])

-- The case `eWaitForRecvData`.
pub run_waiting : Calls → Server → ℕ → Server
unfolding close_connection
run_waiting calls s i =
    let c = client s.clients i in
    let diff_time = if ltb c.wait_tick_time calls.now then calls.now - c.wait_tick_time else 0 in
    if c.client_callback_running_now
    then s
    else (if c.wait_tick_valid
        then (if ltb calls.max_waiting diff_time
            then close_connection s i
            else (if diff_time == 0 then put s i (record c { wait_tick_time = calls.now }) else s))
        else put s i (record c { wait_tick_time = calls.now; wait_tick_valid = true }))

-- The `switch` for place `i`.
pub run_state : Calls → Server → ℕ → Outcome Server
unfolding run_received run_waiting
run_state calls s i =
    let rest = put s i (record (client s.clients i) { wait_tick_valid = false }) in
    elim (client s.clients i).state [
      | e_data_received ↦ run_received calls s i
      | e_data_sending ↦ returned s
      | e_wait_for_recv_data ↦ returned (run_waiting calls s i)
      | e_unrecoverable_failure_or_end ↦ calls.unported s i
      | e_processing_request ↦ calls.unported s i
      | e_idle ↦ returned rest
      | e_new_connection ↦ returned rest
      | e_wait_for_send_data ↦ returned rest
      | e_finished_request ↦ returned rest
    ]

-- The place of a state in the `enum`.
abbrev pub state_number : ConnectionState → ℕ
state_number e_idle = 0
state_number e_new_connection = 1
state_number e_wait_for_recv_data = 2
state_number e_wait_for_send_data = 3
state_number e_processing_request = 4
state_number e_data_received = 5
state_number e_data_sending = 6
state_number e_finished_request = 7
state_number e_unrecoverable_failure_or_end = 8

-- `do … while(origState != pClients[i].state)`.
pub run_states : (fuel : ℕ) → Calls → Server → ℕ → Outcome Server
unfolding run_state
run_states zero calls s i = spinning
run_states (suc fuel) calls s i = elim (run_state calls s i) [
  | aborted ↦ aborted
  | undefined ↦ undefined
  | spinning ↦ spinning
  | returned s' ↦
      if state_number (client s.clients i).state == state_number (client s'.clients i).state
      then returned s'
      else run_states fuel calls s' i
]

-- `idleTime` after it was counted.
abbrev pub next_idle : ConnectionState → ℕ → ℕ
next_idle e_idle time = time + 1
next_idle e_new_connection time = time + 1
next_idle _ time = 0

-- What is set in a connection in use before its state machine runs.
abbrev pub marked : Connection → Connection
marked c = record c {
  wait_tick_valid = if c.client_callback_running_now then false else c.wait_tick_valid;
  idle_time = next_idle c.state c.idle_time;
}

-- The body of the loop of `ServerRun`.
pub run_client : (fuel : ℕ) → Calls → Server → ℕ → Outcome Server
unfolding run_states
run_client fuel calls s i =
    if (client s.clients i).in_use
    then run_states fuel calls (put s i (marked (client s.clients i))) i
    else returned s

pub run_from : (left i fuel : ℕ) → (ℕ → Calls) → Server → Outcome Server
unfolding run_client
run_from zero i fuel calls s = returned s
run_from (suc left) i fuel calls s = elim (run_client fuel (calls i) s i) [
  | aborted ↦ aborted
  | undefined ↦ undefined
  | spinning ↦ spinning
  | returned s' ↦ run_from left (i + 1) fuel calls s'
]

-- `ServerRun`; `calls` tells for each place what is called there.
pub server_run : (fuel : ℕ) → (ℕ → Calls) → Server → Outcome Server
unfolding run_from
server_run fuel calls s = run_from (length s.clients) 0 fuel calls s
