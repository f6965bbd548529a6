-- ===== src/Select.antt =====
-- IOModels/select/serverModel.c: the table of the server that waits with `select`, and the functions that
-- open and close a connection.
-- The file has misspelt names and does not compile. `pClients.[i]`, `pClients.pendingSendBuffer`,
-- `pClient[i].closePending`, `connections->socket` and `next_buffer` are read as the names that are
-- declared, `true = x` as the test that stands in the other functions.
pub mod Valid
pub mod Open
pub mod Send
pub mod Turn
pub mod Run
pub mod Round
mod Tests
use linux_programs.Common.{
  ℕ, zero, suc, ◌+◌, ◌-◌, Bool, true, false, not, ◌&&◌, Option, none, some, List, ltb, ◌==◌,
  if◌then◌else◌, get_or, set, length, replicate,
}
use linux_programs.Common.Int.{ℤ, pos, negsuc}

-- `ConnectionState` of serverModel.h.
pub data ConnectionState : Type 0 where
  e_idle e_new_connection e_wait_for_recv_data e_wait_for_send_data e_processing_request
        e_data_received e_data_sending e_finished_request e_unrecoverable_failure_or_end :
      ConnectionState

abbrev pub net_buffer_size : ℕ
net_buffer_size = 1024

abbrev pub default_connections : ℕ
default_connections = 10

abbrev pub reserve_conn : ℕ
reserve_conn = 4

-- `Connection`, without the addresses and the fields that nothing uses. `socket` is `none` for -1,
-- `client_callback` for NULL.
pub record Connection : Type 0 where
  pub usb_connection : Bool
  pub in_use : Bool
  pub socket : Option ℕ
  pub state : ConnectionState
  pub idle_time : ℕ
  pub wait_tick_valid : Bool
  pub wait_tick_time : ℕ
  pub pending_send_buffer : List ℕ
  pub recv_buffer : List ℕ
  pub client_callback : Option ℕ
  pub client_callback_stack_size : ℕ
  pub client_callback_running_now : Bool
  pub is_callback_handling_writes : Bool

-- A connection after `memset` and `socket = -1`.
pub blank : Connection
blank = record {
  usb_connection = false;
  in_use = false;
  socket = none;
  state = e_idle;
  idle_time = 0;
  wait_tick_valid = false;
  wait_tick_time = 0;
  pending_send_buffer = replicate net_buffer_size 0;
  recv_buffer = replicate net_buffer_size 0;
  client_callback = none;
  client_callback_stack_size = 0;
  client_callback_running_now = false;
  is_callback_handling_writes = false;
}

-- `pClients`, which has `maxConnections` places, and `connectionsActive`.
pub record Server : Type 0 where
  pub clients : List Connection
  pub active : ℕ

-- A place of `pClients`; all loops stay inside of it.
abbrev pub client : List Connection → ℕ → Connection
client clients i = get_or clients i blank

-- `CloseConnection(&pClients[i])`.
pub close_connection : Server → ℕ → Server
close_connection s i =
    if s.active == 0 then s else record { clients = set s.clients i blank; active = s.active - 1 }

abbrev pub is_quiet : ConnectionState → Bool
is_quiet e_idle = true
is_quiet e_new_connection = true
is_quiet _ = false

-- The loop for the connection that is idle for longest, with the best one so far.
pub find_stale : (left i : ℕ) → List Connection → Option ℕ → (longest : ℕ) → Option ℕ
find_stale zero i clients stale longest = stale
find_stale (suc left) i clients stale longest =
    let c = client clients i in
    let better = ltb longest c.idle_time && is_quiet c.state && not c.client_callback_running_now in
    find_stale left (i + 1) clients (if better then some i else stale)
      (if better then c.idle_time else longest)

-- The loop for the first place that is not in use.
pub find_unused : (left i : ℕ) → List Connection → Option ℕ
find_unused zero i clients = none
find_unused (suc left) i clients =
    let rest = find_unused left (i + 1) clients in
    if (client clients i).in_use then rest else some i

-- What a new connection is set to.
pub opened : (usb_connection : Bool) → (this_socket : ℕ) → Connection
opened usb_connection this_socket = record blank {
  usb_connection = usb_connection;
  in_use = true;
  socket = some this_socket;
  state = e_new_connection;
}

-- The second half of `NewConnection`. `accepted` is what `accept` returns, `none` for -1.
pub establish : (usb_connection : Bool) → (accepted : Option ℕ) → Server → Server
unfolding find_unused opened
establish usb_connection accepted s =
    elim (find_unused (length s.clients - reserve_conn) reserve_conn s.clients) [
      | none ↦ s
      | some i ↦ elim accepted [
        | none ↦ s
        | some fd ↦ record {
          clients = set s.clients i (opened usb_connection fd);
          active = s.active + 1;
        }
      ]
    ]

-- `NewConnection`.
pub new_connection : (usb_connection : Bool) → (accepted : Option ℕ) → Server → Server
unfolding find_stale close_connection establish
new_connection usb_connection accepted s =
    if ltb (s.active + reserve_conn) (length s.clients)
    then establish usb_connection accepted s
    else elim (find_stale (length s.clients - reserve_conn) reserve_conn s.clients none 0) [
      | none ↦ s
      | some i ↦ establish usb_connection accepted (close_connection s i)
    ]

-- `Initialize`; `allocated` tells whether `malloc` gives the block. `none` is a failed `assert`.
pub initialize : (desired : ℤ) → (allocated : Bool) → Option Server
initialize desired false = none
initialize (pos zero) true =
    some (record { clients = replicate default_connections blank; active = 0 })
initialize (pos (suc n)) true = some (record { clients = replicate (suc n) blank; active = 0 })
initialize (negsuc n) true =
    some (record { clients = replicate default_connections blank; active = 0 })
