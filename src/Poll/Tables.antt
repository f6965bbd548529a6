-- ===== src/Poll/Tables.antt =====
-- IOModels/poll/serverModel.c: the tables of the server, `watchedfds` and `pClients`, and the functions
-- that open and close a connection.
pub mod Count
pub mod Valid
pub mod Stale
pub mod Open
pub mod Start
pub mod Sample
mod Tests
use linux_programs.Common.{
  ℕ, zero, suc, ◌+◌, ◌-◌, ◌*◌, Bool, true, false, not, ◌&&◌, Option, none, some, List, leb, ltb,
  ◌==◌, if◌then◌else◌, get_or, set, replicate,
}
use linux_programs.Poll.{
  Connection, blank, ConnectionState, e_idle, e_new_connection, e_data_received,
}

abbrev pub max_service : ℕ
max_service = 3

abbrev pub max_connections : ℕ
max_connections = 10

abbrev pub reserve_conn : ℕ
reserve_conn = 2

abbrev pub port1 : ℕ
port1 = 50000

-- `watched` holds the `fd` of each `struct pollfd`, `none` for -1; `active` is `connectionsActive`.
pub record Server : Type 0 where
  pub watched : List (Option ℕ)
  pub clients : List Connection
  pub active : ℕ

-- A place of `pClients`; all loops stay inside of it.
abbrev pub client : List Connection → ℕ → Connection
client clients i = get_or clients i blank

-- `==` on descriptors, -1 among them.
abbrev pub same_fd : Option ℕ → Option ℕ → Bool
same_fd none none = true
same_fd none (some b) = false
same_fd (some a) none = false
same_fd (some a) (some b) = a == b

-- The search of `findIndex`, `CloseConnection` and `NewConnection` from place `i` on, `left` places.
pub find_fd : (left i : ℕ) → List (Option ℕ) → Option ℕ → Option ℕ
find_fd zero i watched fd = none
find_fd (suc left) i watched fd =
    let rest = find_fd left (i + 1) watched fd in
    if same_fd fd (get_or watched i none) then some i else rest

-- The loop of `findIndex`, `CloseConnection` and `NewConnection`, from `MAX_SERVICE` to `MAX_WATCHEDFD`.
pub find_watched : List (Option ℕ) → Option ℕ → Option ℕ
unfolding find_fd
find_watched watched socket = find_fd max_connections max_service watched socket

-- `findIndex`: the outer `none` is the failed `assert` for descriptor 0; the inner one is -1, which
-- both `assert`s let pass.
pub find_index : List (Option ℕ) → Option ℕ → Option (Option ℕ)
unfolding find_watched
find_index watched none = some (find_watched watched none)
find_index watched (some fd) = if fd == 0 then none else some (find_watched watched (some fd))

-- The first free place takes the descriptor; without one nothing is watched.
pub watch : List (Option ℕ) → ℕ → List (Option ℕ)
unfolding find_watched
watch watched fd = elim (find_watched watched none) [
  | none ↦ watched
  | some i ↦ set watched i (some fd)
]

pub unwatch : List (Option ℕ) → Option ℕ → List (Option ℕ)
unfolding find_watched
unwatch watched socket = elim (find_watched watched socket) [
  | none ↦ watched
  | some i ↦ set watched i none
]

-- `CloseConnection(&pClients[i])`.
pub close_connection : Server → ℕ → Server
unfolding unwatch
close_connection s i = if s.active == 0 then s else record {
  watched = unwatch s.watched (client s.clients i).socket;
  clients = set s.clients i blank;
  active = s.active - 1;
}

abbrev pub is_quiet : ConnectionState → Bool
is_quiet e_idle = true
is_quiet e_new_connection = true
is_quiet e_data_received = false

-- The loop for the connection that is idle for longest, with the best one so far.
pub find_stale : (left i : ℕ) → List Connection → Option ℕ → (longest : ℕ) → Option ℕ
find_stale zero i clients stale longest = stale
find_stale (suc left) i clients stale longest =
    let c = client clients i in
    let better = ltb longest c.idle_time && is_quiet c.state && not c.client_callback_running_now in
    find_stale left (i + 1) clients (if better then some i else stale)
      (if better then c.idle_time else longest)

-- The loop for the first place that is not in use.
pub find_unused : (left i : ℕ) → List Connection → Option ℕ
find_unused zero i clients = none
find_unused (suc left) i clients =
    let rest = find_unused left (i + 1) clients in
    if (client clients i).in_use then rest else some i

-- What a new connection is set to. The `switch` compares the listening descriptor with the port.
pub opened : (port1_callback server_socket peer_socket : ℕ) → Connection
opened port1_callback server_socket peer_socket = record blank {
  in_use = true;
  socket = some peer_socket;
  state = e_new_connection;
  client_callback = if server_socket == port1 then some port1_callback else none;
  client_callback_stack_size = if server_socket == port1 then 4096 else 0;
}

-- The second half of `NewConnection`. `accepted` is what `accept` returns, `none` for -1.
pub establish :
    (port1_callback server_socket : ℕ) → (accepted : Option ℕ) → Server → Option ℕ × Server
unfolding find_unused watch opened
establish port1_callback server_socket accepted s =
    elim (find_unused (max_connections - reserve_conn) reserve_conn s.clients) [
      | none ↦ (none, s)
      | some i ↦ elim accepted [
        | none ↦ (none, s)
        | some fd ↦ (
          some fd,
          record {
            watched = watch s.watched fd;
            clients = set s.clients i (opened port1_callback server_socket fd);
            active = s.active + 1;
          },
        )
      ]
    ]

-- `NewConnection`: the result is the new descriptor, `none` for -1.
pub new_connection :
    (port1_callback server_socket : ℕ) → (accepted : Option ℕ) → Server → Option ℕ × Server
unfolding find_stale close_connection establish
new_connection port1_callback server_socket accepted s =
    if ltb (s.active + reserve_conn) max_connections
    then establish port1_callback server_socket accepted s
    else elim (find_stale (max_connections - reserve_conn) reserve_conn s.clients none 0) [
      | none ↦ (none, s)
      | some i ↦ establish port1_callback server_socket accepted (close_connection s i)
    ]

-- How `Initialize` ends: with the tables, by a failed `assert`, or with a write behind a block.
pub data Started : Type 0 where
  ready : Server → Started
  aborted undefined : Started

-- The size that `sizeof(struct pollfd) * MAX_WATCHEDFD` asks for: the macro has no parentheses.
pub watched_bytes : (sizeof_pollfd : ℕ) → ℕ
watched_bytes sizeof_pollfd = sizeof_pollfd * max_connections + max_service

-- `Initialize`. `usable` is how many bytes the block for `watchedfds` really has, `none` for NULL;
-- `clients_ok` tells whether there is a block for `pClients`, which is NULL before.
pub initialize : (sizeof_pollfd : ℕ) → (usable : Option ℕ) → (clients_ok : Bool) → Started
initialize sizeof_pollfd none clients_ok = aborted
initialize sizeof_pollfd (some usable) clients_ok =
    if leb (sizeof_pollfd * (max_connections + max_service)) usable
    then (if clients_ok
        then ready (record {
          watched = replicate (max_connections + max_service) none;
          clients = replicate max_connections blank;
          active = 0;
        })
        else aborted)
    else undefined
