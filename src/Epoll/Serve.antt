-- ===== src/Epoll/Serve.antt =====
-- IOModels/epoll/epollTcpServer: the loop of `start_server` (src/op_epoll.c), which hands ready clients
-- to the thread pool, and the handler of test/test.c, which runs there. The pool is a library of another
-- project: its state `P` and its `threadpool_add` are arguments.
pub mod Broadcast
pub mod Stale
mod Tests
use linux_programs.Common.{
  ℕ, zero, suc, ◌+◌, Bool, true, false, Option, none, some, List, [], ◌∷◌, ◌++◌, ltb, ◌==◌,
  if◌then◌else◌, get_or, length, map, drop, take, replicate,
}
use linux_programs.Common.Int.{ℤ, pos, negsuc, pos_part, ltb_ℤ}
use linux_programs.Epoll.{
  Member, no_member, CliList, add_clilist, Io, transferred, again, failed, op_read, op_write,
}

-- What `threadpool_add` is called with: the function and its argument.
pub record Task : Type 0 where
  pub function : ℕ
  pub argument : ℕ

-- The globals `clilist` and `epollpool`, and `data.fd` of each entry of the array `events`.
pub record Server (P : Type 0) : Type 0 where
  pub clients : CliList
  pub pool : P
  pub events : List ℕ

-- An event of `epoll_wait`, with what the calls for it return: `accepted` is that of `accept`, `none`
-- for -1, and `ip` that of `inet_ntoa`.
pub record Ready : Type 0 where
  pub fd : ℕ
  pub readable : Bool
  pub accepted : Option ℕ
  pub nonblocking_ok : Bool
  pub ip : List ℕ

-- The server goes on, calls `exit`, or writes behind the table of clients.
pub data Progress (P : Type 0) : Type 0 where
  serving : Server P → Progress P
  exited undefined : Progress P

-- The body of the loop over the events. The argument of the task is `&events[i].data.fd`, an address
-- that is given by `i`.
pub serve_event :
    {P : Type 0} → (add : P → Task → P) → (listenfd handle i : ℕ) → Ready → Server P → Progress P
serve_event add listenfd handle i e s =
    let added = add s.pool (record { function = handle; argument = i }) in
    elim (e.fd == listenfd) [
      | true ↦ elim e.accepted [
        | none ↦ exited
        | some connfd ↦ elim e.nonblocking_ok [
          | false ↦ exited
          | true ↦ elim (add_clilist s.clients (record { fd = connfd; ip = e.ip })) [
            | none ↦ undefined
            | some clients ↦ serving (record s { clients = clients })
          ]
        ]
      ]
      | false ↦ if e.readable then serving (record s { pool = added }) else serving s
    ]

pub serve_events :
    {P : Type 0}
    → (add : P → Task → P) → (listenfd handle i : ℕ) → List Ready
    → Server P
    → Progress P
unfolding serve_event
serve_events add listenfd handle i [] s = serving s
serve_events add listenfd handle i (e ∷ batch) s = elim (serve_event add listenfd handle i e s) [
  | exited ↦ exited
  | undefined ↦ undefined
  | serving s' ↦ serve_events add listenfd handle (i + 1) batch s'
]

-- The array after `epoll_wait` has stored a batch in it.
abbrev pub overwritten : List Ready → List ℕ → List ℕ
overwritten batch events = map (λ (e : Ready). e.fd) batch ++ drop (length batch) events

-- A round of the loop of `start_server`. When `epoll_wait` fails the batch is empty.
pub serve_round :
    {P : Type 0} → (add : P → Task → P) → (listenfd handle : ℕ) → List Ready → Server P → Progress P
unfolding serve_events
serve_round add listenfd handle batch s =
    serve_events add listenfd handle 0 batch (record s { events = overwritten batch s.events })

abbrev pub below : ℕ → ℤ → Bool
below i (negsuc n) = false
below i (pos t) = ltb i t

-- The loop of `handle` that writes to all clients, from place `i` on: the table, and the descriptors it
-- writes to. `left` rounds are enough when there are as many places: `tailindex` does not grow.
pub broadcast : (left i : ℕ) → (ℕ → Io) → CliList → CliList × List ℕ
broadcast zero i writes l = (l, [])
broadcast (suc left) i writes l = elim (below i l.tailindex) [
  | false ↦ (l, [])
  | true ↦
      let fd = (get_or l.clilist i no_member).fd in
      let (l', fds) = broadcast left (i + 1) writes (op_write l fd (writes fd)).1 in (l', fd ∷ fds)
]

-- The bytes before the first 0, `none` when there is none.
pub string_in : List ℕ → Option (List ℕ)
string_in [] = none
string_in (b ∷ bytes) =
    let rest = string_in bytes in
    if b == 0 then some [] else elim rest [ none ↦ none | some string ↦ some (b ∷ string) ]

-- What `handle` does: the table, the descriptor it reads from, the string it sends back, and the
-- descriptors that it writes "helloworld" to.
pub record Handled : Type 0 where
  pub clients : CliList
  pub read_from : ℕ
  pub echoed : Option (List ℕ)
  pub greeted : List ℕ

-- `handle` on the address `argument`, while no other thread writes. `reply` is what `read` returns and
-- `bytes` what it stores, `echo` what the first `write` returns. `none` is `strlen` of a full line.
pub handle :
    {P : Type 0}
    → (argument : ℕ) → (reply : Io) → (bytes : List ℕ) → (echo : Io) → (ℕ → Io)
    → Server P
    → Option Handled
unfolding string_in broadcast
handle argument reply bytes echo writes s =
    let fd = get_or s.events argument 0 in
    let (n, l, gone) = op_read s.clients fd reply in
    if ltb_ℤ n (negsuc 0)
    then some (record { clients = l; read_from = fd; echoed = none; greeted = [] })
    else elim (string_in (take 255 (bytes ++ replicate 255 0))) [
      | none ↦ none
      | some line ↦
          let (n', l', gone') = op_write l fd echo in
          if ltb_ℤ n' (negsuc 0)
          then some (record { clients = l'; read_from = fd; echoed = some line; greeted = [] })
          else (let (l2, fds) = broadcast (pos_part l'.tailindex) 0 writes l' in
              some (record { clients = l2; read_from = fd; echoed = some line; greeted = fds }))
    ]
