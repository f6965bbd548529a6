-- ===== src/Heartbeat.antt =====
-- sockapi/demo/heartBeat1: the client and the server that find a dead connection by messages on it.
-- An event is what the calls of one round of the loop return.
pub mod Silence
pub mod Pieces
pub mod Assembly
pub mod Spoil
pub mod Channel
mod Tests
use linux_programs.Common.{
  ℕ, zero, suc, ◌+◌, ◌-◌, Bool, true, false, List, [], ◌∷◌, ◌++◌, ltb, ◌==◌, if◌then◌else◌, length,
  take, drop,
}
use linux_programs.Sockets.{ntohl}

abbrev pub msg_type1 : ℕ
msg_type1 = 1

abbrev pub msg_type2 : ℕ
msg_type2 = 2

abbrev pub msg_heartbeat : ℕ
msg_heartbeat = 3

-- `sizeof(msg_t)`
abbrev pub sizeof_msg : ℕ
sizeof_msg = 2004

abbrev pub t1 : ℕ
t1 = 60

abbrev pub t2 : ℕ
t2 = 10

-- The variables of the loop. `misses` is `heartbeats` in the client and `missed_heartbeats` in the
-- server; `msg` holds the bytes of the message.
pub record Link : Type 0 where
  pub misses : ℕ
  pub tv_sec : ℕ
  pub cnt : ℕ
  pub msg : List ℕ

-- The Booleans tell whether the `send` of the round succeeds. `received []` is the end of the stream.
pub data Event : Type 0 where
  select_failed invalid_socket recv_failed : Event
  timed_out : (send_ok : Bool) → Event
  received : List ℕ → (send_ok : Bool) → Event

-- Why the program ends.
pub data Ended : Type 0 where
  select_failure connection_dead send_failure invalid terminated recv_failure : Ended
  unknown_type : ℕ → Ended

pub data Outcome : Type 0 where
  going : Link → Outcome
  ended : Ended → Outcome

-- A message that is sent, and one that has come as a whole.
pub data Action : Type 0 where
  sent processed : List ℕ → Action

-- `msg` with the bytes that `recv` stores behind those that are there.
abbrev pub stored : Link → List ℕ → List ℕ
stored l bytes =
    take (sizeof_msg - l.cnt) l.msg ++ (bytes ++ drop (sizeof_msg - l.cnt + length bytes) l.msg)

-- The variables after a `recv` that gave bytes.
abbrev pub taken_in : Link → List ℕ → (tv_sec : ℕ) → Link
taken_in l bytes tv_sec = record {
  misses = 0;
  tv_sec = tv_sec;
  cnt = l.cnt - length bytes;
  msg = stored l bytes;
}

-- `htonl(MSG_HEARTBEAT)` as it stands in memory.
abbrev pub heartbeat_type : List ℕ
heartbeat_type = 0 ∷ 0 ∷ 0 ∷ msg_heartbeat ∷ []

-- A round of hb_client.c.
pub client_step : Link → Event → List Action × Outcome
client_step l select_failed = ([], ended select_failure)
client_step l invalid_socket = ([], ended invalid)
client_step l recv_failed = ([], ended recv_failure)
client_step l (timed_out send_ok) =
    let msg = heartbeat_type ++ drop 4 l.msg in
    let more = record l { misses = l.misses + 1; tv_sec = t2; msg = msg } in
    if ltb 3 (l.misses + 1)
    then ([], ended connection_dead)
    else (if send_ok then (sent msg ∷ [], going more) else ([], ended send_failure))
client_step l (received [] send_ok) = ([], ended terminated)
client_step l (received (b ∷ bytes) send_ok) =
    let l' = taken_in l (b ∷ bytes) t1 in
    if ltb 0 l'.cnt
    then ([], going l')
    else (processed l'.msg ∷ [], going (record l' { cnt = sizeof_msg }))

-- The `switch` of hb_server.c on a message, with the state for the next one.
pub handle_message : Link → (send_ok : Bool) → List Action × Outcome
handle_message l send_ok =
    let type = ntohl (take 4 l.msg) in
    let next = record l { cnt = sizeof_msg } in
    if type == msg_type1
    then (processed l.msg ∷ [], going next)
    else (if type == msg_type2
        then (processed l.msg ∷ [], going next)
        else (if type == msg_heartbeat
            then (if send_ok
                then (processed l.msg ∷ sent l.msg ∷ [], going next)
                else (processed l.msg ∷ [], ended send_failure))
            else ([], ended (unknown_type type))))

-- A round of hb_server.c.
pub server_step : Link → Event → List Action × Outcome
unfolding handle_message
server_step l select_failed = ([], ended select_failure)
server_step l invalid_socket = ([], ended invalid)
server_step l recv_failed = ([], ended recv_failure)
server_step l (timed_out send_ok) =
    let more = record l { misses = l.misses + 1; tv_sec = t2 } in
    if ltb 3 (l.misses + 1) then ([], ended connection_dead) else ([], going more)
server_step l (received [] send_ok) = ([], ended terminated)
server_step l (received (b ∷ bytes) send_ok) =
    let l' = taken_in l (b ∷ bytes) (t1 + t2) in
    if ltb 0 l'.cnt then ([], going l') else handle_message l' send_ok

-- The loop goes on with `rest` unless the program has ended.
abbrev pub go_on :
    List Action → Outcome → (rest : Link → List Action × Outcome) → List Action × Outcome
go_on actions (ended reason) rest = (actions, ended reason)
go_on actions (going l) rest = (actions ++ (rest l).0, (rest l).1)

-- The loop of a program, given its round, over the events.
pub rounds : (Link → Event → List Action × Outcome) → Link → List Event → List Action × Outcome
rounds step l [] = ([], going l)
rounds step l (e ∷ events) = go_on (step l e).0 (step l e).1 (λ l'. rounds step l' events)

pub client_run : Link → List Event → List Action × Outcome
unfolding client_step rounds
client_run l events = rounds client_step l events

pub server_run : Link → List Event → List Action × Outcome
unfolding server_step rounds
server_run l events = rounds server_step l events
