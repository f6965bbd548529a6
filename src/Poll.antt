-- ===== src/Poll.antt =====
-- IOModels/poll/serverModel.c: a connection of the server, and `TransmitPending`, which sends what is
-- pending on it.
-- `send` is an argument; fuel counts its calls, and `none` is a loop that the fuel does not end.
pub mod Transmit
pub mod Tables
pub mod Turn
pub mod Listen
mod Tests
use linux_programs.Common.{
  ℕ, zero, suc, ◌+◌, ◌-◌, Bool, true, false, Option, none, some, List, [], ◌∷◌, ◌++◌, ltb, ◌==◌,
  if◌then◌else◌, length, drop, replicate,
}

-- What `send` returns: a number of bytes, 0 among them, -1 with EINTR or EAGAIN, or another error.
pub data Sent : Type 0 where
  sent : ℕ → Sent
  retry broken : Sent

abbrev pub net_buffer_size : ℕ
net_buffer_size = 1024

-- `ConnectionState`, with the states that serverModel.h does not comment out.
pub data ConnectionState : Type 0 where
  e_idle e_new_connection e_data_received : ConnectionState

-- `Connection`, without the addresses and the fields that nothing uses. `socket` is `none` for -1,
-- `client_callback` for NULL.
pub record Connection : Type 0 where
  pub in_use : Bool
  pub socket : Option ℕ
  pub close_pending : Bool
  pub state : ConnectionState
  pub idle_time : ℕ
  pub wait_tick_valid : Bool
  pub pending_send_buffer : List ℕ
  pub recv_buffer : List ℕ
  pub client_callback : Option ℕ
  pub client_callback_stack_size : ℕ
  pub client_callback_running_now : Bool

-- A connection after `memset` and `socket = -1`.
pub blank : Connection
blank = record {
  in_use = false;
  socket = none;
  close_pending = false;
  state = e_idle;
  idle_time = 0;
  wait_tick_valid = false;
  pending_send_buffer = replicate net_buffer_size 0;
  recv_buffer = replicate net_buffer_size 0;
  client_callback = none;
  client_callback_stack_size = 0;
  client_callback_running_now = false;
}

-- The bytes before the first 0, and this 0: `strlen(buffer) + 1` bytes. `none` when there is no 0, and
-- `strlen` reads on behind the buffer.
unfoldable pub pending_string : List ℕ → Option (List ℕ)
pending_string [] = none
pending_string (b ∷ bytes) =
    let rest = pending_string bytes in
    if b == 0 then some (0 ∷ []) else elim rest [ none ↦ none | some string ↦ some (b ∷ string) ]

-- The loop: `buffer` holds the bytes that are still to be sent, so it has `bytesToBeSend` of them.
-- The `break` of a fourth retry and of an error leaves the `switch`, not the loop.
pub transmit_loop :
    {S : Type 0}
    → (S → List ℕ → Sent × S)
    → (fuel : ℕ) → S
    → (retries : ℕ) (status : Bool) → (buffer : List ℕ) → Option (Bool × S)
transmit_loop send zero s retries status buffer = none
transmit_loop send (suc fuel) s retries status buffer = elim (ltb 0 (length buffer)) [
  | false ↦ some (status, s)
  | true ↦
      let (reply, s') = send s buffer in
      elim reply [
        | retry ↦
            transmit_loop send fuel s' (retries + 1) (if ltb 3 (retries + 1) then false else status)
              buffer
        | broken ↦ transmit_loop send fuel s' retries false buffer
        | sent n ↦
            transmit_loop send fuel s' retries (if n == 0 then false else status) (drop n buffer)
      ]
]

-- `TransmitPending`: `none` of the connection is NULL. Behind the loop nothing is left to send, so
-- the buffer is cleared. The result is the status, the connection and the state behind;
-- `none` also when the buffer holds no 0.
pub transmit_pending :
    {S : Type 0}
    → (S → List ℕ → Sent × S)
    → (fuel : ℕ) → S
    → Option Connection
    → Option (Bool × Option Connection × S)
unfolding transmit_loop pending_string
transmit_pending send fuel s none = some (false, none, s)
transmit_pending send fuel s (some c) = elim c.socket [
  | none ↦ some (false, some c, s)
  | some socket ↦ elim (pending_string c.pending_send_buffer) [
    | none ↦ none
    | some string ↦ elim (transmit_loop send fuel s 0 true string) [
      | none ↦ none
      | some (status, s') ↦
          some (status, some (record c { pending_send_buffer = replicate net_buffer_size 0 }), s')
    ]
  ]
]
