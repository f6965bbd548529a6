-- ===== src/Select/Send.antt =====
-- IOModels/select/serverModel.c: `TransmitPending`, which sends the string in the buffer of a connection.
-- A pointer into the buffer is its offset; fuel counts the rounds of the loop.
pub mod Ends
use linux_programs.Common.{
  ℕ, zero, suc, ◌+◌, Bool, true, false, Option, none, some, List, ◌==◌, if◌then◌else◌, length, drop,
  replicate,
}
use linux_programs.Poll.{pending_string}
use linux_programs.Select.{Connection, net_buffer_size}

-- What `send` returns: a number of bytes, or -1 with `errno` 0, EWOULDBLOCK, or another error.
pub data Sent : Type 0 where
  sent : ℕ → Sent
  no_error would_block broken : Sent

-- The buffer, `nextBuffer`, `ok` and `status` after a round, and the state of the kernel.
pub record Round (S : Type 0) : Type 0 where
  pub memory : List ℕ
  pub next : Option ℕ
  pub ok : Bool
  pub status : Bool
  pub kernel : S

abbrev pub cleared : List ℕ
cleared = replicate net_buffer_size 0

-- The tests of a round behind the `send`. `finished` tells whether `strlen(buffer)` is 0.
pub after_send :
    {S : Type 0}
    → Sent
    → (finished : Bool) → (memory : List ℕ) → (offset : ℕ) → (next : Option ℕ) → (status : Bool) → S
    → Round S
after_send reply finished memory offset next status s =
    let memory' = if finished then cleared else memory in
    let next' = if finished then next else some offset in
    elim reply [
      | sent n ↦ record { memory = memory'; next = next'; ok = true; status = status; kernel = s }
      | no_error ↦ record { memory = memory'; next = next'; ok = true; status = status; kernel = s }
      | would_block ↦ record {
        memory = memory';
        next = next';
        ok = false;
        status = true;
        kernel = s;
      }
      | broken ↦ record {
        memory = cleared;
        next = if finished then next else none;
        ok = false;
        status = false;
        kernel = s;
      }
    ]

-- `buffer` after `send`.
abbrev pub advanced : (offset : ℕ) → Sent → ℕ
advanced offset (sent n) = offset + n
advanced offset no_error = offset
advanced offset would_block = offset
advanced offset broken = offset

-- A round behind the `send`; `none` is a read behind the buffer.
pub rest_of_round :
    {S : Type 0}
    → (memory : List ℕ) → (offset : ℕ) → (next : Option ℕ) → (status : Bool) → Sent × S
    → Option (Round S)
unfolding pending_string after_send
rest_of_round memory offset next status (reply, s) =
    elim (pending_string (drop (advanced offset reply) memory)) [
      | none ↦ none
      | some left ↦
          some (after_send reply (length left == 1) memory (advanced offset reply) next status s)
    ]

-- A round with `buffer` at `offset`. `is_open` tells that the socket is not -1.
pub send_round :
    {S : Type 0}
    → (S → List ℕ → Sent × S)
    → (is_open : Bool) → (memory : List ℕ) → (offset : ℕ) → (next : Option ℕ) → (status : Bool) → S
    → Option (Round S)
unfolding pending_string rest_of_round
send_round send is_open memory offset next status s = elim (pending_string (drop offset memory)) [
  | none ↦ none
  | some string ↦
      rest_of_round memory offset next status (if is_open then send s string else (broken, s))
]

-- How the loop ends: it does, with a read behind the buffer, or not with this fuel.
pub data Loop (A : Type 0) : Type 0 where
  finished : A → Loop A
  overrun spinning : Loop A

-- The `for` loop: the status, the buffer and the state of the kernel behind it.
pub transmit_loop :
    {S : Type 0}
    → (S → List ℕ → Sent × S)
    → (fuel : ℕ) → (is_open : Bool) → (memory : List ℕ) → (buffer next : Option ℕ) → (status : Bool)
    → S
    → Loop (Bool × List ℕ × S)
unfolding send_round
transmit_loop send zero is_open memory buffer next status s = spinning
transmit_loop send (suc fuel) is_open memory buffer next status s = elim buffer [
  | none ↦ finished (status, memory, s)
  | some offset ↦ elim (send_round send is_open memory offset next status s) [
    | none ↦ overrun
    | some r ↦ elim r.ok [
      | true ↦ transmit_loop send fuel is_open r.memory r.next r.next r.status r.kernel
      | false ↦ finished (r.status, r.memory, r.kernel)
    ]
  ]
]

-- `TransmitPending`: `none` of the connection is NULL.
pub transmit_pending :
    {S : Type 0}
    → (S → List ℕ → Sent × S)
    → (fuel : ℕ) → S
    → Option Connection
    → Loop (Bool × Option Connection × S)
unfolding transmit_loop
transmit_pending send fuel s none = finished (false, none, s)
transmit_pending send fuel s (some c) =
    let is_open : Bool = elim c.socket [ none ↦ false | some fd ↦ true ] in
    elim (transmit_loop send fuel is_open c.pending_send_buffer (some 0) none true s) [
      | overrun ↦ overrun
      | spinning ↦ spinning
      | finished (status, memory, s') ↦
          finished (status, some (record c { pending_send_buffer = memory }), s')
    ]
