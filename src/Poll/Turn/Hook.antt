-- ===== src/Poll/Turn/Hook.antt =====
-- The callbacks of `ServerRun`, and that its state machine ends.
use linux_programs.Common.{
  ℕ, suc, ◌≡◌, refl, ap, ◌∙◌, ◌⊎◌, inl, inr, Bool, true, false, Bool-cases, none, some,
  Option-cases, ◌==◌, if◌then◌else◌,
}
use linux_programs.Poll.{Connection, ConnectionState, e_idle, e_new_connection, e_data_received}
use linux_programs.Poll.Turn.{
  spawn_hook_thread, handle_connection_hook, done, aborted, run_state, run_states, run_client,
  next_idle, counted, same_state,
}

-- A connection that has received data and whose callback is set and not running.
pub record Waiting (c : Connection) : Type 0 where
  pub received : c.state ≡ e_data_received
  pub idle : c.client_callback_running_now ≡ false
  pub callback : (f : ℕ) × (c.client_callback ≡ some f)
  pub open_socket : (fd : ℕ) × (c.socket ≡ some fd)

-- The connection as one whose callback runs.
abbrev marked : Connection → Connection
marked c = record c {
  client_callback_stack_size =
      if c.client_callback_stack_size == 0 then 2048 else c.client_callback_stack_size;
  client_callback_running_now = true;
}

-- `HandleConnectionHook` on a connection with a socket ends in a failed `assert` exactly when the
-- thread was created: the `assert` tests the 0 of success. When it was not, the connection is
-- marked as one whose callback runs.
pub handle_connection_hook-aborts :
    (c : Connection) {fd : ℕ}
    → c.socket ≡ some fd
    → (handle_connection_hook true c ≡ none)
      × ((c' : Connection) × (handle_connection_hook false c ≡ some (true, c'))
          × (c'.client_callback_running_now ≡ true))
unfolding handle_connection_hook spawn_hook_thread
handle_connection_hook-aborts c on = (
  simp (handle_connection_hook, spawn_hook_thread, on),
  (marked c, simp (handle_connection_hook, spawn_hook_thread, on), refl),
)

same_state_refl : (s : ConnectionState) → same_state s s ≡ true
same_state_refl e_idle = refl
same_state_refl e_new_connection = refl
same_state_refl e_data_received = refl

State-cases :
    (s : ConnectionState) → ((s ≡ e_idle) ⊎ (s ≡ e_new_connection)) ⊎ (s ≡ e_data_received)
State-cases e_idle = inl (inl refl)
State-cases e_new_connection = inl (inr refl)
State-cases e_data_received = inr refl

-- No state changes the state.
run_state-same :
    (created : Bool) (c : Connection)
    → (run_state created c ≡ none)
      ⊎ ((c' : Connection) × (run_state created c ≡ some c') × (c'.state ≡ c.state))
unfolding run_state handle_connection_hook spawn_hook_thread
run_state-same created c = elim (State-cases c.state) [
  | inl e ↦ elim e [
    | inl idle ↦ inr (record c { wait_tick_valid = false }, simp (run_state, idle), refl)
    | inr new ↦ inr (record c { wait_tick_valid = false }, simp (run_state, new), refl)
  ]
  | inr received ↦ elim (Bool-cases c.client_callback_running_now) [
    | inl running ↦ inr (c, simp (run_state, received, running), refl)
    | inr idle ↦ elim (Option-cases c.client_callback) [
      | inl unset ↦
          inr (record c { wait_tick_valid = false }, simp (run_state, received, idle, unset), refl)
      | inr (f, set') ↦ elim (Option-cases c.socket) [
        | inl closed ↦ inl (
            simp
              (run_state, received, idle, set', handle_connection_hook, spawn_hook_thread, closed))
        | inr (fd, on) ↦ hook created received idle set' on
      ]
    ]
  ]
]
  where
    hook :
        (b : Bool) {f fd : ℕ}
        → c.state ≡ e_data_received
        → c.client_callback_running_now ≡ false
        → c.client_callback ≡ some f
        → c.socket ≡ some fd
        → (run_state b c ≡ none)
          ⊎ ((c' : Connection) × (run_state b c ≡ some c') × (c'.state ≡ c.state))
    hook true received idle set' on =
        inl (simp (run_state, received, idle, set', handle_connection_hook, spawn_hook_thread, on))
    hook false received idle set' on = inr (
      marked (record c { wait_tick_valid = false }),
      simp (run_state, received, idle, set', handle_connection_hook, spawn_hook_thread, on),
      refl,
    )

-- The state machine of `ServerRun` ends after one round for every connection: it does not spin, and
-- where no `assert` fails it leaves the state as it was.
pub run_states-done :
    (fuel : ℕ) (created : Bool) (c : Connection)
    → (run_states (suc fuel) created c ≡ aborted)
      ⊎ ((c' : Connection) × (run_states (suc fuel) created c ≡ done c') × (c'.state ≡ c.state))
unfolding run_states
run_states-done fuel created c = elim (run_state-same created c) [
  | inl stop ↦ inl (rw (run_states, stop))
  | inr (c', run, same) ↦
      let again : same_state c.state c'.state ≡ true =
        ap (same_state c.state) same ∙ same_state_refl c.state in
      inr (c', rw (run_states, run, again), same)
]

run_states-aborted :
    (fuel : ℕ) (c : Connection) → Waiting c → run_states (suc fuel) true c ≡ aborted
unfolding run_states run_state handle_connection_hook spawn_hook_thread
run_states-aborted fuel c w =
    let (f, set') = w.callback in
    let (fd, on) = w.open_socket in
    let stop : run_state true c ≡ none =
      simp (run_state, w.received, w.idle, set', handle_connection_hook, spawn_hook_thread, on) in
    rw (run_states, stop)

-- The idle time of a waiting connection is cleared.
counted-Waiting :
    (c : Connection)
    → Waiting c
    → counted (if c.client_callback_running_now then record c { wait_tick_valid = false } else c)
      ≡ record c { idle_time = 0 }
counted-Waiting c w =
    ap (λ (b : Bool). counted (if b then record c { wait_tick_valid = false } else c)) w.idle
    ∙ ap (λ (st : ConnectionState). record c { idle_time = next_idle st c.idle_time }) w.received

-- On a connection in use that has received data, with a socket and a callback that is set and does not
-- run, `ServerRun` aborts the server when the thread of the callback is created.
pub run_client-aborted :
    (fuel : ℕ) (c : Connection)
    → c.in_use ≡ true
    → Waiting c
    → run_client (suc fuel) true c ≡ aborted
unfolding run_client
run_client-aborted fuel c busy w =
    let c' = if c.client_callback_running_now then record c { wait_tick_valid = false } else c in
    ap (λ (b : Bool). if b then run_states (suc fuel) true (counted c') else done c) busy
    ∙ ap (run_states (suc fuel) true) (counted-Waiting c w)
    ∙ run_states-aborted fuel (record c { idle_time = 0 })
        (record {
          received = w.received;
          idle = w.idle;
          callback = w.callback;
          open_socket = w.open_socket;
        })
