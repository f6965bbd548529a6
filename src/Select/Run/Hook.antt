-- ===== src/Select/Run/Hook.antt =====
-- What `ServerRun` does with a connection that has received data.
use linux_programs.Common.{
  ℕ, zero, suc, ◌+◌, ◌≤◌, ◌<◌, ◌≡◌, ◌≢◌, refl, sym, ap, ◌∙◌, inl, inr, arith, Bool, true, false,
  Bool-cases, none, some, List, [], ◌∷◌, ◌==◌, if◌then◌else◌, get_or-set_self, length,
}
use mathlib.Core.Path.{subst}
use linux_programs.Select.{Connection, blank, Server, client, e_data_received}
use linux_programs.Select.Valid.{IsValid, counted}
use linux_programs.Select.Turn.{Received, bytes, failed, receive_loop}
use linux_programs.Select.Turn.Receive.{
  after_bytes, after_receive, wants, wants-in_use, receive_loop-receives,
}
use linux_programs.Select.Run.{
  Outcome, returned, aborted, undefined, spinning, Calls, spawn_hook_thread, handle_connection_hook,
  put, run_received, run_state, run_states, marked, run_client, run_from, server_run,
}
use linux_programs.Select.Run.Keeps.{is_ported, Keeps, EndsAt}
use linux_programs.Select.Run.Ends.{AllPorted, RunAt-AllPorted, run_client-EndsAt}

-- With a stack size `HandleConnectionHook` fails an `assert` when the thread is created, and marks the
-- connection as running when it is not. Without one it calls the hook, which is undefined when there is
-- none.
pub handle_connection_hook-cases :
    (calls : Calls) (c : Connection)
    → (0 < c.client_callback_stack_size
        → calls.created ≡ true
        → handle_connection_hook calls c ≡ aborted)
      × (0 < c.client_callback_stack_size
          → calls.created ≡ false
          → handle_connection_hook calls c
            ≡ returned (true, record c { client_callback_running_now = true }))
      × (c.client_callback_stack_size ≡ 0
          → c.client_callback ≡ none
          → handle_connection_hook calls c ≡ undefined)
      × ((callback : ℕ)
          → c.client_callback_stack_size ≡ 0
          → c.client_callback ≡ some callback
          → handle_connection_hook calls c ≡ returned (calls.hook callback c))
unfolding handle_connection_hook spawn_hook_thread
handle_connection_hook-cases calls c = (
  λ stack created.
      let test : (c.client_callback_stack_size == 0) ≡ false = ground arith in
      simp (handle_connection_hook, test, spawn_hook_thread, created),
  λ stack failed.
      let test : (c.client_callback_stack_size == 0) ≡ false = ground arith in
      simp (handle_connection_hook, test, spawn_hook_thread, failed),
  λ none_left unset.
      let test : (c.client_callback_stack_size == 0) ≡ true = ground arith in
      simp (handle_connection_hook, test, unset),
  λ f none_left set'.
      let test : (c.client_callback_stack_size == 0) ≡ true = ground arith in
      simp (handle_connection_hook, test, set'),
)

-- A connection that has received data, and has neither a callback nor a stack size.
pub record Unset (c : Connection) : Type 0 where
  pub busy : c.in_use ≡ true
  pub received : c.state ≡ e_data_received
  pub idle : c.client_callback_running_now ≡ false
  pub callback : c.client_callback ≡ none
  pub stack : c.client_callback_stack_size ≡ 0

Unset-marked : (c : Connection) → Unset c → Unset (marked c)
Unset-marked c u = record {
  busy = u.busy;
  received = u.received;
  idle = u.idle;
  callback = u.callback;
  stack = u.stack;
}

-- On such a connection NULL is called.
run_received-undefined :
    (calls : Calls) (s : Server) (i : ℕ)
    → Unset (client s.clients i)
    → run_received calls s i ≡ undefined
unfolding run_received handle_connection_hook
run_received-undefined calls s i u =
    let test : ((client s.clients i).client_callback_stack_size == 0) ≡ true =
      ground (arith, u.stack) in
    simp (run_received, u.idle, u.callback, handle_connection_hook, test)

run_states-undefined :
    (calls : Calls) (fuel : ℕ) (s : Server) (i : ℕ)
    → Unset (client s.clients i)
    → run_states (suc fuel) calls s i ≡ undefined
unfolding run_states run_state
run_states-undefined calls fuel s i u =
    let step : run_state calls s i ≡ undefined =
      simp (run_state, u.received, run_received-undefined calls s i u) in
    rw (run_states, step) refl

run_client-undefined :
    (calls : Calls) (fuel : ℕ) (s : Server) (i : ℕ)
    → i < length s.clients
    → Unset (client s.clients i)
    → run_client (suc fuel) calls s i ≡ undefined
unfolding run_client
run_client-undefined calls fuel s i inside u =
    let c' = marked (client s.clients i) in
    let here : client (put s i c').clients i ≡ c' = get_or-set_self s.clients i c' blank inside in
    ap (λ (b : Bool). if b then run_states (suc fuel) calls (put s i c') i else returned s) u.busy
    ∙ run_states-undefined calls fuel (put s i c') i
        (subst Unset (sym here) (Unset-marked (client s.clients i) u))

run_from-Unset :
    (calls : ℕ → Calls) (fuel left k i : ℕ) (s t : Server)
    → ((q : ℕ) → Keeps (calls q))
    → IsValid s
    → AllPorted s
    → k + left ≡ length s.clients
    → k ≤ i
    → i < length s.clients
    → Unset (client s.clients i)
    → run_from left k (suc (suc fuel)) calls s ≢ returned t
unfolding run_from
run_from-Unset calls fuel zero k i s t keeps v ported size low inside u e = absurd (omega arith)
run_from-Unset calls fuel (suc left) k i s t keeps v ported size low inside u e =
    elim (Bool-cases (k == i)) [
      | inl here ↦
          let at_k : i ≡ k = ground arith in
          let stop =
            run_client-undefined (calls k) (suc fuel) s k (omega arith)
              (subst (λ q. Unset (client s.clients q)) at_k u) in
          let run : run_from (suc left) k (suc (suc fuel)) calls s ≡ undefined =
            rw (run_from, stop) refl in
          absurd (cc (run, e))
      | inr there ↦
          let ne : k ≢ i = λ at. ground arith in
          after ne (run_client (suc (suc fuel)) (calls k) s k) refl
            (run_client-EndsAt (calls k) fuel s k (keeps k) v (omega arith)
              (ported k (omega arith)))
            (λ s' v' p' size' inside' u'.
              run_from-Unset calls fuel left (k + 1) i s' t keeps v' p' size' (ground arith) inside'
                u')
    ]
  where
    after :
        k ≢ i
        → (r : Outcome Server) → run_client (suc (suc fuel)) (calls k) s k ≡ r
        → EndsAt s k r
        → ((s' : Server)
            → IsValid s'
            → AllPorted s'
            → (k + 1) + left ≡ length s'.clients
            → i < length s'.clients
            → Unset (client s'.clients i)
            → run_from left (k + 1) (suc (suc fuel)) calls s' ≢ returned t)
        → ⊥
    after ne aborted r ends next =
        let run : run_from (suc left) k (suc (suc fuel)) calls s ≡ aborted =
          rw (run_from, r) refl in
        absurd (cc (run, e))
    after ne undefined r ends next =
        let run : run_from (suc left) k (suc (suc fuel)) calls s ≡ undefined =
          rw (run_from, r) refl in
        absurd (cc (run, e))
    after ne spinning r ends next = ends
    after ne (returned s') r ends next =
        let run : run_from (suc left) k (suc (suc fuel)) calls s
            ≡ run_from left (k + 1) (suc (suc fuel)) calls s' =
          rw (run_from, r) refl in
        next s' ends.valid (RunAt-AllPorted ends ported) (omega (arith, size, ends.places))
          (omega (arith, inside, ends.places)) (subst Unset (sym (ends.others i ne)) u)
          (sym run ∙ e)

after_receive-ported :
    (is_set : ℕ → Bool) (r : Received) (c : Connection)
    → is_ported c.state ≡ true
    → is_ported (after_receive is_set r c).state ≡ true
unfolding blank
after_receive-ported is_set r c ported = elim (Bool-cases (wants is_set c)) [
  | inl yes' ↦ rw yes' (handled r)
  | inr no' ↦ rw no' ported
]
  where
    handled : (r : Received) → is_ported (after_bytes r c).state ≡ true
    handled (bytes []) = refl
    handled (bytes (b ∷ bs)) = refl
    handled failed = refl

-- From a table that satisfies the invariant, with no connection in a state whose code is missing, and
-- with hooks that keep the connections: when a connection in use that has neither a callback nor a stack
-- size, as `NewConnection` leaves it, is set and gives bytes to `ReceiveLoop`, the `ServerRun` after it
-- never returns.
pub receive_loop-server_run :
    (is_set : ℕ → Bool) (received : ℕ → Received) (calls : ℕ → Calls) (fuel i b : ℕ) (bs : List ℕ)
    (s t : Server)
    → ((q : ℕ) → Keeps (calls q))
    → IsValid s
    → AllPorted s
    → i < length s.clients
    → wants is_set (client s.clients i) ≡ true
    → received i ≡ bytes (b ∷ bs)
    → (client s.clients i).client_callback_running_now ≡ false
    → (client s.clients i).client_callback ≡ none
    → (client s.clients i).client_callback_stack_size ≡ 0
    → server_run (suc (suc fuel)) calls (receive_loop is_set received s) ≢ returned t
unfolding server_run
receive_loop-server_run is_set received calls fuel i b bs s t keeps v ported inside want gives idle
      unset stack =
    let busy = wants-in_use is_set (client s.clients i) want in
    let (some', high) = counted s i v inside busy in
    let (valid, size, places) = receive_loop-receives is_set received s v some' in
    let here : client (receive_loop is_set received s).clients i
        ≡ after_bytes (bytes (b ∷ bs)) (client s.clients i) =
      places i inside
      ∙ ap
          (λ (q : Bool).
            if q then after_bytes (received i) (client s.clients i) else client s.clients i)
          want
      ∙ ap (λ r. after_bytes r (client s.clients i)) gives in
    run_from-Unset calls fuel (length (receive_loop is_set received s).clients) 0 i
      (receive_loop is_set received s) t keeps valid
      (λ q low.
        ap (λ (c : Connection). is_ported c.state) (places q (omega (arith, low, size)))
        ∙ after_receive-ported is_set (received q) (client s.clients q)
            (ported q (omega (arith, low, size))))
      (omega arith) (omega arith) (omega (arith, inside, size))
      (subst Unset (sym here)
        (record { busy = busy; received = refl; idle = idle; callback = unset; stack = stack }))
