-- ===== src/Select/Run/Ends.antt =====
-- `ServerRun` ends and keeps the invariant of the table, as far as its state machine is ported.
use linux_programs.Common.{
  ℕ, zero, suc, ◌+◌, ◌≤◌, ◌<◌, ◌≡◌, refl, sym, ap, ◌∙◌, inl, inr, arith, true, Bool-cases, ◌==◌,
  if◌then◌else◌, get_or-set_self, length,
}
use mathlib.Core.Path.{subst}
use linux_programs.Select.{
  Connection, ConnectionState, blank, Server, client, reserve_conn, e_idle, e_new_connection,
  e_wait_for_recv_data, e_wait_for_send_data, e_processing_request, e_data_received, e_data_sending,
  e_finished_request, e_unrecoverable_failure_or_end,
}
use linux_programs.Select.Valid.{IsValid, counted}
use linux_programs.Select.Run.Keeps.{
  is_ported, Keeps, RunAt, EndsAt, Same-RunAt, put-RunAt, still-RunAt, RunAt-trans, no_tick,
  no_tick-Same, run_received-EndsAt, either_branch, run_waiting-RunAt,
}
use linux_programs.Select.Run.{
  Outcome, returned, aborted, undefined, spinning, Calls, put, marked, run_received, run_waiting,
  run_state, state_number, run_states, run_client, run_from, server_run,
}

run_state-EndsAt :
    (calls : Calls) (s : Server) (i : ℕ) (state : ConnectionState)
    → (client s.clients i).state ≡ state
    → is_ported state ≡ true
    → Keeps calls
    → IsValid s
    → i < length s.clients
    → (client s.clients i).in_use ≡ true
    → EndsAt s i (run_state calls s i)
unfolding run_state
run_state-EndsAt calls s i state at_state ported keeps v inside busy =
    by_state state at_state ported
  where
    high : reserve_conn ≤ i
    high = (counted s i v inside busy).1

    rest : RunAt s i (put s i (no_tick (client s.clients i)))
    rest =
        Same-RunAt s i (no_tick (client s.clients i)) v inside high
          (no_tick-Same (client s.clients i))

    rests :
        run_state calls s i ≡ returned (put s i (no_tick (client s.clients i)))
        → EndsAt s i (run_state calls s i)
    rests e = subst (EndsAt s i) (sym e) rest

    by_state :
        (st : ConnectionState)
        → (client s.clients i).state ≡ st
        → is_ported st ≡ true
        → EndsAt s i (run_state calls s i)
    by_state e_idle e p = rests (simp (run_state, e))
    by_state e_new_connection e p = rests (simp (run_state, e))
    by_state e_wait_for_send_data e p = rests (simp (run_state, e))
    by_state e_finished_request e p = rests (simp (run_state, e))
    by_state e_processing_request e p = absurd (cc p)
    by_state e_unrecoverable_failure_or_end e p = absurd (cc p)
    by_state e_data_received e p =
        let step : run_state calls s i ≡ run_received calls s i = simp (run_state, e) in
        subst (EndsAt s i) (sym step) (run_received-EndsAt calls s i keeps v inside high)
    by_state e_data_sending e p =
        let step : run_state calls s i ≡ returned s = simp (run_state, e) in
        subst (EndsAt s i) (sym step) (still-RunAt s i v)
    by_state e_wait_for_recv_data e p =
        let step : run_state calls s i ≡ returned (run_waiting calls s i) = simp (run_state, e) in
        subst (EndsAt s i) (sym step) (run_waiting-RunAt calls s i v inside busy)

state_number_self : (a b : ConnectionState) → a ≡ b → (state_number a == state_number b) ≡ true
state_number_self a b e = let same = ap state_number e in ground arith

-- The second round of a connection that was closed.
idle_round :
    (calls : Calls) (fuel : ℕ) (s : Server) (i : ℕ)
    → (client s.clients i).state ≡ e_idle
    → i < length s.clients
    → run_states (suc fuel) calls s i ≡ returned (put s i (no_tick (client s.clients i)))
unfolding run_states run_state
idle_round calls fuel s i idle inside =
    let step : run_state calls s i ≡ returned (put s i (no_tick (client s.clients i))) =
      simp (run_state, idle) in
    let same =
      state_number_self (client s.clients i).state
        (client (put s i (no_tick (client s.clients i))).clients i).state
        (sym (
          ap (λ (c : Connection). c.state)
            (get_or-set_self s.clients i (no_tick (client s.clients i)) blank inside))) in
    simp (run_states, step, same)

-- The state machine ends within two rounds.
run_states-EndsAt :
    (calls : Calls) (fuel : ℕ) (s : Server) (i : ℕ)
    → Keeps calls
    → IsValid s
    → i < length s.clients
    → (client s.clients i).in_use ≡ true
    → is_ported (client s.clients i).state ≡ true
    → EndsAt s i (run_states (suc (suc fuel)) calls s i)
unfolding run_states
run_states-EndsAt calls fuel s i keeps v inside busy ported =
    after (run_state calls s i) refl
      (run_state-EndsAt calls s i (client s.clients i).state refl ported keeps v inside busy)
  where
    high : reserve_conn ≤ i
    high = (counted s i v inside busy).1

    after :
        (r : Outcome Server)
        → run_state calls s i ≡ r
        → EndsAt s i r
        → EndsAt s i (run_states (suc (suc fuel)) calls s i)
    after aborted e ends =
        let run : run_states (suc (suc fuel)) calls s i ≡ aborted = rw (run_states, e) refl in
        subst (EndsAt s i) (sym run) tt
    after undefined e ends =
        let run : run_states (suc (suc fuel)) calls s i ≡ undefined = rw (run_states, e) refl in
        subst (EndsAt s i) (sym run) tt
    after spinning e ends = absurd ends
    after (returned s') e ends =
        let run : run_states (suc (suc fuel)) calls s i ≡ (
            if state_number (client s.clients i).state == state_number (client s'.clients i).state
            then returned s'
            else run_states (suc fuel) calls s' i) =
          rw (run_states, e) refl in
        subst (EndsAt s i) (sym run) (
          either_branch (EndsAt s i)
            (state_number (client s.clients i).state == state_number (client s'.clients i).state)
            (λ same. ends)
            (λ other. elim ends.state [
              | inl same ↦ absurd (
                  cc (
                    other,
                    state_number_self (client s.clients i).state (client s'.clients i).state
                        (sym same),
                  ))
              | inr idle ↦
                  let inside' : i < length s'.clients = omega (arith, inside, ends.places) in
                  subst (EndsAt s i) (sym (idle_round calls fuel s' i idle inside')) (
                    RunAt-trans ends (
                      Same-RunAt s' i (no_tick (client s'.clients i)) ends.valid inside' high
                        (no_tick-Same (client s'.clients i))))
            ]))

pub run_client-EndsAt :
    (calls : Calls) (fuel : ℕ) (s : Server) (i : ℕ)
    → Keeps calls
    → IsValid s
    → i < length s.clients
    → is_ported (client s.clients i).state ≡ true
    → EndsAt s i (run_client (suc (suc fuel)) calls s i)
unfolding run_client
run_client-EndsAt calls fuel s i keeps v inside ported =
    let c = client s.clients i in
    let c' = marked c in
    either_branch (EndsAt s i) c.in_use
      (λ busy.
        let (some', high) = counted s i v inside busy in
        let first =
          put-RunAt s i c' v inside high
            (record {
              connected = (v.places i).connected;
              closed = (v.places i).closed;
              idle = λ h. busy;
            })
            refl refl in
        let here : client (put s i c').clients i ≡ c' =
          get_or-set_self s.clients i c' blank inside in
        follow s i (put s i c') first (run_states (suc (suc fuel)) calls (put s i c') i) (
          run_states-EndsAt calls fuel (put s i c') i keeps first.valid
            (omega (arith, inside, first.places)) (ap (λ (x : Connection). x.in_use) here ∙ busy)
            (ap (λ (x : Connection). is_ported x.state) here ∙ ported)))
      (λ free. still-RunAt s i v)
  where
    follow :
        (a : Server) (k : ℕ) (a' : Server)
        → RunAt a k a'
        → (r : Outcome Server) → EndsAt a' k r
        → EndsAt a k r
    follow a k a' first (returned a2) ends = RunAt-trans first ends
    follow a k a' first aborted ends = tt
    follow a k a' first undefined ends = tt
    follow a k a' first spinning ends = ends

-- No connection is in a state whose code the file does not have.
abbrev pub AllPorted : Server → Type 0
AllPorted s = (i : ℕ) → i < length s.clients → is_ported (client s.clients i).state ≡ true

pub RunAt-AllPorted : {s s' : Server} {i : ℕ} → RunAt s i s' → AllPorted s → AllPorted s'
RunAt-AllPorted {s} {s'} {i} run ported q low = elim (Bool-cases (i == q)) [
  | inl here ↦
      let at_i : i ≡ q = ground arith in
      subst (λ p. is_ported (client s'.clients p).state ≡ true) at_i
        (elim run.state [
          | inl same ↦ ap is_ported same ∙ ported i (omega (arith, at_i, low, run.places))
          | inr idle ↦ ap is_ported idle
        ])
  | inr there ↦
      ap (λ (c : Connection). is_ported c.state) (run.others q (λ e. ground arith))
      ∙ ported q (omega (arith, low, run.places))
]

-- What `ServerRun` may end with.
abbrev pub EndsWell : (places : ℕ) → Outcome Server → Type 0
EndsWell places (returned s') = IsValid s' × (length s'.clients ≡ places) × AllPorted s'
EndsWell places aborted = Unit
EndsWell places undefined = Unit
EndsWell places spinning = ⊥

run_from-EndsWell :
    (calls : ℕ → Calls) (fuel left i : ℕ) (s : Server)
    → ((k : ℕ) → Keeps (calls k))
    → IsValid s
    → AllPorted s
    → i + left ≡ length s.clients
    → EndsWell (length s.clients) (run_from left i (suc (suc fuel)) calls s)
unfolding run_from
run_from-EndsWell calls fuel zero i s keeps v ported size = (v, refl, ported)
run_from-EndsWell calls fuel (suc left) i s keeps v ported size =
    after (run_client (suc (suc fuel)) (calls i) s i) refl
      (run_client-EndsAt (calls i) fuel s i (keeps i) v (omega arith) (ported i (omega arith)))
      (λ s' v' ported' size'. run_from-EndsWell calls fuel left (i + 1) s' keeps v' ported' size')
  where
    after :
        (r : Outcome Server)
        → run_client (suc (suc fuel)) (calls i) s i ≡ r
        → EndsAt s i r
        → ((s' : Server)
            → IsValid s'
            → AllPorted s'
            → (i + 1) + left ≡ length s'.clients
            → EndsWell (length s'.clients) (run_from left (i + 1) (suc (suc fuel)) calls s'))
        → EndsWell (length s.clients) (run_from (suc left) i (suc (suc fuel)) calls s)
    after aborted e ends next =
        let run : run_from (suc left) i (suc (suc fuel)) calls s ≡ aborted =
          rw (run_from, e) refl in
        subst (EndsWell (length s.clients)) (sym run) tt
    after undefined e ends next =
        let run : run_from (suc left) i (suc (suc fuel)) calls s ≡ undefined =
          rw (run_from, e) refl in
        subst (EndsWell (length s.clients)) (sym run) tt
    after spinning e ends next = absurd ends
    after (returned s') e ends next =
        let run : run_from (suc left) i (suc (suc fuel)) calls s
            ≡ run_from left (i + 1) (suc (suc fuel)) calls s' =
          rw (run_from, e) refl in
        subst (EndsWell (length s.clients)) (sym run) (
          subst (λ n. EndsWell n (run_from left (i + 1) (suc (suc fuel)) calls s')) ends.places
            (next s' ends.valid (RunAt-AllPorted ends ported) (omega (arith, size, ends.places))))

-- From a table that satisfies the invariant, with no connection in a state whose code is missing, and
-- with hooks that keep the state of a connection, its socket and its times, `ServerRun` does not spin:
-- two rounds of each state machine are enough, and where no `assert` fails and no NULL is called the table
-- satisfies the invariant again, has as many places, and no connection is in a state whose code is
-- missing.
pub server_run-EndsWell :
    (calls : ℕ → Calls) (fuel : ℕ) (s : Server)
    → ((i : ℕ) → Keeps (calls i))
    → IsValid s
    → AllPorted s
    → EndsWell (length s.clients) (server_run (suc (suc fuel)) calls s)
unfolding server_run
server_run-EndsWell calls fuel s keeps v ported =
    run_from-EndsWell calls fuel (length s.clients) 0 s keeps v ported (omega arith)
