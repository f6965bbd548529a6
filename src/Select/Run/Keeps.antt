-- ===== src/Select/Run/Keeps.antt =====
-- What the cases of the state machine that have a longer body do to the table.
use linux_programs.Common.{
  ℕ, ◌+◌, ◌-◌, ◌≤◌, ◌<◌, ◌≡◌, ◌≢◌, refl, sym, ap, ◌∙◌, ◌⊎◌, inl, inr, arith, Bool, true, false,
  Bool-cases, Option-cases, ltb, ◌==◌, if◌then◌else◌, get_or-set_self, get_or-set_ne, length,
  length-set,
}
use mathlib.Core.Path.{subst}
use linux_programs.Select.{
  Connection, ConnectionState, blank, Server, client, reserve_conn, close_connection, e_idle,
  e_processing_request, e_unrecoverable_failure_or_end,
}
use linux_programs.Select.Valid.{
  IsPlace, IsValid, counted, write-IsValid, close_connection-closes, close_connection-IsValid,
}
use linux_programs.Select.Run.{
  Outcome, returned, aborted, undefined, spinning, Calls, spawn_hook_thread, handle_connection_hook,
  put, put_outcome, run_received, run_waiting,
}

-- The states whose code the file has.
abbrev pub is_ported : ConnectionState → Bool
is_ported e_processing_request = false
is_ported e_unrecoverable_failure_or_end = false
is_ported _ = true

-- Two connections that agree in what the invariant and the loops look at.
pub record Same (a b : Connection) : Type 0 where
  pub in_use : b.in_use ≡ a.in_use
  pub socket : b.socket ≡ a.socket
  pub idle : b.idle_time ≡ a.idle_time
  pub state : b.state ≡ a.state

-- Hooks that leave the connection as it is in these fields.
pub record Keeps (calls : Calls) : Type 0 where
  pub hook : (callback : ℕ) (c : Connection) → Same c (calls.hook callback c).1
  pub determine : (c : Connection) → Same c (calls.determine c).1

Same-trans : {a b c : Connection} → Same a b → Same b c → Same a c
Same-trans p q = record {
  in_use = q.in_use ∙ p.in_use;
  socket = q.socket ∙ p.socket;
  idle = q.idle ∙ p.idle;
  state = q.state ∙ p.state;
}

Same-IsPlace : {a b : Connection} → Same a b → IsPlace a → IsPlace b
Same-IsPlace p place = record {
  connected = λ e. let (fd, on) = place.connected (sym p.in_use ∙ e) in (fd, p.socket ∙ on);
  closed = λ e. p.socket ∙ place.closed (sym p.in_use ∙ e);
  idle = λ h. p.in_use ∙ place.idle (omega (arith, h, p.idle));
}

-- The table after the state machine ran on place `i`.
pub record RunAt (s : Server) (i : ℕ) (s' : Server) : Type 0 where
  pub valid : IsValid s'
  pub places : length s'.clients ≡ length s.clients
  pub others : (q : ℕ) → i ≢ q → client s'.clients q ≡ client s.clients q
  pub state :
      ((client s'.clients i).state ≡ (client s.clients i).state)
      ⊎ ((client s'.clients i).state ≡ e_idle)

-- It does not spin, and where it returns, this is the table.
abbrev pub EndsAt : (s : Server) → (i : ℕ) → Outcome Server → Type 0
EndsAt s i (returned s') = RunAt s i s'
EndsAt s i aborted = Unit
EndsAt s i undefined = Unit
EndsAt s i spinning = ⊥

pub put-RunAt :
    (s : Server) (i : ℕ) (c : Connection)
    → IsValid s
    → i < length s.clients
    → reserve_conn ≤ i
    → IsPlace c
    → c.in_use ≡ (client s.clients i).in_use
    → c.state ≡ (client s.clients i).state
    → RunAt s i (put s i c)
put-RunAt s i c v inside high place busy state = record {
  valid =
      write-IsValid s i s.active c v inside high place
        (ap (λ (b : Bool). s.active + (if b then 1 else 0)) (sym busy)) v.bound;
  places = length-set s.clients i c;
  others = λ q ne. get_or-set_ne s.clients i q c blank ne;
  state =
      inl (ap (λ (x : Connection). x.state) (get_or-set_self s.clients i c blank inside) ∙ state);
}

pub Same-RunAt :
    (s : Server) (i : ℕ) (c : Connection)
    → IsValid s
    → i < length s.clients
    → reserve_conn ≤ i
    → Same (client s.clients i) c
    → RunAt s i (put s i c)
Same-RunAt s i c v inside high same =
    put-RunAt s i c v inside high (Same-IsPlace same (v.places i)) same.in_use same.state

pub still-RunAt : (s : Server) (i : ℕ) → IsValid s → RunAt s i s
still-RunAt s i v = record { valid = v; places = refl; others = λ q ne. refl; state = inl refl }

pub RunAt-trans : {s s' s2 : Server} {i : ℕ} → RunAt s i s' → RunAt s' i s2 → RunAt s i s2
RunAt-trans {s} {s'} {s2} {i} p q = record {
  valid = q.valid;
  places = q.places ∙ p.places;
  others = λ k ne. q.others k ne ∙ p.others k ne;
  state = elim q.state [
    | inl same ↦ elim p.state [ inl same' ↦ inl (same ∙ same') | inr idle ↦ inr (same ∙ idle) ]
    | inr idle ↦ inr idle
  ];
}

blank_idle : blank.state ≡ e_idle
unfolding blank
blank_idle = refl

closed-RunAt :
    (s : Server) (i : ℕ)
    → IsValid s
    → i < length s.clients
    → (client s.clients i).in_use ≡ true
    → RunAt s i (close_connection s i)
closed-RunAt s i v inside busy =
    let (some', high) = counted s i v inside busy in
    let closes = ap (λ (t : Server). t.clients) (close_connection-closes s i some') in
    record {
      valid = close_connection-IsValid s i v inside busy;
      places = ap length closes ∙ length-set s.clients i blank;
      others = λ q ne. ap (λ cs. client cs q) closes ∙ get_or-set_ne s.clients i q blank blank ne;
      state = inr (
          ap (λ (c : Connection). c.state)
            (ap (λ cs. client cs i) closes ∙ get_or-set_self s.clients i blank blank inside)
          ∙ blank_idle);
    }

-- What `HandleConnectionHook` makes of the connection it is given.
abbrev Hooked : Connection → Outcome (Bool × Connection) → Type 0
Hooked c (returned (result, c')) = Same c c'
Hooked c aborted = Unit
Hooked c undefined = Unit
Hooked c spinning = ⊥

handle_connection_hook-Hooked :
    (calls : Calls) (c : Connection) → Keeps calls → Hooked c (handle_connection_hook calls c)
unfolding handle_connection_hook spawn_hook_thread
handle_connection_hook-Hooked calls c keeps =
    elim (Bool-cases (c.client_callback_stack_size == 0)) [
      | inl synchronous ↦ elim (Option-cases c.client_callback) [
        | inl unset ↦ rw (handle_connection_hook, synchronous, unset) tt
        | inr (f, set') ↦
            let e : handle_connection_hook calls c ≡ returned (calls.hook f c) =
              simp (handle_connection_hook, synchronous, set') in
            subst (Hooked c) (sym e) (keeps.hook f c)
      ]
      | inr thread ↦ elim (Bool-cases calls.created) [
        | inl created ↦ rw (handle_connection_hook, thread, created) tt
        | inr failed ↦
            rw (handle_connection_hook, thread, failed)
              (record { in_use = refl; socket = refl; idle = refl; state = refl })
      ]
    ]

put_outcome-EndsAt :
    (s : Server) (i : ℕ) (c : Connection) (r : Outcome (Bool × Connection))
    → IsValid s
    → i < length s.clients
    → reserve_conn ≤ i
    → Same (client s.clients i) c
    → Hooked c r
    → EndsAt s i (put_outcome s i r)
put_outcome-EndsAt s i c (returned (result, c')) v inside high same hooked =
    Same-RunAt s i c' v inside high (Same-trans same hooked)
put_outcome-EndsAt s i c aborted v inside high same hooked = tt
put_outcome-EndsAt s i c undefined v inside high same hooked = tt
put_outcome-EndsAt s i c spinning v inside high same hooked = hooked

-- The connection with its tick invalid.
abbrev pub no_tick : Connection → Connection
no_tick c = record c { wait_tick_valid = false }

pub no_tick-Same : (c : Connection) → Same c (no_tick c)
no_tick-Same c = record { in_use = refl; socket = refl; idle = refl; state = refl }

pub run_received-EndsAt :
    (calls : Calls) (s : Server) (i : ℕ)
    → Keeps calls
    → IsValid s
    → i < length s.clients
    → reserve_conn ≤ i
    → EndsAt s i (run_received calls s i)
unfolding run_received
run_received-EndsAt calls s i keeps v inside high =
    elim (Bool-cases (client s.clients i).client_callback_running_now) [
      | inl running ↦ rw (run_received, running) (still-RunAt s i v)
      | inr idle ↦ elim (Option-cases (client s.clients i).client_callback) [
        | inl unset ↦
            let e : run_received calls s i
                ≡ put_outcome s i (handle_connection_hook calls (no_tick (client s.clients i))) =
              simp (run_received, idle, unset) in
            subst (EndsAt s i) (sym e)
              (hooks (no_tick (client s.clients i)) (no_tick-Same (client s.clients i)))
        | inr (f, set') ↦
            let (result, c2) = calls.determine (no_tick (client s.clients i)) in
            let same =
              Same-trans (no_tick-Same (client s.clients i))
                (keeps.determine (no_tick (client s.clients i))) in
            let e : run_received calls s i ≡ (
                if result
                then put_outcome s i (handle_connection_hook calls c2)
                else returned (put s i c2)) =
              simp (run_received, idle, set') in
            subst (EndsAt s i) (sym e) (elim (Bool-cases result) [
              | inl yes' ↦ rw yes' (hooks c2 same)
              | inr no' ↦ rw no' (Same-RunAt s i c2 v inside high same)
            ])
      ]
    ]
  where
    hooks :
        (c : Connection)
        → Same (client s.clients i) c
        → EndsAt s i (put_outcome s i (handle_connection_hook calls c))
    hooks c same =
        put_outcome-EndsAt s i c (handle_connection_hook calls c) v inside high same
          (handle_connection_hook-Hooked calls c keeps)

-- A property of both branches of a test.
pub either_branch :
    {A : Type 0} (P : A → Type 0) (test : Bool) {x y : A}
    → (test ≡ true → P x)
    → (test ≡ false → P y)
    → P (if test then x else y)
either_branch P true yes' no' = yes' refl
either_branch P false yes' no' = no' refl

pub run_waiting-RunAt :
    (calls : Calls) (s : Server) (i : ℕ)
    → IsValid s
    → i < length s.clients
    → (client s.clients i).in_use ≡ true
    → RunAt s i (run_waiting calls s i)
unfolding run_waiting
run_waiting-RunAt calls s i v inside busy =
    let c = client s.clients i in
    let diff = if ltb c.wait_tick_time calls.now then calls.now - c.wait_tick_time else 0 in
    let (some', high) = counted s i v inside busy in
    either_branch (RunAt s i) c.client_callback_running_now (λ running. still-RunAt s i v)
      (λ idle.
        either_branch (RunAt s i) c.wait_tick_valid
          (λ set'.
            either_branch (RunAt s i) (ltb calls.max_waiting diff)
              (λ late. closed-RunAt s i v inside busy)
              (λ early.
                either_branch (RunAt s i) (diff == 0)
                  (λ rolled.
                    Same-RunAt s i (record c { wait_tick_time = calls.now }) v inside high
                      (record { in_use = refl; socket = refl; idle = refl; state = refl }))
                  (λ ticking. still-RunAt s i v)))
          (λ unset.
            Same-RunAt s i (record c { wait_tick_time = calls.now; wait_tick_valid = true }) v
              inside high (record { in_use = refl; socket = refl; idle = refl; state = refl })))
