-- ===== src/Heartbeat/Silence.antt =====
-- When the client and the server of sockapi/demo/heartBeat1 declare the connection dead: after four
-- rounds in a row that time out, and not before.
use linux_programs.Common.{
  ℕ, zero, suc, ◌+◌, ◌-◌, ◌≤◌, ◌≡◌, refl, sym, ap, ◌∙◌, ◌⊎◌, inl, inr, arith, Bool, true, false,
  ◌&&◌, List, [], ◌∷◌, ◌++◌, ltb, ◌==◌, if◌then◌else◌, take, replicate, length,
}
use linux_programs.Sockets.{ntohl}
use linux_programs.Heartbeat.{
  Link, Event, select_failed, invalid_socket, recv_failed, timed_out, received, connection_dead,
  Outcome, going, ended, Action, taken_in, client_step, server_step, handle_message, go_on, rounds,
  client_run, server_run, t1, t2, msg_type1, msg_type2, msg_heartbeat,
}

abbrev is_silent : Event → Bool
is_silent select_failed = false
is_silent invalid_socket = false
is_silent recv_failed = false
is_silent (timed_out send_ok) = true
is_silent (received bytes send_ok) = false

-- The first `k` rounds time out.
abbrev pub all_silent : (k : ℕ) → List Event → Bool
all_silent zero events = true
all_silent (suc k) [] = false
all_silent (suc k) (e ∷ events) = is_silent e && all_silent k events

-- Somewhere four rounds in a row time out.
pub record Silence (events : List Event) : Type 0 where
  pub before : List Event
  pub after : List Event
  pub split : events ≡ before ++ after
  pub silent : all_silent 4 after ≡ true

unfoldable later : {e : Event} {events : List Event} → Silence events → Silence (e ∷ events)
later {e = e} s = record {
  before = e ∷ s.before;
  after = s.after;
  split = ap (λ es. e ∷ es) s.split;
  silent = s.silent;
}

-- What a round does to the count of misses.
abbrev Counted : Link → Event → Outcome → Type 0
Counted l e (going l') = ((is_silent e ≡ true) × (l'.misses ≡ l.misses + 1)) ⊎ (l'.misses ≡ 0)
Counted l e (ended reason) =
    ended reason ≡ ended connection_dead → (is_silent e ≡ true) × (3 ≤ l.misses)

all_silent_cons :
    (e : Event) (k k' : ℕ) (events : List Event)
    → k' ≡ k - 1
    → is_silent e ≡ true
    → all_silent k' events ≡ true
    → all_silent k (e ∷ events) ≡ true
all_silent_cons e zero k' events less silent rest = refl
all_silent_cons e (suc k) k' events less silent rest =
    let same : k ≡ k' = omega (arith, less) in rw (silent, same, rest)

module _ (step : Link → Event → List Action × Outcome)
    (counts : (l : Link) (e : Event) → Counted l e (step l e).1) where
  -- A connection that is declared dead was silent for the rounds that were still to miss, or for four
  -- rounds later on.
  rounds-dead :
      (l : Link) (events : List Event)
      → (rounds step l events).1 ≡ ended connection_dead
      → (all_silent (4 - l.misses) events ≡ true) ⊎ Silence events
  unfolding rounds later
  rounds-dead l [] dead = absurd (cc dead)
  rounds-dead l (e ∷ events) dead =
      next (λ l'. rounds-dead l' events) (step l e).0 (step l e).1 (counts l e) dead
    where
      next :
          ((l' : Link)
            → (rounds step l' events).1 ≡ ended connection_dead
            → (all_silent (4 - l'.misses) events ≡ true) ⊎ Silence events)
          → (actions : List Action) (out : Outcome) → Counted l e out
          → (go_on actions out (λ l'. rounds step l' events)).1 ≡ ended connection_dead
          → (all_silent (4 - l.misses) (e ∷ events) ≡ true) ⊎ Silence (e ∷ events)
      next rest actions (ended reason) c dead =
          let (silent, many) = c dead in
          inl (all_silent_cons e (4 - l.misses) 0 events (omega arith) silent refl)
      next rest actions (going l') (inr reset) dead = elim (rest l' dead) [
        | inl silent ↦ inr (record {
          before = e ∷ [];
          after = events;
          split = refl;
          silent = ap (λ m. all_silent (4 - m) events) (sym reset) ∙ silent;
        })
        | inr s ↦ inr (later s)
      ]
      next rest actions (going l') (inl (silent, more)) dead = elim (rest l' dead) [
        | inl silent' ↦ inl (
            all_silent_cons e (4 - l.misses) (4 - l'.misses) events (omega (arith, more)) silent
              silent')
        | inr s ↦ inr (later s)
      ]

client_step-counts : (l : Link) (e : Event) → Counted l e (client_step l e).1
unfolding client_step
client_step-counts l select_failed = ground arith
client_step-counts l invalid_socket = ground arith
client_step-counts l recv_failed = ground arith
client_step-counts l (timed_out true) = ground arith
client_step-counts l (timed_out false) = ground arith
client_step-counts l (received [] ok) = ground arith
client_step-counts l (received (b ∷ bytes) ok) = ground arith

now :
    (l : Link) {events : List Event}
    → l.misses ≡ 0
    → all_silent (4 - l.misses) events ≡ true
    → Silence events
now l {events = events} fresh silent = record {
  before = [];
  after = events;
  split = refl;
  silent = ap (λ m. all_silent (4 - m) events) (sym fresh) ∙ silent;
}

if_both :
    (P : List Action × Outcome → Type 0) (b : Bool) {x y : List Action × Outcome}
    → P x
    → P y
    → P (if b then x else y)
if_both P true p q = p
if_both P false p q = q

-- The `switch` goes on with the count that it found.
handle_message-counts :
    (l : Link) (e : Event) (l' : Link) (ok : Bool)
    → l'.misses ≡ 0
    → Counted l e (handle_message l' ok).1
unfolding handle_message
handle_message-counts l e l' ok none' =
    let counted : List Action × Outcome → Type 0 = λ r. Counted l e r.1 in
    let type = ntohl (take 4 l'.msg) in
    if_both counted (type == msg_type1) (inr none') (
      if_both counted (type == msg_type2) (inr none') (
        if_both counted (type == msg_heartbeat)
          (if_both counted ok (inr none') (λ dead. absurd (cc dead))) (λ dead. absurd (cc dead))))

server_step-counts : (l : Link) (e : Event) → Counted l e (server_step l e).1
unfolding server_step handle_message
server_step-counts l select_failed = ground arith
server_step-counts l invalid_socket = ground arith
server_step-counts l recv_failed = ground arith
server_step-counts l (timed_out ok) = ground arith
server_step-counts l (received [] ok) = ground arith
server_step-counts l (received (b ∷ bytes) ok) =
    let l' = taken_in l (b ∷ bytes) (t1 + t2) in
    if_both (λ r. Counted l (received (b ∷ bytes) ok) r.1) (ltb 0 l'.cnt) (inr refl)
      (handle_message-counts l (received (b ∷ bytes) ok) l' ok refl)

-- The client declares the connection dead only after a silence: when one that has missed nothing
-- yet ends with "connection dead", four rounds in a row have timed out.
pub client_run-Silence :
    (l : Link) (events : List Event)
    → l.misses ≡ 0
    → (client_run l events).1 ≡ ended connection_dead
    → Silence events
unfolding client_run
client_run-Silence l events fresh dead =
    elim (rounds-dead client_step client_step-counts l events dead) [
      | inl silent ↦ now l fresh silent
      | inr s ↦ s
    ]

-- The server, too, declares the connection dead only after a silence.
pub server_run-Silence :
    (l : Link) (events : List Event)
    → l.misses ≡ 0
    → (server_run l events).1 ≡ ended connection_dead
    → Silence events
unfolding server_run
server_run-Silence l events fresh dead =
    elim (rounds-dead server_step server_step-counts l events dead) [
      | inl silent ↦ now l fresh silent
      | inr s ↦ s
    ]

-- The seconds that a program waits in `k` rounds that time out.
unfoldable pub patience : (Link → Event → List Action × Outcome) → (k : ℕ) → Outcome → ℕ
patience step zero out = 0
patience step (suc k) (ended reason) = 0
patience step (suc k) (going l) = l.tv_sec + patience step k (step l (timed_out true)).1

-- The variables before the first round, and after each `recv` that gave bytes.
abbrev pub fresh : (tv_sec cnt : ℕ) → List ℕ → Link
fresh tv_sec cnt msg = record { misses = 0; tv_sec = tv_sec; cnt = cnt; msg = msg }

-- A silence is found out. When nothing comes any more, and the sends succeed, the client sends three
-- heartbeats and ends with "connection dead" after 90 seconds, the server, which waits 10 seconds longer
-- for the first time, after 100 seconds; neither waits longer, whatever would come later.
pub run-detects :
    (cnt k : ℕ) (msg : List ℕ) (later_events : List Event)
    → let silence = replicate 4 (timed_out true) ++ later_events in
      ((actions : List Action) × (client_run (fresh t1 cnt msg) silence
          ≡ (actions, ended connection_dead))
        × (length actions ≡ 3))
      × (patience client_step (suc (suc (suc (suc k)))) (going (fresh t1 cnt msg)) ≡ 90)
      × (server_run (fresh (t1 + t2) cnt msg) silence ≡ ([], ended connection_dead))
      × (patience server_step (suc (suc (suc (suc k)))) (going (fresh (t1 + t2) cnt msg)) ≡ 100)
unfolding client_run server_run client_step server_step rounds patience
run-detects cnt zero msg events = ((_, refl, refl), refl, refl, refl)
run-detects cnt (suc k) msg events = ((_, refl, refl), refl, refl, refl)
