-- ===== src/Select/Tests.antt =====
-- The theorems on the select server, at a table with one connection on descriptor 7 at place 4.
use linux_programs.Common.{
  ℕ, zero, suc, ◌≤◌, ◌<◌, ◌≡◌, ◌≢◌, refl, sym, ap, ◌∙◌, ◌⊎◌, inl, inr, arith, true, false, ◌||◌,
  ◌&&◌, Option, none, some, List, [], ◌∷◌, length, length-replicate, replicate,
}
use mathlib.Core.Path.{subst}
use linux_programs.Select.{
  Connection, blank, Server, client, find_unused, opened, establish, new_connection,
}
use linux_programs.Select.Valid.{IsValid, empty-IsValid, blank_unused}
use linux_programs.Select.Open.{new_connection-IsValid, new_connection-stores}
use linux_programs.Select.Send.{Sent, sent, spinning, transmit_pending}
use linux_programs.Select.Send.Ends.{transmit_pending-spins}
use linux_programs.Select.Turn.{Received, bytes, failed, receive_loop}
use linux_programs.Select.Turn.Receive.{after_receive, receive_loop-receives}
use linux_programs.Select.Run.{Calls, returned, aborted, server_run}
use linux_programs.Select.Run.Keeps.{Keeps, is_ported}
use linux_programs.Select.Run.Hook.{receive_loop-server_run}
use linux_programs.Select.Round.{Sets, fd_sets, Events}
use linux_programs.Select.Round.Watch.{has, any, is_at, reads, writes, fd_sets-watch}

abbrev empty : Server
empty = record { clients = replicate 10 blank; active = 0 }

abbrev sample : Server
sample = record {
  clients = blank ∷ blank ∷ blank ∷ blank ∷ opened false 7 ∷ replicate 5 blank;
  active = 1;
}

established : new_connection false (some 7) empty ≡ sample
unfolding new_connection establish find_unused blank
established = refl

sample-IsValid : IsValid sample
sample-IsValid =
    subst IsValid established (new_connection-IsValid false (some 7) empty (empty-IsValid 10))

-- At the table without a connection.
new_connection-stores_example :
    IsValid (new_connection false (some 7) empty)
    × (i : ℕ) × (4 ≤ i)
    × (i < 10)
    × (client (new_connection false (some 7) empty).clients i ≡ opened false 7)
new_connection-stores_example =
    new_connection-stores false 7 empty (empty-IsValid 10) (inl (omega arith))

-- A peer that takes one byte at first, and then everything.
abbrev slow : ℕ → List ℕ → Sent × ℕ
slow zero buffer = (sent 1, 1)
slow (suc n) buffer = (sent (length buffer), suc n)

slow-takes : (n : ℕ) → (n' : ℕ) × (slow n (0 ∷ []) ≡ (sent 1, n'))
slow-takes zero = (1, refl)
slow-takes (suc n) = (suc n, refl)

abbrev writing : Connection
writing = record blank { socket = some 7; pending_send_buffer = 1 ∷ 2 ∷ 0 ∷ 0 ∷ replicate 1020 0 }

transmit_pending-spins_example : transmit_pending slow 1000 0 (some writing) ≡ spinning
transmit_pending-spins_example =
    transmit_pending-spins slow 1000 writing 7 (1 ∷ []) (2 ∷ []) (replicate 1020 0) 0 1 1 refl refl
      refl (omega arith) (omega (arith, length-replicate {A = ℕ} 1020 0)) refl refl refl slow-takes

-- The peer is gone.
receive_loop-receives_example :
    IsValid (receive_loop (λ fd. true) (λ i. failed) sample)
    × (length (receive_loop (λ fd. true) (λ i. failed) sample).clients ≡ 10)
    × ((i : ℕ)
        → i < 10
        → client (receive_loop (λ fd. true) (λ i. failed) sample).clients i
          ≡ after_receive (λ fd. true) failed (client sample.clients i))
receive_loop-receives_example =
    receive_loop-receives (λ fd. true) (λ i. failed) sample sample-IsValid (omega arith)

every_blank : (n i : ℕ) → (client (replicate n blank) i).in_use ≡ false
every_blank zero i = blank_unused
every_blank (suc n) zero = blank_unused
every_blank (suc n) (suc i) = every_blank n i

-- The one connection.
sample-cases : (i : ℕ) → ((client sample.clients i).in_use ≡ false) ⊎ (i ≡ 4)
sample-cases zero = inl blank_unused
sample-cases (suc zero) = inl blank_unused
sample-cases (suc (suc zero)) = inl blank_unused
sample-cases (suc (suc (suc zero))) = inl blank_unused
sample-cases (suc (suc (suc (suc zero)))) = inr refl
sample-cases (suc (suc (suc (suc (suc i))))) = inl (every_blank 5 i)

-- Hooks that do nothing.
abbrev idle_calls : ℕ → Calls
idle_calls i = record {
  created = false;
  hook = λ callback c. (true, c);
  determine = λ c. (true, c);
  now = 0;
  max_waiting = 30;
  unported = λ s k. aborted;
}

idle_calls-Keeps : (i : ℕ) → Keeps (idle_calls i)
idle_calls-Keeps i = record {
  hook = λ callback c. record { in_use = refl; socket = refl; idle = refl; state = refl };
  determine = λ c. record { in_use = refl; socket = refl; idle = refl; state = refl };
}

sample-AllPorted : (i : ℕ) → i < 10 → is_ported (client sample.clients i).state ≡ true
unfolding opened blank
sample-AllPorted zero low = refl
sample-AllPorted (suc zero) low = refl
sample-AllPorted (suc (suc zero)) low = refl
sample-AllPorted (suc (suc (suc zero))) low = refl
sample-AllPorted (suc (suc (suc (suc zero)))) low = refl
sample-AllPorted (suc (suc (suc (suc (suc i))))) low = quiet 5 i
  where
    quiet : (n k : ℕ) → is_ported (client (replicate n blank) k).state ≡ true
    quiet zero k = refl
    quiet (suc n) zero = refl
    quiet (suc n) (suc k) = quiet n k

-- A byte arrives.
abbrev arrived : ℕ → Received
arrived i = bytes (65 ∷ [])

receive_loop-server_run_example :
    server_run 2 idle_calls (receive_loop (λ fd. true) arrived sample) ≢ returned sample
unfolding opened blank
receive_loop-server_run_example =
    receive_loop-server_run (λ fd. true) arrived idle_calls 0 4 65 [] sample sample idle_calls-Keeps
      sample-IsValid sample-AllPorted (omega arith) refl refl refl refl refl

abbrev fd_of : Option ℕ → ℕ
fd_of none = 0
fd_of (some fd) = fd

sample-lows : (i fd : ℕ) → (client sample.clients i).socket ≡ some fd → fd < 1024
unfolding opened
sample-lows i fd on = elim (sample-cases i) [
  | inl free ↦ absurd (cc (on, (sample-IsValid.places i).closed free))
  | inr here ↦
      let seven : some fd ≡ some 7 = sym on ∙ ap (λ q. (client sample.clients q).socket) here in
      omega (arith, ap fd_of seven)
]

three_low : (fd : ℕ) → some 3 ≡ some fd → fd < 1024
three_low fd e = omega (arith, ap fd_of e)

fd_sets-watch_example :
    (sets : Sets) × (fd_sets 1024 0 (some 3) sample.clients ≡ some sets)
    × ((fd : ℕ)
        → (has fd sets.read
            ≡ (any (λ c. reads c && is_at fd c.socket) sample.clients || is_at fd (some 3)))
          × (has fd sets.write ≡ any (λ c. writes c && is_at fd c.socket) sample.clients))
    × (sets.need_write ≡ any writes sample.clients)
fd_sets-watch_example = fd_sets-watch 1024 0 (some 3) sample sample-IsValid three_low sample-lows

-- A byte arrives, and nothing can be sent.
abbrev events : Events ℕ
events = record {
  calls = idle_calls;
  addresses = none;
  select = λ nfds read write. none;
  accepted = none;
  received = arrived;
  send = slow;
}
