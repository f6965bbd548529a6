-- ===== src/Poll/Transmit.antt =====
-- When `TransmitPending` ends, and when it does not.
use linux_programs.Common.{
  ℕ, zero, suc, ◌+◌, ◌<◌, ◌≡◌, refl, sym, ap, ◌∙◌, arith, Bool, true, false, none, some, List, [],
  ◌∷◌, ◌++◌, ltb, ◌==◌, length, drop, replicate, length-append, drop-append,
}
use linux_programs.Poll.{
  Sent, sent, broken, Connection, net_buffer_size, pending_string, transmit_loop, transmit_pending,
}
use mathlib.Core.List.{append_assoc, append-nil}

module _ {S : Type 0} (send : S → List ℕ → Sent × S) (fuel : ℕ) (s s' : S) (retries : ℕ)
    (status : Bool) (buffer : List ℕ) where
  transmit_loop-broken :
      0 < length buffer
      → send s buffer ≡ (broken, s')
      → transmit_loop send (suc fuel) s retries status buffer
        ≡ transmit_loop send fuel s' retries false buffer
  unfolding transmit_loop
  transmit_loop-broken more e =
      let go : ltb 0 (length buffer) ≡ true = ground arith in
      let reply = ap (λ (r : Sent × S). r.0) e in
      let next = ap (λ (r : Sent × S). r.1) e in rw (transmit_loop, go, reply, next)

  transmit_loop-sent :
      (n : ℕ)
      → 0 < length buffer
      → 0 < n
      → send s buffer ≡ (sent n, s')
      → transmit_loop send (suc fuel) s retries status buffer
        ≡ transmit_loop send fuel s' retries status (drop n buffer)
  unfolding transmit_loop
  transmit_loop-sent n more some' e =
      let go : ltb 0 (length buffer) ≡ true = ground arith in
      let reply = ap (λ (r : Sent × S). r.0) e in
      let next = ap (λ (r : Sent × S). r.1) e in
      let test : (n == 0) ≡ false = ground arith in rw (transmit_loop, go, reply, next, test)

-- A connection whose peer is gone: every further `send` fails.
pub record Dead {S : Type 0} (send : S → List ℕ → Sent × S) : Type 1 where
  pub IsDead : S → Type 0
  pub fails :
      (s : S) (buffer : List ℕ) → IsDead s → (s' : S) × (send s buffer ≡ (broken, s')) × IsDead s'

transmit_loop-Dead :
    {S : Type 0} {send : S → List ℕ → Sent × S} (d : Dead send) (fuel : ℕ) (s : S) (retries : ℕ)
    (status : Bool) (buffer : List ℕ)
    → d.IsDead s
    → 0 < length buffer
    → transmit_loop send fuel s retries status buffer ≡ none
unfolding transmit_loop
transmit_loop-Dead d zero s retries status buffer dead more = refl
transmit_loop-Dead {send} d (suc fuel) s retries status buffer dead more =
    let (s', e, dead') = d.fails s buffer dead in
    transmit_loop-broken send fuel s s' retries status buffer more e
    ∙ transmit_loop-Dead d fuel s' retries false buffer dead' more

pending_string-length :
    (bytes string : List ℕ) → pending_string bytes ≡ some string → 0 < length string
unfolding pending_string
pending_string-length [] string e = absurd (ground arith)
pending_string-length (b ∷ bytes) string e = ground arith

-- On an open connection with a pending string, whose peer is gone so that every `send` fails,
-- `TransmitPending` never returns: an error leaves the `switch` but not the loop, whatever the
-- number of calls.
pub transmit_pending-Dead :
    {S : Type 0} {send : S → List ℕ → Sent × S} (d : Dead send) (fuel : ℕ) (s : S) (c : Connection)
    {socket : ℕ} (string : List ℕ)
    → d.IsDead s
    → c.socket ≡ some socket
    → pending_string c.pending_send_buffer ≡ some string
    → transmit_pending send fuel s (some c) ≡ none
unfolding transmit_pending
transmit_pending-Dead d fuel s c string dead open' e =
    let never =
      transmit_loop-Dead d fuel s 0 true string dead
        (pending_string-length c.pending_send_buffer string e) in
    rw (open', e, never)

-- A connection whose peer reads: every `send` takes at least one byte from the front.
pub record Alive {S : Type 0} (send : S → List ℕ → Sent × S) : Type 0 where
  pub output : S → List ℕ
  pub takes :
      (s : S) (buffer : List ℕ)
      → 0 < length buffer
      → (front back : List ℕ) × (s' : S) × (send s buffer ≡ (sent (length front), s'))
        × (buffer ≡ front ++ back)
        × (0 < length front)
        × (output s' ≡ output s ++ front)

transmit_loop-Alive :
    {S : Type 0} {send : S → List ℕ → Sent × S} (a : Alive send) (fuel : ℕ) (s : S) (retries : ℕ)
    (status : Bool) (buffer : List ℕ)
    → length buffer < fuel
    → (s' : S) × (transmit_loop send fuel s retries status buffer ≡ some (status, s'))
      × (a.output s' ≡ a.output s ++ buffer)
unfolding transmit_loop
transmit_loop-Alive a zero s retries status buffer enough = absurd (omega arith)
transmit_loop-Alive {send} a (suc fuel) s retries status [] enough =
    (s, refl, sym (append-nil (a.output s)))
transmit_loop-Alive {send} a (suc fuel) s retries status (b ∷ bytes) enough =
    let buffer = b ∷ bytes in
    let (front, back, s', e, cut, some', out) = a.takes s buffer (omega arith) in
    let lengths : length buffer ≡ length front + length back =
      ap length cut ∙ length-append front back in
    let rest : drop (length front) buffer ≡ back =
      ap (drop (length front)) cut ∙ drop-append front back in
    let (s2, run, out2) =
      transmit_loop-Alive a fuel s' retries status back (omega (arith, lengths)) in
    (
      s2,
      transmit_loop-sent send fuel s s' retries status buffer (length front) (omega arith) some' e
          ∙ ap (λ ys. transmit_loop send fuel s' retries status ys) rest
          ∙ run,
      out2
          ∙ ap (λ ys. ys ++ back) out
          ∙ append_assoc (a.output s) front back
          ∙ ap (λ ys. a.output s ++ ys) (sym cut),
    )

-- On an open connection with a pending string, whose peer takes at least one byte in each `send`, and
-- with fuel for the bytes, `TransmitPending` returns true, has sent exactly the string with its
-- final 0, in order, and has cleared the buffer.
pub transmit_pending-Alive :
    {S : Type 0} {send : S → List ℕ → Sent × S} (a : Alive send) (fuel : ℕ) (s : S) (c : Connection)
    {socket : ℕ} (string : List ℕ)
    → c.socket ≡ some socket
    → pending_string c.pending_send_buffer ≡ some string
    → length string < fuel
    → (s' : S) × (transmit_pending send fuel s (some c)
        ≡ some (true, some (record c { pending_send_buffer = replicate net_buffer_size 0 }), s'))
      × (a.output s' ≡ a.output s ++ string)
unfolding transmit_pending
transmit_pending-Alive a fuel s c string open' e enough =
    let (s', run, out) = transmit_loop-Alive a fuel s 0 true string enough in
    (s', simp (open', e, run), out)
