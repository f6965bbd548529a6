-- ===== src/Select/Send/Ends.antt =====
-- When `TransmitPending` of the select server ends, and when it does not.
use linux_programs.Common.{
  ℕ, zero, suc, ◌+◌, ◌<◌, ◌≡◌, refl, sym, ap, ◌∙◌, inl, inr, arith, Bool, true, false, Bool-cases,
  Option, none, some, List, [], ◌∷◌, ◌++◌, ◌==◌, if◌then◌else◌, length, length-append, drop,
  drop-append, replicate,
}
use mathlib.Core.List.{append_assoc}
use native.Mathlib.Nat.{suc-add}
use linux_programs.Poll.{pending_string}
use linux_programs.Select.{Connection}
use linux_programs.Select.Send.{
  Loop, finished, overrun, spinning, Sent, sent, cleared, after_send, rest_of_round, send_round,
  transmit_loop, transmit_pending,
}

-- No byte is 0.
abbrev pub is_string : List ℕ → Bool
is_string [] = true
is_string (b ∷ bytes) = if b == 0 then false else is_string bytes

is_string-cons :
    (b : ℕ) (bytes : List ℕ)
    → is_string (b ∷ bytes) ≡ true
    → ((b == 0) ≡ false) × (is_string bytes ≡ true)
is_string-cons b bytes e = elim (Bool-cases (b == 0)) [
  | inl zero' ↦ absurd (cc (zero', e))
  | inr other ↦ (other, sym (ap (λ (x : Bool). if x then false else is_string bytes) other) ∙ e)
]

-- `strlen` finds the first 0.
pending_string-append :
    (string rest : List ℕ)
    → is_string string ≡ true
    → pending_string (string ++ (0 ∷ rest)) ≡ some (string ++ (0 ∷ []))
unfolding pending_string
pending_string-append [] rest e = refl
pending_string-append (b ∷ string) rest e =
    let (other, text) = is_string-cons b string e in
    rw (other, pending_string-append string rest text) refl

-- Two bytes of a cleared buffer.
drop-zeros :
    (n k : ℕ)
    → k + 1 < n
    → (m : ℕ) × (drop k (replicate {A = ℕ} n 0) ≡ 0 ∷ 0 ∷ replicate m 0)
      × (drop (k + 1) (replicate {A = ℕ} n 0) ≡ 0 ∷ replicate m 0)
drop-zeros zero k low = absurd (omega arith)
drop-zeros (suc zero) k low = absurd (omega arith)
drop-zeros (suc (suc n)) zero low = (n, refl, refl)
drop-zeros (suc (suc n)) (suc k) low =
    let (m, here, behind) = drop-zeros (suc n) k (omega arith) in (m, here, rw (suc-add k 1) behind)

module _ {S : Type 0} (send : S → List ℕ → Sent × S) where
  -- A round that sends the last bytes of the string, with a 0 behind its 0.
  last_round :
      (memory : List ℕ) (offset : ℕ) (string rest : List ℕ) (next : Option ℕ) (status : Bool)
      (s s' : S)
      → is_string string ≡ true
      → drop offset memory ≡ string ++ (0 ∷ 0 ∷ rest)
      → drop (offset + (length string + 1)) memory ≡ 0 ∷ rest
      → send s (string ++ (0 ∷ [])) ≡ (sent (length string + 1), s')
      → send_round send true memory offset next status s
        ≡ some (record { memory = cleared; next = next; ok = true; status = status; kernel = s' })
  unfolding send_round rest_of_round after_send pending_string
  last_round memory offset string rest next status s s' text here behind sends =
      let first : pending_string (drop offset memory) ≡ some (string ++ (0 ∷ [])) =
        ap pending_string here ∙ pending_string-append string (0 ∷ rest) text in
      rw (send_round, first)
        (ap (rest_of_round memory offset next status) sends ∙ rw (rest_of_round, behind) refl)

  -- The loop behind a partial `send`: the cleared buffer is sent again from the old place, for ever.
  spins :
      (fuel k : ℕ) (s : S)
      → k < 1023
      → ((t : S) → (t' : S) × (send t (0 ∷ []) ≡ (sent 1, t')))
      → transmit_loop send fuel true cleared (some k) (some k) true s ≡ spinning
  unfolding transmit_loop
  spins zero k s low accepts = refl
  spins (suc fuel) k s low accepts =
      let (s', sends) = accepts s in
      let (m, here, behind) = drop-zeros 1024 k (omega arith) in
      let round =
        last_round cleared k [] (replicate m 0) (some k) true s s' refl here behind sends in
      rw (transmit_loop, round) (spins fuel k s' low accepts)

-- What is behind some bytes.
drop-behind :
    (n : ℕ) (xs : List ℕ) (b : ℕ) (ys : List ℕ) → n ≡ length xs + 1 → drop n (xs ++ (b ∷ ys)) ≡ ys
drop-behind n xs b ys e =
    let size : n ≡ length (xs ++ (b ∷ [])) = omega (arith, e, length-append xs (b ∷ [])) in
    ap (λ k. drop k (xs ++ (b ∷ ys))) size
    ∙ ap (drop (length (xs ++ (b ∷ [])))) (sym (append_assoc xs (b ∷ []) ys))
    ∙ drop-append (xs ++ (b ∷ [])) ys

is_string-append :
    (xs ys : List ℕ) → is_string xs ≡ true → is_string ys ≡ true → is_string (xs ++ ys) ≡ true
is_string-append [] ys e e' = e'
is_string-append (b ∷ xs) ys e e' =
    let (other, text) = is_string-cons b xs e in rw other (is_string-append xs ys text e')

-- What `TransmitPending` makes of the outcome of its loop.
transmit_pending-loop :
    {S : Type 0} (send : S → List ℕ → Sent × S) (fuel : ℕ) (c : Connection) (fd : ℕ) (s : S)
    {r : Loop (Bool × List ℕ × S)}
    → c.socket ≡ some fd
    → transmit_loop send fuel true c.pending_send_buffer (some 0) none true s ≡ r
    → transmit_pending send fuel s (some c) ≡ elim r [
      | overrun ↦ overrun
      | spinning ↦ spinning
      | finished (status, memory, s') ↦
          finished (status, some (record c { pending_send_buffer = memory }), s')
    ]
unfolding transmit_pending
transmit_pending-loop {S} send fuel c fd s {r} open' loop =
    ap
      (λ socket. finish (
        transmit_loop send fuel (elim socket [ none ↦ false | some d ↦ true ]) c.pending_send_buffer
          (some 0) none true s))
      open'
    ∙ ap finish loop
  where
    finish : Loop (Bool × List ℕ × S) → Loop (Bool × Option Connection × S)
    finish overrun = overrun
    finish spinning = spinning
    finish (finished (status, memory, s')) =
        finished (status, some (record c { pending_send_buffer = memory }), s')

-- The loop when one `send` takes the whole string.
loop-whole :
    {S : Type 0} (send : S → List ℕ → Sent × S) (fuel : ℕ) (memory string rest : List ℕ) (s s' : S)
    → is_string string ≡ true
    → memory ≡ string ++ (0 ∷ 0 ∷ rest)
    → send s (string ++ (0 ∷ [])) ≡ (sent (length string + 1), s')
    → transmit_loop send (suc (suc fuel)) true memory (some 0) none true s
      ≡ finished (true, cleared, s')
unfolding transmit_loop
loop-whole send fuel memory string rest s s' text holds sends =
    let behind : drop (0 + (length string + 1)) memory ≡ 0 ∷ rest =
      ap (drop (0 + (length string + 1))) holds
      ∙ drop-behind (0 + (length string + 1)) string 0 (0 ∷ rest) (omega arith) in
    let round = last_round send memory 0 string rest none true s s' text holds behind sends in
    rw (transmit_loop, round) refl

-- When one `send` takes the whole string with its 0, and a second 0 stands behind it, `TransmitPending`
-- returns true and has cleared the buffer.
pub transmit_pending-whole :
    {S : Type 0} (send : S → List ℕ → Sent × S) (fuel : ℕ) (c : Connection) (fd : ℕ)
    (string rest : List ℕ) (s s' : S)
    → c.socket ≡ some fd
    → is_string string ≡ true
    → c.pending_send_buffer ≡ string ++ (0 ∷ 0 ∷ rest)
    → send s (string ++ (0 ∷ [])) ≡ (sent (length string + 1), s')
    → transmit_pending send (suc (suc fuel)) s (some c)
      ≡ finished (true, some (record c { pending_send_buffer = cleared }), s')
transmit_pending-whole send fuel c fd string rest s s' open' text holds sends =
    transmit_pending-loop send (suc (suc fuel)) c fd s open'
      (loop-whole send fuel c.pending_send_buffer string rest s s' text holds sends)

module _ {S : Type 0} (send : S → List ℕ → Sent × S) (memory front back rest : List ℕ) (s s1 s2 : S)
    (text : is_string front ≡ true) (text' : is_string back ≡ true) (more : 0 < length back)
    (size : length memory ≡ 1024) (holds : memory ≡ front ++ (back ++ (0 ∷ 0 ∷ rest)))
    (first : send s (front ++ (back ++ (0 ∷ []))) ≡ (sent (length front), s1))
    (second : send s1 (back ++ (0 ∷ [])) ≡ (sent (length back + 1), s2)) where
  at_back : drop (0 + length front) memory ≡ back ++ (0 ∷ 0 ∷ rest)
  at_back =
      let start : 0 + length front ≡ length front = omega arith in
      ap (λ k. drop k memory) start
      ∙ ap (drop (length front)) holds
      ∙ drop-append front (back ++ (0 ∷ 0 ∷ rest))

  -- The round of the partial `send`.
  partial_round :
      send_round send true memory 0 none true s
      ≡ some (record {
        memory = memory;
        next = some (0 + length front);
        ok = true;
        status = true;
        kernel = s1;
      })
  unfolding send_round rest_of_round after_send
  partial_round =
      let joined : memory ≡ (front ++ back) ++ (0 ∷ 0 ∷ rest) =
        holds ∙ sym (append_assoc front back (0 ∷ 0 ∷ rest)) in
      let whole : pending_string (drop 0 memory) ≡ some (front ++ (back ++ (0 ∷ []))) =
        ap pending_string joined
        ∙ pending_string-append (front ++ back) (0 ∷ rest) (is_string-append front back text text')
        ∙ ap some (append_assoc front back (0 ∷ [])) in
      let left : pending_string (drop (0 + length front) memory) ≡ some (back ++ (0 ∷ [])) =
        ap pending_string at_back ∙ pending_string-append back (0 ∷ rest) text' in
      let unfinished : (length (back ++ (0 ∷ [])) == 1) ≡ false =
        ground (arith, length-append back (0 ∷ []), more) in
      rw (send_round, whole)
        (ap (rest_of_round memory 0 none true) first ∙ rw (rest_of_round, left, unfinished) refl)

  -- The round that sends the rest.
  second_round :
      send_round send true memory (0 + length front) (some (0 + length front)) true s1
      ≡ some (record {
        memory = cleared;
        next = some (0 + length front);
        ok = true;
        status = true;
        kernel = s2;
      })
  second_round =
      last_round send memory (0 + length front) back rest (some (0 + length front)) true s1 s2 text'
        at_back
        (ap (drop ((0 + length front) + (length back + 1)))
            (holds ∙ sym (append_assoc front back (0 ∷ 0 ∷ rest)))
          ∙ drop-behind ((0 + length front) + (length back + 1)) (front ++ back) 0 (0 ∷ rest)
              (omega (arith, length-append front back)))
        second

  loop-spins :
      (fuel : ℕ)
      → ((t : S) → (t' : S) × (send t (0 ∷ []) ≡ (sent 1, t')))
      → transmit_loop send fuel true memory (some 0) none true s ≡ spinning
  unfolding transmit_loop
  loop-spins zero accepts = refl
  loop-spins (suc zero) accepts = rw (transmit_loop, partial_round) refl
  loop-spins (suc (suc fuel)) accepts =
      let small : 0 + length front < 1023 = omega (
        arith,
        more,
        size,
        ap length holds,
        length-append front (back ++ (0 ∷ 0 ∷ rest)),
        length-append back (0 ∷ 0 ∷ rest),
      ) in
      rw (transmit_loop, partial_round)
        (rw (transmit_loop, second_round) (spins send fuel (0 + length front) s2 small accepts))

-- On an open connection whose buffer of 1024 bytes holds a string with two 0 behind it: when the first `send`
-- takes only a part of the string, the second the rest with its 0, and every later one the 0 it is given,
-- `TransmitPending` never returns, whatever the number of rounds: `nextBuffer` keeps the old place, and
-- once the string is sent the loop goes on there, with one 0 of the cleared buffer after the other.
pub transmit_pending-spins :
    {S : Type 0} (send : S → List ℕ → Sent × S) (fuel : ℕ) (c : Connection) (fd : ℕ)
    (front back rest : List ℕ) (s s1 s2 : S)
    → c.socket ≡ some fd
    → is_string front ≡ true
    → is_string back ≡ true
    → 0 < length back
    → length c.pending_send_buffer ≡ 1024
    → c.pending_send_buffer ≡ front ++ (back ++ (0 ∷ 0 ∷ rest))
    → send s (front ++ (back ++ (0 ∷ []))) ≡ (sent (length front), s1)
    → send s1 (back ++ (0 ∷ [])) ≡ (sent (length back + 1), s2)
    → ((t : S) → (t' : S) × (send t (0 ∷ []) ≡ (sent 1, t')))
    → transmit_pending send fuel s (some c) ≡ spinning
transmit_pending-spins send fuel c fd front back rest s s1 s2 open' text text' more size holds first
      second accepts =
    transmit_pending-loop send fuel c fd s open' (
      loop-spins send c.pending_send_buffer front back rest s s1 s2 text text' more size holds first
        second fuel accepts)
