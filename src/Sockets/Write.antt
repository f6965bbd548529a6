-- ===== src/Sockets/Write.antt =====
-- `writen` sends the whole buffer, however much a call takes.
use linux_programs.Common.{
  ℕ, zero, suc, ◌+◌, ◌^◌, ◌≤◌, ◌<◌, ◌≡◌, sym, ap, ◌∙◌, inl, inr, arith, true, false, Bool-cases,
  some, List, ◌++◌, length, ltb, ◌==◌, drop, length-append, drop-append,
}
use linux_programs.Common.Int.{ℤ, pos}
use linux_programs.Sockets.{Wrote, took, to_int, writen_loop, writen}
use linux_programs.Sockets.Stream.{Sink}
use linux_programs.Sockets.Read.{to_int_small, empty_of_length}
use mathlib.Core.List.{append_assoc, append-nil}

module _ {S : Type 0} (write : S → List ℕ → Wrote × S) (fuel : ℕ) (s s' : S) (tot len : ℕ)
    (buf : List ℕ) where
  writen_loop-interrupted :
      tot < len
      → write s buf ≡ (Wrote.interrupted, s')
      → writen_loop write (suc fuel) s tot len buf ≡ writen_loop write fuel s' tot len buf
  unfolding writen_loop
  writen_loop-interrupted more e =
      let go : ltb tot len ≡ true = ground arith in
      let reply = ap (λ (r : Wrote × S). r.0) e in
      let next = ap (λ (r : Wrote × S). r.1) e in rw (writen_loop, go, reply, next)

  writen_loop-took :
      (n : ℕ)
      → tot < len
      → write s buf ≡ (took n, s')
      → 0 < n
      → writen_loop write (suc fuel) s tot len buf
        ≡ writen_loop write fuel s' (tot + n) len (drop n buf)
  unfolding writen_loop
  writen_loop-took n more e some' =
      let go : ltb tot len ≡ true = ground arith in
      let reply = ap (λ (r : Wrote × S). r.0) e in
      let next = ap (λ (r : Wrote × S). r.1) e in
      let test : (n == 0) ≡ false = ground arith in rw (writen_loop, go, reply, test, next)

  writen_loop-full : len ≤ tot → writen_loop write (suc fuel) s tot len buf ≡ some (to_int tot, s)
  unfolding writen_loop
  writen_loop-full full = let stop : ltb tot len ≡ false = ground arith in rw (writen_loop, stop)

-- The state behind a `writen` that sent `buf`.
pub record Sends {S : Type 0} {write : S → List ℕ → Wrote × S} (out : Sink write) (s : S)
    (buf : List ℕ) (s' : S) : Type 0 where
  pub sent : out.sent s' ≡ out.sent s ++ buf
  pub patience : out.patience s' ≤ out.patience s

writen_loop_lem :
    {S : Type 0} {write : S → List ℕ → Wrote × S} (out : Sink write) (fuel : ℕ) (s : S)
    (tot len : ℕ) (buf : List ℕ)
    → tot + length buf ≡ len
    → len < 2 ^ 31
    → out.patience s + length buf < fuel
    → (s' : S) × (writen_loop write fuel s tot len buf ≡ some (pos len, s')) × Sends out s buf s'
writen_loop_lem out zero s tot len buf size fits enough = absurd (omega arith)
writen_loop_lem {S} {write} out (suc fuel) s tot len buf size fits enough =
    elim (Bool-cases (ltb tot len)) [
      | inl more ↦ elim (out.served s buf (ground arith)) [
        | inl (s', e, same, less) ↦
            let (s2, run, d) = writen_loop_lem out fuel s' tot len buf size fits (omega arith) in
            (
              s2,
              writen_loop-interrupted write fuel s s' tot len buf (ground arith) e ∙ run,
              record {
                sent = d.sent ∙ ap (λ ys. ys ++ buf) same;
                patience = omega (arith, d.patience);
              },
            )
        | inr (front, back, s', e, cut, some', sent', less) ↦
            let lengths : length buf ≡ length front + length back =
              ap (λ ys. length ys) cut ∙ length-append front back in
            let (s2, run, d) =
              writen_loop_lem out fuel s' (tot + length front) len back (omega arith) fits
                (omega arith) in
            let rest : drop (length front) buf ≡ back =
              ap (λ ys. drop (length front) ys) cut ∙ drop-append front back in
            (
              s2,
              writen_loop-took write fuel s s' tot len buf (length front) (ground arith) e some'
                  ∙ ap (λ ys. writen_loop write fuel s' (tot + length front) len ys) rest
                  ∙ run,
              record {
                sent =
                    d.sent
                    ∙ ap (λ ys. ys ++ back) sent'
                    ∙ append_assoc (out.sent s) front back
                    ∙ ap (λ ys. out.sent s ++ ys) (sym cut);
                patience = omega (arith, d.patience, less);
              },
            )
      ]
      | inr full ↦
          let all : tot ≡ len = ground arith in
          let value : to_int tot ≡ pos len = to_int_small tot (omega arith) ∙ ap pos all in
          (
            s,
            writen_loop-full write fuel s s tot len buf (ground arith)
                ∙ ap (λ (r : ℤ). some (r, s)) value,
            record {
              sent = sym (
                  ap (λ ys. out.sent s ++ ys) (empty_of_length buf (omega arith))
                  ∙ append-nil (out.sent s));
              patience = omega arith;
            },
          )
    ]

-- For a buffer of less than 2 GiB and with fuel for the interruptions and the bytes, `writen` ends:
-- it returns the length of the buffer, and exactly the buffer was sent, in order.
pub writen-Sends :
    {S : Type 0} {write : S → List ℕ → Wrote × S} (out : Sink write) (fuel : ℕ) (s : S)
    (buf : List ℕ)
    → length buf < 2 ^ 31
    → out.patience s + length buf < fuel
    → (s' : S) × (writen write fuel s buf ≡ some (pos (length buf), s')) × Sends out s buf s'
unfolding writen
writen-Sends out fuel s buf fits enough =
    writen_loop_lem out fuel s 0 (length buf) buf (omega arith) fits enough
