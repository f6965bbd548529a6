-- ===== src/Sockets/Read.antt =====
-- `readn` reads the whole buffer, however the calls cut the stream up.
use linux_programs.Common.{
  ℕ, zero, suc, ◌+◌, ◌-◌, ◌^◌, ◌≤◌, ◌<◌, ◌≡◌, refl, sym, ap, ◌∙◌, inl, inr, arith, true, false,
  Bool-cases, ap₂, get_or, Option, some, List, [], ◌∷◌, ◌++◌, length, ltb, ◌==◌, drop,
  length-append,
}
use linux_programs.Common.Int.{ℤ, pos}
use linux_programs.Sockets.{Reply, got, to_int, readn_loop, readn}
use linux_programs.Sockets.Stream.{Source}
use mathlib.Core.List.{append_assoc, append-nil}

-- `bytes` are all that a read of `n` bytes can get of what is pending at `s`, and `s'` is behind.
pub record Delivers {S : Type 0} {read : S → ℕ → Reply × S} (src : Source read) (s : S) (n : ℕ)
    (bytes : List ℕ) (s' : S) : Type 0 where
  pub front : src.pending s ≡ bytes ++ src.pending s'
  pub few : length bytes ≤ n
  pub at_end : length bytes < n → src.pending s' ≡ []
  pub patience : src.patience s' ≤ src.patience s

pub to_int_small : (n : ℕ) → n < 2 ^ 31 → to_int n ≡ pos n
to_int_small n h = ground arith

module _ {S : Type 0} (read : S → ℕ → Reply × S) (fuel : ℕ) (s s' : S) (tot len : ℕ)
    (buf : List ℕ) where
  readn_loop-interrupted :
      tot < len
      → read s (len - tot) ≡ (Reply.interrupted, s')
      → readn_loop read (suc fuel) s tot len buf ≡ readn_loop read fuel s' tot len buf
  unfolding readn_loop
  readn_loop-interrupted more e =
      let go : ltb tot len ≡ true = ground arith in
      let reply = ap (λ (r : Reply × S). r.0) e in
      let next = ap (λ (r : Reply × S). r.1) e in rw (readn_loop, go, reply, next)

  readn_loop-at_end :
      (bs : List ℕ)
      → tot < len
      → read s (len - tot) ≡ (got bs, s')
      → length bs ≡ 0
      → readn_loop read (suc fuel) s tot len buf ≡ some (to_int tot, buf, s')
  unfolding readn_loop
  readn_loop-at_end bs more e none' =
      let go : ltb tot len ≡ true = ground arith in
      let reply = ap (λ (r : Reply × S). r.0) e in
      let next = ap (λ (r : Reply × S). r.1) e in
      let test : (length bs == 0) ≡ true = ground arith in rw (readn_loop, go, reply, test, next)

  readn_loop-got :
      (bs : List ℕ)
      → tot < len
      → read s (len - tot) ≡ (got bs, s')
      → 0 < length bs
      → readn_loop read (suc fuel) s tot len buf
        ≡ readn_loop read fuel s' (tot + length bs) len (buf ++ bs)
  unfolding readn_loop
  readn_loop-got bs more e some' =
      let go : ltb tot len ≡ true = ground arith in
      let reply = ap (λ (r : Reply × S). r.0) e in
      let next = ap (λ (r : Reply × S). r.1) e in
      let test : (length bs == 0) ≡ false = ground arith in rw (readn_loop, go, reply, test, next)

  readn_loop-full : len ≤ tot → readn_loop read (suc fuel) s tot len buf ≡ some (to_int tot, buf, s)
  unfolding readn_loop
  readn_loop-full full = let stop : ltb tot len ≡ false = ground arith in rw (readn_loop, stop)

abbrev result : {S : Type 0} → ℤ → List ℕ → S → Option (ℤ × List ℕ × S)
result ret buf s = some (ret, buf, s)

stopped :
    {S : Type 0} (tot : ℕ) (buf : List ℕ) (s : S)
    → tot < 2 ^ 31
    → result (to_int tot) buf s ≡ result (pos (tot + 0)) (buf ++ []) s
stopped tot buf s h =
    let zero' : tot + 0 ≡ tot = omega arith in rw (to_int_small tot h, append-nil buf, zero')

joined :
    {S : Type 0} (tot : ℕ) (buf xs ys : List ℕ) (s : S)
    → result (pos (tot + length xs + length ys)) (buf ++ xs ++ ys) s
      ≡ result (pos (tot + length (xs ++ ys))) (buf ++ (xs ++ ys)) s
joined tot buf xs ys s =
    let sum : tot + length xs + length ys ≡ tot + length (xs ++ ys) =
      omega (arith, length-append xs ys) in
    rw (sum, append_assoc buf xs ys)

pub empty_of_length : (xs : List ℕ) → length xs ≡ 0 → xs ≡ []
empty_of_length [] h = refl
empty_of_length (x ∷ xs) h = absurd (omega arith)

readn_loop_lem :
    {S : Type 0} {read : S → ℕ → Reply × S} (src : Source read) (fuel : ℕ) (s : S) (tot len : ℕ)
    (buf : List ℕ)
    → tot ≤ len
    → len < 2 ^ 31
    → src.patience s + (len - tot) < fuel
    → (bytes : List ℕ) × (s' : S) × (readn_loop read fuel s tot len buf
        ≡ some (pos (tot + length bytes), buf ++ bytes, s'))
      × Delivers src s (len - tot) bytes s'
unfolding readn_loop
readn_loop_lem src zero s tot len buf small fits enough = absurd (omega arith)
readn_loop_lem {read} src (suc fuel) s tot len buf small fits enough =
    elim (Bool-cases (ltb tot len)) [
      | inl more ↦ elim (src.served s (len - tot) (ground arith)) [
        | inl (s', e, same, less) ↦
            let (bytes, s2, run, d) =
              readn_loop_lem src fuel s' tot len buf small fits (omega arith) in
            (
              bytes,
              s2,
              readn_loop-interrupted read fuel s s' tot len buf (ground arith) e ∙ run,
              record {
                front = same ∙ d.front;
                few = d.few;
                at_end = d.at_end;
                patience = omega (arith, d.patience);
              },
            )
        | inr (bs, s', e, front, few, at_end, less) ↦ elim (Bool-cases (length bs == 0)) [
          | inl none' ↦ (
            [],
            s',
            readn_loop-at_end read fuel s s' tot len buf bs (ground arith) e (ground arith)
                ∙ stopped tot buf s' (omega arith),
            record {
              front = front ∙ ap (λ ys. ys ++ src.pending s') (empty_of_length bs (ground arith));
              few = omega arith;
              at_end = λ h. at_end (ground arith);
              patience = less;
            },
          )
          | inr some' ↦
              let (bytes, s2, run, d) =
                readn_loop_lem src fuel s' (tot + length bs) len (buf ++ bs) (ground arith) fits
                  (ground arith) in
              (
                bs ++ bytes,
                s2,
                readn_loop-got read fuel s s' tot len buf bs (ground arith) e (ground arith)
                    ∙ run
                    ∙ joined tot buf bs bytes s2,
                record {
                  front =
                      front
                      ∙ ap (λ ys. bs ++ ys) d.front
                      ∙ sym (append_assoc bs bytes (src.pending s2));
                  few = omega (arith, length-append bs bytes, d.few, few);
                  at_end = λ h. d.at_end (omega (arith, length-append bs bytes));
                  patience = omega (arith, d.patience, less);
                },
              )
        ]
      ]
      | inr full ↦ (
        [],
        s,
        readn_loop-full read fuel s s tot len buf (ground arith) ∙ stopped tot buf s (omega arith),
        record {
          front = refl;
          few = omega arith;
          at_end = λ h. absurd (ground arith);
          patience = omega arith;
        },
      )
    ]

-- For a buffer of less than 2 GiB and with fuel for the interruptions and the bytes, `readn` ends:
-- it stores the next `len` bytes of the stream in order, or all that are left if these are fewer,
-- returns their number, and takes no byte more from the stream.
pub readn-Delivers :
    {S : Type 0} {read : S → ℕ → Reply × S} (src : Source read) (fuel : ℕ) (s : S) (len : ℕ)
    → len < 2 ^ 31
    → src.patience s + len < fuel
    → (bytes : List ℕ) × (s' : S) × (readn read fuel s len ≡ some (pos (length bytes), bytes, s'))
      × Delivers src s len bytes s'
unfolding readn
readn-Delivers src fuel s len fits enough =
    let whole : len - 0 ≡ len = omega arith in
    let (bytes, s', run, d) = readn_loop_lem src fuel s 0 len [] (omega arith) fits (omega arith) in
    let none_before : 0 + length bytes ≡ length bytes = omega arith in
    (
      bytes,
      s',
      run ∙ ap (λ n. result (pos n) bytes s') none_before,
      record {
        front = d.front;
        few = omega (arith, d.few);
        at_end = λ h. d.at_end (omega arith);
        patience = d.patience;
      },
    )

append-split :
    (xs ys us vs : List ℕ) → length xs ≡ length us → xs ++ ys ≡ us ++ vs → (xs ≡ us) × (ys ≡ vs)
append-split [] ys [] vs same e = (refl, e)
append-split [] ys (u ∷ us) vs same e = absurd (omega arith)
append-split (x ∷ xs) ys [] vs same e = absurd (omega arith)
append-split (x ∷ xs) ys (u ∷ us) vs same e =
    let (front, back) = append-split xs ys us vs (omega arith) (ap tail e) in
    (ap₂ (λ a rest. a ∷ rest) (ap head e) front, back)
  where
    head : List ℕ → ℕ
    head zs = get_or zs 0 x

    tail : List ℕ → List ℕ
    tail zs = drop 1 zs

-- What a read delivers of a stream that begins with that many bytes.
pub Delivers-exact :
    {S : Type 0} {read : S → ℕ → Reply × S} {src : Source read} {s s' : S} {bytes : List ℕ}
    (xs rest : List ℕ)
    → Delivers src s (length xs) bytes s'
    → src.pending s ≡ xs ++ rest
    → (bytes ≡ xs) × (src.pending s' ≡ rest)
Delivers-exact {src} {s'} {bytes} xs rest d e = elim (Bool-cases (ltb (length bytes) (length xs))) [
  | inl short ↦
      let none_left : length (src.pending s') ≡ 0 = ap length (d.at_end (ground arith)) in
      let sizes : length (bytes ++ src.pending s') ≡ length (xs ++ rest) =
        ap length (sym d.front ∙ e) in
      absurd (
        ground
          (arith, none_left, sizes, length-append bytes (src.pending s'), length-append xs rest))
  | inr full ↦ append-split bytes (src.pending s') xs rest (ground (arith, d.few)) (sym d.front ∙ e)
]
