-- ===== src/Sockets/Text.antt =====
-- sockapi/libsrc/etcp.c: `readline`, which reads ahead into a buffer of its own.
-- A unit of fuel is one round of the loop.
use linux_programs.Common.{
  ℕ, zero, suc, ◌+◌, ◌-◌, ◌%◌, ◌^◌, ◌<◌, ◌≡◌, refl, sym, ap, ◌∙◌, inl, inr, arith, Bool, true,
  false, Bool-cases, Option, none, some, List, [], ◌∷◌, ◌++◌, ◌==◌, if◌then◌else◌, length,
}
use mathlib.Core.List.{append_assoc, append-nil}
use linux_programs.Common.Int.{ℤ, pos, negsuc}
use linux_programs.Sockets.{Reply, got, interrupted, failed}

-- What `readline` returns, whether it sets `errno` to EMSGSIZE, what it has stored from `bufptr` on, and
-- the state behind.
pub record Line (S : Type 0) : Type 0 where
  pub ret : ℤ
  pub too_long : Bool
  pub stored : List ℕ
  pub state : S

-- `--len` on `size_t`.
abbrev less_one : ℕ → ℕ
less_one len = (len + (2 ^ 64 - 1)) % 2 ^ 64

-- The loop of `readline`. `ahead` are the bytes of `b` from `bp` on: while it has any, there are
-- `cnt - 1` of them, and without them `--cnt <= 0`.
pub text_loop :
    {S : Type 0}
    → (S → ℕ → Reply × S)
    → (fuel : ℕ) → S
    → (len : ℕ) → (ahead stored : List ℕ) → Option (Line S)
text_loop recv zero s len ahead stored = none
text_loop recv (suc fuel) s len ahead stored = elim (less_one len == 0) [
  | true ↦ some (record { ret = negsuc 0; too_long = true; stored = stored; state = s })
  | false ↦ elim ahead [
    | c ∷ more ↦ elim (c == 10) [
      | true ↦ some (record {
        ret = pos (length stored + 1);
        too_long = false;
        stored = stored ++ (c ∷ 0 ∷ []);
        state = s;
      })
      | false ↦ text_loop recv fuel s (less_one len) more (stored ++ (c ∷ []))
    ]
    | [] ↦
        let (reply, s') = recv s 1500 in
        elim reply [
          | interrupted ↦ text_loop recv fuel s' len [] stored
          | failed ↦ some (record { ret = negsuc 0; too_long = false; stored = stored; state = s' })
          | got [] ↦ some (record { ret = pos 0; too_long = false; stored = stored; state = s' })
          | got (c ∷ more) ↦ elim (c == 10) [
            | true ↦ some (record {
              ret = pos (length stored + 1);
              too_long = false;
              stored = stored ++ (c ∷ 0 ∷ []);
              state = s';
            })
            | false ↦ text_loop recv fuel s' (less_one len) more (stored ++ (c ∷ []))
          ]
        ]
  ]
]

pub readline : {S : Type 0} → (S → ℕ → Reply × S) → (fuel : ℕ) → S → (len : ℕ) → Option (Line S)
unfolding text_loop
readline recv fuel s len = text_loop recv fuel s len [] []

-- No byte is a newline.
abbrev pub is_text : List ℕ → Bool
is_text [] = true
is_text (c ∷ line) = if c == 10 then false else is_text line

-- The line that `text_loop` returns.
abbrev whole : {S : Type 0} → List ℕ → S → Line S
whole line s = record {
  ret = pos (length line + 1);
  too_long = false;
  stored = line ++ (10 ∷ 0 ∷ []);
  state = s;
}

less_one_lem : (len : ℕ) → 0 < len → len < 2 ^ 64 → less_one len ≡ len - 1
less_one_lem len more fits = omega arith

-- While two bytes are left, the loop goes on.
more_room : (len : ℕ) → 1 < len → len < 2 ^ 64 → (less_one len == 0) ≡ false
more_room len more fits =
    let less : less_one len ≡ len - 1 = less_one_lem len (omega arith) fits in
    rw less (ground arith)

not_newline :
    (c : ℕ) (line : List ℕ)
    → is_text (c ∷ line) ≡ true
    → ((c == 10) ≡ false) × (is_text line ≡ true)
not_newline c line text = elim (Bool-cases (c == 10)) [
  | inl newline ↦ absurd (cc (newline, text))
  | inr other ↦ (other, sym (ap (λ (b : Bool). if b then false else is_text line) other) ∙ text)
]

module _ {S : Type 0} (recv : S → ℕ → Reply × S) where
  text_loop-ahead :
      (line rest : List ℕ) (fuel : ℕ) (s : S) (len : ℕ) (stored : List ℕ)
      → is_text line ≡ true
      → length line < fuel
      → length line + 1 < len
      → len < 2 ^ 64
      → text_loop recv fuel s len (line ++ (10 ∷ rest)) stored ≡ some (whole (stored ++ line) s)
  unfolding text_loop
  text_loop-ahead line rest zero s len stored text enough room fits = absurd (omega arith)
  text_loop-ahead [] rest (suc fuel) s len stored text enough room fits =
      rw (text_loop, more_room len (omega (arith, room)) fits)
        (ap (λ xs. some (whole xs s)) (sym (append-nil stored)))
  text_loop-ahead (c ∷ line) rest (suc fuel) s len stored text enough room fits =
      let (other, texts) = not_newline c line text in
      let less = less_one_lem len (omega (arith, room)) fits in
      rw (text_loop, more_room len (omega (arith, room)) fits, other)
        (text_loop-ahead line rest fuel s (less_one len) (stored ++ (c ∷ [])) texts
            (omega (arith, enough)) (omega (arith, room, less)) (omega (arith, fits, less))
          ∙ ap (λ xs. some (whole xs s)) (append_assoc stored (c ∷ []) line))

  -- A `recv` that gives bytes is the same as having read ahead.
  text_loop-recv :
      (bytes : List ℕ) (c fuel : ℕ) (s s' : S) (len : ℕ)
      → recv s 1500 ≡ (got (c ∷ bytes), s')
      → (less_one len == 0) ≡ false
      → text_loop recv (suc fuel) s len [] [] ≡ text_loop recv (suc fuel) s' len (c ∷ bytes) []
  unfolding text_loop
  text_loop-recv bytes c fuel s s' len came more =
      let reply : (recv s 1500).0 ≡ got (c ∷ bytes) = ap (λ (r : Reply × S). r.0) came in
      let behind : (recv s 1500).1 ≡ s' = ap (λ (r : Reply × S). r.1) came in
      let one_round : text_loop recv (suc fuel) s len [] []
          ≡ text_loop recv (suc fuel) (recv s 1500).1 len (c ∷ bytes) [] =
        rw (text_loop, more, reply) refl in
      one_round ∙ ap (λ s2. text_loop recv (suc fuel) s2 len (c ∷ bytes) []) behind

-- `readline` returns the first line of what one `recv` gives, when the buffer has room for it, with the
-- newline and a final 0, and the number of its bytes with the newline. What the `recv` gave behind the
-- line is in no result: the next call goes on behind it, and those bytes are lost.
pub readline-loses :
    {S : Type 0} (recv : S → ℕ → Reply × S) (fuel : ℕ) (s s' : S) (len : ℕ) (line rest : List ℕ)
    → recv s 1500 ≡ (got (line ++ (10 ∷ rest)), s')
    → is_text line ≡ true
    → length line < fuel
    → length line + 1 < len
    → len < 2 ^ 64
    → readline recv fuel s len
      ≡ some (record {
        ret = pos (length line + 1);
        too_long = false;
        stored = line ++ (10 ∷ 0 ∷ []);
        state = s';
      })
unfolding readline text_loop
readline-loses recv zero s s' len line rest came text enough room fits = absurd (omega arith)
readline-loses recv (suc fuel) s s' len [] rest came text enough room fits =
    text_loop-recv recv rest 10 fuel s s' len came (more_room len (omega arith) fits)
    ∙ text_loop-ahead recv [] rest (suc fuel) s' len [] text enough room fits
readline-loses recv (suc fuel) s s' len (c ∷ line) rest came text enough room fits =
    text_loop-recv recv (line ++ (10 ∷ rest)) c fuel s s' len came
      (more_room len (omega arith) fits)
    ∙ text_loop-ahead recv (c ∷ line) rest (suc fuel) s' len [] text enough room fits
