-- ===== src/Sockets/Record/TooLong.antt =====
-- `readvrec` discards a record for which there is no room, and does not end without any room.
use linux_programs.Common.{
  ℕ, zero, suc, ◌+◌, ◌-◌, ◌%◌, ◌^◌, ◌≤◌, ◌<◌, ◌≡◌, refl, sym, ap, ◌∙◌, inl, inr, arith, true, false,
  Bool-cases, none, some, List, [], ◌++◌, length, ltb, ◌==◌, if◌then◌else◌, take, drop, length-take,
  length-drop, take-append-drop,
}
use linux_programs.Common.Int.{pos, negsuc}
use linux_programs.Sockets.{Reply, readn_loop, readn, ntohl, discard, readvrec}
use linux_programs.Sockets.Stream.{Source}
use linux_programs.Sockets.Read.{Delivers, Delivers-exact, readn-Delivers, empty_of_length}
use mathlib.Core.Path.{subst}
use mathlib.Core.List.{append_assoc}
use linux_programs.Sockets.Record.{htonl, frame, ntohl-htonl, header, readvrec-long}

-- One round of the loop that discards a record.
discard-round :
    {S : Type 0} (read : S → ℕ → Reply × S) (rounds fuel : ℕ) (s s' : S) (reclen len : ℕ)
    (buf : List ℕ)
    → 0 < reclen
    → reclen < 2 ^ 32
    → len ≤ reclen
    → readn read fuel s len ≡ some (pos len, buf, s')
    → discard read (suc rounds) fuel s reclen len
      ≡ discard read rounds fuel s'
          (reclen - len)
          (if ltb (reclen - len) len then reclen - len else len)
unfolding discard
discard-round read rounds fuel s s' reclen len buf more fits small run =
    let go : ltb 0 reclen ≡ true = ground arith in
    let whole : (len % 2 ^ 64 == len) ≡ true = ground arith in
    let left : (reclen + 2 ^ 32 - len % 2 ^ 32) % 2 ^ 32 ≡ reclen - len = omega arith in
    rw (discard, go, run, whole, left)

read_some :
    {S : Type 0} {read : S → ℕ → Reply × S} (src : Source read) (fuel : ℕ) (s : S) (len : ℕ)
    (payload rest : List ℕ)
    → src.pending s ≡ payload ++ rest
    → len ≤ length payload
    → len < 2 ^ 31
    → src.patience s + len < fuel
    → (s' : S) × (readn read fuel s len ≡ some (pos len, take len payload, s'))
      × (src.pending s' ≡ drop len payload ++ rest)
      × (src.patience s' ≤ src.patience s)
read_some {read} src fuel s len payload rest e small fits enough =
    let cut : length (take len payload) ≡ len = omega (arith, length-take len payload) in
    let (bytes, s', run, d) = readn-Delivers src fuel s len fits enough in
    let whole : src.pending s ≡ take len payload ++ (drop len payload ++ rest) =
      e
      ∙ ap (λ ys. ys ++ rest) (sym (take-append-drop len payload))
      ∙ append_assoc (take len payload) (drop len payload) rest in
    let (same, left) =
      Delivers-exact (take len payload) (drop len payload ++ rest)
        (subst (λ n. Delivers src s n bytes s') (sym cut) d) whole in
    (
      s',
      run
          ∙ ap (λ bs. some (pos (length bs), bs, s')) same
          ∙ ap (λ n. some (pos n, take len payload, s')) cut,
      left,
      d.patience,
    )

discard_lem :
    {S : Type 0} {read : S → ℕ → Reply × S} (src : Source read) (rounds fuel : ℕ) (s : S)
    (reclen len : ℕ) (payload rest : List ℕ)
    → src.pending s ≡ payload ++ rest
    → length payload ≡ reclen
    → reclen < 2 ^ 32
    → len ≤ reclen
    → (0 < reclen → 0 < len)
    → len < 2 ^ 31
    → reclen < rounds
    → src.patience s + len < fuel
    → (s' : S) × (discard read rounds fuel s reclen len
        ≡ some (record { ret = negsuc 0; too_long = true; stored = []; state = s' }))
      × (src.pending s' ≡ rest)
unfolding discard
discard_lem src zero fuel s reclen len payload rest e size wide small some' fits bound enough =
    absurd (omega arith)
discard_lem {read} src (suc rounds) fuel s reclen len payload rest e size wide small some' fits
      bound enough =
    elim (Bool-cases (ltb 0 reclen)) [
      | inl more ↦
          let cut : length (take len payload) ≡ len = omega (arith, length-take len payload) in
          let (s1, run, next, less) =
            read_some src fuel s len payload rest e (ground arith) fits enough in
          let len' = if ltb (reclen - len) len then reclen - len else len in
          let (s2, run2, left) =
            discard_lem src rounds fuel s1 (reclen - len) len' (drop len payload) rest next
              (omega (arith, length-drop len payload)) (omega arith) (ground arith) (ground arith)
              (ground arith) (ground arith) (ground arith) in
          (
            s2,
            discard-round read rounds fuel s s1 reclen len (take len payload) (ground arith) wide
                  small run
                ∙ run2,
            left,
          )
      | inr over ↦
          let stop : ltb 0 reclen ≡ false = over in
          let none_left : payload ≡ [] = empty_of_length payload (ground arith) in
          (s, rw (discard, stop), e ∙ ap (λ ys. ys ++ rest) none_left)
    ]

-- For a record with more bytes than there is room, with room for one at least and fuel for the
-- interruptions and the bytes, `readvrec` ends: it returns -1 with EMSGSIZE, and has taken
-- exactly that record from the stream, so that the next call reads the next record.
pub readvrec-too_long :
    {S : Type 0} {read : S → ℕ → Reply × S} (src : Source read) (rounds fuel : ℕ) (s : S) (len : ℕ)
    (payload rest : List ℕ)
    → src.pending s ≡ frame payload ++ rest
    → 0 < len
    → len < length payload
    → len < 2 ^ 31
    → length payload < 2 ^ 32
    → length payload < rounds
    → src.patience s + 4 + len < fuel
    → (s' : S) × (readvrec read rounds fuel s len
        ≡ some (record { ret = negsuc 0; too_long = true; stored = []; state = s' }))
      × (src.pending s' ≡ rest)
readvrec-too_long {read} src rounds fuel s len payload rest e some' over fits wide bound enough =
    let n = length payload in
    let (s1, run, next, less) = header src fuel s payload rest e wide (omega arith) in
    let value : ntohl (htonl n) ≡ n = ntohl-htonl n wide in
    let (s2, run2, left) =
      discard_lem src rounds fuel s1 n len payload rest next refl wide (omega arith) (λ h. some')
        fits bound (omega arith) in
    (
      s2,
      readvrec-long read rounds fuel s s1 len (htonl n) run (omega (arith, value))
          ∙ ap (λ m. discard read rounds fuel s1 m len) value
          ∙ run2,
      left,
    )

discard-no_room :
    {S : Type 0} (read : S → ℕ → Reply × S) (rounds fuel : ℕ) (s : S) (reclen : ℕ)
    → 0 < reclen
    → reclen < 2 ^ 32
    → discard read rounds (suc fuel) s reclen 0 ≡ none
unfolding discard readn readn_loop
discard-no_room read zero fuel s reclen more wide = refl
discard-no_room read (suc rounds) fuel s reclen more wide =
    discard-round read rounds (suc fuel) s s reclen 0 [] more wide (omega arith) refl
    ∙ ap (λ m. discard read rounds (suc fuel) s m (if ltb m 0 then m else 0)) all_left
    ∙ ap (λ m. discard read rounds (suc fuel) s reclen m) still
    ∙ discard-no_room read rounds fuel s reclen more wide
  where
    all_left : reclen - 0 ≡ reclen
    all_left = omega arith

    still : (if ltb reclen 0 then reclen else 0) ≡ 0
    still = ground arith

-- With no room at all, `readvrec` of a framed record that is not empty never ends: it has read the
-- header, and then reads nothing again and again, whatever the number of rounds.
pub readvrec-no_room :
    {S : Type 0} {read : S → ℕ → Reply × S} (src : Source read) (rounds fuel : ℕ) (s : S)
    (payload rest : List ℕ)
    → src.pending s ≡ frame payload ++ rest
    → 0 < length payload
    → length payload < 2 ^ 32
    → src.patience s + 4 < fuel
    → readvrec read rounds fuel s 0 ≡ none
readvrec-no_room src rounds zero s payload rest e some' wide enough = absurd (omega arith)
readvrec-no_room {read} src rounds (suc fuel) s payload rest e some' wide enough =
    let n = length payload in
    let (s1, run, next, less) = header src (suc fuel) s payload rest e wide enough in
    let value : ntohl (htonl n) ≡ n = ntohl-htonl n wide in
    readvrec-long read rounds (suc fuel) s s1 0 (htonl n) run (omega (arith, value))
    ∙ ap (λ m. discard read rounds (suc fuel) s1 m 0) value
    ∙ discard-no_room read rounds fuel s1 n some' wide
