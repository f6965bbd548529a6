-- ===== src/Sockets/Record.antt =====
-- `readvrec` reads records that carry their length in front.
pub mod TooLong
use linux_programs.Common.{
  ℕ, zero, suc, ◌+◌, ◌-◌, ◌/◌, ◌%◌, ◌^◌, ◌≤◌, ◌<◌, ◌≡◌, refl, sym, ap, ◌∙◌, inl, inr, arith, true,
  false, Bool-cases, none, some, List, [], ◌∷◌, ◌++◌, length, ltb, ◌==◌, if◌then◌else◌, take, drop,
  length-take, length-drop, take-append-drop,
}
use linux_programs.Common.Int.{pos, negsuc}
use linux_programs.Sockets.{Reply, readn_loop, readn, ntohl, discard, readvrec}
use linux_programs.Sockets.Stream.{Source}
use linux_programs.Sockets.Read.{Delivers, Delivers-exact, readn-Delivers, empty_of_length}
use mathlib.Core.Path.{subst}
use mathlib.Core.List.{append_assoc}

-- The four bytes of a 32-bit number in network order.
abbrev pub htonl : ℕ → List ℕ
htonl n = n / 2 ^ 24 % 2 ^ 8 ∷ n / 2 ^ 16 % 2 ^ 8 ∷ n / 2 ^ 8 % 2 ^ 8 ∷ n % 2 ^ 8 ∷ []

-- A record as it is sent: its length and its bytes.
abbrev pub frame : List ℕ → List ℕ
frame payload = htonl (length payload) ++ payload

pub ntohl-htonl : (n : ℕ) → n < 2 ^ 32 → ntohl (htonl n) ≡ n
ntohl-htonl n h = omega arith

-- The header of a frame, read.
pub header :
    {S : Type 0} {read : S → ℕ → Reply × S} (src : Source read) (fuel : ℕ) (s : S)
    (payload rest : List ℕ)
    → src.pending s ≡ frame payload ++ rest
    → length payload < 2 ^ 32
    → src.patience s + 4 < fuel
    → (s' : S) × (readn read fuel s 4 ≡ some (pos 4, htonl (length payload), s'))
      × (src.pending s' ≡ payload ++ rest)
      × (src.patience s' ≤ src.patience s)
header src fuel s payload rest e fits enough =
    let n = length payload in
    let (bytes, s', run, d) = readn-Delivers src fuel s 4 (omega arith) enough in
    let (same, left) = Delivers-exact (htonl n) (payload ++ rest) d e in
    (s', run ∙ ap (λ bs. some (pos (length bs), bs, s')) same, left, d.patience)

module _ {S : Type 0} (read : S → ℕ → Reply × S) (rounds fuel : ℕ) (s s1 : S) (len : ℕ)
    (head : List ℕ) where
  readvrec-short :
      (s2 : S) (buf : List ℕ)
      → readn read fuel s 4 ≡ some (pos 4, head, s1)
      → ntohl head ≤ len
      → ntohl head < 2 ^ 31
      → readn read fuel s1 (ntohl head) ≡ some (pos (ntohl head), buf, s2)
      → readvrec read rounds fuel s len
        ≡ some (record { ret = pos (ntohl head); too_long = false; stored = buf; state = s2 })
  unfolding readvrec
  readvrec-short s2 buf run room fits run2 =
      let test : ltb len (ntohl head) ≡ false = ground arith in
      let same : (ntohl head % 2 ^ 32 == ntohl head) ≡ true = ground arith in
      rw (run, test, run2, same)

  pub readvrec-long :
      readn read fuel s 4 ≡ some (pos 4, head, s1)
      → len < ntohl head
      → readvrec read rounds fuel s len ≡ discard read rounds fuel s1 (ntohl head) len
  unfolding readvrec
  readvrec-long run over = let test : ltb len (ntohl head) ≡ true = ground arith in rw (run, test)

-- For room for the record and fuel for the interruptions and the bytes, `readvrec` ends: it stores
-- exactly the bytes of a framed record, returns their number, and leaves the stream behind the record.
pub readvrec-frame :
    {S : Type 0} {read : S → ℕ → Reply × S} (src : Source read) (rounds fuel : ℕ) (s : S) (len : ℕ)
    (payload rest : List ℕ)
    → src.pending s ≡ frame payload ++ rest
    → length payload ≤ len
    → len < 2 ^ 31
    → src.patience s + 4 + length payload < fuel
    → (s' : S) × (readvrec read rounds fuel s len
        ≡ some
            (record { ret = pos (length payload); too_long = false; stored = payload; state = s' }))
      × (src.pending s' ≡ rest)
readvrec-frame {S} {read} src rounds fuel s len payload rest e room fits enough =
    let n = length payload in
    let (s1, run, next, less) = header src fuel s payload rest e (omega arith) (omega arith) in
    let value : ntohl (htonl n) ≡ n = ntohl-htonl n (omega arith) in
    let (bytes, s2, run2, d) = readn-Delivers src fuel s1 n (omega arith) (omega arith) in
    let (same, left) = Delivers-exact payload rest d next in
    let second : readn read fuel s1 n ≡ some (pos n, payload, s2) =
      run2 ∙ ap (λ bs. some (pos (length bs), bs, s2)) same in
    (
      s2,
      subst
          (λ m.
            m ≤ len
            → m < 2 ^ 31
            → readn read fuel s1 m ≡ some (pos m, payload, s2)
            → readvrec read rounds fuel s len
              ≡ some (record { ret = pos m; too_long = false; stored = payload; state = s2 }))
          value (readvrec-short read rounds fuel s s1 len (htonl n) s2 payload run) room
          (omega arith) second,
      left,
    )
