-- ===== src/Sockets.antt =====
-- sockapi/libsrc/etcp.c: the reading and writing of whole buffers and records over calls that may
-- be interrupted and may transfer less than asked for.
-- `read`, `write` and `recv` are arguments, functions of a state of the kernel. A loop that the
-- peer can keep going has fuel, one unit for each call; `none` is a loop that the fuel does not end.
pub mod Stream
pub mod Read
pub mod Write
pub mod Record
pub mod Connect
pub mod Text
pub mod Setup
mod Tests
use linux_programs.Common.{
  ℕ, zero, suc, ◌+◌, ◌-◌, ◌*◌, ◌/◌, ◌%◌, ◌^◌, Bool, true, false, not, Option, none, some, List, [],
  ◌∷◌, ◌++◌, ltb, ◌==◌, if◌then◌else◌, length, drop,
}
use linux_programs.Common.Int.{ℤ, pos, negsuc, ltb_ℤ}

-- What `read` returns: bytes, none of them at the end of the stream, or -1 with or without EINTR.
pub data Reply : Type 0 where
  got : List ℕ → Reply
  interrupted failed : Reply

-- What `write` returns: how many bytes it took, or -1.
pub data Wrote : Type 0 where
  took : ℕ → Wrote
  interrupted failed : Wrote

-- The conversions of C between `size_t`, `int` and `u_int32_t`.
abbrev pub to_int : ℕ → ℤ
to_int n = let m = n % 2 ^ 32 in if ltb m (2 ^ 31) then pos m else negsuc (2 ^ 32 - 1 - m)

abbrev pub to_unsigned : (bits : ℕ) → ℤ → ℕ
to_unsigned bits (pos n) = n % 2 ^ bits
to_unsigned bits (negsuc n) = 2 ^ bits - 1 - n % 2 ^ bits

infixl 5 ◌>>=◌
abbrev pub ◌>>=◌ : {A B : Type 0} → Option A → (A → Option B) → Option B
none >>= f = none
some a >>= f = f a

-- The loop of `readn`, with what it has stored so far.
pub readn_loop :
    {S : Type 0}
    → (S → ℕ → Reply × S)
    → (fuel : ℕ) → S
    → (tot len : ℕ) → List ℕ
    → Option (ℤ × List ℕ × S)
readn_loop read zero s tot len buf = none
readn_loop read (suc fuel) s tot len buf = elim (ltb tot len) [
  | false ↦ some (to_int tot, buf, s)
  | true ↦
      let (reply, s') = read s (len - tot) in
      elim reply [
        | interrupted ↦ readn_loop read fuel s' tot len buf
        | failed ↦ some (negsuc 0, buf, s')
        | got bytes ↦ elim (length bytes == 0) [
          | true ↦ some (to_int tot, buf, s')
          | false ↦ readn_loop read fuel s' (tot + length bytes) len (buf ++ bytes)
        ]
      ]
]

-- The return value, the bytes stored from `buf` on, and the state behind.
pub readn :
    {S : Type 0} → (S → ℕ → Reply × S) → (fuel : ℕ) → S → (len : ℕ) → Option (ℤ × List ℕ × S)
unfolding readn_loop
readn read fuel s len = readn_loop read fuel s 0 len []

pub writen_loop :
    {S : Type 0}
    → (S → List ℕ → Wrote × S)
    → (fuel : ℕ) → S
    → (tot len : ℕ) → List ℕ
    → Option (ℤ × S)
writen_loop write zero s tot len buf = none
writen_loop write (suc fuel) s tot len buf = elim (ltb tot len) [
  | false ↦ some (to_int tot, s)
  | true ↦
      let (reply, s') = write s buf in
      elim reply [
        | interrupted ↦ writen_loop write fuel s' tot len buf
        | failed ↦ some (negsuc 0, s')
        | took n ↦ elim (n == 0) [
          | true ↦ some (negsuc 0, s')
          | false ↦ writen_loop write fuel s' (tot + n) len (drop n buf)
        ]
      ]
]

-- `writen` of a buffer with its whole length.
pub writen : {S : Type 0} → (S → List ℕ → Wrote × S) → (fuel : ℕ) → S → List ℕ → Option (ℤ × S)
unfolding writen_loop
writen write fuel s buf = writen_loop write fuel s 0 (length buf) buf

-- What `readvrec` returns, whether it sets `errno` to EMSGSIZE, and what its last `readn` stored.
pub record Received (S : Type 0) : Type 0 where
  pub ret : ℤ
  pub too_long : Bool
  pub stored : List ℕ
  pub state : S

-- `ntohl` of the four bytes as they came, the highest first.
abbrev pub ntohl : List ℕ → ℕ
ntohl [] = 0
ntohl (b ∷ bytes) = b * 2 ^ (8 * length bytes) + ntohl bytes

abbrev pub cut_short : ℤ → ℤ
cut_short rc = if ltb_ℤ rc (pos 0) then negsuc 0 else pos 0

-- The loop that discards a record for which there is no room, `rounds` times at most. The
-- subtraction is that of `u_int32_t`.
pub discard :
    {S : Type 0}
    → (S → ℕ → Reply × S)
    → (rounds fuel : ℕ) → S
    → (reclen len : ℕ) → Option (Received S)
unfolding readn
discard read zero fuel s reclen len = none
discard read (suc rounds) fuel s reclen len = elim (ltb 0 reclen) [
  | false ↦ some (record { ret = negsuc 0; too_long = true; stored = []; state = s })
  | true ↦ elim (readn read fuel s len) [
    | none ↦ none
    | some (rc, buf, s') ↦ elim (to_unsigned 64 rc == len) [
      | false ↦ some (record { ret = cut_short rc; too_long = false; stored = buf; state = s' })
      | true ↦
          let left = (reclen + 2 ^ 32 - len % 2 ^ 32) % 2 ^ 32 in
          discard read rounds fuel s' left (if ltb left len then left else len)
    ]
  ]
]

pub readvrec :
    {S : Type 0} → (S → ℕ → Reply × S) → (rounds fuel : ℕ) → S → (len : ℕ) → Option (Received S)
unfolding readn discard
readvrec read rounds fuel s len = do
  (rc, header, s1) ← readn read fuel s 4
  if not (to_unsigned 64 rc == 4)
      then some (record { ret = cut_short rc; too_long = false; stored = []; state = s1 })
      else (let reclen = ntohl header in
          if ltb len reclen then discard read rounds fuel s1 reclen len else (do
            (rc, buf, s2) ← readn read fuel s1 reclen
            some (record {
              ret = if to_unsigned 32 rc == reclen then rc else cut_short rc;
              too_long = false;
              stored = buf;
              state = s2;
            })))
