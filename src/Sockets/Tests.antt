-- ===== src/Sockets/Tests.antt =====
-- A stream that comes in pieces of one byte with one interruption, and the theorems at it.
use linux_programs.Common.{
  ℕ, zero, suc, ◌≤◌, ◌<◌, ◌≡◌, refl, ◌⊎◌, inl, inr, arith, true, false, none, some, List, [], ◌∷◌,
  ◌++◌, length,
}
use linux_programs.Common.Int.{pos, negsuc}
use linux_programs.Sockets.{Reply, got, Wrote, took, readn, writen, readvrec}
use linux_programs.Sockets.Stream.{Source, Sink}
use linux_programs.Sockets.Read.{Delivers, readn-Delivers}
use linux_programs.Sockets.Write.{Sends, writen-Sends}
use linux_programs.Sockets.Record.{frame, readvrec-frame}
use linux_programs.Sockets.Record.TooLong.{readvrec-too_long}
use linux_programs.Sockets.Text.{readline, readline-loses}
use linux_programs.Sockets.Connect.{Address, bound, bind_loop, inet_connect, inet_listen}
use linux_programs.Sockets.Connect.Leaks.{
  table, with_result, first_connected, inet_connect-first, inet_listen-leak,
}

-- The interruptions that are still to come, and the bytes.
abbrev Wire : Type 0
Wire = ℕ × List ℕ

abbrev read : Wire → ℕ → Reply × Wire
read (suc k, bytes) n = (Reply.interrupted, (k, bytes))
read (zero, []) n = (got [], (zero, []))
read (zero, b ∷ bytes) n = (got (b ∷ []), (zero, bytes))

-- A sink that takes one byte in a call.
abbrev write : Wire → List ℕ → Wrote × Wire
write (suc k, bytes) buf = (Wrote.interrupted, (k, bytes))
write (zero, bytes) [] = (took 0, (zero, bytes))
write (zero, bytes) (b ∷ buf) = (took 1, (zero, bytes ++ (b ∷ [])))

abbrev from_wire : Source read
from_wire = record { pending = λ w. w.1; patience = λ w. w.0; served = serve }
  where
    serve :
        (w : Wire) (n : ℕ)
        → 0 < n
        → ((w' : Wire) × (read w n ≡ (Reply.interrupted, w')) × (w.1 ≡ w'.1) × (w'.0 < w.0))
          ⊎ ((bytes : List ℕ) × (w' : Wire) × (read w n ≡ (got bytes, w'))
              × (w.1 ≡ bytes ++ w'.1)
              × (length bytes ≤ n)
              × (length bytes ≡ 0 → w'.1 ≡ [])
              × (w'.0 ≤ w.0))
    serve (suc k, bytes) n more = inl ((k, bytes), refl, refl, omega arith)
    serve (zero, []) n more = inr ([], (zero, []), refl, refl, omega arith, λ h. refl, omega arith)
    serve (zero, b ∷ bytes) n more =
        inr (b ∷ [], (zero, bytes), refl, refl, omega arith, λ h. absurd (omega arith), omega arith)

abbrev to_wire : Sink write
to_wire = record { sent = λ w. w.1; patience = λ w. w.0; served = serve }
  where
    serve :
        (w : Wire) (buf : List ℕ)
        → 0 < length buf
        → ((w' : Wire) × (write w buf ≡ (Wrote.interrupted, w')) × (w'.1 ≡ w.1) × (w'.0 < w.0))
          ⊎ ((front back : List ℕ) × (w' : Wire) × (write w buf ≡ (took (length front), w'))
              × (buf ≡ front ++ back)
              × (0 < length front)
              × (w'.1 ≡ w.1 ++ front)
              × (w'.0 ≤ w.0))
    serve (suc k, bytes) buf more = inl ((k, bytes), refl, refl, omega arith)
    serve (zero, bytes) [] more = absurd (omega arith)
    serve (zero, bytes) (b ∷ buf) more =
        inr (b ∷ [], buf, (zero, bytes ++ (b ∷ [])), refl, refl, omega arith, refl, omega arith)

abbrev wire : Wire
wire = (1, 5 ∷ 6 ∷ 7 ∷ [])

abbrev message : List ℕ
message = 8 ∷ 9 ∷ []

abbrev record_wire : Wire
record_wire = (1, frame message ++ (7 ∷ []))

readn_two : readn read 10 wire 2 ≡ some (pos 2, 5 ∷ 6 ∷ [], (0, 7 ∷ []))
unfolding readn
readn_two = refl

readvrec_frame :
    readvrec read 9 10 record_wire 4
    ≡ some (record { ret = pos 2; too_long = false; stored = message; state = (0, 7 ∷ []) })
unfolding readvrec
readvrec_frame = refl

readn-Delivers_example :
    (bytes : List ℕ) × (w : Wire) × (readn read 10 wire 2 ≡ some (pos (length bytes), bytes, w))
    × Delivers from_wire wire 2 bytes w
readn-Delivers_example = readn-Delivers from_wire 10 wire 2 (omega arith) (omega arith)

writen-Sends_example :
    (w : Wire) × (writen write 10 wire message ≡ some (pos 2, w)) × Sends to_wire wire message w
writen-Sends_example = writen-Sends to_wire 10 wire message (omega arith) (omega arith)

readvrec-frame_example :
    (w : Wire) × (readvrec read 9 10 record_wire 4
      ≡ some (record { ret = pos 2; too_long = false; stored = message; state = w }))
    × (w.1 ≡ 7 ∷ [])
readvrec-frame_example =
    readvrec-frame from_wire 9 10 record_wire 4 message (7 ∷ []) refl (omega arith) (omega arith)
      (omega arith)

readvrec-too_long_example :
    (w : Wire) × (readvrec read 9 10 record_wire 1
      ≡ some (record { ret = negsuc 0; too_long = true; stored = []; state = w }))
    × (w.1 ≡ 7 ∷ [])
readvrec-too_long_example =
    readvrec-too_long from_wire 9 10 record_wire 1 message (7 ∷ []) refl (omega arith) (omega arith)
      (omega arith) (omega arith) (omega arith) (omega arith)

abbrev refused : Address
refused = record {
  socket = some 4;
  connect_ok = false;
  setsockopt_ok = true;
  bind_ok = false;
  listen_ok = true;
  addrlen = 16;
}

abbrev deaf : Address
deaf = record {
  socket = some 5;
  connect_ok = true;
  setsockopt_ok = true;
  bind_ok = true;
  listen_ok = false;
  addrlen = 16;
}

inet_connect-first_example :
    ((inet_connect (some (refused ∷ deaf ∷ []))).0 ≡ first_connected (refused ∷ deaf ∷ []))
    × (table (3 ∷ []) (inet_connect (some (refused ∷ deaf ∷ []))).2
        ≡ with_result (inet_connect (some (refused ∷ deaf ∷ []))).0 (3 ∷ []))
inet_connect-first_example = inet_connect-first (refused ∷ deaf ∷ []) (3 ∷ [])

last_bound : (bind_loop true (refused ∷ deaf ∷ [])).0 ≡ bound 5 deaf
unfolding bind_loop
last_bound = refl

inet_listen-leak_example :
    ((inet_listen (some (refused ∷ deaf ∷ []))).0 ≡ none)
    × (table (3 ∷ []) (inet_listen (some (refused ∷ deaf ∷ []))).2 ≡ 5 ∷ 3 ∷ [])
inet_listen-leak_example = inet_listen-leak (refused ∷ deaf ∷ []) (3 ∷ []) last_bound refl

-- A connection that has two lines at once, and nothing after them.
abbrev two_lines : ℕ → ℕ → Reply × ℕ
two_lines zero n = (got (104 ∷ 105 ∷ 10 ∷ 111 ∷ 107 ∷ 10 ∷ []), 1)
two_lines (suc k) n = (got [], 1)

readline-loses_example :
    readline two_lines 3 0 80
    ≡ some (record { ret = pos 3; too_long = false; stored = 104 ∷ 105 ∷ 10 ∷ 0 ∷ []; state = 1 })
readline-loses_example =
    readline-loses two_lines 3 0 1 80 (104 ∷ 105 ∷ []) (111 ∷ 107 ∷ 10 ∷ []) refl refl (omega arith)
      (omega arith) (omega arith)
