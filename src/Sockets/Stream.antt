-- ===== src/Sockets/Stream.antt =====
-- What the loops of the socket library rely on of `read` and `write`, as interfaces.
-- A stream has bytes that were not delivered yet, and a peer whose signals interrupt calls, but not
-- for ever: `patience` bounds the interruptions that are still to come.
use linux_programs.Common.{ℕ, ◌≤◌, ◌<◌, ◌≡◌, ◌⊎◌, List, [], ◌++◌, length}
use linux_programs.Sockets.{Reply, got, Wrote, took}

-- `read` for a positive length is interrupted, or returns some of the pending bytes, as many as
-- asked for at most, and none only at the end of the stream.
pub record Source {S : Type 0} (read : S → ℕ → Reply × S) : Type 0 where
  pub pending : S → List ℕ
  pub patience : S → ℕ
  pub served :
      (s : S) (n : ℕ)
      → 0 < n
      → ((s' : S) × (read s n ≡ (Reply.interrupted, s'))
          × (pending s ≡ pending s')
          × (patience s' < patience s))
        ⊎ ((bytes : List ℕ) × (s' : S) × (read s n ≡ (got bytes, s'))
            × (pending s ≡ bytes ++ pending s')
            × (length bytes ≤ n)
            × (length bytes ≡ 0 → pending s' ≡ [])
            × (patience s' ≤ patience s))

-- `write` of a positive length is interrupted, or sends at least one byte from the front.
pub record Sink {S : Type 0} (write : S → List ℕ → Wrote × S) : Type 0 where
  pub sent : S → List ℕ
  pub patience : S → ℕ
  pub served :
      (s : S) (buf : List ℕ)
      → 0 < length buf
      → ((s' : S) × (write s buf ≡ (Wrote.interrupted, s'))
          × (sent s' ≡ sent s)
          × (patience s' < patience s))
        ⊎ ((front back : List ℕ) × (s' : S) × (write s buf ≡ (took (length front), s'))
            × (buf ≡ front ++ back)
            × (0 < length front)
            × (sent s' ≡ sent s ++ front)
            × (patience s' ≤ patience s))
