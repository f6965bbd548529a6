-- ===== src/Poll/Tables/Tests.antt =====
-- The theorems on the tables, at small tables.
use linux_programs.Common.{ℕ, ◌-◌, ◌≤◌, ◌<◌, ◌≡◌, refl, true, none, some, List, ◌∷◌, replicate}
use linux_programs.Poll.{Connection, blank}
use linux_programs.Poll.Tables.{client, max_connections, reserve_conn, find_stale}
use linux_programs.Poll.Tables.Stale.{spare_time, find_stale-longest}

-- Two connections that have been idle, the second one for longer.
abbrev idle_clients : List Connection
idle_clients =
    blank
    ∷ blank
    ∷ record blank { in_use = true; idle_time = 3 }
    ∷ record blank { in_use = true; idle_time = 5 }
    ∷ replicate 6 blank

stale_is_three :
    find_stale (max_connections - reserve_conn) reserve_conn idle_clients none 0 ≡ some 3
unfolding find_stale blank
stale_is_three = refl

find_stale-longest_example :
    ((k : ℕ)
      → find_stale (max_connections - reserve_conn) reserve_conn idle_clients none 0 ≡ some k
      → (2 ≤ k)
        × (k < 10)
        × (0 < spare_time (client idle_clients k))
        × ((q : ℕ)
            → 2 ≤ q
            → q < 10
            → spare_time (client idle_clients q) ≤ spare_time (client idle_clients k)))
    × (find_stale (max_connections - reserve_conn) reserve_conn idle_clients none 0 ≡ none
        → (q : ℕ) → 2 ≤ q
        → q < 10
        → spare_time (client idle_clients q) ≡ 0)
find_stale-longest_example = find_stale-longest idle_clients
