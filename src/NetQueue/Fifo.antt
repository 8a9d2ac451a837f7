-- ===== src/NetQueue/Fifo.antt =====
-- What `CNetQueue` promises: a first-in first-out queue of messages, bounded by the bytes that they
-- take with their lengths.
use common_cc.Prelude.{ℕ, ◌+◌, ◌-◌, List, [], ◌∷◌, ◌++◌, ltb, leb, if◌then◌else◌, Bytes, length}
use common_cc.Prelude.Int.{ℤ, pos, negsuc}

-- The bytes that the messages take.
unfoldable pub size : List Bytes → ℕ
size [] = 0
size (m ∷ ms) = length m + 4 + size ms

-- One byte of the buffer always stays free.
unfoldable pub push : ℕ → List Bytes → Bytes → ℤ × List Bytes
push capacity ms m =
    if leb (capacity - size ms) (length m + 4) then (negsuc 0, ms) else (pos 0, ms ++ (m ∷ []))

-- The code, `*data_len`, the bytes handed out, and the messages left.
unfoldable pub pop : List Bytes → ℕ → ℕ → ℤ × ℕ × Bytes × List Bytes
pop [] buf_size data_len = (negsuc 0, 0, [], [])
pop (m ∷ ms) buf_size data_len =
    if ltb buf_size 4
    then (negsuc 1, data_len, [], m ∷ ms)
    else if ltb buf_size (length m + 4)
    then (negsuc 2, length m + 4, [], m ∷ ms)
    else (pos 0, length m, m, ms)
