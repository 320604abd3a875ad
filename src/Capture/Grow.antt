-- ===== src/Capture/Grow.antt =====
-- The growth of a buffer.
use wrk.Base.{
  ℕ, zero, suc, ◌+◌, ◌^◌, ◌≤◌, ◌<◌, ◌≡◌, refl, ap, ◌∙◌, length-append, ◌⊎◌, List, ◌++◌, arith, some,
  length, add64,
}
use wrk.Capture.{Buffer, grow, buffer_append}

grow_lem :
    (fuel need size : ℕ)
    → need < fuel + size
    → need + 1025 < 2 ^ 64
    → size < 2 ^ 64
    → (need < grow fuel need size)
      × (size ≤ grow fuel need size)
      × ((grow fuel need size ≡ size) ⊎ (grow fuel need size ≤ need + 1024))
unfolding grow
grow_lem zero need size h k l = omega arith
grow_lem (suc fuel) need size h k l = ground (arith, grow_lem fuel need (add64 size 1024))

-- The room for one more byte, which `buffer_append` leaves.
abbrev pub HasRoom : Buffer → Type 0
HasRoom b = length b.written < b.length

-- Appending adds the bytes behind those written, inside the allocation and with room for a NUL
-- behind them; the allocation never shrinks, and grows past what is needed by 1024 bytes at most.
pub append_lem :
    (b : Buffer) (bytes : List ℕ)
    → length b.written + length bytes + 1026 < 2 ^ 64
    → b.length < 2 ^ 64
    → (b' : Buffer) × (buffer_append b bytes ≡ some b')
      × (b'.written ≡ b.written ++ bytes)
      × (length b.written + length bytes + 1 < b'.length)
      × (b.length ≤ b'.length)
      × ((b'.length ≡ b.length) ⊎ (b'.length ≤ length b.written + length bytes + 1025))
unfolding buffer_append
append_lem b bytes small fits =
    let n : ℕ = add64 (add64 (length b.written) (length bytes)) 1 in
    let grown = grow_lem (suc n) n b.length (omega arith) (omega arith) fits in
    (
      record { length = grow (suc n) n b.length; written = b.written ++ bytes },
      ground (arith, grown),
      refl,
      omega arith,
      omega arith,
      ground arith,
    )

-- For texts of a plausible size, in the form that the callbacks use.
pub append-HasRoom :
    (b : Buffer) (bytes : List ℕ)
    → length b.written + length bytes ≤ 2 ^ 62
    → b.length < 2 ^ 63
    → (b' : Buffer) × (buffer_append b bytes ≡ some b')
      × (b'.written ≡ b.written ++ bytes)
      × HasRoom b'
      × (b'.length < 2 ^ 63)
append-HasRoom b bytes small fits =
    let (b', e, w, room, more, limit) = append_lem b bytes (omega arith) (omega arith) in
    let content : length b'.written ≡ length b.written + length bytes =
      ap length w ∙ length-append b.written bytes in
    (b', e, w, omega arith, omega arith)
