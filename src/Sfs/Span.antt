-- ===== src/Sfs/Span.antt =====
-- How many blocks sfs_read and sfs_write touch: the common expression of lines 809 and 889, in
-- `size_t` arithmetic, then an `int`.
use cs.Base.{ℕ, ◌+◌, ◌-◌, ◌/◌, ◌%◌, ◌^◌, ◌<◌, ◌≡◌, ◌==◌, ltb, if◌then◌else◌, arith}

-- The bytes of the first block that lie behind its start, if it is a partial one.
abbrev pub first_part : ℕ → ℕ
first_part block_offset = if block_offset == 0 then 0 else 512 - block_offset

abbrev pub partial : ℕ → ℕ
partial n = if n == 0 then 0 else 1

-- A difference of `size_t` values wraps; an `int` above 2^31 is negative, and no block is touched.
unfoldable pub spanned : ℕ → ℕ → ℕ
spanned offset size =
    let blocks =
      (partial (offset % 512)
        + (size + 2 ^ 64 - first_part (offset % 512)) % 2 ^ 64 / 512
        + partial ((offset + size) % 2 ^ 64 % 512))
      % 2 ^ 32 in
    if ltb blocks (2 ^ 31) then blocks else 0

-- For every range of less than 2^38 bytes, the wrapped expression is the number of blocks that the
-- range reaches into from the start of its first block, also where the subtraction inside underflows.
pub spanned_lem :
    (offset size : ℕ)
    → offset + size < 2 ^ 38
    → spanned offset size ≡ (offset % 512 + size + 511) / 512
unfolding spanned
spanned_lem offset size h = ground arith
