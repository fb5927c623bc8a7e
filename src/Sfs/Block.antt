-- ===== src/Sfs/Block.antt =====
-- asst3/assignment3/src/block.c: the disk as blocks of a file. The file and the calls pread and
-- pwrite are the operating system's: a parameter, with the behaviour that their manual states for a
-- regular file as named hypotheses.
use cs.Base.{
  ap, ◌∙◌, ℕ, suc, ◌+◌, ◌-◌, ◌*◌, ◌≤◌, ◌≡◌, ◌⊎◌, ◌≢◌, List, ℤ, pos, negsuc, minus_one, is_pos,
  length, replicate, if◌then◌else◌, arith,
}

abbrev pub block_size : ℕ
block_size = 512

-- `pread f offset buf` and `pwrite f offset buf` of BLOCK_SIZE bytes: what the call returns, with the
-- buffer, or the file, afterwards. `junk` is what a buffer holds that nobody has written.
pub record Disk : Type 1 where
  pub File : Type 0
  pub pread : File → ℤ → List ℕ → ℤ × List ℕ
  pub pwrite : File → ℤ → List ℕ → ℤ × File
  pub junk : List ℕ

-- Inside the file a write is read back and leaves the rest and the size as they were, nothing can be
-- read from its end on, and a negative offset is an error without effect. Buffers have BLOCK_SIZE bytes.
pub record IsReliable (d : Disk) : Type 0 where
  pub size : d.File → ℕ
  pub length-junk : length d.junk ≡ block_size
  pub size-pwrite :
      (f : d.File) (o : ℕ) (b : List ℕ)
      → length b ≡ block_size
      → o + block_size ≤ size f
      → size (d.pwrite f (pos o) b).1 ≡ size f
  pub pread-pwrite_self :
      (f : d.File) (o : ℕ) (b old : List ℕ)
      → length b ≡ block_size
      → o + block_size ≤ size f
      → d.pread (d.pwrite f (pos o) b).1 (pos o) old ≡ (pos block_size, b)
  pub pread-pwrite_other :
      (f : d.File) (o p : ℕ) (b old : List ℕ)
      → length b ≡ block_size
      → o + block_size ≤ size f
      → p + block_size ≤ size f
      → (p + block_size ≤ o) ⊎ (o + block_size ≤ p)
      → d.pread (d.pwrite f (pos o) b).1 (pos p) old ≡ d.pread f (pos p) old
  pub pread-full :
      (f : d.File) (o : ℕ) (old : List ℕ)
      → o + block_size ≤ size f
      → ((d.pread f (pos o) old).0 ≡ pos block_size)
        × (length (d.pread f (pos o) old).1 ≡ block_size)
  pub pread-old :
      (f : d.File) (o : ℕ) (old older : List ℕ)
      → o + block_size ≤ size f
      → d.pread f (pos o) old ≡ d.pread f (pos o) older
  pub pread-end :
      (f : d.File) (o : ℕ) (old : List ℕ) → size f ≤ o → d.pread f (pos o) old ≡ (pos 0, old)
  pub pread-negative :
      (f : d.File) (n : ℕ) (old : List ℕ) → (d.pread f (negsuc n) old).0 ≡ minus_one
  pub pwrite-negative : (f : d.File) (n : ℕ) (b : List ℕ) → d.pwrite f (negsuc n) b ≡ (minus_one, f)

-- `block_num*BLOCK_SIZE`
abbrev pub offset_of : ℤ → ℤ
offset_of (pos n) = pos (n * block_size)
offset_of (negsuc n) = negsuc (suc n * block_size - 1)

abbrev pub zeros : List ℕ
zeros = replicate block_size 0

module _ (d : Disk) where
  -- The result with the buffer; where nothing was read the buffer is cleared.
  unfoldable pub block_read : d.File → ℤ → List ℕ → ℤ × List ℕ
  block_read f b buf =
      let (r, got) = d.pread f (offset_of b) buf in if is_pos r then (r, got) else (r, zeros)

  unfoldable pub block_write : d.File → ℤ → List ℕ → ℤ × d.File
  block_write f b buf = d.pwrite f (offset_of b) buf

module _ (d : Disk) (ok : IsReliable d) where
  -- The file has room for block `b`.
  abbrev pub HasBlock : d.File → ℕ → Type 0
  HasBlock f b = suc b * block_size ≤ ok.size f

  -- On a reliable disk that has the block, a whole block that has been written is read back,
  -- whatever the buffer held.
  pub block_read-write_self :
      (f : d.File) (b : ℕ) (buf old : List ℕ)
      → length buf ≡ block_size
      → HasBlock f b
      → block_read d (block_write d f (pos b) buf).1 (pos b) old ≡ (pos block_size, buf)
  unfolding block_read block_write
  block_read-write_self f b buf old l h =
      ground (arith, ok.pread-pwrite_self f (b * block_size) buf old)

  -- On a reliable disk that has both blocks, writing a whole block leaves the other as it was.
  pub block_read-write_other :
      (f : d.File) (b c : ℕ) (buf old : List ℕ)
      → length buf ≡ block_size
      → HasBlock f b
      → HasBlock f c
      → b ≢ c
      → block_read d (block_write d f (pos b) buf).1 (pos c) old ≡ block_read d f (pos c) old
  unfolding block_read block_write
  block_read-write_other f b c buf old l hb hc n =
      ground (arith, ok.pread-pwrite_other f (b * block_size) (c * block_size) buf old)

  pub HasBlock-write :
      (f : d.File) (b c : ℕ) (buf : List ℕ)
      → length buf ≡ block_size
      → HasBlock f b
      → HasBlock f c
      → HasBlock (block_write d f (pos b) buf).1 c
  unfolding block_write
  HasBlock-write f b c buf l hb hc =
      omega (arith, ok.size-pwrite f (b * block_size) buf l (omega arith))

  pub size-block_write :
      (f : d.File) (b : ℕ) (buf : List ℕ)
      → length buf ≡ block_size
      → HasBlock f b
      → ok.size (block_write d f (pos b) buf).1 ≡ ok.size f
  unfolding block_write
  size-block_write f b buf l h = ok.size-pwrite f (b * block_size) buf l (omega arith)

  pub length-block_read :
      (f : d.File) (b : ℕ) (old : List ℕ)
      → HasBlock f b
      → length (block_read d f (pos b) old).1 ≡ block_size
  unfolding block_read
  length-block_read f b old h = ground (arith, ok.pread-full f (b * block_size) old)

  -- From the end of the file on, a block reads as zeros.
  pub block_read-end :
      (f : d.File) (b : ℕ) (old : List ℕ)
      → ok.size f ≤ b * block_size
      → (block_read d f (pos b) old).1 ≡ zeros
  unfolding block_read
  block_read-end f b old h = ground (arith, ok.pread-end f (b * block_size) old)

  -- What the buffer held before does not matter.
  pub block_read-old :
      (f : d.File) (b : ℕ) (old older : List ℕ)
      → HasBlock f b
      → block_read d f (pos b) old ≡ block_read d f (pos b) older
  unfolding block_read
  block_read-old f b old older h = ground (arith, ok.pread-old f (b * block_size) old older)

  -- A negative block number reads as zeros, and writing there does nothing.
  pub block_negative :
      (f : d.File) (n : ℕ) (buf : List ℕ)
      → (block_read d f (negsuc n) buf ≡ (minus_one, zeros))
        × (block_write d f (negsuc n) buf ≡ (minus_one, f))
  unfolding block_read block_write
  block_negative f n buf =
      (ground (arith, ok.pread-negative f (suc n * block_size - 1) buf), ok.pwrite-negative f _ buf)

  -- Block `b` of the file can be read and written, and holds `buf`.
  abbrev pub Reads : d.File → ℕ → List ℕ → Type 0
  Reads f b buf =
      HasBlock f b
      × (length buf ≡ block_size)
      × ((old : List ℕ) → (block_read d f (pos b) old).1 ≡ buf)

  pub Reads-block_read :
      (f : d.File) (b : ℕ) (old : List ℕ) → HasBlock f b → Reads f b (block_read d f (pos b) old).1
  Reads-block_read f b old h =
      (h, length-block_read f b old h, λ older. ap (λ r. r.1) (block_read-old f b older old h))

  pub Reads-write_self :
      (f : d.File) (b : ℕ) (buf : List ℕ)
      → length buf ≡ block_size
      → HasBlock f b
      → Reads (block_write d f (pos b) buf).1 b buf
  Reads-write_self f b buf l h = (
    HasBlock-write f b b buf l h h,
    l,
    λ old. ap (λ r. r.1) (block_read-write_self f b buf old l h),
  )

  pub Reads-write_other :
      (f : d.File) (b c : ℕ) (buf x : List ℕ)
      → length x ≡ block_size
      → HasBlock f b
      → b ≢ c
      → Reads f c buf
      → Reads (block_write d f (pos b) x).1 c buf
  Reads-write_other f b c buf x l h n r = (
    HasBlock-write f b c x l h r.0,
    r.1,
    λ old. ap (λ r. r.1) (block_read-write_other f b c x old l h r.0 n) ∙ r.2 old,
  )
