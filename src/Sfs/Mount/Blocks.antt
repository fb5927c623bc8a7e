-- ===== src/Sfs/Mount/Blocks.antt =====
-- Buffers of several blocks that are written and read again.
use cs.Base.{
  ℕ, zero, suc, ◌+◌, ◌*◌, ◌≤◌, ◌<◌, ◌≡◌, refl, ap₂, subst, ◌∙◌, List, [], ◌∷◌, ◌++◌, pos, take,
  drop, length, length-take, length-drop, take-append-drop, arith,
}
use cs.Sfs.Block.{
  Disk, IsReliable, Reads, block_read, block_write, block_size, size-block_write, Reads-write_self,
  Reads-write_other,
}
use cs.Sfs.Mount.{write_blocks, read_blocks}

-- Block `j` of a buffer.
abbrev pub chunk : ℕ → List ℕ → List ℕ
chunk zero buf = take block_size buf
chunk (suc j) buf = chunk j (drop block_size buf)

module _ (d : Disk) (ok : IsReliable d) where
  pub size-write_blocks :
      (n b : ℕ) (buf : List ℕ) (f : d.File)
      → length buf ≡ n * block_size
      → (b + n) * block_size ≤ ok.size f
      → ok.size (write_blocks d n b buf f) ≡ ok.size f
  unfolding write_blocks
  size-write_blocks zero b buf f l h = refl
  size-write_blocks (suc n) b buf f l h =
      let w : ok.size (block_write d f (pos b) (take block_size buf)).1 ≡ ok.size f =
        size-block_write d ok f b (take block_size buf) (omega (arith, length-take block_size buf))
          (omega arith) in
      size-write_blocks n (b + 1) (drop block_size buf) _
        (omega (arith, length-drop block_size buf)) (omega arith)
      ∙ w

  -- A block in front of those that are written keeps what it holds.
  write_blocks-before :
      (n b c : ℕ) (buf x : List ℕ) (f : d.File)
      → length buf ≡ n * block_size
      → (b + n) * block_size ≤ ok.size f
      → c < b
      → Reads d ok f c x
      → Reads d ok (write_blocks d n b buf f) c x
  unfolding write_blocks
  write_blocks-before zero b c buf x f l h lt r = r
  write_blocks-before (suc n) b c buf x f l h lt r =
      let t : length (take block_size buf) ≡ block_size =
        omega (arith, length-take block_size buf) in
      let w : ok.size (block_write d f (pos b) (take block_size buf)).1 ≡ ok.size f =
        size-block_write d ok f b (take block_size buf) t (omega arith) in
      write_blocks-before n (b + 1) c (drop block_size buf) x _
        (omega (arith, length-drop block_size buf)) (omega arith) (omega arith)
        (Reads-write_other d ok f b c x (take block_size buf) t (omega arith)
          (λ e. omega (arith, e)) r)

  -- Every block that is written holds its part of the buffer.
  pub write_blocks-Reads :
      (n b j : ℕ) (buf : List ℕ) (f : d.File)
      → length buf ≡ n * block_size
      → (b + n) * block_size ≤ ok.size f
      → j < n
      → Reads d ok (write_blocks d n b buf f) (b + j) (chunk j buf)
  unfolding write_blocks
  write_blocks-Reads zero b j buf f l h lt = absurd (omega arith)
  write_blocks-Reads (suc n) b zero buf f l h lt =
      let t : length (take block_size buf) ≡ block_size =
        omega (arith, length-take block_size buf) in
      let w : ok.size (block_write d f (pos b) (take block_size buf)).1 ≡ ok.size f =
        size-block_write d ok f b (take block_size buf) t (omega arith) in
      write_blocks-before n (b + 1) (b + 0) (drop block_size buf) (take block_size buf) _
        (omega (arith, length-drop block_size buf)) (omega arith) (omega arith)
        (subst
          (λ c.
            Reads d ok (block_write d f (pos b) (take block_size buf)).1 c (take block_size buf))
          (omega arith) (Reads-write_self d ok f b (take block_size buf) t (omega arith)))
  write_blocks-Reads (suc n) b (suc j) buf f l h lt =
      let t : length (take block_size buf) ≡ block_size =
        omega (arith, length-take block_size buf) in
      let f' = (block_write d f (pos b) (take block_size buf)).1 in
      let w : ok.size f' ≡ ok.size f =
        size-block_write d ok f b (take block_size buf) t (omega arith) in
      subst
        (λ c.
          Reads d ok (write_blocks d n (b + 1) (drop block_size buf) f') c
            (chunk j (drop block_size buf)))
        (omega arith)
        (write_blocks-Reads n (b + 1) j (drop block_size buf) f'
          (omega (arith, length-drop block_size buf)) (omega arith) (omega arith))

  -- The blocks that hold the parts of a buffer read as the buffer.
  read_blocks-Reads :
      (n b : ℕ) (buf : List ℕ) (f : d.File)
      → length buf ≡ n * block_size
      → ((j : ℕ) → j < n → Reads d ok f (b + j) (chunk j buf))
      → read_blocks d n b f ≡ buf
  unfolding read_blocks
  read_blocks-Reads zero b [] f l h = refl
  read_blocks-Reads zero b (x ∷ buf) f l h = absurd (omega (arith, l))
  read_blocks-Reads (suc n) b buf f l h =
      ap₂ (λ x y. x ++ y)
        (subst (λ c. (block_read d f (pos c) d.junk).1 ≡ take block_size buf) (omega arith)
          ((h 0 (omega arith)).2 d.junk))
        (read_blocks-Reads n (b + 1) (drop block_size buf) f
          (omega (arith, length-drop block_size buf))
          (λ j lt.
            subst (λ c. Reads d ok f c (chunk j (drop block_size buf))) (omega arith)
              (h (suc j) (omega arith))))
      ∙ take-append-drop block_size buf

  pub read-write_blocks :
      (n b : ℕ) (buf : List ℕ) (f : d.File)
      → length buf ≡ n * block_size
      → (b + n) * block_size ≤ ok.size f
      → read_blocks d n b (write_blocks d n b buf f) ≡ buf
  read-write_blocks n b buf f l h =
      read_blocks-Reads n b buf (write_blocks d n b buf f) l
        (λ j lt. write_blocks-Reads n b j buf f l h lt)
