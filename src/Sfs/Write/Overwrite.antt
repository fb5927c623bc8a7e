-- ===== src/Sfs/Write/Overwrite.antt =====
-- The bytes of a file once sfs_write of asst3/assignment3/src/sfs.c has written its buffer back.
use cs.Base.{
  ◌^◌, ℕ, suc, ◌+◌, ◌-◌, ◌*◌, ◌/◌, ◌%◌, ◌≤◌, ◌<◌, ◌≡◌, refl, ap, subst, sym, ◌∙◌, List, ◌++◌, pos,
  some, ltb, if◌then◌else◌, get_or, length, replicate, arith, Bool-cases, inl, inr, length-append,
  get_or-append_left, get_or-append_right, length-replicate, ltb→lt,
}
use cs.Sfs.State.{Inode, Store}
use cs.Sfs.Block.{Disk, IsReliable, block_read, block_size, length-block_read, block_read-old}
use cs.Sfs.Index.{index_of, get_block_index-pos}
use cs.Sfs.Short.{to_int-small}
use cs.Sfs.Span.{spanned, spanned_lem}
use cs.Sfs.Read.Content.{file_byte}
use cs.Sfs.Write.{set_size, copy_in, write_back, load_first, store_range}
use cs.Sfs.Write.Apart.{IsApart}
use cs.Sfs.Write.Content.{within, write_back-IsStored, short-pos}
use cs.Sfs.Write.Buffer.{get_or-zeros, copy_in_lem, overwritten, overwritten_lem}

module _ (d : Disk) (ok : IsReliable d) where
  load_first_lem :
      (n start count : ℕ) (inode : Inode) (s : Store d.File)
      → IsApart d ok s.disk inode count
      → start < count
      → (buf : List ℕ) × (load_first d (suc n) start (inode, s) ≡ some buf)
        × (length buf ≡ suc n * block_size)
        × ((j : ℕ)
            → get_or buf j 0 ≡ (
                if ltb j block_size
                then file_byte d ok s.disk inode (start * block_size + j)
                else 0))
  unfolding load_first
  load_first_lem n start count inode s v lt =
      let (b, e, has) = v.present start lt in
      let zero_block : List ℕ = replicate block_size 0 in
      let first = (block_read d s.disk (pos b) zero_block).1 in
      let full : length first ≡ block_size = length-block_read d ok s.disk b zero_block has in
      let rest : List ℕ = replicate (n * block_size) 0 in
      (
        first ++ rest,
        rw (short-pos start (omega (arith, v.few)), get_block_index-pos d s.disk inode start, e)
            refl,
        omega (arith, length-append first rest, full, length-replicate {A = ℕ} (n * block_size) 0),
        λ j. elim (Bool-cases (ltb j block_size)) [
          | inl l ↦
              let small = ltb→lt j block_size l in
              let q : (start * block_size + j) / block_size ≡ start = omega arith in
              let p : (start * block_size + j) % block_size ≡ j = omega arith in
              rw (l, q, p, e)
                (get_or-append_left first rest j 0 (omega (arith, full))
                  ∙ ap (λ r. get_or r.1 j 0) (block_read-old d ok s.disk b zero_block d.junk has))
          | inr l ↦ rw l (
              get_or-append_right first rest j (j - block_size) 0 (ground (arith, full))
              ∙ get_or-zeros (n * block_size) (j - block_size))
        ],
      )

  -- What is left of a state of the store when bytes have been written: the bytes, and that the blocks of the
  -- file are as they were.
  pub record IsWritten (inode : Inode) (count offset : ℕ) (bytes : List ℕ) (s s' : Store d.File)
      : Type 0 where
    pub apart : IsApart d ok s'.disk inode count
    pub taken : s'.disk_blocks ≡ s.disk_blocks
    pub room : ok.size s'.disk ≡ ok.size s.disk
    pub places : (m : ℕ) → m < count → index_of d s'.disk inode m ≡ index_of d s.disk inode m
    pub content :
        (k : ℕ)
        → k < count * block_size
        → file_byte d ok s'.disk inode k ≡ overwritten offset bytes (file_byte d ok s.disk inode) k

  store_range-eq :
      (bytes first buf : List ℕ) (offset n rounds : ℕ) (inode : Inode) (s s' : Store d.File)
      → length bytes < 2 ^ 31
      → spanned offset (length bytes) ≡ rounds
      → load_first d rounds (offset / block_size) (inode, s) ≡ some first
      → copy_in (offset % block_size) bytes first ≡ some buf
      → write_back d rounds (offset / block_size) buf (inode, s) ≡ some s'
      → store_range d bytes offset n (inode, s)
        ≡ some (pos (length bytes), (set_size inode (pos (n + length bytes)), s'))
  unfolding store_range
  store_range-eq bytes first buf offset n rounds inode s s' short sp loads copies writes =
      rw (sp, loads, copies, writes, to_int-small (length bytes) short) refl

  pub store_range-IsWritten :
      (bytes : List ℕ) (offset n count rounds : ℕ) (inode : Inode) (s : Store d.File)
      → IsApart d ok s.disk inode count
      → 0 < length bytes
      → offset + length bytes ≤ count * block_size
      → (offset % 512 + length bytes + 511) / 512 ≡ suc rounds
      → (s' : Store d.File) × (store_range d bytes offset n (inode, s)
          ≡ some (pos (length bytes), (set_size inode (pos (n + length bytes)), s')))
        × IsWritten inode count offset bytes s s'
  store_range-IsWritten bytes offset n count rounds inode s v some_bytes h e =
      let start = offset / block_size in
      let sp : spanned offset (length bytes) ≡ suc rounds =
        spanned_lem offset (length bytes) (omega (arith, v.few)) ∙ e in
      let (first, loads, long, old) = load_first_lem rounds start count inode s v (omega arith) in
      let (buf, copies, full, new) =
        copy_in_lem (offset % block_size) bytes first (omega (arith, long)) in
      let (s', writes, r) =
        write_back-IsStored d ok (suc rounds) start count buf inode s v (omega arith)
          (omega (arith, long, full)) in
      (
        s',
        store_range-eq bytes first buf offset n (suc rounds) inode s s' (omega (arith, v.few, h)) sp
            loads copies writes,
        record {
          apart = r.apart;
          taken = r.taken;
          room = r.room;
          places = r.places;
          content = λ k hk.
              overwritten_lem offset k (file_byte d ok s'.disk inode k)
                (get_or buf (k - start * block_size) 0) (get_or first (k - start * block_size) 0)
                bytes (file_byte d ok s.disk inode) some_bytes
                (subst
                  (λ m. file_byte d ok s'.disk inode k ≡ (
                    if within start m k
                    then get_or buf (k - start * block_size) 0
                    else file_byte d ok s.disk inode k))
                  (sym e) (r.bytes k hk))
                (new (k - start * block_size)) (old (k - start * block_size));
        },
      )
