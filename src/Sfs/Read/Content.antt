-- ===== src/Sfs/Read/Content.antt =====
-- What sfs_read gives: the bytes of the file.
use cs.Base.{
  ℕ, zero, suc, ◌+◌, ◌-◌, ◌*◌, ◌/◌, ◌%◌, ◌^◌, ◌≤◌, ◌<◌, ◌≡◌, refl, ap, subst, sym, ◌∙◌, List, [],
  ◌++◌, ℤ, pos, negsuc, Option, some, true, false, ltb, leb, if◌then◌else◌, get_elem?, get_or, take,
  drop, length, arith, Bool-cases, inl, inr, length-append, length-take, length-drop,
  get_or-append_left, get_or-append_right, get_or-take, get_or-drop, length-replicate, ltb→lt,
}
use Prim.Native.Nat.{min}
use cs.Sfs.State.{Inode, FileEntry, Fs, max_link, max_file_blocks}
use cs.Sfs.Block.{
  Disk, IsReliable, block_read, block_size, HasBlock, length-block_read, block_negative,
}
use cs.Sfs.Index.{index_of, get_block_index-pos}
use cs.Sfs.Span.{spanned, spanned_lem}
use cs.Sfs.Short.{to_int-small}
use cs.Sfs.Read.{to_short, read_blocks, copy_out, read_range, read_inode, sfs_read}

module _ (d : Disk) (ok : IsReliable d) where
  -- Byte `k` of the file: in the block that get_block_index gives for it, at its place there.
  abbrev pub file_byte : d.File → Inode → ℕ → ℕ
  file_byte f inode k =
      get_or (block_read d f (index_of d f inode (k / block_size)) d.junk).1 (k % block_size) 0

  abbrev pub IsOnDisk : d.File → ℤ → Type 0
  IsOnDisk f (pos b) = HasBlock d ok f b
  IsOnDisk f (negsuc n) = Unit

  -- Each of the first `count` blocks of the file is missing or a block of the disk.
  abbrev pub IsMapped : d.File → Inode → ℕ → Type 0
  IsMapped f inode count = (m : ℕ) → m < count → IsOnDisk f (index_of d f inode m)

  length-read :
      (f : d.File) (b : ℤ) → IsOnDisk f b → length (block_read d f b d.junk).1 ≡ block_size
  length-read f (pos b) h = length-block_read d ok f b d.junk h
  length-read f (negsuc n) h =
      ap (λ r. length r.1) (block_negative d ok f n d.junk).0
      ∙ length-replicate {A = ℕ} block_size 0

  record Blocks (f : d.File) (inode : Inode) (start n : ℕ) : Type 0 where
    buf : List ℕ
    reads : read_blocks d f inode start n ≡ some buf
    long : length buf ≡ n * block_size
    bytes :
        (j : ℕ) → j < n * block_size → get_or buf j 0 ≡ file_byte f inode (start * block_size + j)

  more-Blocks :
      (f : d.File) (inode : Inode) (start n count : ℕ)
      → IsMapped f inode count
      → count ≤ max_file_blocks
      → start < count
      → Blocks f inode (start + 1) n
      → Blocks f inode start (suc n)
  unfolding read_blocks
  more-Blocks f inode start n count m hc h r = record {
    buf = here ++ r.buf;
    reads = rw (short, get_block_index-pos d f inode start, r.reads) refl;
    long = omega (arith, length-append here r.buf, r.long, full);
    bytes = λ j lt. elim (Bool-cases (ltb j block_size)) [
      | inl e ↦
          get_or-append_left here r.buf j 0 (omega (arith, ltb→lt j block_size e, full))
          ∙ front j (ltb→lt j block_size e)
      | inr e ↦
          let ge : block_size ≤ j = ground arith in
          get_or-append_right here r.buf j (j - block_size) 0 (omega (arith, full))
          ∙ r.bytes (j - block_size) (omega arith)
          ∙ ap (file_byte f inode) (omega arith)
    ];
  }
    where
      here : List ℕ
      here = (block_read d f (index_of d f inode start) d.junk).1

      full : length here ≡ block_size
      full = length-read f (index_of d f inode start) (m start h)

      short : to_short start ≡ pos start
      short = ground arith

      front :
          (j : ℕ) → j < block_size → get_or here j 0 ≡ file_byte f inode (start * block_size + j)
      front j lt =
          let q : (start * block_size + j) / block_size ≡ start = omega arith in
          let p : (start * block_size + j) % block_size ≡ j = omega arith in rw (q, p) refl

  all-Blocks :
      (f : d.File) (inode : Inode) (start n count : ℕ)
      → IsMapped f inode count
      → count ≤ max_file_blocks
      → start + n ≤ count
      → Blocks f inode start n
  unfolding read_blocks
  all-Blocks f inode start zero count m hc h = record {
    buf = [];
    reads = refl;
    long = refl;
    bytes = λ j lt. absurd (omega arith);
  }
  all-Blocks f inode start (suc n) count m hc h =
      more-Blocks f inode start n count m hc (omega arith)
        (all-Blocks f inode (start + 1) n count m hc (omega arith))

  -- The result of a read of `size` bytes at `offset` that lie inside the file.
  abbrev IsRead : d.File → Inode → ℕ → ℕ → Option (ℤ × List ℕ) → Type 0
  IsRead f inode size offset r =
      (bytes : List ℕ) × (r ≡ some (pos size, bytes))
      × (length bytes ≡ size)
      × ((j : ℕ) → j < size → get_or bytes j 0 ≡ file_byte f inode (offset + j))

  read_range-IsRead :
      (f : d.File) (inode : Inode) (size offset count : ℕ)
      → IsMapped f inode count
      → count ≤ max_file_blocks
      → offset + size ≤ count * block_size
      → IsRead f inode size offset (read_range d f inode size offset)
  unfolding read_range copy_out
  read_range-IsRead f inode size offset count m hc h =
      let n : spanned offset size ≡ (offset % 512 + size + 511) / 512 =
        spanned_lem offset size (omega arith) in
      let r =
        all-Blocks f inode (offset / block_size) (spanned offset size) count m hc (omega arith) in
      let inside : ltb (spanned offset size * block_size) (offset % block_size + size) ≡ false =
        ground arith in
      (
        take size (drop (offset % block_size) r.buf),
        rw (r.reads, inside, to_int-small size (omega arith)) refl,
        omega (
          arith,
          length-take size (drop (offset % block_size) r.buf),
          length-drop (offset % block_size) r.buf,
          r.long,
        ),
        λ j lt.
            get_or-take size (drop (offset % block_size) r.buf) j 0 lt
            ∙ get_or-drop (offset % block_size) r.buf j (offset % block_size + j) 0 refl
            ∙ r.bytes (offset % block_size + j) (omega arith)
            ∙ ap (file_byte f inode) (omega arith),
      )

  read_inode-IsRead :
      (f : d.File) (inode : Inode) (n size offset count : ℕ)
      → IsMapped f inode count
      → count ≤ max_file_blocks
      → offset + min size (n - offset) ≤ count * block_size
      → offset < n
      → size < 2 ^ 63
      → IsRead f inode (min size (n - offset)) offset (read_inode d f inode (pos n) size offset)
  unfolding read_inode
  read_inode-IsRead f inode n size offset count m hc h lt s =
      let a : leb n offset ≡ false = ground arith in
      let b : (if ltb n ((offset + size) % 2 ^ 64) then n - offset else size)
          ≡ min size (n - offset) =
        ground arith in
      rw (a, b) (read_range-IsRead f inode (min size (n - offset)) offset count m hc h)

  -- On a reliable disk, a read of less than 2^63 bytes through an open handle, at an offset inside
  -- the file, of bytes that lie in the first `count` blocks of the file, of which there are at most
  -- 1110, each missing or on the disk: it does not fault, returns the number of bytes asked for, or
  -- those up to the end of the file if they are fewer, and stores exactly the bytes of the file
  -- from that offset on, whatever blocks they lie in.
  pub sfs_read_lem :
      (s : Fs d.File) (e : FileEntry) (inode : Inode) (fh i n size offset count : ℕ)
      → fh < max_link
      → get_elem? s.open_files fh ≡ some e
      → e.st_ino ≡ pos i
      → get_elem? s.inode_table i ≡ some inode
      → inode.stat.st_size ≡ pos n
      → count ≤ max_file_blocks
      → offset + min size (n - offset) ≤ count * block_size
      → IsMapped s.store.disk inode count
      → offset < n
      → size < 2 ^ 63
      → (bytes : List ℕ) × (sfs_read d s size offset fh ≡ some (pos (min size (n - offset)), bytes))
        × (length bytes ≡ min size (n - offset))
        × ((j : ℕ)
            → j < min size (n - offset)
            → get_or bytes j 0 ≡ file_byte s.store.disk inode (offset + j))
  unfolding sfs_read
  sfs_read_lem s e inode fh i n size offset count hf he hi hn hs hc hm m lt hz =
      let a : ltb (max_link - 1) fh ≡ false = ground arith in
      rw (a, he, hi, hn)
        (subst
          (λ z.
            IsRead s.store.disk inode (min size (n - offset)) offset
              (read_inode d s.store.disk inode z size offset))
          (sym hs) (read_inode-IsRead s.store.disk inode n size offset count m hc hm lt hz))

  -- At or behind the end of a file a read stores nothing and returns -1, which is an error number,
  -- where a file's end is to be told by 0.
  pub sfs_read_end :
      (s : Fs d.File) (e : FileEntry) (inode : Inode) (fh i n size offset : ℕ)
      → fh < max_link
      → get_elem? s.open_files fh ≡ some e
      → e.st_ino ≡ pos i
      → get_elem? s.inode_table i ≡ some inode
      → inode.stat.st_size ≡ pos n
      → n ≤ offset
      → sfs_read d s size offset fh ≡ some (negsuc 0, [])
  unfolding sfs_read read_inode
  sfs_read_end s e inode fh i n size offset hf he hi hn hs le =
      let a : ltb (max_link - 1) fh ≡ false = ground arith in
      let b : leb n offset ≡ true = ground arith in rw (a, he, hi, hn, hs, b) refl
