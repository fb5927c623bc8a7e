-- ===== src/Sfs/Write/Apart.antt =====
-- Files of sfs.c whose blocks are kept apart: what a write of one data block leaves alone.
use cs.Base.{
  ℕ, ◌+◌, ◌-◌, ◌*◌, ◌/◌, ◌%◌, ◌≤◌, ◌<◌, ◌≡◌, ◌≢◌, refl, ap, subst, sym, ◌∙◌, List, ℤ, pos, negsuc,
  ltb, ◌==◌, if◌then◌else◌, get_or, length, arith, Bool-cases, inl, inr,
}
use cs.Sfs.State.{Inode, max_file_blocks}
use cs.Sfs.Block.{
  Disk, IsReliable, block_read, block_write, block_size, HasBlock, HasBlock-write,
  block_read-write_self, block_read-write_other, block_negative,
}
use cs.Sfs.Short.{get_short}
use cs.Sfs.Index.{entry, index_of}
use cs.Sfs.Read.Content.{file_byte, IsOnDisk, IsMapped}

module _ (d : Disk) (ok : IsReliable d) where
  -- Number `j` of those in the block that entry 11 names.
  abbrev pub sub_index : d.File → Inode → ℕ → ℤ
  sub_index f inode j = get_short (block_read d f (entry inode 11) d.junk).1 j

  -- The first `count` blocks of the file are on the disk, no two of them are one block of the disk, and none is
  -- an indirect block. The indirect blocks behind them are on the disk, or missing.
  pub record IsApart (f : d.File) (inode : Inode) (count : ℕ) : Type 0 where
    pub few : count ≤ max_file_blocks
    pub present : (m : ℕ) → m < count → (b : ℕ) × (index_of d f inode m ≡ pos b) × HasBlock d ok f b
    pub single : IsOnDisk d ok f (entry inode 10)
    pub double : IsOnDisk d ok f (entry inode 11)
    pub subs : (j : ℕ) → 110 + 100 * j < count → IsOnDisk d ok f (sub_index f inode j)
    pub distinct :
        (m k b : ℕ)
        → m < count
        → k < count
        → index_of d f inode m ≡ pos b
        → index_of d f inode k ≡ pos b
        → m ≡ k
    pub ne_single :
        (m : ℕ) → m < count → (b : ℕ) → index_of d f inode m ≡ pos b → entry inode 10 ≢ pos b
    pub ne_double :
        (m : ℕ) → m < count → (b : ℕ) → index_of d f inode m ≡ pos b → entry inode 11 ≢ pos b
    pub ne_subs :
        (m j : ℕ)
        → m < count
        → 110 + 100 * j < count
        → (b : ℕ) → index_of d f inode m ≡ pos b
        → sub_index f inode j ≢ pos b

  pub IsApart-IsMapped :
      (f : d.File) (inode : Inode) (count : ℕ) → IsApart f inode count → IsMapped d ok f inode count
  IsApart-IsMapped f inode count v m h =
      let (b, e, has) = v.present m h in subst (IsOnDisk d ok f) (sym e) has

  read-write_apart :
      (f : d.File) (c : ℕ) (buf old : List ℕ) (z : ℤ)
      → length buf ≡ block_size
      → HasBlock d ok f c
      → IsOnDisk d ok f z
      → z ≢ pos c
      → block_read d (block_write d f (pos c) buf).1 z old ≡ block_read d f z old
  read-write_apart f c buf old (pos b) l h o n =
      block_read-write_other d ok f c b buf old l h o (λ e. n (ap pos (sym e)))
  read-write_apart f c buf old (negsuc b) l h o n =
      (block_negative d ok (block_write d f (pos c) buf).1 b old).0
      ∙ sym (block_negative d ok f b old).0

  pub IsOnDisk-write :
      (f : d.File) (c : ℕ) (buf : List ℕ) (z : ℤ)
      → length buf ≡ block_size
      → HasBlock d ok f c
      → IsOnDisk d ok f z
      → IsOnDisk d ok (block_write d f (pos c) buf).1 z
  IsOnDisk-write f c buf (pos b) l h o = HasBlock-write d ok f c b buf l h o
  IsOnDisk-write f c buf (negsuc b) l h o = tt

  -- A write of a block that is no indirect block of the file leaves the numbers of its blocks.
  pub index_of-write_ne :
      (f : d.File) (inode : Inode) (c : ℕ) (buf : List ℕ) (n : ℕ)
      → length buf ≡ block_size
      → HasBlock d ok f c
      → IsOnDisk d ok f (entry inode 10)
      → entry inode 10 ≢ pos c
      → IsOnDisk d ok f (entry inode 11)
      → entry inode 11 ≢ pos c
      → (110 ≤ n
          → n < 1110
          → IsOnDisk d ok f (sub_index f inode ((n - 110) / 100))
            × (sub_index f inode ((n - 110) / 100) ≢ pos c))
      → index_of d (block_write d f (pos c) buf).1 inode n ≡ index_of d f inode n
  unfolding index_of
  index_of-write_ne f inode c buf n l has on10 ne10 on11 ne11 sub = elim (Bool-cases (ltb n 10)) [
    | inl a ↦ rw a refl
    | inr a ↦ elim (Bool-cases (ltb n 110)) [
      | inl b ↦ rw (a, b, read-write_apart f c buf d.junk (entry inode 10) l has on10 ne10) refl
      | inr b ↦ elim (Bool-cases (ltb n 1110)) [
        | inr e ↦ rw (a, b, e) refl
        | inl e ↦
            let x = sub (ground arith) (ground arith) in
            rw
              (
                a,
                b,
                e,
                read-write_apart f c buf d.junk (entry inode 11) l has on11 ne11,
                read-write_apart f c buf (block_read d f (entry inode 11) d.junk).1
                    (sub_index f inode ((n - 110) / 100)) l has x.0 x.1,
              )
              refl
      ]
    ]
  ]

  -- A write of the data block `c`, which is block `m` of the file.
  module _ (f : d.File) (inode : Inode) (count : ℕ) (v : IsApart f inode count) (m c : ℕ)
      (buf : List ℕ) (hm : m < count) (hc : index_of d f inode m ≡ pos c)
      (l : length buf ≡ block_size) where
    abbrev after : d.File
    after = (block_write d f (pos c) buf).1

    has : HasBlock d ok f c
    has = subst (IsOnDisk d ok f) hc (IsApart-IsMapped f inode count v m hm)

    sub_index-write : (j : ℕ) → sub_index after inode j ≡ sub_index f inode j
    sub_index-write j =
        ap (λ r. get_short r.1 j)
          (read-write_apart f c buf d.junk (entry inode 11) l has v.double (v.ne_double m hm c hc))

    pub index_of-write : (n : ℕ) → n < count → index_of d after inode n ≡ index_of d f inode n
    index_of-write n lt =
        index_of-write_ne f inode c buf n l has v.single (v.ne_single m hm c hc) v.double
          (v.ne_double m hm c hc)
          (λ lo hi. (
            v.subs ((n - 110) / 100) (omega arith),
            v.ne_subs m ((n - 110) / 100) hm (omega arith) c hc,
          ))

    pub IsApart-write : IsApart after inode count
    IsApart-write = record {
      few = v.few;
      present = λ n hn.
          let (b, e, h) = v.present n hn in
          (b, index_of-write n hn ∙ e, HasBlock-write d ok f c b buf l has h);
      single = IsOnDisk-write f c buf (entry inode 10) l has v.single;
      double = IsOnDisk-write f c buf (entry inode 11) l has v.double;
      subs = λ j h.
          subst (IsOnDisk d ok after) (sym (sub_index-write j))
            (IsOnDisk-write f c buf (sub_index f inode j) l has (v.subs j h));
      distinct = λ n k b hn hk en ek.
          v.distinct n k b hn hk (sym (index_of-write n hn) ∙ en) (sym (index_of-write k hk) ∙ ek);
      ne_single = λ n hn b en. v.ne_single n hn b (sym (index_of-write n hn) ∙ en);
      ne_double = λ n hn b en. v.ne_double n hn b (sym (index_of-write n hn) ∙ en);
      ne_subs = λ n j hn hj b en e.
          v.ne_subs n j hn hj b (sym (index_of-write n hn) ∙ en) (sym (sub_index-write j) ∙ e);
    }

    -- Block `m` of the file holds the buffer then, and every other one what it held.
    pub file_byte-write :
        (k : ℕ)
        → k < count * block_size
        → file_byte d ok after inode k ≡ (
            if k / block_size == m then get_or buf (k % block_size) 0 else file_byte d ok f inode k)
    file_byte-write k h = elim (Bool-cases (k / block_size == m)) [
      | inl e ↦
          let q : k / block_size ≡ m = ground arith in
          rw
            (
              e,
              index_of-write (k / block_size) (omega arith),
              q,
              hc,
              block_read-write_self d ok f c buf d.junk l has,
            )
            refl
      | inr e ↦
          let apart : index_of d f inode (k / block_size) ≢ pos c =
            λ x. absurd (ground (arith, v.distinct (k / block_size) m c (omega arith) hm x hc)) in
          rw
            (
              e,
              index_of-write (k / block_size) (omega arith),
              read-write_apart f c buf d.junk (index_of d f inode (k / block_size)) l has
                  (IsApart-IsMapped f inode count v (k / block_size) (omega arith)) apart,
            )
            refl
    ]
