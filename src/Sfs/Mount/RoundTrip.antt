-- ===== src/Sfs/Mount/RoundTrip.antt =====
-- What sfs_destroy stores sfs_init finds and loads.
use cs.Base.{
  ℕ, ◌+◌, ◌-◌, ◌*◌, ◌≤◌, ◌<◌, ◌≡◌, ◌≢◌, inl, inr, ap, subst, sym, ◌∙◌, List, ◌++◌, pos, some, ◌==◌,
  take, length, length-append, length-take, Bool-cases, arith,
}
use mathlib.Core.List.{append_assoc}
use cs.Sfs.State.{num_blocks}
use cs.Sfs.Block.{Disk, IsReliable, Reads, block_read, block_size, zeros, block_read-end}
use cs.Sfs.File.{Caller}
use cs.Sfs.Mount.{
  Layout, Mounted, key_val, reserve, reserve_blocks, image, read_as, dump, sfs_destroy, find_key,
  read_blocks, load, open_mount, sfs_init,
}
use cs.Sfs.Mount.Blocks.{chunk, size-write_blocks, write_blocks-Reads, read-write_blocks}
use cs.Sfs.Mount.Image.{
  IsLaidOut, take_exact, take-take, reserve_blocks-positive, take_past, length-image, with_disk,
  load-image, HasKey, find_key-finds,
}

module _ (d : Disk) (ok : IsReliable d) (l : Layout) where
  -- What sfs_destroy finds: the disk has 16 MB, with the tables in its last blocks, and the layout has
  -- room for them. Neither zeros nor a later block of the tables look like the key.
  pub record IsMounted (m : Mounted d.File) : Type 0 where
    pub laid_out : IsLaidOut l m
    pub key_size : l.key.size ≤ block_size
    pub room : reserve_blocks l < num_blocks
    pub no_zeros : ¬ HasKey d l zeros
    pub disk_size : ok.size m.fs.store.disk ≡ num_blocks * block_size
    pub at_end : m.system_block ≡ num_blocks - reserve_blocks l
    pub no_later : (j : ℕ) → 0 < j → j < reserve_blocks l → ¬ HasKey d l (chunk j (dump d l m))

  dump-image :
      (m : Mounted d.File)
      → IsLaidOut l m
      → (t : List ℕ) × (dump d l m ≡ image l m ++ t)
        × (length (dump d l m) ≡ reserve_blocks l * block_size)
  unfolding dump reserve_blocks
  dump-image m h =
      let e : length (image l m) ≡ reserve l = length-image l m h in
      let n : ℕ = reserve_blocks l * block_size in
      (
        take (n - length (image l m)) d.junk,
        take_past n (image l m) d.junk (omega (arith, e)),
        omega (
          arith,
          e,
          ok.length-junk,
          length-take n (image l m ++ d.junk),
          length-append (image l m) d.junk,
        ),
      )

  HasKey-image :
      (m : Mounted d.File) (t : List ℕ)
      → IsLaidOut l m
      → l.key.size ≤ block_size
      → HasKey d l (take block_size (image l m ++ t))
  unfolding read_as image
  HasKey-image m t h le =
      ap l.key.decode (
        take-take l.key.size block_size (image l m ++ t) le
        ∙ ap (take l.key.size) (append_assoc (l.key.encode key_val) _ t)
        ∙ take_exact l.key.size (l.key.encode key_val) _ h.key.0)
      ∙ h.key.1

  fits :
      (m : Mounted d.File)
      → IsMounted m
      → (m.system_block + reserve_blocks l) * block_size ≤ ok.size m.fs.store.disk
  fits m v = omega (arith, v.room, v.at_end, v.disk_size)

  destroyed-Reads :
      (m : Mounted d.File) (j : ℕ)
      → IsMounted m
      → j < reserve_blocks l
      → Reads d ok (sfs_destroy d l m) (m.system_block + j) (chunk j (dump d l m))
  unfolding sfs_destroy
  destroyed-Reads m j v lt =
      write_blocks-Reads d ok (reserve_blocks l) m.system_block j (dump d l m) m.fs.store.disk
        ((dump-image m v.laid_out).2) (fits m v) lt

  size-sfs_destroy :
      (m : Mounted d.File) → IsMounted m → ok.size (sfs_destroy d l m) ≡ num_blocks * block_size
  unfolding sfs_destroy
  size-sfs_destroy m v =
      size-write_blocks d ok (reserve_blocks l) m.system_block (dump d l m) m.fs.store.disk
        ((dump-image m v.laid_out).2) (fits m v)
      ∙ v.disk_size

  no_key_above :
      (m : Mounted d.File) (c : ℕ) (old : List ℕ)
      → IsMounted m
      → m.system_block < c
      → c ≤ num_blocks
      → ¬ HasKey d l (block_read d (sfs_destroy d l m) (pos c) old).1
  no_key_above m c old v lt le k = elim (Bool-cases (c == num_blocks)) [
    | inl e ↦
        let last : c ≡ num_blocks = ground arith in
        v.no_zeros (
          subst (HasKey d l)
            (block_read-end d ok (sfs_destroy d l m) c old
              (omega (arith, last, size-sfs_destroy m v)))
            k)
    | inr e ↦
        let inside : c ≢ num_blocks = ground arith in
        let j : ℕ = c - m.system_block in
        v.no_later j (omega arith) (omega (arith, v.at_end, inside)) (
          subst (HasKey d l) ((destroyed-Reads m j v (omega (arith, v.at_end, inside))).2 old) (
            subst (λ b. HasKey d l (block_read d (sfs_destroy d l m) (pos b) old).1) (omega arith)
              k))
  ]

  key_found :
      (m : Mounted d.File)
      → IsMounted m
      → find_key d l num_blocks (sfs_destroy d l m) d.junk ≡ some m.system_block
  key_found m v =
      let (t, e, len) = dump-image m v.laid_out in
      find_key-finds d l num_blocks m.system_block (sfs_destroy d l m) d.junk
        (omega (arith, v.room, v.at_end)) (omega (arith, v.at_end))
        (λ c old lt le. no_key_above m c old v lt le)
        (λ old.
          subst (λ b. HasKey d l (block_read d (sfs_destroy d l m) (pos b) old).1) (omega arith)
            (subst (HasKey d l) (sym ((destroyed-Reads m 0 v (reserve_blocks-positive l)).2 old)) (
              subst (λ x. HasKey d l (take block_size x)) (sym e)
                (HasKey-image m t v.laid_out v.key_size))))

  reloaded :
      (m : Mounted d.File)
      → IsMounted m
      → load d l m.system_block
          (read_blocks d (reserve_blocks l) m.system_block (sfs_destroy d l m))
          (sfs_destroy d l m)
        ≡ with_disk d l m m.system_block (sfs_destroy d l m)
  unfolding sfs_destroy
  reloaded m v =
      let (t, e, len) = dump-image m v.laid_out in
      ap (λ x. load d l m.system_block x (sfs_destroy d l m))
        (read-write_blocks d ok (reserve_blocks l) m.system_block (dump d l m) m.fs.store.disk len
            (fits m v)
          ∙ e)
      ∙ load-image d l m m.system_block t (sfs_destroy d l m) v.laid_out

  -- The tables that sfs_destroy stores, sfs_init finds and loads again, with the numbers of the root's
  -- inode and block, whatever else it is given: on a reliable disk of 16 MB, with a layout that has room
  -- for the tables and a key that neither zeros nor a later block of the stored tables look like.
  pub sfs_init-destroy :
      (c : Caller) (truncate : d.File → d.File) (m : Mounted d.File)
      → IsMounted m
      → sfs_init d l c truncate (sfs_destroy d l m)
        ≡ some (with_disk d l m m.system_block (sfs_destroy d l m))
  unfolding sfs_init open_mount
  sfs_init-destroy c truncate m v =
      ap (open_mount d l c truncate (sfs_destroy d l m)) (key_found m v) ∙ ap some (reloaded m v)
