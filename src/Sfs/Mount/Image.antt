-- ===== src/Sfs/Mount/Image.antt =====
-- The tables that sfs_destroy of asst3/assignment3/src/sfs.c stores, byte by byte, as sfs_init reads them.
use cs.Base.{
  ℕ, zero, suc, ◌+◌, ◌-◌, ◌≤◌, ◌<◌, ◌≡◌, refl, ◌≢◌, inl, inr, ap, subst, sym, ◌∙◌, List, [], ◌∷◌,
  ◌++◌, pos, some, true, false, ◌==◌, take, drop, length, length-append, Bool-cases, arith,
}
use mathlib.Core.List.{append_assoc}
use cs.Sfs.Block.{Disk, block_read}
use cs.Sfs.Mount.{
  Codec, Layout, Mounted, key_val, reserve, reserve_blocks, image, read_as, find_key, load,
}

-- The bytes of a value are as many as the type has, and are read as the value.
abbrev pub IsCoded : {A : Type 0} → Codec A → A → Type 0
IsCoded c a = (length (c.encode a) ≡ c.size) × (c.decode (c.encode a) ≡ a)

-- The layout has room for the values of the tables.
pub record IsLaidOut {F : Type 0} (l : Layout) (m : Mounted F) : Type 0 where
  pub key : IsCoded l.key key_val
  pub inode_table : IsCoded l.inode_table m.fs.inode_table
  pub name_table : IsCoded l.name_table m.fs.name_table
  pub disk_blocks : IsCoded l.disk_blocks m.fs.store.disk_blocks
  pub open_files : IsCoded l.open_files m.fs.open_files
  pub root_inode : IsCoded l.number m.root_inode
  pub root_block : IsCoded l.number m.root_block

pub take_exact : (n : ℕ) (xs t : List ℕ) → length xs ≡ n → take n (xs ++ t) ≡ xs
take_exact zero [] t h = refl
take_exact zero (x ∷ xs) t h = absurd (omega (arith, h))
take_exact (suc n) [] t h = absurd (omega (arith, h))
take_exact (suc n) (x ∷ xs) t h = ap (λ ys. x ∷ ys) (take_exact n xs t (omega (arith, h)))

drop_exact : (n : ℕ) (xs t : List ℕ) → length xs ≡ n → drop n (xs ++ t) ≡ t
drop_exact zero [] t h = refl
drop_exact zero (x ∷ xs) t h = absurd (omega (arith, h))
drop_exact (suc n) [] t h = absurd (omega (arith, h))
drop_exact (suc n) (x ∷ xs) t h = drop_exact n xs t (omega (arith, h))

pub take-take : (k n : ℕ) (xs : List ℕ) → k ≤ n → take k (take n xs) ≡ take k xs
take-take zero n xs h = refl
take-take (suc k) zero xs h = absurd (omega arith)
take-take (suc k) (suc n) [] h = refl
take-take (suc k) (suc n) (x ∷ xs) h = ap (λ ys. x ∷ ys) (take-take k n xs (omega arith))

pub reserve_blocks-positive : (l : Layout) → 0 < reserve_blocks l
unfolding reserve_blocks
reserve_blocks-positive l = omega arith

pub take_past :
    (n : ℕ) (xs t : List ℕ) → length xs ≤ n → take n (xs ++ t) ≡ xs ++ take (n - length xs) t
take_past n [] t h = ap (λ k. take k t) (omega arith)
take_past zero (x ∷ xs) t h = absurd (omega arith)
take_past (suc n) (x ∷ xs) t h =
    ap (λ ys. x ∷ ys) (take_past n xs t (omega arith))
    ∙ ap (λ k. (x ∷ xs) ++ take k t) (omega arith)

read_as-encode :
    {A : Type 0} (c : Codec A) (a : A) (t : List ℕ) → IsCoded c a → read_as c (c.encode a ++ t) ≡ a
unfolding read_as
read_as-encode c a t h = ap c.decode (take_exact c.size (c.encode a) t h.0) ∙ h.1

drop-encode :
    {A : Type 0} (c : Codec A) (a : A) (t : List ℕ)
    → IsCoded c a
    → drop c.size (c.encode a ++ t) ≡ t
drop-encode c a t h = drop_exact c.size (c.encode a) t h.0

length_part :
    {A : Type 0} (c : Codec A) (a : A) (t : List ℕ) (n : ℕ)
    → IsCoded c a
    → length t ≡ n
    → length (c.encode a ++ t) ≡ c.size + n
length_part c a t n h e = omega (arith, length-append (c.encode a) t, h.0)

pub length-image :
    {F : Type 0} (l : Layout) (m : Mounted F) → IsLaidOut l m → length (image l m) ≡ reserve l
unfolding image reserve
length-image l m h =
    length_part l.key key_val _ _ h.key (
      length_part l.inode_table m.fs.inode_table _ _ h.inode_table (
        length_part l.name_table m.fs.name_table _ _ h.name_table (
          length_part l.disk_blocks m.fs.store.disk_blocks _ _ h.disk_blocks (
            length_part l.open_files m.fs.open_files _ _ h.open_files
              (length_part l.number m.root_inode _ _ h.root_inode h.root_block.0)))))
    ∙ omega arith

-- The image and what follows, from the front.
image-append :
    {F : Type 0} (l : Layout) (m : Mounted F) (t : List ℕ)
    → image l m ++ t
      ≡ l.key.encode key_val
        ++ (l.inode_table.encode m.fs.inode_table
            ++ (l.name_table.encode m.fs.name_table
                ++ (l.disk_blocks.encode m.fs.store.disk_blocks
                    ++ (l.open_files.encode m.fs.open_files
                        ++ (l.number.encode m.root_inode ++ (l.number.encode m.root_block ++ t))))))
unfolding image
image-append l m t =
    append_assoc (l.key.encode key_val) _ t
    ∙ ap (λ x. l.key.encode key_val ++ x)
        (append_assoc (l.inode_table.encode m.fs.inode_table) _ t
          ∙ ap (λ x. l.inode_table.encode m.fs.inode_table ++ x)
              (append_assoc (l.name_table.encode m.fs.name_table) _ t
                ∙ ap (λ x. l.name_table.encode m.fs.name_table ++ x)
                    (append_assoc (l.disk_blocks.encode m.fs.store.disk_blocks) _ t
                      ∙ ap (λ x. l.disk_blocks.encode m.fs.store.disk_blocks ++ x)
                          (append_assoc (l.open_files.encode m.fs.open_files) _ t
                            ∙ ap (λ x. l.open_files.encode m.fs.open_files ++ x)
                                (append_assoc (l.number.encode m.root_inode)
                                  (l.number.encode m.root_block) t)))))

module _ (d : Disk) (l : Layout) where
  -- The same with another disk, whose key is in block `b`.
  abbrev pub with_disk : Mounted d.File → ℕ → d.File → Mounted d.File
  with_disk m b f = record m {
    fs = record (m.fs) { store = record (m.fs.store) { disk = f } };
    system_block = b;
  }

  pub load-image :
      (m : Mounted d.File) (b : ℕ) (t : List ℕ) (f : d.File)
      → IsLaidOut l m
      → load d l b (image l m ++ t) f ≡ with_disk m b f
  unfolding load
  load-image m b t f h =
      let t6 : List ℕ = l.number.encode m.root_block ++ t in
      let t5 : List ℕ = l.number.encode m.root_inode ++ t6 in
      let t4 : List ℕ = l.open_files.encode m.fs.open_files ++ t5 in
      let t3 : List ℕ = l.disk_blocks.encode m.fs.store.disk_blocks ++ t4 in
      let t2 : List ℕ = l.name_table.encode m.fs.name_table ++ t3 in
      let t1 : List ℕ = l.inode_table.encode m.fs.inode_table ++ t2 in
      rw
        (
          image-append l m t,
          drop-encode l.key key_val t1 h.key,
          read_as-encode l.inode_table m.fs.inode_table t2 h.inode_table,
          drop-encode l.inode_table m.fs.inode_table t2 h.inode_table,
          read_as-encode l.name_table m.fs.name_table t3 h.name_table,
          drop-encode l.name_table m.fs.name_table t3 h.name_table,
          read_as-encode l.disk_blocks m.fs.store.disk_blocks t4 h.disk_blocks,
          drop-encode l.disk_blocks m.fs.store.disk_blocks t4 h.disk_blocks,
          read_as-encode l.open_files m.fs.open_files t5 h.open_files,
          drop-encode l.open_files m.fs.open_files t5 h.open_files,
          read_as-encode l.number m.root_inode t6 h.root_inode,
          drop-encode l.number m.root_inode t6 h.root_inode,
          read_as-encode l.number m.root_block t h.root_block,
        )
        refl

  -- The buffer starts with the key.
  abbrev pub HasKey : List ℕ → Type 0
  HasKey buf = read_as l.key buf ≡ key_val

  pub find_key-finds :
      (n b : ℕ) (f : d.File) (buf : List ℕ)
      → 0 < b
      → b ≤ n
      → ((c : ℕ) (old : List ℕ) → b < c → c ≤ n → ¬ HasKey (block_read d f (pos c) old).1)
      → ((old : List ℕ) → HasKey (block_read d f (pos b) old).1)
      → find_key d l n f buf ≡ some b
  unfolding find_key
  find_key-finds zero b f buf p h above here = absurd (omega arith)
  find_key-finds (suc n) b f buf p h above here =
      let buf' = (block_read d f (pos (suc n)) buf).1 in
      elim (Bool-cases (b == suc n)) [
        | inl e ↦
            let same : b ≡ suc n = ground arith in
            let yes : (read_as l.key buf' == key_val) ≡ true =
              ground (arith, subst (λ c. HasKey (block_read d f (pos c) buf).1) same (here buf)) in
            rw (find_key, yes) (ap some (sym same))
        | inr e ↦
            let other : b ≢ suc n = ground arith in
            let no_key : (read_as l.key buf' == key_val) ≡ false =
              ground (arith, above (suc n) buf (omega (arith, other)) (omega arith)) in
            rw (find_key, no_key)
              (find_key-finds n b f buf' p (omega (arith, other))
                (λ c old lt le. above c old lt (omega arith)) here)
      ]
