-- ===== src/Sfs/Write/Grow.antt =====
-- How sfs_write gives a file more blocks, as far as its first ten, which the inode names itself.
use cs.Base.{
  ℕ, zero, suc, ◌+◌, ◌*◌, ◌≤◌, ◌<◌, ◌≡◌, ◌≢◌, refl, ap, subst, sym, ◌∙◌, List, ℤ, pos, negsuc,
  minus_one, Option, some, Bool, true, false, ltb, ◌==◌, get_elem?, length, arith, Bool-cases, inl,
  inr, get_or-set_self, get_or-set_ne, length-set,
}
use cs.Sfs.State.{Inode, Store, allocd, free, max_file_blocks}
use cs.Sfs.Block.{Disk, IsReliable, block_size, HasBlock}
use cs.Sfs.Tables.{get_block}
use cs.Sfs.Tables.Count.{count_free, count_free-get_block}
use cs.Sfs.Tables.Alloc.{length-get_block}
use cs.Sfs.Index.{entry, set_entry, index_of, set_block_index}
use cs.Sfs.Index.Single.{IsUsed, HasBlock-covers}
use cs.Sfs.Read.Content.{IsOnDisk}
use cs.Sfs.Write.{Open, add_block, grow}
use cs.Sfs.Write.Apart.{IsApart}
use cs.Sfs.Write.Content.{short-pos}

module _ (d : Disk) (ok : IsReliable d) where
  -- A file whose first `count` blocks are apart, and whose blocks are all marked as taken in a table that the
  -- disk has room for.
  pub record IsGrowable (inode : Inode) (count : ℕ) (s : Store d.File) : Type 0 where
    pub apart : IsApart d ok s.disk inode count
    pub entries : length inode.blocks ≡ 12
    pub covers : length s.disk_blocks * block_size ≤ ok.size s.disk
    pub used :
        (m b : ℕ)
        → m < count
        → index_of d s.disk inode m ≡ pos b
        → get_elem? s.disk_blocks b ≡ some allocd
    pub single : IsUsed d ok s (entry inode 10)
    pub double : IsUsed d ok s (entry inode 11)

  pub index_of-direct :
      (f : d.File) (inode : Inode) (m : ℕ) → m < 10 → index_of d f inode m ≡ entry inode m
  unfolding index_of
  index_of-direct f inode m h = let a : ltb m 10 ≡ true = ground arith in rw a refl

  set_block_index-direct :
      (inode : Inode) (s : Store d.File) (m : ℕ) (z : ℤ)
      → m < 10
      → set_block_index d inode (pos m) z s ≡ some (set_entry inode m z, s)
  unfolding set_block_index
  set_block_index-direct inode s m z h = let a : ltb m 10 ≡ true = ground arith in rw a refl

  pub IsUsed-get_block :
      (s : Store d.File) (t : List ℕ) (i : ℕ) (z : ℤ)
      → get_elem? s.disk_blocks i ≡ some free
      → ((j : ℕ) → i ≢ j → get_elem? t j ≡ get_elem? s.disk_blocks j)
      → IsUsed d ok s z
      → IsUsed d ok (record s { disk_blocks = t }) z × (z ≢ pos i)
  IsUsed-get_block s t i (negsuc n) f o u = (tt, λ e. cc)
  IsUsed-get_block s t i (pos b) f o u =
      let ne : i ≢ b = λ e. absurd (ground (arith, e)) in (o b ne ∙ u, λ e. ground (arith, ne))

  -- One block more: block `i` of the disk, which was free.
  module _ (inode : Inode) (s : Store d.File) (count : ℕ) (v : IsGrowable inode count s)
      (small : count < 10) (i : ℕ) (t : List ℕ) (e : get_block s.disk_blocks ≡ some (pos i, t))
      (f : get_elem? s.disk_blocks i ≡ some free) (a : get_elem? t i ≡ some allocd)
      (o : (j : ℕ) → i ≢ j → get_elem? t j ≡ get_elem? s.disk_blocks j) where
    abbrev larger : Inode
    larger = add_block (set_entry inode count (pos i))

    index_of-new : index_of d s.disk larger count ≡ pos i
    index_of-new =
        index_of-direct s.disk larger count small
        ∙ get_or-set_self inode.blocks count (pos i) minus_one (omega (arith, v.entries))

    index_of-old : (m : ℕ) → m < count → index_of d s.disk larger m ≡ index_of d s.disk inode m
    index_of-old m h =
        index_of-direct s.disk larger m (omega arith)
        ∙ get_or-set_ne inode.blocks count m (pos i) minus_one (omega arith)
        ∙ sym (index_of-direct s.disk inode m (omega arith))

    entry-old : (m : ℕ) → 10 ≤ m → entry larger m ≡ entry inode m
    entry-old m h = get_or-set_ne inode.blocks count m (pos i) minus_one (omega arith)

    has : HasBlock d ok s.disk i
    has = HasBlock-covers d ok s i free v.covers f

    -- Which block of the file it is.
    which : (P : ℕ → Type 0) → ((m : ℕ) → m < count → P m) → P count → (m : ℕ) → m < suc count → P m
    which P old new m h = elim (Bool-cases (m == count)) [
      | inl q ↦ let p : count ≡ m = ground arith in subst P p new
      | inr q ↦ old m (ground arith)
    ]

    ne_new : (m : ℕ) → m < count → index_of d s.disk larger m ≢ pos i
    ne_new m h q = absurd (ground (arith, v.used m i h (sym (index_of-old m h) ∙ q), f))

    is_new : (b : ℕ) → index_of d s.disk larger count ≡ pos b → i ≡ b
    is_new b q = let r : pos i ≡ pos b = sym index_of-new ∙ q in ground arith

    larger-distinct :
        (m k b : ℕ)
        → m < suc count
        → k < suc count
        → index_of d s.disk larger m ≡ pos b
        → index_of d s.disk larger k ≡ pos b
        → m ≡ k
    larger-distinct m k b hm hk em ek = elim (Bool-cases (m == count)) [
      | inl x ↦ elim (Bool-cases (k == count)) [
        | inl y ↦ ground arith
        | inr y ↦ absurd (
            ne_new k (ground arith) (
              ek
              ∙ ap pos (
                  sym (
                    is_new b (subst (λ j. index_of d s.disk larger j ≡ pos b) (ground arith) em)))))
      ]
      | inr x ↦ elim (Bool-cases (k == count)) [
        | inl y ↦ absurd (
            ne_new m (ground arith) (
              em
              ∙ ap pos (
                  sym (
                    is_new b (subst (λ j. index_of d s.disk larger j ≡ pos b) (ground arith) ek)))))
        | inr y ↦
            let lm : m < count = ground arith in
            let lk : k < count = ground arith in
            v.apart.distinct m k b lm lk (sym (index_of-old m lm) ∙ em)
              (sym (index_of-old k lk) ∙ ek)
      ]
    ]

    -- An indirect block of the file is none of its data blocks, the new one included.
    larger-ne :
        (z : ℤ)
        → z ≢ pos i
        → ((m : ℕ) → m < count → (b : ℕ) → index_of d s.disk inode m ≡ pos b → z ≢ pos b)
        → (m : ℕ) → m < suc count
        → (b : ℕ) → index_of d s.disk larger m ≡ pos b
        → z ≢ pos b
    larger-ne z n old =
        which (λ m. (b : ℕ) → index_of d s.disk larger m ≡ pos b → z ≢ pos b)
          (λ m h b q. old m h b (sym (index_of-old m h) ∙ q))
          (λ b q x. n (x ∙ ap pos (sym (is_new b q))))

    pub larger-IsGrowable : IsGrowable larger (suc count) (record s { disk_blocks = t })
    larger-IsGrowable =
        let e10 = entry-old 10 (omega arith) in
        let e11 = entry-old 11 (omega arith) in
        let s1 : Store d.File = record s { disk_blocks = t } in
        let u10 = IsUsed-get_block s t i (entry inode 10) f o v.single in
        let u11 = IsUsed-get_block s t i (entry inode 11) f o v.double in
        record {
          apart = record {
            few = omega arith;
            present =
                which (λ m. (b : ℕ) × (index_of d s.disk larger m ≡ pos b) × HasBlock d ok s.disk b)
                  (λ m h. let (b, q, x) = v.apart.present m h in (b, index_of-old m h ∙ q, x))
                  (i, index_of-new, has);
            single = subst (IsOnDisk d ok s.disk) (sym e10) v.apart.single;
            double = subst (IsOnDisk d ok s.disk) (sym e11) v.apart.double;
            subs = λ j h. absurd (omega arith);
            distinct = larger-distinct;
            ne_single =
                subst
                  (λ z.
                    (m : ℕ)
                    → m < suc count
                    → (b : ℕ) → index_of d s.disk larger m ≡ pos b
                    → z ≢ pos b)
                  (sym e10) (larger-ne (entry inode 10) u10.1 v.apart.ne_single);
            ne_double =
                subst
                  (λ z.
                    (m : ℕ)
                    → m < suc count
                    → (b : ℕ) → index_of d s.disk larger m ≡ pos b
                    → z ≢ pos b)
                  (sym e11) (larger-ne (entry inode 11) u11.1 v.apart.ne_double);
            ne_subs = λ m j hm hj. absurd (omega arith);
          };
          entries = length-set inode.blocks count (pos i) ∙ v.entries;
          covers = omega (arith, v.covers, length-get_block s.disk_blocks t (pos i) e);
          used = λ m b h q.
              which
                (λ m. (b : ℕ) → index_of d s.disk larger m ≡ pos b → get_elem? t b ≡ some allocd)
                (λ m h b q.
                  (IsUsed-get_block s t i (pos b) f o
                    (v.used m b h (sym (index_of-old m h) ∙ q))).0)
                (λ b q. subst (λ j. get_elem? t j ≡ some allocd) (is_new b q) a) m h b q;
          single = subst (IsUsed d ok s1) (sym e10) u10.0;
          double = subst (IsUsed d ok s1) (sym e11) u11.0;
        }

  grow_step :
      (n count i : ℕ) (inode : Inode) (s : Store d.File) (t : List ℕ) (r : Option (Bool × Open d))
      → count < 10
      → get_block s.disk_blocks ≡ some (pos i, t)
      → grow d n
          (suc count)
          (add_block (set_entry inode count (pos i)), record s { disk_blocks = t })
        ≡ r
      → grow d (suc n) count (inode, s) ≡ r
  unfolding grow
  grow_step n count i inode s t r small e g =
      let a : ltb max_file_blocks count ≡ false = ground arith in
      let b : count + 1 ≡ suc count = omega arith in
      rw
        (
          e,
          a,
          short-pos count (omega arith),
          set_block_index-direct inode (record s { disk_blocks = t }) count (pos i) small,
          b,
        )
        g

  -- What grow gives: a file with `n` blocks more that keeps those it had, on the disk as it was.
  pub record IsGrown (inode : Inode) (s : Store d.File) (count n : ℕ) (inode' : Inode)
      (s' : Store d.File) : Type 0 where
    pub growable : IsGrowable inode' (n + count) s'
    pub disk : s'.disk ≡ s.disk
    pub old : (m : ℕ) → m < count → index_of d s.disk inode' m ≡ index_of d s.disk inode m
    pub size : inode'.stat.st_size ≡ inode.stat.st_size
    pub blocks : inode'.stat.st_blocks ≡ n + inode.stat.st_blocks
    pub free_left : count_free s.disk_blocks ≡ n + count_free s'.disk_blocks

  -- As long as the file has at most ten blocks then, and as many blocks are free as it gets.
  pub grow-IsGrown :
      (n count : ℕ) (inode : Inode) (s : Store d.File)
      → IsGrowable inode count s
      → n + count ≤ 10
      → n ≤ count_free s.disk_blocks
      → (inode' : Inode) × (s' : Store d.File) × (grow d n count (inode, s)
          ≡ some (true, (inode', s')))
        × IsGrown inode s count n inode' s'
  unfolding grow
  grow-IsGrown zero count inode s v h l = (
    inode,
    s,
    refl,
    record {
      growable = subst (λ c. IsGrowable inode c s) (omega arith) v;
      disk = refl;
      old = λ m h. refl;
      size = refl;
      blocks = omega arith;
      free_left = omega arith;
    },
  )
  grow-IsGrown (suc n) count inode s v h l =
      let (i, t, e, f, a, o, c) = count_free-get_block s.disk_blocks (omega arith) in
      let small : count < 10 = omega arith in
      let inode1 = larger inode s count v small i t e f a o in
      let s1 : Store d.File = record s { disk_blocks = t } in
      let (inode', s', g, r) =
        grow-IsGrown n (suc count) inode1 s1 (larger-IsGrowable inode s count v small i t e f a o)
          (omega arith) (omega (arith, c)) in
      (
        inode',
        s',
        grow_step n count i inode s t (some (true, (inode', s'))) small e g,
        record {
          growable = subst (λ k. IsGrowable inode' k s') (omega arith) r.growable;
          disk = r.disk;
          old = λ m hm. r.old m (omega arith) ∙ index_of-old inode s count v small i t e f a o m hm;
          size = r.size;
          blocks = omega (arith, r.blocks);
          free_left = omega (arith, r.free_left, c);
        },
      )
