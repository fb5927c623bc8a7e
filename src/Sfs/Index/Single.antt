-- ===== src/Sfs/Index/Single.antt =====
-- The first indirect block: what set_block_index writes there get_block_index reads.
use cs.Base.{
  ◌==◌, subst, [], ◌∷◌, ◌^◌, ℕ, zero, suc, ◌-◌, ◌*◌, ◌/◌, ◌%◌, ◌≤◌, ◌<◌, ◌≡◌, refl, ◌≢◌, inl, inr,
  ◌∙◌, List, ℤ, pos, negsuc, minus_one, Option, none, some, length, get_elem?, arith, Bool-cases,
  get_or-set_self,
}
use cs.Sfs.State.{Inode, Store, allocd, free}
use cs.Sfs.Block.{
  Disk, IsReliable, block_size, block_read, block_write, HasBlock, Reads, Reads-write_self,
  Reads-write_other, length-block_read,
}
use cs.Sfs.Short.{IsShort, get_short, set_short, get-set_short, get-set_short_ne, length-set_short}
use cs.Sfs.Tables.{get_block}
use cs.Sfs.Tables.Alloc.{get_block_lem}
use cs.Sfs.Index.{clear_shorts, entry, set_entry, index_of, write_block, set_single}

pub length-clear_shorts : (n : ℕ) (buf : List ℕ) → length (clear_shorts n buf) ≡ length buf
unfolding clear_shorts
length-clear_shorts zero buf = refl
length-clear_shorts (suc n) buf =
    length-set_short (clear_shorts n buf) n minus_one ∙ length-clear_shorts n buf

pub get_elem?-lt {ℓ} :
    {A : Type ℓ} (xs : List A) (i : ℕ) (x : A) → get_elem? xs i ≡ some x → i < length xs
get_elem?-lt [] i x e = cc
get_elem?-lt (y ∷ xs) zero x e = omega arith
get_elem?-lt (y ∷ xs) (suc i) x e = omega (arith, get_elem?-lt xs i x e)

pub get-clear_shorts :
    (n : ℕ) (buf : List ℕ) (i : ℕ)
    → i < n
    → 2 * n ≤ length buf
    → get_short (clear_shorts n buf) i ≡ minus_one
unfolding clear_shorts
get-clear_shorts zero buf i h l = absurd (omega arith)
get-clear_shorts (suc n) buf i h l = elim (Bool-cases (n == i)) [
  | inl e ↦
      let p : n ≡ i = ground arith in
      rw (← p) (
        get-set_short (clear_shorts n buf) n minus_one (omega arith)
          (omega (arith, length-clear_shorts n buf)))
  | inr e ↦
      let q : n ≢ i = ground arith in
      get-set_short_ne (clear_shorts n buf) n i minus_one q
      ∙ get-clear_shorts n buf i (omega arith) (omega arith)
]

-- A block that get_block gives was free, and is taken afterwards.
pub get_block-some :
    (t t' : List ℕ) (b : ℤ)
    → get_block t ≡ some (b, t')
    → (i : ℕ) × (get_block t ≡ some (pos i, t'))
      × (get_elem? t i ≡ some free)
      × (get_elem? t' i ≡ some allocd)
get_block-some t t' b e = elim (get_block_lem t) [
  | inl (p, q) ↦ absurd (ground arith)
  | inr (i, t'', p, q, _, r, _) ↦ (i, ground arith, q, ground arith)
]

module _ (d : Disk) (ok : IsReliable d) where
  index_of-single :
      (f : d.File) (inode : Inode) (n b : ℕ) (buf : List ℕ)
      → 10 ≤ n
      → n < 110
      → entry inode 10 ≡ pos b
      → Reads d ok f b buf
      → index_of d f inode n ≡ get_short buf (n - 10)
  unfolding index_of
  index_of-single f inode n b buf lo hi e r = ground (arith, r.2 d.junk)

  pub index_of-double :
      (f : d.File) (inode : Inode) (n b c : ℕ) (buf sub : List ℕ)
      → 110 ≤ n
      → n < 1110
      → entry inode 11 ≡ pos b
      → Reads d ok f b buf
      → get_short buf ((n - 110) / 100) ≡ pos c
      → Reads d ok f c sub
      → index_of d f inode n ≡ get_short sub ((n - 110) % 100)
  unfolding index_of
  index_of-double f inode n b c buf sub lo hi e r g q = ground (arith, r.2 d.junk, q.2 buf)

  -- The entry names no block, or one that is in use.
  abbrev pub IsUsed : Store d.File → ℤ → Type 0
  IsUsed s (negsuc n) = Unit
  IsUsed s (pos b) = get_elem? s.disk_blocks b ≡ some allocd

  -- The disk has all blocks of the table, whose numbers are shorts, and what the inode links to as
  -- indirect blocks are blocks in use, the block of entry 11 not being one of those it names.
  pub record IsLinked (inode : Inode) (s : Store d.File) : Type 0 where
    pub entries : length inode.blocks ≡ 12
    pub covers : length s.disk_blocks * block_size ≤ ok.size s.disk
    pub shorts : length s.disk_blocks ≤ 2 ^ 15
    pub single : IsUsed s (entry inode 10)
    pub double : IsUsed s (entry inode 11)
    pub subs :
        (b j : ℕ)
        → entry inode 11 ≡ pos b
        → j < 10
        → IsUsed s (get_short (block_read d s.disk (pos b) d.junk).1 j)
          × (get_short (block_read d s.disk (pos b) d.junk).1 j ≢ pos b)

  -- The result, if there is one, has `index` for block `n` of the file.
  abbrev pub Gives : ℕ → ℤ → Option (Inode × Store d.File) → Type 0
  Gives n index none = Unit
  Gives n index (some (inode, s)) = index_of d s.disk inode n ≡ index

  pub HasBlock-covers :
      (s : Store d.File) (b x : ℕ)
      → length s.disk_blocks * block_size ≤ ok.size s.disk
      → get_elem? s.disk_blocks b ≡ some x
      → HasBlock d ok s.disk b
  HasBlock-covers s b x c e = omega (arith, get_elem?-lt s.disk_blocks b x e)

  -- The last step for the first indirect block, whose content is `buf`.
  finish_single :
      (inode : Inode) (s : Store d.File) (n b : ℕ) (buf : List ℕ) (index : ℤ)
      → 10 ≤ n
      → n < 110
      → IsShort index
      → entry inode 10 ≡ pos b
      → HasBlock d ok s.disk b
      → length buf ≡ block_size
      → Gives n index (some (inode, write_block d s (pos b) (set_short buf (n - 10) index)))
  finish_single inode s n b buf index lo hi sh e h l =
      index_of-single _ inode n b (set_short buf (n - 10) index) lo hi e (
        Reads-write_self d ok s.disk b (set_short buf (n - 10) index)
          (length-set_short buf (n - 10) index ∙ l) h)
      ∙ get-set_short buf (n - 10) index sh (omega arith)

  set_single-new :
      (inode : Inode) (s : Store d.File) (n m : ℕ) (index : ℤ)
      → IsLinked inode s
      → 10 ≤ n
      → n < 110
      → IsShort index
      → entry inode 10 ≡ negsuc m
      → (r : Option (ℤ × List ℕ)) → get_block s.disk_blocks ≡ r
      → Gives n index (set_single d inode n index s)
  unfolding set_single
  set_single-new inode s n m index v lo hi sh e none g = rw (e, g) tt
  set_single-new inode s n m index v lo hi sh e (some (b, t)) g =
      let (i, p, q, _) = get_block-some s.disk_blocks t b g in
      let h = HasBlock-covers s i free v.covers q in
      let old = (block_read d s.disk (pos i) d.junk).1 in
      rw (e, p)
        (finish_single (set_entry inode 10 (pos i)) (record s { disk_blocks = t }) n i
          (clear_shorts 100 old) index lo hi sh
          (get_or-set_self inode.blocks 10 (pos i) minus_one (omega (arith, v.entries))) h
          (length-clear_shorts 100 old ∙ length-block_read d ok s.disk i d.junk h))

  pub set_single-Gives :
      (inode : Inode) (s : Store d.File) (n : ℕ) (index : ℤ)
      → IsLinked inode s
      → 10 ≤ n
      → n < 110
      → IsShort index
      → (z : ℤ) → entry inode 10 ≡ z
      → Gives n index (set_single d inode n index s)
  unfolding set_single
  set_single-Gives inode s n index v lo hi sh (pos b) e =
      let u : IsUsed s (pos b) = subst (IsUsed s) e v.single in
      let h = HasBlock-covers s b allocd v.covers u in
      rw e (
        finish_single inode s n b (block_read d s.disk (pos b) d.junk).1 index lo hi sh e h
          (length-block_read d ok s.disk b d.junk h))
  set_single-Gives inode s n index v lo hi sh (negsuc m) e =
      set_single-new inode s n m index v lo hi sh e (get_block s.disk_blocks) refl

  -- The last step for the second range: `buf` is what block `l` of entry 11 holds, and `sub` what goes
  -- into the block `c` that it names.
  pub finish_double :
      (inode : Inode) (s : Store d.File) (n l c : ℕ) (buf sub : List ℕ) (index : ℤ)
      → 110 ≤ n
      → n < 1110
      → IsShort index
      → entry inode 11 ≡ pos l
      → Reads d ok s.disk l buf
      → get_short buf ((n - 110) / 100) ≡ pos c
      → c ≢ l
      → HasBlock d ok s.disk c
      → length sub ≡ block_size
      → Gives n index
          (some (inode, write_block d s (pos c) (set_short sub ((n - 110) % 100) index)))
  finish_double inode s n l c buf sub index lo hi sh e r g ne h k =
      let x = set_short sub ((n - 110) % 100) index in
      let lx : length x ≡ block_size = length-set_short sub ((n - 110) % 100) index ∙ k in
      index_of-double (block_write d s.disk (pos c) x).1 inode n l c buf x lo hi e
        (Reads-write_other d ok s.disk c l buf x lx h ne r) g
        (Reads-write_self d ok s.disk c x lx h)
      ∙ get-set_short sub ((n - 110) % 100) index sh (omega arith)
