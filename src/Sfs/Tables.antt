-- ===== src/Sfs/Tables.antt =====
-- The allocation functions of sfs.c: get_inode, get_mapping, get_block, get_fh and the functions that
-- give an entry back, with path_lookup. A scan of a table is a recursion on the list; `none` is an
-- access out of bounds.
pub mod Alloc
pub mod Count
pub mod Free
use cs.Base.{
  ℕ, zero, suc, ◌+◌, ◌-◌, ◌%◌, List, [], ◌∷◌, ℤ, pos, negsuc, minus_one, Option, none, some, Bool,
  true, false, ◌==◌, ltb, ◌++◌, ◌^◌, get_or, take, drop, is_neg, is_pos, if◌then◌else◌, replicate,
  set, get_elem?, ◌&&◌, eq_int,
}
use cs.Sfs.State.{Stat, Inode, PathMap, FileEntry, Store, Fs, allocd, free, at_int, put_int}
use cs.Sfs.Block.{Disk, block_read}
use cs.Sfs.Short.{get_short}

-- The first index at which the test passes, counted from `i`.
unfoldable pub scan {ℓ} : {A : Type ℓ} → (A → Bool) → List A → ℕ → Option ℕ
scan p [] i = none
scan p (x ∷ xs) i = let rest = scan p xs (i + 1) in if p x then some i else rest

-- `table[i] = f(table[i])`
unfoldable pub modify {ℓ} : {A : Type ℓ} → List A → ℕ → (A → A) → List A
modify [] i f = []
modify (x ∷ xs) zero f = f x ∷ xs
modify (x ∷ xs) (suc i) f = x ∷ modify xs i f

-- The index as a C int, -1 where there is none.
abbrev pub or_minus_one : Option ℕ → ℤ
or_minus_one none = minus_one
or_minus_one (some i) = pos i

unfoldable pub fresh_inode : Inode → Inode
fresh_inode n = record n { avail = allocd; blocks = replicate 12 minus_one }

unfoldable pub get_inode : List Inode → ℤ × List Inode
unfolding scan modify fresh_inode
get_inode t = elim (scan (λ n. n.avail == free) t 0) [
  | none ↦ (minus_one, t)
  | some i ↦ (pos i, modify t i fresh_inode)
]

unfoldable pub get_mapping : List PathMap → ℤ × List PathMap
unfolding scan modify
get_mapping t = elim (scan (λ m. m.avail == free) t 0) [
  | none ↦ (minus_one, t)
  | some i ↦ (pos i, modify t i (λ m. record m { avail = allocd }))
]

-- The entry's number and text are cleared too.
unfoldable pub free_mapping : List PathMap → ℕ → List PathMap
unfolding modify
free_mapping t i = modify t i (λ m. record { avail = free; st_ino = minus_one; path = [] })

-- The counter is a short, which is below NUM_BLOCKS whatever it holds: where every entry is taken it
-- wraps to a negative index, outside the table.
unfoldable pub get_block : List ℕ → Option (ℤ × List ℕ)
unfolding scan modify
get_block t = elim (scan (λ b. b == free) t 0) [
  | none ↦ none
  | some i ↦ some (pos i, modify t i (λ b. allocd))
]

-- `disk_blocks[i] = FREE`
unfoldable pub free_block : List ℕ → ℤ → Option (List ℕ)
free_block t (negsuc n) = none
free_block t (pos i) = elim (get_elem? t i) [ none ↦ none | some b ↦ some (set t i free) ]

unfoldable pub get_fh : List FileEntry → ℤ
unfolding scan
get_fh t = or_minus_one (scan (λ e. is_neg e.st_ino) t 0)

unfoldable pub free_fh : List FileEntry → ℕ → List FileEntry
unfolding modify
free_fh t i = modify t i (λ e. record { refcnt = 0; st_ino = minus_one; pos = 0 })

-- strcmp of two texts
unfoldable pub same_text : List ℕ → List ℕ → Bool
same_text [] [] = true
same_text [] (y ∷ ys) = false
same_text (x ∷ xs) [] = false
same_text (x ∷ xs) (y ∷ ys) = x == y && same_text xs ys

unfoldable pub path_lookup : List PathMap → List ℕ → ℤ
unfolding scan same_text
path_lookup t path = or_minus_one (scan (λ m. same_text m.path path) t 0)

infixl 5 ◌>>=◌
abbrev ◌>>=◌ {ℓ κ} : {A : Type ℓ} {B : Type κ} → Option A → (A → Option B) → Option B
none >>= f = none
some a >>= f = f a

-- The first `n` shorts of a buffer, from short `i` on.
pub shorts_from : ℕ → ℕ → List ℕ → List ℤ
shorts_from zero i buf = []
shorts_from (suc n) i buf = get_short buf i ∷ shorts_from n (i + 1) buf

-- Frees the blocks named, up to the first number that is not above 0.
pub free_used : List ℤ → List ℕ → Option (List ℕ)
free_used [] t = some t
free_used (b ∷ bs) t = if is_pos b then (free_block t b >>= λ t'. free_used bs t') else some t

-- Frees every block named. The source's test `inode_table[st_ino].blocks > 0` compares the address
-- of the array, so it always passes.
pub free_all : List ℤ → List ℕ → Option (List ℕ)
free_all [] t = some t
free_all (b ∷ bs) t = free_block t b >>= λ t'. free_all bs t'

abbrev pub no_stat : Stat
no_stat = record {
  st_mode = 0;
  st_nlink = 0;
  st_uid = 0;
  st_gid = 0;
  st_size = pos 0;
  st_blocks = 0;
  st_atime = 0;
  st_mtime = 0;
  st_ctime = 0;
}

module _ (d : Disk) where
  -- Frees the blocks named by each block named, with that block.
  pub free_subs : d.File → List ℤ → List ℕ → Option (List ℕ)
  free_subs f [] t = some t
  free_subs f (b ∷ bs) t =
      if is_pos b
      then (free_used (shorts_from 100 0 (block_read d f b d.junk).1) t >>= λ t'.
          free_block t' b >>= λ t''. free_subs f bs t'')
      else some t

  pub free_double : d.File → ℤ → List ℕ → Option (List ℕ)
  unfolding free_subs
  free_double f b t =
      if is_pos b
      then (free_subs f (shorts_from 10 0 (block_read d f b d.junk).1) t >>= λ t'. free_block t' b)
      else some t

  pub free_single : d.File → ℤ → List ℕ → Option (List ℕ)
  free_single f b t =
      if is_pos b
      then (free_used (shorts_from 100 0 (block_read d f b d.junk).1) t >>= λ t'. free_block t' b)
      else some t

  -- The part of free_inode for an inode with no link left.
  pub drop_inode : d.File → Inode → List ℕ → Option (Inode × List ℕ)
  drop_inode f n t = do
    t1 ← free_double f (get_or n.blocks 11 minus_one) t
    t2 ← free_single f (get_or n.blocks 10 minus_one) t1
    t3 ← free_all (take 10 n.blocks) t2
    some (
      record { avail = free; stat = no_stat; blocks = replicate 10 minus_one ++ drop 10 n.blocks },
      t3,
    )

  -- The link count is unsigned.
  pub unlink_inode : d.File → Inode → List ℕ → Option (Inode × List ℕ)
  unfolding drop_inode
  unlink_inode f n t =
      let links = (n.stat.st_nlink + 2 ^ 64 - 1) % 2 ^ 64 in
      if ltb 0 links
      then some (record n { stat = record (n.stat) { st_nlink = links } }, t)
      else drop_inode f n t

  pub free_inode : Fs d.File → ℤ → Option (Fs d.File)
  unfolding unlink_inode modify
  free_inode s i = do
    n ← at_int s.inode_table i
    (n', t) ← unlink_inode s.store.disk n s.store.disk_blocks
    some (record s {
      store = record (s.store) { disk_blocks = t };
      inode_table = put_int s.inode_table i n';
    })
