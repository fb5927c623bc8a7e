-- ===== src/Sfs/Tables/Free.antt =====
-- What free_inode does with an inode that has fewer than ten blocks.
use cs.Base.{
  ℕ, zero, suc, ◌+◌, ◌<◌, ◌≡◌, refl, List, [], ◌∷◌, ℤ, pos, negsuc, minus_one, Option, none, some,
  Bool, true, false, if◌then◌else◌, get_elem?, get_or, take, arith, ltb, get_or, ◌∙◌, ◌-◌, ◌%◌, ◌^◌,
}
use cs.Sfs.State.{Inode, Fs}
use cs.Sfs.Block.{Disk}
use cs.Sfs.Tables.{
  free_block, free_all, free_double, free_single, drop_inode, unlink_inode, free_inode, ◌>>=◌,
}

bind_none :
    {A B : Type 0} (r : Option A) (f : A → Option B) → ((a : A) → f a ≡ none) → ◌>>=◌ r f ≡ none
bind_none none f h = refl
bind_none (some a) f h = h a

bind_none_first : {A B : Type 0} (r : Option A) (f : A → Option B) → r ≡ none → ◌>>=◌ r f ≡ none
bind_none_first none f h = refl
bind_none_first (some a) f h = cc

bind_some :
    {A B : Type 0} (r : Option A) (f : A → Option B) (a : A)
    → r ≡ some a
    → f a ≡ none
    → ◌>>=◌ r f ≡ none
bind_some r f a e h = rw (e) h

get_elem?-take_below :
    {A : Type 0} (xs : List A) (n k : ℕ) → k < n → get_elem? (take n xs) k ≡ get_elem? xs k
get_elem?-take_below [] zero k lt = refl
get_elem?-take_below [] (suc n) k lt = refl
get_elem?-take_below (x ∷ xs) zero k lt = absurd (ground arith)
get_elem?-take_below (x ∷ xs) (suc n) zero lt = refl
get_elem?-take_below (x ∷ xs) (suc n) (suc k) lt = get_elem?-take_below xs n k (ground arith)

-- A negative number among those to free is a write in front of the table of blocks.
free_all-negative :
    (bs : List ℤ) (k m : ℕ) (t : List ℕ) → get_elem? bs k ≡ some (negsuc m) → free_all bs t ≡ none
unfolding free_all free_block
free_all-negative [] k m t e = cc
free_all-negative (b ∷ bs) zero m t e = ground arith
free_all-negative (b ∷ bs) (suc k) m t e =
    bind_none (free_block t b) (free_all bs) (λ t'. free_all-negative bs k m t' e)

drop_inode-none :
    (d : Disk) (f : d.File) (n : Inode) (t : List ℕ) (k m : ℕ)
    → k < 10
    → get_elem? n.blocks k ≡ some (negsuc m)
    → drop_inode d f n t ≡ none
unfolding drop_inode
drop_inode-none d f n t k m lt hk =
    bind_none (free_double d f (get_or n.blocks 11 minus_one) t) _ (λ t1.
      bind_none (free_single d f (get_or n.blocks 10 minus_one) t1) _ (λ t2.
        bind_none_first (free_all (take 10 n.blocks) t2) _ (
          free_all-negative (take 10 n.blocks) k m t2
            (get_elem?-take_below n.blocks 10 k lt ∙ hk))))

if_no :
    {A : Type 0} (b : Bool) (x y : Option A) → b ≡ false → y ≡ none → (if b then x else y) ≡ none
if_no true x y e h = cc
if_no false x y e h = h

unlink_inode-none :
    (d : Disk) (f : d.File) (n : Inode) (t : List ℕ) (k m : ℕ)
    → n.stat.st_nlink ≡ 1
    → k < 10
    → get_elem? n.blocks k ≡ some (negsuc m)
    → unlink_inode d f n t ≡ none
unfolding unlink_inode
unlink_inode-none d f n t k m hl lt hk =
    if_no (ltb 0 ((n.stat.st_nlink + 2 ^ 64 - 1) % 2 ^ 64)) _ (drop_inode d f n t) no_link
      (drop_inode-none d f n t k m lt hk)
  where
    no_link : ltb 0 ((n.stat.st_nlink + 2 ^ 64 - 1) % 2 ^ 64) ≡ false
    no_link = rw (hl) refl

-- Giving up the last link of an inode with a missing block among its ten direct ones writes
-- outside the table of used blocks.
pub free_inode_faults :
    (d : Disk) (s : Fs d.File) (n : Inode) (i k m : ℕ)
    → get_elem? s.inode_table i ≡ some n
    → n.stat.st_nlink ≡ 1
    → k < 10
    → get_elem? n.blocks k ≡ some (negsuc m)
    → free_inode d s (pos i) ≡ none
unfolding free_inode unlink_inode drop_inode
free_inode_faults d s n i k m hn hl lt hk = bind_some (get_elem? s.inode_table i) _ n hn (
    bind_none_first (unlink_inode d s.store.disk n s.store.disk_blocks) _
      (unlink_inode-none d s.store.disk n s.store.disk_blocks k m hl lt hk))
