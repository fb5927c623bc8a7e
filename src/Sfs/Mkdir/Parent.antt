-- ===== src/Sfs/Mkdir/Parent.antt =====
-- What the entry of sfs_mkdir in the parent leaves alone.
use cs.Base.{
  ℕ, zero, suc, ◌+◌, ◌-◌, ◌*◌, ◌/◌, ◌≤◌, ◌<◌, ◌≡◌, ◌≢◌, refl, inl, inr, ap, subst, sym, ◌∙◌, List,
  [], ◌∷◌, ◌++◌, ℤ, pos, negsuc, Option, none, some, Bool, true, false, ltb, ◌==◌, length,
  get_elem?, arith, Bool-cases, length-replicate, if◌then◌else◌,
}
use cs.Sfs.State.{Inode, Store, allocd, free}
use cs.Sfs.Block.{
  Disk, IsReliable, block_read, block_write, block_size, zeros, Reads, Reads-write_other,
  block_negative, length-block_read,
}
use cs.Sfs.Tables.{scan}
use cs.Sfs.Index.{entry, index_of, get_block_index, write_block, ◌>>=◌}
use cs.Sfs.Index.Single.{IsUsed, HasBlock-covers}
use cs.Sfs.Read.{to_short}
use cs.Sfs.Read.Content.{IsOnDisk}
use cs.Sfs.Write.{copy_in}
use cs.Sfs.Write.Apart.{sub_index, index_of-write_ne, IsOnDisk-write}
use cs.Sfs.Write.Buffer.{copy_in_lem}
use cs.Sfs.Create.{find_end, exceeds, add_entry}
use cs.Sfs.Create.Steps.{WhereSome, WhereSome-bind}
use cs.Sfs.Mkdir.{enter_text_here}

pub copy_in-length :
    (o : ℕ) (bytes buf : List ℕ) → WhereSome (λ out. length out ≡ length buf) (copy_in o bytes buf)
unfolding copy_in
copy_in-length o bytes buf = elim (Bool-cases (ltb (length buf) (o + length bytes))) [
  | inl e ↦ rw e tt
  | inr e ↦
      let (out, p, l, h) = copy_in_lem o bytes buf (ground arith) in
      subst (WhereSome (λ out. length out ≡ length buf)) (sym p) l
]

module _ (d : Disk) (ok : IsReliable d) where
  -- All blocks that the inode leads to are missing or on the disk, and none of them is block `c`.
  pub record IsAway (f : d.File) (inode : Inode) (c : ℕ) : Type 0 where
    pub on_disk : (m : ℕ) → IsOnDisk d ok f (index_of d f inode m)
    pub away : (m : ℕ) → index_of d f inode m ≢ pos c

  get_block_index-IsAway :
      (f : d.File) (inode : Inode) (c : ℕ)
      → IsAway f inode c
      → (z : ℤ) → WhereSome (λ b. IsOnDisk d ok f b × (b ≢ pos c)) (get_block_index d f inode z)
  unfolding get_block_index
  get_block_index-IsAway f inode c v (pos m) = (v.on_disk m, v.away m)
  get_block_index-IsAway f inode c v (negsuc m) = tt

  length-block :
      (f : d.File) (b : ℤ) (old : List ℕ)
      → IsOnDisk d ok f b
      → length (block_read d f b old).1 ≡ block_size
  length-block f (pos b) old h = length-block_read d ok f b old h
  length-block f (negsuc n) old h =
      ap (λ r. length r.1) (block_negative d ok f n old).0 ∙ length-replicate {A = ℕ} block_size 0

  -- The block in which the text of a directory ends has the size of a block.
  find_end-length :
      (fuel : ℕ) (f : d.File) (inode : Inode) (c i : ℕ) (buf : List ℕ)
      → IsAway f inode c
      → length buf ≡ block_size
      → WhereSome (λ r. length r.2 ≡ block_size) (find_end d fuel f inode i buf)
  unfolding find_end
  find_end-length zero f inode c i buf v l = tt
  find_end-length (suc fuel) f inode c i buf v l = go (scan (λ b. b == 0) buf 0) refl (
      WhereSome-bind _ _ (get_block_index d f inode (to_short (i + 1))) _
        (get_block_index-IsAway f inode c v (to_short (i + 1)))
        (λ b q.
          find_end-length fuel f inode c (i + 1) (block_read d f b buf).1 v
            (length-block f b buf q.0)))
    where
      go :
          (r : Option ℕ)
          → scan (λ b. b == 0) buf 0 ≡ r
          → WhereSome
              (λ r. length r.2 ≡ block_size)
              (get_block_index d f inode (to_short (i + 1)) >>= λ b.
                find_end d fuel f inode (i + 1) (block_read d f b buf).1)
          → WhereSome (λ r. length r.2 ≡ block_size) (find_end d (suc fuel) f inode i buf)
      go none p rest = rw (find_end, p) rest
      go (some place) p rest = rw (find_end, p) l

  write_block-Reads :
      (s : Store d.File) (c : ℕ) (b : ℤ) (whole buf : List ℕ)
      → IsOnDisk d ok s.disk b
      → b ≢ pos c
      → length whole ≡ block_size
      → Reads d ok s.disk c buf
      → Reads d ok (write_block d s b whole).disk c buf
  write_block-Reads s c (pos b) whole buf h n l r =
      Reads-write_other d ok s.disk b c buf whole l h (λ e. n (ap pos e)) r
  write_block-Reads s c (negsuc m) whole buf h n l r =
      subst (λ f. Reads d ok f c buf) (sym (ap (λ r. r.1) (block_negative d ok s.disk m whole).1)) r

  -- An entry in a directory leaves a block alone that the directory does not lead to.
  pub enter_text_here-Reads :
      (text : List ℕ) (cwd : Inode) (s : Store d.File) (c : ℕ) (buf : List ℕ)
      → IsAway s.disk cwd c
      → Reads d ok s.disk c buf
      → WhereSome (λ x. Reads d ok x.1.disk c buf) (enter_text_here d text cwd s)
  unfolding enter_text_here
  enter_text_here-Reads text cwd s c buf v r =
      let P : Inode × Store d.File → Type 0 = λ x. Reads d ok x.1.disk c buf in
      WhereSome-bind _ P (get_block_index d s.disk cwd (pos 0)) _
        (get_block_index-IsAway s.disk cwd c v (pos 0))
        (λ b q.
          WhereSome-bind _ P (find_end d 1111 s.disk cwd 0 (block_read d s.disk b zeros).1) _
            (find_end-length 1111 s.disk cwd c 0 (block_read d s.disk b zeros).1 v
              (length-block s.disk b zeros q.0))
            (λ x l.
              WhereSome-bind _ P (copy_in x.1 (text ++ 0 ∷ []) x.2) _
                (copy_in-length x.1 (text ++ 0 ∷ []) x.2)
                (λ whole k.
                  WhereSome-bind _ P (get_block_index d s.disk cwd (to_short x.0)) _
                    (get_block_index-IsAway s.disk cwd c v (to_short x.0))
                    (λ b' q'.
                      go b' whole (exceeds cwd.stat.st_size (length text + 1)) q'.0 q'.1 (k ∙ l)))))
    where
      go :
          (b : ℤ) (whole : List ℕ) (full : Bool)
          → IsOnDisk d ok s.disk b
          → b ≢ pos c
          → length whole ≡ block_size
          → WhereSome {A = Inode × Store d.File}
              (λ x. Reads d ok x.1.disk c buf)
              (if full
                then none
                else some (add_entry (length text + 1) cwd, write_block d s b whole))
      go b whole true h n l = tt
      go b whole false h n l = write_block-Reads s c b whole buf h n l r

  -- All blocks that a directory leads to, the indirect ones included, are missing or marked as taken.
  pub record IsTidy (cwd : Inode) (s : Store d.File) : Type 0 where
    pub used : (m : ℕ) → IsUsed d ok s (index_of d s.disk cwd m)
    pub single : IsUsed d ok s (entry cwd 10)
    pub double : IsUsed d ok s (entry cwd 11)
    pub subs : (j : ℕ) → j < 10 → IsUsed d ok s (sub_index d ok s.disk cwd j)

  pub IsUsed-IsOnDisk :
      (s : Store d.File) (c : ℕ) (z : ℤ)
      → length s.disk_blocks * block_size ≤ ok.size s.disk
      → get_elem? s.disk_blocks c ≡ some free
      → IsUsed d ok s z
      → IsOnDisk d ok s.disk z × (z ≢ pos c)
  IsUsed-IsOnDisk s c (negsuc n) room f u = (tt, λ e. cc)
  IsUsed-IsOnDisk s c (pos b) room f u =
      (HasBlock-covers d ok s b allocd room u, λ e. ground (arith, e))

  -- They stay what they were, and none is block `c`, once this block, which was free, has been written.
  pub IsTidy-IsAway :
      (cwd : Inode) (s : Store d.File) (c : ℕ) (buf : List ℕ)
      → IsTidy cwd s
      → length s.disk_blocks * block_size ≤ ok.size s.disk
      → get_elem? s.disk_blocks c ≡ some free
      → length buf ≡ block_size
      → IsAway (block_write d s.disk (pos c) buf).1 cwd c
  IsTidy-IsAway cwd s c buf v room f l =
      let has = HasBlock-covers d ok s c free room f in
      let at = IsUsed-IsOnDisk s c in
      let x10 = at (entry cwd 10) room f v.single in
      let x11 = at (entry cwd 11) room f v.double in
      let same : (m : ℕ)
          → index_of d (block_write d s.disk (pos c) buf).1 cwd m ≡ index_of d s.disk cwd m =
        λ m. index_of-write_ne d ok s.disk cwd c buf m l has x10.0 x10.1 x11.0 x11.1 (λ lo hi.
          at (sub_index d ok s.disk cwd ((m - 110) / 100)) room f
            (v.subs ((m - 110) / 100) (omega arith))) in
      record {
        on_disk = λ m. subst (IsOnDisk d ok (block_write d s.disk (pos c) buf).1) (sym (same m)) (
            IsOnDisk-write d ok s.disk c buf (index_of d s.disk cwd m) l has
              (at (index_of d s.disk cwd m) room f (v.used m)).0);
        away = λ m e. (at (index_of d s.disk cwd m) room f (v.used m)).1 (sym (same m) ∙ e);
      }
