-- ===== src/Sfs/Remove/Faults.antt =====
-- What sfs_unlink does with a small file.
use cs.Base.{
  ℕ, ◌<◌, ◌≡◌, refl, ◌≢◌, ap, ◌∙◌, List, ℤ, pos, negsuc, Option, none, some, false, get_elem?,
  get_elem?-set_ne,
}
use cs.Sfs.State.{Inode, PathMap, Fs, at_int, put_int}
use cs.Sfs.Block.{Disk}
use cs.Sfs.Tables.{free_inode, path_lookup}
use cs.Sfs.Tables.Free.{free_inode_faults}
use cs.Sfs.Index.{◌>>=◌}
use cs.Sfs.Path.{get_cwd_path, get_name}
use cs.Sfs.Remove.{directory_text, remove_text, entry_for, forget, remove_path, sfs_unlink}

bind_none :
    {A B : Type 0} (r : Option A) (f : A → Option B)
    → ((a : A) → r ≡ some a → f a ≡ none)
    → (r >>= f) ≡ none
bind_none none f h = refl
bind_none (some a) f h = h a refl

bind_first : {A B : Type 0} (r : Option A) (f : A → Option B) → r ≡ none → (r >>= f) ≡ none
bind_first none f h = refl
bind_first (some a) f h = cc

get_elem?-put_int_ne :
    {A : Type 0} (xs : List A) (z : ℤ) (i : ℕ) (x : A)
    → z ≢ pos i
    → get_elem? (put_int xs z x) i ≡ get_elem? xs i
get_elem?-put_int_ne xs (pos n) i x h = get_elem?-set_ne xs x (λ e. h (ap pos e))
get_elem?-put_int_ne xs (negsuc n) i x h = refl

-- A file with one link that has no block at one of the ten direct places.
pub record IsSmall (n : Inode) : Type 0 where
  pub links : n.stat.st_nlink ≡ 1
  pub place : ℕ
  pub no_block : ℕ
  pub direct : place < 10
  pub missing : get_elem? n.blocks place ≡ some (negsuc no_block)

module _ (d : Disk) where
  forget-none :
      (mapping i : ℕ) (s : Fs d.File) (n : Inode)
      → get_elem? s.inode_table i ≡ some n
      → IsSmall n
      → forget d mapping i s ≡ none
  unfolding forget
  forget-none mapping i s n e v =
      bind_first (free_inode d s (pos i)) _
        (free_inode_faults d s n i v.place v.no_block e v.links v.direct v.missing)

  -- The directory of the path is another inode.
  abbrev pub IsElsewhere : List ℕ → ℕ → Fs d.File → Type 0
  IsElsewhere path i s =
      (r : ℤ × List ℕ) (c : PathMap)
      → get_cwd_path path ≡ some r
      → at_int s.name_table (path_lookup s.name_table r.1) ≡ some c
      → c.st_ino ≢ pos i

  remove_path-none :
      (path : List ℕ) (mapping i : ℕ) (s : Fs d.File) (m : PathMap) (n : Inode)
      → get_elem? s.name_table mapping ≡ some m
      → m.st_ino ≡ pos i
      → get_elem? s.inode_table i ≡ some n
      → IsSmall n
      → IsElsewhere path i s
      → remove_path d (λ n. false) path mapping s ≡ none
  unfolding remove_path
  remove_path-none path mapping i s m n hm hi hn v away =
      rw (remove_path, hm, hi)
        (bind_none (get_name path) _ (λ name e1. bind_none (entry_for d name i) _ (λ entry e2.
          bind_none (get_cwd_path path) _ (λ r e3.
            bind_none (at_int s.name_table (path_lookup s.name_table r.1)) _ (λ c e4.
              bind_none (at_int s.inode_table c.st_ino) _ (λ cwd e5.
                bind_none (directory_text d cwd s.store.disk) _ (λ text e6.
                  bind_none (at_int s.inode_table (pos i)) _ (λ n' e7.
                    bind_none (remove_text d entry text cwd s.store) _ (λ x e8.
                      bind_first (forget d mapping i _) _ (
                        forget-none mapping i _ n
                          (get_elem?-put_int_ne s.inode_table c.st_ino i x.0 (away r c e3 e4) ∙ hn)
                          v))))))))))

  -- sfs_unlink of a file with one link that has no block at one of its ten direct places writes outside
  -- a table or a buffer, if the file is not its own directory.
  pub sfs_unlink_faults :
      (path : List ℕ) (mapping i : ℕ) (s : Fs d.File) (m : PathMap) (n : Inode)
      → path_lookup s.name_table path ≡ pos mapping
      → get_elem? s.name_table mapping ≡ some m
      → m.st_ino ≡ pos i
      → get_elem? s.inode_table i ≡ some n
      → IsSmall n
      → IsElsewhere path i s
      → sfs_unlink d path s ≡ none
  unfolding sfs_unlink
  sfs_unlink_faults path mapping i s m n hp hm hi hn v away =
      rw (sfs_unlink, hp) (remove_path-none path mapping i s m n hm hi hn v away)
