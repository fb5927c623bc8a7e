-- ===== src/Sfs/Remove/Tests.antt =====
-- Entries that are taken out of the text of a directory.
use cs.Base.{
  ℕ, ◌≡◌, refl, ap, sym, ◌∙◌, List, [], ◌∷◌, ◌++◌, pos, none, some, minus_one, replicate, get_or,
  arith,
}
use cs.Sfs.State.{PathMap, Fs, at_int}
use cs.Sfs.Tables.{path_lookup, scan, same_text}
use cs.Sfs.Path.{get_cwd_path, last_slash, cwd_before}
use cs.Sfs.Create.{digits, entry_text}
use cs.Sfs.Mkdir.{first_entries}
use cs.Sfs.Remove.{starts_with, remove_from, remove_substring, sfs_unlink}
use cs.Sfs.Readdir.Names.{entries}
use cs.Sfs.Remove.Entries.{remove_substring-entries}
use cs.Sfs.Remove.Faults.{IsElsewhere, sfs_unlink_faults}
use cs.Sfs.Memory.{memory}
use cs.Sfs.Fixture.{inode_of, empty, path, store, fs_with}

-- Files `a` of inode 5, `b` of inode 23 and `c` of inode 2.
abbrev before : List (List ℕ × ℕ)
before = (97 ∷ [], 5) ∷ []

abbrev after : List (List ℕ × ℕ)
after = (99 ∷ [], 2) ∷ []

-- The removal of `b`.
remove_substring-entries_example :
    remove_substring
      (entry_text (98 ∷ []) 23)
      (first_entries 1 0 ++ entries (before ++ ((98 ∷ [], 23) ∷ after)))
    ≡ first_entries 1 0 ++ entries (before ++ after)
remove_substring-entries_example =
    remove_substring-entries 98 23 1 0 [] before after (λ d. omega arith)
      ((λ e. omega (arith, e)), tt) (λ e. ground arith) (((λ e. omega (arith, e)), tt), tt)
      (((λ e. omega (arith, e)), tt), tt) ((λ e. ground arith), tt) ((λ e. ground arith), tt)

-- With files `a` of inode 5 and `7` of inode 9, the removal of a file `5` of inode 7 takes the entry of
-- `7` away, and the number of `a`.
removal_across :
    remove_substring
      (entry_text (53 ∷ []) 7)
      (entries ((97 ∷ [], 5) ∷ (55 ∷ [], 9) ∷ (53 ∷ [], 7) ∷ []))
    ≡ entries ((97 ∷ [], 9) ∷ [])
unfolding remove_substring remove_from starts_with entry_text digits
removal_across = refl

-- The root lists the file `a` of inode 1, which has no block.
abbrev rooted : Fs (ℕ → ℕ)
rooted = record (fs_with empty) {
  store = record store { disk = λ p. get_or (first_entries 0 0 ++ entry_text (97 ∷ []) 1) p 0 };
  inode_table = inode_of 13 (pos 0 ∷ replicate 11 minus_one) ∷ empty ∷ [];
}

abbrev root_entry : PathMap
root_entry = record { avail = 1; st_ino = pos 0; path = 47 ∷ [] }

at_file : path_lookup rooted.name_table path ≡ pos 1
unfolding path_lookup scan same_text
at_file = refl

at_root : at_int rooted.name_table (path_lookup rooted.name_table (47 ∷ [])) ≡ some root_entry
unfolding path_lookup scan same_text
at_root = refl

root_of : get_cwd_path path ≡ some (pos 0, 47 ∷ [])
unfolding get_cwd_path last_slash cwd_before same_text
root_of = refl

elsewhere : IsElsewhere memory path 1 rooted
elsewhere r c e1 e2 e3 =
    let found : some (pos 0, 47 ∷ []) ≡ some r = sym root_of ∙ e1 in
    let same : (pos 0, 47 ∷ []) ≡ r = cc in
    let read : some root_entry ≡ some c =
      sym at_root
      ∙ ap (λ r. at_int rooted.name_table (path_lookup rooted.name_table r.1)) same
      ∙ e2 in
    let entry : root_entry ≡ c = cc in
    let number : pos 0 ≡ pos 1 = ap (λ m. m.st_ino) entry ∙ e3 in ground arith

sfs_unlink_faults_example : sfs_unlink memory path rooted ≡ none
sfs_unlink_faults_example =
    sfs_unlink_faults memory path 1 1 rooted (record { avail = 1; st_ino = pos 1; path = path })
      empty at_file refl refl refl
      (record { links = refl; place = 0; no_block = 0; direct = omega arith; missing = refl })
      elsewhere
