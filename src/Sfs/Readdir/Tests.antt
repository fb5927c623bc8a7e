-- ===== src/Sfs/Readdir/Tests.antt =====
-- The listing of a directory in memory.
use cs.Base.{ℕ, ◌≡◌, refl, List, [], ◌∷◌, ◌++◌, pos, some, get_or, arith}
use cs.Sfs.State.{Fs}
use cs.Sfs.Block.{block_read}
use cs.Sfs.Tables.{path_lookup, scan, same_text}
use cs.Sfs.Index.{entry}
use cs.Sfs.Create.{digits, entry_text}
use cs.Sfs.Mkdir.{first_entries}
use cs.Sfs.Remove.{text_of}
use cs.Sfs.Readdir.{sfs_readdir}
use cs.Sfs.Readdir.Names.{entries, names, sfs_readdir-entries}
use cs.Sfs.Memory.{memory, bytes, read_at}
use cs.Sfs.Fixture.{file, path, store, fs_with}

-- The directory `/a` of number 1, with a file `b` of number 23.
abbrev listed : List (List ℕ × ℕ)
listed = (98 ∷ [], 23) ∷ []

abbrev listing : List ℕ
listing = first_entries 1 0 ++ entries listed

abbrev directory : Fs (ℕ → ℕ)
directory = record (fs_with file) { store = record store { disk = λ p. get_or listing p 0 } }

found : path_lookup directory.name_table path ≡ pos 1
unfolding path_lookup scan same_text
found = refl

held : text_of (block_read memory directory.store.disk (entry file 0) memory.junk).1 ≡ some listing
unfolding text_of block_read bytes read_at first_entries entry_text digits
held = refl

sfs_readdir-entries_example :
    sfs_readdir memory path directory ≡ some (pos 0, (46 ∷ []) ∷ (46 ∷ 46 ∷ []) ∷ names listed)
sfs_readdir-entries_example =
    sfs_readdir-entries memory directory path 1 1 0
      (record { avail = 1; st_ino = pos 1; path = path }) file listed found refl refl refl
      (λ e. ground arith) held (((λ e. omega (arith, e)), tt), tt)
