-- ===== src/Sfs/Write/Tests.antt =====
-- Writes to files in memory: an empty one, and one of 600 bytes in blocks 1 and 2.
use cs.Base.{
  ℕ, zero, suc, ◌+◌, ◌*◌, ◌≤◌, ◌<◌, ◌≡◌, refl, List, [], ◌∷◌, ◌++◌, pos, minus_one, some, replicate,
  length, set, take, drop, arith,
}
use cs.Sfs.State.{Inode, FileEntry, Store, Fs}
use cs.Sfs.Block.{block_size}
use cs.Sfs.Index.{index_of}
use cs.Sfs.Read.{sfs_read}
use cs.Sfs.Write.{sfs_write, set_size}
use cs.Sfs.Write.Apart.{IsApart}
use cs.Sfs.Write.Overwrite.{IsWritten}
use cs.Sfs.Write.RoundTrip.{sfs_write-IsWritten, sfs_read-sfs_write}
use cs.Sfs.Tables.Count.{count_free}
use cs.Sfs.Write.Append.{blocks_of}
use cs.Sfs.Write.Refine.{HasFile, sfs_write-HasFile, write_all, concat, sfs_read-write_all}
use cs.Sfs.Memory.{memory, memory-IsReliable}
use cs.Sfs.Fixture.{blank, store, empty, inode_of, fs_with}

abbrev handle : FileEntry
handle = record { refcnt = 1; st_ino = pos 1; pos = 0 }

abbrev three : List ℕ
three = 1 ∷ 2 ∷ 3 ∷ []

abbrev two_blocks : Inode
two_blocks = inode_of 600 (pos 1 ∷ pos 2 ∷ replicate 10 minus_one)

two_blocks-IsApart : IsApart memory memory-IsReliable blank two_blocks 2
unfolding memory-IsReliable index_of
two_blocks-IsApart = record {
  few = omega arith;
  present = present;
  single = tt;
  double = tt;
  subs = λ j h. absurd (omega arith);
  distinct = distinct;
  ne_single = λ m h b e q. cc;
  ne_double = λ m h b e q. cc;
  ne_subs = λ m j h k. absurd (omega arith);
}
  where
    present :
        (m : ℕ)
        → m < 2
        → (b : ℕ) × (index_of memory blank two_blocks m ≡ pos b)
          × (suc b * block_size ≤ memory-IsReliable.size blank)
    present zero h = (1, refl, omega arith)
    present (suc zero) h = (2, refl, omega arith)
    present (suc (suc m)) h = absurd (omega arith)

    distinct :
        (m k b : ℕ)
        → m < 2
        → k < 2
        → index_of memory blank two_blocks m ≡ pos b
        → index_of memory blank two_blocks k ≡ pos b
        → m ≡ k
    distinct zero zero b hm hk em ek = refl
    distinct zero (suc zero) b hm hk em ek = absurd (ground arith)
    distinct (suc zero) zero b hm hk em ek = absurd (ground arith)
    distinct (suc zero) (suc zero) b hm hk em ek = refl
    distinct (suc (suc m)) k b hm hk em ek = absurd (omega arith)
    distinct m (suc (suc k)) b hm hk em ek = absurd (omega arith)

-- Two bytes on either side of the end of a block.
sfs_write-IsWritten_example :
    (s' : Store (ℕ → ℕ)) × (sfs_write memory (fs_with two_blocks) three 510 0
      ≡ some (
        pos (length three),
        record (fs_with two_blocks) {
          store = s';
          inode_table =
              set
                (fs_with two_blocks).inode_table
                1
                (set_size two_blocks (pos (600 + length three)));
        },
      ))
    × IsWritten memory memory-IsReliable two_blocks 2 510 three store s'
sfs_write-IsWritten_example =
    sfs_write-IsWritten memory memory-IsReliable (fs_with two_blocks) handle two_blocks three 0 1
      600 510 2 (omega arith) refl refl refl refl (omega arith) (omega arith) (omega arith)
      (omega arith) two_blocks-IsApart

sfs_read-sfs_write_example :
    (s' : Fs (ℕ → ℕ)) × (sfs_write memory (fs_with two_blocks) three 510 0
      ≡ some (pos (length three), s'))
    × (sfs_read memory s' (length three) 510 0 ≡ some (pos (length three), three))
sfs_read-sfs_write_example =
    sfs_read-sfs_write memory memory-IsReliable (fs_with two_blocks) handle two_blocks three 0 1 600
      510 2 (omega arith) refl refl refl refl (omega arith) (omega arith) (omega arith)
      (omega arith) two_blocks-IsApart

empty-HasFile : HasFile memory memory-IsReliable (fs_with empty) 0 []
unfolding memory-IsReliable
empty-HasFile = record {
  e = handle;
  i = 1;
  inode = empty;
  in_range = omega arith;
  opened = refl;
  names = refl;
  found = refl;
  file = record {
    size = refl;
    blocks = refl;
    growable = record {
      apart = record {
        few = omega arith;
        present = λ m h. absurd (omega arith);
        single = tt;
        double = tt;
        subs = λ j h. absurd (omega arith);
        distinct = λ m k b hm. absurd (omega arith);
        ne_single = λ m h. absurd (omega arith);
        ne_double = λ m h. absurd (omega arith);
        ne_subs = λ m j h. absurd (omega arith);
      };
      entries = refl;
      covers = omega arith;
      used = λ m b h. absurd (omega arith);
      single = tt;
      double = tt;
    };
  };
  content = λ k h. absurd (omega arith);
}

sfs_write-HasFile_example :
    (s' : Fs (ℕ → ℕ)) × (sfs_write memory (fs_with empty) three 0 0 ≡ some (pos (length three), s'))
    × HasFile memory memory-IsReliable s' 0 ([] ++ three)
    × (count_free store.disk_blocks + blocks_of 0
        ≡ count_free s'.store.disk_blocks + blocks_of (length ([] ++ three)))
sfs_write-HasFile_example =
    sfs_write-HasFile memory memory-IsReliable (fs_with empty) 0 [] three empty-HasFile
      (omega arith) (omega arith) (omega arith)

abbrev pieces : List (List ℕ)
pieces = three ∷ replicate 510 7 ∷ three ∷ []

sfs_read-write_all_example :
    (s' : Fs (ℕ → ℕ)) × (write_all memory (fs_with empty) 0 0 pieces ≡ some s')
    × (sfs_read memory s' 8 509 0
        ≡ some
            (pos (length (take 8 (drop 509 (concat pieces)))), take 8 (drop 509 (concat pieces))))
sfs_read-write_all_example =
    sfs_read-write_all memory memory-IsReliable pieces (fs_with empty) 0 8 509 empty-HasFile
      (omega arith) (omega arith) (omega arith) (omega arith) (omega arith)
