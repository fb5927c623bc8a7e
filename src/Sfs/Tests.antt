-- ===== src/Sfs/Tests.antt =====
-- The properties of the file system at a small one in memory.
use cs.Base.{
  ◌++◌, ℕ, ◌+◌, ◌-◌, ◌/◌, ◌%◌, ◌<◌, ◌≡◌, refl, List, [], ◌∷◌, pos, Option, none, some, replicate,
  get_or, length, arith,
}
use Prim.Native.Nat.{min}
use cs.Sfs.Block.{block_size, HasBlock}
use cs.Sfs.Short.{get_short, set_short}
use cs.Sfs.Tables.{get_block, path_lookup, scan, modify, same_text, get_fh}
use cs.Sfs.Index.{
  get_block_index, set_block_index, set_double, double_block, sub_block, clear_shorts,
}
use cs.Sfs.Index.Single.{IsLinked}
use cs.Sfs.Index.RoundTrip.{get-set_block_index}
use cs.Sfs.Path.{slash, get_cwd_path, get_name, get_cwd_path_join}
use cs.Sfs.Span.{spanned, spanned_lem}
use cs.Sfs.Read.{sfs_read}
use cs.Sfs.Read.Content.{file_byte, sfs_read_lem}
use cs.Sfs.Memory.{memory, memory-IsReliable}
use cs.Sfs.Fixture.{blank, store, file, empty, path, fs_with, file-IsMapped}

abbrev ones : List ℕ
ones = replicate block_size 1

room : (b : ℕ) → b < 100 → HasBlock memory memory-IsReliable blank b
unfolding memory-IsReliable
room b h = omega arith

spanned_lem_example : spanned 500 30 ≡ (500 % 512 + 30 + 511) / 512
spanned_lem_example = spanned_lem 500 30 (omega arith)

path_found : path_lookup (fs_with file).name_table path ≡ pos 1
unfolding path_lookup scan same_text
path_found = refl

handle_free : get_fh (fs_with file).open_files ≡ pos 1
unfolding get_fh scan
handle_free = refl

sfs_read_lem_example :
    (got : List ℕ) × (sfs_read memory (fs_with file) 200 500 0
      ≡ some (pos (min 200 (600 - 500)), got))
    × (length got ≡ min 200 (600 - 500))
    × ((j : ℕ)
        → j < min 200 (600 - 500)
        → get_or got j 0 ≡ file_byte memory memory-IsReliable blank file (500 + j))
sfs_read_lem_example =
    sfs_read_lem memory memory-IsReliable (fs_with file)
      (record { refcnt = 1; st_ino = pos 1; pos = 0 }) file 0 1 600 200 500 1110 (omega arith) refl
      refl refl refl (omega arith) (omega arith) file-IsMapped (omega arith) (omega arith)

-- The results of an operation that is known to succeed.
abbrev done_by : {A : Type 0} → Option A → A → A
done_by none a = a
done_by (some b) a = b

empty-IsLinked : IsLinked memory memory-IsReliable empty store
unfolding memory-IsReliable
empty-IsLinked = record {
  entries = refl;
  covers = omega arith;
  shorts = omega arith;
  single = tt;
  double = tt;
  subs = λ b j e l. absurd (ground arith);
}

-- Block 200 of the file that has no block: two indirect blocks are taken for it.
index_set :
    set_block_index memory empty (pos 200) (pos 7) store
    ≡ some (done_by (set_block_index memory empty (pos 200) (pos 7) store) (empty, store))
unfolding set_block_index set_double double_block sub_block get_block scan modify clear_shorts
    get_short set_short
index_set = refl

get-set_block_index_example :
    get_block_index memory
      (done_by (set_block_index memory empty (pos 200) (pos 7) store) (empty, store)).1.disk
      (done_by (set_block_index memory empty (pos 200) (pos 7) store) (empty, store)).0
      (pos 200)
    ≡ some (pos 7)
get-set_block_index_example =
    get-set_block_index memory memory-IsReliable empty
      ((done_by (set_block_index memory empty (pos 200) (pos 7) store) (empty, store)).0) store
      ((done_by (set_block_index memory empty (pos 200) (pos 7) store) (empty, store)).1) 200
      (pos 7) empty-IsLinked (omega arith) (omega arith) index_set

-- The path `/a/b`.
get_cwd_path_join_example :
    (get_cwd_path (path ++ slash ∷ 98 ∷ []) ≡ some (pos 0, path))
    × (get_name (path ++ slash ∷ 98 ∷ []) ≡ some (98 ∷ []))
get_cwd_path_join_example =
    get_cwd_path_join path [] 98 (omega arith, tt) (omega arith) (omega arith)
