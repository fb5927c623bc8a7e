-- ===== src/Sfs/Fixture.antt =====
-- A small file system in memory, for the tests: inode 0 is the root, inode 1 a file of 600 bytes
-- without an indirect block, which handle 0 has open. Nothing is written on the disk.
use cs.Base.{
  ℕ, zero, suc, ◌+◌, ◌*◌, ◌<◌, ◌≡◌, refl, List, [], ◌∷◌, ℤ, pos, minus_one, replicate, get_or, ltb,
  arith, Bool-cases, inl, inr, subst, sym, ◌-◌, ◌/◌, ◌%◌, true, ltb→lt, lt→ltb,
}
use cs.Sfs.State.{Inode, Store, Fs, allocd, free}
use cs.Sfs.Block.{block_read, block_size}
use cs.Sfs.Short.{get_short}
use cs.Sfs.Index.{index_of, entry}
use cs.Sfs.Read.Content.{IsMapped, IsOnDisk}
use cs.Sfs.Tables.{no_stat, path_lookup, scan, same_text}
use cs.Sfs.File.{Caller}
use cs.Sfs.Path.{get_cwd_path, last_slash, cwd_before}
use cs.Sfs.Create.Names.{NoPercent}
use cs.Sfs.Create.Directory.{HasDirectory}
use cs.Sfs.Memory.{memory, memory-IsReliable, bytes, read_at}

abbrev pub inode_of : ℕ → List ℤ → Inode
inode_of size blocks = record {
  avail = allocd;
  stat = record no_stat { st_mode = 0o100777; st_nlink = 1; st_size = pos size };
  blocks = blocks;
}

abbrev pub blank : ℕ → ℕ
blank p = 0

abbrev pub store : Store (ℕ → ℕ)
store = record { disk = blank; disk_blocks = allocd ∷ replicate 10 free }

-- All blocks of this file are block 0.
abbrev pub file : Inode
file = inode_of 600 (replicate 12 (pos 0))

-- A file without a block.
abbrev pub empty : Inode
empty = inode_of 0 (replicate 12 minus_one)

abbrev pub path : List ℕ
path = 47 ∷ 97 ∷ []

abbrev pub fs_with : Inode → Fs (ℕ → ℕ)
fs_with inode = record {
  store = store;
  inode_table = empty ∷ inode ∷ [];
  name_table =
      record { avail = allocd; st_ino = pos 0; path = 47 ∷ [] }
      ∷ record { avail = allocd; st_ino = pos 1; path = path }
      ∷ [];
  open_files =
      record { refcnt = 1; st_ino = pos 1; pos = 0 }
      ∷ record { refcnt = 0; st_ino = minus_one; pos = 0 }
      ∷ [];
}

get_or-bytes : (n o i : ℕ) → get_or (bytes n o blank) i 0 ≡ 0
unfolding bytes
get_or-bytes zero o i = refl
get_or-bytes (suc n) o zero = refl
get_or-bytes (suc n) o (suc i) = get_or-bytes n (o + 1) i

pub get_short-blank :
    (i : ℕ) (old : List ℕ) → get_short (block_read memory blank (pos 0) old).1 i ≡ pos 0
unfolding get_short block_read read_at
get_short-blank i old =
    rw (get_or-bytes block_size 0 (2 * i), get_or-bytes block_size 0 (2 * i + 1)) refl

pub get_or-replicate :
    {A : Type 0} (a : A) (k n : ℕ) (e : A) → n < k → get_or (replicate k a) n e ≡ a
get_or-replicate a zero n e h = absurd (omega arith)
get_or-replicate a (suc k) zero e h = refl
get_or-replicate a (suc k) (suc n) e h = get_or-replicate a k n e (omega arith)

entry-file : (n : ℕ) → n < 12 → entry file n ≡ pos 0
entry-file n h = get_or-replicate (pos 0) 12 n minus_one h

index_of-file : (n : ℕ) → n < 1110 → index_of memory blank file n ≡ pos 0
unfolding index_of
index_of-file n h = elim (Bool-cases (ltb n 10)) [
  | inl a ↦ rw (a) (entry-file n (omega (arith, ltb→lt n 10 a)))
  | inr a ↦ (elim (Bool-cases (ltb n 110)) [
    | inl b ↦ rw (a, b, get_short-blank (n - 10) memory.junk) refl
    | inr b ↦
        (let c : ltb n 1110 ≡ true = lt→ltb n 1110 h in
          rw (a, b, c, get_short-blank ((n - 110) / 100) memory.junk)
            (get_short-blank ((n - 110) % 100) _))
  ])
]

pub file-IsMapped : IsMapped memory memory-IsReliable blank file 1110
unfolding memory-IsReliable
file-IsMapped m h =
    subst (IsOnDisk memory memory-IsReliable blank) (sym (index_of-file m h)) (omega arith)

-- The path `/b`.
abbrev pub new_path : List ℕ
new_path = 47 ∷ 98 ∷ []

-- A file system with room for a file.
abbrev pub roomy : Fs (ℕ → ℕ)
roomy = record (fs_with file) {
  inode_table =
      empty ∷ file ∷ record { avail = free; stat = no_stat; blocks = replicate 12 minus_one } ∷ [];
  name_table =
      record { avail = 1; st_ino = pos 0; path = 47 ∷ [] }
      ∷ record { avail = 1; st_ino = pos 1; path = path }
      ∷ record { avail = free; st_ino = pos 0; path = [] }
      ∷ [];
}

abbrev pub caller : Caller
caller = record { uid = 0; gid = 0; now = 0; access = pos 0 }

pub new_path-NoPercent : NoPercent new_path
new_path-NoPercent = ((λ e. omega (arith, e)), ((λ e. omega (arith, e)), tt))

pub unknown : path_lookup roomy.name_table new_path ≡ minus_one
unfolding path_lookup scan same_text
unknown = refl

-- The root is the directory of that path.
unfoldable pub root_of_new : HasDirectory roomy new_path
unfolding path_lookup scan same_text get_cwd_path last_slash cwd_before
root_of_new = record {
  r = pos 0;
  cwd = 47 ∷ [];
  k = 0;
  entry = record { avail = 1; st_ino = pos 0; path = 47 ∷ [] };
  number = 0;
  inode = empty;
  is_cwd = refl;
  is_found = refl;
  is_entry = refl;
  used = λ e. omega (arith, e);
  names = refl;
  is_inode = refl;
  taken = λ e. omega (arith, e);
}
