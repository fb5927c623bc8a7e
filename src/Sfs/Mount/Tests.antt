-- ===== src/Sfs/Mount/Tests.antt =====
-- A small file system that is stored and loaded, with a layout of one byte for most fields.
use cs.Base.{
  ℕ, zero, suc, ◌+◌, ◌-◌, ◌*◌, ◌/◌, ◌%◌, ◌^◌, ◌<◌, ◌≡◌, refl, List, [], ◌∷◌, ◌++◌, ℤ, pos, negsuc,
  some, ltb, if◌then◌else◌, take, drop, replicate, get_or, arith,
}
use cs.Sfs.State.{Inode, Fs, allocd, free}
use cs.Sfs.Block.{zeros}
use cs.Sfs.Tables.{no_stat}
use cs.Sfs.File.{Caller}
use cs.Sfs.Mount.{
  Codec, Layout, Mounted, key_val, reserve, reserve_blocks, image, read_as, dump, sfs_destroy,
  sfs_init,
}
use cs.Sfs.Mount.Blocks.{chunk}
use cs.Sfs.Mount.RoundTrip.{IsMounted, sfs_init-destroy}
use cs.Sfs.Mount.Image.{IsLaidOut, with_disk}
use cs.Sfs.Memory.{memory, memory-IsReliable}
use cs.Sfs.Fixture.{blank, file, fs_with}

-- The `n` bytes of a number, the lowest first.
abbrev little : ℕ → ℕ → List ℕ
little zero v = []
little (suc n) v = v % 256 ∷ little n (v / 256)

abbrev value : List ℕ → ℕ
value [] = 0
value (b ∷ bs) = b + 256 * value bs

abbrev signed : ℕ → ℤ
signed v = if ltb v (2 ^ 15) then pos v else negsuc (2 ^ 16 - 1 - v)

abbrev unsigned : ℤ → ℕ
unsigned (pos n) = n
unsigned (negsuc n) = 2 ^ 16 - 1 - n

abbrev key_codec : Codec ℕ
key_codec = record { size = 8; encode = little 8; decode = value }

abbrev number_codec : Codec ℤ
number_codec = record {
  size = 2;
  encode = λ z. little 2 (unsigned z);
  decode = λ bs. signed (value bs);
}

-- The fields of all entries, each of `k` bytes.
abbrev flat : {A : Type 0} → (A → List ℕ) → List A → List ℕ
flat f [] = []
flat f (x ∷ xs) = f x ++ flat f xs

abbrev groups : {A : Type 0} → ℕ → ℕ → (List ℕ → A) → List ℕ → List A
groups zero k g bs = []
groups (suc n) k g bs = g (take k bs) ∷ groups n k g (drop k bs)

abbrev table : {A : Type 0} → ℕ → ℕ → (A → List ℕ) → (List ℕ → A) → Codec (List A)
table n k f g = record { size = n * k; encode = flat f; decode = groups n k g }

abbrev int_of : List ℕ → ℕ → ℤ
int_of bs i = signed (value (take 2 (drop i bs)))

abbrev inode_bytes : Inode → List ℕ
inode_bytes n =
    n.avail ∷ n.stat.st_nlink ∷ little 2 n.stat.st_mode
    ++ little 2 (unsigned n.stat.st_size)
    ++ flat (λ b. little 2 (unsigned b)) n.blocks

abbrev inode_of_bytes : List ℕ → Inode
inode_of_bytes bs = record {
  avail = get_or bs 0 0;
  stat = record no_stat {
    st_nlink = get_or bs 1 0;
    st_mode = value (take 2 (drop 2 bs));
    st_size = int_of bs 4;
  };
  blocks = groups 12 2 (λ x. signed (value x)) (drop 6 bs);
}

-- A path of at most three bytes.
abbrev path_bytes : List ℕ → List ℕ
path_bytes p = take 3 (p ++ replicate 3 0)

abbrev text : List ℕ → List ℕ
text [] = []
text (zero ∷ bs) = []
text (suc b ∷ bs) = suc b ∷ text bs

abbrev layout : Layout
layout = record {
  key = key_codec;
  inode_table = table 2 30 inode_bytes inode_of_bytes;
  name_table =
      table 2 6 (λ m. m.avail ∷ little 2 (unsigned m.st_ino) ++ path_bytes m.path)
        (λ bs. record { avail = get_or bs 0 0; st_ino = int_of bs 1; path = text (drop 3 bs) });
  disk_blocks = table 600 1 (λ b. b ∷ []) (λ bs. get_or bs 0 0);
  open_files =
      table 2 4 (λ e. e.refcnt ∷ little 2 (unsigned e.st_ino) ++ (e.pos ∷ []))
        (λ bs. record { refcnt = get_or bs 0 0; st_ino = int_of bs 1; pos = get_or bs 3 0 });
  number = number_codec;
}

abbrev tables : Fs (ℕ → ℕ)
tables = record (fs_with file) {
  store = record { disk = blank; disk_blocks = allocd ∷ replicate 599 free };
}

abbrev mounted : Mounted (ℕ → ℕ)
mounted = record { fs = tables; root_inode = pos 0; root_block = pos 0; system_block = 32766 }

laid_out : IsLaidOut layout mounted
laid_out = record {
  key = (refl, refl);
  inode_table = (refl, refl);
  name_table = (refl, refl);
  disk_blocks = (refl, refl);
  open_files = (refl, refl);
  root_inode = (refl, refl);
  root_block = (refl, refl);
}

two_blocks : reserve_blocks layout ≡ 2
unfolding reserve_blocks reserve
two_blocks = refl

no_key_in_zeros : value (take 8 zeros) ≡ 0
no_key_in_zeros = refl

second_block : value (take 8 (chunk 1 (dump memory layout mounted))) ≡ 0
unfolding dump image reserve_blocks reserve
second_block = refl

mounted-IsMounted : IsMounted memory memory-IsReliable layout mounted
unfolding memory-IsReliable read_as
mounted-IsMounted = record {
  laid_out = laid_out;
  key_size = omega arith;
  room = omega (arith, two_blocks);
  no_zeros = λ e. omega (arith, e, no_key_in_zeros);
  disk_size = refl;
  at_end = omega (arith, two_blocks);
  no_later = λ j p lt. later j p (omega (arith, two_blocks, lt));
}
  where
    later :
        (j : ℕ)
        → 0 < j
        → j < 2
        → ¬ (read_as layout.key (chunk j (dump memory layout mounted)) ≡ key_val)
    later zero p lt e = absurd (omega arith)
    later (suc zero) p lt e = omega (arith, e, second_block)
    later (suc (suc j)) p lt e = absurd (omega arith)

abbrev caller : Caller
caller = record { uid = 0; gid = 0; now = 0; access = pos 0 }

sfs_init-destroy_example :
    sfs_init memory layout caller (λ f. f) (sfs_destroy memory layout mounted)
    ≡ some (with_disk memory layout mounted 32766 (sfs_destroy memory layout mounted))
sfs_init-destroy_example =
    sfs_init-destroy memory memory-IsReliable layout caller (λ f. f) mounted mounted-IsMounted
