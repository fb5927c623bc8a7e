-- ===== src/Sfs/Index/RoundTrip.antt =====
-- What set_block_index writes get_block_index reads, through all levels of indirection.
use cs.Base.{
  subst, ℕ, ◌<◌, ◌≡◌, refl, inl, inr, ap, ℤ, pos, minus_one, some, true, ltb, leb, arith,
  Bool-cases, get_or-set_self,
}
use cs.Sfs.State.{Inode, Store}
use cs.Sfs.Block.{Disk, IsReliable}
use cs.Sfs.Short.{IsShort}
use cs.Sfs.Index.{entry, index_of, get_block_index, set_block_index}
use cs.Sfs.Index.Single.{set_single-Gives, Gives, IsLinked}
use cs.Sfs.Index.Double.{set_double-Gives}

module _ (d : Disk) (ok : IsReliable d) where
  set_block_index-Gives :
      (inode : Inode) (s : Store d.File) (n : ℕ) (index : ℤ)
      → IsLinked d ok inode s
      → n < 1110
      → IsShort index
      → Gives d ok n index (set_block_index d inode (pos n) index s)
  unfolding set_block_index
  set_block_index-Gives inode s n index v lt sh = elim (Bool-cases (ltb n 10)) [
    | inl a ↦ rw a (
        unfold index_of in
        (rw (a, get_or-set_self inode.blocks n index minus_one (ground (arith, v.entries))) refl))
    | inr a ↦ elim (Bool-cases (ltb n 110)) [
      | inl b ↦
          rw (a, b)
            (set_single-Gives d ok inode s n index v (ground arith) (ground arith) sh
              (entry inode 10) refl)
      | inr b ↦
          let c : leb n 1110 ≡ true = ground arith in
          rw (a, b, c) (set_double-Gives d ok inode s n index v (ground arith) lt sh)
    ]
  ]

  -- With a reliable disk and an inode whose indirect blocks are in use, for each of the 1110
  -- blocks that a file can have: where set_block_index succeeds, allocating indirect blocks on the
  -- way where they are missing, get_block_index reads back the short that was written.
  pub get-set_block_index :
      (inode inode' : Inode) (s s' : Store d.File) (n : ℕ) (index : ℤ)
      → IsLinked d ok inode s
      → n < 1110
      → IsShort index
      → set_block_index d inode (pos n) index s ≡ some (inode', s')
      → get_block_index d s'.disk inode' (pos n) ≡ some index
  unfolding get_block_index
  get-set_block_index inode inode' s s' n index v lt sh e =
      ap some (subst (Gives d ok n index) e (set_block_index-Gives inode s n index v lt sh))
