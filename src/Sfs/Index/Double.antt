-- ===== src/Sfs/Index/Double.antt =====
-- set_block_index on the blocks behind two levels of indirection.
use cs.Base.{
  subst, ◌^◌, ℕ, ◌-◌, ◌*◌, ◌/◌, ◌%◌, ◌≤◌, ◌<◌, ◌≡◌, refl, ◌≢◌, ap, ◌∙◌, List, ℤ, pos, negsuc,
  minus_one, Option, none, some, length, get_elem?, arith, get_or-set_self,
}
use cs.Sfs.State.{Inode, Store, allocd, free}
use cs.Sfs.Block.{
  Disk, IsReliable, block_size, block_write, HasBlock, HasBlock-write, Reads, Reads-block_read,
  Reads-write_self, length-block_read, size-block_write,
}
use cs.Sfs.Short.{IsShort, get_short, set_short, get-set_short, length-set_short}
use cs.Sfs.Tables.{get_block}
use cs.Sfs.Tables.Alloc.{length-get_block}
use cs.Sfs.Index.{clear_shorts, entry, write_block, double_block, sub_block, ◌>>=◌, set_double}
use cs.Sfs.Index.Single.{
  finish_double, length-clear_shorts, get-clear_shorts, get_elem?-lt, get_block-some,
  HasBlock-covers, Gives, IsUsed, IsLinked,
}

module _ (d : Disk) (ok : IsReliable d) where
  -- What double_block leaves: a block `l` for entry 11 that holds `buf` ...
  record Linked (j : ℕ) (buf : List ℕ) (inode : Inode) (s : Store d.File) : Type 0 where
    l : ℕ
    covers : length s.disk_blocks * block_size ≤ ok.size s.disk
    shorts : length s.disk_blocks ≤ 2 ^ 15
    named : entry inode 11 ≡ pos l
    used : get_elem? s.disk_blocks l ≡ some allocd
    reads : Reads d ok s.disk l buf
    sub_used : IsUsed d ok s (get_short buf j)
    sub_ne : get_short buf j ≢ pos l

  -- What sub_block leaves after it: a block `c` that short `j` of it names, whose content is `sub`.
  record SubLinked (j : ℕ) (inode : Inode) (b : ℤ) (sub : List ℕ) (s : Store d.File) : Type 0 where
    l : ℕ
    c : ℕ
    buf : List ℕ
    is_c : b ≡ pos c
    ne : c ≢ l
    full : length sub ≡ block_size
    room : HasBlock d ok s.disk c
    named : entry inode 11 ≡ pos l
    reads : Reads d ok s.disk l buf
    names : get_short buf j ≡ pos c

  abbrev GivesLinked : ℕ → Option (List ℕ × Inode × Store d.File) → Type 0
  GivesLinked j none = Unit
  GivesLinked j (some (buf, inode, s)) = Linked j buf inode s

  abbrev GivesSub : ℕ → Inode → Option (ℤ × List ℕ × Store d.File) → Type 0
  GivesSub j inode none = Unit
  GivesSub j inode (some (b, sub, s)) = SubLinked j inode b sub s

  double_old :
      (inode : Inode) (s : Store d.File) (j b : ℕ)
      → IsLinked d ok inode s
      → j < 10
      → entry inode 11 ≡ pos b
      → GivesLinked j (double_block d inode s)
  unfolding double_block
  double_old inode s j b v lt e =
      let u : IsUsed d ok s (pos b) = subst (IsUsed d ok s) e v.double in
      rw e (record {
        l = b;
        covers = v.covers;
        shorts = v.shorts;
        named = e;
        used = u;
        reads = Reads-block_read d ok s.disk b d.junk (HasBlock-covers d ok s b allocd v.covers u);
        sub_used = (v.subs b j e lt).0;
        sub_ne = (v.subs b j e lt).1;
      })

  double_new :
      (inode : Inode) (s : Store d.File) (j m : ℕ)
      → IsLinked d ok inode s
      → j < 10
      → entry inode 11 ≡ negsuc m
      → (r : Option (ℤ × List ℕ)) → get_block s.disk_blocks ≡ r
      → GivesLinked j (double_block d inode s)
  unfolding double_block
  double_new inode s j m v lt e none g = rw (e, g) tt
  double_new inode s j m v lt e (some (b, t)) g =
      let (i, p, q, u) = get_block-some s.disk_blocks t b g in
      let h = HasBlock-covers d ok s i free v.covers q in
      let buf = clear_shorts 10 d.junk in
      let lb : length buf ≡ block_size = length-clear_shorts 10 d.junk ∙ ok.length-junk in
      let n : get_short buf j ≡ minus_one =
        get-clear_shorts 10 d.junk j lt (omega (arith, ok.length-junk)) in
      let cover : length t * block_size ≤ ok.size (block_write d s.disk (pos i) buf).1 = omega (
        arith,
        length-get_block s.disk_blocks t b g,
        v.covers,
        size-block_write d ok s.disk i buf lb h,
      ) in
      rw (e, p)
        (record {
          l = i;
          covers = cover;
          shorts = omega (arith, length-get_block s.disk_blocks t b g, v.shorts);
          named = get_or-set_self inode.blocks 11 (pos i) minus_one (omega (arith, v.entries));
          used = u;
          reads = Reads-write_self d ok s.disk i buf lb h;
          sub_used = rw n tt;
          sub_ne = rw n (λ x. cc);
        })

  sub_old :
      (inode : Inode) (s : Store d.File) (j c : ℕ) (buf : List ℕ)
      → Linked j buf inode s
      → get_short buf j ≡ pos c
      → GivesSub j inode (sub_block d inode buf j s)
  unfolding sub_block
  sub_old inode s j c buf v e =
      let u : IsUsed d ok s (pos c) = subst (IsUsed d ok s) e v.sub_used in
      let h = HasBlock-covers d ok s c allocd v.covers u in
      rw e (record {
        l = v.l;
        c = c;
        buf = buf;
        is_c = refl;
        ne = λ x. v.sub_ne (e ∙ ap pos x);
        full = length-block_read d ok s.disk c buf h;
        room = h;
        named = v.named;
        reads = v.reads;
        names = e;
      })

  sub_new :
      (inode : Inode) (s : Store d.File) (j m : ℕ) (buf : List ℕ)
      → Linked j buf inode s
      → j < 10
      → get_short buf j ≡ negsuc m
      → (r : Option (ℤ × List ℕ)) → get_block s.disk_blocks ≡ r
      → GivesSub j inode (sub_block d inode buf j s)
  unfolding sub_block
  sub_new inode s j m buf v lt e none g = rw (e, g) tt
  sub_new inode s j m buf v lt e (some (b, t)) g =
      let (i, p, q, u) = get_block-some s.disk_blocks t b g in
      let hi = HasBlock-covers d ok s i free v.covers q in
      let hl = HasBlock-covers d ok s v.l allocd v.covers v.used in
      let named = set_short buf j (pos i) in
      let ln : length named ≡ block_size = length-set_short buf j (pos i) ∙ v.reads.1 in
      let sh : i < 2 ^ 15 = omega (arith, v.shorts, get_elem?-lt s.disk_blocks i free q) in
      let ne : i ≢ v.l = λ x. absurd (ground (arith, x, q, v.used)) in
      rw (e, p, v.named)
        (record {
          l = v.l;
          c = i;
          buf = named;
          is_c = refl;
          ne = ne;
          full = length-clear_shorts 100 named ∙ ln;
          room = HasBlock-write d ok s.disk v.l i named ln hl hi;
          named = v.named;
          reads = Reads-write_self d ok s.disk v.l named ln hl;
          names = get-set_short buf j (pos i) sh (omega (arith, v.reads.1));
        })

  double_linked :
      (inode : Inode) (s : Store d.File) (j : ℕ)
      → IsLinked d ok inode s
      → j < 10
      → (z : ℤ) → entry inode 11 ≡ z
      → GivesLinked j (double_block d inode s)
  double_linked inode s j v lt (pos b) e = double_old inode s j b v lt e
  double_linked inode s j v lt (negsuc m) e =
      double_new inode s j m v lt e (get_block s.disk_blocks) refl

  sub-Linked :
      (inode : Inode) (s : Store d.File) (j : ℕ) (buf : List ℕ)
      → Linked j buf inode s
      → j < 10
      → (z : ℤ) → get_short buf j ≡ z
      → GivesSub j inode (sub_block d inode buf j s)
  sub-Linked inode s j buf v lt (pos c) e = sub_old inode s j c buf v e
  sub-Linked inode s j buf v lt (negsuc m) e =
      sub_new inode s j m buf v lt e (get_block s.disk_blocks) refl

  sub_Gives :
      (inode : Inode) (n : ℕ) (index : ℤ)
      → 110 ≤ n
      → n < 1110
      → IsShort index
      → (r : Option (ℤ × List ℕ × Store d.File)) → GivesSub ((n - 110) / 100) inode r
      → Gives d ok n index
          (r >>= λ y. some (inode, write_block d y.2 y.0 (set_short y.1 ((n - 110) % 100) index)))
  sub_Gives inode n index lo hi sh none v = tt
  sub_Gives inode n index lo hi sh (some (b, sub, s)) v = rw (v.is_c) (
      finish_double d ok inode s n v.l v.c v.buf sub index lo hi sh v.named v.reads v.names v.ne
        v.room v.full)

  double_Gives :
      (n : ℕ) (index : ℤ)
      → 110 ≤ n
      → n < 1110
      → IsShort index
      → (r : Option (List ℕ × Inode × Store d.File)) → GivesLinked ((n - 110) / 100) r
      → Gives d ok n index (
          r >>= λ x. sub_block d x.1 x.0 ((n - 110) / 100) x.2 >>= λ y.
          some (x.1, write_block d y.2 y.0 (set_short y.1 ((n - 110) % 100) index)))
  double_Gives n index lo hi sh none v = tt
  double_Gives n index lo hi sh (some (buf, inode, s)) v =
      sub_Gives inode n index lo hi sh (sub_block d inode buf ((n - 110) / 100) s) (
        sub-Linked inode s ((n - 110) / 100) buf v (omega arith) (get_short buf ((n - 110) / 100))
          refl)

  pub set_double-Gives :
      (inode : Inode) (s : Store d.File) (n : ℕ) (index : ℤ)
      → IsLinked d ok inode s
      → 110 ≤ n
      → n < 1110
      → IsShort index
      → Gives d ok n index (set_double d inode n index s)
  unfolding set_double
  set_double-Gives inode s n index v lo hi sh =
      double_Gives n index lo hi sh (double_block d inode s)
        (double_linked inode s ((n - 110) / 100) v (omega arith) (entry inode 11) refl)
