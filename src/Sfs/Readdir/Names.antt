-- ===== src/Sfs/Readdir/Names.antt =====
-- The names that sfs_readdir gives are those that were entered into the directory.
use cs.Base.{
  ℕ, zero, suc, ◌+◌, ◌/◌, ◌%◌, ◌≡◌, refl, ◌≢◌, Bool-cases, inl, inr, ap, sym, ◌∙◌, List, [], ◌∷◌,
  ◌++◌, pos, some, false, ◌==◌, get_elem?, arith,
}
use mathlib.Core.List.{append_assoc, append-nil}
use cs.Sfs.State.{Inode, PathMap, Fs}
use cs.Sfs.Block.{Disk, block_read}
use cs.Sfs.Tables.{path_lookup}
use cs.Sfs.Index.{entry}
use cs.Sfs.Path.{slash, NoSlash}
use cs.Sfs.Create.{digits, entry_text}
use cs.Sfs.Mkdir.{first_entries}
use cs.Sfs.Remove.{text_of, blocks_of-some}
use cs.Sfs.Readdir.{cons_part, tokens, filled, sfs_readdir}

-- A name that is not empty and has no slash.
abbrev pub IsName : List ℕ → Type 0
IsName [] = ⊥
IsName (c ∷ cs) = NoSlash (c ∷ cs)

-- The text that entering names with their inodes appends to a directory's.
abbrev pub entries : List (List ℕ × ℕ) → List ℕ
entries [] = []
entries (e ∷ es) = entry_text e.0 e.1 ++ entries es

abbrev pub AreNames : List (List ℕ × ℕ) → Type 0
AreNames [] = Unit
AreNames (e ∷ es) = IsName e.0 × AreNames es

abbrev pub names : List (List ℕ × ℕ) → List (List ℕ)
names [] = []
names (e ∷ es) = e.0 ∷ names es

-- The names and numbers in turn.
abbrev parts : List (List ℕ × ℕ) → List (List ℕ)
parts [] = []
parts (e ∷ es) = e.0 ∷ digits 10 e.1 [] ∷ parts es

pub IsName-NoSlash : (w : List ℕ) → IsName w → NoSlash w
IsName-NoSlash [] h = tt
IsName-NoSlash (c ∷ cs) h = h

digits-onto :
    (fuel n x : ℕ) (rest : List ℕ) → NoSlash (x ∷ rest) → IsName (digits fuel n (x ∷ rest))
unfolding digits
digits-onto zero n x rest h = h
digits-onto (suc fuel) n x rest h = elim (Bool-cases (n / 10 == 0)) [
  | inl a ↦ rw (a) (λ e. omega (arith, e), h)
  | inr b ↦ rw (b) (digits-onto fuel (n / 10) (48 + n % 10) (x ∷ rest) (λ e. omega (arith, e), h))
]

-- A number is written as at least one digit.
pub digits-IsName : (n : ℕ) → IsName (digits 10 n [])
unfolding digits
digits-IsName n = elim (Bool-cases (n / 10 == 0)) [
  | inl a ↦ rw (a) (λ e. omega (arith, e), tt)
  | inr b ↦ rw (b) (digits-onto 9 (n / 10) (48 + n % 10) [] (λ e. omega (arith, e), tt))
]

cons_part-name : (w : List ℕ) (ps : List (List ℕ)) → IsName w → cons_part w ps ≡ w ∷ ps
cons_part-name [] ps h = elim h [ ]
cons_part-name (c ∷ cs) ps h = refl

tokens-word : (part w rest : List ℕ) → NoSlash w → tokens part (w ++ rest) ≡ tokens (part ++ w) rest
unfolding tokens
tokens-word part [] rest h = ap (λ p. tokens p rest) (sym (append-nil part))
tokens-word part (c ∷ w) rest h =
    let no : (c == slash) ≡ false = ground arith in
    rw (no) (
      tokens-word (part ++ c ∷ []) w rest h.1
      ∙ ap (λ p. tokens p rest) (append_assoc part (c ∷ []) w))

tokens-slash : (part t : List ℕ) → IsName part → tokens part (slash ∷ t) ≡ part ∷ tokens [] t
unfolding tokens
tokens-slash part t h = cons_part-name part (tokens [] t) h

tokens-entry :
    (part name : List ℕ) (i : ℕ) (rest : List ℕ)
    → IsName part
    → IsName name
    → tokens part (entry_text name i ++ rest) ≡ part ∷ name ∷ tokens (digits 10 i []) rest
unfolding entry_text
tokens-entry part name i rest hp hn =
    let number : List ℕ = digits 10 i [] in
    tokens-slash part ((name ++ slash ∷ number) ++ rest) hp
    ∙ ap (λ t. part ∷ tokens [] t) (append_assoc name (slash ∷ number) rest)
    ∙ ap (λ ts. part ∷ ts)
        (tokens-word [] name (slash ∷ number ++ rest) (IsName-NoSlash name hn)
          ∙ tokens-slash name (number ++ rest) hn
          ∙ ap (λ ts. name ∷ ts)
              (tokens-word [] number rest (IsName-NoSlash number (digits-IsName i))))

tokens-entries :
    (part : List ℕ) (es : List (List ℕ × ℕ))
    → IsName part
    → AreNames es
    → tokens part (entries es) ≡ part ∷ parts es
unfolding tokens
tokens-entries part [] hp h = cons_part-name part [] hp
tokens-entries part (e ∷ es) hp h =
    tokens-entry part e.0 e.1 (entries es) hp h.0
    ∙ ap (λ ts. part ∷ e.0 ∷ ts) (tokens-entries (digits 10 e.1 []) es (digits-IsName e.1) h.1)

filled-parts : (es : List (List ℕ × ℕ)) → filled (parts es) ≡ names es
unfolding filled
filled-parts [] = refl
filled-parts (e ∷ es) = ap (λ ns. e.0 ∷ ns) (filled-parts es)

-- The text that sfs_mkdir writes is an entry for "." without its slash, and one for "..".
tokens-first_entries :
    (inode parent : ℕ) (es : List (List ℕ × ℕ))
    → AreNames es
    → tokens [] (first_entries inode parent ++ entries es)
      ≡ parts ((46 ∷ [], inode) ∷ (46 ∷ 46 ∷ [], parent) ∷ es)
unfolding first_entries entry_text tokens
tokens-first_entries inode parent es h =
    let dot : List ℕ = 46 ∷ [] in
    let number : List ℕ = digits 10 inode [] in
    let entry : List ℕ = entry_text (46 ∷ 46 ∷ []) parent in
    tokens-slash dot ((number ++ entry) ++ entries es) (λ e. omega (arith, e), tt)
    ∙ ap (λ t. dot ∷ tokens [] t) (append_assoc number entry (entries es))
    ∙ ap (λ ts. dot ∷ ts)
        (tokens-word [] number (entry ++ entries es) (IsName-NoSlash number (digits-IsName inode))
          ∙ tokens-entries number ((46 ∷ 46 ∷ [], parent) ∷ es) (digits-IsName inode)
              (((λ e. omega (arith, e)), ((λ e. omega (arith, e)), tt)), h))

filled-first_entries :
    (inode parent : ℕ) (es : List (List ℕ × ℕ))
    → AreNames es
    → filled (tokens [] (first_entries inode parent ++ entries es))
      ≡ (46 ∷ []) ∷ (46 ∷ 46 ∷ []) ∷ names es
filled-first_entries inode parent es h =
    ap filled (tokens-first_entries inode parent es h)
    ∙ filled-parts ((46 ∷ [], inode) ∷ (46 ∷ 46 ∷ [], parent) ∷ es)

-- Of a directory of a size other than 0, whose first block holds the text that sfs_mkdir has written
-- for it, with the entries behind it that have been appended for a list of names, each not empty and
-- without a slash, sfs_readdir gives ".", ".." and these names, in this order.
pub sfs_readdir-entries :
    (d : Disk) (s : Fs d.File) (path : List ℕ) (k i parent : ℕ) (m : PathMap) (inode : Inode)
    → (es : List (List ℕ × ℕ)) → path_lookup s.name_table path ≡ pos k
    → get_elem? s.name_table k ≡ some m
    → m.st_ino ≡ pos i
    → get_elem? s.inode_table i ≡ some inode
    → inode.stat.st_size ≢ pos 0
    → text_of (block_read d s.store.disk (entry inode 0) d.junk).1
      ≡ some (first_entries i parent ++ entries es)
    → AreNames es
    → sfs_readdir d path s ≡ some (pos 0, (46 ∷ []) ∷ (46 ∷ 46 ∷ []) ∷ names es)
unfolding sfs_readdir
sfs_readdir-entries d s path k i parent m inode es hp hm hi hn size ht h =
    rw
      (
        sfs_readdir,
        hp,
        hm,
        hi,
        hn,
        blocks_of-some inode.stat.st_size size,
        ht,
        filled-first_entries i parent es h,
      )
      refl
