-- ===== src/Sfs/Mkdir/Text.antt =====
-- The text that sfs_mkdir writes for a directory, as it is read again.
use cs.Base.{
  ℕ, zero, suc, ◌+◌, ◌/◌, ◌%◌, ◌≡◌, ◌≢◌, refl, inl, inr, ap, sym, ◌∙◌, List, [], ◌∷◌, ◌++◌, some,
  false, ltb, ◌==◌, length, drop, arith, Bool-cases,
}
use cs.Sfs.Write.{copy_in}
use cs.Sfs.Path.{slash}
use cs.Sfs.Create.{digits}
use cs.Sfs.Remove.{text_of}
use cs.Sfs.Mkdir.{first_entries}

-- No byte of the text is 0.
abbrev pub NoZero : List ℕ → Type 0
NoZero [] = Unit
NoZero (c ∷ cs) = (c ≢ 0) × NoZero cs

NoZero-append : (xs ys : List ℕ) → NoZero xs → NoZero ys → NoZero (xs ++ ys)
NoZero-append [] ys h k = k
NoZero-append (x ∷ xs) ys h k = (h.0, NoZero-append xs ys h.1 k)

digits-NoZero : (fuel n : ℕ) (rest : List ℕ) → NoZero rest → NoZero (digits fuel n rest)
unfolding digits
digits-NoZero zero n rest h = h
digits-NoZero (suc fuel) n rest h = elim (Bool-cases (n / 10 == 0)) [
  | inl a ↦ rw a ((λ e. omega (arith, e)), h)
  | inr b ↦ rw b (digits-NoZero fuel (n / 10) ((48 + n % 10) ∷ rest) ((λ e. omega (arith, e)), h))
]

pub first_entries-NoZero : (inode parent : ℕ) → NoZero (first_entries inode parent)
unfolding first_entries
first_entries-NoZero inode parent =
    let number = digits-NoZero 10 parent [] tt in
    let rest : NoZero (slash ∷ 46 ∷ 46 ∷ slash ∷ digits 10 parent []) = (
      (λ e. omega (arith, e)),
      ((λ e. omega (arith, e)), ((λ e. omega (arith, e)), ((λ e. omega (arith, e)), number))),
    ) in
    (
      (λ e. omega (arith, e)),
      (
        (λ e. omega (arith, e)),
        NoZero-append (digits 10 inode []) _ (digits-NoZero 10 inode [] tt) rest,
      ),
    )

text_of-append : (xs rest : List ℕ) → NoZero xs → text_of ((xs ++ 0 ∷ []) ++ rest) ≡ some xs
unfolding text_of
text_of-append [] rest h = refl
text_of-append (x ∷ xs) rest h =
    let a : (x == 0) ≡ false = ground arith in rw (a, text_of-append xs rest h.1) refl

-- The text at the start of a buffer that it has been copied to.
pub text_of-copy_in :
    (xs buf out : List ℕ)
    → NoZero xs
    → copy_in 0 (xs ++ 0 ∷ []) buf ≡ some out
    → text_of out ≡ some xs
unfolding copy_in
text_of-copy_in xs buf out h e = elim (Bool-cases (ltb (length buf) (0 + length (xs ++ 0 ∷ [])))) [
  | inl a ↦ absurd (ground (arith, rw a at e))
  | inr a ↦
      let rest = drop (0 + length (xs ++ 0 ∷ [])) buf in
      let e' : some ((xs ++ 0 ∷ []) ++ rest) ≡ some out = rw a at e in
      let same : (xs ++ 0 ∷ []) ++ rest ≡ out = ground arith in
      ap text_of (sym same) ∙ text_of-append xs rest h
]
