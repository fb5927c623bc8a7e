-- ===== src/Sfs/Remove/Entries.antt =====
-- What sfs_unlink and sfs_rmdir take out of the text of a directory.
use cs.Base.{
  ℕ, zero, suc, ◌+◌, ◌/◌, ◌%◌, ◌≤◌, ◌≡◌, refl, ◌≢◌, Bool-cases, inl, inr, ap, ap₂, subst, sym, ◌∙◌,
  List, [], ◌∷◌, ◌++◌, true, false, ◌==◌, length, arith,
}
use mathlib.Core.List.{append_assoc, append-nil}
use cs.Sfs.Path.{slash, NoSlash}
use cs.Sfs.Create.{digits, entry_text}
use cs.Sfs.Mkdir.{first_entries}
use cs.Sfs.Remove.{starts_with, remove_substring}
use cs.Sfs.Readdir.Names.{IsName, AreNames, entries, IsName-NoSlash, digits-IsName}
use cs.Sfs.Remove.Match.{Removes, Removes-nil, Removes-keep, Removes-match, Removes-word}

abbrev pub IsDigit : ℕ → Type 0
IsDigit c = (48 ≤ c) × (c ≤ 57)

-- The text starts with a digit.
abbrev IsNumeric : List ℕ → Type 0
IsNumeric [] = ⊥
IsNumeric (c ∷ cs) = IsDigit c

digits-rest : (fuel n x : ℕ) (rest : List ℕ) → IsDigit x → IsNumeric (digits fuel n (x ∷ rest))
unfolding digits
digits-rest zero n x rest h = h
digits-rest (suc fuel) n x rest h = elim (Bool-cases (n / 10 == 0)) [
  | inl a ↦ rw (a) (omega arith, omega arith)
  | inr b ↦ rw (b) (digits-rest fuel (n / 10) (48 + n % 10) (x ∷ rest) (omega arith, omega arith))
]

digits-IsNumeric : (n : ℕ) → IsNumeric (digits 10 n [])
unfolding digits
digits-IsNumeric n = elim (Bool-cases (n / 10 == 0)) [
  | inl a ↦ rw (a) (omega arith, omega arith)
  | inr b ↦ rw (b) (digits-rest 9 (n / 10) (48 + n % 10) [] (omega arith, omega arith))
]

starts_with-name :
    (n s w x : List ℕ)
    → NoSlash n
    → NoSlash w
    → starts_with (n ++ slash ∷ s) (w ++ slash ∷ x) ≡ true
    → n ≡ w
unfolding starts_with
starts_with-name [] s [] x hn hw e = refl
starts_with-name [] s (b ∷ w) x hn hw e = absurd (ground (arith, hw.0))
starts_with-name (c ∷ n) s [] x hn hw e = absurd (ground (arith, hn.0))
starts_with-name (c ∷ n) s (b ∷ w) x hn hw e = elim (Bool-cases (c == b)) [
  | inl p ↦ ap₂ (λ y ys. y ∷ ys) (ground arith) (starts_with-name n s w x hn.1 hw.1 (ground arith))
  | inr p ↦ absurd (ground arith)
]

-- The text of a name that starts with a byte that is no digit, and a number.
abbrev own : ℕ → List ℕ → ℕ → List ℕ
own c name i = entry_text (c ∷ name) i

Removes-plain :
    (c i : ℕ) (name t r w : List ℕ)
    → NoSlash w
    → Removes (own c name i) t r
    → Removes (own c name i) (w ++ t) (w ++ r)
unfolding entry_text
Removes-plain c i name t r w h rest =
    Removes-word ((c ∷ name) ++ slash ∷ digits 10 i []) t r w h rest

starts_with-number :
    (c : ℕ) (x ds t : List ℕ)
    → ¬ IsDigit c
    → IsNumeric ds
    → starts_with (slash ∷ c ∷ x) (slash ∷ ds ++ t) ≡ false
unfolding starts_with
starts_with-number c x [] t h d = elim d [ ]
starts_with-number c x (b ∷ ds) t h d = elim (Bool-cases (c == b)) [
  | inl p ↦ absurd (let e : c ≡ b = ground arith in h (omega arith, omega arith))
  | inr p ↦ rw (p) refl
]

Removes-number :
    (c i j : ℕ) (name t r : List ℕ)
    → ¬ IsDigit c
    → Removes (own c name i) t r
    → Removes (own c name i) (slash ∷ digits 10 j [] ++ t) (slash ∷ digits 10 j [] ++ r)
unfolding entry_text
Removes-number c i j name t r h rest =
    Removes-keep (own c name i) (number ++ t) (number ++ r) slash
      (starts_with-number c (name ++ slash ∷ digits 10 i []) number t h (digits-IsNumeric j))
      (Removes-word ((c ∷ name) ++ slash ∷ digits 10 i []) t r number
        (IsName-NoSlash number (digits-IsName j)) rest)
  where
    number : List ℕ
    number = digits 10 j []

Removes-other :
    (c i j : ℕ) (name w t r : List ℕ)
    → ¬ IsDigit c
    → NoSlash (c ∷ name)
    → NoSlash w
    → (c ∷ name) ≢ w
    → Removes (own c name i) t r
    → Removes (own c name i) (entry_text w j ++ t) (entry_text w j ++ r)
unfolding entry_text starts_with
Removes-other c i j name w t r h hn hw ne rest =
    rw (append_assoc w (slash ∷ digits 10 j []) t, append_assoc w (slash ∷ digits 10 j []) r)
      (Removes-keep (own c name i) (w ++ (slash ∷ digits 10 j [] ++ t))
        (w ++ (slash ∷ digits 10 j [] ++ r)) slash differs
        (Removes-word ((c ∷ name) ++ slash ∷ digits 10 i []) (slash ∷ digits 10 j [] ++ t)
          (slash ∷ digits 10 j [] ++ r) w hw (Removes-number c i j name t r h rest)))
  where
    differs : starts_with (own c name i) (slash ∷ (w ++ (slash ∷ digits 10 j [] ++ t))) ≡ false
    differs =
        elim (Bool-cases
          (starts_with (own c name i) (slash ∷ (w ++ (slash ∷ digits 10 j [] ++ t))))) [
            | inl p ↦
                absurd (
                  ne (starts_with-name (c ∷ name) (digits 10 i []) w (digits 10 j [] ++ t) hn hw p))
            | inr p ↦ p
          ]

-- No entry has the name.
abbrev pub Without : List ℕ → List (List ℕ × ℕ) → Type 0
Without name [] = Unit
Without name (e ∷ es) = (name ≢ e.0) × Without name es

Removes-entries :
    (c i : ℕ) (name t r : List ℕ) (es : List (List ℕ × ℕ))
    → ¬ IsDigit c
    → NoSlash (c ∷ name)
    → AreNames es
    → Without (c ∷ name) es
    → Removes (own c name i) t r
    → Removes (own c name i) (entries es ++ t) (entries es ++ r)
Removes-entries c i name t r [] h hn hs ne rest = rest
Removes-entries c i name t r (e ∷ es) h hn hs ne rest =
    rw
      (
        append_assoc (entry_text e.0 e.1) (entries es) t,
        append_assoc (entry_text e.0 e.1) (entries es) r,
      )
      (Removes-other c i e.1 name e.0 (entries es ++ t) (entries es ++ r) h hn
        (IsName-NoSlash e.0 hs.0) ne.0 (Removes-entries c i name t r es h hn hs.1 ne.1 rest))

Removes-own :
    (c i : ℕ) (name : List ℕ) (es : List (List ℕ × ℕ))
    → ¬ IsDigit c
    → NoSlash (c ∷ name)
    → AreNames es
    → Without (c ∷ name) es
    → Removes (own c name i) (own c name i ++ entries es) (entries es)
unfolding entry_text
Removes-own c i name es h hn hs ne =
    Removes-match slash ((c ∷ name) ++ slash ∷ digits 10 i []) (entries es) (entries es) (
      subst (λ t. Removes (own c name i) t t) (append-nil (entries es))
        (Removes-entries c i name [] [] es h hn hs ne (Removes-nil (own c name i))))

entries-append : (es fs : List (List ℕ × ℕ)) → entries (es ++ fs) ≡ entries es ++ entries fs
entries-append [] fs = refl
entries-append (e ∷ es) fs =
    ap (λ t. entry_text e.0 e.1 ++ t) (entries-append es fs)
    ∙ sym (append_assoc (entry_text e.0 e.1) (entries es) (entries fs))

remove_substring-Removes : (sub t r : List ℕ) → Removes sub t r → remove_substring sub t ≡ r
unfolding Removes remove_substring
remove_substring-Removes sub t r h = h (length t) (omega arith)

abbrev pub dots : List ℕ
dots = 46 ∷ 46 ∷ []

dots-IsName : IsName dots
dots-IsName = ((λ e. omega (arith, e)), ((λ e. omega (arith, e)), tt))

first_entries-entries :
    (inode parent : ℕ) (es : List (List ℕ × ℕ))
    → first_entries inode parent ++ entries es
      ≡ (46 ∷ []) ++ (slash ∷ digits 10 inode [] ++ entries ((dots, parent) ∷ es))
unfolding first_entries entry_text
first_entries-entries inode parent es =
    ap (λ t. 46 ∷ slash ∷ t)
      (append_assoc (digits 10 inode []) (entry_text dots parent) (entries es))

-- In the text of a directory, as sfs_mkdir writes it and later entries are appended, removeSubstring
-- with the text of one entry takes out exactly this entry, if its name does not start with a digit and
-- is not `..`, all names are not empty and without a slash, and no other entry has the name.
pub remove_substring-entries :
    (c i inode parent : ℕ) (name : List ℕ) (es fs : List (List ℕ × ℕ))
    → ¬ IsDigit c
    → NoSlash (c ∷ name)
    → (c ∷ name) ≢ dots
    → AreNames es
    → AreNames fs
    → Without (c ∷ name) es
    → Without (c ∷ name) fs
    → remove_substring
        (entry_text (c ∷ name) i)
        (first_entries inode parent ++ entries (es ++ ((c ∷ name, i) ∷ fs)))
      ≡ first_entries inode parent ++ entries (es ++ fs)
remove_substring-entries c i inode parent name es fs h hn ne he hf we wf =
    rw
      (
        first_entries-entries inode parent (es ++ ((c ∷ name, i) ∷ fs)),
        first_entries-entries inode parent (es ++ fs),
      )
      (remove_substring-Removes sub _ _ (
        Removes-plain c i name _ _ (46 ∷ []) ((λ e. omega (arith, e)), tt)
          (Removes-number c i inode name _ _ h inner)))
  where
    sub : List ℕ
    sub = entry_text (c ∷ name) i

    all : List (List ℕ × ℕ)
    all = (dots, parent) ∷ es

    inner : Removes sub (entries (all ++ ((c ∷ name, i) ∷ fs))) (entries (all ++ fs))
    inner =
        rw (entries-append all ((c ∷ name, i) ∷ fs), entries-append all fs)
          (Removes-entries c i name _ _ all h hn (dots-IsName, he) (ne, we)
            (Removes-own c i name fs h hn hf wf))
