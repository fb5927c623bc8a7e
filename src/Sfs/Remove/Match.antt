-- ===== src/Sfs/Remove/Match.antt =====
-- The steps of removeSubstring in asst3/assignment3/src/sfs.c.
use cs.Base.{
  ℕ, zero, suc, ◌≤◌, ◌≡◌, refl, ap, List, [], ◌∷◌, ◌++◌, true, false, ◌==◌, length, drop, arith,
}
use cs.Sfs.Path.{slash, NoSlash}
use cs.Sfs.Remove.{starts_with, remove_from}

-- With fuel for its length, the text becomes `r`.
unfoldable pub Removes : List ℕ → List ℕ → List ℕ → Type 0
Removes sub t r = (fuel : ℕ) → length t ≤ fuel → remove_from fuel sub t ≡ r

pub Removes-nil : (sub : List ℕ) → Removes sub [] []
unfolding Removes remove_from
Removes-nil sub zero h = refl
Removes-nil sub (suc fuel) h = refl

pub Removes-keep :
    (sub t r : List ℕ) (c : ℕ)
    → starts_with sub (c ∷ t) ≡ false
    → Removes sub t r
    → Removes sub (c ∷ t) (c ∷ r)
unfolding Removes remove_from
Removes-keep sub t r c n h zero l = absurd (omega (arith, l))
Removes-keep sub t r c n h (suc fuel) l = rw (n) (ap (λ x. c ∷ x) (h fuel (omega (arith, l))))

starts_with-append : (sub t : List ℕ) → starts_with sub (sub ++ t) ≡ true
unfolding starts_with
starts_with-append [] t = refl
starts_with-append (c ∷ sub) t =
    let same : (c == c) ≡ true = ground arith in rw (same) (starts_with-append sub t)

drop-append : (sub t : List ℕ) → drop (length sub) (sub ++ t) ≡ t
drop-append [] t = refl
drop-append (c ∷ sub) t = drop-append sub t

length-append_le : (sub t : List ℕ) → length t ≤ length (sub ++ t)
length-append_le [] t = omega arith
length-append_le (c ∷ sub) t = omega (arith, length-append_le sub t)

pub Removes-match :
    (c : ℕ) (s t r : List ℕ) → Removes (c ∷ s) t r → Removes (c ∷ s) ((c ∷ s) ++ t) r
unfolding Removes remove_from
Removes-match c s t r h zero l = absurd (omega (arith, l))
Removes-match c s t r h (suc fuel) l =
    rw (starts_with-append (c ∷ s) t, drop-append (c ∷ s) t)
      (h fuel (omega (arith, l, length-append_le s t)))

pub Removes-word :
    (s t r w : List ℕ) → NoSlash w → Removes (slash ∷ s) t r → Removes (slash ∷ s) (w ++ t) (w ++ r)
unfolding starts_with
Removes-word s t r [] n h = h
Removes-word s t r (c ∷ w) n h =
    Removes-keep (slash ∷ s) (w ++ t) (w ++ r) c (ground (arith, n.0)) (Removes-word s t r w n.1 h)
