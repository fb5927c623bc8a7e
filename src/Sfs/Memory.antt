-- ===== src/Sfs/Memory.antt =====
-- A disk file in memory, for the tests: 16 MB of bytes, that can be read and written up to its end.
use cs.Base.{
  ℕ, zero, suc, ◌+◌, ◌-◌, ◌≤◌, ◌<◌, ◌≡◌, refl, ap, ap₂, subst, sym, ◌∙◌, ◌⊎◌, inl, inr, List, [],
  ◌∷◌, ℤ, pos, negsuc, minus_one, true, leb, ltb, ◌&&◌, if◌then◌else◌, get_or, length, replicate,
  length-replicate, arith,
}
use cs.Sfs.Block.{Disk, IsReliable, block_size}

abbrev pub size : ℕ
size = 16777216

-- The `n` bytes from `o` on.
unfoldable pub bytes : ℕ → ℕ → (ℕ → ℕ) → List ℕ
bytes zero o f = []
bytes (suc n) o f = f o ∷ bytes n (o + 1) f

-- The byte at `p` once `b` has been written at `o`.
unfoldable pub written : (ℕ → ℕ) → ℕ → List ℕ → ℕ → ℕ
written f o b p = if leb o p && ltb p (o + block_size) then get_or b (p - o) 0 else f p

unfoldable pub read_at : (ℕ → ℕ) → ℤ → List ℕ → ℤ × List ℕ
read_at f (negsuc n) old = (minus_one, old)
read_at f (pos o) old =
    if leb (o + block_size) size then (pos block_size, bytes block_size o f) else (pos 0, old)

unfoldable pub write_at : (ℕ → ℕ) → ℤ → List ℕ → ℤ × (ℕ → ℕ)
write_at f (negsuc n) b = (minus_one, f)
write_at f (pos o) b =
    if leb (o + block_size) size then (pos block_size, written f o b) else (pos 0, f)

abbrev pub memory : Disk
memory = record { File = ℕ → ℕ; pread = read_at; pwrite = write_at; junk = replicate block_size 0 }

pub length-bytes : (n o : ℕ) (f : ℕ → ℕ) → length (bytes n o f) ≡ n
unfolding bytes
length-bytes zero o f = refl
length-bytes (suc n) o f = omega (arith, length-bytes n (o + 1) f)

bytes-list :
    (n o : ℕ) (f : ℕ → ℕ) (b : List ℕ)
    → length b ≡ n
    → ((j : ℕ) → j < n → f (o + j) ≡ get_or b j 0)
    → bytes n o f ≡ b
unfolding bytes
bytes-list zero o f [] e h = refl
bytes-list zero o f (x ∷ b) e h = absurd (omega (arith, e))
bytes-list (suc n) o f [] e h = absurd (omega (arith, e))
bytes-list (suc n) o f (x ∷ b) e h =
    ap₂ (λ y ys. y ∷ ys) (subst (λ p. f p ≡ x) (omega arith) (h 0 (omega arith)))
      (bytes-list n (o + 1) f b (omega (arith, e))
        (λ j l. subst (λ p. f p ≡ get_or b j 0) (omega arith) (h (suc j) (omega (arith, l)))))

bytes-same :
    (n o : ℕ) (f g : ℕ → ℕ) → ((j : ℕ) → j < n → f (o + j) ≡ g (o + j)) → bytes n o f ≡ bytes n o g
unfolding bytes
bytes-same zero o f g h = refl
bytes-same (suc n) o f g h =
    ap₂ (λ y ys. y ∷ ys) (subst (λ p. f p ≡ g p) (omega arith) (h 0 (omega arith)))
      (bytes-same n (o + 1) f g
        (λ j l. subst (λ p. f p ≡ g p) (omega arith) (h (suc j) (omega (arith, l)))))

written_self :
    (f : ℕ → ℕ) (o j : ℕ) (b : List ℕ) → j < block_size → written f o b (o + j) ≡ get_or b j 0
unfolding written
written_self f o j b h = rw (in_range, cancel) refl
  where
    in_range : (leb o (o + j) && ltb (o + j) (o + block_size)) ≡ true
    in_range = ground arith

    cancel : o + j - o ≡ j
    cancel = omega arith

written_other :
    (f : ℕ → ℕ) (o p : ℕ) (b : List ℕ) → (p < o) ⊎ (o + block_size ≤ p) → written f o b p ≡ f p
unfolding written
written_other f o p b (inl h) = ground arith
written_other f o p b (inr h) = ground arith

pub read_at-inside :
    (f : ℕ → ℕ) (o : ℕ) (old : List ℕ)
    → o + block_size ≤ size
    → read_at f (pos o) old ≡ (pos block_size, bytes block_size o f)
unfolding read_at
read_at-inside f o old h = ground arith

pub read_at-end :
    (f : ℕ → ℕ) (o : ℕ) (old : List ℕ) → size ≤ o → read_at f (pos o) old ≡ (pos 0, old)
unfolding read_at
read_at-end f o old h = ground arith

pub write_at-inside :
    (f : ℕ → ℕ) (o : ℕ) (b : List ℕ)
    → o + block_size ≤ size
    → write_at f (pos o) b ≡ (pos block_size, written f o b)
unfolding write_at
write_at-inside f o b h = ground arith

pub bytes-written_self :
    (f : ℕ → ℕ) (o : ℕ) (b : List ℕ)
    → length b ≡ block_size
    → bytes block_size o (written f o b) ≡ b
bytes-written_self f o b l =
    bytes-list block_size o (written f o b) b l (λ j lt. written_self f o j b lt)

pub bytes-written_other :
    (f : ℕ → ℕ) (o p : ℕ) (b : List ℕ)
    → (p + block_size ≤ o) ⊎ (o + block_size ≤ p)
    → bytes block_size p (written f o b) ≡ bytes block_size p f
bytes-written_other f o p b (inl h) =
    bytes-same block_size p (written f o b) f
      (λ j lt. written_other f o (p + j) b (inl (omega arith)))
bytes-written_other f o p b (inr h) =
    bytes-same block_size p (written f o b) f
      (λ j lt. written_other f o (p + j) b (inr (omega arith)))

unfoldable pub memory-IsReliable : IsReliable memory
unfolding read_at write_at
memory-IsReliable = record {
  size = λ f. size;
  length-junk = length-replicate {A = ℕ} block_size 0;
  size-pwrite = λ f o b l h. refl;
  pread-pwrite_self = λ f o b old l h.
      ap (λ r. read_at r.1 (pos o) old) (write_at-inside f o b h)
      ∙ read_at-inside (written f o b) o old h
      ∙ ap (λ x. (pos block_size, x)) (bytes-written_self f o b l);
  pread-pwrite_other = λ f o p b old l h k ne.
      ap (λ r. read_at r.1 (pos p) old) (write_at-inside f o b h)
      ∙ read_at-inside (written f o b) p old k
      ∙ ap (λ x. (pos block_size, x)) (bytes-written_other f o p b ne)
      ∙ sym (read_at-inside f p old k);
  pread-full = λ f o old h. (
    ap (λ r. r.0) (read_at-inside f o old h),
    ap (λ r. length r.1) (read_at-inside f o old h) ∙ length-bytes block_size o f,
  );
  pread-old = λ f o old older h. read_at-inside f o old h ∙ sym (read_at-inside f o older h);
  pread-end = λ f o old h. read_at-end f o old h;
  pread-negative = λ f n old. refl;
  pwrite-negative = λ f n b. refl;
}
