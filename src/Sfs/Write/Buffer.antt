-- ===== src/Sfs/Write/Buffer.antt =====
-- The buffer of sfs_write in asst3/assignment3/src/sfs.c, with the bytes copied in.
use cs.Base.{
  ℕ, zero, suc, ◌+◌, ◌-◌, ◌*◌, ◌/◌, ◌%◌, ◌≤◌, ◌<◌, ◌≡◌, refl, ◌∙◌, List, ◌++◌, some, true, false,
  ltb, leb, ◌==◌, ◌&&◌, if◌then◌else◌, get_or, take, drop, length, replicate, arith, Bool-cases,
  inl, inr, length-append, length-take, length-drop, get_or-append_left, get_or-append_right,
  get_or-take, get_or-drop, ltb→lt,
}
use cs.Sfs.Block.{block_size}
use cs.Sfs.Write.{copy_in}
use cs.Sfs.Write.Content.{within}

pub get_or-zeros : (n i : ℕ) → get_or {A = ℕ} (replicate n 0) i 0 ≡ 0
get_or-zeros zero i = refl
get_or-zeros (suc n) zero = refl
get_or-zeros (suc n) (suc i) = get_or-zeros n i

-- The copy lies over the buffer at its offset.
pub copy_in_lem :
    (o : ℕ) (bytes buf : List ℕ)
    → o + length bytes ≤ length buf
    → (out : List ℕ) × (copy_in o bytes buf ≡ some out)
      × (length out ≡ length buf)
      × ((j : ℕ)
          → get_or out j 0 ≡ (
              if leb o j && ltb j (o + length bytes)
              then get_or bytes (j - o) 0
              else get_or buf j 0))
unfolding copy_in
copy_in_lem o bytes buf h =
    let a : ltb (length buf) (o + length bytes) ≡ false = ground arith in
    let front : length (take o buf) ≡ o = omega (arith, length-take o buf) in
    let rest = drop (o + length bytes) buf in
    let head : length (take o buf ++ bytes) ≡ o + length bytes =
      omega (arith, length-append (take o buf) bytes) in
    (
      take o buf ++ bytes ++ rest,
      rw a refl,
      omega (arith, length-append (take o buf ++ bytes) rest, length-drop (o + length bytes) buf),
      λ j. elim (Bool-cases (ltb j o)) [
        | inl e ↦
            let lt : j < o = ltb→lt j o e in
            let c : (leb o j && ltb j (o + length bytes)) ≡ false = ground arith in
            rw c (
              get_or-append_left (take o buf ++ bytes) rest j 0 (omega arith)
              ∙ get_or-append_left (take o buf) bytes j 0 (omega arith)
              ∙ get_or-take o buf j 0 lt)
        | inr e ↦ elim (Bool-cases (ltb j (o + length bytes))) [
          | inl f ↦
              let c : (leb o j && ltb j (o + length bytes)) ≡ true = ground arith in
              rw c (
                get_or-append_left (take o buf ++ bytes) rest j 0 (ground arith)
                ∙ get_or-append_right (take o buf) bytes j (j - o) 0 (ground arith))
          | inr f ↦
              let c : (leb o j && ltb j (o + length bytes)) ≡ false = ground arith in
              rw c (
                get_or-append_right (take o buf ++ bytes) rest j (j - (o + length bytes)) 0
                  (ground arith)
                ∙ get_or-drop (o + length bytes) buf (j - (o + length bytes)) j 0 (ground arith))
        ]
      ],
    )

-- Byte `k` of a file once `bytes` have been written at `offset`: of the last block reached, the bytes behind
-- them are cleared, unless it is the first one too; all others are as they were.
abbrev pub overwritten : ℕ → List ℕ → (ℕ → ℕ) → ℕ → ℕ
overwritten offset bytes old k =
    if leb offset k && ltb k (offset + length bytes)
    then get_or bytes (k - offset) 0
    else if leb (offset + length bytes) k
        && (k / block_size == (offset + length bytes - 1) / block_size)
        && ltb (offset / block_size) (k / block_size)
    then 0
    else old k

-- The buffer written back from block `offset / 512` on, and what it was made from.
pub overwritten_lem :
    (offset k x y f : ℕ) (bytes : List ℕ) (old : ℕ → ℕ)
    → 0 < length bytes
    → x ≡ (
        if within (offset / block_size) ((offset % 512 + length bytes + 511) / 512) k
        then y
        else old k)
    → y ≡ (
        if leb (offset % block_size) (k - offset / block_size * block_size)
          && ltb (k - offset / block_size * block_size) (offset % block_size + length bytes)
        then get_or bytes (k - offset / block_size * block_size - offset % block_size) 0
        else f)
    → f ≡ (
        if ltb (k - offset / block_size * block_size) block_size
        then old (offset / block_size * block_size + (k - offset / block_size * block_size))
        else 0)
    → x ≡ overwritten offset bytes old k
overwritten_lem offset k x y f bytes old some_bytes p q r =
    elim (Bool-cases (leb offset k && ltb k (offset + length bytes))) [
      | inl e ↦
          let a : within (offset / block_size) ((offset % 512 + length bytes + 511) / 512) k
              ≡ true =
            ground arith in
          let b : (leb (offset % block_size) (k - offset / block_size * block_size)
                && ltb (k - offset / block_size * block_size) (offset % block_size + length bytes))
              ≡ true =
            ground arith in
          let c : k - offset / block_size * block_size - offset % block_size ≡ k - offset =
            ground arith in
          let p' : x ≡ y = rw a at p in
          let q' : y ≡ get_or bytes (k - offset) 0 = rw (b, c) at q in rw e (p' ∙ q')
      | inr e ↦
          elim (Bool-cases
            (within (offset / block_size) ((offset % 512 + length bytes + 511) / 512) k)) [
              | inr a ↦
                  let c : (leb (offset + length bytes) k
                        && (k / block_size == (offset + length bytes - 1) / block_size)
                        && ltb (offset / block_size) (k / block_size))
                      ≡ false =
                    ground arith in
                  let p' : x ≡ old k = rw a at p in rw (e, c) p'
              | inl a ↦
                  let b : (leb (offset % block_size) (k - offset / block_size * block_size)
                        && ltb (k - offset / block_size * block_size)
                            (offset % block_size + length bytes))
                      ≡ false =
                    ground arith in
                  let p' : x ≡ y = rw a at p in
                  let q' : y ≡ f = rw b at q in
                  elim (Bool-cases (ltb (k - offset / block_size * block_size) block_size)) [
                    | inl g ↦
                        let c : (leb (offset + length bytes) k
                              && (k / block_size == (offset + length bytes - 1) / block_size)
                              && ltb (offset / block_size) (k / block_size))
                            ≡ false =
                          ground arith in
                        let i : offset / block_size * block_size
                              + (k - offset / block_size * block_size)
                            ≡ k =
                          ground arith in
                        let r' : f ≡ old k = rw (g, i) at r in rw (e, c) (p' ∙ q' ∙ r')
                    | inr g ↦
                        let c : (leb (offset + length bytes) k
                              && (k / block_size == (offset + length bytes - 1) / block_size)
                              && ltb (offset / block_size) (k / block_size))
                            ≡ true =
                          ground arith in
                        let r' : f ≡ 0 = rw g at r in rw (e, c) (p' ∙ q' ∙ r')
                  ]
            ]
    ]
