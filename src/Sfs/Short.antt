-- ===== src/Sfs/Short.antt =====
-- A buffer of bytes read as an array of 16-bit integers, `((short *)buf)[i]`, low byte first.
use cs.Base.{
  ℕ, ◌+◌, ◌-◌, ◌*◌, ◌/◌, ◌%◌, ◌^◌, ◌<◌, ◌≡◌, ◌≢◌, refl, List, ℤ, pos, negsuc, length, get_or, set,
  ltb, if◌then◌else◌, arith, length-set, get_or-set_self, get_or-set_ne,
}

-- The bit pattern of a short, and the short of a bit pattern.
abbrev pub to_word : ℤ → ℕ
to_word (pos n) = n % 2 ^ 16
to_word (negsuc n) = 2 ^ 16 - 1 - n % 2 ^ 16

abbrev pub of_word : ℕ → ℤ
of_word w = if ltb w (2 ^ 15) then pos w else negsuc (2 ^ 16 - 1 - w)

-- The value fits a short.
abbrev pub IsShort : ℤ → Type 0
IsShort (pos n) = n < 2 ^ 15
IsShort (negsuc n) = n < 2 ^ 15

unfoldable pub get_short : List ℕ → ℕ → ℤ
get_short buf i = of_word (get_or buf (2 * i) 0 + 2 ^ 8 * get_or buf (2 * i + 1) 0)

unfoldable pub set_short : List ℕ → ℕ → ℤ → List ℕ
set_short buf i v = set (set buf (2 * i) (to_word v % 2 ^ 8)) (2 * i + 1) (to_word v / 2 ^ 8)

of_word-to_word :
    (v : ℤ) → IsShort v → of_word (to_word v % 2 ^ 8 + 2 ^ 8 * (to_word v / 2 ^ 8)) ≡ v
of_word-to_word (pos n) h = ground arith
of_word-to_word (negsuc n) h = ground arith

pub length-set_short : (buf : List ℕ) (i : ℕ) (v : ℤ) → length (set_short buf i v) ≡ length buf
unfolding set_short
length-set_short buf i v = rw (length-set, length-set)

-- A value that fits a short and has been written inside a buffer is read back.
pub get-set_short :
    (buf : List ℕ) (i : ℕ) (v : ℤ)
    → IsShort v
    → 2 * i + 1 < length buf
    → get_short (set_short buf i v) i ≡ v
unfolding get_short set_short
get-set_short buf i v s h =
    rw
      (
        get_or-set_ne (set buf (2 * i) (to_word v % 2 ^ 8)) (2 * i + 1) (2 * i) (to_word v / 2 ^ 8)
            0 (omega arith),
        get_or-set_self buf (2 * i) (to_word v % 2 ^ 8) 0 (omega arith),
        get_or-set_self (set buf (2 * i) (to_word v % 2 ^ 8)) (2 * i + 1) (to_word v / 2 ^ 8) 0
            (omega (arith, length-set buf (2 * i) (to_word v % 2 ^ 8))),
      )
      (of_word-to_word v s)

-- The other shorts stay.
pub get-set_short_ne :
    (buf : List ℕ) (i j : ℕ) (v : ℤ) → i ≢ j → get_short (set_short buf i v) j ≡ get_short buf j
unfolding get_short set_short
get-set_short_ne buf i j v n =
    rw
      (
        get_or-set_ne (set buf (2 * i) (to_word v % 2 ^ 8)) (2 * i + 1) (2 * j) (to_word v / 2 ^ 8)
            0 (omega arith),
        get_or-set_ne (set buf (2 * i) (to_word v % 2 ^ 8)) (2 * i + 1) (2 * j + 1)
            (to_word v / 2 ^ 8) 0 (omega arith),
        get_or-set_ne buf (2 * i) (2 * j) (to_word v % 2 ^ 8) 0 (omega arith),
        get_or-set_ne buf (2 * i) (2 * j + 1) (to_word v % 2 ^ 8) 0 (omega arith),
      )
      refl

-- A number of 64 bits as an int, as in `int size = st_size`.
unfoldable pub to_int : ℤ → ℤ
to_int (pos n) =
    if ltb (n % 2 ^ 32) (2 ^ 31) then pos (n % 2 ^ 32) else negsuc (2 ^ 32 - 1 - n % 2 ^ 32)
to_int (negsuc n) =
    if ltb (n % 2 ^ 32) (2 ^ 31) then negsuc (n % 2 ^ 32) else pos (2 ^ 32 - 1 - n % 2 ^ 32)

pub to_int-small : (n : ℕ) → n < 2 ^ 31 → to_int (pos n) ≡ pos n
unfolding to_int
to_int-small n h = ground arith
