-- ===== src/Sfs/Path.antt =====
-- get_cwd_path and get_name of sfs.c: the directory of a path and its last part. The callers pass a
-- buffer of 255 zero bytes; `none` is a write past its end, or a text that is left without its final 0.
use cs.Base.{
  ℕ, zero, suc, ◌+◌, ◌-◌, ◌<◌, ◌≡◌, refl, ◌≢◌, ap, ◌∙◌, List, [], ◌∷◌, ◌++◌, ℤ, pos, minus_one,
  Option, none, some, false, ltb, lt→ltb, ◌==◌, if◌then◌else◌, take, drop, length, length-append,
  arith,
}
use cs.Sfs.Tables.{same_text}

abbrev pub slash : ℕ
slash = 47

abbrev pub buffer_len : ℕ
buffer_len = 255

-- The last place of a slash, where the text starts at place `i` and `at` is the last one before.
unfoldable pub last_slash : List ℕ → ℕ → Option ℕ → Option ℕ
last_slash [] i at = at
last_slash (c ∷ cs) i at = last_slash cs (i + 1) (if c == slash then some i else at)

-- The branches on the place of the last slash: what the call returns, and the text.
unfoldable pub cwd_before : List ℕ → Option ℕ → Option (ℤ × List ℕ)
cwd_before path none = some (minus_one, [])
cwd_before path (some zero) = some (pos 0, slash ∷ [])
cwd_before path (some (suc n)) =
    if ltb (suc n) buffer_len then some (pos 0, take (suc n) path) else none

unfoldable pub get_cwd_path : List ℕ → Option (ℤ × List ℕ)
unfolding cwd_before last_slash same_text
get_cwd_path path =
    if same_text path (slash ∷ [])
    then some (pos 0, slash ∷ [])
    else cwd_before path (last_slash path 0 none)

unfoldable pub name_after : List ℕ → Option ℕ → Option (List ℕ)
name_after path none = some []
name_after path (some n) =
    if ltb buffer_len (length path - n) then none else some (drop (n + 1) path)

-- Only the text is modelled: no caller reads what the call returns, and the last branch returns
-- nothing.
unfoldable pub get_name : List ℕ → Option (List ℕ)
unfolding name_after last_slash same_text
get_name path =
    if same_text path (slash ∷ [])
    then some (slash ∷ [])
    else name_after path (last_slash path 0 none)

-- No byte of the text is a slash.
abbrev pub NoSlash : List ℕ → Type 0
NoSlash [] = Unit
NoSlash (c ∷ cs) = (c ≢ slash) × NoSlash cs

-- The name of a directory as get_cwd_path gives it.
abbrev pub directory : List ℕ → List ℕ
directory [] = slash ∷ []
directory (c ∷ cs) = c ∷ cs

last_slash_name : (name : List ℕ) (i : ℕ) (at : Option ℕ) → NoSlash name → last_slash name i at ≡ at
unfolding last_slash
last_slash_name [] i at n = refl
last_slash_name (c ∷ cs) i at n =
    let no : (c == slash) ≡ false = ground arith in rw (no) (last_slash_name cs (i + 1) at n.1)

last_slash_join :
    (dir name : List ℕ) (i : ℕ) (at : Option ℕ)
    → NoSlash name
    → last_slash (dir ++ slash ∷ name) i at ≡ some (i + length dir)
unfolding last_slash
last_slash_join [] name i at n = last_slash_name name (i + 1) (some i) n ∙ ap some (omega arith)
last_slash_join (c ∷ cs) name i at n = last_slash_join cs name (i + 1) _ n ∙ ap some (omega arith)

take_join : (dir rest : List ℕ) → take (length dir) (dir ++ rest) ≡ dir
take_join [] rest = refl
take_join (c ∷ cs) rest = ap (λ r. c ∷ r) (take_join cs rest)

drop_join : (dir name : List ℕ) → drop (suc (length dir)) (dir ++ slash ∷ name) ≡ name
drop_join [] name = refl
drop_join (c ∷ cs) name = drop_join cs name

not_root : (dir name : List ℕ) (c : ℕ) → same_text (dir ++ slash ∷ c ∷ name) (slash ∷ []) ≡ false
unfolding same_text
not_root [] name c = refl
not_root (d ∷ []) name c = ground arith
not_root (d ∷ e ∷ dir) name c = ground arith

cwd_before_join :
    (dir rest : List ℕ)
    → length dir < buffer_len
    → cwd_before (dir ++ rest) (some (length dir)) ≡ some (pos 0, directory dir)
unfolding cwd_before
cwd_before_join [] rest h = refl
cwd_before_join (c ∷ cs) rest h = rw (lt→ltb (suc (length cs)) buffer_len h, take_join cs rest) refl

name_after_join :
    (dir name : List ℕ)
    → length name < buffer_len
    → name_after (dir ++ slash ∷ name) (some (length dir)) ≡ some name
unfolding name_after
name_after_join dir name h =
    let long : length (dir ++ slash ∷ name) ≡ length dir + suc (length name) =
      length-append dir (slash ∷ name) in
    let fits : ltb buffer_len (length (dir ++ slash ∷ name) - length dir) ≡ false = ground arith in
    let next : length dir + 1 ≡ suc (length dir) = omega arith in
    rw (fits, next) (ap some (drop_join dir name))

-- A path made of a directory, a slash and a last part, which has no slash and is not empty, where both
-- fit their buffers, is taken apart again: get_cwd_path gives the directory, or "/" for an empty one,
-- and get_name the last part.
pub get_cwd_path_join :
    (dir name : List ℕ) (c : ℕ)
    → NoSlash (c ∷ name)
    → length dir < buffer_len
    → length (c ∷ name) < buffer_len
    → (get_cwd_path (dir ++ slash ∷ c ∷ name) ≡ some (pos 0, directory dir))
      × (get_name (dir ++ slash ∷ c ∷ name) ≡ some (c ∷ name))
unfolding get_cwd_path get_name
get_cwd_path_join dir name c n ld ln =
    let root = not_root dir name c in
    let at : last_slash (dir ++ slash ∷ c ∷ name) 0 none ≡ some (length dir) =
      last_slash_join dir (c ∷ name) 0 none n ∙ ap some (omega arith) in
    (
      rw (root, at) (cwd_before_join dir (slash ∷ c ∷ name) ld),
      rw (root, at) (name_after_join dir (c ∷ name) ln),
    )
