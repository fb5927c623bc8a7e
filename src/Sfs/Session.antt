-- ===== src/Sfs/Session.antt =====
-- asst3/assignment3/src/block.c: the file of the disk is opened and closed. The calls open and close are
-- the operating system's: a parameter, with the behaviour that their manual states.
pub mod Tests
use cs.Base.{ℕ, ◌≡◌, ◌⊎◌, inl, inr, refl, List, Option, none, some, ℤ, pos, negsuc, minus_one}

-- `open_file path` gives a descriptor or a negative number; `close_file fd`.
pub record Files : Type 1 where
  pub Os : Type 0
  pub open_file : Os → List ℕ → ℤ × Os
  pub close_file : Os → ℤ → ℤ × Os

-- A descriptor that open gives is open, and one that has been closed is not, whatever close returns.
pub record IsPosix (c : Files) : Type 1 where
  pub IsOpen : c.Os → ℕ → Type 0
  pub opened :
      (o : c.Os) (path : List ℕ) (n : ℕ)
      → (c.open_file o path).0 ≡ pos n
      → IsOpen (c.open_file o path).1 n
  pub closed : (o : c.Os) (n : ℕ) → ¬ IsOpen (c.close_file o (pos n)).1 n

-- `diskfile` is -1 at first.
abbrev pub no_diskfile : ℤ
no_diskfile = minus_one

module _ (c : Files) where
  -- The program exits where there is no descriptor.
  abbrev pub keep_descriptor : ℤ × c.Os → Option (ℤ × c.Os)
  keep_descriptor (pos n, o) = some (pos n, o)
  keep_descriptor (negsuc n, o) = none

  -- `diskfile` afterwards, with the state of the system; `none` where the program exits.
  unfoldable pub disk_open : ℤ → List ℕ → c.Os → Option (ℤ × c.Os)
  disk_open (pos n) path o = some (pos n, o)
  disk_open (negsuc n) path o = keep_descriptor (c.open_file o path)

  unfoldable pub disk_close : ℤ → c.Os → ℤ × c.Os
  disk_close (pos n) o = (pos n, (c.close_file o (pos n)).1)
  disk_close (negsuc n) o = (negsuc n, o)

module _ (c : Files) (ok : IsPosix c) where
  -- What a session is: the descriptor is open until disk_close, which another disk_open does not undo.
  abbrev pub IsSession : List ℕ → ℤ → c.Os → Type 0
  IsSession path fd o =
      (n : ℕ) × (fd ≡ pos n)
      × ok.IsOpen o n
      × (disk_open c fd path o ≡ some (fd, o))
      × (o' : c.Os) × (disk_close c fd o ≡ (fd, o'))
      × (disk_open c fd path o' ≡ some (fd, o'))
      × (¬ ok.IsOpen o' n)

  keep_descriptor-IsSession :
      (path : List ℕ) (r : ℤ × c.Os)
      → ((n : ℕ) → r.0 ≡ pos n → ok.IsOpen r.1 n)
      → (keep_descriptor c r ≡ none)
        ⊎ ((fd : ℤ) × (o' : c.Os) × (keep_descriptor c r ≡ some (fd, o')) × IsSession path fd o')
  unfolding disk_open disk_close
  keep_descriptor-IsSession path (pos n, o) h =
      inr (pos n, o, refl, (n, refl, h n refl, refl, _, refl, refl, ok.closed o n))
  keep_descriptor-IsSession path (negsuc n, o) h = inl refl

  -- The first disk_open makes the program exit, or leaves an open descriptor in diskfile, and another
  -- disk_open changes nothing. disk_close closes the descriptor and leaves it in diskfile, so that a
  -- disk_open after it changes nothing either, and the program is left with a descriptor that is not open.
  pub disk_open-disk_close :
      (path again : List ℕ) (o : c.Os)
      → (disk_open c no_diskfile path o ≡ none)
        ⊎ ((fd : ℤ) × (o' : c.Os) × (disk_open c no_diskfile path o ≡ some (fd, o'))
            × IsSession again fd o')
  unfolding disk_open
  disk_open-disk_close path again o =
      keep_descriptor-IsSession again (c.open_file o path) (ok.opened o path)
