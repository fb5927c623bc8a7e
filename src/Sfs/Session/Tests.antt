-- ===== src/Sfs/Session/Tests.antt =====
-- A system that opens descriptor 3.
use cs.Base.{sym, ◌≡◌, ◌⊎◌, refl, [], none, some, ℤ, pos, Bool, true, false}
use mathlib.Core.Bool.{true≢false}
use cs.Sfs.Session.{Files, IsPosix, IsSession, disk_open, no_diskfile, disk_open-disk_close}

abbrev single : Files
single = record {
  Os = Bool;
  open_file = λ o path. (pos 3, true);
  close_file = λ o fd. (pos 0, false);
}

single-IsPosix : IsPosix single
single-IsPosix = record {
  IsOpen = λ o n. o ≡ true;
  opened = λ o path n h. refl;
  closed = λ o n h. true≢false (sym h);
}

disk_open-disk_close_example :
    (disk_open single no_diskfile [] false ≡ none)
    ⊎ ((fd : ℤ) × (o' : Bool) × (disk_open single no_diskfile [] false ≡ some (fd, o'))
        × IsSession single single-IsPosix [] fd o')
disk_open-disk_close_example = disk_open-disk_close single single-IsPosix [] [] false
