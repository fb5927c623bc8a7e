-- ===== src/Paging/Swap.antt =====
-- What the handler of a page fault does to the frames and the metadata.
use cs.Base.{ℕ, ◌≡◌, ◌≢◌}
use cs.Paging.{Paging}

-- What a swap of two frames does.
abbrev pub IsSwapped : ℕ → ℕ → Paging → Paging → Type 0
IsSwapped f g s s' =
    (s'.page_data ≡ s.page_data)
    × (s'.page_list ≡ s.page_list)
    × (s'.frames g ≡ s.frames f)
    × (s'.frames f ≡ s.frames g)
    × ((h : ℕ) → h ≢ g → h ≢ f → s'.frames h ≡ s.frames h)
