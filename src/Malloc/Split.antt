-- ===== src/Malloc/Split.antt =====
-- mem_split of asst2/mymalloc.c, whose calls are commented out. It returns the place it is given.
use cs.Base.{ℕ, zero, suc, ◌+◌, ◌-◌, ◌%◌, ◌^◌, Option, none, some, true, false, ◌==◌, if◌then◌else◌}
use cs.Malloc.{Meta, modify, max_places}

-- `next->next`, which is read only where `next` is not null.
abbrev after_next : Meta → Option ℕ → Option ℕ
after_next m none = none
after_next m (some j) = (m j).next

abbrev shifted_start : Option ℕ → ℕ → Option ℕ
shifted_start none size = none
shifted_start (some a) size = some (a + size)

-- The last place of the list from place `i` on.
pub last_place : ℕ → ℕ → Meta → Option ℕ
last_place zero i m = none
last_place (suc fuel) i m =
    let rest = last_place fuel (i + 1) m in elim ((m i).next) [ none ↦ some i | some j ↦ rest ]

-- Moves place `b` one place on.
pub shift_place : ℕ → Meta → Meta
shift_place b m =
    modify
      (modify m (b + 1) (λ n. record n {
        is_free = (m b).is_free;
        next = after_next m (m b).next;
        size = (m b).size;
        alloc_start = (m b).alloc_start;
      }))
      b (λ n. record n { next = some (b + 1) })

-- Moves the `n` places behind place `i`, the last one first.
pub shift_places : ℕ → ℕ → Meta → Meta
unfolding shift_place
shift_places zero i m = m
shift_places (suc n) i m = shift_places n i (shift_place (i + suc n) m)

-- The new place behind place `i`, with `next` for its link, and the size left by `size` bytes, as a
-- size_t.
pub new_place : ℕ → ℕ → Option ℕ → Meta → Meta
new_place i size next m = modify m (i + 1) (λ n. record n {
  is_free = true;
  next = next;
  size = ((m i).size + (2 ^ 64 - size % 2 ^ 64)) % 2 ^ 64;
  alloc_start = shifted_start (m i).alloc_start size;
})

pub mem_split : ℕ → ℕ → Meta → Option Meta
unfolding last_place shift_places new_place
mem_split i size m =
    let here =
      modify (new_place i size (m i).next m) i
        (λ b. record b { size = size; is_free = false; next = some (i + 1) }) in
    elim ((m i).next) [
      | none ↦ some here
      | some j ↦ if (m j).size == 0 then some here else (elim (last_place max_places i m) [
        | none ↦ none
        | some e ↦
            let m1 = shift_places (e - i) i m in
            some (
              modify (new_place i size (after_next m1 (m1 i).next) m1) i
                (λ b. record b { is_free = false; next = some (i + 1) }))
      ])
    ]
