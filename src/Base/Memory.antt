-- ===== src/Base/Memory.antt =====
-- The host allocator, as the loader's functions see it: each request is answered by success or by
-- NULL, and the blocks in use are counted.
use Prim.Native.Nat.{ℕ, ◌+◌, ◌-◌}
use mathlib.Core.Bool.{Bool, true}
use mathlib.Core.List.{List, [], ◌∷◌}
use vulkan_sc_loader.Base.Tests.{if◌then◌else◌}

-- `answers` are those to the next requests; after the last every request succeeds.
pub record Heap : Type 0 where
  pub answers : List Bool
  pub live : ℕ

abbrev pub next_answer : List Bool → Bool
next_answer [] = true
next_answer (b ∷ bs) = b

abbrev pub later_answers : List Bool → List Bool
later_answers [] = []
later_answers (b ∷ bs) = bs

-- `malloc` and `calloc`: false stands for NULL.
abbrev pub allocate : Heap → Bool × Heap
allocate h =
    let ok = next_answer h.answers in
    (ok, record { answers = later_answers h.answers; live = (if ok then h.live + 1 else h.live) })

-- `realloc` keeps the old block if it fails, and replaces it otherwise.
abbrev pub reallocate : Heap → Bool × Heap
reallocate h = (next_answer h.answers, record h { answers = later_answers h.answers })

abbrev pub free : Heap → Heap
free h = record h { live = h.live - 1 }

abbrev pub free_many : ℕ → Heap → Heap
free_many n h = record h { live = h.live - n }
