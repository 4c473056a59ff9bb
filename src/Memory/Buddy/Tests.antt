-- ===== src/Memory/Buddy/Tests.antt =====
-- The theorems about Kernel/BuddyMemoryManager.c on a memory of 8192 bytes.
use peps_os.Common.{◌≤◌, ◌≡◌, ◌≢◌, ◌⊎◌, arith}
use peps_os.Memory.Buddy.{
  Node, leaf, branch, free, allocated, parcial, Buddy, malloc_rec, malloc_buddy, free_rec,
  free_buddy, init_mm, malloc_leaf,
}
use peps_os.Memory.Buddy.Tree.{IsWellFormed, weigh_blocks, holds}
use peps_os.Memory.Buddy.Malloc.{Mallocs, malloc_rec-Mallocs}
use peps_os.Memory.Buddy.Free.{Frees, free_rec-Frees}
use peps_os.Memory.Buddy.Run.{
  none, malloc_next, free_next, init_mm-Runs, free_rec-malloc_rec, Serves, Denies,
  malloc_buddy-Serves,
}

-- The left half is given out, the right half is free.
abbrev halves : Node
halves = branch 8192 8192 parcial 0 (leaf 8192 4096 allocated 1) (leaf 12288 4096 free 2)

halves-IsWellFormed : IsWellFormed halves
halves-IsWellFormed = ground arith

abbrev memory : Buddy
memory = record { root = halves; mem_allocated = 4096 }

malloc_buddy-Serves_example :
    Serves 3000 memory (malloc_buddy memory 3000) ⊎ Denies 3000 memory (malloc_buddy memory 3000)
malloc_buddy-Serves_example = malloc_buddy-Serves memory 3000 halves-IsWellFormed (omega arith)

malloc_rec-Mallocs_example : Mallocs 2048 4096 halves (malloc_rec halves 2048 4096)
malloc_rec-Mallocs_example = malloc_rec-Mallocs halves 2048 4096 halves-IsWellFormed

free_rec-Frees_example : Frees 8192 halves (free_rec halves 8192 4096).0
free_rec-Frees_example = free_rec-Frees halves 8192 4096 halves-IsWellFormed

given : (malloc_rec halves 2048 4096).address ≢ 0
unfolding malloc_rec malloc_leaf
given = omega arith

free_rec-malloc_rec_example :
    weigh_blocks
      (holds 9000)
      (free_rec (malloc_rec halves 2048 4096).node (malloc_rec halves 2048 4096).address 6144).0
    ≡ weigh_blocks (holds 9000) halves
free_rec-malloc_rec_example =
    free_rec-malloc_rec halves 2048 4096 6144 (holds 9000) halves-IsWellFormed given

abbrev after_one : Buddy
after_one = free_buddy (malloc_buddy (init_mm 8192) 3000).1 8192

init_mm-Runs_example : IsWellFormed after_one.root × (weigh_blocks (holds 8200) after_one.root ≤ 1)
init_mm-Runs_example = init_mm-Runs 8192 after_one 8200 (omega arith) (omega arith) (
    free_next (init_mm 8192) (malloc_buddy (init_mm 8192) 3000).1 8192
      (malloc_next (init_mm 8192) (init_mm 8192) 3000 (none (init_mm 8192))))
