-- ===== src/Memory/Buddy.antt =====
-- Kernel/BuddyMemoryManager.c. The nodes that `left` and `right` lead to are a tree; either both
-- pointers are null (`leaf`) or none is (`branch`). A pointer that `malloc_rec` returns is an
-- address, 0 for NULL.
pub mod Tree
pub mod Malloc
pub mod Free
pub mod Rounded
pub mod Run
mod Tests
use peps_os.Common.{
  ℕ, zero, suc, ◌+◌, ◌-◌, ◌*◌, ◌/◌, ◌%◌, Bool, true, false, ◌&&◌, not, ◌==◌, ltb, leb,
  if◌then◌else◌, bit_and, u32_mod, u64_mod,
}

pub data NodeState : Type 0 where
  free allocated parcial : NodeState

pub data Node : Type 0 where
  leaf : (start size : ℕ) → NodeState → (index : ℕ) → Node
  branch : (start size : ℕ) → NodeState → (index : ℕ) → (left right : Node) → Node

abbrev pub state_of : Node → NodeState
state_of (leaf s z st i) = st
state_of (branch s z st i l r) = st

abbrev pub start_of : Node → ℕ
start_of (leaf s z st i) = s
start_of (branch s z st i l r) = s

abbrev pub size_of : Node → ℕ
size_of (leaf s z st i) = z
size_of (branch s z st i l r) = z

abbrev pub min_block : ℕ
min_block = 2560

-- `check_state` of a node with two children, from their states.
abbrev pub check_state : NodeState → NodeState → NodeState
check_state free free = free
check_state allocated allocated = allocated
check_state free allocated = parcial
check_state free parcial = parcial
check_state allocated free = parcial
check_state allocated parcial = parcial
check_state parcial free = parcial
check_state parcial allocated = parcial
check_state parcial parcial = parcial

-- A call of `malloc_rec` gives the node as it is afterwards, the address, and `mem_allocated`.
pub record Answer : Type 0 where
  pub node : Node
  pub address : ℕ
  pub mem_allocated : ℕ

-- The two nodes that `create_children` makes.
abbrev pub left_child : ℕ → ℕ → ℕ → Node
left_child start size index = leaf start (size / 2) free (index * 2 + 1)

abbrev pub right_child : ℕ → ℕ → ℕ → Node
right_child start size index =
    leaf ((start + size / 2) % u64_mod) (size / 2) free (index * 2 + 1 + 1)

-- `node->state = ALLOCATED; mem_allocated += bytes; return node->start;`.
abbrev pub take_leaf : ℕ → ℕ → ℕ → ℕ → ℕ → Answer
take_leaf start size index bytes mem = record {
  node = leaf start size allocated index;
  address = start;
  mem_allocated = (mem + bytes) % u64_mod;
}

abbrev pub refused : Node → ℕ → Answer
refused n mem = record { node = n; address = 0; mem_allocated = mem }

-- `create_children(node); new_node = malloc_rec(node->left, bytes); check_state(node);`.
abbrev pub with_left : ℕ → ℕ → ℕ → Node → Answer → Answer
with_left start size index right a = record a {
  node = branch start size (check_state (state_of a.node) (state_of right)) index a.node right;
}

-- `malloc_rec` on a node without children that is not allocated. The fuel is at least the size.
unfoldable pub malloc_leaf : ℕ → ℕ → ℕ → NodeState → ℕ → ℕ → ℕ → Answer
malloc_leaf zero start size st index bytes mem =
    if ltb size bytes
    then refused (leaf start size st index) mem
    else take_leaf start size index bytes mem
malloc_leaf (suc f) start size st index bytes mem =
    let split =
      with_left start size index (right_child start size index)
        (malloc_leaf f start (size / 2) free (index * 2 + 1) bytes mem) in
    if ltb size bytes
    then refused (leaf start size st index) mem
    else (if leb bytes (size / 2) && ltb min_block size
        then split
        else take_leaf start size index bytes mem)

abbrev pub is_allocated : NodeState → Bool
is_allocated free = false
is_allocated allocated = true
is_allocated parcial = false

-- `malloc_rec`.
unfoldable pub malloc_rec : Node → ℕ → ℕ → Answer
malloc_rec (leaf start size st index) bytes mem =
    if is_allocated st
    then refused (leaf start size st index) mem
    else malloc_leaf size start size st index bytes mem
malloc_rec (branch start size st index l r) bytes mem =
    let a = malloc_rec l bytes mem in
    let b = malloc_rec r bytes a.mem_allocated in
    if is_allocated st
    then refused (branch start size st index l r) mem
    else (if a.address == 0
        then record b {
          node =
              branch start size (check_state (state_of a.node) (state_of b.node)) index a.node
                b.node;
        }
        else with_left start size index r a)

-- A 32-bit `int` where the code compares it with or stores it as a `uint64_t`.
abbrev pub sign_extend : ℕ → ℕ
sign_extend i = if ltb i 2147483648 then i else i + (u64_mod - u32_mod)

-- `int i = 1; while (i < bytes) i = i * 2;`, with fuel, and its value as a `uint64_t`.
unfoldable pub double_up : ℕ → ℕ → ℕ → ℕ
double_up zero i bytes = sign_extend i
double_up (suc f) i bytes =
    let more = double_up f ((i * 2) % u32_mod) bytes in
    if ltb (sign_extend i) bytes then more else sign_extend i

-- `IS_POWER_OF_TWO`.
abbrev pub is_power_of_two : ℕ → Bool
is_power_of_two x = not (x == 0) && (bit_and x (x - 1) == 0)

-- The size that `mallocBuddy` looks for. After 31 doublings the `int` is negative.
unfoldable pub rounded : ℕ → ℕ
unfolding double_up
rounded bytes = if is_power_of_two bytes then bytes else double_up 32 1 bytes

pub record Buddy : Type 0 where
  pub root : Node
  pub mem_allocated : ℕ

-- `init_mm`: the memory starts at the address `mem_amount`.
unfoldable pub init_mm : ℕ → Buddy
init_mm mem_amount = record { root = leaf mem_amount mem_amount free 0; mem_allocated = 0 }

-- `mallocBuddy`.
unfoldable pub malloc_buddy : Buddy → ℕ → ℕ × Buddy
malloc_buddy b bytes =
    if ltb (size_of b.root) bytes
    then (0, b)
    else (let a = malloc_rec b.root (rounded bytes) b.mem_allocated in
        (a.address, record { root = a.node; mem_allocated = a.mem_allocated }))

-- A node whose children are both free loses them.
abbrev pub joined : ℕ → ℕ → NodeState → ℕ → Node → Node → Node
joined start size free index l r = leaf start size free index
joined start size allocated index l r = branch start size allocated index l r
joined start size parcial index l r = branch start size parcial index l r

-- `free_rec`: the node afterwards, and `mem_allocated`.
unfoldable pub free_rec : Node → ℕ → ℕ → Node × ℕ
free_rec (leaf start size st index) ptr mem =
    if is_allocated st && start == ptr
    then (leaf start size free index, (mem + (u64_mod - size % u64_mod)) % u64_mod)
    else (leaf start size st index, mem)
free_rec (branch start size st index l r) ptr mem =
    let in_left = free_rec l ptr mem in
    let in_right = free_rec r ptr mem in
    if ltb ptr (start_of r)
    then ((
      joined start size (check_state (state_of in_left.0) (state_of r)) index in_left.0 r,
      in_left.1,
    ))
    else ((
      joined start size (check_state (state_of l) (state_of in_right.0)) index l in_right.0,
      in_right.1,
    ))

-- `freeBuddy`.
unfoldable pub free_buddy : Buddy → ℕ → Buddy
free_buddy b ptr =
    let (n, mem) = free_rec b.root ptr b.mem_allocated in record { root = n; mem_allocated = mem }

-- `buddyState`: `*free`, `*total` and `*alloctd`.
unfoldable pub buddy_state : Buddy → ℕ × ℕ × ℕ
buddy_state b =
    ((size_of b.root + u64_mod - b.mem_allocated) % u64_mod, size_of b.root, b.mem_allocated)
