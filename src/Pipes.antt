-- ===== src/Pipes.antt =====
-- Kernel/pipes.c, on the semaphores of Kernel/sem.c. A call that has to wait for a semaphore says at
-- which point its caller is blocked.
pub mod Buffer
mod Tests
use peps_os.Common.{
  ℕ, zero, suc, ◌+◌, ◌-◌, ◌%◌, Bool, true, false, ◌&&◌, ◌||◌, not, Option, none, some, List, [],
  ◌∷◌, ◌==◌, ltb, leb, if◌then◌else◌, get_or, set, replicate, u32_mod, u64_mod, inc32, minus_one,
}
use peps_os.Clib.{string_length, string_copy, same_string}
use peps_os.Memory.{Allocator}
use peps_os.Sem.{Sems, Attempt, passes, misses, create_sem, sem_wait, sem_post, sem_close}

abbrev pub buffer_length : ℕ
buffer_length = 1024

abbrev pub pipes_amount : ℕ
pipes_amount = 16

-- `pipe_t`.
pub record Pipe : Type 0 where
  pub r_indx : ℕ
  pub w_indx : ℕ
  pub read_sem : ℕ
  pub read_sem_name : List ℕ
  pub buffer : List ℕ
  pub name : List ℕ
  pub proc_count : ℕ

-- `instance`.
pub record PipeInstance : Type 0 where
  pub pipe : Pipe
  pub available : Bool

pub record Pipes (H : Type 0) : Type 0 where
  pub pipe_inst : List PipeInstance
  pub sem_for_pipe_man : ℕ
  pub sems : Sems H

abbrev pub no_pipe : PipeInstance
no_pipe = record {
  pipe = record {
    r_indx = 0;
    w_indx = 0;
    read_sem = 0;
    read_sem_name = [];
    buffer = [];
    name = [];
    proc_count = 0;
  };
  available = true;
}

abbrev pub pipe_at : {H : Type 0} → Pipes H → ℕ → Pipe
pipe_at s i = (get_or s.pipe_inst i no_pipe).pipe

abbrev pub set_pipe : {H : Type 0} → Pipes H → ℕ → Pipe → Pipes H
set_pipe s i p = record s {
  pipe_inst = set s.pipe_inst i (record (get_or s.pipe_inst i no_pipe) { pipe = p });
}

-- `get_free_instance` from index `i` on; `none` stands for -1.
unfoldable pub get_free_instance : ℕ → List PipeInstance → Option (ℕ × List PipeInstance)
get_free_instance i [] = none
get_free_instance i (x ∷ xs) =
    let rest = get_free_instance (suc i) xs in
    if x.available
    then some (i, record x { available = false } ∷ xs)
    else (elim rest [ none ↦ none | some r ↦ some (r.0, x ∷ r.1) ])

-- `get_pipe` from index `i` on.
unfoldable pub get_pipe : ℕ → List ℕ → List PipeInstance → Option ℕ
get_pipe i name [] = none
get_pipe i name (x ∷ xs) =
    if not x.available && same_string name x.pipe.name then some i else get_pipe (suc i) name xs

-- The pipe that `create_pipe` sets up, but for its semaphore.
abbrev pub named_pipe : Pipe → List ℕ → Pipe
named_pipe p id = record p {
  name = string_copy id p.name;
  r_indx = 0;
  w_indx = 0;
  read_sem_name =
      set (set (string_copy id p.read_sem_name) (string_length id) 82) (string_length id + 1) 0;
}

abbrev pub failed : ℕ
failed = u64_mod - 1

unfoldable pub create_in :
    {H : Type 0} → Pipes H → List ℕ → Option (ℕ × List PipeInstance) → ℕ × Pipes H
create_in s id none = (minus_one, s)
create_in s id (some (i, l)) =
    let s' = record s { pipe_inst = l } in
    let p = named_pipe (pipe_at s' i) id in
    let (sem_read, sems) = create_sem s'.sems 0 (some p.read_sem_name) in
    let s'' = record (set_pipe s' i p) { sems = sems } in
    if sem_read == failed
    then (minus_one, s'')
    else (i, set_pipe s'' i (record p { read_sem = sem_read }))

-- `create_pipe`.
unfoldable pub create_pipe : {H : Type 0} → Pipes H → List ℕ → ℕ × Pipes H
unfolding create_in
create_pipe s id =
    if (string_length id == 0) || leb 15 (string_length id)
    then (minus_one, s)
    else create_in s id (get_free_instance 0 s.pipe_inst)

unfoldable pub free_all : List PipeInstance → List PipeInstance
free_all [] = []
free_all (x ∷ xs) = record x { available = true } ∷ free_all xs

-- "Pipe Manager", "STDIN", "STDOUT".
abbrev pub pipe_manager : List ℕ
pipe_manager = 80 ∷ 105 ∷ 112 ∷ 101 ∷ 32 ∷ 77 ∷ 97 ∷ 110 ∷ 97 ∷ 103 ∷ 101 ∷ 114 ∷ 0 ∷ []

abbrev pub stdin_name : List ℕ
stdin_name = 83 ∷ 84 ∷ 68 ∷ 73 ∷ 78 ∷ 0 ∷ []

abbrev pub stdout_name : List ℕ
stdout_name = 83 ∷ 84 ∷ 68 ∷ 79 ∷ 85 ∷ 84 ∷ 0 ∷ []

-- `initialize_pipes`.
unfoldable pub initialize_pipes : {H : Type 0} → Pipes H → ℕ × Pipes H
unfolding free_all
initialize_pipes s =
    let (i, sems) = create_sem s.sems 1 (some pipe_manager) in
    let s' = record s { sem_for_pipe_man = i % u32_mod; sems = sems } in
    let s1 = record s' { pipe_inst = free_all s'.pipe_inst } in
    if i % u32_mod == minus_one
    then (minus_one, s')
    else (0, (create_pipe (create_pipe s1 stdin_name).1 stdout_name).1)

-- `valid_index`, for an index that is not negative.
unfoldable pub valid_index : {H : Type 0} → Pipes H → ℕ → Bool
valid_index s i = ltb i pipes_amount && not (get_or s.pipe_inst i no_pipe).available

-- How a call goes on: it returns a value; its caller is blocked and makes the call again; or its caller
-- is blocked in a `sem_post` that is still to be done from `enter_region` on, after which the call returns a value.
pub data Progress (S : Type 0) : Type 0 where
  returns : S → ℕ → Progress S
  again : S → Progress S
  posting : S → ℕ → Progress S

-- `pipe_to_write->buffer[w_indx % SIZE] = c; w_indx++;`.
unfoldable pub store_char : Pipe → ℕ → Pipe
store_char p c = record p {
  buffer = set p.buffer (p.w_indx % buffer_length) c;
  w_indx = inc32 p.w_indx;
}

-- `char c = pipe->buffer[r_indx % SIZE]; r_indx++;`.
unfoldable pub fetch_char : Pipe → ℕ × Pipe
fetch_char p = (get_or p.buffer (p.r_indx % buffer_length) 0, record p { r_indx = inc32 p.r_indx })

module _ {H : Type 0} ⦃m : Allocator H⦄ where
  -- A `sem_post` whose result is only compared with -1, and the value returned after it.
  unfoldable pub posted : Pipes H → ℕ → Attempt (Sems H) → Progress (Pipes H)
  posted s value (passes t n) = returns (record s { sems = t }) value
  posted s value (misses t) = posting (record s { sems = t }) value

  unfoldable pub opened : Pipes H → ℕ × Pipes H → Progress (Pipes H)
  unfolding posted
  opened s (i, s') =
      let p = pipe_at s' i in
      let s'' = set_pipe s' i (record p { proc_count = inc32 p.proc_count }) in
      if i == minus_one
      then posted s' minus_one (sem_post s'.sems s'.sem_for_pipe_man)
      else posted s'' i (sem_post s''.sems s''.sem_for_pipe_man)

  unfoldable pub open_on : Pipes H → List ℕ → Option ℕ → Progress (Pipes H)
  unfolding opened
  open_on s id (some i) = opened s (i, s)
  open_on s id none = opened s (create_pipe s id)

  unfoldable pub open_after : Pipes H → List ℕ → Attempt (Sems H) → Progress (Pipes H)
  unfolding open_on
  open_after s id (misses t) = again (record s { sems = t })
  open_after s id (passes t n) =
      let s' = record s { sems = t } in
      if n == 0 then open_on s' id (get_pipe 0 id s'.pipe_inst) else returns s' minus_one

  -- `open_pipe`.
  unfoldable pub open_pipe : Pipes H → List ℕ → Progress (Pipes H)
  unfolding open_after
  open_pipe s id = open_after s id (sem_wait s.sems s.sem_for_pipe_man)

  unfoldable pub close_after : Pipes H → ℕ → Attempt (Sems H) → Progress (Pipes H)
  unfolding posted
  close_after s i (misses t) = again (record s { sems = t })
  close_after s i (passes t n) =
      let (closed, sems) = sem_close t (pipe_at s i).read_sem_name in
      let s' = record s { sems = sems } in
      let x = record (get_or s.pipe_inst i no_pipe) { available = true } in
      let s'' = record s' { pipe_inst = set s.pipe_inst i x } in
      if closed == minus_one
      then returns s' minus_one
      else posted s'' 1 (sem_post s''.sems s''.sem_for_pipe_man)

  -- `close_pipe`.
  unfoldable pub close_pipe : Pipes H → ℕ → Progress (Pipes H)
  unfolding close_after
  close_pipe s i =
      if valid_index s i
      then close_after s i (sem_wait s.sems s.sem_for_pipe_man)
      else returns s minus_one

  -- `write_char`.
  unfoldable pub write_char : Pipes H → ℕ → ℕ → Progress (Pipes H)
  unfolding posted
  write_char s i c =
      let s' = set_pipe s i (store_char (pipe_at s i) c) in
      if valid_index s i
      then posted s' 1 (sem_post s'.sems (pipe_at s' i).read_sem)
      else returns s minus_one

  -- A turn of the loop of `write_to_pipe` behind `write_char`: what is left to be written when the
  -- caller is blocked, and how the call goes on; `next` is the rest of the loop.
  unfoldable pub write_on :
      List ℕ
      → ℕ
      → (Pipes H → List ℕ × Progress (Pipes H))
      → Progress (Pipes H)
      → List ℕ × Progress (Pipes H)
  write_on cs count next (returns s value) =
      if value == minus_one then ([], returns s minus_one) else next s
  write_on cs count next (again s) = (cs, again s)
  write_on cs count next (posting s value) = (cs, posting s (inc32 count))

  -- The loop of `write_to_pipe` with `count` characters written.
  unfoldable pub write_from : Pipes H → ℕ → List ℕ → ℕ → List ℕ × Progress (Pipes H)
  unfolding write_on
  write_from s i [] count = ([], returns s count)
  write_from s i (c ∷ cs) count =
      if c == 0
      then ([], returns s count)
      else write_on cs count (λ s'. write_from s' i cs (inc32 count)) (write_char s i c)

  -- `write_to_pipe`.
  unfoldable pub write_to_pipe : Pipes H → ℕ → List ℕ → List ℕ × Progress (Pipes H)
  unfolding write_from
  write_to_pipe s i str =
      if valid_index s i then write_from s i str 0 else ([], returns s minus_one)

  unfoldable pub read_after : Pipes H → ℕ → Attempt (Sems H) → Progress (Pipes H)
  read_after s i (misses t) = again (record s { sems = t })
  read_after s i (passes t n) =
      let (c, p) = fetch_char (pipe_at s i) in returns (set_pipe (record s { sems = t }) i p) c

  -- `read_pipe`.
  unfoldable pub read_pipe : Pipes H → ℕ → Progress (Pipes H)
  unfolding read_after
  read_pipe s i =
      if valid_index s i
      then read_after s i (sem_wait s.sems (pipe_at s i).read_sem)
      else returns s 255
