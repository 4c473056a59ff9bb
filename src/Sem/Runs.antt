-- ===== src/Sem/Runs.antt =====
-- `sem_post` of Kernel/sem.c, and what any mix of attempts does to a semaphore's value.
use peps_os.Common.{
  Bool-cases, inl, inr, ℕ, ◌+◌, ◌<◌, ◌≡◌, refl, sym, subst, ap, ◌∙◌, arith, inr, Bool, true, false,
  ◌==◌, ltb, if◌then◌else◌, set, length, length-set, get_or-set_self, inc32,
}
use peps_os.Memory.{Allocator}
use peps_os.Sem.{
  post_entered, Instance, Sems, instance_at, set_sem, no_instance, Attempt, passes, misses,
  sem_wait, sem_post, post_inside, wake_one, sem_amount, is_outside,
}
use peps_os.Sem.Counts.{
  IsCounting, sem_at, Posts, Counted, through, blocks, SameCount, wake_one-same, sem_wait-Counted,
}

module _ {H : Type 0} ⦃m : Allocator H⦄ where
  raised : Sems H → ℕ → Sems H
  raised s i = set_sem s i (record (sem_at s i) { val = inc32 (sem_at s i).val })

  woken-same :
      (s : Sems H) (i : ℕ) (b : Bool)
      → i < length s.instances
      → SameCount i s.instances (if b then wake_one s i else s).instances
  woken-same s i true h = wake_one-same s i h
  woken-same s i false h = (refl, refl, refl)

  unlocked :
      (s s'' : Sems H) (i : ℕ)
      → i < length s''.instances
      → (sem_at s'' i).val ≡ (sem_at s i).val + 1
      → (sem_at s i).val + 1 < 2147483648
      → let s3 = set_sem s'' i (record (sem_at s'' i) { lock = 0 }) in
        ((sem_at s3 i).val ≡ (sem_at s i).val + 1) × IsCounting (sem_at s3 i)
  unlocked s s'' i h e small =
      let at_slot = sym (get_or-set_self s''.instances i _ no_instance h) in
      (
        subst (λ x. x.sem.val ≡ (sem_at s i).val + 1) at_slot e,
        subst (λ x. IsCounting x.sem) at_slot (inr (omega (arith, e), omega (arith, e), refl)),
      )

  post_inside-Posts :
      (s : Sems H) (i : ℕ)
      → i < length s.instances
      → (sem_at s i).val + 1 < 2147483648
      → Posts s i (passes (post_inside s i) 0)
  unfolding post_inside
  post_inside-Posts s i slot small =
      let x : Instance = record (instance_at s i) {
        sem = record (sem_at s i) { val = inc32 (sem_at s i).val };
      } in
      let at_slot = get_or-set_self s.instances i x no_instance slot in
      let s' : Sems H = record s { instances = set s.instances i x } in
      let long : i < length s'.instances = omega (arith, length-set s.instances i x, slot) in
      let b = ltb 0 (sem_at s i).size_list in
      let same = woken-same s' i b long in
      let s'' : Sems H = if b then wake_one s' i else s' in
      let up : inc32 (sem_at s i).val ≡ (sem_at s i).val + 1 = omega arith in
      let final =
        unlocked s s'' i (omega (arith, same.2, long)) (same.0 ∙ ap (λ y. y.sem.val) at_slot ∙ up)
          small in
      record {
        after = post_inside s i;
        returns = refl;
        more = final.0;
        counting = final.1;
        slots = length-set s''.instances i _ ∙ same.2 ∙ length-set s.instances i x;
      }

  -- On a semaphore whose lock is held exactly when its value is 0, with a value that can rise,
  -- `sem_post` goes through without blocking and raises the value by one; the lock is held exactly
  -- when the value is 0 afterwards too.
  pub sem_post-Posts :
      (s : Sems H) (i : ℕ)
      → i < sem_amount
      → i < length s.instances
      → (sem_at s i).val + 1 < 2147483648
      → IsCounting (sem_at s i)
      → Posts s i (sem_post s i)
  unfolding sem_post post_entered
  sem_post-Posts s i small slot room c =
      let inside : is_outside i ≡ false = ground arith in
      elim (Bool-cases ((sem_at s i).val == 0)) [
        | inl z ↦ rw (inside, z) (post_inside-Posts s i slot room)
        | inr z ↦
            let unlocked : ((sem_at s i).lock == 1) ≡ false = ground (arith, c, z) in
            rw (inside, z, unlocked) (post_inside-Posts s i slot room)
      ]

  -- Attempts on one semaphore, with the number of waits and of posts that went through; between them
  -- anything may happen that leaves the semaphore's slot alone.
  pub data SemRuns (s : Sems H) (i : ℕ) : ℕ → ℕ → Sems H → Type 0 where
    start : SemRuns s i 0 0 s
    waited :
        (w p : ℕ) (t t' : Sems H)
        → SemRuns s i w p t
        → sem_wait t i ≡ passes t' 0
        → SemRuns s i (w + 1) p t'
    blocked :
        (w p : ℕ) (t t' : Sems H)
        → SemRuns s i w p t
        → sem_wait t i ≡ misses t'
        → SemRuns s i w p t'
    posted :
        (w p : ℕ) (t t' : Sems H)
        → SemRuns s i w p t
        → (sem_at t i).val + 1 < 2147483648
        → sem_post t i ≡ passes t' 0
        → SemRuns s i w (p + 1) t'
    other :
        (w p : ℕ) (t t' : Sems H)
        → SemRuns s i w p t
        → instance_at t' i ≡ instance_at t i
        → length t'.instances ≡ length t.instances
        → SemRuns s i w p t'

  -- What a run keeps.
  record Kept (s : Sems H) (i w p : ℕ) (t : Sems H) : Type 0 where
    counting : IsCounting (sem_at t i)
    balance : (sem_at t i).val + w ≡ (sem_at s i).val + p
    slots : length t.instances ≡ length s.instances

  abbrev result_of : Attempt (Sems H) → Sems H
  result_of (passes t n) = t
  result_of (misses t) = t

  abbrev went_through : Attempt (Sems H) → Bool
  went_through (passes t n) = true
  went_through (misses t) = false

  after_wait :
      (s : Sems H) (i w p : ℕ) (t t' : Sems H)
      → Kept s i w p t
      → Counted t i (sem_wait t i)
      → sem_wait t i ≡ passes t' 0
      → Kept s i (w + 1) p t'
  after_wait s i w p t t' k (through u e one c n) f =
      subst (Kept s i (w + 1) p) (ap result_of (sym e ∙ f))
        (record { counting = c; balance = omega (arith, k.balance, one); slots = n ∙ k.slots })
  after_wait s i w p t t' k (blocks u e z z' c n) f =
      let no : false ≡ true = ap went_through (sym e ∙ f) in cc

  after_block :
      (s : Sems H) (i w p : ℕ) (t t' : Sems H)
      → Kept s i w p t
      → Counted t i (sem_wait t i)
      → sem_wait t i ≡ misses t'
      → Kept s i w p t'
  after_block s i w p t t' k (through u e one c n) f =
      let no : true ≡ false = ap went_through (sym e ∙ f) in cc
  after_block s i w p t t' k (blocks u e z z' c n) f =
      subst (Kept s i w p) (ap result_of (sym e ∙ f))
        (record { counting = c; balance = omega (arith, k.balance, z, z'); slots = n ∙ k.slots })

  after_post :
      (s : Sems H) (i w p : ℕ) (t t' : Sems H)
      → Kept s i w p t
      → Posts t i (sem_post t i)
      → sem_post t i ≡ passes t' 0
      → Kept s i w (p + 1) t'
  after_post s i w p t t' k r f =
      subst (Kept s i w (p + 1)) (ap result_of (sym r.returns ∙ f)) (record {
        counting = r.counting;
        balance = omega (arith, k.balance, r.more);
        slots = r.slots ∙ k.slots;
      })

  module _ (s : Sems H) (i : ℕ) (small : i < sem_amount) (slot : i < length s.instances)
      (c : IsCounting (sem_at s i)) where
    runs_keep : (w p : ℕ) (t : Sems H) → SemRuns s i w p t → Kept s i w p t
    runs_keep _ _ _ start = record { counting = c; balance = refl; slots = refl }
    runs_keep _ _ _ (waited w' p' t t' r e) =
        let k = runs_keep w' p' t r in
        after_wait s i w' p' t t' k (sem_wait-Counted t i small (omega (arith, k.slots)) k.counting)
          e
    runs_keep _ _ _ (blocked w' p' t t' r e) =
        let k = runs_keep w' p' t r in
        after_block s i w' p' t t' k
          (sem_wait-Counted t i small (omega (arith, k.slots)) k.counting) e
    runs_keep _ _ _ (posted w' p' t t' r room e) =
        let k = runs_keep w' p' t r in
        after_post s i w' p' t t' k
          (sem_post-Posts t i small (omega (arith, k.slots)) room k.counting) e
    runs_keep _ _ _ (other w' p' t t' r e n) =
        let k = runs_keep w' p' t r in
        record {
          counting = subst (λ x. IsCounting x.sem) (sym e) k.counting;
          balance = ap (λ x. x.sem.val + w') e ∙ k.balance;
          slots = n ∙ k.slots;
        }

    -- On a semaphore whose lock is held exactly when its value is 0, however attempts of `sem_wait`
    -- and calls of `sem_post` that keep the value an `int` are mixed, with anything in between that
    -- leaves its slot alone: its value and the number of waits that went through are together its
    -- first value and the number of posts, and the lock is still held exactly when the value is 0.
    pub SemRuns-balance :
        (w p : ℕ) (t : Sems H)
        → SemRuns s i w p t
        → ((sem_at t i).val + w ≡ (sem_at s i).val + p) × IsCounting (sem_at t i)
    SemRuns-balance w p t r = let k = runs_keep w p t r in (k.balance, k.counting)
