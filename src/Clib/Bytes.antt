-- ===== src/Clib/Bytes.antt =====
-- `memset`, `memcpy` and the key buffer of Kernel/lib.c.
use peps_os.Common.{
  ℕ, zero, suc, ◌+◌, ◌-◌, ◌*◌, ◌/◌, ◌%◌, ◌<◌, ◌≤◌, ◌≡◌, refl, subst, ◌∙◌, arith, inl, inr, true,
  false, ◌&&◌, List, ◌==◌, leb, ltb, if◌then◌else◌, length, get_or, set, Bool-cases, length-set,
  get_or-set_self, get_or-set_ne,
}
use peps_os.Clib.{
  memset, memcpy, copy_bytes, copy_word, copy_words, KeyBuffer, add_to_buffer, get_kb_char,
  buffer_size,
}

memset-outside :
    (n : ℕ) (dst : List ℕ) (c j : ℕ) → n ≤ j → get_or (memset dst c n) j 0 ≡ get_or dst j 0
unfolding memset
memset-outside zero dst c j h = refl
memset-outside (suc n) dst c j h =
    memset-outside n (set dst n (c % 256)) c j (omega arith)
    ∙ get_or-set_ne dst n j (c % 256) 0 (omega arith)

memset-inside :
    (n : ℕ) (dst : List ℕ) (c j : ℕ)
    → j < n
    → n ≤ length dst
    → get_or (memset dst c n) j 0 ≡ c % 256
unfolding memset
memset-inside zero dst c j h l = absurd (omega arith)
memset-inside (suc n) dst c j h l = elim (Bool-cases (j == n)) [
  | inl e ↦
      let at_n : j ≡ n = ground arith in
      rw at_n (
        memset-outside n (set dst n (c % 256)) c n (omega arith)
        ∙ get_or-set_self dst n (c % 256) 0 (omega arith))
  | inr e ↦
      memset-inside n (set dst n (c % 256)) c j (ground arith)
        (omega (arith, length-set dst n (c % 256)))
]

-- In a buffer of at least `n` bytes, `memset` makes the first `n` bytes the low byte of `c` and
-- leaves the others.
pub memset-fills :
    (dst : List ℕ) (c n j : ℕ)
    → n ≤ length dst
    → get_or (memset dst c n) j 0 ≡ (if ltb j n then c % 256 else get_or dst j 0)
memset-fills dst c n j h = elim (Bool-cases (ltb j n)) [
  | inl e ↦ rw e (memset-inside n dst c j (ground arith) h)
  | inr e ↦ rw e (memset-outside n dst c j (ground arith))
]

-- Four bytes are one word.
words_are_bytes : (n i : ℕ) (d s : List ℕ) → copy_words n i d s ≡ copy_bytes (n * 4) (i * 4) d s
unfolding copy_words copy_bytes
words_are_bytes zero i d s = refl
words_are_bytes (suc n) i d s =
    let four : suc n * 4 ≡ suc (suc (suc (suc (n * 4)))) = omega arith in
    let next : (i + 1) * 4 ≡ i * 4 + 1 + 1 + 1 + 1 = omega arith in
    let d' : List ℕ = copy_word (i * 4) d s in
    rw four (
      subst (λ k. copy_words n (i + 1) d' s ≡ copy_bytes (n * 4) k d' s) next
        (words_are_bytes n (i + 1) d' s))

copied :
    (n i : ℕ) (d s : List ℕ) (j : ℕ)
    → i + n ≤ length d
    → get_or (copy_bytes n i d s) j 0
      ≡ (if leb i j && ltb j (i + n) then get_or s j 0 else get_or d j 0)
unfolding copy_bytes
copied zero i d s j h =
    let none : (leb i j && ltb j (i + zero)) ≡ false = ground arith in rw none refl
copied (suc n) i d s j h =
    let d' : List ℕ = set d i (get_or s i 0) in
    let rest = copied n (i + 1) d' s j (omega (arith, length-set d i (get_or s i 0))) in
    elim (Bool-cases (j == i)) [
      | inl e ↦
          let at_i : j ≡ i = ground arith in
          let here : (leb i j && ltb j (i + suc n)) ≡ true = ground arith in
          let past : (leb (i + 1) j && ltb j (i + 1 + n)) ≡ false = ground arith in
          rest ∙ rw (past, here) (rw at_i (get_or-set_self d i (get_or s i 0) 0 (omega arith)))
      | inr e ↦
          let same : (leb (i + 1) j && ltb j (i + 1 + n)) ≡ (leb i j && ltb j (i + suc n)) =
            ground arith in
          rest ∙ rw (same, get_or-set_ne d i j (get_or s i 0) 0 (ground arith)) refl
    ]

copied_all :
    (n : ℕ) (d s : List ℕ) (j : ℕ)
    → n ≤ length d
    → get_or (copy_bytes n 0 d s) j 0 ≡ (if ltb j n then get_or s j 0 else get_or d j 0)
copied_all n d s j h =
    let same : (leb 0 j && ltb j (0 + n)) ≡ ltb j n = ground arith in
    copied n 0 d s j (omega arith) ∙ rw same refl

-- Into a buffer of at least `n` bytes that does not overlap the source, `memcpy` of `n` bytes, by
-- words or by bytes as the addresses allow, makes the first `n` bytes those of the source and
-- leaves the others.
pub memcpy-copies :
    (destination source n : ℕ) (d s : List ℕ) (j : ℕ)
    → n ≤ length d
    → get_or (memcpy destination source d s n) j 0
      ≡ (if ltb j n then get_or s j 0 else get_or d j 0)
unfolding memcpy
memcpy-copies destination source n d s j h =
    elim (Bool-cases ((destination % 4 == 0) && ((source % 4 == 0) && (n % 4 == 0)))) [
      | inl e ↦
          let whole : n / 4 * 4 ≡ n = ground arith in
          rw (e, words_are_bytes (n / 4) 0 d s, whole) (copied_all n d s j h)
      | inr e ↦ rw e (copied_all n d s j h)
    ]

-- On a key buffer of 10 characters whose index is at most 10, `getKbChar` after `addToBuffer` gives
-- the character that was added, also when the buffer was full.
pub get_kb_char-add_to_buffer :
    (b : KeyBuffer) (c : ℕ)
    → length b.kb_buffer ≡ buffer_size
    → b.buffer_indx ≤ buffer_size
    → (get_kb_char (add_to_buffer b c)).0 ≡ c
unfolding get_kb_char add_to_buffer
get_kb_char-add_to_buffer b c l h = elim (Bool-cases (leb buffer_size b.buffer_indx)) [
  | inl full ↦ rw full (get_or-set_self b.kb_buffer 0 c 0 (omega arith))
  | inr room ↦
      let i = b.buffer_indx in
      let small : (i + 1) % 256 ≡ i + 1 = omega arith in
      let some_left : leb (i + 1) 0 ≡ false = ground arith in
      let back : i + 1 - 1 ≡ i = omega arith in
      rw (room, small, some_left, back) (get_or-set_self b.kb_buffer i c 0 (ground arith))
]
