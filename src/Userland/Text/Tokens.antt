-- ===== src/Userland/Text/Tokens.antt =====
-- What `stringTokenizer` of Userland/SampleCodeModule/user_lib.c leaves in its three buffers.
use peps_os.Common.{
  ℕ, zero, suc, ◌+◌, ◌≤◌, ◌<◌, ◌≡◌, refl, ap, sym, ◌∙◌, arith, true, false, List, [], ◌∷◌, ◌++◌,
  ◌==◌, if◌then◌else◌, All, length, get_or, set, drop, length-append, append_assoc,
}
use peps_os.Userland.Text.{
  stops, word_length, copy_token, arg_length, second_token, first_token, string_tokenizer,
}

-- No byte of a word ends it.
abbrev pub IsWord : ℕ → List ℕ → Type 0
IsWord token w = All (λ c. stops token c ≡ false) w

one_add : (n : ℕ) → 1 + n ≡ suc n
one_add n = omega arith

suc_add_lem : (k n : ℕ) → suc k + n ≡ suc (k + n)
suc_add_lem k n = omega arith

-- Behind a word `w` and one byte more.
set-word : (w r : List ℕ) (c n v : ℕ) → set (w ++ c ∷ r) (suc (length w) + n) v ≡ w ++ c ∷ set r n v
set-word [] r c n v = rw (one_add n) refl
set-word (x ∷ w) r c n v = rw (suc_add_lem (suc (length w)) n) (ap (◌∷◌ x) (set-word w r c n v))

set-word_end : (w r : List ℕ) (c v : ℕ) → set (w ++ c ∷ r) (length w) v ≡ w ++ v ∷ r
set-word_end [] r c v = refl
set-word_end (x ∷ w) r c v = ap (◌∷◌ x) (set-word_end w r c v)

get_or-word : (w r : List ℕ) (c n d : ℕ) → get_or (w ++ c ∷ r) (suc (length w) + n) d ≡ get_or r n d
get_or-word [] r c n d = rw (one_add n) refl
get_or-word (x ∷ w) r c n d = rw (suc_add_lem (suc (length w)) n) (get_or-word w r c n d)

get_or-word_end : (w r : List ℕ) (c d : ℕ) → get_or (w ++ c ∷ r) (length w) d ≡ c
get_or-word_end [] r c d = refl
get_or-word_end (x ∷ w) r c d = get_or-word_end w r c d

drop-word_end : (w r : List ℕ) (c : ℕ) → drop (suc (length w)) (w ++ c ∷ r) ≡ r
drop-word_end [] r c = refl
drop-word_end (x ∷ w) r c = drop-word_end w r c

module _ (token : ℕ) where
  word_length-word :
      (w r : List ℕ) (c : ℕ)
      → IsWord token w
      → stops token c ≡ true
      → word_length token (w ++ c ∷ r) ≡ length w
  unfolding word_length
  word_length-word [] r c h e = rw e refl
  word_length-word (x ∷ w) r c (hx, hw) e = rw hx (ap suc (word_length-word w r c hw e))

  copy_token-word :
      (room : ℕ) (w r s1 : List ℕ) (c : ℕ)
      → IsWord token w
      → stops token c ≡ true
      → length w < room
      → length w ≤ length s1
      → copy_token room token (w ++ c ∷ r) s1 ≡ (length w, w ++ drop (length w) s1)
  unfolding copy_token
  copy_token-word zero w r s1 c h e lt le = absurd (omega arith)
  copy_token-word (suc room) [] r [] c h e lt le = rw e refl
  copy_token-word (suc room) [] r (d ∷ ds) c h e lt le = rw e refl
  copy_token-word (suc room) (x ∷ w) r [] c h e lt le = absurd (omega arith)
  copy_token-word (suc room) (x ∷ w) r (d ∷ ds) c (hx, hw) e lt le =
      rw (hx, copy_token-word room w r ds c hw e (omega arith) (omega arith)) refl

  second_token-word :
      (p w rest s1 s2 : List ℕ)
      → IsWord token w
      → length w < arg_length
      → length w ≤ length s2
      → second_token (p ++ token ∷ (w ++ 0 ∷ rest)) (length p) s1 s2 token
        ≡ record { string = p ++ 0 ∷ (w ++ 0 ∷ rest); s1 = s1; s2 = w ++ drop (length w) s2 }
  unfolding second_token
  second_token-word p w rest s1 s2 h lt le =
      rw
        (
          set-word_end p (w ++ 0 ∷ rest) token 0,
          drop-word_end p (w ++ 0 ∷ rest) 0,
          copy_token-word arg_length w rest s2 0 h refl lt le,
          set-word p (w ++ 0 ∷ rest) 0 (length w) 0,
          set-word_end w rest 0 0,
        )
        refl

  -- The first separator, with one word between it and the next byte that ends a word.
  first_token-word :
      (w0 w1 r s1 s2 : List ℕ) (c : ℕ)
      → IsWord token w1
      → stops token c ≡ true
      → length w1 < arg_length
      → length w1 ≤ length s1
      → first_token (w0 ++ token ∷ (w1 ++ c ∷ r)) (length w0) s1 s2 token ≡ (
          if c == 0
          then record { string = w0 ++ 0 ∷ (w1 ++ c ∷ r); s1 = w1 ++ drop (length w1) s1; s2 = s2 }
          else second_token
              (w0 ++ 0 ∷ (w1 ++ c ∷ r))
              (suc (length w0) + length w1)
              (w1 ++ drop (length w1) s1)
              s2
              token)
  unfolding first_token
  first_token-word w0 w1 r s1 s2 c h e lt le =
      rw
        (
          set-word_end w0 (w1 ++ c ∷ r) token 0,
          drop-word_end w0 (w1 ++ c ∷ r) 0,
          copy_token-word arg_length w1 r s1 c h e lt le,
          get_or-word w0 (w1 ++ c ∷ r) 0 (length w1) 0,
          get_or-word_end w1 r c 0,
        )
        refl

  string_tokenizer-word :
      (w0 r s1 s2 : List ℕ)
      → IsWord token w0
      → (token == 0) ≡ false
      → string_tokenizer (w0 ++ token ∷ r) s1 s2 token
        ≡ first_token (w0 ++ token ∷ r) (length w0) s1 s2 token
  unfolding string_tokenizer
  string_tokenizer-word w0 r s1 s2 h nz =
      let here : stops token token ≡ true = ground arith in
      rw (word_length-word w0 r token h here, get_or-word_end w0 r token 0, nz) refl

  -- A string of two words, the second in a buffer that it fits in, is cut into them; the third buffer
  -- stays.
  pub string_tokenizer-two_words :
      (w0 w1 rest s1 s2 : List ℕ)
      → IsWord token w0
      → IsWord token w1
      → (token == 0) ≡ false
      → length w1 < arg_length
      → length w1 ≤ length s1
      → string_tokenizer (w0 ++ token ∷ (w1 ++ 0 ∷ rest)) s1 s2 token
        ≡ record { string = w0 ++ 0 ∷ (w1 ++ 0 ∷ rest); s1 = w1 ++ drop (length w1) s1; s2 = s2 }
  string_tokenizer-two_words w0 w1 rest s1 s2 h0 h1 nz lt le =
      string_tokenizer-word w0 (w1 ++ 0 ∷ rest) s1 s2 h0 nz
      ∙ first_token-word w0 w1 rest s1 s2 0 h1 refl lt le

  -- A string of three words, the last two of fewer than 20 letters and no longer than their
  -- buffers, is cut into them: in the string a 0 stands behind each word, and each buffer begins
  -- with its word, with what it held before behind it; no 0 is put there.
  pub string_tokenizer-words :
      (w0 w1 w2 rest s1 s2 : List ℕ)
      → IsWord token w0
      → IsWord token w1
      → IsWord token w2
      → (token == 0) ≡ false
      → length w1 < arg_length
      → length w2 < arg_length
      → length w1 ≤ length s1
      → length w2 ≤ length s2
      → string_tokenizer (w0 ++ token ∷ (w1 ++ token ∷ (w2 ++ 0 ∷ rest))) s1 s2 token ≡ record {
        string = w0 ++ 0 ∷ (w1 ++ 0 ∷ (w2 ++ 0 ∷ rest));
        s1 = w1 ++ drop (length w1) s1;
        s2 = w2 ++ drop (length w2) s2;
      }
  string_tokenizer-words w0 w1 w2 rest s1 s2 h0 h1 h2 nz lt1 lt2 le1 le2 =
      let here : stops token token ≡ true = ground arith in
      let inner = w2 ++ 0 ∷ rest in
      let at_second : length (w0 ++ 0 ∷ w1) ≡ suc (length w0) + length w1 =
        length-append w0 (0 ∷ w1) ∙ omega arith in
      string_tokenizer-word w0 (w1 ++ token ∷ inner) s1 s2 h0 nz
      ∙ (first_token-word w0 w1 inner s1 s2 token h1 here lt1 le1
          ∙ rw (nz, sym at_second, sym (append_assoc w0 (0 ∷ w1) (token ∷ inner)))
              (second_token-word (w0 ++ 0 ∷ w1) w2 rest (w1 ++ drop (length w1) s1) s2 h2 lt2 le2
                ∙ ap
                    (λ string. record {
                      string = string;
                      s1 = w1 ++ drop (length w1) s1;
                      s2 = w2 ++ drop (length w2) s2;
                    })
                    (append_assoc w0 (0 ∷ w1) (0 ∷ inner))))
