-- ===== src/Userland/Shell/Kills.antt =====
-- `kill <pid>` at the shell, Userland/SampleCodeModule/consola.c, from the letters to the system call.
use peps_os.Common.{
  ℕ, zero, suc, ◌+◌, ◌-◌, ◌/◌, ◌%◌, ◌≤◌, ◌<◌, ◌≡◌, refl, sym, ap, ◌∙◌, arith, true, false, inl, inr,
  List, [], ◌∷◌, ◌++◌, ◌==◌, All, length, drop, replicate, Bool-cases, codes, reverse_aux,
  length-replicate, u32_mod,
}
use peps_os.Console.{long_buffer}
use peps_os.Console.Digits.{power_ten}
use peps_os.Userland.Text.{string_tokenizer, arg_length, satoi, compare_strings, stops}
use peps_os.Userland.Text.Tokens.{string_tokenizer-two_words}
use peps_os.Userland.Text.Parsed.{satoi-long_buffer, IsDigit, long_buffer-IsDigit}
use peps_os.Userland.Commands.{get_command_type, classify, is_pipe, space, is_kill_command}
use peps_os.Userland.Calls.{UserCalls}
use peps_os.Userland.Shell.{
  reads, empty_line, line_length, run_console, draw_text, wiped, line_entered, interpret_command,
  run_command, kill_told,
}
use peps_os.Userland.Shell.Typed.{type_letters, after_turn, is_text, line_of, type_letters-text}
use peps_os.Userland.Shell.Runs.{wiped-append}

-- The decimal digits of a number, highest first.
abbrev pub decimal : ℕ → List ℕ
decimal n = reverse_aux (long_buffer 64 n) []

reverse_aux-append : (b t r : List ℕ) → reverse_aux b t ++ r ≡ reverse_aux b (t ++ r)
reverse_aux-append [] t r = refl
reverse_aux-append (x ∷ b) t r = reverse_aux-append b (x ∷ t) r

All-reverse_aux : (P : ℕ → Type 0) (b t : List ℕ) → All P b → All P t → All P (reverse_aux b t)
All-reverse_aux P [] t hb ht = ht
All-reverse_aux P (x ∷ b) t (hx, hb) ht = All-reverse_aux P b (x ∷ t) hb (hx, ht)

length-reverse_aux : (b t : List ℕ) → length (reverse_aux b t) ≡ length b + length t
length-reverse_aux [] t = omega arith
length-reverse_aux (x ∷ b) t = length-reverse_aux b (x ∷ t) ∙ omega arith

All-map : (P Q : ℕ → Type 0) (xs : List ℕ) → ((x : ℕ) → P x → Q x) → All P xs → All Q xs
All-map P Q [] f h = tt
All-map P Q (x ∷ xs) f (hx, hs) = (f x hx, All-map P Q xs f hs)

long_buffer-short : (m f n : ℕ) → n < power_ten m → length (long_buffer f n) ≤ m
unfolding long_buffer
long_buffer-short m zero n h = omega arith
long_buffer-short zero (suc f) n h =
    let none_left : (n == 0) ≡ true = ground arith in rw none_left (omega arith)
long_buffer-short (suc m) (suc f) n h = elim (Bool-cases (n == 0)) [
  | inl e ↦ rw e (omega arith)
  | inr e ↦ rw e (omega (arith, long_buffer-short m f (n / 10) (omega arith)))
]

zero_add_lem : (n : ℕ) → 0 + n ≡ n
zero_add_lem n = omega arith

suc_add_lem : (k n : ℕ) → suc k + n ≡ suc (k + n)
suc_add_lem k n = omega arith

replicate-append : (a b x : ℕ) → replicate a x ++ replicate b x ≡ replicate (a + b) x
replicate-append zero b x = ap (λ n. replicate n x) (sym (zero_add_lem b))
replicate-append (suc a) b x =
    ap (◌∷◌ x) (replicate-append a b x) ∙ ap (λ n. replicate n x) (sym (suc_add_lem a b))

decimal-IsDigit : (n : ℕ) → All IsDigit (decimal n)
decimal-IsDigit n = All-reverse_aux IsDigit (long_buffer 64 n) [] (long_buffer-IsDigit 64 n) tt

decimal-short : (n : ℕ) → n < 2147483648 → length (decimal n) ≤ 10
decimal-short n h =
    omega (arith, length-reverse_aux (long_buffer 64 n) [], long_buffer-short 10 64 n (omega arith))

decimal-satoi : (n : ℕ) (rest : List ℕ) → n < 2147483648 → satoi (decimal n ++ 0 ∷ rest) ≡ n
decimal-satoi n rest h =
    ap satoi (reverse_aux-append (long_buffer 64 n) [] (0 ∷ rest))
    ∙ (satoi-long_buffer n rest (omega arith)).0

-- Digits are no separator and no `|`.
digits-unpiped : (b rest : List ℕ) → All IsDigit b → is_pipe (b ++ 0 ∷ rest) ≡ false
unfolding is_pipe
digits-unpiped [] rest h = refl
digits-unpiped (x ∷ b) rest (hx, h) =
    let other : (x == 124) ≡ false = ground (arith, hx) in rw other refl

drop-replicate : (k n x : ℕ) → drop k (replicate (k + n) x) ≡ replicate n x
drop-replicate zero n x = ap (λ m. replicate m x) (zero_add_lem n)
drop-replicate (suc k) n x =
    ap (λ m. drop (suc k) (replicate m x)) (suc_add_lem k n) ∙ drop-replicate k n x

rest_of_argument :
    (d : ℕ) → d ≤ 10 → drop {A = ℕ} d (replicate arg_length 0) ≡ 0 ∷ replicate (19 - d) 0
rest_of_argument d h =
    let whole : arg_length ≡ d + suc (19 - d) = omega arith in
    ap (λ m. drop {A = ℕ} d (replicate m 0)) whole ∙ drop-replicate d (suc (19 - d)) 0

module _ {K : Type 0} (c : UserCalls K) where
  abbrev pub word_of : ℕ → List ℕ
  word_of n = codes "kill " ++ decimal n

  tokens_of_kill :
      (n m : ℕ)
      → n < 2147483648
      → string_tokenizer
          (word_of n ++ 0 ∷ replicate m 0)
          (replicate arg_length 0)
          (replicate arg_length 0)
          space
        ≡ record {
          string = codes "kill" ++ 0 ∷ (decimal n ++ 0 ∷ replicate m 0);
          s1 = decimal n ++ 0 ∷ replicate (19 - length (decimal n)) 0;
          s2 = replicate arg_length 0;
        }
  tokens_of_kill n m h =
      string_tokenizer-two_words space (codes "kill") (decimal n) (replicate m 0)
        (replicate arg_length 0) (replicate arg_length 0) (refl, (refl, (refl, (refl, tt))))
        (All-map IsDigit (λ x. stops space x ≡ false) (decimal n) (λ x e. ground (arith, e))
          (decimal-IsDigit n))
        refl (omega (arith, decimal-short n h))
        (omega (arith, decimal-short n h, length-replicate {A = ℕ} arg_length 0))
      ∙ ap
          (λ r. record {
            string = codes "kill" ++ 0 ∷ (decimal n ++ 0 ∷ replicate m 0);
            s1 = decimal n ++ r;
            s2 = replicate arg_length 0;
          })
          (rest_of_argument (length (decimal n)) (decimal-short n h))

  -- The shell reads the words, finds the command, and makes the call.
  interpret_kill :
      (n m : ℕ) (k : K)
      → 0 < n
      → n < 2147483648
      → interpret_command c (word_of n ++ 0 ∷ replicate m 0) k
        ≡ (codes "kill" ++ 0 ∷ (decimal n ++ 0 ∷ replicate m 0), kill_told c (c.kill n k))
  unfolding interpret_command get_command_type classify run_command is_kill_command compare_strings
  interpret_kill n m k p h =
      let known : satoi (decimal n ++ 0 ∷ replicate (19 - length (decimal n)) 0) ≡ n =
        decimal-satoi n _ h in
      let some_pid : (n == 0) ≡ false = ground arith in
      let fits : n % u32_mod ≡ n = omega arith in
      rw
        (
          tokens_of_kill n m h,
          digits-unpiped (decimal n) (replicate (19 - length (decimal n)) 0) (decimal-IsDigit n),
          known,
          some_pid,
        )
        (ap
          (λ pid.
            (codes "kill" ++ 0 ∷ (decimal n ++ 0 ∷ replicate m 0), kill_told c (c.kill pid k)))
          (ap (λ v. v % u32_mod) known ∙ fits))

  wiped-kill :
      (n m : ℕ)
      → suc m + length (word_of n) ≡ line_length
      → wiped (length (word_of n)) (codes "kill" ++ 0 ∷ (decimal n ++ 0 ∷ replicate m 0))
        ≡ replicate line_length 0
  wiped-kill n m e =
      wiped-append c (codes "kill" ++ 0 ∷ decimal n) (0 ∷ replicate m 0)
      ∙ (replicate-append (length (word_of n)) (suc m) 0
          ∙ ap (λ j. replicate j 0) {y = line_length} (omega (arith, e)))

  enter_turn :
      (n m : ℕ) (k : K)
      → 0 < n
      → n < 2147483648
      → suc m + length (word_of n) ≡ line_length
      → type_letters c (line_of (word_of n) (suc m)) (10 ∷ []) k
        ≡ reads empty_line
            (c.set_y_buffer 10 (c.set_x_buffer 0 (c.clear (kill_told c (c.kill n k)))))
  unfolding type_letters run_console after_turn line_entered
  enter_turn n m k p h e = rw (interpret_kill n m k p h, wiped-kill n m e) refl

  -- Typing `kill`, a space and the decimal digits of a positive pid below 2 ^ 31, then Enter, calls
  -- `kill` with that pid once, after the letters are drawn, tells how it went, and leaves an empty
  -- line.
  pub type_letters-kill :
      (n : ℕ) (k : K)
      → 0 < n
      → n < 2147483648
      → type_letters c empty_line (word_of n ++ 10 ∷ []) k
        ≡ reads empty_line (
            c.set_y_buffer 10
              (c.set_x_buffer 0 (c.clear (kill_told c (c.kill n (draw_text c (word_of n) k))))))
  type_letters-kill n k p h =
      let m = 44 - length (decimal n) in
      let short = decimal-short n h in
      let full : suc m + length (word_of n) ≡ line_length = omega (arith, short) in
      ap (λ j. type_letters c (line_of [] j) (word_of n ++ 10 ∷ []) k) (sym full)
      ∙ (type_letters-text c [] (word_of n) (10 ∷ []) (suc m) k
            (
              refl,
              (
                refl,
                (
                  refl,
                  (
                    refl,
                    (
                      refl,
                      All-map IsDigit (λ x. is_text x ≡ true) (decimal n) (λ x e. ground (arith, e))
                          (decimal-IsDigit n),
                    ),
                  ),
                ),
              ),
            )
            (omega (arith, full))
          ∙ enter_turn n m (draw_text c (word_of n) k) p h full)
