-- ===== src/Clib.antt =====
-- Kernel/lib.c: strings, memory, the key buffer, the clock's digits and logarithms. A `char *` is the
-- list of the bytes from there on; a read behind them is 0, and a store behind them is lost.
pub mod Strings
pub mod Bytes
pub mod Numbers
mod Tests
use peps_os.Common.{
  ℕ, zero, suc, ◌+◌, ◌-◌, ◌*◌, ◌/◌, ◌%◌, ◌^◌, Bool, true, false, ◌&&◌, ◌||◌, not, List, [], ◌∷◌,
  ◌==◌, ltb, leb, if◌then◌else◌, get_or, set, minus_one, is_negative, bit_and, ◌++◌,
}

-- `string_length`.
unfoldable pub string_length : List ℕ → ℕ
string_length [] = 0
string_length (c ∷ cs) = let rest = string_length cs in if c == 0 then 0 else suc rest

-- `string_copy`: the bytes at `to` afterwards.
unfoldable pub string_copy : List ℕ → List ℕ → List ℕ
string_copy cs [] = []
string_copy [] (d ∷ ds) = 0 ∷ ds
string_copy (c ∷ cs) (d ∷ ds) = let rest = string_copy cs ds in if c == 0 then 0 ∷ ds else c ∷ rest

-- `same_string`.
unfoldable pub same_string : List ℕ → List ℕ → Bool
same_string [] [] = true
same_string [] (y ∷ ys) = 0 == y
same_string (x ∷ xs) [] = x == 0
same_string (x ∷ xs) (y ∷ ys) =
    let rest = same_string xs ys in
    if (x == y) && (not (x == 0) && not (y == 0)) then rest else x == y

-- `while (length--) dst[length] = chr;`.
unfoldable pub memset : List ℕ → ℕ → ℕ → List ℕ
memset dst c zero = dst
memset dst c (suc n) = memset (set dst n (c % 256)) c n

-- The loop of `memcpy` over bytes, from `i` on with `n` to go.
unfoldable pub copy_bytes : ℕ → ℕ → List ℕ → List ℕ → List ℕ
copy_bytes zero i d s = d
copy_bytes (suc n) i d s = copy_bytes n (i + 1) (set d i (get_or s i 0)) s

-- `d[i] = s[i];` of a `uint32_t`: the four bytes from `k` on.
abbrev pub copy_word : ℕ → List ℕ → List ℕ → List ℕ
copy_word k d s =
    let d1 = set d k (get_or s k 0) in
    let d2 = set d1 (k + 1) (get_or s (k + 1) 0) in
    let d3 = set d2 (k + 1 + 1) (get_or s (k + 1 + 1) 0) in
    set d3 (k + 1 + 1 + 1) (get_or s (k + 1 + 1 + 1) 0)

-- The loop over `uint32_t`s.
unfoldable pub copy_words : ℕ → ℕ → List ℕ → List ℕ → List ℕ
copy_words zero i d s = d
copy_words (suc n) i d s = copy_words n (i + 1) (copy_word (i * 4) d s) s

-- `memcpy` between two buffers that do not overlap, with their addresses.
unfoldable pub memcpy : ℕ → ℕ → List ℕ → List ℕ → ℕ → List ℕ
memcpy destination source d s length =
    if (destination % 4 == 0) && ((source % 4 == 0) && (length % 4 == 0))
    then copy_words (length / 4) 0 d s
    else copy_bytes length 0 d s

-- `kbBuffer`, `bufferIndx`.
pub record KeyBuffer : Type 0 where
  pub kb_buffer : List ℕ
  pub buffer_indx : ℕ

abbrev pub buffer_size : ℕ
buffer_size = 10

-- `addToBuffer`.
unfoldable pub add_to_buffer : KeyBuffer → ℕ → KeyBuffer
add_to_buffer b c =
    let i = if leb buffer_size b.buffer_indx then 0 else b.buffer_indx in
    record { kb_buffer = set b.kb_buffer i c; buffer_indx = (i + 1) % 256 }

-- `getKbChar`: the character, 0 if there is none.
unfoldable pub get_kb_char : KeyBuffer → ℕ × KeyBuffer
get_kb_char b =
    if leb b.buffer_indx 0
    then (0, b)
    else (get_or b.kb_buffer (b.buffer_indx - 1) 0, record b { buffer_indx = b.buffer_indx - 1 })

-- `keyPressed` on `keysPressed`.
unfoldable pub key_pressed : Bool → ℕ → ℕ
key_pressed state n = if state then (n + 1) % 256 else (n + 255) % 256

-- `decode`; `time >> 4` is `time / 16`.
unfoldable pub decode : ℕ → ℕ
decode time = (time / 16) * 10 + bit_and time 15

-- `if (X >> k) { X >>= k; log2 += k; }`, with `p` for 2 ^ k.
abbrev pub log_step : ℕ → ℕ → ℕ × ℕ → ℕ × ℕ
log_step k p (x, log2) = if x / p == 0 then (x, log2) else (x / p, log2 + k)

-- `if (X >> 1) log2 += 1;`.
abbrev pub log_last : ℕ × ℕ → ℕ
log_last (x, log2) = if x / 2 == 0 then log2 else log2 + 1

-- `fast_log2`.
unfoldable pub fast_log2 : ℕ → ℕ
fast_log2 x =
    if (x == 0) || is_negative x
    then minus_one
    else log_last (log_step 2 4 (log_step 4 16 (log_step 8 256 (log_step 16 65536 (x, 0)))))

-- `log2_fast_long`.
unfoldable pub log2_fast_long : ℕ → ℕ
log2_fast_long x =
    if x == 0
    then minus_one
    else log_last (
        log_step 2 4
          (log_step 4 16 (log_step 8 256 (log_step 16 65536 (log_step 32 4294967296 (x, 0))))))
