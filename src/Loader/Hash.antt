-- ===== src/Loader/Hash.antt =====
-- ntloader/ntloader.c, `fnv1a64`: which paths it keeps apart.
use ntlinux.Common.{ℕ, ◌*◌, ◌%◌, ◌^◌, ◌<◌, ◌≡◌, ◌≢◌, List, [], ◌∷◌, ◌++◌, All, arith}
use ntlinux.Common.Bits.{bit_xor-cancel, bit_xor-cancel_left, bit_xor_lt}
use ntlinux.Loader.Paths.{mix, hash_from, fnv1a64}

abbrev pub IsByte : ℕ → Type 0
IsByte c = c < 256

-- The multiplier is odd, and undone by its inverse modulo 2 ^ 64.
multiply-cancel :
    (x y : ℕ)
    → x < 2 ^ 64
    → y < 2 ^ 64
    → (x * 0x100000001b3) % 2 ^ 64 ≡ (y * 0x100000001b3) % 2 ^ 64
    → x ≡ y
multiply-cancel x y p q e = omega (arith, e)

mix_lt : (h c : ℕ) → mix h c < 2 ^ 64
unfolding mix
mix_lt h c = omega arith

mix-cancel : (h c d : ℕ) → h < 2 ^ 64 → IsByte c → IsByte d → mix h c ≡ mix h d → c ≡ d
unfolding mix
mix-cancel h c d p q r e =
    bit_xor-cancel h c d (
      multiply-cancel _ _ (bit_xor_lt 64 h c p (omega arith)) (bit_xor_lt 64 h d p (omega arith)) e)

mix-cancel_left : (g h c : ℕ) → g < 2 ^ 64 → h < 2 ^ 64 → IsByte c → mix g c ≡ mix h c → g ≡ h
unfolding mix
mix-cancel_left g h c p q r e =
    bit_xor-cancel_left g h c (
      multiply-cancel _ _ (bit_xor_lt 64 g c p (omega arith)) (bit_xor_lt 64 h c q (omega arith)) e)

-- What is hashed behind two states keeps them apart.
hash_from-cancel :
    (g h : ℕ) (cs : List ℕ)
    → g < 2 ^ 64
    → h < 2 ^ 64
    → All IsByte cs
    → hash_from g cs ≡ hash_from h cs
    → g ≡ h
unfolding hash_from
hash_from-cancel g h [] p q b e = e
hash_from-cancel g h (c ∷ cs) p q b e =
    mix-cancel_left g h c p q b.0
      (hash_from-cancel (mix g c) (mix h c) cs (mix_lt g c) (mix_lt h c) b.1 e)

one_byte :
    (h c d : ℕ) (before after : List ℕ)
    → h < 2 ^ 64
    → IsByte c
    → IsByte d
    → All IsByte after
    → hash_from h (before ++ c ∷ after) ≡ hash_from h (before ++ d ∷ after)
    → c ≡ d
unfolding hash_from
one_byte h c d [] after p q r b e =
    mix-cancel h c d p q r (hash_from-cancel _ _ after (mix_lt h c) (mix_lt h d) b e)
one_byte h c d (x ∷ xs) after p q r b e = one_byte (mix h x) c d xs after (mix_lt h x) q r b e

-- Two paths that differ in one byte never have the same hash.
pub fnv1a64-one_byte :
    (c d : ℕ) (before after : List ℕ)
    → IsByte c
    → IsByte d
    → All IsByte after
    → c ≢ d
    → fnv1a64 (before ++ c ∷ after) ≢ fnv1a64 (before ++ d ∷ after)
unfolding fnv1a64
fnv1a64-one_byte c d before after q r b n e =
    n (one_byte 0xcbf29ce484222325 c d before after (omega arith) q r b e)
