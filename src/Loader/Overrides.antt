-- ===== src/Loader/Overrides.antt =====
-- ntloader/ntloader.c: the value of WINEDLLOVERRIDES, and the buffer that it grows in.
use ntlinux.Common.{
  append_nil, append_assoc, ℕ, zero, suc, ◌+◌, ◌*◌, ◌^◌, ◌≤◌, ◌<◌, ◌≡◌, refl, sym, ap, ◌∙◌, List,
  [], ◌∷◌, ◌++◌, Option, none, some, All, true, false, ◌==◌, length, if◌then◌else◌, Bool-cases, inl,
  inr, arith, length-append,
}
use ntlinux.Ntbridge.Ring.Fill.{fold}
use ntlinux.Loader.{
  fgets, until, clean, line_loop, Buffer, skipped, add_line, override_line, empty_buffer,
  overrides_buffer, nonempty, load_dll_overrides,
}
use ntlinux.Loader.Lines.{IsLine, unlines, until-line, line_loop-fold, fgets-splits, until-shortens}

-- The lines that name an override.
abbrev pub kept : List (List ℕ) → List (List ℕ)
kept [] = []
kept (l ∷ ls) = if skipped l then kept ls else l ∷ kept ls

-- Each with a semicolon before it.
abbrev pub led : List (List ℕ) → List ℕ
led [] = []
led (l ∷ ls) = 59 ∷ l ++ led ls

-- Joined by semicolons; none of them: no value.
abbrev pub joined : List (List ℕ) → Option (List ℕ)
joined [] = none
joined (l ∷ ls) = some (l ++ led ls)

override_line-kept :
    (l : List ℕ) (b : Buffer)
    → IsLine l
    → override_line (l ++ 10 ∷ []) b ≡ (if skipped l then b else add_line l b)
unfolding override_line
override_line-kept l b v = rw (until-line l v.1) refl

add_line-first :
    (l : List ℕ) (b : Buffer)
    → b.first ≡ true
    → ((add_line l b).out ≡ b.out ++ l) × ((add_line l b).first ≡ false)
unfolding add_line
add_line-first l b f = rw f (refl, refl)

add_line-later :
    (l : List ℕ) (b : Buffer)
    → b.first ≡ false
    → ((add_line l b).out ≡ b.out ++ 59 ∷ l) × ((add_line l b).first ≡ false)
unfolding add_line
add_line-later l b f = rw f (refl, refl)

abbrev handled : List (List ℕ) → Buffer → Buffer
handled = fold (λ l. override_line (l ++ 10 ∷ []))

handled-led :
    (ls : List (List ℕ)) (b : Buffer)
    → All IsLine ls
    → b.first ≡ false
    → (handled ls b).out ≡ b.out ++ led (kept ls)
handled-led [] b v f = sym (append_nil b.out)
handled-led (l ∷ ls) b v f =
    let e = override_line-kept l b v.0 in
    elim (Bool-cases (skipped l)) [
      | inl out ↦ rw (e, fold, out) (handled-led ls b v.1 f)
      | inr kept_line ↦
          let a = add_line-later l b f in
          rw (e, fold, kept_line)
            (handled-led ls (add_line l b) v.1 a.1
              ∙ ap (λ o. o ++ led (kept ls)) a.0
              ∙ append_assoc b.out (59 ∷ l) (led (kept ls)))
    ]

handled-joined :
    (ls : List (List ℕ)) (b : Buffer)
    → All IsLine ls
    → b.first ≡ true
    → b.out ≡ []
    → nonempty (handled ls b).out ≡ joined (kept ls)
handled-joined [] b v f o = rw o refl
handled-joined ([] ∷ ls) b v f o =
    rw (override_line-kept [] b v.0, fold) (handled-joined ls b v.1 f o)
handled-joined ((c ∷ cs) ∷ ls) b v f o =
    let e = override_line-kept (c ∷ cs) b v.0 in
    elim (Bool-cases (c == 35)) [
      | inl out ↦ rw (e, fold, out) (handled-joined ls b v.1 f o)
      | inr kept_line ↦
          let a = add_line-first (c ∷ cs) b f in
          rw (e, fold, kept_line)
            (ap nonempty (
              handled-led ls (add_line (c ∷ cs) b) v.1 a.1
              ∙ ap (λ s. s ++ led (kept ls)) (a.0 ∙ ap (λ s. s ++ c ∷ cs) o)))
    ]

-- A file of lines of at most 254 bytes, none with a zero byte, gives the lines that are neither empty
-- nor start with `#`, in order, joined by semicolons; and no value if there are none.
pub load_dll_overrides-unlines :
    (ls : List (List ℕ)) → All IsLine ls → load_dll_overrides (some (unlines ls)) ≡ joined (kept ls)
unfolding load_dll_overrides overrides_buffer
load_dll_overrides-unlines ls v =
    ap (λ b. nonempty b.out)
      (line_loop-fold override_line (length (unlines ls)) ls empty_buffer v (omega arith))
    ∙ handled-joined ls empty_buffer v refl refl

-- The string with its end fits the capacity, and the length is the string's.
abbrev pub IsBuffer : Buffer → Type 0
IsBuffer b = (b.len ≡ length b.out) × (length b.out + 1 ≤ b.cap)

add_line-IsBuffer :
    (l : List ℕ) (b : Buffer)
    → b.len + length l < 2 ^ 62
    → IsBuffer b
    → IsBuffer (add_line l b) × ((add_line l b).len ≤ b.len + length l + 1)
unfolding add_line
add_line-IsBuffer l b h v =
    let p = length-append b.out l in
    let q = length-append b.out (59 ∷ l) in
    elim (Bool-cases b.first) [
      | inl f ↦ rw f ((omega (arith, v.0, p, h), ground (arith, v.0, v.1, p, h)), omega (arith, h))
      | inr f ↦ rw f ((omega (arith, v.0, q, h), ground (arith, v.0, v.1, q, h)), omega (arith, h))
    ]

override_line-IsBuffer :
    (line : List ℕ) (b : Buffer)
    → b.len + 2 * length line < 2 ^ 61
    → IsBuffer b
    → IsBuffer (override_line line b) × ((override_line line b).len ≤ b.len + 2 * length line)
unfolding override_line
override_line-IsBuffer line b h v = elim (Bool-cases (skipped (clean line))) [
  | inl out ↦ rw out (v, omega arith)
  | inr kept_line ↦
      let c = until-shortens 0 line in
      let d = until-shortens 10 (until 0 line) in
      let e = one_byte (clean line) kept_line in
      let a = add_line-IsBuffer (clean line) b (omega (arith, h, c, d)) v in
      rw kept_line (a.0, omega (arith, a.1, c, d, e))
]
  where
    one_byte : (l : List ℕ) → skipped l ≡ false → 1 ≤ length l
    one_byte [] e = absurd (cc e)
    one_byte (c ∷ cs) e = omega arith

line_loop-IsBuffer :
    (fuel : ℕ) (file : List ℕ) (b : Buffer)
    → b.len + 2 * length file < 2 ^ 61
    → IsBuffer b
    → IsBuffer (line_loop override_line fuel file b)
unfolding line_loop
line_loop-IsBuffer zero file b h v = v
line_loop-IsBuffer (suc fuel) [] b h v = v
line_loop-IsBuffer (suc fuel) (c ∷ cs) b h v =
    let s = fgets-splits 255 (c ∷ cs) in
    let line = (fgets 255 (c ∷ cs)).0 in
    let o = override_line-IsBuffer line b (omega (arith, h, s)) v in
    line_loop-IsBuffer fuel (fgets 255 (c ∷ cs)).1 (override_line line b) (omega (arith, h, s, o.1))
      o.0

-- Whatever a file of less than 2^59 bytes holds, the string that was built fits its buffer together
-- with its end, after each of the lines, and the length that is kept beside it is its own.
pub overrides_buffer-fits :
    (file : List ℕ)
    → length file < 2 ^ 59
    → let b = overrides_buffer file in (length b.out + 1 ≤ b.cap) × (b.len ≡ length b.out)
unfolding overrides_buffer
overrides_buffer-fits file h =
    let v =
      line_loop-IsBuffer (length file) file empty_buffer (omega (arith, h)) (refl, omega arith) in
    (v.1, v.0)
