-- ===== src/Ntexports/Escapes.antt =====
-- ntexports.c, `json_escape`: what it writes is a JSON string, and reads back as what was escaped.
use ntlinux.Common.{
  ap, ◌∙◌, false, ==_iff, ltb→lt, drop, ◌^◌, ℕ, zero, suc, ◌+◌, ◌-◌, ◌*◌, ◌/◌, ◌%◌, ◌<◌, ◌≡◌, refl,
  List, [], ◌∷◌, ◌++◌, Option, none, some, ◌&&◌, ◌==◌, ltb, leb, if◌then◌else◌, Bool-cases, inl,
  inr, arith,
}
use ntlinux.Common.Text.{hex, hex_digit}
use ntlinux.Ntexports.{escaped, escape_all, json_escape}

-- Where a reader of a JSON string stands: in plain text, behind a backslash, or in front of some
-- hexadecimal digits, with the value of those before.
pub data Place : Type 0 where
  plain escape : Place
  digits : ℕ → ℕ → Place

unfoldable hex_value : ℕ → Option ℕ
hex_value c =
    if leb 48 c && leb c 57
    then some (c - 48)
    else if leb 97 c && leb c 102
    then some (c - 87)
    else if leb 65 c && leb c 70
    then some (c - 55)
    else none

abbrev push : ℕ → Option (List ℕ × List ℕ) → Option (List ℕ × List ℕ)
push c none = none
push c (some (s, rest)) = some (c ∷ s, rest)

-- The string up to the closing quote, and what follows it; none: it is no string of RFC 8259. A raw
-- control character is none.
pub read_string : Place → List ℕ → Option (List ℕ × List ℕ)
read_string p [] = none
read_string plain (c ∷ cs) =
    let next = read_string plain cs in
    let behind = read_string escape cs in
    if c == 34
    then some ([], cs)
    else if c == 92
    then behind
    else if ltb c 32
    then none
    else push c next
read_string escape (c ∷ cs) =
    let next = read_string plain cs in
    let value = read_string (digits 3 0) cs in
    if c == 34
    then push 34 next
    else if c == 92
    then push 92 next
    else if c == 47
    then push 47 next
    else if c == 98
    then push 8 next
    else if c == 102
    then push 12 next
    else if c == 110
    then push 10 next
    else if c == 114
    then push 13 next
    else if c == 116
    then push 9 next
    else if c == 117
    then value
    else none
read_string (digits zero v) (c ∷ cs) =
    let next = read_string plain cs in
    elim (hex_value c) [ none ↦ none | some d ↦ push (16 * v + d) next ]
read_string (digits (suc n) v) (c ∷ cs) = elim (hex_value c) [
  | none ↦ none
  | some d ↦ read_string (digits n (16 * v + d)) cs
]

hex_value-hex_digit : (d : ℕ) → d < 16 → hex_value (hex_digit d) ≡ some d
unfolding hex_value hex_digit
hex_value-hex_digit d h = ground arith

abbrev plain_byte : ℕ → List ℕ
plain_byte c = c ∷ []

read-digit :
    (n v d : ℕ) (cs : List ℕ)
    → d < 16
    → read_string (digits (suc n) v) (hex_digit d ∷ cs) ≡ read_string (digits n (16 * v + d)) cs
unfolding read_string
read-digit n v d cs h = rw (read_string, hex_value-hex_digit d h) refl

read-last_digit :
    (v d : ℕ) (cs : List ℕ)
    → d < 16
    → read_string (digits zero v) (hex_digit d ∷ cs) ≡ push (16 * v + d) (read_string plain cs)
unfolding read_string
read-last_digit v d cs h = rw (read_string, hex_value-hex_digit d h) refl

-- A number below 65536 in four digits.
read-hex :
    (c : ℕ) (cs : List ℕ)
    → c < 16 ^ 4
    → read_string (digits 3 0) (hex 4 c ++ cs) ≡ push c (read_string plain cs)
unfolding hex
read-hex c cs h =
    let e : 16 * (16 * (16 * (16 * 0 + c / 16 / 16 / 16 % 16) + c / 16 / 16 % 16) + c / 16 % 16)
          + c % 16
        ≡ c =
      omega arith in
    read-digit 2 0 (c / 16 / 16 / 16 % 16) _ (omega arith)
    ∙ read-digit 1 _ (c / 16 / 16 % 16) _ (omega arith)
    ∙ read-digit 0 _ (c / 16 % 16) _ (omega arith)
    ∙ read-last_digit _ (c % 16) cs (omega arith)
    ∙ ap (λ x. push x (read_string plain cs)) e

read-plain :
    (c : ℕ) (cs : List ℕ)
    → (c == 34) ≡ false
    → (c == 92) ≡ false
    → ltb c 32 ≡ false
    → read_string plain (c ∷ cs) ≡ push c (read_string plain cs)
unfolding read_string
read-plain c cs a b d = rw (a, b, d) refl

read-escaped :
    (c : ℕ) (cs : List ℕ)
    → read_string plain (escaped plain_byte c ++ cs) ≡ push c (read_string plain cs)
unfolding read_string escaped
read-escaped c cs = elim (Bool-cases (c == 34)) [
  | inl e ↦ rw (e, (==_iff c 34).0 e) refl
  | inr a ↦ elim (Bool-cases (c == 92)) [
    | inl e ↦ rw (a, e, (==_iff c 92).0 e) refl
    | inr b ↦ elim (Bool-cases (c == 10)) [
      | inl e ↦ rw (a, b, e, (==_iff c 10).0 e) refl
      | inr d ↦ elim (Bool-cases (c == 13)) [
        | inl e ↦ rw (a, b, d, e, (==_iff c 13).0 e) refl
        | inr f ↦ elim (Bool-cases (c == 9)) [
          | inl e ↦ rw (a, b, d, f, e, (==_iff c 9).0 e) refl
          | inr g ↦ elim (Bool-cases (ltb c 32)) [
            | inl e ↦ rw (a, b, d, f, g, e) (read-hex c cs (omega (arith, ltb→lt c 32 e)))
            | inr e ↦ rw (a, b, d, f, g, e) (read-plain c cs a b e)
          ]
        ]
      ]
    ]
  ]
]

read-escape_all :
    (s rest : List ℕ)
    → read_string plain ((escape_all plain_byte s ++ 34 ∷ []) ++ rest) ≡ some (s, rest)
unfolding escape_all read_string
read-escape_all [] rest = refl
read-escape_all (c ∷ s) rest =
    ap (λ cs. read_string plain cs) (assoc (escaped plain_byte c))
    ∙ read-escaped c _
    ∙ ap (push c) (read-escape_all s rest)
  where
    assoc :
        (xs : List ℕ)
        → ((xs ++ escape_all plain_byte s) ++ 34 ∷ []) ++ rest
          ≡ xs ++ ((escape_all plain_byte s ++ 34 ∷ []) ++ rest)
    assoc [] = refl
    assoc (x ∷ xs) = ap (◌∷◌ x) (assoc xs)

-- What `json_escape` writes for a string is, behind its opening quote, read as exactly that string by
-- a reader of JSON strings that refuses raw control characters, whatever follows.
pub read-json_escape :
    (s rest : List ℕ) → read_string plain (drop 1 (json_escape s) ++ rest) ≡ some (s, rest)
unfolding json_escape
read-json_escape s rest = read-escape_all s rest
