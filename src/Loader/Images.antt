-- ===== src/Loader/Images.antt =====
-- ntloader/ntloader.c: what the loader reads of a PE image.
use ntlinux.Common.{
  append_assoc, ℕ, zero, suc, ◌+◌, ◌-◌, ◌/◌, ◌%◌, ◌^◌, ◌<◌, ◌≡◌, refl, sym, ap, ◌∙◌, List, [], ◌∷◌,
  ◌++◌, none, some, true, false, ◌==◌, ◌&&◌, leb, take, drop, length, if◌then◌else◌, Bool-cases,
  inl, inr, arith, length-append, length-take, take-append, take_all,
}
use ntlinux.Loader.{PeInfo, read_at, le16, le32, read_optional, read_headers, read_pe_info}

module _ {ℓ} {A : Type ℓ} where
  drop-append : (xs ys : List A) (k : ℕ) → drop (length xs + k) (xs ++ ys) ≡ drop k ys
  drop-append [] ys k = let e : 0 + k ≡ k = omega arith in rw e refl
  drop-append (x ∷ xs) ys k =
      let e : suc (length xs) + k ≡ suc (length xs + k) = omega arith in rw e (drop-append xs ys k)

length-drop : (k : ℕ) (xs : List ℕ) → length (drop k xs) ≡ length xs - k
length-drop zero xs = omega arith
length-drop (suc k) [] = omega arith
length-drop (suc k) (x ∷ xs) = omega (arith, length-drop k xs)

read_at-cases :
    (n k : ℕ) (xs : List ℕ)
    → 0 < n
    → read_at n k xs ≡ (if leb (k + n) (length xs) then some (take n (drop k xs)) else none)
read_at-cases n k xs h =
    let l = length-take n (drop k xs) in
    let d = length-drop k xs in
    let e : (length (take n (drop k xs)) == n) ≡ leb (k + n) (length xs) = ground (arith, l, d) in
    rw e refl

le16-take : (xs : List ℕ) → le16 (take 2 xs) ≡ le16 xs
le16-take [] = refl
le16-take (x ∷ []) = refl
le16-take (x ∷ y ∷ xs) = refl

read_at-behind :
    (n pos k : ℕ) (xs ys : List ℕ) → pos ≡ length xs + k → read_at n pos (xs ++ ys) ≡ read_at n k ys
read_at-behind n pos k xs ys e = rw (e, drop-append xs ys k) refl

read_at-here : (n : ℕ) (xs ys : List ℕ) → n ≡ length xs → read_at n 0 (xs ++ ys) ≡ some xs
read_at-here n xs ys e =
    let s : (length xs == length xs) ≡ true = ground arith in
    let all = take-append (length xs) xs ys (omega arith) ∙ take_all (length xs) xs (omega arith) in
    rw (e, all, s) refl

-- A number as two and as four bytes, the lowest first.
abbrev pub bytes32 : ℕ → List ℕ
bytes32 n = n % 256 ∷ n / 256 % 256 ∷ n / 65536 % 256 ∷ n / 16777216 % 256 ∷ []

le32-bytes32 : (n : ℕ) → n < 2 ^ 32 → le32 (bytes32 n) ≡ n
le32-bytes32 n h = omega arith

-- The headers of an image: a DOS header with 58 bytes between its mark and the offset of the PE
-- header, what stands between the two, and a file header with 18 bytes behind the machine.
abbrev pub dos_header : List ℕ → ℕ → List ℕ
dos_header stub offset = 77 ∷ 90 ∷ stub ++ bytes32 offset

abbrev pub file_header : ℕ → List ℕ → List ℕ
file_header machine others = machine % 256 ∷ machine / 256 % 256 ∷ others

abbrev pub signature : List ℕ
signature = 80 ∷ 69 ∷ 0 ∷ 0 ∷ []

abbrev pub image : List ℕ → List ℕ → ℕ → List ℕ → List ℕ → List ℕ
image stub gap machine others optional =
    dos_header stub (64 + length gap)
    ++ (gap ++ (signature ++ (file_header machine others ++ optional)))

-- What is read of the bytes behind the file header.
abbrev pub info_of : ℕ → List ℕ → PeInfo
info_of machine optional = record {
  machine = machine;
  subsystem = if leb 68 (length optional) then le16 (drop 66 optional) else 0;
  is_pe32plus = leb 2 (length optional) && le16 optional == 0x20b;
}

read_optional-info_of :
    (machine opt : ℕ) (before optional : List ℕ)
    → opt ≡ length before
    → read_optional machine opt (before ++ optional) ≡ info_of machine optional
unfolding read_optional
read_optional-info_of machine opt before optional e =
    let m =
      read_at-behind 2 opt 0 before optional (omega (arith, e))
      ∙ read_at-cases 2 0 optional (omega arith) in
    let t =
      read_at-behind 2 (opt + 66) 66 before optional (omega (arith, e))
      ∙ read_at-cases 2 66 optional (omega arith) in
    elim (Bool-cases (leb 2 (length optional))) [
      | inr short ↦
          let few : leb 68 (length optional) ≡ false = ground arith in
          rw (m, short, few, read_optional) refl
      | inl some_bytes ↦ elim (Bool-cases (leb 68 (length optional))) [
        | inl long ↦
            rw
              (
                m,
                some_bytes,
                t,
                long,
                read_optional,
                le16-take optional,
                le16-take (drop 66 optional),
              )
              refl
        | inr few ↦ rw (m, some_bytes, t, few, read_optional, le16-take optional) refl
      ]
    ]

read_headers-reads :
    (e machine : ℕ) (file header : List ℕ)
    → read_at 4 e file ≡ some signature
    → read_at 20 (e + 4) file ≡ some header
    → le16 header ≡ machine
    → read_headers e file ≡ some (read_optional machine (e + 24) file)
unfolding read_headers
read_headers-reads e machine file header s h m = rw (s, h, m, read_headers) refl

read_pe_info-reads :
    (offset : ℕ) (file dos : List ℕ)
    → read_at 64 0 file ≡ some (77 ∷ 90 ∷ dos)
    → le32 (drop 58 dos) ≡ offset
    → offset < 2 ^ 31
    → read_pe_info (some file) ≡ read_headers offset file
unfolding read_pe_info
read_pe_info-reads offset file dos d o lt =
    let positive : leb (2 ^ 31) offset ≡ false = ground arith in
    rw (d, read_pe_info, o, positive) refl

read_headers-info_of :
    (e machine : ℕ) (before others optional : List ℕ)
    → e ≡ length before
    → machine < 2 ^ 16
    → length others ≡ 18
    → read_headers e (before ++ (signature ++ (file_header machine others ++ optional)))
      ≡ some (info_of machine optional)
read_headers-info_of e machine before others optional p lt n =
    let header = file_header machine others in
    let s =
      read_at-behind 4 e 0 before (signature ++ (header ++ optional)) (omega (arith, p))
      ∙ read_at-here 4 signature (header ++ optional) refl in
    let h =
      read_at-behind 20 (e + 4) 4 before (signature ++ (header ++ optional)) (omega (arith, p))
      ∙ read_at-behind 20 4 0 signature (header ++ optional) refl
      ∙ read_at-here 20 header optional (omega (arith, n)) in
    let m : le16 header ≡ machine = omega arith in
    let all : List ℕ = before ++ (signature ++ header) in
    let o =
      ap (read_optional machine (e + 24)) (sym (append_assoc before (signature ++ header) optional))
      ∙ read_optional-info_of machine (e + 24) all optional
          (omega (arith, p, n, length-append before (signature ++ header))) in
    read_headers-reads e machine (before ++ (signature ++ (header ++ optional))) header s h m
    ∙ ap some o

-- An image of these headers is accepted, with the machine that its file header names. With an
-- optional header of two bytes at least, it counts as PE32+ exactly if those are 0x20B. What the code
-- takes for the subsystem is the upper half of the checksum, 66 bytes behind the start of the optional
-- header, where its comment says 68; it is 0 where there are fewer than 68 bytes.
pub read_pe_info-image :
    (stub gap others optional : List ℕ) (machine : ℕ)
    → length stub ≡ 58
    → length others ≡ 18
    → machine < 2 ^ 16
    → 64 + length gap < 2 ^ 31
    → read_pe_info (some (image stub gap machine others optional)) ≡ some (info_of machine optional)
read_pe_info-image stub gap others optional machine ls lo lm lg =
    let offset : ℕ = 64 + length gap in
    let dos = dos_header stub offset in
    let rest = signature ++ (file_header machine others ++ optional) in
    let sized = length-append stub (bytes32 offset) in
    let d = read_at-here 64 dos (gap ++ rest) (omega (arith, ls, sized)) in
    let bytes : drop 58 (stub ++ bytes32 offset) ≡ bytes32 offset =
      ap (λ k. drop k (stub ++ bytes32 offset)) (fifty_eight (length stub) ls)
      ∙ drop-append stub (bytes32 offset) 0 in
    let off = ap le32 bytes ∙ le32-bytes32 offset (omega (arith, lg)) in
    let h =
      ap (read_headers offset) (sym (append_assoc dos gap rest))
      ∙ read_headers-info_of offset machine (dos ++ gap) others optional
          (omega (arith, ls, sized, length-append dos gap)) lm lo in
    read_pe_info-reads offset (dos ++ (gap ++ rest)) (stub ++ bytes32 offset) d off lg ∙ h
  where
    fifty_eight : (n : ℕ) → n ≡ 58 → 58 ≡ n + 0
    fifty_eight n e = omega arith
