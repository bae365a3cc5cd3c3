-- ===== src/Tests/Images.antt =====
-- The loader: a PE image, and a file of overrides.
use ntlinux.Common.{
  ℕ, zero, suc, ◌+◌, ◌≡◌, ◌≤◌, refl, List, [], ◌∷◌, ◌++◌, some, true, arith, length, All,
}
use ntlinux.Loader.{read_pe_info, overrides_buffer, load_dll_overrides}
use ntlinux.Loader.Lines.{IsLine, unlines}
use ntlinux.Loader.Overrides.{load_dll_overrides-unlines, overrides_buffer-fits}
use ntlinux.Loader.Images.{image, read_pe_info-image}

abbrev pub zeros : ℕ → List ℕ
zeros zero = []
zeros (suc n) = 0 ∷ zeros n

-- The optional header of a PE32+ image: a checksum of 0x70000 before the subsystem 3.
abbrev optional : List ℕ
optional = 11 ∷ 2 ∷ (zeros 64 ++ 7 ∷ 0 ∷ 3 ∷ 0 ∷ [])

-- The image for amd64 counts as one for the subsystem 7.
read_pe_info-image_example :
    read_pe_info (some (image (zeros 58) (1 ∷ 2 ∷ []) 0x8664 (zeros 18) optional))
    ≡ some (record { machine = 0x8664; subsystem = 7; is_pe32plus = true })
read_pe_info-image_example =
    read_pe_info-image (zeros 58) (1 ∷ 2 ∷ []) (zeros 18) optional 0x8664 refl refl (omega arith)
      (omega arith)

-- "#", "a=n", "", "b="
abbrev lines : List (List ℕ)
lines = (35 ∷ []) ∷ (97 ∷ 61 ∷ 110 ∷ []) ∷ [] ∷ (98 ∷ 61 ∷ []) ∷ []

overrides_buffer-fits_example :
    let b = overrides_buffer (unlines lines) in (length b.out + 1 ≤ b.cap) × (b.len ≡ length b.out)
overrides_buffer-fits_example = overrides_buffer-fits (unlines lines) (omega arith)

lines-IsLine : All IsLine lines
lines-IsLine = ground arith

load_dll_overrides-unlines_example :
    load_dll_overrides (some (unlines lines)) ≡ some (97 ∷ 61 ∷ 110 ∷ 59 ∷ 98 ∷ 61 ∷ [])
load_dll_overrides-unlines_example = load_dll_overrides-unlines lines lines-IsLine
