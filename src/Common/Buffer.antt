-- ===== src/Common/Buffer.antt =====
-- `char` arrays: what `strncpy` writes, and what is read back as a C string.
use Prim.Native.Nat.{ℕ, zero, suc}
use mathlib.Core.Path.{◌≡◌, refl, ap}
use mathlib.Core.Logic.{inl, inr}
use mathlib.Core.Option.{Option, none, some}
use mathlib.Core.List.{[], ◌∷◌, ◌++◌}
use bkk_api.Common.Decide.{◌==◌, if◌then◌else◌, Bool-cases}
use bkk_api.Common.Lists.{length, take, drop}
use bkk_api.Common.Text.{Bytes}

-- The `n` bytes that `strncpy(dst, s, n)` writes: up to the end of `s`, then zeros.
unfoldable pub strncpy : ℕ → Bytes → Bytes
strncpy zero s = []
strncpy (suc n) [] = 0 ∷ strncpy n []
strncpy (suc n) (c ∷ s) = c ∷ strncpy n (if c == 0 then [] else s)

-- The array `dst` behind that call.
abbrev pub strncpy_into : Bytes → Bytes → ℕ → Bytes
strncpy_into dst s n = strncpy n s ++ drop n dst

-- The bytes up to the terminator; `none` where the memory ends before one.
unfoldable pub c_str : Bytes → Option Bytes
c_str [] = none
c_str (c ∷ s) =
    let rest = c_str s in
    if c == 0 then some [] else elim rest [ none ↦ none | some t ↦ some (c ∷ t) ]

-- The part of a string that C sees: up to its first zero byte.
unfoldable pub until_zero : Bytes → Bytes
until_zero [] = []
until_zero (c ∷ s) = if c == 0 then [] else c ∷ until_zero s

pub length-strncpy : (n : ℕ) (s : Bytes) → length (strncpy n s) ≡ n
unfolding strncpy
length-strncpy zero s = refl
length-strncpy (suc n) [] = ap suc (length-strncpy n [])
length-strncpy (suc n) (c ∷ s) = ap suc (length-strncpy n (if c == 0 then [] else s))

-- A copy into an array with one byte more is a terminated string: as much of the source as fits.
pub c_str-strncpy :
    (n : ℕ) (s tail : Bytes) → c_str (strncpy n s ++ 0 ∷ tail) ≡ some (take n (until_zero s))
unfolding c_str strncpy until_zero
c_str-strncpy zero s tail = refl
c_str-strncpy (suc n) [] tail = refl
c_str-strncpy (suc n) (c ∷ s) tail = elim (Bool-cases (c == 0)) [
  | inl z ↦ rw (z, c_str, until_zero)
  | inr nz ↦ rw (nz, c_str, until_zero, c_str-strncpy n s tail)
]
