-- ===== src/Common/Pointer.antt =====
-- Out-parameters: a pointer that is NULL, or that points to a cell of the caller.
use mathlib.Core.Bool.{Bool, true, false}

pub data Ptr {ℓ} (A : Type ℓ) : Type ℓ where
  null : Ptr A
  cell : A → Ptr A

-- `*p = a`, under a guard `p != NULL` of the code.
abbrev pub store {ℓ} : {A : Type ℓ} → Ptr A → A → Ptr A
store null a = null
store (cell old) a = cell a

abbrev pub is_null {ℓ} : {A : Type ℓ} → Ptr A → Bool
is_null null = true
is_null (cell a) = false
