-- ===== src/ApiKey/Trim.antt =====
-- The key that is read, against a reference definition of trimming, and the resources that the reader
-- uses (`read_api_key_from_file` in bkk_uds/bkk_stop_utils.c).
use bkk_api.Common.{
  sym, subst, ℕ, zero, suc, ◌+◌, ◌-◌, ◌≤◌, Bytes, Bool, true, false, ◌&&◌, Bool-cases, ◌==◌,
  if◌then◌else◌, Option, none, some, Option-cases, [], ◌∷◌, ◌++◌, length, length-take, get_elem?,
  take, drop, take_of_length-le, Ptr, null, cell, ◌≡◌, refl, ap, ◌∙◌, inl, inr, arith,
}
use bkk_api.ApiKey.{
  api_key_read_ok, api_key_read_error, is_space, File, KeyRead, begin_loop, end_loop, trimmed,
  failed, read_text, read_file, read_api_key_from_file,
}

-- The reference: white space is dropped in front, and behind.
unfoldable pub trim_front : Bytes → Bytes
trim_front [] = []
trim_front (c ∷ rest) = if is_space c then trim_front rest else c ∷ rest

unfoldable pub all_space : Bytes → Bool
all_space [] = true
all_space (c ∷ rest) = is_space c && all_space rest

unfoldable pub trim_back : Bytes → Bytes
trim_back [] = []
trim_back (c ∷ rest) = if is_space c && all_space rest then [] else c ∷ trim_back rest

drop-begin_loop : (b : Bytes) → drop (begin_loop b) b ≡ trim_front b
unfolding begin_loop trim_front
drop-begin_loop [] = refl
drop-begin_loop (c ∷ rest) = elim (Bool-cases (is_space c)) [
  | inl h ↦ rw h (drop-begin_loop rest)
  | inr h ↦ rw h refl
]

all_space-snoc : (l : Bytes) (c : ℕ) → all_space (l ++ c ∷ []) ≡ (all_space l && is_space c)
unfolding all_space
all_space-snoc [] c = ground arith
all_space-snoc (x ∷ l) c = ground (arith, all_space-snoc l c)

trim_back-snoc :
    (l : Bytes) (c : ℕ)
    → trim_back (l ++ c ∷ []) ≡ (if is_space c then trim_back l else l ++ c ∷ [])
unfolding trim_back all_space
trim_back-snoc [] c = ground arith
trim_back-snoc (x ∷ l) c = ground (arith, trim_back-snoc l c, all_space-snoc l c)

take-suc :
    (n : ℕ) (l : Bytes) {c : ℕ} → get_elem? l n ≡ some c → take (suc n) l ≡ take n l ++ c ∷ []
take-suc n [] e = cc
take-suc zero (x ∷ l) e = cc
take-suc (suc n) (x ∷ l) {c} e = ap (λ r. x ∷ r) (take-suc n l {c = c} e)

get_elem?-drop : (b n : ℕ) (l : Bytes) → get_elem? l (b + n) ≡ get_elem? (drop b l) n
get_elem?-drop zero n l = let same : 0 + n ≡ n = omega arith in rw same refl
get_elem?-drop (suc b) n [] = refl
get_elem?-drop (suc b) n (x ∷ l) =
    let next : suc b + n ≡ suc (b + n) = omega arith in rw next (get_elem?-drop b n l)

get_elem?_below : (n : ℕ) (l : Bytes) → suc n ≤ length l → (c : ℕ) × (get_elem? l n ≡ some c)
get_elem?_below n [] h = absurd (omega arith)
get_elem?_below zero (x ∷ l) h = (x, refl)
get_elem?_below (suc n) (x ∷ l) h = get_elem?_below n l (omega arith)

end_loop_step :
    (buffer : Bytes) (begin n : ℕ) {c : ℕ}
    → get_elem? buffer (begin + n) ≡ some c
    → end_loop buffer begin (suc n)
      ≡ (if is_space c then end_loop buffer begin n else begin + suc n)
unfolding end_loop
end_loop_step buffer begin n e = rw (e, end_loop) refl

take-end_loop :
    (buffer : Bytes) (begin n : ℕ)
    → n ≤ length (drop begin buffer)
    → take (end_loop buffer begin n - begin) (drop begin buffer)
      ≡ trim_back (take n (drop begin buffer))
unfolding end_loop trim_back
take-end_loop buffer begin zero h =
    let none_left : begin - begin ≡ 0 = omega arith in rw none_left refl
take-end_loop buffer begin (suc n) h =
    let (c, at) = get_elem?_below n (drop begin buffer) h in
    let step = end_loop_step buffer begin n {c = c} (get_elem?-drop begin n buffer ∙ at) in
    let longer = take-suc n (drop begin buffer) {c = c} at in
    elim (Bool-cases (is_space c)) [
      | inl space ↦
          rw (step, space, longer, trim_back-snoc (take n (drop begin buffer)) c, space)
            (take-end_loop buffer begin n (omega (arith, h)))
      | inr word ↦
          let left : begin + suc n - begin ≡ suc n = omega arith in
          rw (step, word, left, longer, trim_back-snoc (take n (drop begin buffer)) c, word) refl
    ]

length-drop : (n : ℕ) (l : Bytes) → length (drop n l) ≡ length l - n
length-drop zero l = omega arith
length-drop (suc n) [] = omega arith
length-drop (suc n) (x ∷ l) = omega (arith, length-drop n l)

trimmed_lem : (buffer : Bytes) → trimmed buffer ≡ trim_back (trim_front buffer)
unfolding trimmed
trimmed_lem buffer =
    let begin = begin_loop buffer in
    let size = length-drop begin buffer in
    take-end_loop buffer begin (length buffer - begin) (omega (arith, size))
    ∙ ap trim_back (
        take_of_length-le (length buffer - begin) (drop begin buffer) (omega (arith, size))
        ∙ drop-begin_loop buffer)

-- A file whose size can be told and whose bytes can be read, with memory for both arrays, gives the key:
-- its text without the white space in front and behind, terminated. One array is the caller's then;
-- the other is freed, and the file closed.
pub read_api_key-trimmed :
    (fopen : Bytes → Option File) (path text : Bytes) (old : Option Bytes)
    → fopen path ≡ some (record { told = some (length text); text = text })
    → read_api_key_from_file fopen true true (some path) (cell old) ≡ record {
      status = api_key_read_ok;
      key_out = cell (some (trim_back (trim_front text) ++ 0 ∷ []));
      opened = 1;
      closed = 1;
      allocated = 2;
      freed = 1;
    }
unfolding read_api_key_from_file read_file read_text
read_api_key-trimmed fopen path text old e =
    let same : (length text == length text) ≡ true = ground arith in
    rw
      (
        e,
        read_api_key_from_file,
        take_of_length-le (length text) text (omega arith),
        trimmed_lem text,
        same,
      )
      refl

-- The file is closed as often as opened. On an error all memory is freed and the caller's pointer stays as
-- it was; on success one array is left, to which the caller's pointer points: the key of the file.
pub data IsClean (fopen : Bytes → Option File) (r : KeyRead)
    : Option Bytes → Ptr (Option Bytes) → Type 0 where
  refused :
      {path : Option Bytes} {key_out : Ptr (Option Bytes)}
      → r.status ≡ api_key_read_error
      → r.key_out ≡ key_out
      → r.closed ≡ r.opened
      → r.allocated ≡ r.freed
      → IsClean fopen r path key_out
  given :
      {path : Bytes} {old : Option Bytes} (f : File) (n : ℕ)
      → fopen path ≡ some f
      → f.told ≡ some n
      → n ≤ length f.text
      → r.status ≡ api_key_read_ok
      → r.key_out ≡ cell (some (trim_back (trim_front (take n f.text)) ++ 0 ∷ []))
      → r.closed ≡ r.opened
      → r.allocated ≡ suc r.freed
      → IsClean fopen r (some path) (cell old)

module _ (fopen : Bytes → Option File) where
  failed-IsClean :
      (path : Option Bytes) (old : Option Bytes) (n : ℕ)
      → IsClean fopen (failed old 1 n n) path (cell old)
  failed-IsClean path old n = refused refl refl refl refl

  read_text-IsClean :
      (path : Bytes) (f : File) (n : ℕ) (has_buffer has_key : Bool) (old : Option Bytes)
      → fopen path ≡ some f
      → f.told ≡ some n
      → IsClean fopen (read_text f.text n has_buffer has_key old) (some path) (cell old)
  unfolding read_text
  read_text-IsClean path f n false has_key old e t = failed-IsClean (some path) old 0
  read_text-IsClean path f n true false old e t = elim (Bool-cases (length (take n f.text) == n)) [
    | inr short ↦ rw short (failed-IsClean (some path) old 1)
    | inl all ↦ rw all (failed-IsClean (some path) old 1)
  ]
  read_text-IsClean path f n true true old e t = elim (Bool-cases (length (take n f.text) == n)) [
    | inr short ↦ rw short (failed-IsClean (some path) old 1)
    | inl all ↦
        rw (all, trimmed_lem (take n f.text))
          (given f n e t (ground (arith, all, length-take n f.text)) refl refl refl refl)
  ]

  read_file-IsClean :
      (path : Bytes) (f : File) (has_buffer has_key : Bool) (old : Option Bytes)
      → fopen path ≡ some f
      → IsClean fopen (read_file f has_buffer has_key old) (some path) (cell old)
  unfolding read_file
  read_file-IsClean path f has_buffer has_key old e = elim (Option-cases f.told) [
    | inl t ↦ rw (t, read_file) (failed-IsClean (some path) old 0)
    | inr (n, t) ↦
        let same : read_file f has_buffer has_key old ≡ read_text f.text n has_buffer has_key old =
          rw (t, read_file) refl in
        subst (λ r. IsClean fopen r (some path) (cell old)) (sym same)
          (read_text-IsClean path f n has_buffer has_key old e t)
  ]

  -- However a read ends, whether the arguments, the file or the memory are at fault or nothing is, the
  -- file is closed as often as it was opened. On an error all memory is freed and the caller's
  -- pointer stays as it was. On success one array is left, and the caller's pointer points to it: the
  -- text of the file up to its size, without the white space around it, terminated.
  pub read_api_key-IsClean :
      (has_buffer has_key : Bool) (path : Option Bytes) (key_out : Ptr (Option Bytes))
      → IsClean fopen (read_api_key_from_file fopen has_buffer has_key path key_out) path key_out
  unfolding read_api_key_from_file
  read_api_key-IsClean has_buffer has_key none key_out = refused refl refl refl refl
  read_api_key-IsClean has_buffer has_key (some path) null = refused refl refl refl refl
  read_api_key-IsClean has_buffer has_key (some path) (cell old) =
      elim (Option-cases (fopen path)) [
        | inl e ↦ rw (e, read_api_key_from_file) (refused refl refl refl refl)
        | inr (f, e) ↦
            rw (e, read_api_key_from_file) (read_file-IsClean path f has_buffer has_key old e)
      ]
