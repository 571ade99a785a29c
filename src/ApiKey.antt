-- ===== src/ApiKey.antt =====
-- The reader of key files (`read_api_key_from_file` in bkk_uds/bkk_stop_utils.c).
--
-- The file system and the two calls of `malloc` are parameters.
pub mod Trim
use bkk_api.Common.{
  ℕ, zero, suc, ◌+◌, ◌-◌, Bytes, Bool, leb, ◌==◌, ◌&&◌, ◌||◌, not, if◌then◌else◌, Option, none,
  some, List, [], ◌∷◌, ◌++◌, length, get_elem?, take, drop, Ptr, null, cell,
}

pub data ApiKeyReadStat : Type 0 where
  api_key_read_ok api_key_read_error : ApiKeyReadStat

-- `isspace`, in the C locale.
abbrev pub is_space : ℕ → Bool
is_space c = (c == 32) || (leb 9 c && leb c 13)

-- A file that is open: what `ftell` says at its end, `none` for a negative number, and the bytes that
-- `fread` has to give.
pub record File : Type 0 where
  pub told : Option ℕ
  pub text : Bytes

-- The status, what the caller's pointer points to, and the uses of `fopen`, `fclose`, `malloc`, `free`.
pub record KeyRead : Type 0 where
  pub status : ApiKeyReadStat
  pub key_out : Ptr (Option Bytes)
  pub opened : ℕ
  pub closed : ℕ
  pub allocated : ℕ
  pub freed : ℕ

-- The first loop, over the bytes of the buffer that are left.
unfoldable pub begin_loop : Bytes → ℕ
begin_loop [] = 0
begin_loop (c ∷ rest) = if is_space c then suc (begin_loop rest) else 0

-- The second loop, with `end` at `begin + left`.
unfoldable pub end_loop : Bytes → ℕ → ℕ → ℕ
end_loop buffer begin zero = begin
end_loop buffer begin (suc left) = elim (get_elem? buffer (begin + left)) [
  | none ↦ begin + suc left
  | some c ↦ if is_space c then end_loop buffer begin left else begin + suc left
]

-- The bytes of the buffer between the two, which `memcpy` copies.
unfoldable pub trimmed : Bytes → Bytes
trimmed buffer =
    let begin = begin_loop buffer in
    let end = end_loop buffer begin (length buffer - begin) in
    take (end - begin) (drop begin buffer)

-- A return behind `fopen`, with the caller's pointer as it was.
abbrev pub failed : Option Bytes → ℕ → ℕ → ℕ → KeyRead
failed old closed allocated freed = record {
  status = api_key_read_error;
  key_out = cell old;
  opened = 1;
  closed = closed;
  allocated = allocated;
  freed = freed;
}

-- From the first `malloc` on; the flags say whether the calls of `malloc` return memory.
unfoldable pub read_text : Bytes → ℕ → Bool → Bool → Option Bytes → KeyRead
unfolding trimmed
read_text text file_size has_buffer has_key old =
    if not has_buffer
    then failed old 1 0 0
    else if not (length (take file_size text) == file_size)
    then failed old 1 1 1
    else if not has_key
    then failed old 1 1 1
    else record {
      status = api_key_read_ok;
      key_out = cell (some (trimmed (take file_size text) ++ 0 ∷ []));
      opened = 1;
      closed = 1;
      allocated = 2;
      freed = 1;
    }

-- From `ftell` on.
unfoldable pub read_file : File → Bool → Bool → Option Bytes → KeyRead
unfolding read_text
read_file f has_buffer has_key old = elim f.told [
  | none ↦ failed old 1 0 0
  | some file_size ↦ read_text f.text file_size has_buffer has_key old
]

-- A return before a file is open.
abbrev pub not_opened : Ptr (Option Bytes) → KeyRead
not_opened key_out = record {
  status = api_key_read_error;
  key_out = key_out;
  opened = 0;
  closed = 0;
  allocated = 0;
  freed = 0;
}

unfoldable pub read_api_key_from_file :
    (Bytes → Option File) → Bool → Bool → Option Bytes → Ptr (Option Bytes) → KeyRead
unfolding read_file
read_api_key_from_file fopen has_buffer has_key none key_out = not_opened key_out
read_api_key_from_file fopen has_buffer has_key (some path) null = not_opened null
read_api_key_from_file fopen has_buffer has_key (some path) (cell old) = elim (fopen path) [
  | none ↦ not_opened (cell old)
  | some f ↦ read_file f has_buffer has_key old
]
