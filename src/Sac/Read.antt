-- ===== src/Sac/Read.antt =====
-- sac_server/src/sac_read.c: the calls of FUSE that read. A `size_t` and an `off_t` are the 64-bit
-- unsigned number that the comparison of the two takes, so that a negative offset is a large one.
pub mod Agree
use threaders.Base.{
  ℕ, ◌+◌, ◌-◌, ◌%◌, Bool, true, false, not, Option, none, some, List, [], ◌∷◌, ◌++◌, length, take,
  drop, ltb, leb, ◌==◌, if◌then◌else◌, ℤ, pos, negsuc,
}
use threaders.Sac.Paths.{Text}
use threaders.Sac.Nodes.{text_eq, root, enoent}

-- "Hello World!\n"
abbrev pub default_file_content : Text
default_file_content = 72 ∷ 101 ∷ 108 ∷ 108 ∷ 111 ∷ 32 ∷ 87 ∷ 111 ∷ 114 ∷ 108 ∷ 100 ∷ 33 ∷ 10 ∷ []

-- "hello"
abbrev pub default_file_name : Text
default_file_name = 104 ∷ 101 ∷ 108 ∷ 108 ∷ 111 ∷ []

-- "/" "hello"
abbrev pub default_file_path : Text
default_file_path = 47 ∷ default_file_name

abbrev pub s_ifdir : ℕ
s_ifdir = 16384

abbrev pub s_ifreg : ℕ
s_ifreg = 32768

-- The fields of `struct stat` that are set; memset makes the others zero.
pub record Stat : Type 0 where
  pub st_mode : ℕ
  pub st_nlink : ℕ
  pub st_size : ℕ

abbrev pub no_stat : Stat
no_stat = record { st_mode = 0; st_nlink = 0; st_size = 0 }

-- 0755 and 0444 are octal; the mode bits do not overlap with those of the kind.
unfoldable pub sac_getattr : Text → ℤ × Stat
sac_getattr path =
    if text_eq path root
    then (pos 0, record no_stat { st_mode = s_ifdir + 493; st_nlink = 2 })
    else if text_eq path default_file_path
    then (
      pos 0,
      record { st_mode = s_ifreg + 292; st_nlink = 1; st_size = length default_file_content },
    )
    else (enoent, no_stat)

abbrev pub eacces : ℤ
eacces = negsuc 12

-- `flags` of the fuse_file_info; O_RDONLY is 0.
unfoldable pub sac_open : Text → ℕ → ℤ
sac_open path flags =
    if not (text_eq path default_file_path)
    then enoent
    else if flags % 4 == 0
    then pos 0
    else eacces

-- What `filler` is called with, in order.
unfoldable pub sac_readdir : Text → ℤ × List Text
sac_readdir path =
    if text_eq path root
    then (pos 0, (46 ∷ []) ∷ (46 ∷ 46 ∷ []) ∷ default_file_name ∷ [])
    else (enoent, [])

abbrev pub size_mod : ℕ
size_mod = 18446744073709551616

-- The bytes that are put into the buffer, with the return code; `overread` is a memcpy from behind
-- the literal, which has a byte for its final zero.
pub data ReadResult : Type 0 where
  read_bytes : Text → ℤ → ReadResult
  overread : ReadResult

abbrev pub memcpy_content : ℕ → ℕ → ReadResult
memcpy_content offset size =
    if leb (offset + size) (length default_file_content + 1)
    then read_bytes (take size (drop offset (default_file_content ++ 0 ∷ []))) (pos size)
    else overread

unfoldable pub sac_read : Text → ℕ → ℕ → ReadResult
sac_read path size offset =
    let len = length default_file_content in
    if not (text_eq path default_file_path)
    then read_bytes [] enoent
    else if ltb offset len
    then memcpy_content offset (if ltb len ((offset + size) % size_mod) then len - offset else size)
    else read_bytes [] (pos 0)
