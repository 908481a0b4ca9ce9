-- ===== src/SacCli.antt =====
-- sac_cli/sac_cli.c: what the file system calls of FUSE send to the file system server. `address` is that of the
-- literal that `pathname` points to, and `padding` the bytes of the structure that no field holds.
pub mod Fate
pub mod Init
mod Examples
use threaders.Base.{ℕ, Option, none, some, List, [], ◌∷◌}
use threaders.Wire.Bytes.{Bytes}
use threaders.Wire.Protocol.{t_path, read_dir, read, open_file, get_attr, write, rm_dir}
use threaders.Wire.Message.{utils_serialize_and_send}

-- "/"
abbrev pub root_path : Bytes
root_path = 47 ∷ 0 ∷ []

-- "/niconico"
abbrev pub niconico_path : Bytes
niconico_path = 47 ∷ 110 ∷ 105 ∷ 99 ∷ 111 ∷ 110 ∷ 105 ∷ 99 ∷ 111 ∷ 0 ∷ []

-- The result, and the bytes that are sent; `none` is a read outside an object.
abbrev pub Call : Type 0
Call = ℕ × Option Bytes

abbrev pub sac_create_directory : Bytes → ℕ → Call
sac_create_directory path mode = (0, some [])

module _ (address padding : ℕ) where
  abbrev pub sac_readdir : Bytes → Call
  sac_readdir path = (0, utils_serialize_and_send read_dir (t_path address 123 padding root_path))

  abbrev pub sac_read : Bytes → Call
  sac_read path = (0, utils_serialize_and_send read (t_path address 456 padding niconico_path))

  abbrev pub sac_open : Bytes → Call
  sac_open path = (0, utils_serialize_and_send open_file (t_path address 789 padding root_path))

  abbrev pub sac_getattr : Bytes → Call
  sac_getattr path = (0, utils_serialize_and_send get_attr (t_path address 1011 padding root_path))

  abbrev pub sac_write : Bytes → Call
  sac_write path = (0, utils_serialize_and_send write (t_path address 1112 padding root_path))

  abbrev pub sac_rm_directory : Bytes → Call
  sac_rm_directory path =
      (0, utils_serialize_and_send rm_dir (t_path address 1314 padding root_path))

-- The members of `sac_operations` that are set.
pub data Operation : Type 0 where
  getattr readdir open_op read_op mkdir write_op rmdir : Operation

-- `mode` is that of mkdir.
unfoldable pub sac_operations : ℕ → ℕ → ℕ → Operation → Bytes → Call
sac_operations address padding mode getattr path = sac_getattr address padding path
sac_operations address padding mode readdir path = sac_readdir address padding path
sac_operations address padding mode open_op path = sac_open address padding path
sac_operations address padding mode read_op path = sac_read address padding path
sac_operations address padding mode mkdir path = sac_create_directory path mode
sac_operations address padding mode write_op path = sac_write address padding path
sac_operations address padding mode rmdir path = sac_rm_directory address padding path
