-- ===== src/Wire/Message/Unset.antt =====
-- What utils_receive_and_deserialize of shared-common/common/utils.c makes of the messages of the file system.
use threaders.Base.{◌≡◌, refl, Bool, true, false}
use threaders.Commons.{Commons}
use threaders.Wire.Bytes.{Bytes}
use threaders.Wire.Protocol.{
  Protocol, read_dir, get_attr, read, open_file, mk_dir, create_dir, write, rm_dir,
}
use threaders.Wire.Package.{utils_receive_package}
use threaders.Wire.Message.{fault_in, with_values, build, receives, utils_receive_and_deserialize}
use threaders.Base.{ℕ}

abbrev pub has_path : Protocol → Bool
has_path read_dir = true
has_path get_attr = true
has_path read = true
has_path open_file = true
has_path mk_dir = true
has_path create_dir = true
has_path write = true
has_path rm_dir = true
has_path p = false

-- A package that is received completely is copied over a pointer that was never set.
pub has_path-fault_in :
    (c : Commons) (alloc : ℕ → Bytes) (p : Protocol) (input : Bytes)
    → has_path p ≡ true
    → utils_receive_and_deserialize c alloc p input
      ≡ with_values (utils_receive_package c input) (λ vs rest. fault_in)
unfolding utils_receive_and_deserialize build receives
has_path-fault_in c alloc read_dir input h = refl
has_path-fault_in c alloc get_attr input h = refl
has_path-fault_in c alloc read input h = refl
has_path-fault_in c alloc open_file input h = refl
has_path-fault_in c alloc mk_dir input h = refl
has_path-fault_in c alloc create_dir input h = refl
has_path-fault_in c alloc write input h = refl
has_path-fault_in c alloc rm_dir input h = refl
has_path-fault_in c alloc _ input h = absurd (cc h)
