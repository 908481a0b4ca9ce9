-- ===== src/Wire/Examples.antt =====
-- Messages of shared-common/common/utils.c at concrete values, and the theorems applied there.
use threaders.Base.{ℕ, zero, suc, ◌≡◌, refl, some, [], ◌∷◌}
use threaders.Commons.{reference}
use threaders.Wire.Bytes.{Bytes, cstring}
use threaders.Wire.Protocol.{code, t_path, t_free, open_file, memfree}
use threaders.Wire.Package.{
  utils_receive_package, utils_package_create, utils_package_add, utils_package_add_all,
  utils_package_send_to, serializer_serialize_package,
}
use threaders.Wire.Package.Ends.{Ended, utils_receive_package-Ended}
use threaders.Wire.Message.{utils_serialize_and_send, outgoing}
use threaders.Wire.Message.Delivered.{Delivered}
use threaders.Wire.Message.RoundTrip.{Sent, place}
use threaders.Wire.Message.Paths.{utils_serialize_and_send_blind}

-- A malloc whose blocks are filled with 7.
sevens : ℕ → Bytes
sevens zero = []
sevens (suc n) = 7 ∷ sevens n

-- The bytes of a MEMFREE of address 258 by process 5.
memfree_test :
    utils_serialize_and_send memfree (t_free 258 5)
    ≡ some (
        2 ∷ 0 ∷ 0 ∷ 0 ∷ 16 ∷ 0 ∷ 0 ∷ 0 ∷ 4 ∷ 0 ∷ 0 ∷ 0 ∷ 2 ∷ 1 ∷ 0 ∷ 0 ∷ 4 ∷ 0 ∷ 0 ∷ 0 ∷ 5 ∷ 0 ∷ 0
        ∷ 0 ∷ [])
unfolding utils_serialize_and_send outgoing utils_package_create utils_package_add_all
    utils_package_add utils_package_send_to serializer_serialize_package code
memfree_test = refl

abbrev nine : Sent
nine = place 69 1234 0 0 (9 ∷ 0 ∷ 0 ∷ 0 ∷ [])

-- The paths "/a" and "/b".
utils_serialize_and_send_blind_example :
    utils_serialize_and_send open_file (t_path 4096 789 0 (47 ∷ 97 ∷ 0 ∷ []))
    ≡ utils_serialize_and_send open_file (t_path 4096 789 0 (47 ∷ 98 ∷ 0 ∷ []))
unfolding cstring
utils_serialize_and_send_blind_example =
    utils_serialize_and_send_blind open_file (t_path 4096 789 0 (47 ∷ 97 ∷ 0 ∷ []))
      (t_path 4096 789 0 (47 ∷ 98 ∷ 0 ∷ [])) (47 ∷ 97 ∷ []) (47 ∷ 98 ∷ []) refl refl refl refl refl

-- A package of two bytes, too few for the size of a value.
utils_receive_package-Ended_example :
    Ended (utils_receive_package reference (2 ∷ 0 ∷ 0 ∷ 0 ∷ 5 ∷ 0 ∷ []))
utils_receive_package-Ended_example =
    utils_receive_package-Ended reference (2 ∷ 0 ∷ 0 ∷ 0 ∷ 5 ∷ 0 ∷ [])
