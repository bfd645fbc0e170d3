-- ===== src/Checksum.antt =====
-- resumable_upload/checksum.py: the registry of checksum algorithms. `hexdigest` stands for
-- hashlib.
use resumable_upload.Prelude.{
  String, Bool, true, ◌&&◌, Option, none, some, List, [], ◌∷◌, lower, Bytes, if◌then◌else◌,
}
use resumable_upload.Headers.{member}

abbrev pub known_algorithms : List String
known_algorithms = "sha1" ∷ "sha256" ∷ "sha512" ∷ "md5" ∷ []

abbrev lower_all : List String → List String
lower_all [] = []
lower_all (a ∷ l) = lower a ∷ lower_all l

abbrev all_known : List String → Bool
all_known [] = true
all_known (a ∷ l) = member known_algorithms a && all_known l

-- `none` is the ValueError on an unknown algorithm.
unfoldable pub checksum_algorithms : List String → Option (List String)
unfolding lower member
checksum_algorithms names =
    let enabled : List String = lower_all names in if all_known enabled then some enabled else none

unfoldable pub is_supported : List String → String → Bool
unfolding lower member
is_supported enabled name = member enabled (lower name)

abbrev pub compute : (String → Bytes → String) → String → Bytes → String
compute hexdigest name bytes = hexdigest (lower name) bytes
