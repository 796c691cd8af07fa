-- ===== src/Base58.antt =====
-- common/base58/base58check.go: bytes as text with a check sum. A text is its bytes. The encoding
-- itself, the hash functions and the cache are parameters.
pub mod Cached
use go_incognito_sdk_v.Base.{
  ℕ, suc, ◌+◌, ◌-◌, ◌≡◌, Bool, true, false, not, ◌&&◌, List, [], ◌∷◌, ◌++◌, Option, none, some, ltb,
  ◌==◌, if◌then◌else◌, length, take, drop, Result, ok, err,
}
use go_incognito_sdk_v.Common.Hash.{same_bytes}

pub data Error : Type 0 where
  invalid_format checksum_error : Error

abbrev pub checksum_len : ℕ
checksum_len = 4

-- common.HashB and common.SHA256, Base58 and its Decode, which gives nil on an error
pub record Codec : Type 0 where
  pub hash_b : List ℕ → List ℕ
  pub sha256 : List ℕ → List ℕ
  pub encode58 : List ℕ → List ℕ
  pub decode58 : List ℕ → List ℕ

-- The cache of hashicorp/golang-lru
pub record Lru (M : Type 0) : Type 0 where
  pub get : M → List ℕ → Option (List ℕ)
  pub add : M → List ℕ → List ℕ → M

unfoldable pub checksum_first_4_bytes : Codec → List ℕ → Bool → List ℕ
checksum_first_4_bytes h b is_new =
    if is_new then take checksum_len (h.sha256 (h.sha256 b)) else take checksum_len (h.hash_b b)

-- The bytes that are encoded: the version, the input and the check sum.
abbrev pub checked : Codec → Bool → List ℕ → ℕ → List ℕ
checked h is_new input version =
    (version ∷ input) ++ checksum_first_4_bytes h (version ∷ input) is_new

module _ {M : Type 0} (h : Codec) (lru : Lru M) where
  abbrev pub encode_as : Bool → M → List ℕ → ℕ → List ℕ × M
  encode_as is_new cache input version = elim (lru.get cache input) [
    | some value ↦ (value, cache)
    | none ↦
        let encoded = h.encode58 (checked h is_new input version) in
        (encoded, lru.add cache input encoded)
  ]

  unfoldable pub encode : M → List ℕ → ℕ → List ℕ × M
  encode cache input version = encode_as (version == 1) cache input version

  unfoldable pub new_encode : M → List ℕ → ℕ → List ℕ × M
  new_encode cache input version = encode_as true cache input version

abbrev pub head_or : ℕ → List ℕ → ℕ
head_or d [] = d
head_or d (b ∷ bs) = b

abbrev pub front_of : List ℕ → List ℕ
front_of decoded = take (length decoded - checksum_len) decoded

abbrev pub check_of : List ℕ → List ℕ
check_of decoded = drop (length decoded - checksum_len) decoded

-- The end of Decode, for the bytes before the check sum, the check sum and the version.
unfoldable pub decode_parts : Codec → List ℕ → List ℕ → ℕ → Result Error (List ℕ × ℕ)
unfolding checksum_first_4_bytes
decode_parts h front check_sum version =
    if not (same_bytes (checksum_first_4_bytes h front true) check_sum)
      && not (same_bytes (checksum_first_4_bytes h front false) check_sum)
    then err checksum_error
    else ok (drop 1 front, version)

-- Decode, from the decoded bytes on.
unfoldable pub decode_bytes : Codec → List ℕ → Result Error (List ℕ × ℕ)
unfolding decode_parts
decode_bytes h decoded =
    if ltb (length decoded) 5
    then err invalid_format
    else decode_parts h (front_of decoded) (check_of decoded) (head_or 0 decoded)

unfoldable pub decode : Codec → List ℕ → Result Error (List ℕ × ℕ)
unfolding decode_bytes
decode h input = decode_bytes h (h.decode58 input)
