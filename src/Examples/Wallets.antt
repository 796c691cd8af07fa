-- ===== src/Examples/Wallets.antt =====
-- Runs of the theorems on wallets and texts, over the small curve and a small encoding.
use go_incognito_sdk_v.Base.{
  ℕ, zero, suc, ◌+◌, ◌%◌, ◌≡◌, refl, inl, inr, true, List, [], ◌∷◌, ◌++◌, Option, none, some,
  if◌then◌else◌, length, replicate, drop, All, All-append, ok, arith, Bool-cases,
}
use go_incognito_sdk_v.Base.Bytes.{IsByte}
use go_incognito_sdk_v.Common.Hash.{same_bytes}
use go_incognito_sdk_v.Common.Hash.Order.{same_bytes→eq}
use go_incognito_sdk_v.Base58.{Codec, Lru, encode, new_encode}
use go_incognito_sdk_v.Base58.Cached.{CodecLaws, LruLaws, IsCoherent, Encodes, encode-Encodes}
use go_incognito_sdk_v.Base58.{checksum_first_4_bytes}
use go_incognito_sdk_v.Keys.{KeySet, init_from_private_key}
use go_incognito_sdk_v.Wallet.Kinds.{deserialize-serialize_private}
use go_incognito_sdk_v.Wallet.Text.{base58_check-deserialize}
use go_incognito_sdk_v.Wallet.{
  KeyWallet, no_wallet, no_keys, serialize, deserialize, with_address, base58_check_serialize,
  base58_check_deserialize, body, read_keys, read_two_of_71, read_two, slice, has_checksum,
}
use go_incognito_sdk_v.Wallet.Address.{deserialize-serialize_address}
use go_incognito_sdk_v.Examples.Toy.{key, sum_bytes, toy}

-- A text is its bytes behind a letter, and a hash is the sum of the bytes.
abbrev codec : Codec
codec = record {
  hash_b = λ b. key (sum_bytes b % 7);
  sha256 = λ b. key ((sum_bytes b + 1) % 7);
  encode58 = λ b. b'z' ∷ b;
  decode58 = λ t. drop 1 t;
}

zeros-IsByte : (n : ℕ) → All IsByte (replicate n 0)
zeros-IsByte zero = tt
zeros-IsByte (suc n) = (omega arith, zeros-IsByte n)

codec-CodecLaws : CodecLaws codec
codec-CodecLaws = record {
  decode58-encode58 = λ b h. refl;
  length-hash_b = λ b. refl;
  length-sha256 = λ b. refl;
  hash_b-IsByte = λ b. (omega arith, zeros-IsByte 31);
  sha256-IsByte = λ b. (omega arith, zeros-IsByte 31);
}

-- A cache that keeps everything.
unfoldable find : List (List ℕ × List ℕ) → List ℕ → Option (List ℕ)
find [] j = none
find ((k, v) ∷ m) j = if same_bytes j k then some v else find m j

abbrev lru : Lru (List (List ℕ × List ℕ))
lru = record { get = find; add = λ m k v. (k, v) ∷ m }

lru-LruLaws : LruLaws lru
unfolding find
lru-LruLaws = record {
  get-add = λ m k v j w e. elim (Bool-cases (same_bytes j k)) [
    | inl s ↦ inl (same_bytes→eq j k s, grind arith)
    | inr s ↦ inr (grind arith)
  ];
}

encode-Encodes_example :
    Encodes codec lru [] (5 ∷ 6 ∷ []) 1 (encode codec lru [] (5 ∷ 6 ∷ []) 1)
    × Encodes codec lru [] (5 ∷ 6 ∷ []) 1 (new_encode codec lru [] (5 ∷ 6 ∷ []) 1)
unfolding find IsCoherent
encode-Encodes_example =
    encode-Encodes codec codec-CodecLaws lru lru-LruLaws [] (5 ∷ 6 ∷ []) 1
      (omega arith, (omega arith, tt)) (omega arith) (λ j. inl refl)

abbrev wallet : KeyWallet
wallet = record {
  depth = 1;
  child_number = 0 ∷ 0 ∷ 0 ∷ 7 ∷ [];
  chain_code = key 6;
  key_set = record {
    private_key = key 3;
    payment_address = record { pk = key 1; tk = key 2; ota_public = some (key 3) };
    readonly_key = record { pk = key 4; rk = key 5 };
    ota_key = record { pk = key 6; ota_secret = key 2 };
  };
}

deserialize-serialize_address_example :
    (bs : List ℕ) × (serialize codec toy wallet 1 true ≡ ok bs)
    × (deserialize codec toy bs [] ≡ ok (with_address (key 1) (key 2) (some (key 3))))
deserialize-serialize_address_example =
    deserialize-serialize_address codec codec-CodecLaws toy wallet true []
      (record { pk_size = refl; tk_size = refl; ota_size = λ b e. cc (e, three) })
  where
    three : length (key 3) ≡ 32
    three = refl

deserialize-serialize_private_example :
    (bs : List ℕ) × (ks : KeySet) × (serialize codec toy wallet 0 true ≡ ok bs)
    × (init_from_private_key toy (key 3) ≡ ok ks)
    × (deserialize codec toy bs [] ≡ ok (record wallet { key_set = ks }))
deserialize-serialize_private_example =
    deserialize-serialize_private codec codec-CodecLaws toy wallet true [] refl refl refl

abbrev readonly_wallet : KeyWallet
readonly_wallet = record no_wallet {
  key_set = record no_keys { readonly_key = record { pk = key 4; rk = key 5 } };
}

-- The read-only key of the wallet, with its check sum.
abbrev readonly_bytes : List ℕ
readonly_bytes = (2 ∷ 32 ∷ (key 4 ++ (32 ∷ key 5))) ++ (replicate 4 0)

readonly_bytes-IsByte : All IsByte readonly_bytes
readonly_bytes-IsByte =
    All-append IsByte (2 ∷ 32 ∷ (key 4 ++ (32 ∷ key 5))) (replicate 4 0)
      (
        omega arith,
        (
          omega arith,
          All-append IsByte (key 4) (32 ∷ key 5) (omega arith, zeros-IsByte 31)
              (omega arith, (omega arith, zeros-IsByte 31)),
        ),
      )
      (zeros-IsByte 4)

base58_check-deserialize_example :
    (base58_check_deserialize codec toy (base58_check_serialize codec lru toy [] wallet 2 1).0 []
      ≡ ok readonly_wallet)
    × IsCoherent codec lru (base58_check_serialize codec lru toy [] wallet 2 1).1
unfolding find IsCoherent serialize body checksum_first_4_bytes sum_bytes deserialize read_keys
    read_two_of_71 read_two slice has_checksum same_bytes
base58_check-deserialize_example =
    base58_check-deserialize codec codec-CodecLaws lru lru-LruLaws toy [] wallet readonly_wallet 2 1
      readonly_bytes [] refl readonly_bytes-IsByte refl (λ j. inl refl)
