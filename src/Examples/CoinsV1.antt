-- ===== src/Examples/CoinsV1.antt =====
-- Runs of the theorems on coins of version 1.
use go_incognito_sdk_v.Base.{ℕ, ◌≡◌, refl, List, [], ◌∷◌, none, some, ok, arith, replicate}
use go_incognito_sdk_v.Hybrid.{HybridCipherText}
use go_incognito_sdk_v.Coin.Fields.{kept_info}
use go_incognito_sdk_v.Coin.PlainV1
use go_incognito_sdk_v.Coin.PlainV1.{PlainCoinV1, new_plain_coin_v1}
use go_incognito_sdk_v.Coin.PlainV1.RoundTrip.{IsPlain, read_value, set_bytes-bytes_plain}
use go_incognito_sdk_v.Coin.V1.{CoinV1, hybrid_cipher, bytes, set_bytes}
use go_incognito_sdk_v.Coin.V1.Retry.{set_bytes-bytes_v1}
use go_incognito_sdk_v.Examples.Toy.{key, toy, key-IsScalar}

abbrev plain : PlainCoinV1
plain = record {
  public_key = some (key 3);
  commitment = some (key 4);
  sn_derivator = some (key 5);
  serial_number = none;
  randomness = some (key 6);
  value = 1000;
  info = 1 ∷ 2 ∷ [];
}

plain-IsPlain : IsPlain toy plain
plain-IsPlain = record {
  public_key = key-IsScalar 3 (omega arith);
  commitment = key-IsScalar 4 (omega arith);
  sn_derivator = refl;
  serial_number = tt;
  randomness = refl;
  value = omega arith;
}

abbrev old_plain : PlainCoinV1
old_plain = record new_plain_coin_v1 { value = 77 }

set_bytes-bytes_plain_example :
    PlainV1.set_bytes toy old_plain (PlainV1.bytes plain)
    ≡ (record plain { value = read_value 77 1000; info = kept_info (1 ∷ 2 ∷ []) }, none)
set_bytes-bytes_plain_example = set_bytes-bytes_plain toy plain old_plain plain-IsPlain

abbrev sealed : HybridCipherText
sealed = record { msg_encrypted = 9 ∷ 8 ∷ []; sym_key_encrypted = replicate 64 7 }

abbrev blank : CoinV1 HybridCipherText
blank = record { coin_details = none; coin_details_encrypted = none }

set_bytes-bytes_v1_example :
    (b : List ℕ) × (bytes hybrid_cipher
        (record { coin_details = some plain; coin_details_encrypted = some sealed })
      ≡ ok b)
    × (set_bytes toy hybrid_cipher blank b ≡ (
      record {
        coin_details = some (record plain { info = kept_info (1 ∷ 2 ∷ []) });
        coin_details_encrypted = some sealed;
      },
      none,
    ))
set_bytes-bytes_v1_example =
    set_bytes-bytes_v1 toy blank plain (some sealed) plain-IsPlain (refl, omega arith, omega arith)
