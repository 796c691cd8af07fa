-- ===== src/Examples/Secrets.antt =====
-- The theorems on encrypted coins of version 1 at a concrete coin.
use mathlib.Core.List.{reverse-reverse}
use go_incognito_sdk_v.Base.{
  ℕ, ◌≡◌, refl, true, false, List, [], ◌∷◌, none, some, reverse, length-reverse, replicate, length,
  ok, ◌==◌, arith,
}
use go_incognito_sdk_v.Common.{get_shard_id_from_last_byte}
use go_incognito_sdk_v.Common.Hash.{same_bytes}
use go_incognito_sdk_v.Crypto.{PedersenCommitment, from_uint64, d2h, d2h_loop, is_point_equal}
use go_incognito_sdk_v.Hybrid.{Ctr, Draws, HybridCipherText}
use go_incognito_sdk_v.Hybrid.Decrypts.{CtrLaws, hybrid_decrypt-hybrid_encrypt}
use go_incognito_sdk_v.Hybrid
use go_incognito_sdk_v.Keys.{KeySet, generate_transmission_key}
use go_incognito_sdk_v.Coin.Shard.{last_byte}
use go_incognito_sdk_v.Coin.PlainV1.{PlainCoinV1, get_shard_id}
use go_incognito_sdk_v.Coin.V1.Secret.{encrypt, decrypt, check_commitment}
use go_incognito_sdk_v.Coin.V1.Secret.Decrypts.{hidden, imaged, decrypt-encrypt}
use go_incognito_sdk_v.Examples.Toy.{key, value, is_small, toy, key-IsScalar, toy-CurveLaws}

abbrev reversing : Ctr
reversing = record { is_aes_key = λ k. length k == 32; xor_key_stream = λ k iv m. reverse m }

size_is_32 : (k : List ℕ) → length k ≡ 32 → (length k == 32) ≡ true
size_is_32 k e = ground arith

reversing-CtrLaws : CtrLaws reversing
reversing-CtrLaws = record {
  is_aes_key_32 = size_is_32;
  length-xor_key_stream = λ k iv m. length-reverse m;
  xor_twice = λ k iv m. reverse-reverse m;
}

abbrev draws : Draws
draws = record { point_scalar = key 2; iv = replicate 16 9; r = key 3 }

abbrev generators : PedersenCommitment
generators = record { g0 = key 1; g1 = key 2; g2 = key 3; g3 = key 4; g4 = key 5 }

-- 5 g1 + 2 g2 + 0 g3 + 4 g4 and the public key
abbrev sealed : PlainCoinV1
sealed = record {
  public_key = some (key 3);
  commitment = some (key 4);
  sn_derivator = some (key 2);
  serial_number = none;
  randomness = some (key 4);
  value = 5;
  info = 7 ∷ [];
}

abbrev owner : KeySet
owner = record {
  private_key = key 6;
  payment_address = record { pk = key 3; tk = []; ota_public = none };
  readonly_key = record { pk = key 3; rk = key 5 };
  ota_key = record { pk = []; ota_secret = [] };
}

sealed_fits : check_commitment 8 toy generators sealed ≡ ok tt
unfolding check_commitment get_shard_id last_byte get_shard_id_from_last_byte from_uint64 d2h
    d2h_loop is_small same_bytes is_point_equal value
sealed_fits = refl

draws_fit : same_bytes (toy.scalarmult_base draws.r) toy.identity ≡ false
unfolding same_bytes value
draws_fit = refl

hybrid_decrypt-hybrid_encrypt_example :
    (t : HybridCipherText) × (Hybrid.hybrid_encrypt toy reversing draws
        (1 ∷ 2 ∷ [])
        (toy.scalarmult_base (key 5))
      ≡ ok t)
    × (Hybrid.hybrid_decrypt toy reversing t (key 5) ≡ ok (1 ∷ 2 ∷ []))
    × (Hybrid.set_bytes (Hybrid.bytes t) ≡ ok t)
    × (Hybrid.is_nil t ≡ false)
hybrid_decrypt-hybrid_encrypt_example =
    hybrid_decrypt-hybrid_encrypt toy toy-CurveLaws reversing reversing-CtrLaws draws (1 ∷ 2 ∷ [])
      (key 5) (key-IsScalar 5 (omega arith)) (key-IsScalar 3 (omega arith))
      (key-IsScalar 2 (omega arith)) refl (omega arith) draws_fit

decrypt-encrypt_example :
    (t : HybridCipherText) × (encrypt toy reversing draws
        (generate_transmission_key toy owner.readonly_key.rk)
        (record { coin_details = some sealed; coin_details_encrypted = none })
      ≡ (record { coin_details = some sealed; coin_details_encrypted = some t }, none))
    × (decrypt
          (λ g a b. key 6)
          8
          toy
          generators
          reversing
          (some owner)
          (record { coin_details = some (hidden sealed); coin_details_encrypted = some t })
        ≡ (
          record {
            coin_details =
                some (imaged (λ g a b. key 6) generators owner.private_key (key 2) sealed);
            coin_details_encrypted = some t;
          },
          ok (imaged (λ g a b. key 6) generators owner.private_key (key 2) sealed),
        ))
decrypt-encrypt_example =
    decrypt-encrypt (λ g a b. key 6) 8 toy-CurveLaws generators reversing-CtrLaws owner sealed none
      draws (key 4) (key 2) (key-IsScalar 5 (omega arith)) (key-IsScalar 3 (omega arith))
      (key-IsScalar 2 (omega arith)) refl draws_fit refl refl refl (key-IsScalar 4 (omega arith))
      (omega arith) sealed_fits
