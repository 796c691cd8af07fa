-- ===== src/Coin/V1/Secret.antt =====
-- CoinV1.Encrypt and CoinV1.Decrypt of coin/coin_v1.go, with the hybrid encryption of privacy/v1.
pub mod Decrypts
use go_incognito_sdk_v.Base.{
  ℕ, ◌+◌, ◌-◌, ◌%◌, ◌^◌, ◌≤◌, ◌<◌, Bool, true, false, not, ◌&&◌, List, [], ◌∷◌, ◌++◌, Option, none,
  some, ltb, ◌==◌, if◌then◌else◌, length, take, drop, Result, ok, err, ◌>>=◌,
}
use go_incognito_sdk_v.Base.Bytes.{to_nat, of_nat}
use go_incognito_sdk_v.Common.Hash.{same_bytes}
use go_incognito_sdk_v.Crypto.{
  Key, Curve, PedersenCommitment, from_uint64, point_from_bytes, scalar_from_bytes, is_point_equal,
}
use go_incognito_sdk_v.Hybrid
use go_incognito_sdk_v.Hybrid.{Ctr, Draws, HybridCipherText, is_nil, hybrid_encrypt, hybrid_decrypt}
use go_incognito_sdk_v.Keys.{KeySet}
use go_incognito_sdk_v.Coin.{
  Error, panic, no_key_set, no_view_key, not_owned, commitment_mismatch, bad_cipher, key_result,
}
use go_incognito_sdk_v.Coin.PlainV1.{PlainCoinV1, get_shard_id, or_panic}
use go_incognito_sdk_v.Coin.V1.{CoinV1, Cipher}

-- 32 bytes of randomness, and the value
unfoldable pub message : CoinV1 HybridCipherText → Result Error (List ℕ)
message co = do d ← or_panic co.coin_details; r ← or_panic d.randomness; ok (r ++ of_nat d.value)

-- An error of HybridEncrypt comes with a nil ciphertext, which is assigned.
abbrev pub assign_ciphertext :
    CoinV1 HybridCipherText
    → Result Hybrid.Error HybridCipherText
    → CoinV1 HybridCipherText × Option Error
assign_ciphertext co (ok t) = (record co { coin_details_encrypted = some t }, none)
assign_ciphertext co (err e) = (record co { coin_details_encrypted = none }, some (bad_cipher e))

abbrev pub encrypt_for :
    Curve
    → Ctr
    → Draws
    → CoinV1 HybridCipherText
    → List ℕ
    → Result Error Key
    → CoinV1 HybridCipherText × Option Error
encrypt_for c s draws co msg (err e) = (co, some e)
encrypt_for c s draws co msg (ok p) = assign_ciphertext co (hybrid_encrypt c s draws msg p)

abbrev pub encrypt_message :
    Curve
    → Ctr
    → Draws
    → List ℕ
    → CoinV1 HybridCipherText
    → Result Error (List ℕ)
    → CoinV1 HybridCipherText × Option Error
encrypt_message c s draws recipient_tk co (err e) = (co, some e)
encrypt_message c s draws recipient_tk co (ok msg) =
    encrypt_for c s draws co msg (key_result (point_from_bytes c recipient_tk))

-- CoinV1.Encrypt: the coin after the call, and the error.
unfoldable pub encrypt :
    Curve → Ctr → Draws → List ℕ → CoinV1 HybridCipherText → CoinV1 HybridCipherText × Option Error
unfolding message
encrypt c s draws recipient_tk co = encrypt_message c s draws recipient_tk co (message co)

-- The commitment is computed again and compared.
unfoldable pub check_commitment :
    ℕ → Curve → PedersenCommitment → PlainCoinV1 → Result Error (Unit {0})
check_commitment num_shards c pcm d = do
  shard_id ← get_shard_id num_shards d
  v ← or_panic (from_uint64 c d.value)
  sn ← or_panic d.sn_derivator
  sh ← or_panic (from_uint64 c shard_id)
  r ← or_panic d.randomness
  pk ← or_panic d.public_key
  commitment ← or_panic d.commitment
  let m = λ (g x : Key). c.scalarmult_key g x
  let cmt =
      c.add_keys
        (c.add_keys (c.add_keys (c.add_keys (m pcm.g1 v) (m pcm.g2 sn)) (m pcm.g3 sh)) (m pcm.g4 r))
        pk
  if is_point_equal cmt commitment then ok tt else err commitment_mismatch

-- Randomness and value of the message; slicing a short one panics.
unfoldable pub read_message : PlainCoinV1 → List ℕ → Result Error PlainCoinV1
read_message d msg =
    if ltb (length msg) 32
    then err panic
    else ok (record d {
      randomness = some (scalar_from_bytes (take 32 msg));
      value = to_nat (drop 32 msg) % 2 ^ 64;
    })

abbrev pub checked_details : PlainCoinV1 → Result Error (Unit {0}) → PlainCoinV1 × Option Error
checked_details d (ok u) = (d, none)
checked_details d (err e) = (d, some e)

-- The details that were read, before the commitment is compared.
abbrev pub read_details :
    ℕ
    → Curve
    → PedersenCommitment
    → PlainCoinV1
    → Result Error PlainCoinV1
    → PlainCoinV1 × Option Error
read_details num_shards c pcm d (err e) = (d, some e)
read_details num_shards c pcm d (ok d') = checked_details d' (check_commitment num_shards c pcm d')

abbrev pub opened_details :
    ℕ
    → Curve
    → PedersenCommitment
    → PlainCoinV1
    → Result Hybrid.Error (List ℕ)
    → PlainCoinV1 × Option Error
opened_details num_shards c pcm d (err e) = (d, some (bad_cipher e))
opened_details num_shards c pcm d (ok msg) = read_details num_shards c pcm d (read_message d msg)

-- The details that the view key opens, written before the commitment is compared.
unfoldable pub open_details :
    ℕ
    → Curve
    → PedersenCommitment
    → Ctr
    → List ℕ
    → PlainCoinV1
    → HybridCipherText
    → PlainCoinV1 × Option Error
unfolding read_message
open_details num_shards c pcm s rk d t =
    opened_details num_shards c pcm d (hybrid_decrypt c s t (scalar_from_bytes rk))

unfoldable pub open_encrypted :
    ℕ
    → Curve
    → PedersenCommitment
    → Ctr
    → List ℕ
    → PlainCoinV1
    → Option HybridCipherText
    → PlainCoinV1 × Option Error
unfolding open_details
open_encrypted num_shards c pcm s rk d none = (d, none)
open_encrypted num_shards c pcm s rk d (some t) =
    if not (is_nil t) && ltb 0 (length rk)
    then open_details num_shards c pcm s rk d t
    else (d, none)

abbrev pub set_key_image :
    (Key → Key) → PlainCoinV1 → Option Key → PlainCoinV1 × Result Error PlainCoinV1
set_key_image image d none = (d, err panic)
set_key_image image d (some sn) = (
  record d { serial_number = some (image sn) },
  ok (record d { serial_number = some (image sn) }),
)

-- The key image, if there is a private key; `derive` is Point.Derive.
unfoldable pub with_key_image :
    (Key → Key → Key → Key)
    → PedersenCommitment
    → List ℕ
    → PlainCoinV1
    → PlainCoinV1 × Result Error PlainCoinV1
with_key_image derive pcm private_key d =
    if length private_key == 0
    then (d, ok d)
    else set_key_image (derive pcm.g0 (scalar_from_bytes private_key)) d d.sn_derivator

abbrev pub finish_decrypt :
    (Key → Key → Key → Key)
    → PedersenCommitment
    → List ℕ
    → PlainCoinV1 × Option Error
    → PlainCoinV1 × Result Error PlainCoinV1
finish_decrypt derive pcm private_key (d, some e) = (d, err e)
finish_decrypt derive pcm private_key (d, none) = with_key_image derive pcm private_key d

-- The test of the public key, and what follows it.
unfoldable pub decrypt_with_key :
    (Key → Key → Key → Key)
    → ℕ
    → Curve
    → PedersenCommitment
    → Ctr
    → KeySet
    → PlainCoinV1
    → Option HybridCipherText
    → Option Key
    → PlainCoinV1 × Result Error PlainCoinV1
unfolding open_encrypted with_key_image
decrypt_with_key derive num_shards c pcm s ks d t none = (d, err panic)
decrypt_with_key derive num_shards c pcm s ks d t (some pk) =
    if same_bytes pk ks.payment_address.pk
    then finish_decrypt derive pcm ks.private_key
        (open_encrypted num_shards c pcm s ks.readonly_key.rk d t)
    else (d, err not_owned)

-- CoinV1.Decrypt: the details that it returns are those of the coin, which the call changes.
unfoldable pub decrypt :
    (Key → Key → Key → Key)
    → ℕ
    → Curve
    → PedersenCommitment
    → Ctr
    → Option KeySet
    → CoinV1 HybridCipherText
    → CoinV1 HybridCipherText × Result Error PlainCoinV1
unfolding decrypt_with_key
decrypt derive num_shards c pcm s none co = (co, err no_key_set)
decrypt derive num_shards c pcm s (some ks) co =
    if (length ks.readonly_key.rk == 0) && (length ks.private_key == 0)
    then (co, err no_view_key)
    else elim co.coin_details [
      | none ↦ (co, err panic)
      | some d ↦
          let done =
            decrypt_with_key derive num_shards c pcm s ks d co.coin_details_encrypted
              d.public_key in
          (record co { coin_details = some done.0 }, done.1)
    ]
