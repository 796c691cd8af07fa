-- ===== src/Coin/Receiver.antt =====
-- coin/receiver.go: a one-time receiver, made by trying indices until the key falls into the wanted
-- shards. The two random scalars are arguments.
pub mod Made
pub mod Found
use go_incognito_sdk_v.Base.{
  inl, inr, Option-cases, Bool-cases, arith, ℕ, zero, suc, ◌+◌, ◌-◌, ◌*◌, ◌%◌, ◌/◌, ◌^◌, ◌≤◌, ◌<◌,
  ◌≡◌, refl, Bool, true, false, not, ◌&&◌, List, [], ◌∷◌, ◌++◌, Option, none, some, ltb, leb, ◌==◌,
  if◌then◌else◌, length, take, drop, Result, ok, err, ◌>>=◌,
}
use go_incognito_sdk_v.Common.{get_shard_id_from_last_byte}
use go_incognito_sdk_v.Crypto.{Key, Curve, point_from_bytes}
use go_incognito_sdk_v.Keys.{PaymentAddress, get_ota_public_key, get_public_spend}
use go_incognito_sdk_v.Coin.{
  Error, panic, empty, unknown_prefix, too_many_tries, no_public_ota, key_result,
}
use go_incognito_sdk_v.Coin.Shard.{ShardInfo, last_byte, derive_shard_info_from_coin}
use go_incognito_sdk_v.Coin.V2.{
  TxRandom, set_tx_random_detail, tx_random_set_bytes, get_tx_conceal_random_point,
  get_tx_ota_random_point,
}
use go_incognito_sdk_v.Coin.V2.Owner.{one_time_key}

pub record OtaReceiver : Type 0 where
  pub public_key : Key
  pub tx_random : TxRandom

abbrev is_ok : {A : Type 0} → Result Error A → Bool
is_ok (ok a) = true
is_ok (err e) = false

unfoldable pub is_valid : Curve → OtaReceiver → Bool
is_valid c r =
    if is_ok (get_tx_conceal_random_point c r.tx_random)
    then (if is_ok (get_tx_ota_random_point c r.tx_random)
        then c.point_valid r.public_key
        else false)
    else false

-- wallet.PrivateReceivingAddressType
abbrev pub private_receiving_address_type : ℕ
private_receiving_address_type = 4

unfoldable pub bytes : OtaReceiver → List ℕ
bytes r = private_receiving_address_type ∷ (r.public_key ++ r.tx_random)

-- `b[1:33]` of fewer bytes panics. The receiver is written only on success.
unfoldable pub set_bytes : Curve → List ℕ → Result Error OtaReceiver
set_bytes c [] = err empty
set_bytes c (key_type ∷ b) =
    if not (key_type == private_receiving_address_type)
    then err unknown_prefix
    else if ltb (length b) 32
    then err panic
    else do
      pk ← key_result (point_from_bytes c (take 32 b))
      txr ← tx_random_set_bytes c (drop 32 b)
      ok (record { public_key = pk; tx_random = txr })

abbrev pub wanted : ShardInfo → Result Error ShardInfo → Bool
wanted w (err e) = false
wanted w (ok i) =
    (i.receiver_shard_id == w.receiver_shard_id)
    && ((i.sender_shard_id == w.sender_shard_id) && (i.coin_privacy_type == w.coin_privacy_type))

abbrev pub max_tries_ota : ℕ
max_tries_ota = 50000

-- The loop of FromCoinParams: `tries` rounds are left, and `index` counts the rounds made.
unfoldable pub try_indices :
    Curve → ℕ → Key → Key → Key → Key → ShardInfo → ℕ → ℕ → Result Error OtaReceiver
unfolding one_time_key
try_indices c num_shards rk public_spend ota_rand conceal_rand w zero index = err too_many_tries
try_indices c num_shards rk public_spend ota_rand conceal_rand w (suc tries) index =
    let next = try_indices c num_shards rk public_spend ota_rand conceal_rand w tries (index + 1) in
    let pk = one_time_key c rk (index + 1) public_spend in
    if wanted w (derive_shard_info_from_coin num_shards pk)
    then ok (record {
      public_key = pk;
      tx_random =
          set_tx_random_detail (c.scalarmult_base conceal_rand) (c.scalarmult_base ota_rand)
            (index + 1);
    })
    else next

-- OTAReceiver.FromCoinParams for an address, a sender shard and a privacy type. A public spending
-- key that is nil panics in Add.
unfoldable pub from_coin_params :
    Curve → ℕ → PaymentAddress → ℕ → ℕ → Key → Key → Result Error OtaReceiver
from_coin_params c num_shards addr sender_shard privacy_type ota_rand conceal_rand =
    elim (last_byte addr.pk) [
      | none ↦ err panic
      | some b ↦ if num_shards == 0 then err panic else elim (get_ota_public_key c addr) [
        | none ↦ err no_public_ota
        | some public_ota ↦ elim (get_public_spend c addr) [
          | none ↦ err panic
          | some public_spend ↦
              try_indices c num_shards (c.scalarmult_key public_ota ota_rand) public_spend ota_rand
                conceal_rand
                (record {
                  sender_shard_id = sender_shard;
                  receiver_shard_id = get_shard_id_from_last_byte num_shards b;
                  coin_privacy_type = privacy_type;
                })
                max_tries_ota 0
        ]
      ]
    ]

no_shards : (k : Key) → (e : Error) × (derive_shard_info_from_coin 0 k ≡ err e)
unfolding derive_shard_info_from_coin
no_shards k = elim (Option-cases (last_byte k)) [
  | inl e ↦ (panic, rw e refl)
  | inr (b, e) ↦ (panic, rw e refl)
]

-- A key in the wanted shards exists for one shard at least.
pub some_shards :
    (n : ℕ) (k : Key) (w : ShardInfo)
    → wanted w (derive_shard_info_from_coin n k) ≡ true
    → (n == 0) ≡ false
some_shards n k w h = elim (Bool-cases (n == 0)) [
  | inr e ↦ e
  | inl e ↦
      let z : n ≡ 0 = ground arith in
      let (x, f) = no_shards k in let bad : wanted w (err x) ≡ true = rw (z, f) at h in cc
]
