-- ===== src/Coin/Shard.antt =====
-- coin/utils.go: the shards and the kind of a coin, read from the last byte of its public key.
-- `num_shards` is common.MaxShardNumber, which the network configures.
use go_incognito_sdk_v.Base.{
  ℕ, ◌+◌, ◌*◌, ◌%◌, ◌/◌, ◌≤◌, ◌<◌, ◌≡◌, List, [], ◌∷◌, Option, none, some, ltb, ◌==◌, if◌then◌else◌,
  Result, ok, err, arith,
}
use go_incognito_sdk_v.Coin.{Error, panic, unsupported_privacy_type, too_many_shards}

unfoldable pub last_byte : List ℕ → Option ℕ
last_byte [] = none
last_byte (b ∷ []) = some b
last_byte (b ∷ c ∷ bs) = last_byte (c ∷ bs)

pub record ShardInfo : Type 0 where
  pub sender_shard_id : ℕ
  pub receiver_shard_id : ℕ
  pub coin_privacy_type : ℕ

abbrev pub privacy_type_mint : ℕ
privacy_type_mint = 1

-- The seven low bits of the byte, in base `num_shards` from the receiver up.
unfoldable pub split_byte : ℕ → ℕ → Result Error ShardInfo
split_byte num_shards b =
    let n = b % 128 in
    let rest = n / num_shards in
    if ltb privacy_type_mint (rest / num_shards)
    then err unsupported_privacy_type
    else ok (record {
      sender_shard_id = rest % num_shards;
      receiver_shard_id = n % num_shards;
      coin_privacy_type = rest / num_shards;
    })

-- An empty key panics, and so does a division by zero shards.
unfoldable pub derive_shard_info_from_coin : ℕ → List ℕ → Result Error ShardInfo
unfolding last_byte split_byte
derive_shard_info_from_coin num_shards coin_pub_key =
    if ltb 8 num_shards then err too_many_shards else elim (last_byte coin_pub_key) [
      | none ↦ err panic
      | some b ↦ if num_shards == 0 then err panic else split_byte num_shards b
    ]

-- With eight shards every key with a last byte has a sender shard, a receiver shard and a kind, and
-- together they are the seven low bits of that byte.
pub derive_shard_info_of_eight :
    (key : List ℕ) (b : ℕ)
    → last_byte key ≡ some b
    → (i : ShardInfo) × (derive_shard_info_from_coin 8 key ≡ ok i)
      × (i.sender_shard_id < 8)
      × (i.receiver_shard_id < 8)
      × (i.coin_privacy_type ≤ 1)
      × ((i.coin_privacy_type * 8 + i.sender_shard_id) * 8 + i.receiver_shard_id ≡ b % 128)
unfolding derive_shard_info_from_coin
derive_shard_info_of_eight key b h = (
  record {
    sender_shard_id = b % 128 / 8 % 8;
    receiver_shard_id = b % 128 % 8;
    coin_privacy_type = b % 128 / 8 / 8;
  },
  rw (h, derive_shard_info_from_coin) (ground arith),
  omega arith,
  omega arith,
  omega arith,
  omega arith,
)
