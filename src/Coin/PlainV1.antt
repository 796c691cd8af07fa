-- ===== src/Coin/PlainV1.antt =====
-- coin/coin_v1.go: PlainCoinV1, the decrypted coin of version 1.
pub mod RoundTrip
use go_incognito_sdk_v.Base.{
  ℕ, zero, suc, ◌+◌, ◌-◌, ◌%◌, ◌^◌, ◌≤◌, ◌<◌, Bool, true, false, not, List, [], ◌∷◌, ◌++◌, Option,
  none, some, ltb, ◌==◌, if◌then◌else◌, length, take, drop, Result, ok, err, ◌>>=◌,
}
use go_incognito_sdk_v.Base.Bytes.{to_nat, of_nat}
use go_incognito_sdk_v.Common.{get_shard_id_from_last_byte}
use go_incognito_sdk_v.Crypto.{
  Key, Curve, PedersenCommitment, d2h, from_uint64, commit_all, scalar_from_bytes, is_point_equal,
}
use go_incognito_sdk_v.Keys.{PaymentAddress, get_public_spend}
use go_incognito_sdk_v.Coin.{
  Error, empty, out_of_range, panic, bad_key, key_field, info_field, parse_scalar_for_set_bytes,
  parse_point_for_set_bytes, parse_info_for_set_bytes, key_result, Step, assign, ◌>>◌, finish,
}
use go_incognito_sdk_v.Coin.Shard.{last_byte}

pub record PlainCoinV1 : Type 0 where
  pub public_key : Option Key
  pub commitment : Option Key
  pub sn_derivator : Option Key
  pub serial_number : Option Key
  pub randomness : Option Key
  pub value : ℕ
  pub info : List ℕ

-- `new(PlainCoinV1)`
abbrev pub new_plain_coin_v1 : PlainCoinV1
new_plain_coin_v1 = record {
  public_key = none;
  commitment = none;
  sn_derivator = none;
  serial_number = none;
  randomness = none;
  value = 0;
  info = [];
}

unfoldable pub value_field : ℕ → List ℕ
value_field v = if ltb 0 v then (length (of_nat v) % 256) ∷ of_nat v else 0 ∷ []

-- PlainCoinV1.Bytes
unfoldable pub bytes : PlainCoinV1 → List ℕ
bytes pc =
    key_field pc.public_key
    ++ (key_field pc.commitment
        ++ (key_field pc.sn_derivator
            ++ (key_field pc.serial_number
                ++ (key_field pc.randomness ++ (value_field pc.value ++ info_field pc.info)))))

-- The value stays as it was if its length is 0.
unfoldable pub value_step : Step PlainCoinV1
value_step s [] = (s, err out_of_range)
value_step s (len_field ∷ b) =
    if len_field == 0
    then (s, ok b)
    else if ltb (length b) len_field
    then (s, err out_of_range)
    else (record s { value = to_nat (take len_field b) % 2 ^ 64 }, ok (drop len_field b))

abbrev pub point_step : Curve → (Option Key → PlainCoinV1 → PlainCoinV1) → Step PlainCoinV1
point_step c set = assign (parse_point_for_set_bytes c) none set

abbrev pub scalar_step : (Option Key → PlainCoinV1 → PlainCoinV1) → Step PlainCoinV1
scalar_step set = assign parse_scalar_for_set_bytes none set

unfoldable pub set_fields : Curve → Step PlainCoinV1
set_fields c =
    point_step c (λ x s. record s { public_key = x })
    >> (point_step c (λ x s. record s { commitment = x })
        >> (scalar_step (λ x s. record s { sn_derivator = x })
            >> (point_step c (λ x s. record s { serial_number = x })
                >> (scalar_step (λ x s. record s { randomness = x })
                    >> (value_step
                        >> assign parse_info_for_set_bytes [] (λ x s. record s { info = x }))))))

-- PlainCoinV1.SetBytes: the coin after the call, and the error.
unfoldable pub set_bytes : Curve → PlainCoinV1 → List ℕ → PlainCoinV1 × Option Error
set_bytes c s [] = (s, some empty)
set_bytes c s (b ∷ bs) = finish (set_fields c s (b ∷ bs))

-- GetShardID: nil is an error, and the key of a point has a last byte. No shards panic.
unfoldable pub get_shard_id : ℕ → PlainCoinV1 → Result Error ℕ
get_shard_id num_shards pc = elim pc.public_key [
  | none ↦ err empty
  | some k ↦ elim (last_byte k) [
    | none ↦ err panic
    | some b ↦ if num_shards == 0 then err panic else ok (get_shard_id_from_last_byte num_shards b)
  ]
]

-- ConcealOutputCoin
unfoldable pub conceal_output_coin : PlainCoinV1 → PlainCoinV1
conceal_output_coin pc = record pc {
  commitment = none;
  value = 0;
  sn_derivator = none;
  public_key = none;
  randomness = none;
}

abbrev pub or_panic : {A : Type 0} → Option A → Result Error A
or_panic none = err panic
or_panic (some a) = ok a

-- CommitAll: the commitment to value, derivator, shard and randomness, plus the public key. Nil
-- scalars panic in the multiplications.
unfoldable pub commitment_of : ℕ → Curve → PedersenCommitment → PlainCoinV1 → Result Error Key
commitment_of num_shards c pcm pc = do
  shard_id ← get_shard_id num_shards pc
  zero_scalar ← or_panic (from_uint64 c 0)
  value ← or_panic (from_uint64 c pc.value)
  sn ← or_panic pc.sn_derivator
  shard ← or_panic (from_uint64 c shard_id)
  randomness ← or_panic pc.randomness
  sum ← key_result (commit_all c pcm (zero_scalar ∷ value ∷ sn ∷ shard ∷ randomness ∷ []))
  pk ← or_panic pc.public_key
  ok (c.add_keys sum pk)

-- ParseKeyImageWithPrivateKey through `derive`, which is Point.Derive: of a generator, the private
-- key and the derivator.
unfoldable pub parse_key_image :
    (Key → Key → Key → Key) → PedersenCommitment → PlainCoinV1 → List ℕ → Result Error Key
parse_key_image derive pcm pc private_key = do
  sn ← or_panic pc.sn_derivator
  ok (derive pcm.g0 (scalar_from_bytes private_key) sn)

-- DoesCoinBelongToKeySet, of keys that are not nil
unfoldable pub does_coin_belong_to_key_set :
    Curve → PaymentAddress → PlainCoinV1 → Result Error Bool
does_coin_belong_to_key_set c addr pc = do
  spend ← or_panic (get_public_spend c addr)
  pk ← or_panic pc.public_key
  ok (is_point_equal spend pk)
