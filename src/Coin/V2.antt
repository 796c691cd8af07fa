-- ===== src/Coin/V2.antt =====
-- coin/coin_v2.go: the coin of version 2, its transaction randomness and its serialisation.
pub mod RoundTrip
pub mod Random
pub mod Conceal
pub mod Owner
pub mod Make
pub mod Tags
use go_incognito_sdk_v.Base.{
  ℕ, zero, suc, ◌+◌, ◌-◌, ◌%◌, ◌≤◌, ◌<◌, ◌≡◌, Bool, true, false, not, List, [], ◌∷◌, ◌++◌, Option,
  none, some, ltb, leb, ◌==◌, if◌then◌else◌, length, replicate, take, drop, Result, ok, err, ◌>>=◌,
  min,
}
use go_incognito_sdk_v.Common
use go_incognito_sdk_v.Common.{uint32_to_bytes, bytes_to_uint32}
use go_incognito_sdk_v.Crypto.{Key, Curve, ed25519_key_size, point_from_bytes}
use go_incognito_sdk_v.Coin.{
  Error, empty, wrong_version, offset_too_large, out_of_range, invalid_tx_random,
  tx_random_group_size, key_field, info_field, parse_scalar_for_set_bytes,
  parse_point_for_set_bytes, parse_info_for_set_bytes, key_result, Step, assign, ◌>>◌, finish,
}

-- An array of 68 bytes: the OTA random point, the index and the conceal random point.
abbrev pub TxRandom : Type 0
TxRandom = List ℕ

pub record CoinV2 : Type 0 where
  pub version : ℕ
  pub info : List ℕ
  pub public_key : Option Key
  pub commitment : Option Key
  pub key_image : Option Key
  pub shared_conceal_random : Option Key
  pub shared_random : Option Key
  pub tx_random : Option TxRandom
  pub mask : Option Key
  pub amount : Option Key
  pub asset_tag : Option Key
  pub raw_asset_tag : Option Key

-- `copy(t[off:], src)`
unfoldable pub copy_at : ℕ → List ℕ → List ℕ → List ℕ
copy_at off t src = take off t ++ (take (length t - off) src ++ drop (off + length src) t)

unfoldable pub set_tx_conceal_random_point : Key → TxRandom → TxRandom
unfolding copy_at
set_tx_conceal_random_point v t = copy_at (ed25519_key_size + 4) t v

unfoldable pub set_tx_ota_random_point : Key → TxRandom → TxRandom
unfolding copy_at
set_tx_ota_random_point v t = copy_at 0 t (take ed25519_key_size v)

unfoldable pub set_index : ℕ → TxRandom → TxRandom
unfolding copy_at
set_index v t = copy_at ed25519_key_size t (uint32_to_bytes v)

unfoldable pub zero_tx_random : TxRandom
zero_tx_random = replicate tx_random_group_size 0

unfoldable pub new_tx_random : Curve → TxRandom
unfolding set_tx_conceal_random_point set_index zero_tx_random
new_tx_random c = set_index 0 (set_tx_conceal_random_point c.identity zero_tx_random)

unfoldable pub get_tx_conceal_random_point : Curve → TxRandom → Result Error Key
get_tx_conceal_random_point c t = key_result (point_from_bytes c (drop (ed25519_key_size + 4) t))

unfoldable pub get_tx_ota_random_point : Curve → TxRandom → Result Error Key
get_tx_ota_random_point c t = key_result (point_from_bytes c (take ed25519_key_size t))

abbrev pub index_result : Result Common.Error ℕ → Result Error ℕ
index_result (ok n) = ok n
index_result (err e) = err invalid_tx_random

unfoldable pub get_index : TxRandom → Result Error ℕ
get_index t = index_result (bytes_to_uint32 (take 4 (drop ed25519_key_size t)))

-- The TxRandom that CoinV2.SetTxRandomDetail makes.
unfoldable pub set_tx_random_detail : Key → Key → ℕ → TxRandom
unfolding set_tx_conceal_random_point set_tx_ota_random_point set_index zero_tx_random
set_tx_random_detail conceal ota index =
    set_index index
      (set_tx_ota_random_point ota (set_tx_conceal_random_point conceal zero_tx_random))

-- CoinV2.GetTxRandomDetail: the conceal point, the OTA point and the index.
unfoldable pub get_tx_random_detail : Curve → TxRandom → Result Error (Key × Key × ℕ)
get_tx_random_detail c t = do
  ota ← get_tx_ota_random_point c t
  conceal ← get_tx_conceal_random_point c t
  index ← get_index t
  ok (conceal, ota, index)

-- TxRandom.SetBytes. The array is written only if the method succeeds.
unfoldable pub tx_random_set_bytes : Curve → List ℕ → Result Error TxRandom
tx_random_set_bytes c v =
    if not (length v == tx_random_group_size) then err invalid_tx_random else do
      ota ← key_result (point_from_bytes c (take ed25519_key_size v))
      conceal ← key_result (point_from_bytes c (drop (ed25519_key_size + 4) v))
      ok v

unfoldable pub tx_random_field : Option TxRandom → List ℕ
tx_random_field none = 0 ∷ []
tx_random_field (some t) = tx_random_group_size ∷ t

unfoldable pub bytes : CoinV2 → List ℕ
bytes c =
    2
    ∷ (info_field c.info
        ++ (key_field c.public_key
            ++ (key_field c.commitment
                ++ (key_field c.key_image
                    ++ (key_field c.shared_random
                        ++ (key_field c.shared_conceal_random
                            ++ (tx_random_field c.tx_random
                                ++ (key_field c.mask
                                    ++ (key_field c.amount ++ key_field c.asset_tag)))))))))

-- The bytes behind the length: on an error the coin is left with a new TxRandom.
abbrev pub tx_random_body : Curve → Step CoinV2
tx_random_body c s b = elim (tx_random_set_bytes c (take tx_random_group_size b)) [
  | ok t ↦ (record s { tx_random = some t }, ok (drop tx_random_group_size b))
  | err e ↦ (record s { tx_random = some (new_tx_random c) }, err e)
]

abbrev pub tx_random_step : Curve → Step CoinV2
tx_random_step c s [] = (s, err offset_too_large)
tx_random_step c s (len_field ∷ b) =
    if not (len_field == tx_random_group_size)
    then (s, err invalid_tx_random)
    else if ltb (length b) tx_random_group_size
    then (s, err out_of_range)
    else tx_random_body c s b

-- The old serialisation has no asset tag.
abbrev pub asset_tag_step : Curve → Step CoinV2
asset_tag_step c s [] = (record s { asset_tag = none }, ok [])
asset_tag_step c s (l ∷ b) =
    assign (parse_point_for_set_bytes c) none (λ x s. record s { asset_tag = x }) s (l ∷ b)

abbrev pub point_step : Curve → (Option Key → CoinV2 → CoinV2) → Step CoinV2
point_step c set = assign (parse_point_for_set_bytes c) none set

abbrev pub scalar_step : (Option Key → CoinV2 → CoinV2) → Step CoinV2
scalar_step set = assign parse_scalar_for_set_bytes none set

unfoldable pub set_fields : Curve → Step CoinV2
set_fields c =
    assign parse_info_for_set_bytes [] (λ x s. record s { info = x })
    >> (point_step c (λ x s. record s { public_key = x })
        >> (point_step c (λ x s. record s { commitment = x })
            >> (point_step c (λ x s. record s { key_image = x })
                >> (scalar_step (λ x s. record s { shared_random = x })
                    >> (scalar_step (λ x s. record s { shared_conceal_random = x })
                        >> (tx_random_step c
                            >> (scalar_step (λ x s. record s { mask = x })
                                >> (scalar_step (λ x s. record s { amount = x })
                                    >> asset_tag_step c))))))))

-- CoinV2.SetBytes: the coin after the call, and the error.
unfoldable pub set_bytes : Curve → CoinV2 → List ℕ → CoinV2 × Option Error
set_bytes c s [] = (s, some empty)
set_bytes c s (v ∷ b) =
    if not (v == 2)
    then (s, some wrong_version)
    else finish (set_fields c (record s { version = 2 }) b)
