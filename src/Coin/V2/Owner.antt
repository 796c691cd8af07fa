-- ===== src/Coin/V2/Owner.antt =====
-- coin/coin_v2.go, coin/utils.go and coin/receiver.go: one-time addresses. The sender adds
-- `Hash(r K, index) G` to the public spending key, and the receiver takes it off again.
pub mod Belongs
use go_incognito_sdk_v.Base.{
  ℕ, zero, suc, ◌+◌, ◌-◌, ◌%◌, ◌/◌, ◌^◌, ◌≤◌, ◌<◌, ◌≡◌, Bool, true, false, not, ◌&&◌, List, [], ◌∷◌,
  ◌++◌, Option, none, some, ltb, leb, ◌==◌, if◌then◌else◌, length, take, drop, Result, ok, err,
  ◌>>=◌,
}
use go_incognito_sdk_v.Crypto.{Key, Curve, PedersenCommitment, is_point_equal}
use go_incognito_sdk_v.Keys.{
  KeySet, OtaKey, PaymentAddress, get_ota_secret_key, ota_public_spend, get_ota_public_key,
  get_public_spend,
}
use go_incognito_sdk_v.Coin.{Error, panic}
use go_incognito_sdk_v.Coin.V2.{CoinV2, TxRandom, get_tx_random_detail, set_tx_random_detail}
use go_incognito_sdk_v.Coin.V2.Conceal.{ota_hash}

-- The public key that the sender gives a coin: `rK` is the shared point.
unfoldable pub one_time_key : Curve → Key → ℕ → Key → Key
unfolding ota_hash
one_time_key c rk index public_spend =
    c.add_keys (c.scalarmult_base (ota_hash c rk index)) public_spend

-- "assettag", the text behind the shared point
abbrev pub asset_tag_string : List ℕ
asset_tag_string = b'a' ∷ b's' ∷ b's' ∷ b'e' ∷ b't' ∷ b't' ∷ b'a' ∷ b'g' ∷ []

-- The raw asset tag is the asset tag without its blinder. It is computed once.
unfoldable pub with_raw_asset_tag :
    Curve → PedersenCommitment → Key → Option Key → Option Key → CoinV2 → CoinV2
with_raw_asset_tag c pcm rk (some tag) none s =
    let blinder = c.hash_to_scalar (rk ++ asset_tag_string) in
    record s { raw_asset_tag = some (c.sub_keys tag (c.scalarmult_key pcm.g4 blinder)) }
with_raw_asset_tag c pcm rk tag raw s = s

-- A successful answer: whether the coin belongs, and the shared point if it does.
abbrev pub Answer : Type 0
Answer = Bool × Option Key

-- The comparison of DoesCoinBelongToKeySet, on values that are not nil.
unfoldable pub belongs_with :
    Curve → PedersenCommitment → Key → Key → Key → ℕ → Key → CoinV2 → CoinV2 × Result Error Answer
unfolding ota_hash with_raw_asset_tag
belongs_with c pcm ota secret spend index pk s =
    let rk = c.scalarmult_key ota secret in
    let k_check = c.sub_keys pk (c.scalarmult_base (ota_hash c rk index)) in
    if is_point_equal k_check spend
    then (with_raw_asset_tag c pcm rk s.asset_tag s.raw_asset_tag s, ok (true, some rk))
    else (s, ok (false, none))

-- Nil keys panic: the secret in ScalarMult, the coin's key in Sub, the spending key in the test.
abbrev belongs_detail :
    Curve
    → PedersenCommitment
    → Option Key
    → Option Key
    → Option Key
    → Result Error (Key × Key × ℕ)
    → CoinV2
    → CoinV2 × Result Error Answer
belongs_detail c pcm secret spend pk (err e) s = (s, ok (false, none))
belongs_detail c pcm (some secret) (some spend) (some pk) (ok (conceal, ota, index)) s =
    belongs_with c pcm ota secret spend index pk s
belongs_detail c pcm secret spend pk (ok d) s = (s, err panic)

abbrev detail_of : Curve → TxRandom → Result Error (Key × Key × ℕ)
detail_of c t = get_tx_random_detail c t

-- DoesCoinBelongToKeySet: the coin after the call, and the answer.
unfoldable pub does_coin_belong_to_key_set :
    Curve → PedersenCommitment → OtaKey → CoinV2 → CoinV2 × Result Error Answer
does_coin_belong_to_key_set c pcm k s = elim s.tx_random [
  | none ↦ (s, err panic)
  | some t ↦
      belongs_detail c pcm (get_ota_secret_key c k) (ota_public_spend c k) s.public_key
        (detail_of c t) s
]
