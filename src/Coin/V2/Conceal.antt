-- ===== src/Coin/V2/Conceal.antt =====
-- coin/coin_v2.go and coin/coin_v2_ca.go: a coin hides its amount from all but its receiver.
-- `pcm` is crypto.PedCom. A nil pointer that the code would follow is the error `panic`.
pub mod Decrypt
use go_incognito_sdk_v.Base.{
  ℕ, ◌≡◌, Bool, true, false, not, List, [], ◌∷◌, ◌++◌, Option, none, some, ltb, ◌==◌, if◌then◌else◌,
  length, Result, ok, err, ◌>>=◌,
}
use go_incognito_sdk_v.Crypto.{
  Key, Curve, PedersenCommitment, point_from_bytes, scalar_from_bytes, is_point_equal,
  commit_at_value_index, d2h,
}
use go_incognito_sdk_v.Common.{uint32_to_bytes}
use go_incognito_sdk_v.Keys
use go_incognito_sdk_v.Keys.{KeySet, get_private_view, get_ota_secret_key, init_from_private_key}
use go_incognito_sdk_v.Coin.{
  Error, panic, no_key_set, no_view_key, no_receiver_view, commitment_mismatch, invalid_private_key,
}
use go_incognito_sdk_v.Coin.V2.{
  CoinV2, TxRandom, get_tx_conceal_random_point, get_tx_random_detail, set_tx_random_detail,
}

-- ComputeCommitmentCA, the function
unfoldable pub compute_commitment_ca : Curve → PedersenCommitment → Key → Key → Key → Key
compute_commitment_ca c pcm asset_tag r v =
    c.add_keys (c.scalarmult_key asset_tag v) (c.scalarmult_key pcm.g4 r)

-- The commitment that IsEncrypted and Decrypt recompute, by the kind of the coin.
unfoldable pub commitment_of : Curve → PedersenCommitment → Option Key → Key → Key → Key
unfolding compute_commitment_ca commit_at_value_index
commitment_of c pcm none mask amount = commit_at_value_index c pcm amount mask
commitment_of c pcm (some tag) mask amount = compute_commitment_ca c pcm tag mask amount

abbrev pub differs : Key → Option Key → Result Error Bool
differs recomputed none = err panic
differs recomputed (some commitment) = ok (not (is_point_equal recomputed commitment))

unfoldable pub is_encrypted_fields :
    Curve
    → PedersenCommitment
    → Option Key
    → Option Key
    → Option Key
    → Option Key
    → Result Error Bool
unfolding commitment_of
is_encrypted_fields c pcm tag commitment (some mask) (some amount) =
    differs (commitment_of c pcm tag mask amount) commitment
is_encrypted_fields c pcm tag commitment _ _ = ok true

unfoldable pub is_encrypted : Curve → PedersenCommitment → CoinV2 → Result Error Bool
unfolding is_encrypted_fields
is_encrypted c pcm s = is_encrypted_fields c pcm s.asset_tag s.commitment s.mask s.amount

-- The two blinders that the shared secret gives: `hash(hash(rK))` and its hash.
unfoldable pub mask_blinder : Curve → Key → Key
mask_blinder c rk = c.hash_to_scalar (c.hash_to_scalar rk)

unfoldable pub amount_blinder : Curve → Key → Key
unfolding mask_blinder
amount_blinder c rk = c.hash_to_scalar (mask_blinder c rk)

abbrev blind : Curve → Key → Option Key → Option Key → CoinV2 → CoinV2 × Option Error
blind c rk (some mask) (some amount) s = (
  record s {
    mask = some (c.sc_add mask (mask_blinder c rk));
    amount = some (c.sc_add amount (amount_blinder c rk));
    shared_conceal_random = none;
    shared_random = none;
  },
  none,
)
blind c rk _ _ s = (s, some panic)

abbrev conceal_for : Curve → Option Key → Option Key → CoinV2 → CoinV2 × Option Error
conceal_for c none public_view s = (s, none)
conceal_for c (some r) none s = (s, some no_receiver_view)
conceal_for c (some r) (some view) s = blind c (c.scalarmult_key view r) s.mask s.amount s

-- ConcealOutputCoin; `none` for the public view is an argument of another type.
unfoldable pub conceal_output_coin :
    Curve → PedersenCommitment → Option Key → CoinV2 → CoinV2 × Option Error
conceal_output_coin c pcm public_view s = elim (is_encrypted c pcm s) [
  | err e ↦ (s, some e)
  | ok true ↦ (s, none)
  | ok false ↦ conceal_for c s.shared_conceal_random public_view s
]

-- ConcealInputCoin
unfoldable pub conceal_input_coin : Curve → CoinV2 → CoinV2
conceal_input_coin c s = record s {
  amount = if c.sc_valid (d2h 0) then some (d2h 0) else none;
  mask = none;
  public_key = none;
  commitment = none;
  tx_random = some (set_tx_random_detail c.identity c.identity 0);
}

abbrev key_set_result : {A : Type 0} → Result Keys.Error A → Result Error A
key_set_result (ok a) = ok a
key_set_result (err e) = err invalid_private_key

abbrev pub or_panic : {A : Type 0} → Option A → Result Error A
or_panic none = err panic
or_panic (some a) = ok a

-- The scalar `Hash(rK || index)` of a one-time address.
unfoldable pub ota_hash : Curve → Key → ℕ → Key
ota_hash c rk index = c.hash_to_scalar (rk ++ uint32_to_bytes index)

-- ParsePrivateKeyOfCoin
unfoldable pub parse_private_key_of_coin : Curve → CoinV2 → List ℕ → Result Error Key
unfolding init_from_private_key get_tx_random_detail get_ota_secret_key ota_hash
parse_private_key_of_coin c s private_key = do
  ks ← key_set_result (init_from_private_key c private_key)
  t ← or_panic s.tx_random
  (conceal, ota, index) ← get_tx_random_detail c t
  secret ← or_panic (get_ota_secret_key c ks.ota_key)
  ok (c.sc_add (ota_hash c (c.scalarmult_key ota secret) index) (scalar_from_bytes private_key))

-- ParseKeyImageWithPrivateKey
unfoldable pub parse_key_image : Curve → CoinV2 → List ℕ → Result Error Key
unfolding parse_private_key_of_coin
parse_key_image c s private_key = do
  k ← parse_private_key_of_coin c s private_key
  pk ← or_panic s.public_key
  ok (c.scalarmult_key (c.hash_to_point pk) k)

-- Sub writes its result to the scalar that it is called on, which is the coin's own: the mask and
-- the amount have changed before the commitment is compared.
abbrev unblind :
    Curve
    → PedersenCommitment
    → Key
    → Option Key
    → Option Key
    → Option Key
    → CoinV2
    → CoinV2 × Option Error
unblind c pcm rk (some mask) (some amount) (some commitment) s =
    let randomness = c.sc_sub mask (mask_blinder c rk) in
    let value = c.sc_sub amount (amount_blinder c rk) in
    (
      record s { mask = some randomness; amount = some value },
      (if is_point_equal (commitment_of c pcm s.asset_tag randomness value) commitment
          then none
          else some commitment_mismatch),
    )
unblind c pcm rk _ _ _ s = (s, some panic)

abbrev decrypt_with :
    Curve → PedersenCommitment → Key → Result Error Key → CoinV2 → CoinV2 × Option Error
decrypt_with c pcm view (err e) s = (s, some e)
decrypt_with c pcm view (ok conceal_point) s =
    unblind c pcm (c.scalarmult_key conceal_point view) s.mask s.amount s.commitment s

abbrev pub conceal_point_of : Curve → Option TxRandom → Result Error Key
conceal_point_of c none = err panic
conceal_point_of c (some t) = get_tx_conceal_random_point c t

unfoldable pub decrypt_body : Curve → PedersenCommitment → KeySet → CoinV2 → CoinV2 × Option Error
decrypt_body c pcm ks s = elim (is_encrypted c pcm s) [
  | err e ↦ (s, some e)
  | ok false ↦ (s, none)
  | ok true ↦
      if length ks.readonly_key.rk == 0
      then (if length ks.private_key == 0
          then (s, some no_view_key)
          else decrypt_with c pcm (get_private_view ks.readonly_key)
              (conceal_point_of c s.tx_random) s)
      else decrypt_with c pcm (get_private_view ks.readonly_key) (conceal_point_of c s.tx_random) s
]

-- Decrypt: the coin after the call, which is also the plain coin that is returned, and the error.
unfoldable pub decrypt : Curve → PedersenCommitment → Option KeySet → CoinV2 → CoinV2 × Option Error
decrypt c pcm none s = (s, some no_key_set)
decrypt c pcm (some ks) s =
    if ltb 0 (length ks.private_key)
    then elim (parse_key_image c s ks.private_key) [
      | ok image ↦ decrypt_body c pcm ks (record s { key_image = some image })
      | err e ↦ (s, some e)
    ]
    else decrypt_body c pcm ks s
