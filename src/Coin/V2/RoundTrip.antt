-- ===== src/Coin/V2/RoundTrip.antt =====
-- CoinV2.SetBytes after CoinV2.Bytes, of coin/coin_v2.go.
use go_incognito_sdk_v.Base.{
  ℕ, ◌≡◌, false, List, [], ◌++◌, Option, none, some, ltb, length, take, drop, ok, arith,
  take-append, drop-append, length-append, append-nil, length-take, length-drop,
}
use go_incognito_sdk_v.Crypto.{Key, Curve, point_from_bytes}
use go_incognito_sdk_v.Crypto.Laws.{IsPoint}
use go_incognito_sdk_v.Coin.{Step, ◌>>◌, key_field, assign, parse_point_for_set_bytes}
use go_incognito_sdk_v.Coin.Fields.{
  IsScalarField, IsPointField, kept_info, parse_scalar_key_field, parse_point_key_field,
  parse_info_field,
}
use go_incognito_sdk_v.Coin.V2.{
  CoinV2, TxRandom, tx_random_field, bytes, tx_random_set_bytes, tx_random_body, tx_random_step,
  asset_tag_step, set_fields, set_bytes,
}

-- The two points of a TxRandom stand before and behind its four bytes of index.
pub record IsTxRandom (c : Curve) (t : TxRandom) : Type 0 where
  pub size : length t ≡ 68
  pub ota : IsPoint c (take 32 t)
  pub conceal : IsPoint c (drop 36 t)

-- A coin that can be sent: its points are points, its scalars are 32 bytes, and it has a TxRandom.
pub record IsSound (c : Curve) (s : CoinV2) (t : TxRandom) : Type 0 where
  pub tx_random : s.tx_random ≡ some t
  pub tx_random_sound : IsTxRandom c t
  pub public_key : IsPointField c s.public_key
  pub commitment : IsPointField c s.commitment
  pub key_image : IsPointField c s.key_image
  pub asset_tag : IsPointField c s.asset_tag
  pub shared_random : IsScalarField s.shared_random
  pub shared_conceal_random : IsScalarField s.shared_conceal_random
  pub mask : IsScalarField s.mask
  pub amount : IsScalarField s.amount

pub tx_random_read : (c : Curve) (t : TxRandom) → IsTxRandom c t → tx_random_set_bytes c t ≡ ok t
unfolding tx_random_set_bytes point_from_bytes
tx_random_read c t h = ground (arith, length-take 32 t, length-drop 36 t)

tx_random_step_lem :
    (c : Curve) (t : TxRandom) (s : CoinV2) (k : Step CoinV2) (rest : List ℕ)
    → IsTxRandom c t
    → (tx_random_step c >> k) s (tx_random_field (some t) ++ rest)
      ≡ k (record s { tx_random = some t }) rest
unfolding tx_random_field
tx_random_step_lem c t s k rest h =
    let fits : ltb (length (t ++ rest)) 68 ≡ false = ground (arith, length-append t rest, h.size) in
    rw (fits, tx_random_step)
      (rw (take-append 68 t rest h.size, tx_random_body)
        (rw (tx_random_read c t h, tx_random_body) (rw (drop-append 68 t rest h.size))))

parse_last_point :
    (c : Curve) (o : Option Key)
    → IsPointField c o
    → parse_point_for_set_bytes c (key_field o) ≡ ok (o, [])
parse_last_point c o h = rw append-nil at (parse_point_key_field c o [] h)

asset_tag_step_lem :
    (c : Curve) (o : Option Key) (s : CoinV2)
    → IsPointField c o
    → asset_tag_step c s (key_field o) ≡ (record s { asset_tag = o }, ok [])
unfolding key_field
asset_tag_step_lem c none s h = rw (parse_last_point c none h, assign)
asset_tag_step_lem c (some k) s h = rw (parse_last_point c (some k) h, assign)

-- What SetBytes makes of `Bytes` of a coin, in a coin that was used before or not: everything but
-- the raw asset tag, which is not serialised, and the info behind its first 255 bytes.
abbrev pub restored : CoinV2 → CoinV2 → CoinV2
restored old s = record s {
  version = 2;
  info = kept_info s.info;
  raw_asset_tag = old.raw_asset_tag;
}

-- SetBytes reads back what Bytes wrote of a sound coin.
pub set_bytes-bytes_coin :
    (c : Curve) (s old : CoinV2) (t : TxRandom)
    → IsSound c s t
    → set_bytes c old (bytes s) ≡ (restored old s, none)
unfolding bytes set_bytes set_fields
set_bytes-bytes_coin c s old t h = rw h.tx_random (
    rw (parse_info_field s.info _, assign)
      (rw (parse_point_key_field c s.public_key _ h.public_key, assign)
        (rw (parse_point_key_field c s.commitment _ h.commitment, assign)
          (rw (parse_point_key_field c s.key_image _ h.key_image, assign)
            (rw (parse_scalar_key_field s.shared_random _ h.shared_random, assign)
              (rw (parse_scalar_key_field s.shared_conceal_random _ h.shared_conceal_random, assign)
                (rw (tx_random_step_lem c t _ _ _ h.tx_random_sound) (
                  rw (parse_scalar_key_field s.mask _ h.mask, assign)
                    (rw (parse_scalar_key_field s.amount _ h.amount, assign)
                      (rw (asset_tag_step_lem c s.asset_tag _ h.asset_tag)))))))))))
