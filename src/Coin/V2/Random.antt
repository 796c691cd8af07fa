-- ===== src/Coin/V2/Random.antt =====
-- The three parts of the TxRandom of coin/coin_v2.go.
use go_incognito_sdk_v.Base.{
  ℕ, ◌+◌, ◌-◌, ◌≡◌, refl, sym, ap, ◌∙◌, List, [], ◌++◌, length, replicate, take, drop, ok, arith,
  take-append, drop-append, length-append, append-nil, take_all, append_assoc,
}
use go_incognito_sdk_v.Base.Bytes.{IsU32}
use go_incognito_sdk_v.Common.{uint32_to_bytes}
use go_incognito_sdk_v.Common.Convert.{bytes_to_uint32-uint32_to_bytes}
use go_incognito_sdk_v.Crypto.{Key, Curve}
use go_incognito_sdk_v.Crypto.Laws.{IsPoint}
use go_incognito_sdk_v.Keys.Laws.{point_from_bytes-IsPoint}
use go_incognito_sdk_v.Coin.V2.{
  copy_at, set_tx_ota_random_point, set_index, get_tx_conceal_random_point, get_tx_ota_random_point,
  get_index, set_tx_random_detail,
}
use go_incognito_sdk_v.Coin.V2.RoundTrip.{IsTxRandom}

-- A copy over bytes of the same number replaces them.
copy_at-middle :
    (off : ℕ) (a b d src : List ℕ)
    → length a ≡ off
    → length b ≡ length src
    → copy_at off (a ++ (b ++ d)) src ≡ a ++ (src ++ d)
unfolding copy_at
copy_at-middle off a b d src ha hb =
    let n : length (a ++ (b ++ d)) ≡ off + (length b + length d) =
      omega (arith, length-append a (b ++ d), length-append b d, ha) in
    let l : length (a ++ b) ≡ off + length src = omega (arith, length-append a b) in
    rw (take-append off a (b ++ d) ha, n)
      (rw (take_all (off + (length b + length d) - off) src (omega arith))
        (rw (← append_assoc a b d) (rw (drop-append (off + length src) (a ++ b) d l))))

-- CoinV2.SetTxRandomDetail lays the parts out side by side.
pub set_tx_random_detail-layout :
    (conceal ota : Key) (index : ℕ)
    → length conceal ≡ 32
    → length ota ≡ 32
    → length (uint32_to_bytes index) ≡ 4
    → set_tx_random_detail conceal ota index ≡ ota ++ (uint32_to_bytes index ++ conceal)
unfolding set_tx_random_detail
set_tx_random_detail-layout conceal ota index hc ho hi =
    let z4 : List ℕ = replicate 4 0 in
    let z32 : List ℕ = replicate 32 0 in
    let z36 : List ℕ = replicate 36 0 in
    let e1 = copy_at-middle 36 z36 z32 [] conceal refl (sym hc) in
    let e2 : copy_at 0 (z32 ++ (z4 ++ conceal)) (take 32 ota) ≡ ota ++ (z4 ++ conceal) =
      rw (take_all 32 ota (omega arith))
        (copy_at-middle 0 [] z32 (z4 ++ conceal) ota refl (sym ho)) in
    let e3 = copy_at-middle 32 ota z4 conceal (uint32_to_bytes index) ho (sym hi) in
    ap (λ t. set_index index (set_tx_ota_random_point ota t))
      (e1 ∙ ap (λ t. z36 ++ t) (append-nil conceal))
    ∙ ap (set_index index) e2
    ∙ e3

-- What was put into a TxRandom is read back, and the whole is one that SetBytes accepts.
pub set_tx_random_detail-IsTxRandom :
    (c : Curve) (conceal ota : Key) (index : ℕ)
    → IsPoint c conceal
    → IsPoint c ota
    → IsU32 index
    → let t = set_tx_random_detail conceal ota index in
      (get_tx_conceal_random_point c t ≡ ok conceal)
      × (get_tx_ota_random_point c t ≡ ok ota)
      × (get_index t ≡ ok index)
      × IsTxRandom c t
unfolding get_tx_conceal_random_point get_tx_ota_random_point get_index
set_tx_random_detail-IsTxRandom c conceal ota index hc ho hi =
    let (ru, lu) = bytes_to_uint32-uint32_to_bytes index hi in
    let u = uint32_to_bytes index in
    let d : drop 32 (ota ++ (u ++ conceal)) ≡ u ++ conceal = drop-append 32 ota _ ho.0 in
    let o : take 32 (ota ++ (u ++ conceal)) ≡ ota = take-append 32 ota _ ho.0 in
    let i : take 4 (u ++ conceal) ≡ u = take-append 4 u conceal lu in
    let l : length (ota ++ u) ≡ 36 = omega (arith, length-append ota u, ho.0, lu) in
    let p : drop 36 (ota ++ (u ++ conceal)) ≡ conceal =
      rw (← append_assoc ota u conceal) (drop-append 36 (ota ++ u) conceal l) in
    rw (set_tx_random_detail-layout conceal ota index hc.0 ho.0 lu) (
      rw (p, point_from_bytes-IsPoint c conceal hc),
      rw (o, point_from_bytes-IsPoint c ota ho),
      rw (d, i, ru),
      record {
        size =
            omega
              (arith, length-append ota (u ++ conceal), length-append u conceal, ho.0, lu, hc.0);
        ota = rw o ho;
        conceal = rw p hc;
      },
    )
