-- ===== src/Coin/V2/Conceal/Decrypt.antt =====
-- ConcealOutputCoin and Decrypt of coin/coin_v2.go, one after the other.
use go_incognito_sdk_v.Base.{
  ◌≡◌, ◌≢◌, refl, sym, ap, ◌∙◌, true, false, [], none, some, ◌==◌, if◌then◌else◌, length,
  some_injective, ok, arith,
}
use go_incognito_sdk_v.Common.Hash.Order.{same_bytes_refl}
use go_incognito_sdk_v.Crypto.{Key, Curve, PedersenCommitment, is_point_equal}
use go_incognito_sdk_v.Crypto.Laws.{IsScalar, CurveLaws}
use go_incognito_sdk_v.Keys.{KeySet, get_private_view}
use go_incognito_sdk_v.Coin.{commitment_mismatch}
use go_incognito_sdk_v.Coin.V2.{CoinV2, TxRandom, get_tx_conceal_random_point}
use go_incognito_sdk_v.Coin.V2.Conceal.{
  commitment_of, is_encrypted, is_encrypted_fields, mask_blinder, amount_blinder,
  conceal_output_coin, decrypt, decrypt_body, conceal_point_of,
}

is_point_equal_refl : (k : Key) → is_point_equal k k ≡ true
unfolding is_point_equal
is_point_equal_refl k = same_bytes_refl k

-- A coin as its sender made it: the commitment opens to the mask and the amount, and the conceal
-- point of its TxRandom is the base point times the shared randomness.
pub record IsFresh (c : Curve) (pcm : PedersenCommitment) (s : CoinV2) (m a r : Key) (t : TxRandom)
    : Type 0 where
  pub mask : s.mask ≡ some m
  pub amount : s.amount ≡ some a
  pub commitment : s.commitment ≡ some (commitment_of c pcm s.asset_tag m a)
  pub shared_conceal_random : s.shared_conceal_random ≡ some r
  pub tx_random : s.tx_random ≡ some t
  pub conceal_point : get_tx_conceal_random_point c t ≡ ok (c.scalarmult_base r)
  pub mask_scalar : IsScalar c m
  pub amount_scalar : IsScalar c a
  pub random_scalar : IsScalar c r

-- A key set that can view and not spend.
pub record IsViewOnly (ks : KeySet) (v : Key) : Type 0 where
  pub no_private_key : ks.private_key ≡ []
  pub has_view_key : (length ks.readonly_key.rk == 0) ≡ false
  pub view : get_private_view ks.readonly_key ≡ v

-- What the coin is after concealing for the view key whose public half is `pv`.
abbrev pub concealed : Curve → Key → CoinV2 → Key → Key → Key → CoinV2
concealed c pv s m a r = record s {
  mask = some (c.sc_add m (mask_blinder c (c.scalarmult_key pv r)));
  amount = some (c.sc_add a (amount_blinder c (c.scalarmult_key pv r)));
  shared_conceal_random = none;
  shared_random = none;
}

module _ (c : Curve) (pcm : PedersenCommitment) where
  fresh-not_encrypted :
      (s : CoinV2) (m a r : Key) (t : TxRandom)
      → IsFresh c pcm s m a r t
      → is_encrypted c pcm s ≡ ok false
  unfolding is_encrypted is_encrypted_fields is_point_equal
  fresh-not_encrypted s m a r t h =
      rw (h.mask, h.amount, h.commitment)
        (rw (same_bytes_refl (commitment_of c pcm s.asset_tag m a)))

  -- Concealing a fresh coin blinds the mask and the amount and forgets the shared randomness.
  pub conceal_output_coin-fresh :
      (s : CoinV2) (m a r pv : Key) (t : TxRandom)
      → IsFresh c pcm s m a r t
      → conceal_output_coin c pcm (some pv) s ≡ (concealed c pv s m a r, none)
  unfolding conceal_output_coin
  conceal_output_coin-fresh s m a r pv t h =
      rw (fresh-not_encrypted s m a r t h, conceal_output_coin)
        (rw (h.mask, h.amount, h.shared_conceal_random))

skip_key_image :
    (c : Curve) (pcm : PedersenCommitment) (ks : KeySet) (s : CoinV2)
    → ks.private_key ≡ []
    → decrypt c pcm (some ks) s ≡ decrypt_body c pcm ks s
unfolding decrypt
skip_key_image c pcm ks s h = ground (arith, ap length h)

-- Decrypting a concealed coin takes the blinders off, whatever the key, and compares afterwards.
module _ (c : Curve) (pcm : PedersenCommitment) where
  abbrev pub opened : Key → CoinV2 → Key → Key → CoinV2
  opened rk s m a = record s {
    mask = some (c.sc_sub m (mask_blinder c rk));
    amount = some (c.sc_sub a (amount_blinder c rk));
  }

  abbrev pub recomputed : Key → CoinV2 → Key → Key → Key
  recomputed rk s m a =
      commitment_of c pcm s.asset_tag (c.sc_sub m (mask_blinder c rk))
        (c.sc_sub a (amount_blinder c rk))

  pub decrypt_body_lem :
      (ks : KeySet) (s : CoinV2) (m a cm p : Key)
      → is_encrypted c pcm s ≡ ok true
      → (length ks.readonly_key.rk == 0) ≡ false
      → conceal_point_of c s.tx_random ≡ ok p
      → s.mask ≡ some m
      → s.amount ≡ some a
      → s.commitment ≡ some cm
      → let rk = c.scalarmult_key p (get_private_view ks.readonly_key) in
        decrypt_body c pcm ks s ≡ (
          opened rk s m a,
          (if is_point_equal (recomputed rk s m a) cm then none else some commitment_mismatch),
        )
  unfolding decrypt_body
  decrypt_body_lem ks s m a cm p enc view point hm ha hc =
      rw (enc, decrypt_body) (rw view (rw point (rw (hm, ha, hc))))

module _ (c : Curve) (laws : CurveLaws c) (pcm : PedersenCommitment) where
  -- The two parties compute the same point: r (v G) and v (r G).
  same_secret :
      (v r : Key)
      → IsScalar c v
      → IsScalar c r
      → c.scalarmult_key (c.scalarmult_base v) r ≡ c.scalarmult_key (c.scalarmult_base r) v
  same_secret v r hv hr = laws.shared_secret r v hr hv

  mask_blinder-IsScalar : (k : Key) → IsScalar c (mask_blinder c k)
  unfolding mask_blinder
  mask_blinder-IsScalar k = laws.hash_to_scalar-IsScalar _

  amount_blinder-IsScalar : (k : Key) → IsScalar c (amount_blinder c k)
  unfolding amount_blinder
  amount_blinder-IsScalar k = laws.hash_to_scalar-IsScalar _

  -- Concealing for a view key and decrypting with it gives the coin back, without the sender's
  -- shared randomness, provided that the concealed commitment does not open by accident.
  pub decrypt-conceal_output_coin :
      (s : CoinV2) (m a r v : Key) (t : TxRandom) (ks : KeySet)
      → IsFresh c pcm s m a r t
      → IsScalar c v
      → IsViewOnly ks v
      → is_encrypted c pcm (concealed c (c.scalarmult_base v) s m a r) ≡ ok true
      → decrypt c pcm (some ks) (conceal_output_coin c pcm (some (c.scalarmult_base v)) s).0
        ≡ (record s { shared_conceal_random = none; shared_random = none }, none)
  unfolding decrypt
  decrypt-conceal_output_coin s m a r v t ks h hv hk hidden =
      let pv = c.scalarmult_base v in
      let rk = c.scalarmult_key pv r in
      let um = laws.sc_sub-sc_add m (mask_blinder c rk) h.mask_scalar (mask_blinder-IsScalar rk) in
      let ua =
        laws.sc_sub-sc_add a (amount_blinder c rk) h.amount_scalar (amount_blinder-IsScalar rk) in
      let point : conceal_point_of c s.tx_random ≡ ok (c.scalarmult_base r) =
        rw h.tx_random h.conceal_point in
      let d =
        decrypt_body_lem c pcm ks (concealed c pv s m a r) _ _ _ _ hidden hk.has_view_key point refl
          refl h.commitment in
      let e : c.scalarmult_key (c.scalarmult_base r) (get_private_view ks.readonly_key) ≡ rk =
        rw hk.view (sym (same_secret v r hv h.random_scalar)) in
      ap (λ x. decrypt c pcm (some ks) x.0) (conceal_output_coin-fresh c pcm s m a r pv t h)
      ∙ skip_key_image c pcm ks (concealed c pv s m a r) hk.no_private_key
      ∙ (rw (e, um, ua) at d)
      ∙ rw (h.mask, h.amount, is_point_equal_refl (commitment_of c pcm s.asset_tag m a))

-- A failed decryption does not leave the coin alone. With a key set that can view and not spend, for
-- an encrypted coin whose parts are there and whose recomputed commitment is another one, the error
-- is reported and the coin that the caller holds has changed, unless the blinder of the mask is
-- neutral.
pub decrypt_spoils :
    (c : Curve) (pcm : PedersenCommitment) (ks : KeySet) (s : CoinV2) (m a cm p v : Key)
    → IsViewOnly ks v
    → is_encrypted c pcm s ≡ ok true
    → conceal_point_of c s.tx_random ≡ ok p
    → s.mask ≡ some m
    → s.amount ≡ some a
    → s.commitment ≡ some cm
    → is_point_equal (recomputed c pcm (c.scalarmult_key p v) s m a) cm ≡ false
    → c.sc_sub m (mask_blinder c (c.scalarmult_key p v)) ≢ m
    → ((decrypt c pcm (some ks) s).1 ≡ some commitment_mismatch)
      × ((decrypt c pcm (some ks) s).0 ≢ s)
decrypt_spoils c pcm ks s m a cm p v hk enc point hm ha hc wrong shifts =
    let d = decrypt_body_lem c pcm ks s m a cm p enc hk.has_view_key point hm ha hc in
    let e = skip_key_image c pcm ks s hk.no_private_key ∙ (rw (hk.view, wrong) at d) in
    (
      ap (λ x. x.1) e,
      λ same.
          shifts (
            some_injective _ _
              (sym (ap (λ x. x.0.mask) e) ∙ ap (λ (x : CoinV2). x.mask) same ∙ hm)),
    )
