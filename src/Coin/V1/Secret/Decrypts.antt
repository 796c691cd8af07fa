-- ===== src/Coin/V1/Secret/Decrypts.antt =====
-- CoinV1.Decrypt undoes CoinV1.Encrypt.
use go_incognito_sdk_v.Base.{
  ℕ, ◌%◌, ◌^◌, ◌≡◌, refl, sym, ap, ◌∙◌, true, false, List, ◌++◌, Option, none, some, ltb, ◌==◌,
  if◌then◌else◌, length, Result, ok, ◌>>=◌, arith, length-append, take-append, drop-append,
  Bool-cases, inl, inr,
}
use go_incognito_sdk_v.Base.Bytes.{IsU64, to_nat, of_nat, to_nat-of_nat}
use go_incognito_sdk_v.Common.Hash.{same_bytes}
use go_incognito_sdk_v.Common.Hash.Order.{same_bytes_refl}
use go_incognito_sdk_v.Crypto.{Key, Curve, PedersenCommitment, point_from_bytes, scalar_from_bytes}
use go_incognito_sdk_v.Crypto.Laws.{IsPoint, IsScalar, CurveLaws}
use go_incognito_sdk_v.Hybrid.{Ctr, Draws, HybridCipherText, is_nil, hybrid_encrypt, hybrid_decrypt}
use go_incognito_sdk_v.Hybrid.Decrypts.{CtrLaws, hybrid_decrypt-hybrid_encrypt}
use go_incognito_sdk_v.Keys.{KeySet, generate_transmission_key}
use go_incognito_sdk_v.Keys.Laws.{scalar_from_bytes-IsScalar, point_from_bytes-IsPoint}
use go_incognito_sdk_v.Coin.{Error, key_result}
use go_incognito_sdk_v.Coin.PlainV1.{PlainCoinV1, or_panic}
use go_incognito_sdk_v.Coin.V1.{CoinV1}
use go_incognito_sdk_v.Coin.V1.Secret.{
  message, encrypt, check_commitment, read_message, open_details, open_encrypted, with_key_image,
  encrypt_for, encrypt_message, assign_ciphertext, finish_decrypt, decrypt_with_key, decrypt,
  opened_details, read_details, checked_details, set_key_image,
}

-- The coin as it is sent: without randomness and value.
abbrev pub hidden : PlainCoinV1 → PlainCoinV1
hidden d = record d { randomness = none; value = 0 }

-- The coin with its key image, if there is a private key.
abbrev pub imaged :
    (Key → Key → Key → Key) → PedersenCommitment → List ℕ → Key → PlainCoinV1 → PlainCoinV1
imaged derive pcm private_key sn d =
    if length private_key == 0
    then d
    else record d { serial_number = some (derive pcm.g0 (scalar_from_bytes private_key) sn) }

-- The randomness and the value are read from the message.
read_message-hidden :
    (d : PlainCoinV1) (r : Key)
    → d.randomness ≡ some r
    → scalar_from_bytes r ≡ r
    → length r ≡ 32
    → IsU64 d.value
    → read_message (hidden d) (r ++ of_nat d.value) ≡ ok d
unfolding read_message
read_message-hidden d r e s l u =
    let f : ltb (length (r ++ of_nat d.value)) 32 ≡ false =
      ground (arith, length-append r (of_nat d.value), l) in
    let v : to_nat (of_nat d.value) % 2 ^ 64 ≡ d.value = rw (to_nat-of_nat d.value) (omega arith) in
    rw (f, take-append 32 r (of_nat d.value) l, drop-append 32 r (of_nat d.value) l, s, v)
      (ap (λ z. ok (record d { randomness = z })) (sym e))

encrypt_lem :
    (c : Curve) (s : Ctr) (draws : Draws) (d : PlainCoinV1) (old : Option HybridCipherText)
    (x : List ℕ) (r : Key) (t : HybridCipherText)
    → scalar_from_bytes x ≡ x
    → d.randomness ≡ some r
    → IsPoint c (c.scalarmult_base x)
    → hybrid_encrypt c s draws (r ++ of_nat d.value) (c.scalarmult_base x) ≡ ok t
    → encrypt c s draws
        (generate_transmission_key c x)
        (record { coin_details = some d; coin_details_encrypted = old })
      ≡ (record { coin_details = some d; coin_details_encrypted = some t }, none)
unfolding encrypt message generate_transmission_key
encrypt_lem c s draws d old x r t e k p enc =
    let co : CoinV1 HybridCipherText = record {
      coin_details = some d;
      coin_details_encrypted = old;
    } in
    let msg = r ++ of_nat d.value in
    let tk = c.scalarmult_base (scalar_from_bytes x) in
    ap (λ z. encrypt_message c s draws tk co (or_panic z >>= λ y. ok (y ++ of_nat d.value))) k
    ∙ ap (λ z. encrypt_for c s draws co msg (key_result (point_from_bytes c (c.scalarmult_base z))))
        e
    ∙ ap (λ z. encrypt_for c s draws co msg (key_result z))
        (point_from_bytes-IsPoint c (c.scalarmult_base x) p)
    ∙ ap (assign_ciphertext co) enc

module _ (derive : Key → Key → Key → Key) (num_shards : ℕ) (c : Curve) (pcm : PedersenCommitment)
    (s : Ctr) where
  open_details_lem :
      (x : Key) (d : PlainCoinV1) (t : HybridCipherText) (msg : List ℕ)
      → scalar_from_bytes x ≡ x
      → hybrid_decrypt c s t x ≡ ok msg
      → read_message (hidden d) msg ≡ ok d
      → check_commitment num_shards c pcm d ≡ ok tt
      → open_details num_shards c pcm s x (hidden d) t ≡ (d, none)
  open_details_lem x d t msg e f k m =
      unfold open_details in
      ap (opened_details num_shards c pcm (hidden d)) (ap (hybrid_decrypt c s t) e ∙ f)
      ∙ ap (read_details num_shards c pcm (hidden d)) k
      ∙ ap (checked_details d) m

  with_key_image-imaged :
      (private_key : List ℕ) (sn : Key) (d : PlainCoinV1)
      → d.sn_derivator ≡ some sn
      → with_key_image derive pcm private_key d
        ≡ (imaged derive pcm private_key sn d, ok (imaged derive pcm private_key sn d))
  unfolding with_key_image
  with_key_image-imaged private_key sn d e = elim (Bool-cases (length private_key == 0)) [
    | inl f ↦ rw f refl
    | inr f ↦ rw f (ap (set_key_image (derive pcm.g0 (scalar_from_bytes private_key)) d) e)
  ]

  decrypt_lem :
      (ks : KeySet) (d : PlainCoinV1) (t : HybridCipherText) (sn : Key)
      → length ks.readonly_key.rk ≡ 32
      → is_nil t ≡ false
      → d.public_key ≡ some ks.payment_address.pk
      → d.sn_derivator ≡ some sn
      → open_details num_shards c pcm s ks.readonly_key.rk (hidden d) t ≡ (d, none)
      → decrypt derive num_shards c pcm s
          (some ks)
          (record { coin_details = some (hidden d); coin_details_encrypted = some t })
        ≡ (
          record {
            coin_details = some (imaged derive pcm ks.private_key sn d);
            coin_details_encrypted = some t;
          },
          ok (imaged derive pcm ks.private_key sn d),
        )
  unfolding decrypt decrypt_with_key open_encrypted
  decrypt_lem ks d t sn l n e f k =
      let z : (length ks.readonly_key.rk == 0) ≡ false = ground arith in
      let p : ltb 0 (length ks.readonly_key.rk) ≡ true = ground arith in
      let seal = λ (o : PlainCoinV1 × Result Error PlainCoinV1).
        let co : CoinV1 HybridCipherText = record {
          coin_details = some o.0;
          coin_details_encrypted = some t;
        } in
        let both : CoinV1 HybridCipherText × Result Error PlainCoinV1 = (co, o.1) in both in
      rw z (
        ap seal (
          ap (decrypt_with_key derive num_shards c pcm s ks (hidden d) (some t)) e
          ∙ (rw (same_bytes_refl ks.payment_address.pk, n, p)
              (ap (finish_decrypt derive pcm ks.private_key) k
                ∙ with_key_image-imaged ks.private_key sn d f))))

module _ (derive : Key → Key → Key → Key) (num_shards : ℕ) {c : Curve} (laws : CurveLaws c)
    (pcm : PedersenCommitment) {s : Ctr} (ctr_laws : CtrLaws s) where
  -- Over a curve and a stream cipher with the laws: if the commitment of a coin is that of its value,
  -- derivator, shard, randomness and key, then Encrypt for the transmission key of a view key succeeds,
  -- and a key set with that view key and the coin's public key decrypts the encrypted coin, whose
  -- randomness and value are left out, to what it was, with the key image if there is a private key.
  pub decrypt-encrypt :
      (ks : KeySet) (d : PlainCoinV1) (old : Option HybridCipherText) (draws : Draws) (r sn : Key)
      → IsScalar c ks.readonly_key.rk
      → IsScalar c draws.r
      → IsScalar c draws.point_scalar
      → length draws.iv ≡ 16
      → same_bytes (c.scalarmult_base draws.r) c.identity ≡ false
      → d.public_key ≡ some ks.payment_address.pk
      → d.sn_derivator ≡ some sn
      → d.randomness ≡ some r
      → IsScalar c r
      → IsU64 d.value
      → check_commitment num_shards c pcm d ≡ ok tt
      → (t : HybridCipherText) × (encrypt c s draws
            (generate_transmission_key c ks.readonly_key.rk)
            (record { coin_details = some d; coin_details_encrypted = old })
          ≡ (record { coin_details = some d; coin_details_encrypted = some t }, none))
        × (decrypt derive num_shards c pcm s
              (some ks)
              (record { coin_details = some (hidden d); coin_details_encrypted = some t })
            ≡ (
              record {
                coin_details = some (imaged derive pcm ks.private_key sn d);
                coin_details_encrypted = some t;
              },
              ok (imaged derive pcm ks.private_key sn d),
            ))
  decrypt-encrypt ks d old draws r sn hx hr hp hi hn e f k hk u m =
      let x = ks.readonly_key.rk in
      let msg = r ++ of_nat d.value in
      let (t, enc, dec, round, n) =
        hybrid_decrypt-hybrid_encrypt c laws s ctr_laws draws msg x hx hr hp hi
          (omega (arith, length-append r (of_nat d.value), hk.0)) hn in
      let sx = scalar_from_bytes-IsScalar c x hx in
      (
        t,
        encrypt_lem c s draws d old x r t sx k (laws.scalarmult_base-IsPoint x hx) enc,
        decrypt_lem derive num_shards c pcm s ks d t sn hx.0 n e f (
            open_details_lem derive num_shards c pcm s x d t msg sx dec
              (read_message-hidden d r k (scalar_from_bytes-IsScalar c r hk) hk.0 u) m),
      )
