-- ===== src/Wallet/Kinds.antt =====
-- Serialize and deserialize of wallet/hdwallet.go, for each kind of key.
use mathlib.Core.Path.{ap₂}
use go_incognito_sdk_v.Base.{
  ℕ, ◌+◌, ◌%◌, ◌≡◌, refl, sym, ◌∙◌, ap, Bool, true, List, [], ◌∷◌, ◌++◌, some, ◌==◌, length, take,
  drop, ok, arith, length-append, append_assoc, take-append, drop-append,
}
use go_incognito_sdk_v.Crypto.{Curve}
use go_incognito_sdk_v.Crypto.Laws.{IsPoint, IsScalar}
use go_incognito_sdk_v.Keys.{
  OtaKey, KeySet, key_set, ota_public_spend, point_or_nil, get_ota_secret_key,
  init_from_private_key,
}
use go_incognito_sdk_v.Keys.Laws.{scalar_from_bytes-IsScalar, point_from_bytes-IsPoint}
use go_incognito_sdk_v.Base58.{Codec, checksum_first_4_bytes}
use go_incognito_sdk_v.Base58.Cached.{CodecLaws, length-checksum}
use go_incognito_sdk_v.Wallet.{
  KeyWallet, no_wallet, no_keys, sized, body, serialize, slice, byte_at, read_keys, deserialize,
  read_private, init_key_set,
}
use go_incognito_sdk_v.Wallet.RoundTrip.{
  serialized, slice-middle, byte_at-middle, read_two_of_71-sized,
}

ota_public_spend-IsPoint :
    (c : Curve) (k : OtaKey) → IsPoint c k.pk → ota_public_spend c k ≡ some k.pk
unfolding ota_public_spend
ota_public_spend-IsPoint c k hp =
    let e : point_or_nil c k.pk ≡ some k.pk =
      rw (point_from_bytes-IsPoint c k.pk hp, point_or_nil) refl in
    rw (e, ota_public_spend) (rw hp.1 refl)

get_ota_secret_key-IsScalar :
    (c : Curve) (k : OtaKey) → IsScalar c k.ota_secret → get_ota_secret_key c k ≡ some k.ota_secret
unfolding get_ota_secret_key
get_ota_secret_key-IsScalar c k hs =
    rw (scalar_from_bytes-IsScalar c k.ota_secret hs) (rw hs.1 refl)

ota_body :
    (c : Curve) (w : KeyWallet) (is_new : Bool)
    → IsPoint c w.key_set.ota_key.pk
    → IsScalar c w.key_set.ota_key.ota_secret
    → body c w 3 is_new
      ≡ ok (3 ∷ (sized w.key_set.ota_key.pk ++ sized w.key_set.ota_key.ota_secret))
unfolding body
ota_body c w is_new hp hs =
    rw (ota_public_spend-IsPoint c w.key_set.ota_key hp, body)
      (rw (get_ota_secret_key-IsScalar c w.key_set.ota_key hs) refl)

derived : (c : Curve) (k : List ℕ) → length k ≡ 32 → init_from_private_key c k ≡ ok (key_set c k)
unfolding init_from_private_key
derived c k hk = let e : (length k == 32) ≡ true = ground arith in rw e refl

read_private_lem :
    (c : Curve) (bs spare k : List ℕ) (depth n : ℕ) (ks : KeySet)
    → (length bs == 75) ≡ true
    → byte_at bs 1 ≡ ok depth
    → byte_at bs 38 ≡ ok n
    → slice bs spare 39 (39 + n) ≡ ok k
    → init_key_set c k ≡ ok ks
    → read_private c bs spare
      ≡ ok (record {
        depth = depth;
        child_number = take 4 (drop 2 bs);
        chain_code = take 32 (drop 6 bs);
        key_set = ks;
      })
unfolding read_private
read_private_lem c bs spare k depth n ks e f g s i =
    rw (e, read_private) (rw f (rw g (rw s (rw i refl))))

-- A private key behind a depth, a child number and a chain code.
read_private-written :
    (c : Curve) (depth : ℕ) (child chain k cs spare : List ℕ) (ks : KeySet)
    → length child ≡ 4
    → length chain ≡ 32
    → length k ≡ 32
    → length cs ≡ 4
    → init_from_private_key c k ≡ ok ks
    → read_private c (0 ∷ depth ∷ ((child ++ (chain ++ sized k)) ++ cs)) spare
      ≡ ok (record { depth = depth; child_number = child; chain_code = chain; key_set = ks })
read_private-written c depth child chain k cs spare ks hc hn hk hs i =
    let bs = 0 ∷ depth ∷ (child ++ (chain ++ (sized k ++ cs))) in
    let written : 0 ∷ depth ∷ ((child ++ (chain ++ sized k)) ++ cs) ≡ bs =
      ap (λ x. 0 ∷ depth ∷ x)
        (append_assoc child (chain ++ sized k) cs
          ∙ ap (λ x. child ++ x) (append_assoc chain (sized k) cs)) in
    let before = 0 ∷ depth ∷ (child ++ chain) in
    let l : length before ≡ 38 = omega (arith, length-append child chain) in
    let parted : bs ≡ before ++ (sized k ++ cs) =
      ap (λ x. 0 ∷ depth ∷ x) (sym (append_assoc child chain (sized k ++ cs))) in
    let last : before ++ (sized k ++ cs) ≡ (before ++ ((length k % 256) ∷ [])) ++ (k ++ cs) =
      sym (append_assoc before ((length k % 256) ∷ []) (k ++ cs)) in
    let total : length bs ≡ 75 = omega (
      arith,
      length-append child (chain ++ (sized k ++ cs)),
      length-append chain (sized k ++ cs),
      length-append (sized k) cs,
    ) in
    let n : length k % 256 ≡ 32 = omega arith in
    let derive : init_key_set c k ≡ ok ks = unfold init_key_set in rw (i, init_key_set) refl in
    ap (λ x. read_private c x spare) written
    ∙ read_private_lem c bs spare k depth 32 ks (ground (arith, total)) refl
        (ap (λ x. byte_at x 38) parted
          ∙ byte_at-middle before (length k % 256) (k ++ cs) 38 l
          ∙ ap ok n)
        (ap (λ x. slice x spare 39 71) (parted ∙ last)
          ∙ slice-middle (before ++ ((length k % 256) ∷ [])) k cs spare 39 71
              (omega (arith, l, length-append before ((length k % 256) ∷ []))) (omega (arith, hk)))
        derive
    ∙ ap₂ (λ x y. ok (record { depth = depth; child_number = x; chain_code = y; key_set = ks }))
        (take-append 4 child (chain ++ (sized k ++ cs)) hc)
        (ap (take 32) (drop-append 4 child (chain ++ (sized k ++ cs)) hc)
          ∙ take-append 32 chain (sized k ++ cs) hn)

module _ (h : Codec) (laws : CodecLaws h) (c : Curve) where
  -- A read-only key with parts of 32 bytes is read back, and nothing else.
  pub deserialize-serialize_readonly :
      (w : KeyWallet) (is_new : Bool) (spare : List ℕ)
      → length w.key_set.readonly_key.pk ≡ 32
      → length w.key_set.readonly_key.rk ≡ 32
      → (bs : List ℕ) × (serialize h c w 2 is_new ≡ ok bs)
        × (deserialize h c bs spare
            ≡ ok (record no_wallet {
              key_set = record no_keys { readonly_key = w.key_set.readonly_key };
            }))
  unfolding body read_keys
  deserialize-serialize_readonly w is_new spare hp hr =
      let k = w.key_set.readonly_key in
      serialized h laws c w _ 2 (sized k.pk ++ sized k.rk) spare is_new refl (
        rw
          (read_two_of_71-sized 2 k.pk k.rk
            (checksum_first_4_bytes h (2 ∷ (sized k.pk ++ sized k.rk)) is_new) spare hp hr
            (length-checksum h laws _ is_new))
          refl)

  -- A one-time key that is a point and a scalar is read back, and nothing else.
  pub deserialize-serialize_ota :
      (w : KeyWallet) (is_new : Bool) (spare : List ℕ)
      → IsPoint c w.key_set.ota_key.pk
      → IsScalar c w.key_set.ota_key.ota_secret
      → (bs : List ℕ) × (serialize h c w 3 is_new ≡ ok bs)
        × (deserialize h c bs spare
            ≡ ok (record no_wallet { key_set = record no_keys { ota_key = w.key_set.ota_key } }))
  unfolding read_keys
  deserialize-serialize_ota w is_new spare hp hs =
      let k = w.key_set.ota_key in
      serialized h laws c w _ 3 (sized k.pk ++ sized k.ota_secret) spare is_new
        (ota_body c w is_new hp hs)
        (rw
          (read_two_of_71-sized 3 k.pk k.ota_secret
            (checksum_first_4_bytes h (3 ∷ (sized k.pk ++ sized k.ota_secret)) is_new) spare hp.0
            hs.0 (length-checksum h laws _ is_new))
          refl)

  -- A private key of 32 bytes is read back with its depth, child number and chain code, and with the
  -- keys that follow from it.
  pub deserialize-serialize_private :
      (w : KeyWallet) (is_new : Bool) (spare : List ℕ)
      → length w.child_number ≡ 4
      → length w.chain_code ≡ 32
      → length w.key_set.private_key ≡ 32
      → (bs : List ℕ) × (ks : KeySet) × (serialize h c w 0 is_new ≡ ok bs)
        × (init_from_private_key c w.key_set.private_key ≡ ok ks)
        × (deserialize h c bs spare ≡ ok (record w { key_set = ks }))
  unfolding body read_keys
  deserialize-serialize_private w is_new spare hc hn hk =
      let k = w.key_set.private_key in
      let rest = w.depth ∷ (w.child_number ++ (w.chain_code ++ sized k)) in
      let ks = key_set c k in
      let i = derived c k hk in
      let (bs, e, d) = serialized h laws c w _ 0 rest spare is_new refl (
        read_private-written c w.depth w.child_number w.chain_code k
          (checksum_first_4_bytes h (0 ∷ rest) is_new) spare ks hc hn hk
          (length-checksum h laws _ is_new) i) in
      (bs, ks, e, i, d)
