-- ===== src/Wallet/Address.antt =====
-- Serialize and deserialize of wallet/hdwallet.go, for payment addresses.
use go_incognito_sdk_v.Base.{
  ℕ, ◌+◌, ◌%◌, ◌≡◌, refl, sym, ◌∙◌, ap, ◌⊎◌, inl, inr, Bool, true, false, List, [], ◌∷◌, ◌++◌,
  Option, none, some, ltb, if◌then◌else◌, length, ok, arith, length-append, append_assoc,
  Bool-cases,
}
use go_incognito_sdk_v.Crypto.{Curve}
use go_incognito_sdk_v.Common.Hash.{same_bytes}
use go_incognito_sdk_v.Keys.{PaymentAddress}
use go_incognito_sdk_v.Keys.Laws.{IsAddress}
use go_incognito_sdk_v.Base58.{Codec, checksum_first_4_bytes}
use go_incognito_sdk_v.Base58.Cached.{CodecLaws, length-checksum}
use go_incognito_sdk_v.Wallet.{
  KeyWallet, sized, body, serialize, slice, byte_at, read_keys, deserialize, read_two, read_third,
  read_address, with_address, is_address_length, ota_part, burn_address_1_bytes_decode,
}
use go_incognito_sdk_v.Wallet.RoundTrip.{
  serialized, slice-middle, byte_at-middle, read_two-sized, length-sized_two,
}

-- An address has 71 or 104 bytes.
address_length : (bs : List ℕ) → (length bs ≡ 71) ⊎ (length bs ≡ 104) → is_address_length bs ≡ true
unfolding is_address_length
address_length bs h = elim (Bool-cases (same_bytes burn_address_1_bytes_decode bs)) [
  | inl e ↦ rw e refl
  | inr e ↦ rw e (ground arith)
]

read_address_lem :
    (bs spare pk tk : List ℕ)
    → is_address_length bs ≡ true
    → read_two bs spare ≡ ok (pk, tk)
    → ltb 71 (length bs) ≡ false
    → read_address bs spare ≡ ok (with_address pk tk none)
unfolding read_address
read_address_lem bs spare pk tk e f g = rw (e, read_address) (rw f (rw g refl))

read_address_with :
    (bs spare pk tk ota : List ℕ)
    → is_address_length bs ≡ true
    → read_two bs spare ≡ ok (pk, tk)
    → ltb 71 (length bs) ≡ true
    → read_third bs spare (length pk + length tk) ≡ ok ota
    → read_address bs spare ≡ ok (with_address pk tk (some ota))
unfolding read_address
read_address_with bs spare pk tk ota e f g k = rw (e, read_address) (rw f (rw g (rw k refl)))

read_third_lem :
    (bs spare ota : List ℕ) (lo : ℕ)
    → byte_at bs (lo + 3) ≡ ok 32
    → slice bs spare (lo + 4) (lo + 32 + 4) ≡ ok ota
    → read_third bs spare lo ≡ ok ota
unfolding read_third
read_third_lem bs spare ota lo e f = rw (e, read_third) f

-- The address as it is read: the old check sum goes without the one-time key.
abbrev pub kept_ota : Bool → PaymentAddress → Option (List ℕ)
kept_ota is_new a = if is_new then a.ota_public else none

read_address-two :
    (pk tk cs spare : List ℕ)
    → length pk ≡ 32
    → length tk ≡ 32
    → length cs ≡ 4
    → read_address (1 ∷ ((sized pk ++ (sized tk ++ [])) ++ cs)) spare ≡ ok (with_address pk tk none)
read_address-two pk tk cs spare hp ht hc =
    let bs = 1 ∷ (sized pk ++ (sized tk ++ cs)) in
    let l : length bs ≡ 71 = omega (arith, length-sized_two pk tk cs) in
    let written : 1 ∷ ((sized pk ++ (sized tk ++ [])) ++ cs) ≡ bs =
      ap (λ x. 1 ∷ x)
        (append_assoc (sized pk) (sized tk ++ []) cs
          ∙ ap (λ x. sized pk ++ x) (append_assoc (sized tk) [] cs)) in
    ap (λ x. read_address x spare) written
    ∙ read_address_lem bs spare pk tk (address_length bs (inl l))
        (read_two-sized 1 pk tk cs spare (omega arith) (omega arith)) (ground (arith, l))

read_address-three :
    (pk tk ota cs spare : List ℕ)
    → length pk ≡ 32
    → length tk ≡ 32
    → length ota ≡ 32
    → length cs ≡ 4
    → read_address (1 ∷ ((sized pk ++ (sized tk ++ sized ota)) ++ cs)) spare
      ≡ ok (with_address pk tk (some ota))
read_address-three pk tk ota cs spare hp ht ho hc =
    let bs = 1 ∷ (sized pk ++ (sized tk ++ (sized ota ++ cs))) in
    let before = 1 ∷ (sized pk ++ sized tk) in
    let n : length before ≡ 67 = omega (arith, length-append (sized pk) (sized tk)) in
    let l : length bs ≡ 104 =
      omega (arith, length-sized_two pk tk (sized ota ++ cs), length-append (sized ota) cs) in
    let written : 1 ∷ ((sized pk ++ (sized tk ++ sized ota)) ++ cs) ≡ bs =
      ap (λ x. 1 ∷ x)
        (append_assoc (sized pk) (sized tk ++ sized ota) cs
          ∙ ap (λ x. sized pk ++ x) (append_assoc (sized tk) (sized ota) cs)) in
    let parted : bs ≡ before ++ (sized ota ++ cs) =
      ap (λ x. 1 ∷ x) (sym (append_assoc (sized pk) (sized tk) (sized ota ++ cs))) in
    let last : before ++ (sized ota ++ cs) ≡ (before ++ ((length ota % 256) ∷ [])) ++ (ota ++ cs) =
      sym (append_assoc before ((length ota % 256) ∷ []) (ota ++ cs)) in
    let m : length ota % 256 ≡ 32 = omega arith in
    let lo : length pk + length tk ≡ 64 = omega arith in
    let third : read_third bs spare 64 ≡ ok ota =
      read_third_lem bs spare ota 64
        (ap (λ x. byte_at x 67) parted
          ∙ byte_at-middle before (length ota % 256) (ota ++ cs) 67 n
          ∙ ap ok m)
        (ap (λ x. slice x spare 68 100) (parted ∙ last)
          ∙ slice-middle (before ++ ((length ota % 256) ∷ [])) ota cs spare 68 100
              (omega (arith, n, length-append before ((length ota % 256) ∷ [])))
              (omega (arith, ho))) in
    ap (λ x. read_address x spare) written
    ∙ read_address_with bs spare pk tk ota (address_length bs (inr l))
        (read_two-sized 1 pk tk (sized ota ++ cs) spare (omega arith) (omega arith))
        (ground (arith, l)) (ap (read_third bs spare) lo ∙ third)

module _ (h : Codec) (laws : CodecLaws h) (c : Curve) where
  address_read :
      (w : KeyWallet) (is_new : Bool) (pk tk : List ℕ) (ota : Option (List ℕ)) (cs spare : List ℕ)
      → length pk ≡ 32
      → length tk ≡ 32
      → ((b : List ℕ) → ota ≡ some b → length b ≡ 32)
      → length cs ≡ 4
      → read_address (1 ∷ ((sized pk ++ (sized tk ++ ota_part is_new ota)) ++ cs)) spare
        ≡ ok (with_address pk tk (if is_new then ota else none))
  unfolding ota_part
  address_read w true pk tk none cs spare hp ht ho hc = read_address-two pk tk cs spare hp ht hc
  address_read w false pk tk none cs spare hp ht ho hc = read_address-two pk tk cs spare hp ht hc
  address_read w false pk tk (some b) cs spare hp ht ho hc =
      read_address-two pk tk cs spare hp ht hc
  address_read w true pk tk (some b) cs spare hp ht ho hc =
      let p : ltb 0 (length b) ≡ true = ground (arith, ho b refl) in
      rw p (read_address-three pk tk b cs spare hp ht (ho b refl) hc)

  -- A payment address with parts of 32 bytes is read back, and nothing else: with its one-time key,
  -- if there is one and the check sum is the new one, and without it under the old check sum.
  pub deserialize-serialize_address :
      (w : KeyWallet) (is_new : Bool) (spare : List ℕ)
      → IsAddress w.key_set.payment_address
      → (bs : List ℕ) × (serialize h c w 1 is_new ≡ ok bs)
        × (deserialize h c bs spare
            ≡ ok (
                with_address w.key_set.payment_address.pk w.key_set.payment_address.tk
                  (kept_ota is_new w.key_set.payment_address)))
  unfolding body read_keys
  deserialize-serialize_address w is_new spare ia =
      let a = w.key_set.payment_address in
      let rest = sized a.pk ++ (sized a.tk ++ ota_part is_new a.ota_public) in
      serialized h laws c w (with_address a.pk a.tk (kept_ota is_new a)) 1 rest spare is_new refl (
        address_read w is_new a.pk a.tk a.ota_public (checksum_first_4_bytes h (1 ∷ rest) is_new)
          spare ia.pk_size ia.tk_size ia.ota_size (length-checksum h laws _ is_new))
