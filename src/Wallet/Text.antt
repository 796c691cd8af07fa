-- ===== src/Wallet/Text.antt =====
-- Base58CheckSerialize and Base58CheckDeserialize of wallet/hdwallet.go.
use mathlib.Core.Path.{subst}
use go_incognito_sdk_v.Base.{ℕ, ◌≡◌, refl, sym, List, ok, All, ◌==◌, arith, Bool-cases, inl, inr}
use go_incognito_sdk_v.Base.Bytes.{IsByte}
use go_incognito_sdk_v.Crypto.{Curve}
use go_incognito_sdk_v.Base58.{Codec, Lru}
use go_incognito_sdk_v.Base58.Cached.{CodecLaws, LruLaws, IsCoherent, Encodes, encode-Encodes}
use go_incognito_sdk_v.Wallet.{
  KeyWallet, serialize, deserialize, base58_check_serialize, base58_check_deserialize,
}

module _ {M : Type 0} (h : Codec) (laws : CodecLaws h) (lru : Lru M) (lru_laws : LruLaws lru)
    (c : Curve) where
  text-Encodes :
      (cache : M) (w : KeyWallet) (key_type version : ℕ) (bs : List ℕ)
      → serialize h c w key_type (version == 1) ≡ ok bs
      → All IsByte bs
      → IsCoherent h lru cache
      → Encodes h lru cache bs 0 (base58_check_serialize h lru c cache w key_type version)
  unfolding base58_check_serialize
  text-Encodes cache w key_type version bs e b co =
      let (old, new) = encode-Encodes h laws lru lru_laws cache bs 0 b (omega arith) co in
      elim (Bool-cases (version == 1)) [
        | inl n ↦
            subst (Encodes h lru cache bs 0) (sym (rw (e, base58_check_serialize) (rw n refl))) new
        | inr n ↦
            subst (Encodes h lru cache bs 0) (sym (rw (e, base58_check_serialize) (rw n refl))) old
      ]

  -- What a wallet is serialised to is bytes, they are read as some wallet, and the texts in the cache
  -- of the encoder are read as the inputs that they are kept for. Then the text of the wallet is read
  -- as that wallet, and the texts in the cache after it are of the same kind.
  pub base58_check-deserialize :
      (cache : M) (w v : KeyWallet) (key_type version : ℕ) (bs spare : List ℕ)
      → serialize h c w key_type (version == 1) ≡ ok bs
      → All IsByte bs
      → deserialize h c bs spare ≡ ok v
      → IsCoherent h lru cache
      → (base58_check_deserialize h c
            (base58_check_serialize h lru c cache w key_type version).0
            spare
          ≡ ok v)
        × IsCoherent h lru (base58_check_serialize h lru c cache w key_type version).1
  unfolding base58_check_deserialize Encodes
  base58_check-deserialize cache w v key_type version bs spare e b d co =
      let (kept, found, read, from) = text-Encodes cache w key_type version bs e b co in
      (rw (read, base58_check_deserialize) d, kept)
