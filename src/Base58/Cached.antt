-- ===== src/Base58/Cached.antt =====
-- The cache of common/base58/base58check.go, and texts that Decode reads.
use mathlib.Core.Path.{ap₂, subst}
use go_incognito_sdk_v.Base.{
  ℕ, suc, ◌+◌, ◌-◌, ◌<◌, ◌≡◌, refl, sym, ◌∙◌, ap, ◌⊎◌, inl, inr, Bool, true, false, List, ◌∷◌, none,
  some, ltb, ◌==◌, length, drop, ok, All, All-append, All-take, arith, length-append, length-take,
  take-append, drop-append, Option-cases, some_injective,
}
use go_incognito_sdk_v.Base.Bytes.{IsByte}
use go_incognito_sdk_v.Common.Hash.Order.{same_bytes_refl}
use go_incognito_sdk_v.Base58.{
  Codec, Lru, checksum_first_4_bytes, checked, encode_as, encode, new_encode, decode, decode_bytes,
  decode_parts, front_of, check_of, head_or,
}

-- What the program relies on of the hash functions and of the encoding.
pub record CodecLaws (h : Codec) : Type 0 where
  pub decode58-encode58 : (b : List ℕ) → All IsByte b → h.decode58 (h.encode58 b) ≡ b
  pub length-hash_b : (b : List ℕ) → length (h.hash_b b) ≡ 32
  pub length-sha256 : (b : List ℕ) → length (h.sha256 b) ≡ 32
  pub hash_b-IsByte : (b : List ℕ) → All IsByte (h.hash_b b)
  pub sha256-IsByte : (b : List ℕ) → All IsByte (h.sha256 b)

-- What the cache holds was added for that key.
pub record LruLaws {M : Type 0} (lru : Lru M) : Type 0 where
  pub get-add :
      (m : M) (k v j w : List ℕ)
      → lru.get (lru.add m k v) j ≡ some w
      → ((j ≡ k) × (w ≡ v)) ⊎ (lru.get m j ≡ some w)

module _ (h : Codec) (laws : CodecLaws h) where
  pub length-checksum :
      (b : List ℕ) (is_new : Bool) → length (checksum_first_4_bytes h b is_new) ≡ 4
  unfolding checksum_first_4_bytes
  length-checksum b true =
      omega (arith, length-take 4 (h.sha256 (h.sha256 b)), laws.length-sha256 (h.sha256 b))
  length-checksum b false = omega (arith, length-take 4 (h.hash_b b), laws.length-hash_b b)

  checksum-IsByte : (b : List ℕ) (is_new : Bool) → All IsByte (checksum_first_4_bytes h b is_new)
  unfolding checksum_first_4_bytes
  checksum-IsByte b true = All-take IsByte 4 _ (laws.sha256-IsByte (h.sha256 b))
  checksum-IsByte b false = All-take IsByte 4 _ (laws.hash_b-IsByte b)

  decode_parts-checksum :
      (is_new : Bool) (front : List ℕ) (version : ℕ)
      → decode_parts h front (checksum_first_4_bytes h front is_new) version
        ≡ ok (drop 1 front, version)
  unfolding decode_parts
  decode_parts-checksum true front version =
      ground (arith, same_bytes_refl (checksum_first_4_bytes h front true))
  decode_parts-checksum false front version =
      ground (arith, same_bytes_refl (checksum_first_4_bytes h front false))

  decode_bytes_long :
      (x : List ℕ)
      → ltb (length x) 5 ≡ false
      → decode_bytes h x ≡ decode_parts h (front_of x) (check_of x) (head_or 0 x)
  decode_bytes_long x e = unfold decode_bytes in rw (e, decode_bytes) refl

  decode_bytes-checked :
      (is_new : Bool) (input : List ℕ) (version : ℕ)
      → decode_bytes h (checked h is_new input version) ≡ ok (input, version)
  decode_bytes-checked is_new input version =
      let cs = checksum_first_4_bytes h (version ∷ input) is_new in
      let x = checked h is_new input version in
      let n = length-checksum (version ∷ input) is_new in
      let l : length x ≡ suc (length input) + 4 =
        length-append (version ∷ input) cs ∙ ap (λ m. suc (length input) + m) n in
      let f : front_of x ≡ version ∷ input =
        take-append (length x - 4) (version ∷ input) cs (omega (arith, l)) in
      let g : check_of x ≡ cs =
        drop-append (length x - 4) (version ∷ input) cs (omega (arith, l)) in
      let e : decode_bytes h x ≡ decode_parts h (front_of x) (check_of x) version =
        decode_bytes_long x (ground (arith, l)) in
      e
      ∙ ap₂ (λ a b. decode_parts h a b version) f g
      ∙ decode_parts-checksum is_new (version ∷ input) version

  pub decode-checked :
      (is_new : Bool) (input : List ℕ) (version : ℕ)
      → All IsByte input
      → version < 256
      → decode h (h.encode58 (checked h is_new input version)) ≡ ok (input, version)
  unfolding decode
  decode-checked is_new input version bytes v =
      let whole =
        All-append IsByte (version ∷ input) _ (v, bytes)
          (checksum-IsByte (version ∷ input) is_new) in
      ap (decode_bytes h) (laws.decode58-encode58 (checked h is_new input version) whole)
      ∙ decode_bytes-checked is_new input version

module _ {M : Type 0} (h : Codec) (lru : Lru M) where
  -- Every text in the cache is read as the input that it is kept for, with some version.
  unfoldable pub IsCoherent : M → Type 0
  IsCoherent cache =
      (input : List ℕ)
      → (lru.get cache input ≡ none)
        ⊎ ((value : List ℕ) × (lru.get cache input ≡ some value)
            × (version : ℕ) × (decode h value ≡ ok (input, version)))

  -- What an encoder promises: the cache stays coherent, and the text is read as the input, with the
  -- version if the text is new.
  unfoldable pub Encodes : M → List ℕ → ℕ → List ℕ × M → Type 0
  unfolding IsCoherent
  Encodes cache input version result =
      IsCoherent result.1
      × (found : ℕ) × (decode h result.0 ≡ ok (input, found))
      × ((found ≡ version) ⊎ (lru.get cache input ≡ some result.0))

module _ {M : Type 0} (h : Codec) (laws : CodecLaws h) (lru : Lru M) (lru_laws : LruLaws lru) where
  encode_as-Encodes :
      (is_new : Bool) (cache : M) (input : List ℕ) (version : ℕ)
      → All IsByte input
      → version < 256
      → IsCoherent h lru cache
      → Encodes h lru cache input version (encode_as h lru is_new cache input version)
  unfolding Encodes
  encode_as-Encodes is_new cache input version b v co = elim (co input) [
    | inr (value, e, found, d) ↦
        subst (Encodes h lru cache input version) (sym (hit value e)) (co, found, d, inr e)
    | inl e ↦ subst (Encodes h lru cache input version) (sym (missed e)) (
      λ j. kept j (
          Option-cases
            (lru.get (lru.add cache input (h.encode58 (checked h is_new input version))) j)),
      version,
      decode-checked h laws is_new input version b v,
      inl refl,
    )
  ]
    where
      hit :
          (value : List ℕ)
          → lru.get cache input ≡ some value
          → encode_as h lru is_new cache input version ≡ (value, cache)
      hit value e = rw (e, encode_as) refl

      missed :
          lru.get cache input ≡ none
          → encode_as h lru is_new cache input version ≡ (
            h.encode58 (checked h is_new input version),
            lru.add cache input (h.encode58 (checked h is_new input version)),
          )
      missed e = rw (e, encode_as) refl

      kept :
          (j : List ℕ)
          → (lru.get (lru.add cache input (h.encode58 (checked h is_new input version))) j ≡ none)
            ⊎ ((w : List ℕ) × (lru.get
                    (lru.add cache input (h.encode58 (checked h is_new input version)))
                    j
                  ≡ some w))
          → (lru.get (lru.add cache input (h.encode58 (checked h is_new input version))) j ≡ none)
            ⊎ ((w : List ℕ) × (lru.get
                    (lru.add cache input (h.encode58 (checked h is_new input version)))
                    j
                  ≡ some w)
                × (found : ℕ) × (decode h w ≡ ok (j, found)))
      kept j (inl n) = inl n
      kept j (inr (w, g)) =
          let read : (found : ℕ) × (decode h w ≡ ok (j, found)) =
            elim (lru_laws.get-add cache input _ j w g) [
              | inl (ej, ew) ↦
                  (version, rw (ej, ew) (decode-checked h laws is_new input version b v))
              | inr old ↦ elim (co j) [
                | inl n ↦ absurd (grind arith)
                | inr (w', g', found, d) ↦
                    (found, ap (decode h) (some_injective w w' (sym old ∙ g')) ∙ d)
              ]
            ] in
          inr (w, g, read.0, read.1)

  -- From a cache whose texts are read as the inputs that they are kept for, Encode and NewEncode of
  -- bytes give a text that Decode reads as the input, and a cache of the same kind. The version that
  -- is read is the one given, unless the text comes from the cache.
  pub encode-Encodes :
      (cache : M) (input : List ℕ) (version : ℕ)
      → All IsByte input
      → version < 256
      → IsCoherent h lru cache
      → Encodes h lru cache input version (encode h lru cache input version)
        × Encodes h lru cache input version (new_encode h lru cache input version)
  unfolding encode new_encode
  encode-Encodes cache input version b v co = (
    encode_as-Encodes (version == 1) cache input version b v co,
    encode_as-Encodes true cache input version b v co,
  )
