-- ===== src/Coin/V1/Retry.antt =====
-- CoinV1.SetBytes of coin/coin_v1.go, which guesses how long the length of the details is.
use go_incognito_sdk_v.Base.{
  ℕ, zero, suc, ◌+◌, ◌-◌, ◌/◌, ◌%◌, ◌≤◌, ◌<◌, ◌≡◌, refl, ap, sym, ◌∙◌, true, false, List, [], ◌∷◌,
  ◌++◌, Option, none, some, ltb, leb, ◌==◌, length, ok, err, All, length-append, take-append,
  drop-append, take_all, arith, Bool-cases, inl, inr,
}
use go_incognito_sdk_v.Base.Bytes.{IsByte, to_nat, of_nat-IsByte, fixed, fixed-to_nat}
use go_incognito_sdk_v.Common.{int_to_bytes, bytes_to_int}
use go_incognito_sdk_v.Common.Convert.{bytes_to_int-int_to_bytes}
use go_incognito_sdk_v.Crypto.{Curve}
use go_incognito_sdk_v.Hybrid
use go_incognito_sdk_v.Hybrid.{HybridCipherText}
use go_incognito_sdk_v.Hybrid.Decrypts.{set_bytes-bytes_parts}
use go_incognito_sdk_v.Coin.{Error, assign, parse_point_for_set_bytes}
use go_incognito_sdk_v.Coin.Fields.{kept_info}
use go_incognito_sdk_v.Coin.PlainV1
use go_incognito_sdk_v.Coin.PlainV1.{PlainCoinV1, new_plain_coin_v1, set_fields}
use go_incognito_sdk_v.Coin.PlainV1.RoundTrip.{
  IsPlain, read_value, bytes_bounds, set_bytes-bytes_plain,
}
use go_incognito_sdk_v.Coin.V1.{
  hybrid_cipher, cipher_object, CoinV1, Cipher, encrypted_field, details_field, bytes, read_long,
  try_two_bytes, retry, read_details, set_details, set_encrypted, set_bytes,
}

int_to_bytes-IsByte : (n : ℕ) → All IsByte (int_to_bytes n)
unfolding int_to_bytes
int_to_bytes-IsByte n = ground (arith, of_nat-IsByte n)

int_to_bytes-fixed : (n : ℕ) → n < 65536 → int_to_bytes n ≡ fixed 2 n
unfolding bytes_to_int
int_to_bytes-fixed n h =
    let (l, v) = bytes_to_int-int_to_bytes n h in
    let two : (length (int_to_bytes n) == 2) ≡ true = ground arith in
    let e : to_nat (int_to_bytes n) ≡ n = rw two at v in
    sym (fixed-to_nat (int_to_bytes n) 2 (int_to_bytes-IsByte n) l) ∙ ap (fixed 2) e

int_to_bytes_two : (n : ℕ) → 256 ≤ n → n < 512 → int_to_bytes n ≡ 1 ∷ (n - 256) ∷ []
unfolding fixed
int_to_bytes_two n lo hi =
    let a : n / 256 % 256 ≡ 1 = omega arith in
    let b : n % 256 ≡ n - 256 = omega arith in int_to_bytes-fixed n (omega arith) ∙ rw (a, b)

parse_point_of_one_byte :
    (c : Curve) (n : ℕ) → parse_point_for_set_bytes c (suc n ∷ []) ≡ err Error.out_of_range
unfolding parse_point_for_set_bytes
parse_point_of_one_byte c n = ground arith

-- A single byte is no plain coin, and the attempt leaves new details as they were.
one_byte_fails :
    (c : Curve) (x : ℕ)
    → (e : Error) × (PlainV1.set_bytes c new_plain_coin_v1 (x ∷ []) ≡ (new_plain_coin_v1, some e))
unfolding PlainV1.set_bytes PlainV1.set_fields
one_byte_fails c zero = (Error.offset_too_large, unfold parse_point_for_set_bytes in refl)
one_byte_fails c (suc n) = (Error.out_of_range, rw (parse_point_of_one_byte c n, assign))

abbrev kept : PlainCoinV1 → PlainCoinV1
kept s = record s { info = kept_info s.info }

read_new :
    (c : Curve) (s : PlainCoinV1)
    → IsPlain c s
    → PlainV1.set_bytes c new_plain_coin_v1 (PlainV1.bytes s) ≡ (kept s, none)
read_new c s h =
    set_bytes-bytes_plain c s new_plain_coin_v1 h
    ∙ ap (λ v. (record s { value = v; info = kept_info s.info }, none)) (value_read s.value)
  where
    value_read : (v : ℕ) → read_value 0 v ≡ v
    value_read zero = refl
    value_read (suc n) = ground arith

-- What is read of bytes with one length or the other, if new details take them.
set_details-details_field :
    {T : Type 0} (c : Curve) (co : CoinV1 T) (b : List ℕ) (d : PlainCoinV1)
    → 7 ≤ length b
    → length b ≤ 430
    → PlainV1.set_bytes c new_plain_coin_v1 b ≡ (d, none)
    → set_details c co (details_field b) ≡ (record co { coin_details = some d }, none)
unfolding set_details details_field read_details try_two_bytes read_long retry
set_details-details_field c co b d lo hi r =
    let fits : ltb (length b) (length b) ≡ false = ground arith in
    let z : (length b == 0) ≡ false = ground arith in
    elim (Bool-cases (leb (length b) 255)) [
      | inl short ↦
          let e : length b % 256 ≡ length b = ground arith in
          rw (short, e) (rw (z, fits) (rw (take_all (length b) b (omega arith), r)))
      | inr long ↦
          let two = int_to_bytes_two (length b) (ground arith) (omega arith) in
          let (e, fails) = one_byte_fails c (length b - 256) in
          let n : bytes_to_int (1 ∷ (length b - 256) ∷ []) ≡ length b =
            rw two at (bytes_to_int-int_to_bytes (length b) (omega arith)).1 in
          let one : ltb (length ((length b - 256) ∷ b)) 1 ≡ false = ground arith in
          rw (long, two)
            (rw (one, fails) (rw n (rw fits (rw (take_all (length b) b (omega arith), r)))))
    ]

module _ {T : Type 0} (c : Curve) (h : Cipher T) where
  -- Encrypted details that fit their length and are read back from their bytes.
  abbrev pub IsCipher : Option T → Type 0
  IsCipher none = Unit
  IsCipher (some t) =
      (0 < length (h.bytes t)) × (length (h.bytes t) < 256) × (h.set_bytes (h.bytes t) ≡ (t, none))

  -- Without encrypted details in the bytes the receiver keeps its own.
  abbrev pub read_encrypted : Option T → Option T → Option T
  read_encrypted old none = old
  read_encrypted old (some t) = some t

  set_bytes-encrypted_field :
      (old : CoinV1 T) (e : Option T) (b : List ℕ)
      → IsCipher e
      → set_bytes c h old (encrypted_field h e ++ b)
        ≡ set_details c
            (record old { coin_details_encrypted = read_encrypted old.coin_details_encrypted e })
            b
  unfolding set_bytes encrypted_field
  set_bytes-encrypted_field old none b i = refl
  set_bytes-encrypted_field old (some t) b i =
      let x = h.bytes t in
      let m : length x % 256 ≡ length x = omega (arith, i.1) in
      let pos : ltb 0 (length x) ≡ true = ground (arith, i.0) in
      let fits : ltb (length (x ++ b)) (length x) ≡ false = ground (arith, length-append x b) in
      rw m (
        rw (pos, fits)
          (rw (take-append (length x) x b refl, drop-append (length x) x b refl)
            (ap (set_encrypted c old b) i.2)))

  set_bytes-bytes_cipher :
      (old : CoinV1 T) (s : PlainCoinV1) (e : Option T)
      → IsPlain c s
      → IsCipher e
      → (b : List ℕ) × (bytes h (record { coin_details = some s; coin_details_encrypted = e })
          ≡ ok b)
        × (set_bytes c h old b ≡ (
          record {
            coin_details = some (record s { info = kept_info s.info });
            coin_details_encrypted = read_encrypted old.coin_details_encrypted e;
          },
          none,
        ))
  unfolding bytes
  set_bytes-bytes_cipher old s e hs he =
      let (lo, hi) = bytes_bounds c s hs in
      (
        encrypted_field h e ++ details_field (PlainV1.bytes s),
        refl,
        set_bytes-encrypted_field old e _ he
            ∙ set_details-details_field c _ (PlainV1.bytes s) _ lo hi (read_new c s hs),
      )

-- Encrypted details with a key of 64 bytes and a message of 1 to 191 bytes
abbrev pub IsShort : Option HybridCipherText → Type 0
IsShort none = Unit
IsShort (some t) =
    (length t.sym_key_encrypted ≡ 64)
    × (0 < length t.msg_encrypted)
    × (length t.msg_encrypted < 192)

length-bytes_hybrid :
    (t : HybridCipherText)
    → Hybrid.is_nil t ≡ false
    → length (Hybrid.bytes t) ≡ length t.sym_key_encrypted + length t.msg_encrypted
unfolding Hybrid.bytes
length-bytes_hybrid t e = rw e (length-append t.sym_key_encrypted t.msg_encrypted)

IsShort-IsCipher :
    (c : Curve) (e : Option HybridCipherText) → IsShort e → IsCipher c hybrid_cipher e
IsShort-IsCipher c none h = tt
IsShort-IsCipher c (some t) h =
    let (round, n) = set_bytes-bytes_parts t.msg_encrypted t.sym_key_encrypted h.1 h.0 in
    let l = length-bytes_hybrid t n in
    (omega (arith, l, h.0, h.1), omega (arith, l, h.0, h.2), ap cipher_object round)

-- SetBytes reads back what Bytes wrote of a coin with a sound plain coin inside, whether its details
-- are written with a length of one byte or of two: the details with the first 255 bytes of their info,
-- and the encrypted details if there are any, with a key of 64 bytes and a message of 1 to 191 bytes.
-- Without encrypted details in the bytes the receiver keeps those that it held.
pub set_bytes-bytes_v1 :
    (c : Curve) (old : CoinV1 HybridCipherText) (s : PlainCoinV1) (e : Option HybridCipherText)
    → IsPlain c s
    → IsShort e
    → (b : List ℕ) × (bytes hybrid_cipher
          (record { coin_details = some s; coin_details_encrypted = e })
        ≡ ok b)
      × (set_bytes c hybrid_cipher old b ≡ (
        record {
          coin_details = some (record s { info = kept_info s.info });
          coin_details_encrypted = read_encrypted c hybrid_cipher old.coin_details_encrypted e;
        },
        none,
      ))
set_bytes-bytes_v1 c old s e hs he =
    set_bytes-bytes_cipher c hybrid_cipher old s e hs (IsShort-IsCipher c e he)
