-- ===== src/Common/Hash/Text.antt =====
-- Decode and String of common/hash.go.
use go_incognito_sdk_v.Base.{
  ℕ, ◌+◌, ◌-◌, ◌*◌, ◌/◌, ◌%◌, ◌≤◌, ◌<◌, ◌≡◌, refl, ap, ◌∙◌, true, false, List, [], ◌∷◌, ◌++◌, some,
  ltb, ◌==◌, length, replicate, reverse, ok, err, All, arith, append-nil, length-reverse,
  reverse-replicate,
}
use mathlib.Core.List.{reverse-append, reverse-reverse}
use go_incognito_sdk_v.Base.Bytes.{IsByte, reverse-IsByte}
use go_incognito_sdk_v.Common.Hash.{
  hash_size, hex_digit, from_hex_char, encode_to_string, decode_string, string, decode,
  invalid_max_hash_size,
}

hex_digit_back : (d : ℕ) → d < 16 → from_hex_char (hex_digit d) ≡ some d
hex_digit_back d h = ground arith

pub length-encode_to_string : (bs : List ℕ) → length (encode_to_string bs) ≡ 2 * length bs
unfolding encode_to_string
length-encode_to_string [] = omega arith
length-encode_to_string (b ∷ bs) = omega (arith, length-encode_to_string bs)

pub decode_string-encode_to_string :
    (bs : List ℕ) → All IsByte bs → decode_string (encode_to_string bs) ≡ ok bs
unfolding encode_to_string decode_string
decode_string-encode_to_string [] h = refl
decode_string-encode_to_string (b ∷ bs) h =
    let e : b / 16 * 16 + b % 16 ≡ b = omega arith in
    rw (
      hex_digit_back (b / 16) (omega (arith, h.0)),
      hex_digit_back (b % 16) (omega arith),
      decode_string-encode_to_string bs h.1,
      e,
    )

-- A text of at most 64 digits that writes whole bytes is the byte-reversed hash, padded with zeros
-- at its end.
pub decode-encode_to_string :
    (bs : List ℕ)
    → All IsByte bs
    → length bs ≤ hash_size
    → decode (encode_to_string bs) ≡ ok (reverse bs ++ replicate (hash_size - length bs) 0)
unfolding decode
decode-encode_to_string bs h l =
    let n = length-encode_to_string bs in
    let fits : ltb 64 (length (encode_to_string bs)) ≡ false = ground arith in
    let even : (length (encode_to_string bs) % 2 == 0) ≡ true = ground arith in
    rw (fits, even, decode_string-encode_to_string bs h)
      (rw reverse-append (rw (reverse-replicate {A = ℕ})))

-- `decode` reads back the text that `string` writes of a hash.
pub decode-string :
    (hash : List ℕ) → All IsByte hash → length hash ≡ hash_size → decode (string hash) ≡ ok hash
unfolding string
decode-string hash h l =
    let n : length (reverse hash) ≡ 32 = omega (arith, length-reverse hash) in
    decode-encode_to_string (reverse hash) (reverse-IsByte hash h) (omega arith)
    ∙ rw (n, reverse-reverse) (ap ok (append-nil hash))

-- Two hashes with the same text are the same.
pub string_injective :
    (a b : List ℕ)
    → All IsByte a
    → All IsByte b
    → length a ≡ hash_size
    → length b ≡ hash_size
    → string a ≡ string b
    → a ≡ b
string_injective a b ha hb la lb e = cc (decode-string a ha la, decode-string b hb lb)

-- A text of more than 64 digits is refused, whatever it holds.
pub decode_too_long : (src : List ℕ) → 64 < length src → decode src ≡ err invalid_max_hash_size
unfolding decode
decode_too_long src h = ground arith
