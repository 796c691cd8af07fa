-- ===== src/Coin/V1.antt =====
-- coin/coin_v1.go: CoinV1, the output coin of version 1. The encrypted details are a value of the
-- hybrid encryption of privacy/v1, with its Bytes and SetBytes.
pub mod Retry
pub mod Secret
use go_incognito_sdk_v.Base.{
  ℕ, zero, suc, ◌+◌, ◌-◌, ◌%◌, ◌^◌, ◌≤◌, ◌<◌, Bool, true, false, not, List, [], ◌∷◌, ◌++◌, Option,
  none, some, ltb, leb, ◌==◌, if◌then◌else◌, length, take, drop, Result, ok, err, ◌>>=◌,
}
use go_incognito_sdk_v.Common.{int_to_bytes, bytes_to_int}
use go_incognito_sdk_v.Crypto.{Curve}
use go_incognito_sdk_v.Hybrid
use go_incognito_sdk_v.Hybrid.{HybridCipherText}
use go_incognito_sdk_v.Coin.{Error, empty, out_of_range, panic, bad_cipher}
use go_incognito_sdk_v.Coin.PlainV1
use go_incognito_sdk_v.Coin.PlainV1.{PlainCoinV1, new_plain_coin_v1}

pub record CoinV1 (T : Type 0) : Type 0 where
  pub coin_details : Option PlainCoinV1
  pub coin_details_encrypted : Option T

-- The operations of HybridCipherText: SetBytes gives the object after the call and the error.
pub record Cipher (T : Type 0) : Type 0 where
  pub bytes : T → List ℕ
  pub set_bytes : List ℕ → T × Option Error

-- HybridCipherText with its Bytes and SetBytes; a new object is empty, and an error leaves it so.
abbrev pub cipher_object : Result Hybrid.Error HybridCipherText → HybridCipherText × Option Error
cipher_object (ok t) = (t, none)
cipher_object (err e) = (record { msg_encrypted = []; sym_key_encrypted = [] }, some (bad_cipher e))

abbrev pub hybrid_cipher : Cipher HybridCipherText
hybrid_cipher = record { bytes = Hybrid.bytes; set_bytes = λ b. cipher_object (Hybrid.set_bytes b) }

unfoldable pub encrypted_field : {T : Type 0} → Cipher T → Option T → List ℕ
encrypted_field h none = 0 ∷ []
encrypted_field h (some t) = (length (h.bytes t) % 256) ∷ h.bytes t

-- The length in one byte, or in what IntToBytes makes of it.
unfoldable pub details_field : List ℕ → List ℕ
details_field b =
    (if leb (length b) 255 then (length b % 256) ∷ [] else int_to_bytes (length b)) ++ b

-- CoinV1.Bytes; nil details panic.
unfoldable pub bytes : {T : Type 0} → Cipher T → CoinV1 T → Result Error (List ℕ)
bytes h co = elim co.coin_details [
  | none ↦ err panic
  | some d ↦ ok (encrypted_field h co.coin_details_encrypted ++ details_field (PlainV1.bytes d))
]

-- A second attempt, with a length of two bytes, on the details that the first one left.
unfoldable pub read_long : Curve → PlainCoinV1 → ℕ → List ℕ → PlainCoinV1 × Option Error
read_long c d n rest =
    if ltb (length rest) n then (d, some out_of_range) else PlainV1.set_bytes c d (take n rest)

-- The length is that of its first byte `l` and the byte that follows.
unfoldable pub try_two_bytes : Curve → PlainCoinV1 → ℕ → List ℕ → PlainCoinV1 × Option Error
unfolding read_long
try_two_bytes c d l [] = (d, some out_of_range)
try_two_bytes c d l (l' ∷ rest) = read_long c d (bytes_to_int (l ∷ l' ∷ [])) rest

unfoldable pub retry : Curve → ℕ → List ℕ → PlainCoinV1 × Option Error → PlainCoinV1 × Option Error
retry c l rest (d, none) = (d, none)
retry c l rest (d, some e) = try_two_bytes c d l rest

-- The details behind the encrypted ones; `l` is the first byte of their length.
unfoldable pub read_details : Curve → ℕ → List ℕ → PlainCoinV1 × Option Error
read_details c l rest =
    if l == 0
    then try_two_bytes c new_plain_coin_v1 0 rest
    else if ltb (length rest) l
    then (new_plain_coin_v1, some out_of_range)
    else retry c l rest (PlainV1.set_bytes c new_plain_coin_v1 (take l rest))

unfoldable pub set_details : {T : Type 0} → Curve → CoinV1 T → List ℕ → CoinV1 T × Option Error
set_details c co [] = (co, some out_of_range)
set_details c co (l ∷ rest) =
    let r = read_details c l rest in (record co { coin_details = some r.0 }, r.1)

abbrev pub set_encrypted :
    {T : Type 0} → Curve → CoinV1 T → List ℕ → T × Option Error → CoinV1 T × Option Error
set_encrypted c co rest (t, some e) = (record co { coin_details_encrypted = some t }, some e)
set_encrypted c co rest (t, none) =
    set_details c (record co { coin_details_encrypted = some t }) rest

-- CoinV1.SetBytes: the coin after the call, and the error.
unfoldable pub set_bytes :
    {T : Type 0} → Curve → Cipher T → CoinV1 T → List ℕ → CoinV1 T × Option Error
set_bytes c h co [] = (co, some empty)
set_bytes c h co (n ∷ b) =
    if ltb 0 n
    then (if ltb (length b) n
        then (co, some out_of_range)
        else set_encrypted c co (drop n b) (h.set_bytes (take n b)))
    else set_details c co b
