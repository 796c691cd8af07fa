-- ===== src/Client/Pack.antt =====
-- incclient/tx_utils.go: coinParams, the coins of a transaction with their indices, as bytes. The
-- bytes of a coin and NewPlainCoinFromByte are arguments.
pub mod Unpack
use go_incognito_sdk_v.Base.{
  ℕ, zero, suc, ◌+◌, ◌-◌, ◌%◌, ◌^◌, ◌≤◌, ◌<◌, Bool, true, false, not, ◌&&◌, List, [], ◌∷◌, ◌++◌,
  ltb, ◌==◌, if◌then◌else◌, length, take, drop, Result, ok, err, ◌>>=◌,
}
use go_incognito_sdk_v.Common.{int_to_bytes, bytes_to_int}

pub data Error : Type 0 where
  no_data out_of_range bad_coin length_mismatch : Error

pub record CoinParams (A : Type 0) : Type 0 where
  pub coin_list : List A
  pub idx_list : List ℕ

-- `byte(len(b))` and the bytes
unfoldable pub sized : List ℕ → List ℕ
sized b = (length b % 256) ∷ b

-- `int(idx)` is negative from 2 ^ 63 on, and IntToBytes forgets the sign.
unfoldable pub idx_bytes : ℕ → List ℕ
idx_bytes idx = int_to_bytes (if ltb idx (2 ^ 63) then idx else 2 ^ 64 - idx)

unfoldable pub sized_all : {B : Type 0} → (B → List ℕ) → List B → List ℕ
sized_all encode [] = []
sized_all encode (x ∷ xs) = sized (encode x) ++ sized_all encode xs

-- coinParams.Bytes: nil without coins
unfoldable pub bytes : {A : Type 0} → (A → List ℕ) → CoinParams A → List ℕ
bytes coin_bytes cp =
    if length cp.coin_list == 0
    then []
    else (length cp.coin_list % 256)
      ∷ (sized_all coin_bytes cp.coin_list
          ++ ((length cp.idx_list % 256) ∷ sized_all idx_bytes cp.idx_list))

-- One round of the loops of SetBytes: a length, as many bytes, and what they stand for.
unfoldable pub read_sized :
    {B : Type 0} → (List ℕ → Result Error B) → List ℕ → Result Error (B × List ℕ)
read_sized parse [] = err out_of_range
read_sized parse (len ∷ b) =
    if ltb (length b) len then err out_of_range else do x ← parse (take len b); ok (x, drop len b)

unfoldable pub read_all :
    {B : Type 0} → (List ℕ → Result Error B) → ℕ → List ℕ → Result Error (List B × List ℕ)
read_all parse zero b = ok ([], b)
read_all parse (suc n) b = do
  (x, rest) ← read_sized parse b
  (xs, rest') ← read_all parse n rest
  ok (x ∷ xs, rest')

abbrev pub parse_idx : List ℕ → Result Error ℕ
parse_idx b = ok (bytes_to_int b)

abbrev pub matched : {A : Type 0} → List A → List ℕ → Result Error (CoinParams A)
matched coins idx =
    if ltb 0 (length idx) && not (length idx == length coins)
    then err length_mismatch
    else ok (record { coin_list = coins; idx_list = idx })

unfoldable pub read_indices :
    {A : Type 0} → CoinParams A → List A → List ℕ → Result Error (CoinParams A)
read_indices old coins [] = err out_of_range
read_indices old coins (n ∷ b) =
    if n == 0
    then ok (record { coin_list = coins; idx_list = old.idx_list })
    else do (idx, rest) ← read_all parse_idx n b; matched coins idx

-- coinParams.SetBytes: the receiver after a call that succeeds. What it holds after a failure is not
-- modelled. Without indices in the data it keeps the ones that it had.
unfoldable pub set_bytes :
    {A : Type 0} → (List ℕ → Result Error A) → CoinParams A → List ℕ → Result Error (CoinParams A)
set_bytes coin_of_bytes old [] = err no_data
set_bytes coin_of_bytes old (n ∷ b) = do
  (coins, rest) ← read_all coin_of_bytes n b
  read_indices old coins rest
