-- ===== src/Mlsag/Bytes.antt =====
-- ToBytes and FromBytes of privacy/v2/mlsag/mlsag_signature.go. The parts of a signature may be nil,
-- which is `none`; their keys are not.
pub mod RoundTrip
use go_incognito_sdk_v.Base.{
  ℕ, zero, suc, ◌+◌, ◌-◌, ◌%◌, ◌≤◌, ◌<◌, ◌≡◌, Bool, true, false, not, ◌||◌, List, [], ◌∷◌, ◌++◌,
  Option, none, some, ltb, ◌==◌, if◌then◌else◌, length, take, drop, Result, ok, err, ◌>>=◌, ◌>>◌,
  fail_if,
}
use go_incognito_sdk_v.Crypto.{Key, Curve, point_from_bytes, scalar_from_bytes}

pub data Error : Type 0 where
  too_large broken wrong_size too_small invalid_scalar invalid_point empty_bytes wrong_prefix
        panic :
      Error

-- Sig, with its fields as they may be
pub record SigFields : Type 0 where
  pub c : Option Key
  pub key_images : Option (List Key)
  pub r : Option (List (List Key))

abbrev pub sig_prefix : ℕ
sig_prefix = 2

unfoldable pub join : List Key → List ℕ
join [] = []
join (k ∷ ks) = k ++ join ks

unfoldable pub c_bytes : Option Key → List ℕ
c_bytes none = 0 ∷ []
c_bytes (some k) = 32 ∷ k

unfoldable pub image_bytes : Option (List Key) → Result Error (List ℕ)
unfolding join
image_bytes none = ok (0 ∷ [])
image_bytes (some ks) = do fail_if (ltb 255 (length ks)) too_large; ok ((length ks % 256) ∷ join ks)

-- The rows from one on, which have to be `m` long.
unfoldable pub row_bytes : ℕ → List (List Key) → Result Error (List ℕ)
unfolding join
row_bytes m [] = ok []
row_bytes m (row ∷ rows) = do
  fail_if (not (m == length row)) broken
  rest ← row_bytes m rows
  ok (join row ++ rest)

unfoldable pub r_bytes : Option (List (List Key)) → Result Error (List ℕ)
r_bytes none = ok (0 ∷ 0 ∷ [])
r_bytes (some []) = ok (0 ∷ 0 ∷ [])
r_bytes (some (row ∷ rows)) = do
  fail_if (ltb 255 (suc (length rows)) || ltb 255 (length row)) too_large
  b ← row_bytes (length row) (row ∷ rows)
  ok ((suc (length rows) % 256) ∷ (length row % 256) ∷ b)

unfoldable pub to_bytes : SigFields → Result Error (List ℕ)
to_bytes s = do
  images ← image_bytes s.key_images
  r ← r_bytes s.r
  ok (sig_prefix ∷ (c_bytes s.c ++ (images ++ r)))

-- One point of the key images.
abbrev pub read_point : Curve → List ℕ → Result Error Key
read_point c b = elim (point_from_bytes c b) [ ok p ↦ ok p | err e ↦ err invalid_point ]

-- One scalar of a signature.
abbrev pub read_scalar : Curve → List ℕ → Result Error Key
read_scalar c b =
    if c.sc_valid (scalar_from_bytes b) then ok (scalar_from_bytes b) else err invalid_scalar

module _ (read : List ℕ → Result Error Key) where
  -- `n` keys from the front, and what is left.
  unfoldable pub read_keys : ℕ → List ℕ → Result Error (List Key × List ℕ)
  read_keys zero b = ok ([], b)
  read_keys (suc n) b = do
    fail_if (ltb (length b) 32) too_small
    k ← read (take 32 b)
    rest ← read_keys n (drop 32 b)
    ok (k ∷ rest.0, rest.1)

  -- `n` rows of `m` keys.
  unfoldable pub read_rows : ℕ → ℕ → List ℕ → Result Error (List (List Key) × List ℕ)
  read_rows zero m b = ok ([], b)
  read_rows (suc n) m b = do
    row ← read_keys m b
    rest ← read_rows n m row.1
    ok (row.0 ∷ rest.0, rest.1)

-- The length and the keys of the key images, and R, from the bytes behind C.
unfoldable pub read_r : Curve → List ℕ → Result Error (List (List Key))
read_r c (n ∷ m ∷ b) = do rows ← read_rows (read_scalar c) n m b; ok rows.0
read_r c b = err too_small

unfoldable pub read_images : Curve → List ℕ → Result Error (List Key × List ℕ)
read_images c [] = err too_small
read_images c (n ∷ b) = read_keys (read_point c) n b

-- A signature of one byte is read at place 1, behind its end.
unfoldable pub from_bytes : Curve → List ℕ → Result Error SigFields
from_bytes c [] = err empty_bytes
from_bytes c (p ∷ []) = if p == sig_prefix then err panic else err wrong_prefix
from_bytes c (p ∷ size ∷ b) = do
  fail_if (not (p == sig_prefix)) wrong_prefix
  fail_if (not (size == 32)) wrong_size
  fail_if (ltb (length b) 32) too_small
  k ← read_scalar c (take 32 b)
  images ← read_images c (drop 32 b)
  r ← read_r c images.1
  ok (record { c = some k; key_images = some images.0; r = some r })
