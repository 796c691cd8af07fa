-- ===== src/Client/Pack/Unpack.antt =====
-- coinParams.SetBytes after coinParams.Bytes, of incclient/tx_utils.go.
use go_incognito_sdk_v.Base.{
  ℕ, ◌%◌, ◌^◌, ◌<◌, ◌≡◌, refl, true, false, List, [], ◌∷◌, ◌++◌, map, ltb, ◌==◌, if◌then◌else◌,
  length, take-append, drop-append, length-append, length-map, append_assoc, append-nil, Result, ok,
  All, arith, Bool-cases, inl, inr,
}
use go_incognito_sdk_v.Common.{int_to_bytes}
use go_incognito_sdk_v.Common.Convert.{bytes_to_int-int_to_bytes, int_to_bytes_overflow}
use go_incognito_sdk_v.Client.Pack.{
  Error, CoinParams, sized, idx_bytes, sized_all, bytes, read_sized, read_all, parse_idx,
  read_indices, set_bytes,
}

-- `decoded` is what `parse` makes of the bytes of a value, which are few enough for their length.
pub record IsWritten {B : Type 0} (encode : B → List ℕ) (parse : List ℕ → Result Error B)
    (decoded : B → B) (x : B) : Type 0 where
  pub short : length (encode x) < 256
  pub parses : parse (encode x) ≡ ok (decoded x)

module _ {B : Type 0} (encode : B → List ℕ) (parse : List ℕ → Result Error B)
    (decoded : B → B) where
  read_sized-sized :
      (x : B) (rest : List ℕ)
      → IsWritten encode parse decoded x
      → read_sized parse (sized (encode x) ++ rest) ≡ ok (decoded x, rest)
  unfolding read_sized sized
  read_sized-sized x rest h =
      let e : length (encode x) % 256 ≡ length (encode x) = omega (arith, h.short) in
      let fits : ltb (length (encode x ++ rest)) (length (encode x)) ≡ false =
        ground (arith, length-append (encode x) rest) in
      rw
        (
          e,
          fits,
          take-append (length (encode x)) (encode x) rest refl,
          drop-append (length (encode x)) (encode x) rest refl,
        )
        (rw h.parses)

  read_all-sized_all :
      (xs : List B) (rest : List ℕ)
      → All (IsWritten encode parse decoded) xs
      → read_all parse (length xs) (sized_all encode xs ++ rest) ≡ ok (map decoded xs, rest)
  unfolding read_all sized_all
  read_all-sized_all [] rest h = refl
  read_all-sized_all (x ∷ xs) rest h =
      rw (append_assoc (sized (encode x)) (sized_all encode xs) rest) (
        rw (read_sized-sized x (sized_all encode xs ++ rest) h.0)
          (rw (read_all-sized_all xs rest h.1)))

-- An index that fits in two bytes is kept, and any other becomes 0.
abbrev pub kept_idx : ℕ → ℕ
kept_idx i = if ltb i 65536 then i else 0

abbrev pub IsIdx : ℕ → Type 0
IsIdx i = i < 2 ^ 63

length-int_to_bytes : (n : ℕ) → length (int_to_bytes n) < 256
length-int_to_bytes n = elim (Bool-cases (ltb n 65536)) [
  | inl small ↦ omega (arith, (bytes_to_int-int_to_bytes n (ground arith)).0)
  | inr large ↦ rw (int_to_bytes_overflow n (ground arith)).0 (omega arith)
]

idx-IsWritten : (i : ℕ) → IsIdx i → IsWritten idx_bytes parse_idx kept_idx i
unfolding idx_bytes
idx-IsWritten i h =
    let small : ltb i (2 ^ 63) ≡ true = ground arith in
    record {
      short = rw small (length-int_to_bytes i);
      parses = rw small (elim (Bool-cases (ltb i 65536)) [
        | inl e ↦ rw (e, (bytes_to_int-int_to_bytes i (ground arith)).1)
        | inr e ↦ rw (e, (int_to_bytes_overflow i (ground arith)).1)
      ]);
    }

all_idx-IsWritten : (is : List ℕ) → All IsIdx is → All (IsWritten idx_bytes parse_idx kept_idx) is
all_idx-IsWritten [] h = tt
all_idx-IsWritten (i ∷ is) h = (idx-IsWritten i h.0, all_idx-IsWritten is h.1)

module _ {A : Type 0} (coin_bytes : A → List ℕ) (coin_of_bytes : List ℕ → Result Error A)
    (restored : A → A) where
  -- At most 255 coins, each in at most 255 bytes, with as many indices.
  pub record IsPacked (cp : CoinParams A) : Type 0 where
    pub some_coins : 0 < length cp.coin_list
    pub few : length cp.coin_list < 256
    pub coins : All (IsWritten coin_bytes coin_of_bytes restored) cp.coin_list
    pub indices : All IsIdx cp.idx_list
    pub matching : length cp.idx_list ≡ length cp.coin_list

  read_indices-sized_all :
      (old : CoinParams A) (coins : List A) (idx : List ℕ)
      → 0 < length idx
      → length idx < 256
      → length idx ≡ length coins
      → All IsIdx idx
      → read_indices old coins (length idx ∷ sized_all idx_bytes idx)
        ≡ ok (record { coin_list = coins; idx_list = map kept_idx idx })
  unfolding read_indices
  read_indices-sized_all old coins idx pos few l h =
      let r = read_all-sized_all idx_bytes parse_idx kept_idx idx [] (all_idx-IsWritten idx h) in
      let n : (length idx == 0) ≡ false = ground arith in
      let r' : read_all parse_idx (length idx) (sized_all idx_bytes idx)
          ≡ ok (map kept_idx idx, []) =
        rw append-nil at r in
      let m : length (map kept_idx idx) ≡ length idx = length-map idx kept_idx in
      let ne : (length (map kept_idx idx) == length coins) ≡ true = ground arith in
      rw (n, r') (rw ne (ground arith))

  -- For 1 to 255 coins, each written in at most 255 bytes that are read back as `restored` says, and
  -- with as many indices, all below 2 ^ 63: SetBytes of what Bytes wrote gives the restored coins and
  -- the indices, those below 2 ^ 16 as they were, and a larger one as 0.
  pub set_bytes-bytes_params :
      (old cp : CoinParams A)
      → IsPacked cp
      → set_bytes coin_of_bytes old (bytes coin_bytes cp)
        ≡ ok (record { coin_list = map restored cp.coin_list; idx_list = map kept_idx cp.idx_list })
  unfolding set_bytes bytes
  set_bytes-bytes_params old cp h =
      let n : (length cp.coin_list == 0) ≡ false = ground (arith, h.some_coins) in
      let e : length cp.coin_list % 256 ≡ length cp.coin_list = omega (arith, h.few) in
      let i : length cp.idx_list % 256 ≡ length cp.idx_list = omega (arith, h.few, h.matching) in
      let m : length (map restored cp.coin_list) ≡ length cp.coin_list =
        length-map cp.coin_list restored in
      rw (n, e, i)
        (rw (read_all-sized_all coin_bytes coin_of_bytes restored cp.coin_list _ h.coins) (
          read_indices-sized_all old (map restored cp.coin_list) cp.idx_list
            (omega (arith, h.some_coins, h.matching)) (omega (arith, h.few, h.matching))
            (omega (arith, h.matching)) h.indices))
