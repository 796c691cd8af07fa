-- ===== src/Coin/PlainV1/RoundTrip.antt =====
-- PlainCoinV1.SetBytes after PlainCoinV1.Bytes, of coin/coin_v1.go.
use go_incognito_sdk_v.Base.{
  ℕ, zero, suc, ◌%◌, ◌^◌, ◌≤◌, ◌<◌, ◌≡◌, refl, ◌∙◌, true, false, List, [], ◌∷◌, ◌++◌, Option, none,
  some, ltb, ◌==◌, if◌then◌else◌, length, ok, length-append, take-append, drop-append, append-nil,
  arith, length-take,
}
use go_incognito_sdk_v.Base.Bytes.{IsU64, to_nat, of_nat, to_nat-of_nat, length-of_nat, of_nat_pos}
use go_incognito_sdk_v.Crypto.{Key, Curve}
use go_incognito_sdk_v.Coin.{
  Step, ◌>>◌, key_field, info_field, assign, finish, parse_info_for_set_bytes,
}
use go_incognito_sdk_v.Coin.Fields.{
  IsScalarField, IsPointField, kept_info, parse_scalar_key_field, parse_point_key_field,
  parse_info_field, info_field_lem,
}
use go_incognito_sdk_v.Coin.PlainV1.{
  PlainCoinV1, value_field, bytes, value_step, set_fields, set_bytes,
}

-- A plain coin whose points are points, whose scalars have 32 bytes and whose value is a uint64.
pub record IsPlain (c : Curve) (s : PlainCoinV1) : Type 0 where
  pub public_key : IsPointField c s.public_key
  pub commitment : IsPointField c s.commitment
  pub sn_derivator : IsScalarField s.sn_derivator
  pub serial_number : IsPointField c s.serial_number
  pub randomness : IsScalarField s.randomness
  pub value : IsU64 s.value

-- The value that a coin with the value `old` has after reading the value `v`.
abbrev pub read_value : ℕ → ℕ → ℕ
read_value old v = if ltb 0 v then v else old

read_value_bytes :
    (s : PlainCoinV1) (b rest : List ℕ)
    → (length b == 0) ≡ false
    → value_step s (length b ∷ (b ++ rest)) ≡ (record s { value = to_nat b % 2 ^ 64 }, ok rest)
unfolding value_step
read_value_bytes s b rest z =
    let fits : ltb (length (b ++ rest)) (length b) ≡ false = ground (arith, length-append b rest) in
    rw (z, fits) (rw (take-append (length b) b rest refl, drop-append (length b) b rest refl))

value_step_lem :
    (s : PlainCoinV1) (v : ℕ) (k : Step PlainCoinV1) (rest : List ℕ)
    → IsU64 v
    → (value_step >> k) s (value_field v ++ rest)
      ≡ k (record s { value = read_value s.value v }) rest
unfolding value_field
value_step_lem s zero k rest h = unfold value_step in refl
value_step_lem s (suc n) k rest h =
    let v = suc n in
    let l = length-of_nat 8 v (omega arith) in
    let p = of_nat_pos v (omega arith) in
    let e : length (of_nat v) % 256 ≡ length (of_nat v) = omega (arith, l) in
    let z : (length (of_nat v) == 0) ≡ false = ground (arith, p) in
    let m : v % 2 ^ 64 ≡ v = omega (arith, h) in
    let pos : ltb 0 v ≡ true = ground arith in
    let step = read_value_bytes s (of_nat v) rest z in
    rw (pos, e) (rw step (rw (to_nat-of_nat v, m)))

parse_last_info :
    (info : List ℕ) → parse_info_for_set_bytes (info_field info) ≡ ok (kept_info info, [])
parse_last_info info = rw append-nil at (parse_info_field info [])

-- What SetBytes makes of the bytes of `s` in the coin `old`.
abbrev pub restored : PlainCoinV1 → PlainCoinV1 → PlainCoinV1
restored old s = record s { value = read_value old.value s.value; info = kept_info s.info }

set_fields-bytes :
    (c : Curve) (s old : PlainCoinV1)
    → IsPlain c s
    → finish (set_fields c old (bytes s)) ≡ (restored old s, none)
unfolding bytes set_fields
set_fields-bytes c s old h =
    rw (parse_point_key_field c s.public_key _ h.public_key, assign)
      (rw (parse_point_key_field c s.commitment _ h.commitment, assign)
        (rw (parse_scalar_key_field s.sn_derivator _ h.sn_derivator, assign)
          (rw (parse_point_key_field c s.serial_number _ h.serial_number, assign)
            (rw (parse_scalar_key_field s.randomness _ h.randomness, assign)
              (rw (value_step_lem _ s.value _ (info_field s.info) h.value)
                (rw (parse_last_info s.info, assign)))))))

module _ (c : Curve) where
  point_field_bounds :
      (o : Option Key) → IsPointField c o → (1 ≤ length (key_field o)) × (length (key_field o) ≤ 33)
  unfolding key_field
  point_field_bounds none h = (omega arith, omega arith)
  point_field_bounds (some k) h = (omega arith, omega (arith, h.0))

  scalar_field_bounds :
      (o : Option Key) → IsScalarField o → (1 ≤ length (key_field o)) × (length (key_field o) ≤ 33)
  unfolding key_field
  scalar_field_bounds none h = (omega arith, omega arith)
  scalar_field_bounds (some k) h = (omega arith, omega (arith, h))

  value_field_bounds :
      (v : ℕ) → IsU64 v → (1 ≤ length (value_field v)) × (length (value_field v) ≤ 9)
  unfolding value_field
  value_field_bounds zero h = (omega arith, omega arith)
  value_field_bounds (suc n) h =
      let l = length-of_nat 8 (suc n) (omega arith) in
      let pos : ltb 0 (suc n) ≡ true = ground arith in rw pos (omega arith, omega (arith, l))

  info_field_bounds :
      (info : List ℕ) → (1 ≤ length (info_field info)) × (length (info_field info) ≤ 256)
  info_field_bounds info = rw info_field_lem (omega arith, omega (arith, length-take 255 info))

  -- The bytes of a plain coin are at least seven and at most 430.
  pub bytes_bounds :
      (s : PlainCoinV1) → IsPlain c s → (7 ≤ length (bytes s)) × (length (bytes s) ≤ 430)
  unfolding bytes
  bytes_bounds s h =
      let a = point_field_bounds s.public_key h.public_key in
      let b = point_field_bounds s.commitment h.commitment in
      let d = scalar_field_bounds s.sn_derivator h.sn_derivator in
      let e = point_field_bounds s.serial_number h.serial_number in
      let f = scalar_field_bounds s.randomness h.randomness in
      let v = value_field_bounds s.value h.value in
      let i = info_field_bounds s.info in
      rw (length-append, length-append, length-append, length-append, length-append, length-append)
        (
          omega (arith, a.0, b.0, d.0, e.0, f.0, v.0, i.0),
          omega (arith, a.1, b.1, d.1, e.1, f.1, v.1, i.1),
        )

set_bytes-cons :
    (c : Curve) (s : PlainCoinV1) (b : List ℕ)
    → 0 < length b
    → set_bytes c s b ≡ finish (set_fields c s b)
unfolding set_bytes
set_bytes-cons c s [] h = absurd (omega arith)
set_bytes-cons c s (x ∷ b) h = refl

-- SetBytes reads back what Bytes wrote of a plain coin of version 1, with the first 255 bytes of its
-- info. A value of 0 is not written over: a coin that held a value keeps it.
pub set_bytes-bytes_plain :
    (c : Curve) (s old : PlainCoinV1)
    → IsPlain c s
    → set_bytes c old (bytes s)
      ≡ (record s { value = read_value old.value s.value; info = kept_info s.info }, none)
set_bytes-bytes_plain c s old h =
    set_bytes-cons c old (bytes s) (omega (arith, (bytes_bounds c s h).0))
    ∙ set_fields-bytes c s old h
