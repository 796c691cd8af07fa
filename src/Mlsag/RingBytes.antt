-- ===== src/Mlsag/RingBytes.antt =====
-- ToBytes and FromBytes of a ring, of privacy/v2/mlsag/mlsag.go.
use native.Mathlib.Nat.{add-mul}
use go_incognito_sdk_v.Base.{
  ℕ, suc, ◌+◌, ◌*◌, ◌%◌, ◌≤◌, ◌≡◌, refl, sym, ap, ◌∙◌, true, false, not, ◌||◌, List, [], ◌∷◌, ◌++◌,
  ltb, ◌==◌, length, Result, ok, err, ◌>>=◌, ◌>>◌, fail_if, All, arith, length-append, append-nil,
  ok_injective,
}
use go_incognito_sdk_v.Crypto.{Key, Curve}
use go_incognito_sdk_v.Crypto.Laws.{IsPoint}
use go_incognito_sdk_v.Mlsag.Bytes.{
  Error, empty_bytes, too_large, wrong_prefix, wrong_size, too_small, join, read_point, read_rows,
  row_bytes,
}
use go_incognito_sdk_v.Mlsag.Bytes.RoundTrip.{rows_round, rows_written, read_point-IsPoint, All-map}

-- The rows have `m` keys, or `broken` is the error, and one row after the other is written.
unfoldable pub ring_to_bytes : List (List Key) → Result Error (List ℕ)
ring_to_bytes [] = err empty_bytes
ring_to_bytes (row ∷ rows) = do
  b ← row_bytes (length row) (row ∷ rows)
  fail_if (ltb 255 (suc (length rows)) || ltb 255 (length row)) too_large
  ok (2 ∷ (suc (length rows) % 256) ∷ (length row % 256) ∷ b)

unfoldable pub ring_from_bytes : Curve → List ℕ → Result Error (List (List Key))
ring_from_bytes c (p ∷ n ∷ m ∷ b) = do
  fail_if (not (p == 2)) wrong_prefix
  fail_if (not (length b + 3 == 32 * n * m + 3)) wrong_size
  rows ← read_rows (read_point c) n m b
  ok rows.0
ring_from_bytes c b = err too_small

length-join : (ks : List Key) → All (λ k. length k ≡ 32) ks → length (join ks) ≡ 32 * length ks
unfolding join
length-join [] h = refl
length-join (k ∷ ks) h = omega (arith, length-append k (join ks), length-join ks h.1, h.0)

more_rows : (n m : ℕ) → 32 * suc n * m ≡ 32 * m + 32 * n * m
more_rows n m =
    let e : 32 * suc n ≡ 32 + 32 * n = omega arith in ap (λ x. x * m) e ∙ add-mul 32 (32 * n) m

rows_size :
    (m : ℕ) (rows : List (List Key))
    → All (λ row. (length row ≡ m) × All (λ k. length k ≡ 32) row) rows
    → (b : List ℕ) × (row_bytes m rows ≡ ok b) × (length b ≡ 32 * length rows * m)
rows_size m [] h = ([], unfold row_bytes in refl, omega arith)
rows_size m (row ∷ rows) h =
    let (b, e, l) = rows_size m rows h.1 in
    let s : (m == length row) ≡ true = ground (arith, h.0.0) in
    (
      join row ++ b,
      rows_written m row rows b s e,
      length-append (join row) b
          ∙ omega (arith, length-join row h.0.1, l, more_rows (length rows) m, h.0.0),
    )

ring_to_bytes_lem :
    (row : List Key) (rows : List (List Key)) (b : List ℕ)
    → suc (length rows) ≤ 255
    → length row ≤ 255
    → row_bytes (length row) (row ∷ rows) ≡ ok b
    → ring_to_bytes (row ∷ rows) ≡ ok (2 ∷ suc (length rows) ∷ length row ∷ b)
ring_to_bytes_lem row rows b hn hm e =
    let f : ltb 255 (suc (length rows)) ≡ false = ground arith in
    let g : ltb 255 (length row) ≡ false = ground arith in
    let n : suc (length rows) % 256 ≡ suc (length rows) = omega arith in
    let m : length row % 256 ≡ length row = omega arith in
    unfold ring_to_bytes in rw e (rw (f, g, n, m) refl)

ring_from_bytes_lem :
    (c : Curve) (n m : ℕ) (b : List ℕ) (rows : List (List Key) × List ℕ)
    → length b ≡ 32 * n * m
    → read_rows (read_point c) n m b ≡ ok rows
    → ring_from_bytes c (2 ∷ n ∷ m ∷ b) ≡ ok rows.0
ring_from_bytes_lem c n m b rows l e =
    let s : (length b + 3 == 32 * n * m + 3) ≡ true = rw l (ground arith) in
    unfold ring_from_bytes in rw (s, e) refl

-- FromBytes reads back what ToBytes writes of a ring of at most 255 rows of at most 255 points, all
-- of one length.
pub ring_from_bytes-ring_to_bytes :
    (c : Curve) (row : List Key) (rows : List (List Key))
    → suc (length rows) ≤ 255
    → length row ≤ 255
    → All (λ other. (length other ≡ length row) × All (IsPoint c) other) (row ∷ rows)
    → (b : List ℕ) × (ring_to_bytes (row ∷ rows) ≡ ok b) × (ring_from_bytes c b ≡ ok (row ∷ rows))
ring_from_bytes-ring_to_bytes c row rows hn hm h =
    let all = row ∷ rows in
    let sizes = All-map _ _ all (λ r p. (p.0, All-map _ _ r (λ k q. q.0) p.1)) h in
    let reads = All-map _ _ all (λ r p. (p.0, All-map _ _ r (read_point-IsPoint c) p.1)) h in
    let (b, e, l) = rows_size (length row) all sizes in
    let (b', e', f) = rows_round (read_point c) (length row) all reads in
    let q : b' ≡ b = ok_injective {E = Error} b' b (sym e' ∙ e) in
    let whole : read_rows (read_point c) (length all) (length row) b ≡ ok (all, []) =
      ap (read_rows (read_point c) (length all) (length row)) (sym q ∙ sym (append-nil b'))
      ∙ f [] in
    (
      2 ∷ suc (length rows) ∷ length row ∷ b,
      ring_to_bytes_lem row rows b hn hm e,
      ring_from_bytes_lem c (suc (length rows)) (length row) b (all, []) l whole,
    )
