-- ===== src/Mlsag/Bytes/RoundTrip.antt =====
-- ToBytes and FromBytes of privacy/v2/mlsag/mlsag_signature.go: what is written is read back.
use go_incognito_sdk_v.Base.{
  ℕ, suc, ◌%◌, ◌≤◌, ◌≡◌, refl, sym, ap, ◌∙◌, true, false, List, [], ◌∷◌, ◌++◌, some, ltb, ◌==◌,
  length, take, drop, Result, ok, All, arith, append_assoc, take-append, drop-append, length-append,
}
use go_incognito_sdk_v.Crypto.{Key, Curve}
use go_incognito_sdk_v.Crypto.Laws.{IsPoint, IsScalar}
use go_incognito_sdk_v.Keys.Laws.{scalar_from_bytes-IsScalar, point_from_bytes-IsPoint}
use go_incognito_sdk_v.Mlsag.Bytes.{
  Error, join, c_bytes, image_bytes, row_bytes, r_bytes, to_bytes, read_point, read_scalar,
  read_keys, read_rows, read_r, read_images, from_bytes,
}

pub rows_written :
    (m : ℕ) (row : List Key) (rows : List (List Key)) (b : List ℕ)
    → (m == length row) ≡ true
    → row_bytes m rows ≡ ok b
    → row_bytes m (row ∷ rows) ≡ ok (join row ++ b)
unfolding row_bytes
rows_written m row rows b s e = rw (s, row_bytes) (rw e refl)

module _ (read : List ℕ → Result Error Key) where
  -- A key of 32 bytes that is read as itself.
  abbrev pub Reads : Key → Type 0
  Reads k = (length k ≡ 32) × (read k ≡ ok k)

  read_keys_lem :
      (n : ℕ) (b : List ℕ) (k : Key) (rest : List Key × List ℕ)
      → ltb (length b) 32 ≡ false
      → read (take 32 b) ≡ ok k
      → read_keys read n (drop 32 b) ≡ ok rest
      → read_keys read (suc n) b ≡ ok (k ∷ rest.0, rest.1)
  unfolding read_keys
  read_keys_lem n b k rest e f g = rw (e, read_keys) (rw f (rw g refl))

  read_keys-join :
      (ks : List Key) (rest : List ℕ)
      → All Reads ks
      → read_keys read (length ks) (join ks ++ rest) ≡ ok (ks, rest)
  unfolding join
  read_keys-join [] rest h = unfold read_keys in refl
  read_keys-join (k ∷ ks) rest h =
      let whole : (k ++ join ks) ++ rest ≡ k ++ (join ks ++ rest) = append_assoc k (join ks) rest in
      ap (read_keys read (suc (length ks))) whole
      ∙ read_keys_lem (length ks) (k ++ (join ks ++ rest)) k (ks, rest)
          (ground (arith, length-append k (join ks ++ rest), h.0))
          (ap read (take-append 32 k (join ks ++ rest) h.0.0) ∙ h.0.1)
          (ap (read_keys read (length ks)) (drop-append 32 k (join ks ++ rest) h.0.0)
            ∙ read_keys-join ks rest h.1)

  read_rows_lem :
      (n m : ℕ) (b : List ℕ) (row : List Key × List ℕ) (rest : List (List Key) × List ℕ)
      → read_keys read m b ≡ ok row
      → read_rows read n m row.1 ≡ ok rest
      → read_rows read (suc n) m b ≡ ok (row.0 ∷ rest.0, rest.1)
  unfolding read_rows
  read_rows_lem n m b row rest e f = rw (e, read_rows) (rw f refl)

  -- Rows of `m` keys are written and read back.
  pub rows_round :
      (m : ℕ) (rows : List (List Key))
      → All (λ row. (length row ≡ m) × All Reads row) rows
      → (b : List ℕ) × (row_bytes m rows ≡ ok b)
        × ((rest : List ℕ) → read_rows read (length rows) m (b ++ rest) ≡ ok (rows, rest))
  rows_round m [] h = ([], unfold row_bytes in refl, λ rest. unfold read_rows in refl)
  rows_round m (row ∷ rows) h =
      let (b, e, f) = rows_round m rows h.1 in
      let s : (m == length row) ≡ true = ground (arith, h.0.0) in
      (
        join row ++ b,
        rows_written m row rows b s e,
        λ rest.
            ap (read_rows read (suc (length rows)) m) (append_assoc (join row) b rest)
            ∙ read_rows_lem (length rows) m (join row ++ (b ++ rest)) (row, b ++ rest) (rows, rest)
                (ap (λ x. read_keys read x (join row ++ (b ++ rest))) (sym h.0.0)
                  ∙ read_keys-join row (b ++ rest) h.0.1)
                (f rest),
      )

-- A signature with all its parts, whose lengths fit into a byte.
pub record IsSig (c : Curve) (challenge : Key) (images : List Key) (rows : List (List Key)) (m : ℕ)
    : Type 0 where
  pub challenge_scalar : IsScalar c challenge
  pub image_points : All (IsPoint c) images
  pub image_count : length images ≤ 255
  pub row_count : length rows ≤ 255
  pub row_length : m ≤ 255
  pub full_rows : All (λ row. (length row ≡ m) × All (IsScalar c) row) rows

module _ {A : Type 0} where
  pub All-map : (P Q : A → Type 0) (xs : List A) → ((x : A) → P x → Q x) → All P xs → All Q xs
  All-map P Q [] f h = tt
  All-map P Q (x ∷ xs) f h = (f x h.0, All-map P Q xs f h.1)

module _ (c : Curve) where
  read_scalar-IsScalar : (k : Key) → IsScalar c k → Reads (read_scalar c) k
  read_scalar-IsScalar k h = (h.0, rw (scalar_from_bytes-IsScalar c k h, h.1) refl)

  pub read_point-IsPoint : (k : Key) → IsPoint c k → Reads (read_point c) k
  read_point-IsPoint k h = (h.0, rw (point_from_bytes-IsPoint c k h, read_point) refl)

  scalar_rows :
      (m : ℕ) (rows : List (List Key))
      → All (λ row. (length row ≡ m) × All (IsScalar c) row) rows
      → All (λ row. (length row ≡ m) × All (Reads (read_scalar c)) row) rows
  scalar_rows m rows h =
      All-map _ _ rows (λ row p. (p.0, All-map _ _ row read_scalar-IsScalar p.1)) h

  images_written :
      (images : List Key)
      → length images ≤ 255
      → image_bytes (some images) ≡ ok (length images ∷ join images)
  unfolding image_bytes
  images_written images h =
      let e : ltb 255 (length images) ≡ false = ground arith in
      let n : length images % 256 ≡ length images = omega arith in rw (e, n) refl

  r_lem :
      (row : List Key) (rows : List (List Key)) (b : List ℕ)
      → length row ≤ 255
      → suc (length rows) ≤ 255
      → row_bytes (length row) (row ∷ rows) ≡ ok b
      → r_bytes (some (row ∷ rows)) ≡ ok (suc (length rows) ∷ length row ∷ b)
  r_lem row rows b h k w =
      let e : ltb 255 (suc (length rows)) ≡ false = ground arith in
      let f : ltb 255 (length row) ≡ false = ground arith in
      let n : suc (length rows) % 256 ≡ suc (length rows) = omega arith in
      let m : length row % 256 ≡ length row = omega arith in
      unfold r_bytes in rw (e, f, w, n, m) refl

  read_r_lem :
      (n m : ℕ) (b : List ℕ) (rows : List (List Key) × List ℕ)
      → read_rows (read_scalar c) n m b ≡ ok rows
      → read_r c (n ∷ m ∷ b) ≡ ok rows.0
  unfolding read_r
  read_r_lem n m b rows e = rw e refl

  -- The responses, with or without rows.
  responses_round :
      (m : ℕ) (rows : List (List Key))
      → m ≤ 255
      → length rows ≤ 255
      → All (λ row. (length row ≡ m) × All (IsScalar c) row) rows
      → (b : List ℕ) × (r_bytes (some rows) ≡ ok b)
        × ((extra : List ℕ) → read_r c (b ++ extra) ≡ ok rows)
  responses_round m [] hm hn h = (
    0 ∷ 0 ∷ [],
    unfold r_bytes in refl,
    λ extra. read_r_lem 0 0 extra ([], extra) (unfold read_rows in refl),
  )
  responses_round m (row ∷ rows) hm hn h =
      let (b, e, f) = rows_round (read_scalar c) m (row ∷ rows) (scalar_rows m (row ∷ rows) h) in
      let l : length row ≡ m = h.0.0 in
      (
        suc (length rows) ∷ length row ∷ b,
        r_lem row rows b (omega arith) hn (ap (λ x. row_bytes x (row ∷ rows)) l ∙ e),
        λ extra.
            read_r_lem (suc (length rows)) (length row) (b ++ extra) (row ∷ rows, extra)
              (ap (λ x. read_rows (read_scalar c) (suc (length rows)) x (b ++ extra)) l ∙ f extra),
      )

  to_bytes_lem :
      (k : Key) (images : List Key) (rows : List (List Key)) (b : List ℕ)
      → length images ≤ 255
      → r_bytes (some rows) ≡ ok b
      → to_bytes (record { c = some k; key_images = some images; r = some rows })
        ≡ ok (2 ∷ 32 ∷ (k ++ (length images ∷ (join images ++ b))))
  unfolding to_bytes c_bytes
  to_bytes_lem k images rows b h e = rw (images_written images h, to_bytes) (rw e refl)

  from_bytes_lem :
      (b : List ℕ) (k : Key) (images : List Key × List ℕ) (rows : List (List Key))
      → ltb (length b) 32 ≡ false
      → read_scalar c (take 32 b) ≡ ok k
      → read_images c (drop 32 b) ≡ ok images
      → read_r c images.1 ≡ ok rows
      → from_bytes c (2 ∷ 32 ∷ b)
        ≡ ok (record { c = some k; key_images = some images.0; r = some rows })
  unfolding from_bytes
  from_bytes_lem b k images rows e f g h =
      rw (e, from_bytes) (rw (f, read_scalar) (rw g (rw h refl)))

  -- FromBytes reads back what ToBytes writes of a signature with all its parts, whose lengths fit
  -- into a byte, whatever follows.
  pub from_bytes-to_bytes :
      (k : Key) (images : List Key) (rows : List (List Key)) (m : ℕ) (extra : List ℕ)
      → IsSig c k images rows m
      → (b : List ℕ) × (to_bytes (record { c = some k; key_images = some images; r = some rows })
          ≡ ok b)
        × (from_bytes c (b ++ extra)
            ≡ ok (record { c = some k; key_images = some images; r = some rows }))
  from_bytes-to_bytes k images rows m extra h =
      let (b, e, f) = responses_round m rows h.row_length h.row_count h.full_rows in
      let tail = length images ∷ (join images ++ (b ++ extra)) in
      let whole : (k ++ (length images ∷ (join images ++ b))) ++ extra ≡ k ++ tail =
        append_assoc k (length images ∷ (join images ++ b)) extra
        ∙ ap (λ x. k ++ (length images ∷ x)) (append_assoc (join images) b extra) in
      let ks = h.challenge_scalar.0 in
      (
        2 ∷ 32 ∷ (k ++ (length images ∷ (join images ++ b))),
        to_bytes_lem k images rows b h.image_count e,
        ap (λ x. from_bytes c (2 ∷ 32 ∷ x)) whole
            ∙ from_bytes_lem (k ++ tail) k (images, b ++ extra) rows
                (ground (arith, length-append k tail, ks))
                (ap (read_scalar c) (take-append 32 k tail ks)
                  ∙ (read_scalar-IsScalar k h.challenge_scalar).1)
                (ap (read_images c) (drop-append 32 k tail ks)
                  ∙ (unfold read_images in
                      read_keys-join (read_point c) images (b ++ extra)
                        (All-map _ _ images read_point-IsPoint h.image_points)))
                (f extra),
      )
