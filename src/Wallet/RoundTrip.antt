-- ===== src/Wallet/RoundTrip.antt =====
-- Serialize and deserialize of wallet/hdwallet.go: what is written is read back.
use mathlib.Core.Path.{ap₂}
use go_incognito_sdk_v.Base.{
  ℕ, ◌+◌, ◌-◌, ◌%◌, ◌<◌, ◌≡◌, refl, sym, ◌∙◌, ap, Bool, true, false, ◌||◌, List, [], ◌∷◌, ◌++◌, ltb,
  ◌==◌, length, take, drop, ok, arith, length-append, append_assoc, take-append, drop-append,
  get_elem?-middle,
}
use go_incognito_sdk_v.Common.Hash.{same_bytes}
use go_incognito_sdk_v.Common.Hash.Order.{same_bytes_refl}
use go_incognito_sdk_v.Crypto.{Curve}
use go_incognito_sdk_v.Base58.{Codec, checksum_first_4_bytes}
use go_incognito_sdk_v.Base58.Cached.{CodecLaws, length-checksum}
use go_incognito_sdk_v.Wallet.{
  KeyWallet, sized, body, serialize, slice, byte_at, read_keys, has_checksum, deserialize, read_two,
  read_two_of_71,
}

-- A slice in the middle of what was written.
pub slice-middle :
    (pre k post spare : List ℕ) (lo hi : ℕ)
    → length pre ≡ lo
    → lo + length k ≡ hi
    → slice (pre ++ (k ++ post)) spare lo hi ≡ ok k
unfolding slice
slice-middle pre k post spare lo hi e f =
    let l : length (pre ++ (k ++ post)) ≡ length pre + (length k + length post) =
      length-append pre (k ++ post) ∙ ap (λ n. length pre + n) (length-append k post) in
    let d : drop lo ((pre ++ (k ++ post)) ++ spare) ≡ k ++ (post ++ spare) =
      ap (drop lo) (append_assoc pre (k ++ post) spare)
      ∙ drop-append lo pre ((k ++ post) ++ spare) e
      ∙ append_assoc k post spare in
    let t : take (hi - lo) (k ++ (post ++ spare)) ≡ k =
      take-append (hi - lo) k (post ++ spare) (omega arith) in
    let b : ltb (length (pre ++ (k ++ post)) + length spare) hi ≡ false = ground (arith, l) in
    rw (b, slice) (ap ok (ap (take (hi - lo)) d ∙ t))

pub byte_at-middle :
    (pre : List ℕ) (b : ℕ) (post : List ℕ) (i : ℕ)
    → length pre ≡ i
    → byte_at (pre ++ (b ∷ post)) i ≡ ok b
byte_at-middle pre b post i e = rw (← e) (rw (get_elem?-middle pre b post, byte_at) refl)

read_two_lem :
    (bs spare : List ℕ) (n m : ℕ) (a b : List ℕ)
    → byte_at bs 1 ≡ ok n
    → byte_at bs (n + 2) ≡ ok m
    → slice bs spare 2 (2 + n) ≡ ok a
    → slice bs spare (3 + n) (3 + n + m) ≡ ok b
    → read_two bs spare ≡ ok (a, b)
unfolding read_two
read_two_lem bs spare n m a b e f g h = rw (e, read_two) (rw f (rw g (rw h refl)))

-- Two keys with their lengths are read back, whatever follows.
pub read_two-sized :
    (t : ℕ) (a b post spare : List ℕ)
    → length a < 256
    → length b < 256
    → read_two (t ∷ (sized a ++ (sized b ++ post))) spare ≡ ok (a, b)
read_two-sized t a b post spare ha hb =
    let n : length a % 256 ≡ length a = omega arith in
    let m : length b % 256 ≡ length b = omega arith in
    let bs = t ∷ (sized a ++ (sized b ++ post)) in
    let parted : bs ≡ (t ∷ (length a % 256) ∷ (a ++ ((length b % 256) ∷ []))) ++ (b ++ post) =
      ap (λ x. t ∷ (length a % 256) ∷ x)
        (sym (append_assoc a ((length b % 256) ∷ []) (b ++ post))) in
    let l : length (a ++ ((length b % 256) ∷ [])) ≡ length a + 1 =
      length-append a ((length b % 256) ∷ []) in
    read_two_lem bs spare (length a) (length b) a b (ap ok n)
      (byte_at-middle (t ∷ (length a % 256) ∷ a) (length b % 256) (b ++ post) (length a + 2)
          (omega arith)
        ∙ ap ok m)
      (slice-middle (t ∷ (length a % 256) ∷ []) a (sized b ++ post) spare 2 (2 + length a) refl
        refl)
      (ap (λ x. slice x spare (3 + length a) (3 + length a + length b)) parted
        ∙ slice-middle (t ∷ (length a % 256) ∷ (a ++ ((length b % 256) ∷ []))) b post spare
            (3 + length a) (3 + length a + length b) (omega (arith, l)) refl)

module _ (h : Codec) (laws : CodecLaws h) where
  has_checksum-body :
      (b : List ℕ) (is_new : Bool) → has_checksum h (b ++ checksum_first_4_bytes h b is_new) ≡ true
  unfolding has_checksum
  has_checksum-body b is_new =
      let cs = checksum_first_4_bytes h b is_new in
      let l : length (b ++ cs) ≡ length b + 4 =
        length-append b cs ∙ ap (λ n. length b + n) (length-checksum h laws b is_new) in
      let f = take-append (length (b ++ cs) - 4) b cs (omega (arith, l)) in
      let g = drop-append (length (b ++ cs) - 4) b cs (omega (arith, l)) in
      ap₂
        (λ x y.
          same_bytes (checksum_first_4_bytes h x true) y
          || same_bytes (checksum_first_4_bytes h x false) y)
        f g
      ∙ one_of is_new
    where
      one_of :
          (n : Bool)
          → (same_bytes (checksum_first_4_bytes h b true) (checksum_first_4_bytes h b n)
              || same_bytes (checksum_first_4_bytes h b false) (checksum_first_4_bytes h b n))
            ≡ true
      one_of true = ground (arith, same_bytes_refl (checksum_first_4_bytes h b true))
      one_of false = ground (arith, same_bytes_refl (checksum_first_4_bytes h b false))

  deserialize_lem :
      (c : Curve) (bs spare : List ℕ) (t : ℕ) (w : KeyWallet)
      → ltb (length bs) 2 ≡ false
      → byte_at bs 0 ≡ ok t
      → read_keys c t bs spare ≡ ok w
      → has_checksum h bs ≡ true
      → deserialize h c bs spare ≡ ok w
  unfolding deserialize
  deserialize_lem c bs spare t w e f g k = rw (e, deserialize) (rw f (rw g (rw k refl)))

  -- From the bytes before the check sum and what is read of the whole.
  pub serialized :
      (c : Curve) (w v : KeyWallet) (t : ℕ) (rest spare : List ℕ) (is_new : Bool)
      → body c w t is_new ≡ ok (t ∷ rest)
      → read_keys c t (t ∷ (rest ++ checksum_first_4_bytes h (t ∷ rest) is_new)) spare ≡ ok v
      → (bs : List ℕ) × (serialize h c w t is_new ≡ ok bs) × (deserialize h c bs spare ≡ ok v)
  unfolding serialize
  serialized c w v t rest spare is_new e r =
      let cs = checksum_first_4_bytes h (t ∷ rest) is_new in
      let l : length (rest ++ cs) ≡ length rest + 4 =
        length-append rest cs
        ∙ ap (λ n. length rest + n) (length-checksum h laws (t ∷ rest) is_new) in
      (
        t ∷ (rest ++ cs),
        rw (e, serialize) refl,
        deserialize_lem c (t ∷ (rest ++ cs)) spare t v (ground (arith, l)) refl r
            (has_checksum-body (t ∷ rest) is_new),
      )

read_two_of_71_lem :
    (bs spare : List ℕ) (n : ℕ) (r : List ℕ × List ℕ)
    → (length bs == 71) ≡ true
    → byte_at bs 1 ≡ ok n
    → ltb (length bs) (n + 3) ≡ false
    → read_two bs spare ≡ ok r
    → read_two_of_71 bs spare ≡ ok r
unfolding read_two_of_71
read_two_of_71_lem bs spare n r e f g k = rw (e, read_two_of_71) (rw f (rw g k))

pub length-sized_two :
    (a b post : List ℕ)
    → length (sized a ++ (sized b ++ post)) ≡ length a + length b + length post + 2
length-sized_two a b post =
    omega (arith, length-append (sized a) (sized b ++ post), length-append (sized b) post)

pub read_two_of_71-sized :
    (t : ℕ) (a b post spare : List ℕ)
    → length a ≡ 32
    → length b ≡ 32
    → length post ≡ 4
    → read_two_of_71 (t ∷ ((sized a ++ sized b) ++ post)) spare ≡ ok (a, b)
read_two_of_71-sized t a b post spare ha hb hp =
    let bs = t ∷ (sized a ++ (sized b ++ post)) in
    let l : length bs ≡ 71 = omega (arith, length-sized_two a b post) in
    let n : length a % 256 ≡ 32 = omega arith in
    ap (λ x. read_two_of_71 (t ∷ x) spare) (append_assoc (sized a) (sized b) post)
    ∙ read_two_of_71_lem bs spare 32 (a, b) (ground (arith, l)) (ap ok n) (ground (arith, l))
        (read_two-sized t a b post spare (omega arith) (omega arith))
