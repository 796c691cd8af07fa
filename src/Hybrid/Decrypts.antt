-- ===== src/Hybrid/Decrypts.antt =====
-- HybridDecrypt undoes HybridEncrypt, and a ciphertext is read back from its bytes.
use go_incognito_sdk_v.Base.{
  ℕ, ◌+◌, ◌<◌, ◌≡◌, refl, ap, ◌∙◌, true, false, List, ◌++◌, ltb, ◌==◌, length, take, drop, ok,
  arith, length-append, take-append, drop-append,
}
use go_incognito_sdk_v.Common.Hash.{same_bytes}
use go_incognito_sdk_v.Crypto.{Key, Curve}
use go_incognito_sdk_v.Crypto.Laws.{IsPoint, IsScalar, CurveLaws}
use go_incognito_sdk_v.Hybrid.{
  Ctr, block_size, aes_encrypt, aes_decrypt, ElGamalCipherText, el_gamal_bytes, el_gamal_set_bytes,
  el_gamal_encrypt, el_gamal_decrypt, HybridCipherText, is_nil, bytes, set_bytes, Draws,
  hybrid_encrypt, hybrid_decrypt,
}

-- The key stream is that of a stream cipher: 32 bytes are a key, a text keeps its length, and a
-- second run with the same key and vector undoes the first.
pub record CtrLaws (s : Ctr) : Type 0 where
  pub is_aes_key_32 : (k : List ℕ) → length k ≡ 32 → s.is_aes_key k ≡ true
  pub length-xor_key_stream : (k iv m : List ℕ) → length (s.xor_key_stream k iv m) ≡ length m
  pub xor_twice : (k iv m : List ℕ) → s.xor_key_stream k iv (s.xor_key_stream k iv m) ≡ m

aes_decrypt-aes_encrypt :
    (s : Ctr)
    → CtrLaws s
    → (iv key m : List ℕ) → length iv ≡ block_size
    → length key ≡ 32
    → 0 < length m
    → (t : List ℕ) × (aes_encrypt s iv key m ≡ ok t) × (aes_decrypt s key t ≡ ok m) × (0 < length t)
unfolding aes_encrypt aes_decrypt
aes_decrypt-aes_encrypt s laws iv key m hi hk hm =
    let x = s.xor_key_stream key iv m in
    let e : (length m == 0) ≡ false = ground arith in
    let k : s.is_aes_key key ≡ true = laws.is_aes_key_32 key hk in
    let l : length (iv ++ x) ≡ 16 + length x = length-append iv x ∙ omega (arith, hi) in
    let lx : length x ≡ length m = laws.length-xor_key_stream key iv m in
    let e' : (length (iv ++ x) == 0) ≡ false = ground arith in
    let f : ltb (length (iv ++ x)) 16 ≡ false = ground arith in
    (
      iv ++ x,
      rw (e, k) refl,
      rw (e', f, k, take-append 16 iv x hi, drop-append 16 iv x hi)
          (ap ok (laws.xor_twice key iv m)),
      omega (arith, l),
    )

pub set_bytes-bytes_parts :
    (msg key : List ℕ)
    → 0 < length msg
    → length key ≡ 64
    → (let t : HybridCipherText = record { msg_encrypted = msg; sym_key_encrypted = key } in
        (set_bytes (bytes t) ≡ ok t) × (is_nil t ≡ false))
unfolding set_bytes bytes is_nil
set_bytes-bytes_parts msg key hm hk =
    let e : (length msg == 0) ≡ false = ground arith in
    let e' : (length key == 0) ≡ false = ground arith in
    let l : length (key ++ msg) ≡ 64 + length msg = length-append key msg ∙ omega (arith, hk) in
    let f : (length (key ++ msg) == 0) ≡ false = ground arith in
    let k : ltb (length (key ++ msg)) 64 ≡ false = ground arith in
    (
      rw (e, e') (rw (f, k, take-append 64 key msg hk, drop-append 64 key msg hk) refl),
      rw (e, e') refl,
    )

module _ (c : Curve) (laws : CurveLaws c) where
  -- What is encrypted for the point of a scalar is decrypted with the scalar.
  el_gamal_decrypt-el_gamal_encrypt :
      (x r : Key) (p : Key)
      → IsScalar c x
      → IsScalar c r
      → IsPoint c p
      → el_gamal_decrypt c x (el_gamal_encrypt c r (c.scalarmult_base x) p) ≡ p
  unfolding el_gamal_decrypt el_gamal_encrypt
  el_gamal_decrypt-el_gamal_encrypt x r p hx hr hp =
      rw (el_gamal_decrypt, laws.shared_secret x r hx hr)
        (laws.sub_keys-add_keys_right p (c.scalarmult_key (c.scalarmult_base x) r) hp (
          laws.scalarmult_key-IsPoint (c.scalarmult_base x) r (laws.scalarmult_base-IsPoint x hx)
            hr))

  c1-IsPoint :
      (x r p : Key) → IsScalar c r → IsPoint c (el_gamal_encrypt c r (c.scalarmult_base x) p).c1
  unfolding el_gamal_encrypt
  c1-IsPoint x r p hr = laws.scalarmult_base-IsPoint r hr

  c1_lem :
      (x r p : Key)
      → same_bytes (el_gamal_encrypt c r (c.scalarmult_base x) p).c1 c.identity
        ≡ same_bytes (c.scalarmult_base r) c.identity
  unfolding el_gamal_encrypt
  c1_lem x r p = refl

  c2-IsPoint :
      (x r p : Key)
      → IsScalar c x
      → IsScalar c r
      → IsPoint c p
      → IsPoint c (el_gamal_encrypt c r (c.scalarmult_base x) p).c2
  unfolding el_gamal_encrypt
  c2-IsPoint x r p hx hr hp =
      laws.add_keys-IsPoint p _ hp
        (laws.scalarmult_key-IsPoint _ r (laws.scalarmult_base-IsPoint x hx) hr)

  el_gamal_set_bytes-el_gamal_bytes :
      (t : ElGamalCipherText)
      → IsPoint c t.c1
      → IsPoint c t.c2
      → same_bytes t.c1 c.identity ≡ false
      → (length (el_gamal_bytes c t) ≡ 64) × (el_gamal_set_bytes c (el_gamal_bytes c t) ≡ ok t)
  unfolding el_gamal_bytes el_gamal_set_bytes
  el_gamal_set_bytes-el_gamal_bytes t h1 h2 n =
      let l : length (t.c1 ++ t.c2) ≡ 64 = length-append t.c1 t.c2 ∙ omega (arith, h1.0, h2.0) in
      let e : (length (t.c1 ++ t.c2) == 0) ≡ false = ground arith in
      let f : ltb (length (t.c1 ++ t.c2)) 32 ≡ false = ground arith in
      let q : take 32 (t.c2 ++ drop (length t.c2) t.c1) ≡ t.c2 =
        take-append 32 t.c2 (drop (length t.c2) t.c1) h2.0 in
      rw n (
        l,
        rw (e, f, take-append 32 t.c1 t.c2 h1.0, drop-append 32 t.c1 t.c2 h1.0, q)
            (rw (h1.1, h2.1) refl),
      )

  hybrid_decrypt_lem :
      (s : Ctr) (t : HybridCipherText) (x : Key) (e : ElGamalCipherText) (m : List ℕ)
      → is_nil t ≡ false
      → el_gamal_set_bytes c t.sym_key_encrypted ≡ ok e
      → aes_decrypt s (el_gamal_decrypt c x e) t.msg_encrypted ≡ ok m
      → hybrid_decrypt c s t x ≡ ok m
  hybrid_decrypt_lem s t x e m n f k = unfold hybrid_decrypt in rw (n, f, k) refl

  -- HybridDecrypt with a scalar gives back what HybridEncrypt encrypted for its point, and the
  -- ciphertext is read back from its bytes, if the random point is not the neutral one.
  pub hybrid_decrypt-hybrid_encrypt :
      (s : Ctr)
      → CtrLaws s
      → (draws : Draws) (m : List ℕ) (x : Key) → IsScalar c x
      → IsScalar c draws.r
      → IsScalar c draws.point_scalar
      → length draws.iv ≡ block_size
      → 0 < length m
      → same_bytes (c.scalarmult_base draws.r) c.identity ≡ false
      → (t : HybridCipherText) × (hybrid_encrypt c s draws m (c.scalarmult_base x) ≡ ok t)
        × (hybrid_decrypt c s t x ≡ ok m)
        × (set_bytes (bytes t) ≡ ok t)
        × (is_nil t ≡ false)
  hybrid_decrypt-hybrid_encrypt s sl draws m x hx hr hp hi hm hn =
      let p = c.scalarmult_base draws.point_scalar in
      let isp = laws.scalarmult_base-IsPoint draws.point_scalar hp in
      let key = el_gamal_encrypt c draws.r (c.scalarmult_base x) p in
      let (msg, e, d, pos) = aes_decrypt-aes_encrypt s sl draws.iv p m hi isp.0 hm in
      let g =
        el_gamal_set_bytes-el_gamal_bytes key (c1-IsPoint x draws.r p hr)
          (c2-IsPoint x draws.r p hx hr isp) (c1_lem x draws.r p ∙ hn) in
      let parts = set_bytes-bytes_parts msg (el_gamal_bytes c key) pos g.0 in
      let t : HybridCipherText = record {
        msg_encrypted = msg;
        sym_key_encrypted = el_gamal_bytes c key;
      } in
      (
        t,
        unfold hybrid_encrypt in rw e refl,
        hybrid_decrypt_lem s t x key m parts.1 g.1 (
            ap (λ k. aes_decrypt s k msg) (el_gamal_decrypt-el_gamal_encrypt x draws.r p hx hr isp)
            ∙ d),
        parts.0,
        parts.1,
      )
