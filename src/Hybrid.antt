-- ===== src/Hybrid.antt =====
-- privacy/v1/hybridencryption and common/aes.go: a message is encrypted with AES in the mode CTR, and
-- its key with ElGamal. The key stream of crypto/cipher and all random choices are arguments.
pub mod Decrypts
use go_incognito_sdk_v.Base.{
  ℕ, ◌+◌, ◌-◌, ◌%◌, ◌^◌, ◌≤◌, ◌<◌, ◌≡◌, Bool, true, false, not, ◌||◌, List, [], ◌∷◌, ◌++◌, Option,
  none, some, ltb, ◌==◌, if◌then◌else◌, length, take, drop, Result, ok, err, ◌>>=◌, ◌>>◌, fail_if,
}
use go_incognito_sdk_v.Common.Hash.{same_bytes}
use go_incognito_sdk_v.Crypto.{Key, Curve}

pub data Error : Type 0 where
  plaintext_empty ciphertext_empty invalid_aes_key invalid_input invalid_point out_of_range
        nil_ciphertext panic :
      Error

abbrev pub block_size : ℕ
block_size = 16

-- aes.NewCipher and XORKeyStream of cipher.NewCTR
pub record Ctr : Type 0 where
  pub is_aes_key : List ℕ → Bool
  pub xor_key_stream : List ℕ → List ℕ → List ℕ → List ℕ

-- AES.Encrypt; `iv` is what is read of rand.Reader.
unfoldable pub aes_encrypt : Ctr → List ℕ → List ℕ → List ℕ → Result Error (List ℕ)
aes_encrypt s iv key plaintext = do
  fail_if (length plaintext == 0) plaintext_empty
  fail_if (not (s.is_aes_key key)) invalid_aes_key
  ok (iv ++ s.xor_key_stream key iv plaintext)

-- AES.Decrypt slices the block of the initialisation vector off without a test.
unfoldable pub aes_decrypt : Ctr → List ℕ → List ℕ → Result Error (List ℕ)
aes_decrypt s key ciphertext = do
  fail_if (length ciphertext == 0) ciphertext_empty
  fail_if (ltb (length ciphertext) block_size) panic
  fail_if (not (s.is_aes_key key)) invalid_aes_key
  ok (s.xor_key_stream key (take block_size ciphertext) (drop block_size ciphertext))

-- elGamalCipherText
pub record ElGamalCipherText : Type 0 where
  pub c1 : Key
  pub c2 : Key

unfoldable pub el_gamal_bytes : Curve → ElGamalCipherText → List ℕ
el_gamal_bytes c t = if same_bytes t.c1 c.identity then [] else t.c1 ++ t.c2

-- `copy` onto an array of 32 bytes.
abbrev pub copy_onto : List ℕ → List ℕ → List ℕ
copy_onto array b = take 32 (b ++ drop (length b) array)

-- Point.FromBytes of an array
abbrev pub read_point : Curve → List ℕ → Result Error Key
read_point c b = if c.point_valid b then ok b else err invalid_point

-- The second point is copied onto the bytes of the first.
unfoldable pub el_gamal_set_bytes : Curve → List ℕ → Result Error ElGamalCipherText
el_gamal_set_bytes c b = do
  fail_if (length b == 0) invalid_input
  fail_if (ltb (length b) 32) panic
  p ← read_point c (take 32 b)
  q ← read_point c (copy_onto (take 32 b) (drop 32 b))
  ok (record { c1 = p; c2 = q })

-- elGamalPublicKey.encrypt; `r` is random.
unfoldable pub el_gamal_encrypt : Curve → Key → Key → Key → ElGamalCipherText
el_gamal_encrypt c r h plaintext = record {
  c1 = c.scalarmult_base r;
  c2 = c.add_keys plaintext (c.scalarmult_key h r);
}

-- elGamalPrivateKey.decrypt
unfoldable pub el_gamal_decrypt : Curve → Key → ElGamalCipherText → Key
el_gamal_decrypt c x t = c.sub_keys t.c2 (c.scalarmult_key t.c1 x)

pub record HybridCipherText : Type 0 where
  pub msg_encrypted : List ℕ
  pub sym_key_encrypted : List ℕ

unfoldable pub is_nil : HybridCipherText → Bool
is_nil t = length t.msg_encrypted == 0 || length t.sym_key_encrypted == 0

unfoldable pub bytes : HybridCipherText → List ℕ
unfolding is_nil
bytes t = if is_nil t then [] else t.sym_key_encrypted ++ t.msg_encrypted

abbrev pub el_gamal_ciphertext_size : ℕ
el_gamal_ciphertext_size = 64

-- HybridCipherText.SetBytes
unfoldable pub set_bytes : List ℕ → Result Error HybridCipherText
set_bytes b = do
  fail_if (length b == 0) invalid_input
  fail_if (ltb (length b) el_gamal_ciphertext_size) out_of_range
  ok (record {
    sym_key_encrypted = take el_gamal_ciphertext_size b;
    msg_encrypted = drop el_gamal_ciphertext_size b;
  })

-- What HybridEncrypt draws: the scalar of RandomPoint, the initialisation vector and the scalar of
-- ElGamal.
pub record Draws : Type 0 where
  pub point_scalar : Key
  pub iv : List ℕ
  pub r : Key

unfoldable pub hybrid_encrypt : Curve → Ctr → Draws → List ℕ → Key → Result Error HybridCipherText
unfolding aes_encrypt el_gamal_encrypt el_gamal_bytes
hybrid_encrypt c s draws msg public_key = do
  let key_point = c.scalarmult_base draws.point_scalar
  encrypted ← aes_encrypt s draws.iv key_point msg
  ok (record {
    msg_encrypted = encrypted;
    sym_key_encrypted = el_gamal_bytes c (el_gamal_encrypt c draws.r public_key key_point);
  })

unfoldable pub hybrid_decrypt : Curve → Ctr → HybridCipherText → Key → Result Error (List ℕ)
unfolding is_nil el_gamal_set_bytes el_gamal_decrypt aes_decrypt
hybrid_decrypt c s t private_key = do
  fail_if (is_nil t) nil_ciphertext
  encrypted_key ← el_gamal_set_bytes c t.sym_key_encrypted
  aes_decrypt s (el_gamal_decrypt c private_key encrypted_key) t.msg_encrypted
