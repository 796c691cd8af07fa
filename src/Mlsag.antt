-- ===== src/Mlsag.antt =====
-- privacy/v2/mlsag/mlsag.go: the ring signature of a transaction. A ring has a row of public keys for
-- each member, and the last key of a row is on the generator of the randomness.
pub mod Closes
pub mod Bytes
pub mod RingBytes
use go_incognito_sdk_v.Base.{
  ℕ, zero, suc, ◌+◌, ◌%◌, ◌≡◌, Bool, true, false, not, ◌||◌, List, [], ◌∷◌, ◌++◌, Option, none,
  some, ◌==◌, if◌then◌else◌, length, get_elem?, Result, ok, err, ◌>>=◌, ◌>>◌, fail_if,
}
use go_incognito_sdk_v.Crypto.{Key, Curve, PedersenCommitment}

pub data Error : Type 0 where
  wrong_message_length wrong_lengths panic out_of_rounds : Error

module _ (c : Curve) (pcm : PedersenCommitment) where
  unfoldable pub parse_public_key : Key → Bool → Key
  parse_public_key private_key is_last =
      if is_last then c.scalarmult_key pcm.g4 private_key else c.scalarmult_base private_key

  -- The public keys of a member, as NewRandomRing makes them.
  unfoldable pub public_keys : List Key → List Key
  unfolding parse_public_key
  public_keys [] = []
  public_keys (k ∷ []) = parse_public_key k true ∷ []
  public_keys (k ∷ l ∷ ks) = parse_public_key k false ∷ public_keys (l ∷ ks)

  abbrev pub key_image : Key → Bool → Key
  key_image k is_last = c.scalarmult_key (c.hash_to_point (parse_public_key k is_last)) k

  unfoldable pub parse_key_images : List Key → List Key
  unfolding parse_public_key
  parse_key_images [] = []
  parse_key_images (k ∷ []) = key_image k true ∷ []
  parse_key_images (k ∷ l ∷ ks) = key_image k false ∷ parse_key_images (l ∷ ks)

  -- What calculateFirstC appends to the message. The lists have the same length.
  unfoldable pub first_bytes : List Key → List Key → List ℕ
  first_bytes [] ks = []
  first_bytes (a ∷ []) ks = c.scalarmult_key pcm.g4 a
  first_bytes (a ∷ b ∷ as') [] = []
  first_bytes (a ∷ b ∷ as') (k ∷ ks) =
      c.scalarmult_base a ++ (c.scalarmult_key (c.hash_to_point k) a ++ first_bytes (b ∷ as') ks)

  -- An empty row makes the code read place -1 of `alpha`.
  unfoldable pub calculate_first_c : List ℕ → List Key → List Key → Result Error Key
  unfolding first_bytes
  calculate_first_c digest alpha ks = do
    fail_if (not (length alpha == length ks)) wrong_lengths
    fail_if (length ks == 0) panic
    ok (c.hash_to_scalar (digest ++ first_bytes alpha ks))

  -- What calculateNextC appends to the message. The lists have the same length.
  unfoldable pub next_bytes : List Key → Key → List Key → List Key → List ℕ
  next_bytes (r ∷ []) cc (k ∷ ks) images =
      c.add_keys (c.scalarmult_key pcm.g4 r) (c.scalarmult_key k cc)
  next_bytes (r ∷ s ∷ rs) cc (k ∷ ks) (i ∷ images) =
      c.add_keys (c.scalarmult_base r) (c.scalarmult_key k cc)
      ++ (c.add_keys (c.scalarmult_key (c.hash_to_point k) r) (c.scalarmult_key i cc)
          ++ next_bytes (s ∷ rs) cc ks images)
  next_bytes rs cc ks images = []

  unfoldable pub calculate_next_c : List ℕ → List Key → Key → List Key → List Key → Result Error Key
  unfolding next_bytes
  calculate_next_c digest r cc ks images = do
    fail_if (not (length r == length ks) || not (length r == length images)) wrong_lengths
    fail_if (length ks == 0) panic
    ok (c.hash_to_scalar (digest ++ next_bytes r cc ks images))

  -- `r[pi][i] = alpha[i] - c[pi] * privateKeys[i]`
  unfoldable pub respond : List Key → Key → List Key → List Key
  respond (a ∷ as') cc (x ∷ xs) = c.sc_sub a (c.sc_mul cc x) ∷ respond as' cc xs
  respond as' cc xs = []

  abbrev pub row_at : List (List Key) → ℕ → Result Error (List Key)
  row_at rows i = elim (get_elem? rows i) [ none ↦ err panic | some row ↦ ok row ]

  -- The array `c`, in which nil is `none`.
  abbrev pub Challenges : Type 0
  Challenges = ℕ → Option Key

  abbrev pub set_challenge : ℕ → Key → Challenges → Challenges
  set_challenge j cc cs = λ i. if i == j then some cc else cs i

  abbrev pub challenge_at : Challenges → ℕ → Result Error Key
  challenge_at cs i = elim (cs i) [ none ↦ err panic | some cc ↦ ok cc ]

module _ (c : Curve) (pcm : PedersenCommitment) (digest : List ℕ) (keys r : List (List Key))
    (images : List Key) (pi : ℕ) where
  -- The body of the loop of calculateC.
  unfoldable pub next_challenge : Challenges c pcm → ℕ → Result Error Key
  next_challenge cs i = do
    row ← row_at c pcm r i
    cc ← challenge_at c pcm cs i
    ks ← row_at c pcm keys i
    calculate_next_c c pcm digest row cc ks images

  -- The loop, with a bound on its rounds.
  unfoldable pub challenge_loop : ℕ → ℕ → ℕ → Challenges c pcm → Result Error (Challenges c pcm)
  challenge_loop zero i next cs = err out_of_rounds
  challenge_loop (suc rounds) i next cs = elim (i == pi) [
    | true ↦ ok cs
    | false ↦ elim (next_challenge cs i) [
      | err e ↦ err e
      | ok cc ↦
          challenge_loop rounds next ((next + 1) % length keys) (set_challenge c pcm next cc cs)
    ]
  ]

module _ (c : Curve) (pcm : PedersenCommitment) where
  -- calculateC: the challenges, and the row that it writes into `r` for the signer.
  unfoldable pub calculate_c :
      List ℕ
      → List (List Key)
      → List (List Key)
      → List Key
      → ℕ
      → List Key
      → List Key
      → Result Error (Challenges c pcm × List Key)
  calculate_c digest keys r images pi alpha private_keys = do
    ks ← row_at c pcm keys pi
    first ← calculate_first_c c pcm digest alpha ks
    cs ←
        challenge_loop c pcm digest keys r images pi (length keys) ((pi + 1) % length keys)
          (((pi + 1) % length keys + 1) % length keys)
          (set_challenge c pcm ((pi + 1) % length keys) first (λ i. none))
    cc ← challenge_at c pcm cs pi
    ok (cs, respond c pcm alpha cc private_keys)

-- r[pi] = row
unfoldable pub set_row : ℕ → List Key → List (List Key) → List (List Key)
set_row i row [] = []
set_row zero row (s ∷ rows) = row ∷ rows
set_row (suc i) row (s ∷ rows) = s ∷ set_row i row rows

pub record Sig : Type 0 where
  pub challenge : Key
  pub key_images : List Key
  pub responses : List (List Key)

-- Sign; `alpha` and `r` are the random scalars of createRandomChallenges.
unfoldable pub sign :
    (c : Curve)
    → PedersenCommitment
    → List (List Key)
    → ℕ
    → List Key
    → List Key
    → List (List Key)
    → List ℕ
    → Result Error Sig
sign c pcm keys pi private_keys alpha r message = do
  fail_if (not (length message == 32)) wrong_message_length
  done ←
      calculate_c c pcm message keys r (parse_key_images c pcm private_keys) pi alpha private_keys
  cc ← challenge_at c pcm done.0 0
  ok (record {
    challenge = cc;
    key_images = parse_key_images c pcm private_keys;
    responses = set_row pi done.1 r;
  })
