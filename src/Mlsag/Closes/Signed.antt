-- ===== src/Mlsag/Closes/Signed.antt =====
-- Sign of privacy/v2/mlsag/mlsag.go.
use mathlib.Core.Path.{subst}
use go_incognito_sdk_v.Base.{
  ℕ, ◌+◌, ◌%◌, ◌≤◌, ◌<◌, ◌≡◌, refl, sym, ◌∙◌, ◌⊎◌, inl, inr, true, false, List, ◌++◌, none, some,
  length, get_elem?, ok, All, arith, ◌==◌, Bool-cases,
}
use go_incognito_sdk_v.Crypto.{Key, Curve, PedersenCommitment}
use go_incognito_sdk_v.Crypto.Laws.{IsPoint, IsScalar, CurveLaws}
use go_incognito_sdk_v.Mlsag.{
  Challenges, Sig, set_challenge, set_row, calculate_first_c, challenge_loop, sign, respond,
  public_keys, parse_key_images, first_bytes,
}
use go_incognito_sdk_v.Mlsag.Closes.{
  MultipleLaws, calculate_next_c-first, length-public_keys, length-parse_key_images,
}
use go_incognito_sdk_v.Mlsag.Closes.Steps.{
  get_elem?-set_row, get_elem?-set_row_same, first_computes, calculate_c_lem, sign_lem,
}
use go_incognito_sdk_v.Mlsag.Closes.Ring.{Closes}
use go_incognito_sdk_v.Mlsag.Closes.Ring.Around.{Round, Before-start, loop-Round}
use go_incognito_sdk_v.Mlsag.Closes.Distance.{distance_start, after_last}

module _ (c : Curve) (laws : CurveLaws c) (more : MultipleLaws c) (pcm : PedersenCommitment)
    (g4 : IsPoint c pcm.g4) where
  -- The keys, the random scalars and the ring that a signer needs.
  pub record CanSign (keys r : List (List Key)) (pi : ℕ) (xs alpha : List Key) : Type 0 where
    pub some_keys : 0 < length xs
    pub key_scalars : All (IsScalar c) xs
    pub random_scalars : All (IsScalar c) alpha
    pub random_count : length alpha ≡ length xs
    pub inside : pi < length keys
    pub own_row : get_elem? keys pi ≡ some (public_keys c pcm xs)
    pub key_rows : All (λ row. length row ≡ length xs) keys
    pub response_rows : All (λ row. length row ≡ length xs) r
    pub same_size : length r ≡ length keys

module _ (c : Curve) (laws : CurveLaws c) (more : MultipleLaws c) (pcm : PedersenCommitment)
    (g4 : IsPoint c pcm.g4) (keys r : List (List Key)) (pi : ℕ) (xs alpha : List Key)
    (digest : List ℕ) (can : CanSign c laws more pcm g4 keys r pi xs alpha) where
  abbrev first : Key
  first = c.hash_to_scalar (digest ++ first_bytes c pcm alpha (public_keys c pcm xs))

  abbrev start : ℕ
  start = (pi + 1) % length keys

  abbrev begun : Challenges c pcm
  begun = set_challenge c pcm start first (λ i. none)

  first_ok : calculate_first_c c pcm digest alpha (public_keys c pcm xs) ≡ ok first
  first_ok =
      let l = length-public_keys c laws more pcm g4 xs in
      first_computes c laws more pcm g4 digest alpha (public_keys c pcm xs)
        (omega (arith, l, can.random_count)) (omega (arith, l, can.some_keys))

  start_inside : start < length keys
  start_inside = elim (after_last pi (length keys) can.inside) [
    | inl (more', q) ↦ rw q (omega arith)
    | inr (last, q) ↦ rw q (omega (arith, can.inside))
  ]

  begun_start : begun start ≡ some first
  begun_start = let b : (start == start) ≡ true = ground arith in rw b refl

  goes_around :
      (cs : Challenges c pcm) × (challenge_loop c pcm digest keys r
          (parse_key_images c pcm xs)
          pi
          (length keys)
          start
          ((start + 1) % length keys)
          begun
        ≡ ok cs)
      × Round c pcm digest keys r
          (parse_key_images c pcm xs)
          pi
          (length xs)
          can.some_keys
          can.key_rows
          can.response_rows
          can.same_size
          (length-parse_key_images c laws more pcm g4 xs)
          can.inside
          laws.hash_to_scalar-IsScalar
          begun
          cs
          start
  goes_around =
      loop-Round c pcm digest keys r (parse_key_images c pcm xs) pi (length xs) can.some_keys
        can.key_rows can.response_rows can.same_size (length-parse_key_images c laws more pcm g4 xs)
        can.inside laws.hash_to_scalar-IsScalar (length keys) begun start first start_inside
        (omega (arith, distance_start (length keys) pi can.inside)) begun_start
        (laws.hash_to_scalar-IsScalar _)
        (Before-start c pcm digest keys r (parse_key_images c pcm xs) pi (length xs) can.some_keys
          can.key_rows can.response_rows can.same_size
          (length-parse_key_images c laws more pcm g4 xs) can.inside laws.hash_to_scalar-IsScalar
          begun)

  -- The ring that a signature leaves: every place closes with the responses of the signature.
  pub record Signed (sig : Sig) : Type 0 where
    pub images : sig.key_images ≡ parse_key_images c pcm xs
    pub challenges : Challenges c pcm
    pub published : challenges 0 ≡ some sig.challenge
    pub closed :
        (j : ℕ)
        → (length keys ≤ j)
          ⊎ Closes c pcm digest keys r (parse_key_images c pcm xs) pi sig.responses challenges j

  own_place :
      (cs : Challenges c pcm) (cc : Key)
      → cs pi ≡ some cc
      → IsScalar c cc
      → cs start ≡ some first
      → Closes c pcm digest keys r
          (parse_key_images c pcm xs)
          pi
          (set_row pi (respond c pcm alpha cc xs) r)
          cs
          pi
  own_place cs cc e sc s = record {
    row = respond c pcm alpha cc xs;
    ks = public_keys c pcm xs;
    here = cc;
    there = first;
    response =
        get_elem?-set_row_same pi (respond c pcm alpha cc xs) r
          (omega (arith, can.inside, can.same_size));
    member = can.own_row;
    at = e;
    next = s;
    computed =
        calculate_next_c-first c laws more pcm g4 digest alpha xs cc can.random_count
          can.random_scalars can.key_scalars sc
        ∙ first_ok;
  }

  other_place :
      (cs : Challenges c pcm) (row : List Key) (j : ℕ)
      → (j == pi) ≡ false
      → Closes c pcm digest keys r (parse_key_images c pcm xs) pi r cs j
      → Closes c pcm digest keys r (parse_key_images c pcm xs) pi (set_row pi row r) cs j
  other_place cs row j o h = record {
    row = h.row;
    ks = h.ks;
    here = h.here;
    there = h.there;
    response = get_elem?-set_row pi j row r o ∙ h.response;
    member = h.member;
    at = h.at;
    next = h.next;
    computed = h.computed;
  }

  every_place :
      (cs : Challenges c pcm) (cc : Key)
      → cs pi ≡ some cc
      → IsScalar c cc
      → cs start ≡ some first
      → ((j : ℕ)
          → (length keys ≤ j)
            ⊎ ((j ≡ pi) ⊎ Closes c pcm digest keys r (parse_key_images c pcm xs) pi r cs j))
      → (j : ℕ)
      → (length keys ≤ j)
        ⊎ Closes c pcm digest keys r
            (parse_key_images c pcm xs)
            pi
            (set_row pi (respond c pcm alpha cc xs) r)
            cs
            j
  every_place cs cc e sc s closed j = elim (Bool-cases (j == pi)) [
    | inl o ↦
        let q : j ≡ pi = ground arith in
        inr (
          subst
            (Closes c pcm digest keys r (parse_key_images c pcm xs) pi
              (set_row pi (respond c pcm alpha cc xs) r) cs)
            (sym q) (own_place cs cc e sc s))
    | inr o ↦ elim (closed j) [
      | inl past ↦ inl past
      | inr (inl own) ↦ absurd (ground arith)
      | inr (inr h) ↦ inr (other_place cs (respond c pcm alpha cc xs) j o h)
    ]
  ]

  -- The curve has the laws, and the private keys and the random numbers of the signer are scalars.
  -- Sign of a message of 32 bytes, for private keys whose public keys are the row of the signer in a
  -- ring of full rows, gives a signature whose ring closes: from the challenge and the responses
  -- of every place the code computes the challenge of the next one, the signer's place included.
  pub sign-Signed :
      length digest ≡ 32
      → (sig : Sig) × (sign c pcm keys pi xs alpha r digest ≡ ok sig) × Signed sig
  sign-Signed l =
      let (cs, run, rd) = goes_around in
      let (cc, e, sc) = rd.mine in
      let s : cs start ≡ some first = elim (rd.kept start) [
        | inl past ↦ absurd (omega (arith, start_inside))
        | inr (inl near) ↦ absurd (omega arith)
        | inr (inr same) ↦ same ∙ begun_start
      ] in
      let done =
        calculate_c_lem c laws more pcm g4 digest keys r (parse_key_images c pcm xs) alpha xs
          (public_keys c pcm xs) pi first cc cs can.own_row first_ok run e in
      let places = every_place cs cc e sc s rd.closed in
      let (zeroth, z) : (k : Key) × (cs 0 ≡ some k) = elim (places 0) [
        | inl past ↦ absurd (omega (arith, can.inside))
        | inr h ↦ (h.here, h.at)
      ] in
      (
        record {
          challenge = zeroth;
          key_images = parse_key_images c pcm xs;
          responses = set_row pi (respond c pcm alpha cc xs) r;
        },
        sign_lem c laws more pcm g4 keys r pi xs alpha (respond c pcm alpha cc xs) digest cs zeroth
            l done z,
        record { images = refl; challenges = cs; published = z; closed = places },
      )
