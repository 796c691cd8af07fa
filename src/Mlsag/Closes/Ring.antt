-- ===== src/Mlsag/Closes/Ring.antt =====
-- A place of a ring that closes, and one round of the loop of calculateC of
-- privacy/v2/mlsag/mlsag.go.
pub mod Around
use native.Mathlib.Nat.{mod-eq_of_lt, mod_self}
use mathlib.Core.Path.{subst}
use go_incognito_sdk_v.Base.{
  ℕ, zero, suc, ◌+◌, ◌-◌, ◌%◌, ◌≤◌, ◌<◌, ◌≡◌, refl, sym, ap, ◌∙◌, ◌⊎◌, inl, inr, true, false, List,
  [], ◌∷◌, ◌++◌, some, length, get_elem?, ok, All, arith, ◌==◌, if◌then◌else◌, Bool-cases, leb,
  le_or_lt,
}
use go_incognito_sdk_v.Crypto.{Key, Curve, PedersenCommitment}
use go_incognito_sdk_v.Crypto.Laws.{IsScalar}
use go_incognito_sdk_v.Mlsag.{
  Challenges, set_challenge, row_at, challenge_at, next_bytes, calculate_next_c, next_challenge,
  challenge_loop,
}
use go_incognito_sdk_v.Mlsag.Closes.Distance.{
  after_last, distance, distance-next, distance-same, farther, distance_start, All-get,
}

module _ (c : Curve) (pcm : PedersenCommitment) (digest : List ℕ) (keys r : List (List Key))
    (images : List Key) (pi : ℕ) where
  -- The challenge of a place and the responses of its row give the challenge of the next place.
  pub record Closes (rows : List (List Key)) (cs : Challenges c pcm) (j : ℕ) : Type 0 where
    pub row : List Key
    pub ks : List Key
    pub here : Key
    pub there : Key
    pub response : get_elem? rows j ≡ some row
    pub member : get_elem? keys j ≡ some ks
    pub at : cs j ≡ some here
    pub next : cs ((j + 1) % length keys) ≡ some there
    pub computed : calculate_next_c c pcm digest row here ks images ≡ ok there

  pub next_computes :
      (m : ℕ) (row ks : List Key) (cc : Key)
      → length row ≡ m
      → length ks ≡ m
      → length images ≡ m
      → 0 < m
      → ((b : List ℕ) → IsScalar c (c.hash_to_scalar b))
      → (there : Key) × (calculate_next_c c pcm digest row cc ks images ≡ ok there)
        × IsScalar c there
  next_computes m row ks cc hr hk hi pos hashes =
      let e : (length row == length ks) ≡ true = ground arith in
      let f : (length row == length images) ≡ true = ground arith in
      let g : (length ks == 0) ≡ false = ground arith in
      (
        c.hash_to_scalar (digest ++ next_bytes c pcm row cc ks images),
        unfold calculate_next_c in rw (e, f, g) refl,
        hashes (digest ++ next_bytes c pcm row cc ks images),
      )

  pub next_challenge_lem :
      (cs : Challenges c pcm) (i : ℕ) (row ks : List Key) (here there : Key)
      → get_elem? r i ≡ some row
      → cs i ≡ some here
      → get_elem? keys i ≡ some ks
      → calculate_next_c c pcm digest row here ks images ≡ ok there
      → next_challenge c pcm digest keys r images pi cs i ≡ ok there
  unfolding next_challenge
  next_challenge_lem cs i row ks here there er e ek t =
      rw (er, next_challenge, row_at) (rw (e, challenge_at) (rw (ek, row_at) t))

  pub loop_ends :
      (rounds next i : ℕ) (cs : Challenges c pcm)
      → (i == pi) ≡ true
      → challenge_loop c pcm digest keys r images pi (suc rounds) i next cs ≡ ok cs
  unfolding challenge_loop
  loop_ends rounds next i cs o = rw (o, challenge_loop) refl

  pub loop_goes :
      (rounds next i : ℕ) (cs cs' : Challenges c pcm) (there : Key)
      → (i == pi) ≡ false
      → next_challenge c pcm digest keys r images pi cs i ≡ ok there
      → challenge_loop c pcm digest keys r images pi rounds next
          ((next + 1) % length keys)
          (set_challenge c pcm next there cs)
        ≡ ok cs'
      → challenge_loop c pcm digest keys r images pi (suc rounds) i next cs ≡ ok cs'
  unfolding challenge_loop
  loop_goes rounds next i cs cs' there o u run = rw (o, challenge_loop) (rw u run)
