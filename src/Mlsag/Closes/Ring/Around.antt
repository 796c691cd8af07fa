-- ===== src/Mlsag/Closes/Ring/Around.antt =====
-- The loop of calculateC of privacy/v2/mlsag/mlsag.go goes around the ring.
use mathlib.Core.Path.{subst}
use go_incognito_sdk_v.Base.{
  ℕ, zero, suc, ◌+◌, ◌%◌, ◌≤◌, ◌<◌, ◌≡◌, refl, sym, ◌∙◌, ◌⊎◌, inl, inr, true, false, List, some,
  length, get_elem?, ok, All, arith, ◌==◌, Bool-cases, le_or_lt,
}
use go_incognito_sdk_v.Crypto.{Key, Curve, PedersenCommitment}
use go_incognito_sdk_v.Crypto.Laws.{IsScalar}
use go_incognito_sdk_v.Mlsag.{
  Challenges, set_challenge, calculate_next_c, next_challenge, challenge_loop,
}
use go_incognito_sdk_v.Mlsag.Closes.Distance.{
  distance, distance-next, distance-same, farther, distance_start, All-get,
}
use go_incognito_sdk_v.Mlsag.Closes.Ring.{
  Closes, next_computes, next_challenge_lem, loop_ends, loop_goes,
}

module _ (c : Curve) (pcm : PedersenCommitment) (digest : List ℕ) (keys r : List (List Key))
    (images : List Key) (pi : ℕ) (m : ℕ) (pos : 0 < m) (key_rows : All (λ row. length row ≡ m) keys)
    (response_rows : All (λ row. length row ≡ m) r) (same_size : length r ≡ length keys)
    (image_count : length images ≡ m) (inside : pi < length keys)
    (hashes : (b : List ℕ) → IsScalar c (c.hash_to_scalar b)) where
  one_round :
      (cs : Challenges c pcm) (i : ℕ) (here : Key)
      → i < length keys
      → cs i ≡ some here
      → (row ks : List Key) × (there : Key) × (get_elem? r i ≡ some row)
        × (get_elem? keys i ≡ some ks)
        × (calculate_next_c c pcm digest row here ks images ≡ ok there)
        × (next_challenge c pcm digest keys r images pi cs i ≡ ok there)
        × IsScalar c there
  one_round cs i here hi e =
      let (row, er, hr) = All-get (λ row. length row ≡ m) r i response_rows (omega arith) in
      let (ks, ek, hk) = All-get (λ row. length row ≡ m) keys i key_rows hi in
      let (there, t, sc) =
        next_computes c pcm digest keys r images pi m row ks here hr hk image_count pos hashes in
      (
        row,
        ks,
        there,
        er,
        ek,
        t,
        next_challenge_lem c pcm digest keys r images pi cs i row ks here there er e ek t,
        sc,
      )

  Closes-kept :
      (cs : Challenges c pcm) (i j : ℕ) (cc : Key)
      → j < length keys
      → i < length keys
      → suc (distance (length keys) pi i) < distance (length keys) pi j
      → Closes c pcm digest keys r images pi r cs j
      → Closes c pcm digest keys r images pi r (set_challenge c pcm i cc cs) j
  Closes-kept cs i j cc hj hi far h =
      let o : (j == pi) ≡ false = ground arith in
      let (d, q) = distance-next (length keys) pi j hj inside o in
      let a : (j == i) ≡ false = farther (length keys) pi i j (omega arith) in
      let b : (((j + 1) % length keys) == i) ≡ false =
        farther (length keys) pi i ((j + 1) % length keys) (omega (arith, d)) in
      record {
        row = h.row;
        ks = h.ks;
        here = h.here;
        there = h.there;
        response = h.response;
        member = h.member;
        at = rw a h.at;
        next = rw b h.next;
        computed = h.computed;
      }

  Closes-set :
      (cs : Challenges c pcm) (i : ℕ) (row ks : List Key) (here there : Key)
      → i < length keys
      → (i == pi) ≡ false
      → get_elem? r i ≡ some row
      → get_elem? keys i ≡ some ks
      → cs i ≡ some here
      → calculate_next_c c pcm digest row here ks images ≡ ok there
      → Closes c pcm digest keys r images pi r
          (set_challenge c pcm ((i + 1) % length keys) there cs)
          i
  Closes-set cs i row ks here there hi o er ek e t =
      let n = (i + 1) % length keys in
      let (d, q) = distance-next (length keys) pi i hi inside o in
      let a : (i == n) ≡ false = farther (length keys) pi n i (omega arith) in
      let b : (n == n) ≡ true = ground arith in
      record {
        row = row;
        ks = ks;
        here = here;
        there = there;
        response = er;
        member = ek;
        at = rw a e;
        next = rw b refl;
        computed = t;
      }

  -- What the loop makes of the challenges.
  pub record Round (cs cs' : Challenges c pcm) (i : ℕ) : Type 0 where
    pub kept :
        (j : ℕ)
        → (length keys ≤ j)
          ⊎ ((distance (length keys) pi j < distance (length keys) pi i) ⊎ (cs' j ≡ cs j))
    pub closed :
        (j : ℕ) → (length keys ≤ j) ⊎ ((j ≡ pi) ⊎ Closes c pcm digest keys r images pi r cs' j)
    pub mine : (cc : Key) × (cs' pi ≡ some cc) × IsScalar c cc

  -- Before a round, the places that were gone through close.
  pub Before : Challenges c pcm → ℕ → Type 0
  Before cs i =
      (j : ℕ)
      → (length keys ≤ j)
        ⊎ ((distance (length keys) pi j ≤ distance (length keys) pi i)
            ⊎ Closes c pcm digest keys r images pi r cs j)

  pub Before-start : (cs : Challenges c pcm) → Before cs ((pi + 1) % length keys)
  unfolding Before
  Before-start cs j = elim (le_or_lt (length keys) j) [
    | inl past ↦ inl past
    | inr under ↦
        let s = distance_start (length keys) pi inside in
        let d : distance (length keys) pi j < length keys = ground arith in inr (inl (omega arith))
  ]

  Before-pi :
      (cs : Challenges c pcm) (j : ℕ)
      → Before cs pi
      → (length keys ≤ j) ⊎ ((j ≡ pi) ⊎ Closes c pcm digest keys r images pi r cs j)
  unfolding Before
  Before-pi cs j before = elim (before j) [
    | inl past ↦ inl past
    | inr (inr old) ↦ inr (inr old)
    | inr (inl near) ↦ elim (le_or_lt (length keys) j) [
      | inl past ↦ inl past
      | inr under ↦ inr (inl (ground arith))
    ]
  ]

  Before-set :
      (cs : Challenges c pcm) (i : ℕ) (there : Key)
      → i < length keys
      → (i == pi) ≡ false
      → Closes c pcm digest keys r images pi r
          (set_challenge c pcm ((i + 1) % length keys) there cs)
          i
      → Before cs i
      → Before (set_challenge c pcm ((i + 1) % length keys) there cs) ((i + 1) % length keys)
  unfolding Before
  Before-set cs i there hi o new before j =
      let n = (i + 1) % length keys in
      let (d, hn) = distance-next (length keys) pi i hi inside o in
      elim (le_or_lt (length keys) j) [
        | inl past ↦ inl past
        | inr under ↦ elim (le_or_lt (distance (length keys) pi j) (distance (length keys) pi n)) [
          | inl near ↦ inr (inl near)
          | inr gone ↦ elim (le_or_lt (distance (length keys) pi j) (distance (length keys) pi i)) [
            | inl last ↦
                let q : j ≡ i =
                  distance-same (length keys) pi j i under hi inside (omega (arith, d)) in
                inr (
                  inr (
                    subst (Closes c pcm digest keys r images pi r (set_challenge c pcm n there cs))
                      (sym q) new))
            | inr earlier ↦ elim (before j) [
              | inl past ↦ inl past
              | inr (inl near) ↦ absurd (omega arith)
              | inr (inr old) ↦ inr (inr (Closes-kept cs n j there under hn (omega (arith, d)) old))
            ]
          ]
        ]
      ]

  Round-set :
      (cs cs' : Challenges c pcm) (i : ℕ) (there : Key)
      → i < length keys
      → (i == pi) ≡ false
      → Round (set_challenge c pcm ((i + 1) % length keys) there cs) cs' ((i + 1) % length keys)
      → Round cs cs' i
  Round-set cs cs' i there hi o rd =
      let n = (i + 1) % length keys in
      let (d, hn) = distance-next (length keys) pi i hi inside o in
      record {
        kept = λ j. elim (rd.kept j) [
          | inl past ↦ inl past
          | inr (inl near) ↦ inr (inl (omega (arith, d)))
          | inr (inr same) ↦
              elim (le_or_lt (distance (length keys) pi i) (distance (length keys) pi j)) [
                | inr near ↦ inr (inl near)
                | inl far ↦
                    let a : (j == n) ≡ false = farther (length keys) pi n j (omega (arith, d)) in
                    inr (inr (same ∙ rw a refl))
              ]
        ];
        closed = rd.closed;
        mine = rd.mine;
      }

  pub loop-Round :
      (rounds : ℕ) (cs : Challenges c pcm) (i : ℕ) (here : Key)
      → i < length keys
      → distance (length keys) pi i < rounds
      → cs i ≡ some here
      → IsScalar c here
      → Before cs i
      → (cs' : Challenges c pcm) × (challenge_loop c pcm digest keys r images pi rounds i
            ((i + 1) % length keys)
            cs
          ≡ ok cs')
        × Round cs cs' i
  loop-Round zero cs i here hi lt e sc before = absurd (omega arith)
  loop-Round (suc rounds) cs i here hi lt e sc before = elim (Bool-cases (i == pi)) [
    | inl o ↦
        let q : i ≡ pi = ground arith in
        (
          cs,
          loop_ends c pcm digest keys r images pi rounds ((i + 1) % length keys) i cs o,
          record {
            kept = λ j. inr (inr refl);
            closed = λ j. Before-pi cs j (subst (Before cs) q before);
            mine = (here, rw (← q) e, sc);
          },
        )
    | inr o ↦
        let n = (i + 1) % length keys in
        let (d, hn) = distance-next (length keys) pi i hi inside o in
        let (row, ks, there, er, ek, t, u, st) = one_round cs i here hi e in
        let cs1 = set_challenge c pcm n there cs in
        let b : (n == n) ≡ true = ground arith in
        let at : cs1 n ≡ some there = rw b refl in
        let new = Closes-set cs i row ks here there hi o er ek e t in
        let (cs', run, rd) =
          loop-Round rounds cs1 n there hn (omega (arith, d)) at st
            (Before-set cs i there hi o new before) in
        (
          cs',
          loop_goes c pcm digest keys r images pi rounds n i cs cs' there o u run,
          Round-set cs cs' i there hi o rd,
        )
  ]
