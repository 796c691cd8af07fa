-- ===== src/Coin/V2/Make/Search.antt =====
-- The loop over the indices of NewCoinFromPaymentInfo and NewCoinCA.
use go_incognito_sdk_v.Base.{
  ℕ, zero, suc, ◌+◌, ◌%◌, ◌^◌, ◌≤◌, ◌<◌, ◌≡◌, refl, ap, ◌∙◌, true, false, some, length, arith,
  Bool-cases, inl, inr,
}
use go_incognito_sdk_v.Crypto.{Key, Curve, d2h, d2h_loop}
use go_incognito_sdk_v.Coin.Shard.{ShardInfo, derive_shard_info_from_coin}
use go_incognito_sdk_v.Coin.Receiver.{wanted}
use go_incognito_sdk_v.Coin.V2.Owner.{one_time_key}
use go_incognito_sdk_v.Coin.V2.Make.{find_index}

module _ (c : Curve) (n : ℕ) (rk spend : Key) (w : ShardInfo) where
  -- The key of the index falls into the wanted shards.
  abbrev pub IsHit : ℕ → Type 0
  IsHit i = wanted w (derive_shard_info_from_coin n (one_time_key c rk i spend)) ≡ true

  -- What the search makes of a hit within the rounds that it has: the first hit.
  pub record IsFirst (index top : ℕ) (found : ℕ) : Type 0 where
    pub above : index < found
    pub below : found ≤ top
    pub hit : IsHit found

  find_index-hit :
      (tries index : ℕ)
      → (index + 1) % 2 ^ 32 ≡ index + 1
      → IsHit (index + 1)
      → find_index c n rk spend w (suc tries) index ≡ some (index + 1)
  unfolding find_index
  find_index-hit tries index m e = rw (m, e)

  find_index-miss :
      (tries index : ℕ)
      → (index + 1) % 2 ^ 32 ≡ index + 1
      → wanted w (derive_shard_info_from_coin n (one_time_key c rk (index + 1) spend)) ≡ false
      → find_index c n rk spend w (suc tries) index ≡ find_index c n rk spend w tries (index + 1)
  unfolding find_index
  find_index-miss tries index m e = rw (m, e)

  -- If one of the next indices is a hit, the search ends with a hit that is not larger.
  pub find_index-IsFirst :
      (tries index d : ℕ)
      → d < tries
      → index + 1 + d < 2 ^ 32
      → IsHit (index + 1 + d)
      → (j : ℕ) × (find_index c n rk spend w tries index ≡ some j) × IsFirst index (index + 1 + d) j
  find_index-IsFirst zero index d l s h = absurd (omega arith)
  find_index-IsFirst (suc tries) index d l s h =
      let m : (index + 1) % 2 ^ 32 ≡ index + 1 = omega arith in
      elim (Bool-cases
        (wanted w (derive_shard_info_from_coin n (one_time_key c rk (index + 1) spend)))) [
          | inl e ↦ (
            index + 1,
            find_index-hit tries index m e,
            record { above = omega arith; below = omega arith; hit = e },
          )
          | inr e ↦
              later tries index d l s h m e
                (λ d' l' s' h'. find_index-IsFirst tries (index + 1) d' l' s' h')
        ]
    where
      later :
          (tries index d : ℕ)
          → d < suc tries
          → index + 1 + d < 2 ^ 32
          → IsHit (index + 1 + d)
          → (index + 1) % 2 ^ 32 ≡ index + 1
          → wanted w (derive_shard_info_from_coin n (one_time_key c rk (index + 1) spend)) ≡ false
          → ((d : ℕ)
              → d < tries
              → index + 1 + 1 + d < 2 ^ 32
              → IsHit (index + 1 + 1 + d)
              → (j : ℕ) × (find_index c n rk spend w tries (index + 1) ≡ some j)
                × IsFirst (index + 1) (index + 1 + 1 + d) j)
          → (j : ℕ) × (find_index c n rk spend w (suc tries) index ≡ some j)
            × IsFirst index (index + 1 + d) j
      later tries index zero l s h m e ih =
          let z : index + 1 + 0 ≡ index + 1 = omega arith in
          let h' : IsHit (index + 1) = rw z at h in cc
      later tries index (suc d) l s h m e ih =
          let z : index + 1 + suc d ≡ index + 1 + 1 + d = omega arith in
          let (j, f, first) = ih d (omega arith) (omega arith) (rw z at h) in
          (
            j,
            find_index-miss tries index m e ∙ f,
            record {
              above = omega (arith, first.above);
              below = omega (arith, first.below);
              hit = first.hit;
            },
          )

length-d2h_loop : (k v : ℕ) → length (d2h_loop k v) ≡ k
unfolding d2h_loop
length-d2h_loop zero v = refl
length-d2h_loop (suc k) v = ap suc (length-d2h_loop k _)

pub length-d2h : (v : ℕ) → length (d2h v) ≡ 32
unfolding d2h
length-d2h v = length-d2h_loop 32 v
