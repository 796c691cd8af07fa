-- ===== src/Client/Cache/Sync/Safe.antt =====
-- The loop of syncOutCoinV2 of incclient/coin_cache.go, whatever the order of the answers.
use go_incognito_sdk_v.Base.{
  ℕ, suc, ◌+◌, ◌-◌, ◌^◌, ◌≤◌, ◌<◌, ◌≡◌, refl, ◌⊎◌, inl, inr, Bool, true, false, ◌&&◌, ◌||◌, List,
  [], ◌∷◌, ◌++◌, Option, none, some, ltb, leb, if◌then◌else◌, length, length-append, All,
  All-append, Result, ok, arith, Bool-cases,
}
use go_incognito_sdk_v.Base.Maps.{lookup, IsMap, or_else}
use go_incognito_sdk_v.Client.Cache.{Error}
use go_incognito_sdk_v.Client.Cache.Sync.{
  batch_size, num_threads, Loop, next_index, begin, spawned, received, Step, Reach, at_start, after,
  spawn, receive,
}
use go_incognito_sdk_v.Client.Cache.Sync.Batch.{lookup-merge}

-- The index is in a range that a goroutine was given.
unfoldable pub in_batch : ℕ → List (ℕ × ℕ) → Bool
in_batch i [] = false
in_batch i ((from, to) ∷ bs) = (leb from i && leb i to) || in_batch i bs

in_batch-append :
    (i : ℕ) (xs ys : List (ℕ × ℕ)) → in_batch i (xs ++ ys) ≡ (in_batch i xs || in_batch i ys)
unfolding in_batch
in_batch-append i [] ys = refl
in_batch-append i ((from, to) ∷ xs) ys = ground (arith, in_batch-append i xs ys)

in_batch-idle : (i : ℕ) (bs : List (ℕ × ℕ)) → length bs ≡ 0 → in_batch i bs ≡ true → ⊥
unfolding in_batch
in_batch-idle i [] h k = absurd (grind arith)
in_batch-idle i (b ∷ bs) h k = absurd (omega arith)

in_batch-others :
    (i from to : ℕ) (pre post : List (ℕ × ℕ))
    → in_batch i (pre ++ ((from, to) ∷ post)) ≡ true
    → (leb from i && leb i to) ≡ false
    → in_batch i (pre ++ post) ≡ true
unfolding in_batch
in_batch-others i from to [] post h k = grind arith
in_batch-others i from to ((a, b) ∷ pre) post h k = elim (Bool-cases (leb a i && leb i b)) [
  | inl e ↦ rw e refl
  | inr e ↦ rw e (in_batch-others i from to pre post (grind arith) k)
]

-- A range within the indices that are fetched.
abbrev pub IsWithin : ℕ → ℕ → ℕ × ℕ → Type 0
IsWithin start coin_length b = (start ≤ b.0) × (b.0 ≤ b.1) × (b.1 < coin_length)

module _ {A : Type 0} where
  All-parts :
      (P : A → Type 0) (pre : List A) (x : A) (post : List A)
      → All P (pre ++ (x ∷ post))
      → P x × All P (pre ++ post)
  All-parts P [] x post h = h
  All-parts P (y ∷ pre) x post h = let (p, q) = All-parts P pre x post h.1 in (p, (h.0, q))

  or_else_left : (o r w : Option A) → o ≡ w → (r ≡ none) ⊎ (r ≡ w) → or_else o r ≡ w
  or_else_left none r w e h = grind arith
  or_else_left (some a) r w e h = e

  or_else_right : (o r w : Option A) → (o ≡ none) ⊎ (o ≡ w) → r ≡ w → or_else o r ≡ w
  or_else_right none r w h e = e
  or_else_right (some a) r w h e = grind arith

  or_else_either :
      (o r w : Option A)
      → (o ≡ none) ⊎ (o ≡ w)
      → (r ≡ none) ⊎ (r ≡ w)
      → (or_else o r ≡ none) ⊎ (or_else o r ≡ w)
  or_else_either none r w h k = k
  or_else_either (some a) r w h k = inr (grind arith)

module _ {A : Type 0} (own : ℕ → Option A) (start coin_length : ℕ) where
  -- What the account owns among the indices that are fetched.
  abbrev pub wanted : ℕ → Option A
  wanted i = if leb start i && ltb i coin_length then own i else none

  pub record Sound (s : Loop A) : Type 0 where
    pub begun : start ≤ s.current
    pub bounded : s.current ≤ coin_length
    pub within : All (IsWithin start coin_length) s.in_flight
    pub counted : s.working ≡ length s.in_flight
    pub shared :
        s.done + s.working + num_threads coin_length s.current ≡ num_threads coin_length start
    pub right : (i : ℕ) → (lookup i s.res ≡ none) ⊎ (lookup i s.res ≡ wanted i)
    pub covered :
        (i : ℕ) → (s.current ≤ i) ⊎ ((in_batch i s.in_flight ≡ true) ⊎ (lookup i s.res ≡ wanted i))

  pub begin-Sound : start ≤ coin_length → Sound (begin start)
  unfolding lookup
  begin-Sound h = record {
    begun = omega arith;
    bounded = h;
    within = tt;
    counted = refl;
    shared = omega arith;
    right = λ i. inl refl;
    covered = λ i. ground arith;
  }

  -- What an answer holds.
  abbrev pub Answers : (ℕ → ℕ → Result Error (List (ℕ × A))) → Type 0
  Answers answer =
      (from to : ℕ) (m : List (ℕ × A))
      → answer from to ≡ ok m
      → IsMap m × ((i : ℕ) → lookup i m ≡ (if leb from i && leb i to then own i else none))

  spawned-Sound :
      (s : Loop A)
      → coin_length + batch_size ≤ 2 ^ 64
      → s.current < coin_length
      → Sound s
      → Sound (spawned coin_length s)
  unfolding in_batch
  spawned-Sound s fits lt h =
      let next = next_index coin_length s.current in
      let up : s.current < next = ground arith in
      let top : next ≤ coin_length = ground arith in
      record {
        begun = omega (arith, h.begun);
        bounded = top;
        within =
            All-append (IsWithin start coin_length) s.in_flight _ h.within
              ((h.begun, omega arith, omega arith), tt);
        counted = omega (arith, h.counted, length-append s.in_flight ((s.current, next - 1) ∷ []));
        shared = ground (arith, h.shared, h.bounded);
        right = h.right;
        covered = λ i.
            let a = in_batch-append i s.in_flight ((s.current, next - 1) ∷ []) in
            ground (arith, a, h.covered i);
      }

  received-Sound :
      (s : Loop A) (pre post : List (ℕ × ℕ)) (from to : ℕ) (m : List (ℕ × A))
      → s.in_flight ≡ pre ++ ((from, to) ∷ post)
      → IsMap m
      → ((i : ℕ) → lookup i m ≡ (if leb from i && leb i to then own i else none))
      → Sound s
      → Sound (received (pre ++ post) m s)
  received-Sound s pre post from to m e d l h =
      let (w, ws) =
        All-parts (IsWithin start coin_length) pre (from, to) post (rw (← e) h.within) in
      let n : length s.in_flight ≡ suc (length (pre ++ post)) =
        rw e (omega (arith, length-append pre ((from, to) ∷ post), length-append pre post)) in
      let new : (i : ℕ) → (lookup i m ≡ none) ⊎ (lookup i m ≡ wanted i) =
        λ i. ground (arith, l i) in
      record {
        begun = h.begun;
        bounded = h.bounded;
        within = ws;
        counted = omega (arith, h.counted, n);
        shared = omega (arith, h.shared, h.counted, n);
        right = λ i. rw (lookup-merge i s.res m d) (or_else_either _ _ _ (new i) (h.right i));
        covered = λ i. rw (lookup-merge i s.res m d) (elim (h.covered i) [
          | inl later ↦ inl later
          | inr (inr known) ↦ inr (inr (or_else_right _ _ _ (new i) known))
          | inr (inl flying) ↦ elim (Bool-cases (leb from i && leb i to)) [
            | inl here ↦ inr (inr (or_else_left _ _ _ (ground (arith, l i)) (h.right i)))
            | inr there ↦ inr (inl (in_batch-others i from to pre post (rw (← e) flying) there))
          ]
        ]);
      }

  Step-Sound :
      (answer : ℕ → ℕ → Result Error (List (ℕ × A))) (max_threads : ℕ) {s t : Loop A}
      → Answers answer
      → coin_length + batch_size ≤ 2 ^ 64
      → Step answer max_threads start coin_length s t
      → Sound s
      → Sound t
  Step-Sound answer max_threads ans fits (spawn s more free lt) h = spawned-Sound s fits lt h
  Step-Sound answer max_threads ans fits (receive s pre post from to m e got) h =
      let (d, l) = ans from to m got in received-Sound s pre post from to m e d l h

  pub Reach-Sound :
      (answer : ℕ → ℕ → Result Error (List (ℕ × A))) (max_threads : ℕ) {s : Loop A}
      → Answers answer
      → start ≤ coin_length
      → coin_length + batch_size ≤ 2 ^ 64
      → Reach answer max_threads start coin_length s
      → Sound s
  Reach-Sound answer max_threads ans le fits at_start = begin-Sound le
  Reach-Sound answer max_threads ans le fits (after r st) =
      Step-Sound answer max_threads ans fits st (Reach-Sound answer max_threads ans le fits r)

  pub Sound-done :
      (s : Loop A)
      → Sound s
      → s.done ≡ num_threads coin_length start
      → (i : ℕ) → lookup i s.res ≡ wanted i
  Sound-done s h fin i =
      let idle : length s.in_flight ≡ 0 = omega (arith, h.counted, h.shared) in
      let all : coin_length ≤ s.current = omega (arith, h.shared, h.bounded) in
      elim (h.covered i) [
        | inl later ↦ ground (arith, h.right i)
        | inr (inl flying) ↦ absurd (in_batch-idle i s.in_flight idle flying)
        | inr (inr known) ↦ known
      ]
