-- ===== src/Runtime/Context/Calls.antt =====
-- What the calls of `reserve_retrieval` may spend, each with its own arguments: between two
-- restorations of the context, and over a run that is paused and resumed.
use its_middle_platform_agen.Runtime.Context.Budget.{is_allowed}
use its_middle_platform_agen.Runtime.Context.{
  restored, signature, count_of, apply_legacy, reserve_call, Reservation, LegacyArgs,
  reserve_retrieval, reserve, Retrievals, RetrievalCall,
}
use its_middle_platform_agen.Prelude.{
  ◌*◌, length, ◌++◌, suc, is_some, arith, ◌+◌, Option-cases, if◌then◌else◌, Bool-cases, All, ◌≤◌,
  leb, List, Bool, String, Option, ℕ, ◌≡◌, none, some, [], ◌∷◌, true, inl, inr, refl,
}

module _ (normalize : Option String → String) where
  unfoldable pub reserve_calls : List (LegacyArgs × RetrievalCall) → Retrievals → List Reservation
  reserve_calls [] s = []
  reserve_calls (x ∷ xs) s =
      (reserve_retrieval normalize x.0 x.1 s).0
      ∷ reserve_calls xs (reserve_retrieval normalize x.0 x.1 s).1

  abbrev pub is_within : ℕ → Option ℕ → Bool
  is_within m none = true
  is_within m (some n) = leb n m

  -- The call asks for no more than `m` calls of the run.
  abbrev pub limit_of : Option RetrievalCall → Option ℕ
  limit_of none = none
  limit_of (some c) = c.max_calls

  abbrev pub number_allowed : List Reservation → ℕ
  number_allowed [] = 0
  number_allowed (r ∷ rs) = let rest = number_allowed rs in if is_allowed r then suc rest else rest

  -- A call counts when it is allowed, and stays within the limit.
  abbrev Counts : ℕ → Retrievals → Reservation × Retrievals → Type 0
  Counts m s (r, s') =
      (s'.retrieval_call_count
        ≡ (if is_allowed r then suc s.retrieval_call_count else s.retrieval_call_count))
      × (s'.retrieval_call_count ≤ m)

  reserve-Counts :
      (key : String) (m max_calls max_identical : ℕ) (s : Retrievals)
      → leb max_calls m ≡ true
      → s.retrieval_call_count ≤ m
      → Counts m s (reserve key max_calls max_identical s)
  unfolding reserve
  reserve-Counts key m max_calls max_identical s small h =
      elim (Bool-cases (leb max_identical (count_of key s.retrieval_signatures))) [
        | inl again ↦ rw again (refl, h)
        | inr fresh ↦ elim (Bool-cases (leb max_calls s.retrieval_call_count)) [
          | inl spent ↦ rw fresh (rw spent (refl, h))
          | inr left ↦ rw fresh (rw left (omega arith, ground arith))
        ]
      ]

  reserve_call-Counts :
      (m : ℕ) (o : Option RetrievalCall) (s : Retrievals)
      → is_within m (limit_of o) ≡ true
      → s.retrieval_call_count ≤ m
      → Counts m s (reserve_call normalize o s)
  reserve_call-Counts m none s small h = (refl, h)
  reserve_call-Counts m (some c) s small h = elim (Option-cases c.max_calls) [
    | inl missing ↦ rw (missing, reserve_call) (refl, h)
    | inr (max_calls, given) ↦ elim (Bool-cases (is_some c.query)) [
      | inl asked ↦
          rw (given, reserve_call)
            (rw asked (
              reserve-Counts (signature normalize c) m max_calls c.max_identical_queries s
                (rw given at small) h))
      | inr absent ↦ rw (given, reserve_call) (rw absent (refl, h))
    ]
  ]

  -- Of one context, in either form of the arguments: at most `m` calls are allowed, counted with
  -- those before, if none sets a `max_calls` above `m`.
  reserve_calls-budget :
      (m : ℕ) (xs : List (LegacyArgs × RetrievalCall)) (s : Retrievals)
      → All (λ x. is_within m (limit_of (apply_legacy x.0 x.1)) ≡ true) xs
      → s.retrieval_call_count ≤ m
      → number_allowed (reserve_calls xs s) + s.retrieval_call_count ≤ m
  unfolding reserve_calls reserve_retrieval
  reserve_calls-budget m [] s small h = omega arith
  reserve_calls-budget m (x ∷ xs) s small h =
      let (counted, within) = reserve_call-Counts m (apply_legacy x.0 x.1) s small.0 h in
      ground (
        arith,
        counted,
        reserve_calls-budget m xs (reserve_call normalize (apply_legacy x.0 x.1) s).1 small.1
            within,
      )

  -- The context after the calls.
  unfoldable pub after_calls : List (LegacyArgs × RetrievalCall) → Retrievals → Retrievals
  after_calls [] s = s
  after_calls (x ∷ xs) s = after_calls xs (reserve_retrieval normalize x.0 x.1 s).1

  -- The calls of a run until it is paused, and those after each time that it is resumed from the
  -- context that was saved.
  unfoldable pub resumed_calls :
      List (LegacyArgs × RetrievalCall)
      → List (List (LegacyArgs × RetrievalCall))
      → Retrievals
      → List Reservation
  resumed_calls xs [] s = reserve_calls xs s
  resumed_calls xs (ys ∷ yss) s =
      reserve_calls xs s ++ resumed_calls ys yss (restored (after_calls xs s))

  abbrev pub AreWithin : ℕ → List (LegacyArgs × RetrievalCall) → Type 0
  AreWithin m xs = All (λ x. is_within m (limit_of (apply_legacy x.0 x.1)) ≡ true) xs

  number_allowed-append :
      (rs ss : List Reservation) → number_allowed (rs ++ ss) ≡ number_allowed rs + number_allowed ss
  number_allowed-append [] ss = omega arith
  number_allowed-append (r ∷ rs) ss = ground (arith, number_allowed-append rs ss)

  -- Whatever calls of `reserve_retrieval` a run makes, in either form of the arguments, and however
  -- often it is paused and resumed from its saved context: if none of the calls sets a `max_calls`
  -- above `m`, a run that is resumed `n` times is allowed at most `(n + 1) * m` of them, counted with
  -- those before: no more than `m` if it is never resumed.
  pub resumed_calls-budget :
      (m : ℕ) (xs : List (LegacyArgs × RetrievalCall))
      (yss : List (List (LegacyArgs × RetrievalCall))) (s : Retrievals)
      → AreWithin m xs
      → All (AreWithin m) yss
      → s.retrieval_call_count ≤ m
      → number_allowed (resumed_calls xs yss s) + s.retrieval_call_count ≤ suc (length yss) * m
  unfolding resumed_calls restored
  resumed_calls-budget m xs [] s small resumed h =
      ground (arith, reserve_calls-budget m xs s small h)
  resumed_calls-budget m xs (ys ∷ yss) s small resumed h = ground (
    arith,
    number_allowed-append (reserve_calls xs s) (resumed_calls ys yss (restored (after_calls xs s))),
    reserve_calls-budget m xs s small h,
    resumed_calls-budget m ys yss (restored (after_calls xs s)) resumed.0 resumed.1 (omega arith),
  )
