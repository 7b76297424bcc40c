-- ===== src/SourceSync/Diff/Progress.antt =====
-- That the loop of `_parse_diff` ends.
use its_middle_platform_agen.Prelude.Result.{ok, err, Result}
use its_middle_platform_agen.SourceSync.Diff.{
  split_tab, parse_change, add_change, has_code, split_zero, with_path, rename, pop_empty, by_code,
  GitFileChange, parse_fields, out_of_fuel, parse_diff, Parsed, DiffError, Bytes,
}
use its_middle_platform_agen.Prelude.{
  zero, suc, arith, Bool-cases, ◌≤◌, not, length, ◌≢◌, Option, List, String, Bool, ℕ, ◌≡◌, none,
  some, [], ◌∷◌, true, false, inl, inr, refl,
}

abbrev is_out : DiffError → Bool
is_out out_of_fuel = true
is_out _ = false

-- A step leaves at most `n` fields.
abbrev Progress : ℕ → Parsed → Type 0
Progress n (err e) = is_out e ≡ false
Progress n (ok (c, rest)) = length rest ≤ n

module _ (decode_status decode_path : Bytes → String) where
  rename-Progress :
      (p : String) (fs : List Bytes) → Progress (length fs) (rename decode_status decode_path p fs)
  rename-Progress p [] = refl
  rename-Progress p (f ∷ fs) = omega arith

  by_code-Progress :
      (s : Bytes) (p : String) (fs : List Bytes)
      → Progress (length fs) (by_code decode_status decode_path s p fs)
  by_code-Progress s p fs = elim (Bool-cases (has_code 82 s)) [
    | inl r ↦ rw r (rename-Progress p fs)
    | inr no_r ↦ elim (Bool-cases (has_code 65 s)) [
      | inl a ↦ rw no_r (rw a (omega arith))
      | inr no_a ↦ elim (Bool-cases (has_code 68 s)) [
        | inl d ↦ rw no_r (rw no_a (rw d (omega arith)))
        | inr no_d ↦ elim (Bool-cases (has_code 77 s)) [
          | inl m ↦ rw no_r (rw no_a (rw no_d (rw m (omega arith))))
          | inr no_m ↦ rw no_r (rw no_a (rw no_d (rw no_m refl)))
        ]
      ]
    ]
  ]

  with_path-Progress :
      (s : Bytes) (o : Option Bytes) (fs : List Bytes)
      → Progress (length fs) (with_path decode_status decode_path s o fs)
  with_path-Progress s (some e) fs = by_code-Progress s (decode_status e) fs
  with_path-Progress s none [] = refl
  with_path-Progress s none (f ∷ fs) =
      weaker (by_code decode_status decode_path s (decode_path f) fs)
        (by_code-Progress s (decode_path f) fs)
    where
      weaker : (o : Parsed) → Progress (length fs) o → Progress (length (f ∷ fs)) o
      weaker (err e) h = h
      weaker (ok (c, rest)) h = omega (arith, h)

  abbrev is_finished : Result {0, 0} DiffError (List GitFileChange) → Bool
  is_finished (err e) = not (is_out e)
  is_finished (ok cs) = true

  parse_fields-finished :
      (fuel : ℕ) (fs : List Bytes)
      → length fs ≤ fuel
      → is_finished (parse_fields decode_status decode_path fuel fs) ≡ true
  unfolding parse_fields
  parse_fields-finished fuel [] enough = refl
  parse_fields-finished zero (f ∷ fs) enough = absurd (omega (arith, enough))
  parse_fields-finished (suc fuel) (f ∷ fs) enough =
      next (parse_change decode_status decode_path f fs)
        (with_path-Progress (split_tab f).0 (split_tab f).1 fs)
        (λ rest h. parse_fields-finished fuel rest h)
    where
      kept :
          (c : GitFileChange) (o : Result {0, 0} DiffError (List GitFileChange))
          → is_finished o ≡ true
          → is_finished (add_change decode_status decode_path c o) ≡ true
      kept c (err e) h = h
      kept c (ok cs) h = refl

      next :
          (o : Parsed)
          → Progress (length fs) o
          → ((rest : List Bytes)
              → length rest ≤ fuel
              → is_finished (parse_fields decode_status decode_path fuel rest) ≡ true)
          → is_finished (elim o [
            | err e ↦ err e
            | ok (c, rest) ↦
                add_change decode_status decode_path c
                  (parse_fields decode_status decode_path fuel rest)
          ])
            ≡ true
      next (err e) h run = rw h refl
      next (ok (c, rest)) h run =
          kept c (parse_fields decode_status decode_path fuel rest)
            (run rest (omega (arith, h, enough)))

-- The loop ends for every output: its rounds are at most as many as the fields.
pub parse_diff_ends :
    (decode_status decode_path : Bytes → String) (output : Bytes)
    → parse_diff decode_status decode_path output ≢ err out_of_fuel
unfolding parse_diff
parse_diff_ends decode_status decode_path output e =
    let fs = pop_empty (split_zero output) in
    let finished = parse_fields-finished decode_status decode_path (length fs) fs (omega arith) in
    let bad : is_finished decode_status decode_path (err out_of_fuel) ≡ true = rw e at finished in
    absurd (ground arith)
