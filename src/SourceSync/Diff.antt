-- ===== src/SourceSync/Diff.antt =====
-- `GitRepositoryManager._parse_diff` (knowledge/source_sync/repository.py), over the bytes that
-- `git diff --name-status --find-renames -z` writes. The decoding of a path (UTF-8 with
-- surrogateescape) and of a status (ASCII with replacement) are parameters.
pub mod Printing
pub mod Progress
use its_middle_platform_agen.Prelude.Result.{ok, err, Result}
use its_middle_platform_agen.Prelude.{
  zero, suc, is_nil, length, if◌then◌else◌, eqb, String, Option, List, Bool, ℕ, ◌≡◌, none, some, [],
  ◌∷◌, true, false, inl, inr, refl,
}

pub data GitChangeType : Type 0 where
  added modified deleted renamed : GitChangeType

pub record GitFileChange : Type 0 where
  pub status : GitChangeType
  pub path : String
  pub previous_path : Option String

-- `GitRepositoryError` by its message; `out_of_fuel` is no error of the code, and no call ends in it.
pub data DiffError : Type 0 where
  malformed_diff malformed_rename unsupported_status out_of_fuel : DiffError

-- A byte string.
abbrev pub Bytes : Type 0
Bytes = List ℕ

abbrev pub prepend : ℕ → List Bytes → List Bytes
prepend b [] = (b ∷ []) ∷ []
prepend b (f ∷ fs) = (b ∷ f) ∷ fs

-- `output.split(b"\0")`.
unfoldable pub split_zero : Bytes → List Bytes
split_zero [] = [] ∷ []
split_zero (b ∷ bs) = let rest = split_zero bs in if eqb b 0 then [] ∷ rest else prepend b rest

-- `if fields and not fields[-1]: fields.pop()`.
unfoldable pub pop_empty : List Bytes → List Bytes
pop_empty [] = []
pop_empty (f ∷ []) = if is_nil f then [] else f ∷ []
pop_empty (f ∷ g ∷ fs) = f ∷ pop_empty (g ∷ fs)

-- `status_text.split("\t", 1)`: the status, and the path where there is a tab.
unfoldable pub split_tab : Bytes → Bytes × Option Bytes
split_tab [] = ([], none)
split_tab (b ∷ bs) =
    let rest = split_tab bs in if eqb b 9 then ([], some bs) else (b ∷ rest.0, rest.1)

-- A step of the loop: the change, and the fields that are left.
abbrev pub Parsed : Type 0
Parsed = Result {0, 0} DiffError (GitFileChange × List Bytes)

-- `code == …` after `code = status_text[:1]`.
abbrev pub has_code : ℕ → Bytes → Bool
has_code code [] = false
has_code code (b ∷ bs) = eqb b code

abbrev pub change : GitChangeType → String → GitFileChange
change status path = record { status = status; path = path; previous_path = none }

module _ (decode_status decode_path : Bytes → String) where
  abbrev pub rename : String → List Bytes → Parsed
  rename first_path [] = err malformed_rename
  rename first_path (new ∷ fields) =
      ok (
        record { status = renamed; path = decode_path new; previous_path = some first_path },
        fields,
      )

  -- 82, 65, 68 and 77 are the letters R, A, D and M.
  abbrev pub by_code : Bytes → String → List Bytes → Parsed
  by_code status first_path fields =
      if has_code 82 status
      then rename first_path fields
      else if has_code 65 status
      then ok (change added first_path, fields)
      else if has_code 68 status
      then ok (change deleted first_path, fields)
      else if has_code 77 status
      then ok (change modified first_path, fields)
      else err unsupported_status

  abbrev pub with_path : Bytes → Option Bytes → List Bytes → Parsed
  with_path status (some embedded) fields = by_code status (decode_status embedded) fields
  with_path status none [] = err malformed_diff
  with_path status none (f ∷ fields) = by_code status (decode_path f) fields

  abbrev pub parse_change : Bytes → List Bytes → Parsed
  parse_change status_text fields =
      with_path (split_tab status_text).0 (split_tab status_text).1 fields

  -- `changes.append(…)` before the rest of the loop.
  abbrev pub add_change :
      GitFileChange
      → Result {0, 0} DiffError (List GitFileChange)
      → Result {0, 0} DiffError (List GitFileChange)
  add_change c (err e) = err e
  add_change c (ok cs) = ok (c ∷ cs)

  -- The loop, which takes a field from the list in every round.
  unfoldable pub parse_fields : ℕ → List Bytes → Result {0, 0} DiffError (List GitFileChange)
  parse_fields fuel [] = ok []
  parse_fields zero (f ∷ fields) = err out_of_fuel
  parse_fields (suc fuel) (f ∷ fields) = elim (parse_change f fields) [
    | err e ↦ err e
    | ok (c, rest) ↦ add_change c (parse_fields fuel rest)
  ]

  unfoldable pub parse_diff : Bytes → Result {0, 0} DiffError (List GitFileChange)
  unfolding parse_fields
  parse_diff output =
      let fields = pop_empty (split_zero output) in parse_fields (length fields) fields
