-- ===== src/SourceSync/Diff/Printing.antt =====
-- What `git diff --name-status -z` writes, and that it is read back.
use its_middle_platform_agen.SourceSync.Diff.{
  GitFileChange, GitChangeType, Bytes, added, modified, deleted, renamed,
}
use its_middle_platform_agen.Prelude.{
  is_some, eqb, Option, Bool, All, ◌++◌, String, List, ◌≡◌, none, some, [], ◌∷◌, true, false,
}

-- A field ends with a zero byte.
unfoldable pub written : List Bytes → Bytes
written [] = []
written (f ∷ fs) = f ++ 0 ∷ written fs

-- No byte is zero.
abbrev pub IsClean : Bytes → Type 0
IsClean bs = All (λ b. eqb b 0 ≡ false) bs

abbrev pub is_renamed : GitChangeType → Bool
is_renamed renamed = true
is_renamed _ = false

-- Exactly a rename has a previous path.
abbrev pub IsWellFormed : GitFileChange → Type 0
IsWellFormed c = is_renamed c.status ≡ is_some c.previous_path

module _ (encode : String → Bytes) (decode_status decode_path : Bytes → String) where
  -- A path has no zero byte and is decoded as it was encoded.
  abbrev pub IsPath : String → Type 0
  IsPath p = IsClean (encode p) × (decode_path (encode p) ≡ p)

  abbrev pub HasPath : Option String → Type 0
  HasPath none = Unit
  HasPath (some p) = IsPath p

  abbrev pub IsPrintable : GitFileChange → Type 0
  IsPrintable c = IsWellFormed c × IsPath c.path × HasPath c.previous_path

  -- A status and its paths; a rename has a score, and its old path first.
  abbrev pub fields_of : GitChangeType → String → Option String → List Bytes
  fields_of renamed path (some previous) =
      (82 ∷ 49 ∷ 48 ∷ 48 ∷ []) ∷ encode previous ∷ encode path ∷ []
  fields_of renamed path none = []
  fields_of added path previous = (65 ∷ []) ∷ encode path ∷ []
  fields_of deleted path previous = (68 ∷ []) ∷ encode path ∷ []
  fields_of modified path previous = (77 ∷ []) ∷ encode path ∷ []

  unfoldable pub fields : List GitFileChange → List Bytes
  fields [] = []
  fields (c ∷ cs) = fields_of c.status c.path c.previous_path ++ fields cs

  unfoldable pub print_diff : List GitFileChange → Bytes
  unfolding fields written
  print_diff cs = written (fields cs)
