-- ===== src/Catalog/Contents/Rules.antt =====
-- What `replace_domain_rules` leaves of a source's rules and of the others'.
use its_middle_platform_agen.Catalog.Models.{value_error, integrity_error}
use its_middle_platform_agen.Prelude.Table.Laws.{select_one-true}
use mathlib.Core.Path.{subst}
use mathlib.Core.List.{append-nil, append_assoc}
use its_middle_platform_agen.Catalog.Sources.{is_git, rule_of}
use its_middle_platform_agen.Prelude.Table.{select_one, exists_row, delete_where}
use its_middle_platform_agen.Prelude.Result.{Result, err, ok}
use its_middle_platform_agen.Catalog.Models.{
  not_found, source_by_id, conflict, KnowledgeSource, CatalogError,
}
use its_middle_platform_agen.Catalog.Contents.{
  add_rule, foreign_rule, replace_rules_of, list_domain_rules, breaks_rule, replace_domain_rules,
  insert_rules,
}
use its_middle_platform_agen.Catalog.Library.{Answer, Library, SourceDomainRule}
use its_middle_platform_agen.Prelude.{
  eq→path, Option-cases, arith, ◌∙◌, ap, ◌⊎◌, sym, Option, Bool-cases, map, ◌++◌, Bool, String,
  List, ℕ, ◌≡◌, none, some, [], ◌∷◌, inl, inr, refl,
}

abbrev pub stamped : ℕ → SourceDomainRule → SourceDomainRule
stamped now r = record r { created_at = now }

abbrev pub with_rules : List SourceDomainRule → Library → Library
with_rules rules lib = record lib { rules = rules }

given_lib : (a b : Library) → ◌≡◌ {A = Option Library} (some a) (some b) → a ≡ b
given_lib a b e = ap (λ (o : Option Library). elim o [ none ↦ a | some x ↦ x ]) e

insert_rules-all :
    (has_domain : String → Bool) (rs : List SourceDomainRule) (now : ℕ) (lib lib' : Library)
    → insert_rules has_domain rs now lib ≡ some lib'
    → lib' ≡ with_rules (lib.rules ++ map (stamped now) rs) lib
unfolding insert_rules
insert_rules-all has_domain [] now lib lib' h =
    rw (append-nil lib.rules) (sym (given_lib lib lib' h))
insert_rules-all has_domain (r ∷ rs) now lib lib' h =
    elim (Bool-cases (breaks_rule has_domain r lib)) [
      | inl bad ↦
          let e : ◌≡◌ {A = Option Library} none (some lib') = rw bad at h in absurd (ground arith)
      | inr good ↦
          let e : insert_rules has_domain rs now (add_rule r now lib) ≡ some lib' = rw good at h in
          insert_rules-all has_domain rs now (add_rule r now lib) lib' e
          ∙ ap (λ t. with_rules t lib)
              (append_assoc lib.rules (stamped now r ∷ []) (map (stamped now) rs))
    ]

abbrev others_kept : String → Library → Library
others_kept source_id lib = with_rules (delete_where (rule_of source_id) lib.rules) lib

module _ (has_domain : String → Bool) (source_id : String) (rules : List SourceDomainRule) (now : ℕ)
    (lib : Library) where
  abbrev answer : Answer (List SourceDomainRule)
  answer = replace_domain_rules has_domain source_id rules now lib

  -- The call fails and leaves the library, or inserts all rules.
  abbrev Outcomes : Type 0
  Outcomes =
      ((e : CatalogError) × (answer ≡ (err e, lib)))
      ⊎ ((lib' : Library) × (insert_rules has_domain rules now (others_kept source_id lib)
            ≡ some lib')
          × (answer ≡ (ok (list_domain_rules source_id lib'), lib')))

  replaced_source :
      (s : KnowledgeSource)
      → s.id ≡ source_id
      → answer ≡ replace_rules_of has_domain s rules now lib
      → Outcomes
  replaced_source s here e = elim (Bool-cases (is_git s.source_type)) [
    | inr other ↦ inl (conflict, e ∙ rw other refl)
    | inl is_git' ↦ elim (Option-cases (insert_rules has_domain rules now (others_kept s.id lib))) [
      | inl broken ↦ inl (integrity_error, e ∙ rw is_git' (rw broken refl))
      | inr (lib', all) ↦ inr (
        lib',
        subst (λ i. insert_rules has_domain rules now (others_kept i lib) ≡ some lib') here all,
        e ∙ (rw is_git' (rw all refl) ∙ ap (λ i. (ok (list_domain_rules i lib'), lib')) here),
      )
    ]
  ]

  replace_domain_rules-cases : Outcomes
  unfolding replace_domain_rules
  replace_domain_rules-cases = elim (Bool-cases (exists_row (foreign_rule source_id) rules)) [
    | inl foreign ↦ inl (value_error, rw foreign refl)
    | inr own ↦ elim (Option-cases (select_one (source_by_id source_id) lib.catalog.sources)) [
      | inl missing ↦ inl (not_found, rw own (rw missing refl))
      | inr (s, there) ↦
          replaced_source s
            (eq→path s.id source_id
              (select_one-true (source_by_id source_id) lib.catalog.sources there))
            (rw own (rw there refl))
    ]
  ]

  -- On success the rules of the source are the given ones, after the rules of the other sources,
  -- which are kept in their order; nothing else changes.
  pub replace_domain_rules-ok :
      (lib' : Library) (out : List SourceDomainRule)
      → replace_domain_rules has_domain source_id rules now lib ≡ (ok out, lib')
      → lib'
        ≡ with_rules (delete_where (rule_of source_id) lib.rules ++ map (stamped now) rules) lib
  replace_domain_rules-ok lib' out h = elim replace_domain_rules-cases [
    | inl (e, failed) ↦
        let bad : ◌≡◌ {A = Answer (List SourceDomainRule)} (err e, lib) (ok out, lib') =
          sym failed ∙ h in
        let r : ◌≡◌ {A = Result {0, 0} CatalogError (List SourceDomainRule)} (err e) (ok out) =
          ap (λ (o : Answer (List SourceDomainRule)). o.0) bad in
        absurd (ground arith)
    | inr (lib'', all, done) ↦
        let same : lib'' ≡ lib' = ap (λ (o : Answer (List SourceDomainRule)). o.1) (sym done ∙ h) in
        sym same ∙ insert_rules-all has_domain rules now (others_kept source_id lib) lib'' all
  ]

  -- On any error the transaction leaves the library as it was.
  pub replace_domain_rules-err :
      (lib' : Library) (e : CatalogError)
      → replace_domain_rules has_domain source_id rules now lib ≡ (err e, lib')
      → lib' ≡ lib
  replace_domain_rules-err lib' e h = elim replace_domain_rules-cases [
    | inl (e', failed) ↦ sym (ap (λ (o : Answer (List SourceDomainRule)). o.1) (sym failed ∙ h))
    | inr (lib'', all, done) ↦
        let bad : ◌≡◌ {A = Answer (List SourceDomainRule)}
            (ok (list_domain_rules source_id lib''), lib'') (err e, lib') =
          sym done ∙ h in
        let r : ◌≡◌ {A = Result {0, 0} CatalogError (List SourceDomainRule)}
            (ok (list_domain_rules source_id lib'')) (err e) =
          ap (λ (o : Answer (List SourceDomainRule)). o.0) bad in
        absurd (ground arith)
  ]
