-- ===== src/Auth/Owners/Ownership.antt =====
-- Who owns a conversation, and how that may change.
use its_middle_platform_agen.Prelude.Table.Laws.{select_one-append}
use its_middle_platform_agen.Prelude.Table.Keys.{select_one-delete_where, select_one-update_where}
use its_middle_platform_agen.Prelude.Strip.{strip, is_empty}
use its_middle_platform_agen.Prelude.Table.TextKey.{has_key→eq, has_key}
use its_middle_platform_agen.Prelude.Table.{update_where, select_one, count_where}
use its_middle_platform_agen.Auth.Owners.{
  seen, titled, transferred, new_owner, is_owner, owner_key, count_conversations_for_owner,
  ConversationOwner, upsert_owner, transfer_conversation_owners, rename_conversation,
  delete_conversation_owner, bind_conversation_owner,
}
use its_middle_platform_agen.Prelude.{
  eq_iff, eqb, eq_refl, ltb, eq_comm, arith, ◌||◌, eq→path, ap, ◌&&◌, if◌then◌else◌, ◌++◌, ◌+◌, ◌∙◌,
  Option-cases, Bool-cases, Bool, ◌==◌, All, String, Option, List, ℕ, ◌≡◌, none, some, [], ◌∷◌,
  false, inl, inr, refl,
}

abbrev owner_of : Option ConversationOwner → Option String
owner_of none = none
owner_of (some r) = some r.owner_id

-- The owner of a conversation, if it has one.
unfoldable pub owner : String → List ConversationOwner → Option String
owner conversation_id rows = owner_of (select_one (has_key owner_key conversation_id) rows)

-- The calls that an identity `who` makes on conversations; a transfer is not among them.
pub data OwnerCall : Type 0 where
  bind : String → String → ℕ → OwnerCall
  remove : String → OwnerCall
  rename : String → String → ℕ → OwnerCall

unfoldable pub call : String → OwnerCall → List ConversationOwner → List ConversationOwner
call who (bind c channel now) rows = (bind_conversation_owner c who channel now rows).1
call who (remove c) rows = (delete_conversation_owner c who rows).1
call who (rename c title title_length) rows = (rename_conversation c who title title_length rows).1

update-owner :
    (i : String) (test : ConversationOwner → Bool) (set : ConversationOwner → ConversationOwner)
    (rows : List ConversationOwner)
    → ((r : ConversationOwner) → (set r).owner_id ≡ r.owner_id)
    → ((r : ConversationOwner) → (set r).conversation_id ≡ r.conversation_id)
    → owner i (update_where test set rows) ≡ owner i rows
unfolding owner
update-owner i test set rows same keep =
    rw (select_one-update_where (has_key owner_key) i test set rows (λ r. rw (keep r) refl))
      (split (select_one (has_key owner_key i) rows))
  where
    split :
        (o : Option ConversationOwner)
        → owner_of (elim o [ none ↦ none | some r ↦ some (if test r then set r else r) ])
          ≡ owner_of o
    split none = refl
    split (some r) = elim (Bool-cases (test r)) [
      | inl e ↦ rw e (ap some (same r))
      | inr e ↦ rw e refl
    ]

upsert-owner :
    (i c who channel : String) (now : ℕ) (rows : List ConversationOwner) (o : String)
    → owner i rows ≡ some o
    → owner i (upsert_owner c who channel now rows).1 ≡ some o
unfolding upsert_owner owner
upsert-owner i c who channel now rows o has =
    elim (Option-cases (select_one (has_key owner_key c) rows)) [
      | inl new ↦ rw (new, upsert_owner) (append-owner (select_one (has_key owner_key i) rows) refl)
      | inr (r, old) ↦ elim (Bool-cases (is_owner who r)) [
        | inl mine ↦
            rw (old, upsert_owner)
              (rw mine (
                update-owner i (has_key owner_key r.conversation_id) (seen channel now) rows
                  (λ x. refl) (λ x. refl)
                ∙ has))
        | inr other ↦ rw (old, upsert_owner) (rw other has)
      ]
    ]
  where
    append-owner :
        (x : Option ConversationOwner)
        → select_one (has_key owner_key i) rows ≡ x
        → owner i (rows ++ new_owner c who channel now ∷ []) ≡ some o
    append-owner none e =
        let bad : ◌≡◌ {A = Option String} none (some o) = rw e at has in absurd (ground arith)
    append-owner (some x) e =
        let same : ◌≡◌ {A = Option String} (some x.owner_id) (some o) = rw e at has in
        rw (select_one-append (has_key owner_key i) rows (new_owner c who channel now)) (rw e same)

delete-owner :
    (i c who : String) (rows : List ConversationOwner) (o : String)
    → (o == who) ≡ false
    → owner i rows ≡ some o
    → owner i (delete_conversation_owner c who rows).1 ≡ some o
unfolding delete_conversation_owner owner
delete-owner i c who rows o other has =
    elim (Option-cases (select_one (has_key owner_key c) rows)) [
      | inl new ↦ rw (new, delete_conversation_owner) has
      | inr (r, old) ↦ elim (Bool-cases (is_owner who r)) [
        | inr theirs ↦ rw (old, delete_conversation_owner) (rw theirs has)
        | inl mine ↦ elim (Bool-cases (i == c)) [
          | inl same ↦
              let e : i ≡ c = eq→path i c same in
              let read : owner_of (some r) ≡ some o = rw (e, old) at has in absurd (ground arith)
          | inr differ ↦
              rw (old, delete_conversation_owner)
                (rw mine (
                  rw
                    (select_one-delete_where (has_key owner_key) i (has_key owner_key c) rows
                      (λ x h. ground (arith, has_key→eq owner_key i x h)))
                    has))
        ]
      ]
    ]

rename-owner :
    (i c who title : String) (n : ℕ) (rows : List ConversationOwner)
    → owner i (rename_conversation c who title n rows).1 ≡ owner i rows
unfolding rename_conversation
rename-owner i c who title n rows =
    let test = λ (r : ConversationOwner). has_key owner_key (strip c) r && is_owner (strip who) r in
    let kept = update-owner i test (titled title) rows (λ r. refl) (λ r. refl) in
    elim (Bool-cases (is_empty title || ltb 100 n || is_empty (strip c) || is_empty (strip who))) [
      | inl bad ↦ rw bad refl
      | inr good ↦ elim (Bool-cases (eqb (count_where test rows) 1)) [
        | inl one ↦ rw good (rw one kept)
        | inr none' ↦ rw good (rw none' kept)
      ]
    ]

bind-owner :
    (i c who channel : String) (now : ℕ) (rows : List ConversationOwner) (o : String)
    → owner i rows ≡ some o
    → owner i (bind_conversation_owner c who channel now rows).1 ≡ some o
unfolding bind_conversation_owner
bind-owner i c who channel now rows o has =
    elim (Bool-cases (is_empty (strip c) || is_empty (strip who))) [
      | inl bad ↦ rw bad has
      | inr good ↦ rw good (upsert-owner i (strip c) (strip who) channel now rows o has)
    ]

pub call-owner :
    (i who : String) (c : OwnerCall) (rows : List ConversationOwner) (o : String)
    → (o == who) ≡ false
    → owner i rows ≡ some o
    → owner i (call who c rows) ≡ some o
unfolding call
call-owner i who (bind c channel now) rows o other has = bind-owner i c who channel now rows o has
call-owner i who (remove c) rows o other has = delete-owner i c who rows o other has
call-owner i who (rename c title n) rows o other has = rename-owner i c who title n rows ∙ has

-- Calls one after the other, each by the identity beside it.
unfoldable pub calls : List (String × OwnerCall) → List ConversationOwner → List ConversationOwner
unfolding call
calls [] rows = rows
calls ((who, c) ∷ cs) rows = calls cs (call who c rows)

-- Every call is by another identity than `o`.
abbrev pub IsByOthers : String → List (String × OwnerCall) → Type 0
IsByOthers o cs = All (λ x. (o == x.0) ≡ false) cs

-- Whatever calls other identities make, of binding, deleting and renaming any conversation, a
-- conversation keeps its owner.
pub calls-owner :
    (i o : String) (cs : List (String × OwnerCall)) (rows : List ConversationOwner)
    → IsByOthers o cs
    → owner i rows ≡ some o
    → owner i (calls cs rows) ≡ some o
unfolding calls
calls-owner i o [] rows others has = has
calls-owner i o ((who, c) ∷ cs) rows others has =
    calls-owner i o cs (call who c rows) others.1 (call-owner i who c rows o others.0 has)

-- A transfer counts the conversations of its source and leaves it none, and the target, another
-- identity, has all of them with its own.
pub transfer_conversation_owners-count :
    (s t : String) (now : ℕ) (rows : List ConversationOwner)
    → (s == t) ≡ false
    → ((transfer_conversation_owners s t now rows).0 ≡ count_conversations_for_owner s rows)
      × (count_conversations_for_owner s (transfer_conversation_owners s t now rows).1 ≡ 0)
      × (count_conversations_for_owner t (transfer_conversation_owners s t now rows).1
          ≡ count_conversations_for_owner s rows + count_conversations_for_owner t rows)
unfolding transfer_conversation_owners count_conversations_for_owner count_where update_where
transfer_conversation_owners-count s t now rows differ = (refl, gone rows, moved rows)
  where
    gone :
        (rs : List ConversationOwner)
        → count_where (is_owner s) (update_where (is_owner s) (transferred t now) rs) ≡ 0
    gone [] = refl
    gone (r ∷ rs) = ground (arith, gone rs, eq_comm s t)

    moved :
        (rs : List ConversationOwner)
        → count_where (is_owner t) (update_where (is_owner s) (transferred t now) rs)
          ≡ count_where (is_owner s) rs + count_where (is_owner t) rs
    moved [] = refl
    moved (r ∷ rs) =
        ground (arith, moved rs, eq_refl t, eq_iff r.owner_id s, eq_iff r.owner_id t, eq_iff s t)
