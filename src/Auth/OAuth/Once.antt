-- ===== src/Auth/OAuth/Once.antt =====
-- That a login state is consumed once, by statements of any calls in any order.
use its_middle_platform_agen.Prelude.Table.Maps.{select_one-key}
use its_middle_platform_agen.Prelude.Strip.{strip, is_empty}
use its_middle_platform_agen.Prelude.Table.{select_one}
use its_middle_platform_agen.Prelude.Table.TextKey.{has_key→eq, has_key}
use its_middle_platform_agen.Prelude.Result.{ok}
use its_middle_platform_agen.Prelude.Table.Keys.{
  select_one-update_where, Unique-append, Unique-update_where, Unique,
}
use its_middle_platform_agen.Prelude.Table.Holds.{
  Holds-append, Holds-update_where, Holds-refused, Holds,
}
use its_middle_platform_agen.Auth.OAuth.{
  open_state, mark_consumed, new_state, consumed, state_id_of, is_open, hash_of, create_oauth_state,
  insert_state, consume_oauth_state, OAuthLoginState,
}
use its_middle_platform_agen.Prelude.{
  eq_refl, ◌∙◌, sym, if◌then◌else◌, is_some-none, eq_comm, arith, ◌||◌, not, Bool-cases, ◌&&◌,
  is_some, Option, Option-cases, Bool, String, List, ℕ, ◌≡◌, none, some, true, false, inl, inr,
  refl,
}

abbrev pub AreDistinct : List OAuthLoginState → Type 0
AreDistinct rows = Unique (has_key hash_of) hash_of rows

-- A transaction that writes, whatever read came before it: the insertion of a state, and the update
-- of any call of `consume_oauth_state`.
pub data Step (has_owner : String → Bool) (rows : List OAuthLoginState)
    : List OAuthLoginState → Type 0 where
  create :
      (i h : String) (owner : Option String) (path : String) (expires now : ℕ)
      → Step has_owner rows (create_oauth_state has_owner i h owner path expires now rows).1
  mark : (i : String) (now : ℕ) → Step has_owner rows (mark_consumed i now rows)

pub data Reach (has_owner : String → Bool) (rows : List OAuthLoginState)
    : List OAuthLoginState → Type 0 where
  here : Reach has_owner rows rows
  next :
      {mid rows' : List OAuthLoginState}
      → Reach has_owner rows mid
      → Step has_owner mid rows'
      → Reach has_owner rows rows'

-- A call that no other disturbs is such a history.
pub consume_oauth_state-Reach :
    {has_owner : String → Bool} (h : String) (now : ℕ) (rows : List OAuthLoginState)
    → Reach has_owner rows (consume_oauth_state h now rows).1
unfolding consume_oauth_state
consume_oauth_state-Reach h now rows = elim (Option-cases (open_state h now rows)) [
  | inl missing ↦ rw (missing, consume_oauth_state) here
  | inr (r, found) ↦ rw (found, consume_oauth_state) (next here (mark r.id now))
]

abbrev is_spent : OAuthLoginState → Bool
is_spent r = is_some r.consumed_at

-- The hashes are distinct, and the row of `h` passes the test `p`.
abbrev Keeps : (OAuthLoginState → Bool) → String → List OAuthLoginState → Type 0
Keeps p h rows = AreDistinct rows × Holds (has_key hash_of) h p rows

module _ (p : OAuthLoginState → Bool)
    (stays : (x : OAuthLoginState) (now : ℕ) → p x ≡ true → p (consumed now x) ≡ true) where
  insert_state-Keeps :
      (has_owner : String → Bool) (h : String) (r : OAuthLoginState) (rows : List OAuthLoginState)
      → Keeps p h rows
      → Keeps p h (insert_state has_owner r rows).1
  unfolding insert_state
  insert_state-Keeps has_owner h r rows s =
      let known = is_some (select_one (has_key state_id_of r.id) rows) in
      let taken = is_some (select_one (has_key hash_of r.state_hash) rows) in
      let orphan = not (elim r.anonymous_owner_id [ none ↦ true | some o ↦ has_owner o ]) in
      elim (Bool-cases (known || taken || orphan)) [
        | inl bad ↦ rw bad s
        | inr good ↦
            let free : taken ≡ false = ground arith in
            rw good (
              Unique-append (has_key hash_of) hash_of rows r
                  (λ x y. eq_comm y.state_hash x.state_hash)
                  (is_some-none (select_one (has_key hash_of r.state_hash) rows) free) s.0,
              Holds-append (has_key hash_of) h p rows r s.1,
            )
      ]

  mark_consumed-Keeps :
      (h i : String) (now : ℕ) (rows : List OAuthLoginState)
      → Keeps p h rows
      → Keeps p h (mark_consumed i now rows)
  unfolding mark_consumed
  mark_consumed-Keeps h i now rows s = (
    Unique-update_where (has_key hash_of) hash_of (has_key state_id_of i) (consumed now) rows
        (λ x. refl) (λ k x. refl) s.0,
    Holds-update_where (has_key hash_of) h p (has_key state_id_of i) (consumed now) rows (λ x. refl)
        (λ x hit old. stays x now old) s.1,
  )

  Step-Keeps :
      {has_owner : String → Bool} {rows rows' : List OAuthLoginState} (h : String)
      → Step has_owner rows rows'
      → Keeps p h rows
      → Keeps p h rows'
  unfolding create_oauth_state
  Step-Keeps {has_owner} {rows} h (create i k owner path expires now) s =
      elim (Bool-cases (is_empty (strip k))) [
        | inl blank ↦ rw blank s
        | inr named ↦
            rw named
              (insert_state-Keeps has_owner h (new_state i (strip k) owner path expires now) rows s)
      ]
  Step-Keeps {rows = rows} h (mark i now) s = mark_consumed-Keeps h i now rows s

  Reach-Keeps :
      {has_owner : String → Bool} {rows rows' : List OAuthLoginState} (h : String)
      → Reach has_owner rows rows'
      → Keeps p h rows
      → Keeps p h rows'
  Reach-Keeps h here s = s
  Reach-Keeps h (next before step) s = Step-Keeps h step (Reach-Keeps h before s)

-- The open state of a hash is the row of that hash.
open_state-row :
    (h : String) (now : ℕ) (rows : List OAuthLoginState) (x : OAuthLoginState)
    → AreDistinct rows
    → select_one (λ r. has_key hash_of h r && is_open now r) rows ≡ some x
    → select_one (has_key hash_of h) rows ≡ some x
open_state-row h now rows x u found = pick (select_one (has_key hash_of h) rows) (
    sym (select_one-key (has_key hash_of) hash_of (has_key→eq hash_of) h (is_open now) rows u)
    ∙ found)
  where
    pick :
        (o : Option OAuthLoginState)
        → (elim o [ none ↦ none | some r ↦ if is_open now r then some r else none ]) ≡ some x
        → o ≡ some x
    pick none e = absurd (ground arith)
    pick (some r) e = ground arith

-- The update of the row that the hash names.
mark_consumed-IsSpent :
    (h i : String) (now : ℕ) (rows : List OAuthLoginState)
    → Keeps (has_key state_id_of i) h rows
    → Keeps is_spent h (mark_consumed i now rows)
unfolding mark_consumed
mark_consumed-IsSpent h i now rows (u, (x, found, same)) = (
  Unique-update_where (has_key hash_of) hash_of (has_key state_id_of i) (consumed now) rows
      (λ y. refl) (λ k y. refl) u,
  (
    consumed now x,
    rw
        (select_one-update_where (has_key hash_of) h (has_key state_id_of i) (consumed now) rows
          (λ y. refl))
        (rw found (rw same refl)),
    refl,
  ),
)

-- A call finds an open state of a hash, and updates its row later. Whatever states others create
-- and whatever updates of their own calls they make before and after that update, in any order and
-- at any times: every call with the hash whose `SELECT` comes after the update returns no state and
-- changes nothing.
pub consume_oauth_state_once :
    {has_owner : String → Bool} (h : String) (now at later : ℕ) (r : OAuthLoginState)
    (rows rows' rows'' : List OAuthLoginState)
    → AreDistinct rows
    → open_state h now rows ≡ some r
    → Reach has_owner rows rows'
    → Reach has_owner (mark_consumed r.id at rows') rows''
    → consume_oauth_state h later rows'' ≡ (ok none, rows'')
unfolding consume_oauth_state open_state
consume_oauth_state_once h now at later r rows rows' rows'' u found before after =
    let there : Keeps (has_key state_id_of r.id) h rows =
      (u, (r, open_state-row h now rows r u found, eq_refl r.id)) in
    let named = Reach-Keeps (has_key state_id_of r.id) (λ x t e. e) h before there in
    let marked = mark_consumed-IsSpent h r.id at rows' named in
    let spent = Reach-Keeps is_spent (λ x t e. refl) h after marked in
    let refused =
      Holds-refused (has_key hash_of) hash_of (has_key→eq hash_of) h is_spent (is_open later) rows''
        spent.0 (λ x e. rw e refl) spent.1 in
    rw (refused, consume_oauth_state) refl
