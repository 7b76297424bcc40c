-- ===== src/Auth/Sessions/Endings.antt =====
-- That a session which has ended stays ended.
use its_middle_platform_agen.Prelude.Strip.{strip, is_empty}
use its_middle_platform_agen.Prelude.Table.{update_where, select_one}
use its_middle_platform_agen.Prelude.Table.TextKey.{has_key→eq, has_key}
use its_middle_platform_agen.Prelude.Table.Keys.{Unique-append, Unique-update_where, Unique}
use its_middle_platform_agen.Prelude.Table.Holds.{
  Holds-append, Holds-refused, Holds-update_where, Holds,
}
use its_middle_platform_agen.Auth.Sessions.{
  new_session, is_active, without_source, earlier, touched, revoked, token_key, session_key,
  is_live, clear_user_session_merge_source, touch_user_session, revoke_user_session, insert_session,
  get_active_user_session, create_user_session, UserSession,
}
use its_middle_platform_agen.Prelude.{
  is_some-none, eq_comm, ltb, not, Bool-cases, arith, ◌≤◌, leb, ◌||◌, is_some, Option-cases, Bool,
  String, List, ℕ, ◌≡◌, none, some, true, false, inl, inr, refl,
}

abbrev pub AreDistinct : List UserSession → Type 0
AreDistinct rows = Unique (has_key token_key) token_key rows

-- A call of any of the methods that write, of whatever result.
pub data Step (has_user has_device : String → Bool) (rows : List UserSession)
    : List UserSession → Type 0 where
  create :
      (now : ℕ) (r : UserSession)
      → Step has_user has_device rows (create_user_session has_user has_device now r rows).1
  touch :
      (i : String) (sliding now : ℕ)
      → Step has_user has_device rows (touch_user_session i sliding now rows).1
  revoke : (i : String) (now : ℕ) → Step has_user has_device rows (revoke_user_session i now rows)
  clear : (i : String) → Step has_user has_device rows (clear_user_session_merge_source i rows)

pub data Reach (has_user has_device : String → Bool) (rows : List UserSession)
    : List UserSession → Type 0 where
  here : Reach has_user has_device rows rows
  next :
      {mid rows' : List UserSession}
      → Reach has_user has_device rows mid
      → Step has_user has_device mid rows'
      → Reach has_user has_device rows rows'

-- The session is revoked, or its absolute expiry has passed at `t`.
abbrev pub has_ended : ℕ → UserSession → Bool
has_ended t r = is_some r.revoked_at || leb r.absolute_expires_at t

abbrev IsOver : ℕ → String → List UserSession → Type 0
IsOver t h rows = AreDistinct rows × Holds (has_key token_key) h (has_ended t) rows

module _ (t : ℕ) (h : String) (rows : List UserSession) (s : IsOver t h rows) where
  update-IsOver :
      (test : UserSession → Bool) (set : UserSession → UserSession)
      → ((r : UserSession) → (set r).token_hash ≡ r.token_hash)
      → ((r : UserSession) → has_ended t r ≡ true → has_ended t (set r) ≡ true)
      → IsOver t h (update_where test set rows)
  update-IsOver test set keep stays = (
    Unique-update_where (has_key token_key) token_key test set rows keep (λ k x. rw (keep x) refl)
        s.0,
    Holds-update_where (has_key token_key) h (has_ended t) test set rows (λ x. rw (keep x) refl)
        (λ x hit. stays x) s.1,
  )

  insert-IsOver :
      (has_user has_device : String → Bool) (r : UserSession)
      → IsOver t h (insert_session has_user has_device r rows).1
  unfolding insert_session
  insert-IsOver has_user has_device r =
      let known = is_some (select_one (has_key session_key r.id) rows) in
      let taken = is_some (select_one (has_key token_key r.token_hash) rows) in
      let stranger = not (has_user r.open_id) in
      let orphan = not (elim r.source_anonymous_owner_id [ none ↦ true | some o ↦ has_device o ]) in
      elim (Bool-cases (known || taken || stranger || orphan)) [
        | inl bad ↦ rw bad s
        | inr good ↦
            let free : taken ≡ false = ground arith in
            rw good (
              Unique-append (has_key token_key) token_key rows r
                  (λ x y. eq_comm y.token_hash x.token_hash)
                  (is_some-none (select_one (has_key token_key r.token_hash) rows) free) s.0,
              Holds-append (has_key token_key) h (has_ended t) rows r s.1,
            )
      ]

  touch-IsOver :
      (i : String) (sliding now : ℕ) → IsOver t h (touch_user_session i sliding now rows).1
  unfolding touch_user_session
  touch-IsOver i sliding now = elim (Option-cases (select_one (has_key session_key i) rows)) [
    | inl missing ↦ rw (missing, touch_user_session) s
    | inr (r, found) ↦
        rw (found, touch_user_session)
          (update-IsOver (is_live i) (touched now (earlier sliding r.absolute_expires_at))
            (λ x. refl) (λ x e. e))
  ]

Step-IsOver :
    {has_user has_device : String → Bool} {rows rows' : List UserSession} (t : ℕ) (h : String)
    → Step has_user has_device rows rows'
    → IsOver t h rows
    → IsOver t h rows'
unfolding create_user_session revoke_user_session clear_user_session_merge_source
Step-IsOver {has_user} {has_device} {rows} t h (create now r) s =
    elim (Bool-cases (
      ltb r.absolute_expires_at r.sliding_expires_at
      || is_empty (strip r.token_hash)
      || is_empty (strip r.open_id)
      || is_empty (strip r.csrf_token))) [
        | inl bad ↦ rw bad s
        | inr good ↦ rw good (insert-IsOver t h rows s has_user has_device (new_session now r))
      ]
Step-IsOver {rows = rows} t h (touch i sliding now) s = touch-IsOver t h rows s i sliding now
Step-IsOver {rows = rows} t h (revoke i now) s =
    update-IsOver t h rows s (is_live i) (revoked now) (λ x. refl) (λ x e. refl)
Step-IsOver {rows = rows} t h (clear i) s =
    update-IsOver t h rows s (has_key session_key i) without_source (λ x. refl) (λ x e. e)

Reach-IsOver :
    {has_user has_device : String → Bool} {rows rows' : List UserSession} (t : ℕ) (h : String)
    → Reach has_user has_device rows rows'
    → IsOver t h rows
    → IsOver t h rows'
Reach-IsOver t h here s = s
Reach-IsOver t h (next before step) s = Step-IsOver t h step (Reach-IsOver t h before s)

-- A session that is revoked, or whose absolute expiry has passed at `t`, is never active again: at
-- `t` or later its token finds none, whatever sessions are created, touched with whatever expiry,
-- revoked or detached from their device meanwhile.
pub get_active_user_session_ended :
    {has_user has_device : String → Bool} (t now : ℕ) (r : UserSession)
    (rows rows' : List UserSession)
    → AreDistinct rows
    → select_one (has_key token_key r.token_hash) rows ≡ some r
    → has_ended t r ≡ true
    → Reach has_user has_device rows rows'
    → t ≤ now
    → get_active_user_session r.token_hash now rows' ≡ none
unfolding get_active_user_session
get_active_user_session_ended t now r rows rows' u stored ended after late =
    let over = Reach-IsOver t r.token_hash after (u, (r, stored, ended)) in
    Holds-refused (has_key token_key) token_key (has_key→eq token_key) r.token_hash (has_ended t)
      (is_active now) rows' over.0 (λ x e. ground arith) over.1
