-- ===== src/Tests/Auth.antt =====
-- Tests of conversation owners and merge jobs.
use its_middle_platform_agen.Prelude.Table.TextKey.{has_key}
use its_middle_platform_agen.Auth.Sessions.{
  touch_user_session, token_key, get_active_user_session, UserSession,
}
use its_middle_platform_agen.Auth.OAuth.{
  open_state, mark_consumed, consumed, new_state, get_oauth_state, create_oauth_state,
  consume_oauth_state, OAuthLoginState,
}
use its_middle_platform_agen.Auth.OAuth.Once.{consume_oauth_state_once, next, here, create, mark}
use its_middle_platform_agen.Auth.Sessions.Endings as Sessions
use its_middle_platform_agen.Auth.Sessions.Endings.{touch, get_active_user_session_ended}
use Prim.Native.String.{
  ◌∷◌, ◌∷◌, ◌∷◌, ◌∷◌, ◌∷◌, ◌∷◌, ◌∷◌, ◌∷◌, ◌∷◌, ◌∷◌, ◌∷◌, ◌∷◌, ◌∷◌, ◌∷◌, ◌∷◌, ◌∷◌,
}
use its_middle_platform_agen.Prelude.Result.{ok}
use its_middle_platform_agen.Prelude.Table.{update_where, select_one}
use its_middle_platform_agen.Auth.Owners.{new_owner, ConversationOwner}
use its_middle_platform_agen.Auth.Owners.Ownership.{
  rename, remove, bind, OwnerCall, calls-owner, calls, owner,
}
use its_middle_platform_agen.Auth.MergeJobs.{
  new_merge_job, insert_or_ignore, get_or_create_merge_job,
}
use its_middle_platform_agen.Prelude.{arith, none, String, List, ◌≡◌, some, [], ◌∷◌, true, refl}

abbrev owned : List ConversationOwner
owned = new_owner "c1" "anon" "web" 1 ∷ new_owner "c2" "user" "web" 2 ∷ []

owned_by : owner "c1" owned ≡ some "anon"
unfolding owner select_one
owned_by = refl

abbrev intrusions : List (String × OwnerCall)
intrusions =
    ("user", bind "c1" "feishu" 5) ∷ ("user", remove "c1") ∷ ("other", rename "c1" "mine" 4) ∷ []

calls-owner_example : owner "c1" (calls intrusions owned) ≡ some "anon"
calls-owner_example = calls-owner "c1" "anon" intrusions owned (refl, (refl, (refl, tt))) owned_by

first_merge :
    get_or_create_merge_job (λ s t. true) "m1" "anon" "user" 3 []
    ≡ (ok (new_merge_job "m1" "anon" "user" 3), new_merge_job "m1" "anon" "user" 3 ∷ [])
unfolding get_or_create_merge_job insert_or_ignore select_one
first_merge = refl

abbrev login : OAuthLoginState
login = new_state "i1" "h1" none "/chat" 100 1

first_call :
    consume_oauth_state "h1" 5 (login ∷ []) ≡ (ok (some (consumed 5 login)), consumed 5 login ∷ [])
unfolding consume_oauth_state get_oauth_state select_one update_where
first_call = refl

login_found : open_state "h1" 5 (login ∷ []) ≡ some login
unfolding open_state select_one
login_found = refl

-- Two calls read the state, then both update it, and a state is created in between.
abbrev marked_twice : List OAuthLoginState
marked_twice =
    mark_consumed "i1" 7
      (create_oauth_state (λ o. true) "i2" "h2" none "/other" 200 6
        (mark_consumed "i1" 6 (login ∷ []))).1

consume_oauth_state_once_example : consume_oauth_state "h1" 8 marked_twice ≡ (ok none, marked_twice)
unfolding select_one
consume_oauth_state_once_example =
    consume_oauth_state_once {has_owner = λ o. true} "h1" 5 6 8 login (login ∷ []) (login ∷ [])
      marked_twice (refl, tt) login_found here
      (next (next here (create "i2" "h2" none "/other" 200 6)) (mark "i1" 7))

abbrev session : UserSession
session = record {
  id = "n1";
  token_hash = "t1";
  open_id = "ou";
  csrf_token = "c";
  source_anonymous_owner_id = none;
  created_at = 1;
  last_seen_at = 1;
  sliding_expires_at = 50;
  absolute_expires_at = 60;
  revoked_at = none;
}

stored_session : select_one (has_key token_key "t1") (session ∷ []) ≡ some session
unfolding select_one
stored_session = refl

get_active_user_session_ended_example :
    get_active_user_session "t1" 60 (touch_user_session "n1" 90 58 (session ∷ [])).1 ≡ none
unfolding select_one
get_active_user_session_ended_example =
    get_active_user_session_ended {has_user = λ o. true} {has_device = λ o. true} 60 60 session
      (session ∷ []) (touch_user_session "n1" 90 58 (session ∷ [])).1 (refl, tt) stored_session refl
      (Sessions.next Sessions.here (touch "n1" 90 58)) (ground arith)
