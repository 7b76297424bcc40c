-- ===== src/Auth/Devices/Disabling.antt =====
-- That a disabled device stays disabled.
use its_middle_platform_agen.Prelude.Strip.{strip, is_empty}
use its_middle_platform_agen.Prelude.Table.{count_where, update_where, select_one}
use its_middle_platform_agen.Prelude.Table.TextKey.{has_key→eq, has_key}
use its_middle_platform_agen.Prelude.Table.Keys.{Unique-append, Unique-update_where, Unique}
use its_middle_platform_agen.Prelude.Table.Holds.{
  Holds-append, Holds-update_where, Holds-refused, Holds,
}
use its_middle_platform_agen.Auth.Devices.{
  disabled, is_enabled, refreshed, new_device, is_usable, device_owner, disable_anonymous_device,
  device_token, device_key, touch_anonymous_device, refresh_active_anonymous_device, insert_device,
  get_active_anonymous_device, create_anonymous_device, AnonymousDevice,
}
use its_middle_platform_agen.Prelude.{
  eqb, not, is_some-none, eq_comm, ◌&&◌, arith, ◌||◌, Bool-cases, Option, is_some, Bool, String,
  List, ℕ, ◌≡◌, none, some, true, false, inl, inr, refl,
}

abbrev pub AreDistinct : List AnonymousDevice → Type 0
AreDistinct rows = Unique (has_key device_token) device_token rows

-- A call of any of the methods that write, of whatever result.
pub data Step (rows : List AnonymousDevice) : List AnonymousDevice → Type 0 where
  create :
      (i token : String) (expires now : ℕ)
      → Step rows (create_anonymous_device i token expires now rows).1
  refresh :
      (token : String) (expires now : ℕ)
      → Step rows (refresh_active_anonymous_device token expires now rows).1
  touch :
      (owner : String) (expires now : ℕ)
      → Step rows (touch_anonymous_device owner expires now rows).1
  disable :
      (owner : String) (merged : Option String) (now : ℕ)
      → Step rows (disable_anonymous_device owner merged now rows)

pub data Reach (rows : List AnonymousDevice) : List AnonymousDevice → Type 0 where
  here : Reach rows rows
  next : {mid rows' : List AnonymousDevice} → Reach rows mid → Step mid rows' → Reach rows rows'

abbrev pub is_disabled : AnonymousDevice → Bool
is_disabled r = is_some r.disabled_at

abbrev IsOff : String → List AnonymousDevice → Type 0
IsOff h rows = AreDistinct rows × Holds (has_key device_token) h is_disabled rows

module _ (h : String) (rows : List AnonymousDevice) (s : IsOff h rows) where
  update-IsOff :
      (test : AnonymousDevice → Bool) (set : AnonymousDevice → AnonymousDevice)
      → ((r : AnonymousDevice) → (set r).token_hash ≡ r.token_hash)
      → ((r : AnonymousDevice) → is_disabled r ≡ true → is_disabled (set r) ≡ true)
      → IsOff h (update_where test set rows)
  update-IsOff test set keep stays = (
    Unique-update_where (has_key device_token) device_token test set rows keep
        (λ k x. rw (keep x) refl) s.0,
    Holds-update_where (has_key device_token) h is_disabled test set rows (λ x. rw (keep x) refl)
        (λ x hit. stays x) s.1,
  )

  insert-IsOff : (r : AnonymousDevice) → IsOff h (insert_device r rows).1
  unfolding insert_device
  insert-IsOff r =
      let known = is_some (select_one (has_key device_key r.id) rows) in
      let owned = is_some (select_one (has_key device_owner r.owner_id) rows) in
      let taken = is_some (select_one (has_key device_token r.token_hash) rows) in
      elim (Bool-cases (known || owned || taken)) [
        | inl bad ↦ rw bad s
        | inr good ↦
            let free : taken ≡ false = ground arith in
            rw good (
              Unique-append (has_key device_token) device_token rows r
                  (λ x y. eq_comm y.token_hash x.token_hash)
                  (is_some-none (select_one (has_key device_token r.token_hash) rows) free) s.0,
              Holds-append (has_key device_token) h is_disabled rows r s.1,
            )
      ]

Step-IsOff :
    {rows rows' : List AnonymousDevice} (h : String)
    → Step rows rows'
    → IsOff h rows
    → IsOff h rows'
unfolding create_anonymous_device refresh_active_anonymous_device touch_anonymous_device
    disable_anonymous_device
Step-IsOff {rows} h (create i token expires now) s = elim (Bool-cases (is_empty (strip token))) [
  | inl blank ↦ rw blank s
  | inr named ↦ rw named (insert-IsOff h rows s (new_device i (strip token) expires now))
]
Step-IsOff {rows} h (refresh token expires now) s =
    update-IsOff h rows s (λ r. has_key device_token token r && is_usable now r)
      (refreshed expires now) (λ x. refl) (λ x e. e)
Step-IsOff {rows} h (touch owner expires now) s =
    elim (Bool-cases (not (eqb (count_where (is_enabled owner) rows) 1))) [
      | inl missing ↦ rw missing s
      | inr one ↦
          rw one (
            update-IsOff h rows s (is_enabled owner) (refreshed expires now) (λ x. refl) (λ x e. e))
    ]
Step-IsOff {rows} h (disable owner merged now) s =
    update-IsOff h rows s (is_enabled owner) (disabled merged now) (λ x. refl) (λ x e. refl)

Reach-IsOff :
    {rows rows' : List AnonymousDevice} (h : String)
    → Reach rows rows'
    → IsOff h rows
    → IsOff h rows'
Reach-IsOff h here s = s
Reach-IsOff h (next before step) s = Step-IsOff h step (Reach-IsOff h before s)

-- A disabled device is never active again: its token finds no device, and refreshes none, whatever
-- devices are created, refreshed, touched and disabled meanwhile and at whatever time.
pub disabled_device_inactive :
    (r : AnonymousDevice) (expires now : ℕ) (rows rows' : List AnonymousDevice)
    → AreDistinct rows
    → select_one (has_key device_token r.token_hash) rows ≡ some r
    → is_disabled r ≡ true
    → Reach rows rows'
    → (get_active_anonymous_device r.token_hash now rows' ≡ none)
      × ((refresh_active_anonymous_device r.token_hash expires now rows').0 ≡ none)
unfolding get_active_anonymous_device refresh_active_anonymous_device
disabled_device_inactive r expires now rows rows' u stored off after =
    let over = Reach-IsOff r.token_hash after (u, (r, stored, off)) in
    let refused =
      Holds-refused (has_key device_token) device_token (has_key→eq device_token) r.token_hash
        is_disabled (is_usable now) rows' over.0 (λ x e. ground arith) over.1 in
    (refused, rw refused refl)
