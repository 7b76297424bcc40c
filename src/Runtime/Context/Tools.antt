-- ===== src/Runtime/Context/Tools.antt =====
-- The tool runs of a context: one for each call id, and what its end leaves.
use its_middle_platform_agen.Prelude.Table.Laws.{
  select_one-true, update_where-none, select_one-append,
}
use its_middle_platform_agen.Prelude.Table.TextKey.{has_key→eq, has_key}
use its_middle_platform_agen.Prelude.Table.Keys.{
  Unique-update_where, select_one-update_where, Unique-append, Unique,
}
use its_middle_platform_agen.Prelude.Table.{select_one, update_where}
use its_middle_platform_agen.Runtime.Context.{
  restarted, new_tool_run, finished, tool_key, ToolRun, update_last, start_tool, finish_tool,
}
use its_middle_platform_agen.Prelude.{
  eq→path, Bool, arith, ◌∙◌, sym, eq_refl, eq_comm, Bool-cases, ◌==◌, is_some, if◌then◌else◌,
  Option-cases, String, Option, List, ℕ, ◌≡◌, none, some, [], ◌∷◌, true, false, inl, inr, refl,
}

abbrev pub AreDistinct : List ToolRun → Type 0
AreDistinct rs = Unique (has_key tool_key) tool_key rs

-- The last run of an id is its only one.
update_last-update_where :
    (k : String) (set : ToolRun → ToolRun) (rs : List ToolRun)
    → AreDistinct rs
    → update_last (has_key tool_key k) set rs ≡ update_where (has_key tool_key k) set rs
unfolding update_last update_where
update_last-update_where k set [] u = refl
update_last-update_where k set (r ∷ rs) u =
    elim (Option-cases (select_one (has_key tool_key k) rs)) [
      | inl last ↦ rw last (rw (update_where-none (has_key tool_key k) set rs last) refl)
      | inr (x, more) ↦ elim (Bool-cases (has_key tool_key k r)) [
        | inl hit ↦
            let fresh : select_one (has_key tool_key k) rs ≡ none =
              rw (has_key→eq tool_key k r hit) at u.0 in
            let bad : ◌≡◌ {A = Option ToolRun} none (some x) = sym fresh ∙ more in
            absurd (ground arith)
        | inr miss ↦ rw more (rw miss (rw (update_last-update_where k set rs u.1) refl))
      ]
    ]

-- Starting a tool keeps one run for each call id.
pub start_tool-AreDistinct :
    (k name agent arguments : String) (rs : List ToolRun)
    → AreDistinct rs
    → AreDistinct (start_tool k name agent arguments rs)
unfolding start_tool
start_tool-AreDistinct k name agent arguments rs u =
    elim (Option-cases (select_one (has_key tool_key k) rs)) [
      | inl new ↦ rw new (
          Unique-append (has_key tool_key) tool_key rs (new_tool_run k name agent arguments)
            (λ x y. eq_comm y.tool_call_id x.tool_call_id) new u)
      | inr (r, old) ↦ rw old (
          rw (update_last-update_where k (restarted name agent arguments) rs u) (
            Unique-update_where (has_key tool_key) tool_key (has_key tool_key k)
              (restarted name agent arguments) rs (λ x. refl) (λ i x. refl) u))
    ]

abbrev ending_of : Option ToolRun → Option (String × Option ℕ)
ending_of none = none
ending_of (some r) = some (r.status, r.duration_ms)

-- The status and the duration that the run of a call id shows.
unfoldable pub ending : String → List ToolRun → Option (String × Option ℕ)
ending k rs = ending_of (select_one (has_key tool_key k) rs)

started_there :
    (k name agent arguments : String) (rs : List ToolRun)
    → AreDistinct rs
    → is_some (select_one (has_key tool_key k) (start_tool k name agent arguments rs)) ≡ true
unfolding start_tool
started_there k name agent arguments rs u =
    elim (Option-cases (select_one (has_key tool_key k) rs)) [
      | inl new ↦ rw new (
          rw (select_one-append (has_key tool_key k) rs (new_tool_run k name agent arguments))
            (rw new (rw (eq_refl k) refl)))
      | inr (r, old) ↦ rw old (
          rw (update_last-update_where k (restarted name agent arguments) rs u) (
            rw
              (select_one-update_where (has_key tool_key) k (has_key tool_key k)
                (restarted name agent arguments) rs (λ x. refl))
              (rw old refl)))
    ]

finish_tool-there :
    (k i status : String) (ms : Option ℕ) (rs : List ToolRun)
    → AreDistinct rs
    → is_some (select_one (has_key tool_key k) rs) ≡ true
    → ending i (finish_tool k status ms rs) ≡ (if i == k then some (status, ms) else ending i rs)
unfolding finish_tool ending
finish_tool-there k i status ms rs u there =
    rw (update_last-update_where k (finished status ms) rs u) (
      rw
        (select_one-update_where (has_key tool_key) i (has_key tool_key k) (finished status ms) rs
          (λ x. refl))
        (elim (Option-cases (select_one (has_key tool_key i) rs)) [
          | inr (r, mine) ↦
              let e : r.tool_call_id ≡ i =
                has_key→eq tool_key i r (select_one-true (has_key tool_key i) rs mine) in
              let tested : has_key tool_key k r ≡ (i == k) = rw e refl in
              rw (mine, ending) (rw tested (pick r (i == k)))
          | inl gone ↦ elim (Bool-cases (i == k)) [
            | inl same ↦
                let e : i ≡ k = eq→path i k same in
                let none' : select_one (has_key tool_key k) rs ≡ none = rw e at gone in
                let bad : is_some {A = ToolRun} none ≡ true = rw none' at there in
                absurd (ground arith)
            | inr other ↦ rw (gone, ending) (rw other refl)
          ]
        ]))
  where
    pick :
        (r : ToolRun) (b : Bool)
        → ending_of (some (if b then finished status ms r else r))
          ≡ (if b then some (status, ms) else ending_of (some r))
    pick r true = refl
    pick r false = refl

-- A tool that is started, anew or again, and then finished shows the status and the duration of its
-- end, and the runs of other call ids show what they showed after the start.
pub finish_tool-start_tool :
    (k i name agent arguments status : String) (ms : Option ℕ) (rs : List ToolRun)
    → AreDistinct rs
    → ending i (finish_tool k status ms (start_tool k name agent arguments rs))
      ≡ (if i == k then some (status, ms) else ending i (start_tool k name agent arguments rs))
finish_tool-start_tool k i name agent arguments status ms rs u =
    finish_tool-there k i status ms (start_tool k name agent arguments rs)
      (start_tool-AreDistinct k name agent arguments rs u)
      (started_there k name agent arguments rs u)
