-- ===== src/Reread.antt =====
-- src/agent.rs: Core's view, read again just before an act (`seen_now`, `intent_now`, `still_running`,
-- `still_absent`). What Core answers is a parameter; whether a machine was sent as built is not read.
pub mod Fresh
use omnuv_provider.Base.{
  ℕ, Bool, true, false, Option, none, some, if◌then◌else◌, find, ltb, or_else, ◌>>=◌,
}
use omnuv_provider.Base.Text.{Text, same}
use omnuv_provider.Hypervisor.{Answer, ok, fault}
use omnuv_provider.Lease.{InstanceSpec, Lifecycle, running, stopped, absent, unknown}
use omnuv_provider.Restore.{State, View, observe}

-- The world, the view held, and the restore's state.
pub record Link (W : Type 0) : Type 0 where
  pub world : W
  pub held : Option View
  pub restore : State

abbrev pub known_of : Option View → ℕ
known_of none = 0
known_of (some v) = v.version

abbrev pub intent_in : Option InstanceSpec → Option Lifecycle
intent_in none = none
intent_in (some s) = some s.intent

-- A machine of the view, or else a worker of it.
unfoldable pub intent_of : Text → View → Option Lifecycle
intent_of id view = elim (find (λ (s : InstanceSpec). same s.id id) view.instances) [
  | some s ↦ some s.intent
  | none ↦ intent_in (find (λ (s : InstanceSpec). same s.id id) view.inference_workers)
]

-- The view to act on, if any, and the one held from now on, when Core says that it is unchanged, that
-- it is older than the one held, or neither.
unfoldable pub taken_if : Bool → Bool → View → Option View → Option View × Option View
taken_if true older fetched held = (held, held)
taken_if false true fetched held = (none, held)
taken_if false false fetched held = (some fetched, some fetched)

unfoldable pub taken : View → Option View → Option View × Option View
taken fetched held = taken_if fetched.unchanged (ltb fetched.version (known_of held)) fetched held

abbrev pub is_intent : Lifecycle → Option Lifecycle → Bool
is_intent running (some running) = true
is_intent stopped (some stopped) = true
is_intent absent (some absent) = true
is_intent unknown (some unknown) = true
is_intent i j = false

-- `get_view` of a known revision: a view, and the restore that Core names.
module _ {W : Type 0} (get_view : ℕ → W → Answer (View × Option Text) × W) (saves : Bool) where
  unfoldable pub on_view : Text → View → Option Text → Link W → Answer (Option Lifecycle) × Link W
  on_view id fetched named l =
      let (stop, st) = observe saves (λ _. false) fetched named l.restore in
      let (view, held) = taken fetched l.held in
      if stop
      then (ok none, record l { restore = st })
      else (ok (view >>= intent_of id), record l { restore = st; held = held })

  abbrev pub on_answer :
      Text → Answer (View × Option Text) × W → Link W → Answer (Option Lifecycle) × Link W
  on_answer id (ok (fetched, named), w) l = on_view id fetched named (record l { world = w })
  on_answer id (fault e, w) l = (fault e, record l { world = w })

  unfoldable pub intent_now : Text → Link W → Answer (Option Lifecycle) × Link W
  intent_now id l = on_answer id (get_view (known_of l.held) l.world) l

  abbrev pub asks : Lifecycle → Answer (Option Lifecycle) × Link W → Answer Bool × Link W
  asks i (ok j, l) = (ok (is_intent i j), l)
  asks i (fault e, l) = (fault e, l)

  unfoldable pub still_running : Text → Link W → Answer Bool × Link W
  still_running id l = asks running (intent_now id l)

  unfoldable pub still_absent : Text → Link W → Answer Bool × Link W
  still_absent id l = asks absent (intent_now id l)
