-- ===== src/Restore.antt =====
-- crates/onv-core-link/src/restore.rs: a restore of Core's ledger, noticed from this side, and the mode
-- in which the agent lists and acts on nothing. `saves` says whether a write of the head's file works.
pub mod Holding
use omnuv_provider.Base.{
  ℕ, Bool, true, false, ◌&&◌, ◌||◌, not, List, [], ◌∷◌, ◌++◌, Option, none, some, if◌then◌else◌,
  is_empty, is_some, is_none, or_else, find, map, take, ltb, ◌==◌, max,
}
use omnuv_provider.Base.Text.{Text, codes, same}
use omnuv_provider.Base.Decimal.{print}
use omnuv_provider.Lease.{InstanceSpec, Lifecycle, running, stopped, absent, unknown}

pub record Mode : Type 0 where
  pub evidence : Text
  pub core : Option Text

pub record Head : Type 0 where
  pub provider : Text
  pub revision : ℕ
  pub mode : Option Mode
  pub armed : Option Bool

abbrev pub no_head : Head
no_head = record { provider = []; revision = 0; mode = none; armed = none }

-- The state, with what the head's file holds: `exists` when there is a file at all.
pub record State : Type 0 where
  pub armed : Bool
  pub head : Head
  pub disk : Option Head
  pub exists : Bool

-- What reading the head's file gave: nothing, bytes that do not parse, with the error, or a head.
pub data HeadFile : Type 0 where
  unread : HeadFile
  garbled : Text → HeadFile
  kept : Head → HeadFile

unfoldable pub load : HeadFile → Bool → State
load unread exists = record { armed = false; head = no_head; disk = none; exists = exists }
load (garbled e) exists = record {
  armed = false;
  head = record no_head {
    mode = some (record {
      evidence = codes "this agent's restore head was unreadable: " ++ e;
      core = none;
    });
  };
  disk = none;
  exists = true;
}
load (kept h) exists = record { armed = false; head = h; disk = some h; exists = true }

abbrev pub save : Bool → State → State
save saves st = if saves then record st { disk = some st.head; exists = true } else st

abbrev pub says_bool : Bool → Option Bool → Bool
says_bool b none = false
says_bool true (some c) = c
says_bool false (some c) = not c

-- The handshake's answer: its `restore_mode` and its `provider_id`.
unfoldable pub arm : Bool → Option Bool → Option Text → State → State
arm saves restore_mode provider_id st0 =
    let armed = or_else restore_mode false in
    let provider = or_else provider_id [] in
    let st1 = record st0 { armed = armed } in
    let moved = armed && not (is_empty provider) && not (same st1.head.provider provider) in
    let st =
      if moved
      then save saves (record st1 { head = record no_head { provider = provider } })
      else st1 in
    if not (says_bool armed st.head.armed) && (armed || st.exists)
    then save saves (record st { head = record st.head { armed = some armed } })
    else st

-- Before any Core has answered: the kept mode, unless the last Core held no restores.
unfoldable pub held_at_boot : State → Option Text
held_at_boot st = elim st.head.mode [
  | none ↦ none
  | some m ↦ if says_bool false st.head.armed then none else some m.evidence
]

unfoldable pub to_tell : State → Option Text
to_tell st = elim st.head.mode [
  | none ↦ none
  | some m ↦ if st.armed && is_none m.core then some (take 400 m.evidence) else none
]

unfoldable pub active : State → Bool
active st = st.armed && is_some st.head.mode

-- A view, as far as it is read here.
pub record View : Type 0 where
  pub unchanged : Bool
  pub version : ℕ
  pub instances : List InstanceSpec
  pub inference_workers : List InstanceSpec

abbrev pub is_wanted : Lifecycle → Bool
is_wanted absent = false
is_wanted running = true
is_wanted stopped = true
is_wanted unknown = true

-- The first id the view wants that this agent tore down.
unfoldable pub wanted_again : (Text → Bool) → View → Option Text
wanted_again torn view =
    elim (find (λ (i : InstanceSpec). is_wanted i.intent && torn i.id)
      (view.instances ++ view.inference_workers)) [ none ↦ none | some i ↦ some i.id ]

abbrev pub went_back : ℕ → ℕ → Text
went_back version revision =
    codes "Core sent view revision "
    ++ (print version
        ++ (codes ", below revision "
            ++ (print revision ++ codes " this agent acted on: the ledger went back")))

abbrev pub torn_wanted : Text → Text
torn_wanted id =
    codes "attempt "
    ++ (id ++ codes " is wanted again, and this agent tore it down: the ledger went back")

abbrev pub core_holds : Text → Text
core_holds id = codes "Core holds this provider in restore " ++ id

-- Core named a restore before and names none now.
unfoldable pub ended : Option Text → Head → Bool
ended named h = elim h.mode [ none ↦ false | some m ↦ is_none named && is_some m.core ]

-- This agent's own reading of a full view, out of the mode.
unfoldable pub read_view : (Text → Bool) → View → Head → Head
read_view torn view h =
    if not (view.version == 0) && ltb view.version h.revision
    then record h {
      mode = some (record { evidence = went_back view.version h.revision; core = none });
    }
    else elim (wanted_again torn view) [
      | some id ↦ record h { mode = some (record { evidence = torn_wanted id; core = none }) }
      | none ↦ record h { revision = max h.revision view.version }
    ]

-- Core's word.
unfoldable pub told : Option Text → Head → Head
told none h = h
told (some id) h = elim h.mode [
  | some m ↦ record h { mode = some (record m { core = some id }) }
  | none ↦ record h { mode = some (record { evidence = core_holds id; core = some id }) }
]

unfoldable pub observed : (Text → Bool) → View → Option Text → Head → Head
observed torn view named h =
    let over = record h {
      mode = none;
      revision = if view.unchanged then h.revision else view.version;
    } in
    let own = if is_none h.mode && not view.unchanged then read_view torn view h else h in
    told named (if ended named h then over else own)

abbrev pub same_option : {A : Type 0} → (A → A → Bool) → Option A → Option A → Bool
same_option eq none none = true
same_option eq none (some b) = false
same_option eq (some a) none = false
same_option eq (some a) (some b) = eq a b

abbrev same_bool : Bool → Bool → Bool
same_bool a b = if a then b else not b

abbrev same_mode : Mode → Mode → Bool
same_mode m k = same m.evidence k.evidence && same_option same m.core k.core

-- The derived equality of two heads.
unfoldable pub same_head : Head → Head → Bool
same_head h k =
    same h.provider k.provider
    && ((h.revision == k.revision)
        && (same_option same_mode h.mode k.mode && same_option same_bool h.armed k.armed))

-- One view, read against the head: whether this agent must act on nothing. The head is written again
-- when it changed.
unfoldable pub observe : Bool → (Text → Bool) → View → Option Text → State → Bool × State
observe saves torn view named st =
    let h = observed torn view named st.head in
    let st' = record st { head = h } in
    if st.armed
    then (is_some h.mode, if same_head h st.head then st' else save saves st')
    else (false, st)
