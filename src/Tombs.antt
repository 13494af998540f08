-- ===== src/Tombs.antt =====
-- src/teardown.rs: the tombstone of a machine, kept before its destroy and after its proof, and the
-- teardown over several passes. The directory of tombstones is a parameter, a file system `D`.
pub mod Proof
pub mod Conclusions
use omnuv_provider.Base.{
  ℕ, Bool, true, false, not, List, [], ◌∷◌, ◌++◌, map, Option, none, some, if◌then◌else◌, any,
  is_empty, is_some, or_else, ◌==◌, ◌||◌,
}
use omnuv_provider.Base.Text.{Text, codes, same, is_alphanumeric}
use omnuv_provider.Base.Decimal.{print}
use omnuv_provider.Hypervisor.{
  Answer, ok, fault, not_absent, unwritten, Guest, NodeLine, Api, Run, Call, pure, ◌>>=◌, ask,
  attempt,
}
use omnuv_provider.Leased.{online, claimed_guests}
use omnuv_provider.Teardown.{Doomed, Licence, nothing, destroy, licence, stamped_guests, destroy_it}
use omnuv_provider.Leftover.{says, volume_left}

pub record Tombstone : Type 0 where
  pub id : Text
  pub claim : Text
  pub node : Option Text
  pub vmid : Option ℕ
  pub volids : List Text
  pub destroyed_at : Option ℕ
  pub proven_at : Option ℕ
  pub residue : List Text
  pub residue_gone : List Text

-- A tombstone that says nothing yet of the machine.
abbrev pub blank : Text → Text → Tombstone
blank claim id = record {
  id = id;
  claim = claim;
  node = none;
  vmid = none;
  volids = [];
  destroyed_at = none;
  proven_at = none;
  residue = [];
  residue_gone = [];
}

-- What reading a tombstone's file gave: no bytes, bytes that are no tombstone, or one.
pub data Loaded : Type 0 where
  no_bytes unparsed : Loaded
  tombstone : Tombstone → Loaded

-- The directory of tombstones: a file is read, and written whole or not, by its name.
pub record Journal (D : Type 0) : Type 0 where
  pub load : Text → D → Loaded
  pub save : Text → Tombstone → D → Bool × D

-- The name of an id's file.
unfoldable pub tomb_file : Text → Text
tomb_file id = map (λ c. if is_alphanumeric c || (c == b'-') then c else b'_') id ++ codes ".json"

-- A file that does not parse is a tombstone that says nothing.
unfoldable pub read_tomb : {D : Type 0} → Journal D → Text → D → Option Tombstone
read_tomb j id d = elim (j.load (tomb_file id) d) [
  | no_bytes ↦ none
  | unparsed ↦ some (blank [] id)
  | tombstone t ↦ some t
]

-- Whether a create is refused because the machine was deleted here.
unfoldable pub built_again : {D : Type 0} → Journal D → Text → D → Bool
built_again j id d = is_some (read_tomb j id d)

-- What blocks the proof that a machine is gone.
pub data Blocker : Type 0 where
  still_claimed clone_left : List Guest → Blocker
  node_silent : Text → Blocker
  task_running still_ha just_destroyed : ℕ → Blocker
  not_looked snippet_left : Text → Blocker

pub data Gone : Type 0 where
  proven : Gone
  residue_left : List Text → Gone
  not_yet : List Blocker → Gone

abbrev pub when : Bool → Blocker → List Blocker
when true b = b ∷ []
when false b = []

abbrev pub is_online : Text → List NodeLine → Bool
is_online node ns = any (λ (n : NodeLine). if says node n.name then online n else false) ns

-- One volume's answer, put before those of the volumes after it.
abbrev pub with_look : Text → Answer Bool → List Blocker × List Text → List Blocker × List Text
with_look v (fault e) found = (not_looked v ∷ found.0, found.1)
with_look v (ok true) found = (found.0, v ∷ found.1)
with_look v (ok false) found = found

module _ {W : Type 0} (api : Api W) where
  -- Each volume looked for: what blocks, and what is left.
  unfoldable pub look_for : Text → List Text → Call W (List Blocker × List Text)
  look_for node [] = pure ([], [])
  look_for node (v ∷ vs) = attempt (volume_left api node v) >>= λ a.
      look_for node vs >>= λ found. pure (with_look v a found)

  unfoldable pub on_its_node :
      Text → ℕ → List Text → List NodeLine → Call W (List Blocker × List Text)
  on_its_node node vmid volids nodes =
      let asked : Call W (List Blocker × List Text) = (do
        active ← ask (api.active_tasks node)
        ha ← ask api.ha_resources
        found ← look_for node volids
        pure (
          when (any (says (print vmid)) active) (task_running vmid)
              ++ (when (any (says (codes "vm:" ++ print vmid)) ha) (still_ha vmid) ++ found.0),
          found.1,
        )) in
      if is_online node nodes then asked else pure (node_silent node ∷ [], [])

  unfoldable pub its_volumes : Tombstone → List NodeLine → Call W (List Blocker × List Text)
  its_volumes t nodes = elim t.node [
    | none ↦ pure ([], [])
    | some node ↦ elim t.vmid [
      | none ↦ pure ([], [])
      | some vmid ↦ on_its_node node vmid t.volids nodes
    ]
  ]

  -- What this pass's listings find of the machine.
  unfoldable pub examine : Tombstone → Call W (List Blocker × List Text)
  examine t = do
    left ← claimed_guests api t.claim t.id
    stamped ← stamped_guests api t.claim t.id
    nodes ← ask api.nodes
    found ← its_volumes t nodes
    pure (
      when (not (is_empty left)) (still_claimed left)
          ++ (when (not (is_empty stamped)) (clone_left stamped) ++ found.0),
      found.1,
    )

-- Those of a list that are not in another yet, put at its end.
unfoldable pub push_new : List Text → List Text → List Text
push_new xs [] = xs
push_new xs (v ∷ vs) = if any (λ x. same x v) xs then push_new xs vs else push_new (xs ++ v ∷ []) vs

abbrev pub without_those : List Text → List Text → List Text
without_those xs [] = []
without_those xs (v ∷ vs) =
    let rest = without_those xs vs in if any (λ x. same x v) xs then rest else v ∷ rest

-- The tombstone of a machine that a listing found gone, but for a residue.
unfoldable pub concluded : ℕ → List Text → Tombstone → Tombstone
concluded now left t = record t {
  proven_at = some (or_else t.proven_at now);
  residue_gone = push_new t.residue_gone (without_those left t.residue);
  residue = left;
}

-- The agent's state: what it asked the hypervisor, its disk, and the hour's destroys.
pub record Agent (W D : Type 0) : Type 0 where
  pub run : Run W
  pub disk : D
  pub destroys : List ℕ

-- The times a teardown reads: three of the wall clock, two of the monotonic one.
pub record Times : Type 0 where
  pub recorded : ℕ
  pub destroyed : ℕ
  pub proven : ℕ
  pub asked : ℕ
  pub done : ℕ

-- What a teardown is about: `snippets` are the machine's files that are still there, `reread` is
-- the question whether Core's view, read again, still names the machine Absent, `most` is the cap.
pub record Order (W : Type 0) : Type 0 where
  pub kind : Text
  pub id : Text
  pub snippets : List Text
  pub live_tags : List Text
  pub reread : W → Answer Bool × W
  pub most : ℕ

module _ {W D : Type 0} (api : Api W) (j : Journal D) (o : Order W) (times : Times) where
  unfoldable pub prove : Tombstone → Agent W D → Answer Gone × Agent W D
  prove t s =
      let (found, r) = examine api t s.run in
      let after = record s { run = r } in
      elim found [
        | fault e ↦ (fault e, after)
        | ok (bs, left) ↦
            let blockers = bs ++ map snippet_left o.snippets in
            let (saved, d) = j.save (tomb_file t.id) (concluded times.proven left t) s.disk in
            if is_empty blockers
            then (if saved
                then (
                  ok (if is_empty left then proven else residue_left left),
                  record after { disk = d },
                )
                else (fault (unwritten t.id), record after { disk = d }))
            else (ok (not_yet blockers), after)
      ]

  -- Nothing carries the claim: recorded, and proven by the same listing a destroy's would be.
  unfoldable pub on_nothing : Option Tombstone → Agent W D → Answer Gone × Agent W D
  on_nothing held s =
      let t = or_else held (blank o.kind o.id) in
      let t' = record t { destroyed_at = some (or_else t.destroyed_at times.recorded) } in
      let (saved, d) = j.save (tomb_file t'.id) t' s.disk in
      if saved
      then prove t' (record s { disk = d })
      else (fault (unwritten t'.id), record s { disk = d })

  -- The tombstone of a destroy decided, with the volumes an earlier, unconfirmed one recorded.
  abbrev pub decided : Option Tombstone → Doomed → Tombstone
  decided held d = record (blank o.kind o.id) {
    node = some d.node;
    vmid = some d.vmid;
    volids = elim held [ none ↦ d.volids | some old ↦ push_new d.volids old.volids ];
  }

  unfoldable pub destroyed_seen : Tombstone → Doomed → Agent W D → Answer Gone × Agent W D
  destroyed_seen t dm s =
      let (a, ts, r) = destroy_it api o.most dm times.asked times.done s.destroys s.run in
      let after = record s { run = r; destroys = ts } in
      let (saved, d) =
        j.save (tomb_file t.id) (record t { destroyed_at = some times.destroyed }) s.disk in
      elim a [
        | fault e ↦ (fault e, after)
        | ok _ ↦
            if saved
            then (ok (not_yet (just_destroyed dm.vmid ∷ [])), record after { disk = d })
            else (fault (unwritten t.id), record after { disk = d })
      ]

  unfoldable pub on_doomed : Option Tombstone → Doomed → Agent W D → Answer Gone × Agent W D
  on_doomed held dm s =
      let (a, r) = ask o.reread s.run in
      let t = decided held dm in
      let (saved, d) = j.save (tomb_file t.id) t s.disk in
      elim a [
        | fault e ↦ (fault e, record s { run = r })
        | ok absent ↦
            if absent
            then (if saved
                then destroyed_seen t dm (record s { run = r; disk = d })
                else (fault (unwritten t.id), record s { run = r; disk = d }))
            else (fault (not_absent dm.vmid), record s { run = r })
      ]

  unfoldable pub on_licence : Option Tombstone → Agent W D → Answer Gone × Agent W D
  on_licence held s =
      let (a, r) = licence api o.kind o.id o.live_tags s.run in
      let after = record s { run = r } in
      elim a [
        | fault e ↦ (fault e, after)
        | ok l ↦ elim l [ nothing ↦ on_nothing held after | destroy dm ↦ on_doomed held dm after ]
      ]

  -- One pass of a machine's teardown.
  unfoldable pub tear_down : Agent W D → Answer Gone × Agent W D
  tear_down s = elim (read_tomb j o.id s.disk) [
    | none ↦ on_licence none s
    | some t ↦ if is_some t.destroyed_at then prove t s else on_licence (some t) s
  ]
