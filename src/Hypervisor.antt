-- ===== src/Hypervisor.antt =====
-- The hypervisor's API as the agent's code calls it: Proxmox VE, which is not part of this
-- repository, so its answers are a parameter. `Api W` is the trait `Api` of
-- crates/onv-driver-proxmox/src/leased.rs and the calls of src/teardown.rs, path by path: a call sees
-- the hypervisor's state `W`, answers or fails, and may change that state. `Call` is an action of the
-- agent over such an API: it fails like Rust's `?`, and what was sent stays sent.
pub mod Keeps
use omnuv_provider.Base.{ℕ, List, [], ◌∷◌, Option, none, if◌then◌else◌}
use omnuv_provider.Base.Text.{Text, same}

-- Why a call, or a rule over calls, gave no answer.
pub data Fault : Type 0 where
  -- the client's own error: a refusal, a timeout, an answer that does not parse
  api : Text → Fault
  -- a node that could not be listed, so absence cannot be concluded
  unlisted : Text → Fault
  -- the node gave no power state
  no_power_state : ℕ → Fault
  -- two or more guests carry one claim
  several : ℕ → Fault
  -- the tag is shared with a machine Core still wants
  shared_tag : Text → Fault
  -- the tag is there and the stamp is another's
  other_stamp : ℕ → Fault
  -- the hour's cap on destroying running machines
  capped : ℕ → Fault
  -- still running after its stop
  still_running : ℕ → Fault
  -- the view read again no longer says Absent
  not_absent : ℕ → Fault
  -- a guest that may not be built or started now
  not_started : Text → Fault
  -- the agent's own journal could not be written
  unwritten : Text → Fault

pub data Answer {ℓ} (A : Type ℓ) : Type ℓ where
  ok : A → Answer A
  fault : Fault → Answer A

-- A guest in a listing.
pub record Guest : Type 0 where
  pub node : Text
  pub vmid : ℕ
  pub tags : Option Text

-- A guest in the cluster's listing: its pool and its kind too.
pub record ClusterVm : Type 0 where
  pub guest : Guest
  pub pool : Option Text
  pub kind : Option Text

-- A line of `/nodes`.
pub record NodeLine : Type 0 where
  pub name : Option Text
  pub status : Option Text

-- A guest in its node's own listing.
pub record NodeVm : Type 0 where
  pub vmid : ℕ
  pub tags : Option Text

-- A configuration's fields, a value that is no text being `none`; what is not an object has none.
abbrev pub Config : Type 0
Config = List (Text × Option Text)

-- `config.get(key).and_then(as_str)`
unfoldable pub field : Text → Config → Option Text
field key [] = none
field key ((k, v) ∷ rest) = if same k key then v else field key rest

-- What the agent asked, with what was answered, newest first.
pub data Event : Type 0 where
  read_config : Text → ℕ → Answer Config → Event
  read_status : Text → ℕ → Answer (Option Text) → Event
  listed : Text → Answer (List NodeVm) → Event
  -- said to the log just before a stop is sent
  announced : Text → ℕ → Event
  sent_stop : Text → ℕ → Event
  sent_destroy : Text → ℕ → Event
  sent_remove : Text → Text → Event

pub record Api (W : Type 0) : Type 0 where
  pub cluster_vms : W → Answer (List ClusterVm) × W
  pub nodes : W → Answer (List NodeLine) × W
  pub node_vms : Text → W → Answer (List NodeVm) × W
  pub config : Text → ℕ → W → Answer Config × W
  pub container_config : Text → ℕ → W → Answer Config × W
  -- `status/current`, its `status`
  pub status : Text → ℕ → W → Answer (Option Text) × W
  -- `status/stop` and the destroy, their task's id
  pub stop : Text → ℕ → W → Answer Text × W
  pub destroy : Text → ℕ → W → Answer Text × W
  -- the task waited for
  pub wait : Text → Text → W → Answer (Unit {0}) × W
  pub active_tasks : Text → W → Answer (List (Option Text)) × W
  pub ha_resources : W → Answer (List (Option Text)) × W
  pub content : Text → Text → W → Answer (List (Option Text)) × W
  -- a volume's removal, its task's id when there is one
  pub remove : Text → Text → W → Answer (Option Text) × W

-- The hypervisor's state and what was asked of it so far.
pub record Run (W : Type 0) : Type 0 where
  pub world : W
  pub trace : List Event

abbrev pub Call : Type 0 → Type 0 → Type 0
Call W A = Run W → Answer A × Run W

module _ {W : Type 0} where
  abbrev pub pure : {A : Type 0} → A → Call W A
  pure a r = (ok a, r)

  abbrev pub fail : {A : Type 0} → Fault → Call W A
  fail f r = (fault f, r)

  abbrev pub continue : {A B : Type 0} → Answer A → (A → Call W B) → Call W B
  continue (ok a) f r = f a r
  continue (fault e) f r = (fault e, r)

  infixl 5 ◌>>=◌ ◌>>◌
  abbrev pub ◌>>=◌ : {A B : Type 0} → Call W A → (A → Call W B) → Call W B
  ◌>>=◌ m f r = let (a, r') = m r in continue a f r'

  abbrev pub ◌>>◌ : {A B : Type 0} → Call W A → Call W B → Call W B
  m >> k = m >>= λ _. k

  -- A question whose answer only matters to the code that asked.
  abbrev pub ask : {A : Type 0} → (W → Answer A × W) → Call W A
  ask f r = let (a, w) = f r.world in (a, record r { world = w })

  -- A question, or an order, that is kept in the trace.
  abbrev pub noted : {A : Type 0} → (Answer A → Event) → (W → Answer A × W) → Call W A
  noted e f r = let (a, w) = f r.world in (a, record { world = w; trace = e a ∷ r.trace })

  -- `map_err`
  abbrev pub or_fault : {A : Type 0} → Fault → Call W A → Call W A
  or_fault e m r = let (a, r') = m r in (elim a [ ok x ↦ ok x | fault _ ↦ fault e ], r')

  -- The outcome as a value: what a `match` on the result of a call sees.
  abbrev pub attempt : {A : Type 0} → Call W A → Call W (Answer A)
  attempt m r = let (a, r') = m r in (ok a, r')

module _ {W : Type 0} (api : Api W) where
  abbrev pub get_config : Text → ℕ → Call W Config
  get_config node vmid = noted (read_config node vmid) (api.config node vmid)

  abbrev pub get_node_vms : Text → Call W (List NodeVm)
  get_node_vms node = noted (listed node) (api.node_vms node)

  abbrev pub get_status : Text → ℕ → Call W (Option Text)
  get_status node vmid = noted (read_status node vmid) (api.status node vmid)

  abbrev pub post_stop : Text → ℕ → Call W Text
  post_stop node vmid = noted (λ _. sent_stop node vmid) (api.stop node vmid)

  abbrev pub delete_guest : Text → ℕ → Call W Text
  delete_guest node vmid = noted (λ _. sent_destroy node vmid) (api.destroy node vmid)

  abbrev pub delete_volume : Text → Text → Call W (Option Text)
  delete_volume node volid = noted (λ _. sent_remove node volid) (api.remove node volid)
