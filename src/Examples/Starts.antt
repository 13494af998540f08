-- ===== src/Examples/Starts.antt =====
-- A machine whose own resize still runs at the first look and is over at the second.
use omnuv_provider.Base.{ℕ, zero, suc, ◌≤◌, ◌<◌, ◌≡◌, ◌≢◌, refl, List, [], ◌∷◌, none, some, arith}
use omnuv_provider.Base.Text.{codes, same, text_leb, split, strip_prefix}
use omnuv_provider.Base.Decimal.{print, digits_of}
use omnuv_provider.Lease.{sort, insert_sorted}
use omnuv_provider.Volumes.{dedup_texts}
use omnuv_provider.Gate.{
  Task, Readings, task_blockers, properties, values_of, valued, bridge_up, bridges_from,
  bridge_blockers, held_cards, config_cards, guest_cards, guests_cards, card_blockers,
  start_blockers, sent, gate, start_when_ready, clone_polls,
}
use omnuv_provider.Gate.Clear.{Clear}
use omnuv_provider.Gate.Starts.{Blocked, start_when_ready-Clear, start_when_ready-starts}

abbrev resize : Task
resize = record { kind = codes "resize"; id = some (codes "101") }

abbrev readings : List Task → Readings
readings tasks = record {
  active = some tasks;
  config = some (
      (codes "net0", some (codes "virtio=AA,bridge=vmbr0"))
      ∷ (codes "hostpci0", some (codes "mapping=card"))
      ∷ []);
  vnets = some [];
  zone_content = λ z. none;
  network = some (some (codes "vmbr0") ∷ []);
  vms = some (
      record { vmid = some 101; status = some (codes "running") }
      ∷ record { vmid = some 102; status = some (codes "running") }
      ∷ []);
  configs = λ v. some ((codes "hostpci0", some (codes "mapping=other")) ∷ []);
}

abbrev look : ℕ → Readings
look zero = readings (resize ∷ [])
look (suc n) = readings []

ready : start_when_ready 101 look 30 ≡ sent 1
unfolding start_when_ready gate start_blockers task_blockers valued values_of properties
    bridge_blockers bridges_from bridge_up card_blockers guests_cards guest_cards config_cards
    held_cards print digits_of sort insert_sorted text_leb dedup_texts same split strip_prefix
ready = refl

start_when_ready-Clear_example :
    (1 ≤ 30) × Clear (look 1) 101 × ((m : ℕ) → m < 1 → Blocked 101 look m)
start_when_ready-Clear_example = start_when_ready-Clear 101 look 30 1 ready

free : start_blockers (look 1) 101 ≡ some []
unfolding start_blockers task_blockers valued values_of properties bridge_blockers bridges_from
    bridge_up card_blockers guests_cards guest_cards config_cards held_cards print digits_of sort
    insert_sorted text_leb dedup_texts same split strip_prefix
free = refl

first_read : (m : ℕ) → m < 1 → start_blockers (look m) 101 ≢ none
unfolding start_blockers task_blockers valued values_of properties bridge_blockers bridges_from
    bridge_up card_blockers guests_cards guest_cards config_cards held_cards print digits_of sort
    insert_sorted text_leb dedup_texts same split strip_prefix
first_read zero few e = absurd (ground arith)
first_read (suc m) few e = absurd (omega arith)

start_when_ready-starts_example : (j : ℕ) × (j ≤ 1) × (start_when_ready 101 look 30 ≡ sent j)
start_when_ready-starts_example =
    start_when_ready-starts 101 look 30 1 (omega arith) free first_read

polls : clone_polls (some 0) 1800 ≡ 1
unfolding clone_polls
polls = refl
