-- ===== src/Machine/Gated.antt =====
-- The start of a machine that stands, with the re-read of src/agent.rs as its gate.
use omnuv_provider.Base.{
  ℕ, ◌≡◌, refl, ap, sym, subst, Bool, true, false, List, [], ◌∷◌, Option, none, some, arith, All,
}
use omnuv_provider.Base.Text.{Text}
use omnuv_provider.Hypervisor.{Answer, ok, fault}
use omnuv_provider.Lease.{Lifecycle, running, stopped, absent, unknown}
use omnuv_provider.Gate.Clear.{Clear}
use omnuv_provider.Restore.{View}
use omnuv_provider.Reread.{Link, known_of, is_intent, asks, intent_now, still_running}
use omnuv_provider.Reread.Fresh.{Answered, intent_now-Fresh}
use omnuv_provider.Machine.{
  Order, plug, start_it, shut_down, MachineApi, Machine, Room, ensure_existing,
}
use omnuv_provider.Machine.Orders.{Grows, Licensed, ensure_existing-Licensed}

All-map :
    (P Q : Order → Type 0) → ((o : Order) → P o → Q o) → (xs : List Order) → All P xs → All Q xs
All-map P Q f [] p = tt
All-map P Q f (x ∷ xs) (p, ps) = (f x p, All-map P Q f xs ps)

ok-true : (b : Bool) → ok b ≡ ok true → b ≡ true
ok-true b e = cc

is_running-yes : (j : Option Lifecycle) → is_intent running j ≡ true → j ≡ some running
is_running-yes none e = absurd (ground arith)
is_running-yes (some running) e = refl
is_running-yes (some stopped) e = absurd (ground arith)
is_running-yes (some absent) e = absurd (ground arith)
is_running-yes (some unknown) e = absurd (ground arith)

module _ {W : Type 0} (get_view : ℕ → W → Answer (View × Option Text) × W) (saves : Bool)
    (id : Text) where
  asks-yes :
      (x : Answer (Option Lifecycle) × Link W)
      → (asks get_view saves running x).0 ≡ ok true
      → x.0 ≡ ok (some running)
  asks-yes (ok j, l) e = ap (λ k. ok k) (is_running-yes j (ok-true (is_intent running j) e))
  asks-yes (fault f, l) e = absurd (ground arith)

  still_running-yes :
      (l : Link W)
      → (still_running get_view saves id l).0 ≡ ok true
      → (intent_now get_view saves id l).0 ≡ ok (some running)
  unfolding still_running
  still_running-yes l e = asks-yes (intent_now get_view saves id l) e

  abbrev pub gated : MachineApi (Link W) → MachineApi (Link W)
  gated api = record api { start_gate = still_running get_view saves id }

  module _ (api : MachineApi (Link W)) (looks : ℕ) (m : Machine) (runs : Bool) where
    -- A start, on a view that wants the machine running and a clear look.
    abbrev pub Timely : Order → Type 0
    Timely start_it =
        (m.intent ≡ running)
        × (runs ≡ false)
        × ((l : Link W) × Answered get_view saves id running (get_view (known_of l.held) l.world) l
              (intent_now get_view saves id l).1
            × ((k : ℕ) × Clear ((api.looks (still_running get_view saves id l).1).0 k) m.vmid))
    Timely (plug key value) = Unit {0}
    Timely shut_down = Unit {0}

    Licensed-Timely : (o : Order) → Licensed (gated api) looks m runs o → Timely o
    Licensed-Timely start_it (wants, stands, (l, v, said, k, clear)) = (
      wants,
      stands,
      (
        l,
        intent_now-Fresh get_view saves id l running
            (still_running-yes l (ap (λ (x : Answer Bool × Link W). x.0) said)),
        (
          k,
          subst (λ u. Clear ((api.looks u).0 k) m.vmid)
              (sym (ap (λ (x : Answer Bool × Link W). x.1) said)) clear,
        ),
      ),
    )
    Licensed-Timely (plug key value) p = tt
    Licensed-Timely shut_down p = tt

    -- With the re-read as the gate, a machine that stands is started only if it is to run and was not
    -- running, Core's answer to the re-read wants it running, in a view that is not below the one held
    -- and with no restore on, and a look of the start gate after that found nothing in the way.
    pub started-Timely :
        (uptime : Option ℕ) (r : Room (Link W))
        → Grows Timely r (ensure_existing (gated api) looks m runs uptime r).1
    started-Timely uptime r =
        let (new, e, p) = ensure_existing-Licensed (gated api) looks m runs uptime r in
        (new, e, All-map (Licensed (gated api) looks m runs) Timely Licensed-Timely new p)
