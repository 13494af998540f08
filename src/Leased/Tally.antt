-- ===== src/Leased/Tally.antt =====
-- What a stop of a leased machine reports, counted against what it sent, in
-- crates/onv-driver-proxmox/src/leased.rs.
use omnuv_provider.Base.{
  ℕ, suc, ◌+◌, ◌≤◌, ◌≡◌, refl, subst, Bool, List, [], ◌∷◌, map, arith, length, length-append,
  is_empty, keep,
}
use omnuv_provider.Base.Text.{Text}
use omnuv_provider.Names.{tag_instance}
use omnuv_provider.Hypervisor.{
  Answer, ok, fault, Event, read_config, read_status, listed, announced, sent_stop, sent_destroy,
  sent_remove, Guest, NodeLine, Api, Run, ask,
}
use omnuv_provider.Hypervisor.Keeps.{Keeps, Keeps-bind, Keeps-if}
use omnuv_provider.Leased.{
  Stops, tagged, to_guest, node_guests, live_guests, claimed_guests, send_stop, stop_stamped,
  live_status, stop_guest, stop_guests, stop_found, stop_leased,
}

-- How many stops a trace has.
abbrev pub stops_sent : List Event → ℕ
stops_sent [] = 0
stops_sent (sent_stop n v ∷ rest) = suc (stops_sent rest)
stops_sent (sent_destroy n v ∷ rest) = stops_sent rest
stops_sent (sent_remove n v ∷ rest) = stops_sent rest
stops_sent (read_config n v a ∷ rest) = stops_sent rest
stops_sent (read_status n v a ∷ rest) = stops_sent rest
stops_sent (listed n a ∷ rest) = stops_sent rest
stops_sent (announced n v ∷ rest) = stops_sent rest

-- Over `n` guests that were all dealt with, and over some of them when a call failed.
abbrev pub Balanced : ℕ → Stops → ℕ → Answer (Unit {0}) → Stops → List Event → Type 0
Balanced n out s (ok _) out' t' =
    (out'.claimed + length out'.refused ≡ out.claimed + length out.refused + n)
    × (stops_sent t' + length out.stopped ≡ s + length out'.stopped)
    × (length out'.stopped + out.claimed ≤ length out.stopped + out'.claimed)
Balanced n out s (fault _) out' t' =
    (out'.claimed + length out'.refused ≤ out.claimed + length out.refused + n)
    × (stops_sent t' + length out.stopped ≤ s + length out'.stopped + 1)
    × (s + length out'.stopped ≤ stops_sent t' + length out.stopped)

module _ {W : Type 0} (api : Api W) where
  module _ (k : ℕ) where
    abbrev Sends : List Event → Type 0
    Sends t = stops_sent t ≡ k

    node_guests-Sends : (kind id : Text) (n : NodeLine) → Keeps Sends (node_guests api kind id n)
    unfolding node_guests
    node_guests-Sends kind id n r h = ground arith

    live_guests-Sends :
        (kind id : Text) (ns : List NodeLine) → Keeps Sends (live_guests api kind id ns)
    unfolding live_guests
    live_guests-Sends kind id [] = λ r h. h
    live_guests-Sends kind id (n ∷ ns) =
        Keeps-bind Sends (node_guests api kind id n) _ (node_guests-Sends kind id n) λ here.
          Keeps-bind Sends (live_guests api kind id ns) _ (live_guests-Sends kind id ns)
            (λ rest r h. h)

    claimed_guests-Sends : (kind id : Text) → Keeps Sends (claimed_guests api kind id)
    unfolding claimed_guests
    claimed_guests-Sends kind id =
        Keeps-bind Sends (ask api.cluster_vms) _ (λ r h. h)
          λ vms.
            Keeps-if Sends
              (is_empty (keep (λ (g : Guest). tagged kind id g.tags) (map to_guest vms))) _ _
              (Keeps-bind Sends (ask api.nodes) _ (λ r h. h) (live_guests-Sends kind id)) (λ r h. h)

  module _ (say : Bool) (id : Text) where
    stop_guest-Balanced :
        (g : Guest) (out : Stops) (r : Run W)
        → let (a, out', r') = stop_guest api say id g out r in
          Balanced 1 out (stops_sent r.trace) a out' r'.trace
    unfolding stop_guest stop_stamped send_stop live_status
    stop_guest-Balanced g out r =
        ground (arith, length-append out.stopped (g ∷ []), length-append out.refused (g ∷ []))

    stop_guests-Balanced :
        (gs : List Guest) (out : Stops) (r : Run W)
        → let (a, out', r') = stop_guests api say id gs out r in
          Balanced (length gs) out (stops_sent r.trace) a out' r'.trace
    unfolding stop_guests
    stop_guests-Balanced [] out r = omega arith
    stop_guests-Balanced (g ∷ gs) out r =
        let next = stop_guest api say id g out r in
        ground (arith, stop_guest-Balanced g out r, stop_guests-Balanced gs next.1 next.2)

    stop_found-Balanced :
        (out : Stops) (found : Answer (List Guest)) (r : Run W) (gs : List Guest)
        → found ≡ ok gs
        → let (a, out', r') = stop_found api say id out found r in
          Balanced (length gs) out (stops_sent r.trace) a out' r'.trace
    unfolding stop_found
    stop_found-Balanced out found r gs e = rw (e, stop_found) (stop_guests-Balanced gs out r)

    -- When the guests carrying the claim could be listed and the stop ends well, each of them is
    -- counted once, as stamped or as refused, and the guests reported stopped are as many as the
    -- stops sent. When it fails half way, at most one stop was sent that is not reported.
    pub stop_leased-Balanced :
        (out : Stops) (r : Run W) (gs : List Guest)
        → (claimed_guests api tag_instance id r).0 ≡ ok gs
        → let (a, out', r') = stop_leased api say id out r in
          Balanced (length gs) out (stops_sent r.trace) a out' r'.trace
    unfolding stop_leased
    stop_leased-Balanced out r gs e =
        let (found, r') = claimed_guests api tag_instance id r in
        let (a, out', r'') = stop_found api say id out found r' in
        subst (λ s. Balanced (length gs) out s a out' r''.trace)
          (claimed_guests-Sends (stops_sent r.trace) tag_instance id r refl)
          (stop_found-Balanced out found r' gs e)
