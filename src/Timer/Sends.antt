-- ===== src/Timer/Sends.antt =====
-- What the host timer sends for one of the due machines, in crates/onv-lease-expire/src/lib.rs.
use omnuv_provider.Base.{
  suc, ◌≡◌, refl, ap, sym, subst, Bool, true, false, List, [], ◌∷◌, ◌++◌, arith, inl, inr, In,
  Bool-cases,
}
use omnuv_provider.Base.Text.{Text, same}
use omnuv_provider.Names.{tag_instance}
use omnuv_provider.Hypervisor.{
  Answer, ok, fault, Event, sent_stop, Config, Guest, Api, Run, get_config,
}
use omnuv_provider.RunLease.{Written}
use omnuv_provider.Leased.{
  claimed_guests, live_status, has_stamp, stopped_word, Stops, no_stops, send_stop, stop_stamped,
  stop_guest, stop_guests, stop_found, stop_leased,
}
use omnuv_provider.Teardown.Quiet.{claimed_guests-Keeps}
use omnuv_provider.Timer.{Done, stop_due}
use omnuv_provider.Timer.Due.{named}

-- What is in the trace stays there.
module _ {W : Type 0} (api : Api W) (say : Bool) (id : Text) (x : Event) where
  stop_guest-kept :
      (g : Guest) (out : Stops) (r : Run W)
      → In x r.trace
      → In x (stop_guest api say id g out r).2.trace
  unfolding stop_guest stop_stamped send_stop live_status
  stop_guest-kept g out r h = ground arith

  stop_guests-kept :
      (gs : List Guest) (out : Stops) (r : Run W)
      → In x r.trace
      → In x (stop_guests api say id gs out r).2.trace
  unfolding stop_guests
  stop_guests-kept [] out r h = h
  stop_guests-kept (g ∷ gs) out r h =
      let next = stop_guest api say id g out r in
      ground (arith, stop_guest-kept g out r h, stop_guests-kept gs next.1 next.2)

  stop_found-kept :
      (out : Stops) (found : Answer (List Guest)) (r : Run W)
      → In x r.trace
      → In x (stop_found api say id out found r).2.trace
  unfolding stop_found
  stop_found-kept out (fault e) r h = h
  stop_found-kept out (ok gs) r h = stop_guests-kept gs out r h

  stop_leased-kept :
      (out : Stops) (r : Run W) → In x r.trace → In x (stop_leased api say id out r).2.trace
  unfolding stop_leased
  stop_leased-kept out r h =
      let (found, r') = claimed_guests api tag_instance id r in
      stop_found-kept out found r' (
        claimed_guests-Keeps api (In x) (λ n v a t k. inr k) (λ n a t k. inr k) tag_instance id r h)

module _ {W : Type 0} (api : Api W) where
  stop_due-kept :
      (x : Event) (ls : List Written) (d : Done) (r : Run W)
      → In x r.trace
      → In x (stop_due api ls d r).1.trace
  unfolding stop_due
  stop_due-kept x [] d r h = h
  stop_due-kept x (l ∷ ls) d r h =
      stop_due-kept x ls _ _ (stop_leased-kept api true l.id x no_stops r h)

  -- The one guest that carries the machine's claim has its stamp when it is read, and then runs.
  abbrev pub Runs : Text → Guest → Run W → Type 0
  Runs id g r =
      let (found, r1) = claimed_guests api tag_instance id r in
      let (read, r2) = get_config api g.node g.vmid r1 in
      (found ≡ ok (g ∷ []))
      × ((c : Config) × (read ≡ ok c) × (has_stamp tag_instance id c ≡ true))
      × ((s : Text) × ((live_status api g.node g.vmid r2).0 ≡ ok s) × (same s stopped_word ≡ false))

  sent_last :
      (g : Guest) (out : Stops) (r : Run W)
      → In (sent_stop g.node g.vmid) (send_stop api true g out r).2.trace
  unfolding send_stop
  sent_last g out r = ground arith

  -- The same once its configuration is read.
  stop_guest-sends :
      (id : Text) (g : Guest) (out : Stops) (r : Run W)
      → ((c : Config) × ((get_config api g.node g.vmid r).0 ≡ ok c)
          × (has_stamp tag_instance id c ≡ true))
      → ((s : Text) × ((live_status api g.node g.vmid (get_config api g.node g.vmid r).1).0 ≡ ok s)
          × (same s stopped_word ≡ false))
      → In (sent_stop g.node g.vmid) (stop_guest api true id g out r).2.trace
  unfolding stop_guest stop_stamped
  stop_guest-sends id g out r (c, read, mark) (s, asked, runs) =
      rw (read, mark, asked, runs, stop_guest, stop_stamped)
        (sent_last g (record out { claimed = suc out.claimed })
          (live_status api g.node g.vmid (get_config api g.node g.vmid r).1).1)

  stop_guests-one :
      (id : Text) (g : Guest) (out : Stops) (r : Run W)
      → (stop_guests api true id (g ∷ []) out r).2 ≡ (stop_guest api true id g out r).2
  unfolding stop_guests
  stop_guests-one id g out r = ground arith

  stop_leased-sends :
      (id : Text) (g : Guest) (r : Run W)
      → Runs id g r
      → In (sent_stop g.node g.vmid) (stop_leased api true id no_stops r).2.trace
  unfolding stop_leased stop_found
  stop_leased-sends id g r (found, read, status) =
      let r1 = (claimed_guests api tag_instance id r).1 in
      rw found (
        subst (λ (q : Run W). In (sent_stop g.node g.vmid) q.trace)
          (sym (stop_guests-one id g no_stops r1)) (stop_guest-sends id g no_stops r1 read status))

  stop_due-head :
      (g : Guest) (l : Written) (post : List Written) (d : Done) (r : Run W)
      → Runs l.id g r
      → In (sent_stop g.node g.vmid) (stop_due api (l ∷ post) d r).1.trace
  unfolding stop_due
  stop_due-head g l post d r up =
      stop_due-kept (sent_stop g.node g.vmid) post _ _ (stop_leased-sends l.id g r up)

  stop_due-append :
      (pre post : List Written) (d : Done) (r : Run W)
      → stop_due api (pre ++ post) d r
        ≡ stop_due api post (stop_due api pre d r).0 (stop_due api pre d r).1
  unfolding stop_due
  stop_due-append [] post d r = refl
  stop_due-append (l ∷ pre) post d r = stop_due-append pre post _ _

  -- A machine is gone through after those before it.
  pub stop_due-sends :
      (id : Text) (g : Guest) (pre : List Written) (l : Written) (post : List Written) (d : Done)
      (r : Run W)
      → l.id ≡ id
      → Runs id g (stop_due api pre d r).1
      → In (sent_stop g.node g.vmid) (stop_due api (pre ++ l ∷ post) d r).1.trace
  stop_due-sends id g pre l post d r e up =
      let (d1, r1) = stop_due api pre d r in
      subst (λ (q : Done × Run W). In (sent_stop g.node g.vmid) q.1.trace)
        (sym (stop_due-append pre (l ∷ post) d r))
        (stop_due-head g l post d1 r1 (subst (λ t. Runs t g r1) (sym e) up))

pub named-split :
    (id : Text) (ls : List Written)
    → named id ls ≡ true
    → (pre : List Written) × (l : Written) × (post : List Written) × (ls ≡ pre ++ l ∷ post)
      × (same l.id id ≡ true)
named-split id [] e = absurd (ground arith)
named-split id (l ∷ ls) e = elim (Bool-cases (same l.id id)) [
  | inl here ↦ ([], l, ls, refl, here)
  | inr other ↦
      let (pre, k, post, q, is) = named-split id ls (ground arith) in
      (l ∷ pre, k, post, ap (λ t. l ∷ t) q, is)
]
