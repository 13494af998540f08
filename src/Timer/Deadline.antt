-- ===== src/Timer/Deadline.antt =====
-- When the machine of a dead agent is stopped at the latest: the bound that
-- crates/onv-lease-expire/src/lib.rs derives for `STALE_AFTER`.
use omnuv_provider.Base.{
  ℕ, ◌+◌, ◌-◌, ◌*◌, ◌/◌, ◌≤◌, ◌<◌, ◌≡◌, refl, true, false, List, [], ◌∷◌, Option, arith, Bool-cases,
  inl, inr, ltb, ltb→lt, is_empty, ◌∙◌, ◌++◌, some, sym, subst, ap, In,
}
use omnuv_provider.Base.Text.{Text, same, same→eq}
use omnuv_provider.Hypervisor.{Guest, sent_stop, Api, Run}
use omnuv_provider.RunLease.{Written, all_read, read_body, write_every}
use omnuv_provider.Lease.{seconds}
use omnuv_provider.Timer.{
  found, taken, Looks, Said, Verdict, nothing_done, stop_due, stale_after, every, whole_seconds,
  due_leases, act_on, on_leases, on_body, on_content, on_age, on_lock, on_present, pass,
}
use omnuv_provider.Timer.Sends.{Runs, named-split, stop_due-sends}
use omnuv_provider.Timer.Due.{named, past, due_leases-named}

-- What a run sees of a file written at `written`, with no agent alive.
abbrev pub abandoned : Text → ℕ → ℕ → Looks
abandoned text written now = record {
  present = found tt;
  lock = taken;
  age = found (now - written);
  content = found text;
}

past_later :
    (now later : ℕ) (id : Text) (ls : List Written)
    → now ≤ later
    → past now id ls ≡ true
    → past later id ls ≡ true
past_later now later id [] h p = absurd (ground arith)
past_later now later id (l ∷ ls) h p = ground (arith, past_later now later id ls)

past_some : (now : ℕ) (id : Text) (ls : List Written) → past now id ls ≡ true → is_empty ls ≡ false
past_some now id [] p = absurd (ground arith)
past_some now id (l ∷ ls) p = refl

named_some : (id : Text) (ls : List Written) → named id ls ≡ true → is_empty ls ≡ false
named_some id [] p = absurd (ground arith)
named_some id (l ∷ ls) p = refl

-- Of runs `every` apart, one falls within one period of a time that the first does not pass by more.
run_within :
    (first t : ℕ)
    → first < t + every
    → (k : ℕ) × (t ≤ first + k * every) × (first + k * every < t + every)
run_within first t h = elim (Bool-cases (ltb first t)) [
  | inr late ↦ (0, ground arith, omega arith)
  | inl early ↦
      let lt = ltb→lt first t early in ((t - first + (every - 1)) / every, omega arith, omega arith)
]

module _ {W : Type 0} (driver : Option (Api W)) (from_json : Text → Option (List Written)) where
  on_body-read :
      (text : Text) (ls : List Written) (now : ℕ) (r : Run W)
      → read_body from_json text ≡ all_read ls
      → on_body driver from_json now true text r ≡ on_leases driver from_json now true ls r
  unfolding on_body
  on_body-read text ls now r body = rw (body, on_body) refl

  on_leases-due :
      (ls : List Written) (now : ℕ) (r : Run W)
      → is_empty ls ≡ false
      → is_empty (due_leases (whole_seconds now) ls) ≡ false
      → on_leases driver from_json now true ls r
        ≡ act_on driver from_json (due_leases (whole_seconds now) ls) true r
  unfolding on_leases
  on_leases-due ls now r some_leases some_due = rw (some_leases, some_due) refl

  -- A run long enough after the last write acts on the file's due leases.
  pass-abandoned :
      (text : Text) (ls : List Written) (id : Text) (written now : ℕ) (r : Run W)
      → read_body from_json text ≡ all_read ls
      → stale_after + written ≤ now
      → past (whole_seconds now) id ls ≡ true
      → pass driver from_json (abandoned text written now) now true r
        ≡ act_on driver from_json (due_leases (whole_seconds now) ls) true r
  unfolding pass on_present on_lock on_age on_content
  pass-abandoned text ls id written now r body stale due =
      let late : ltb (now - written) stale_after ≡ false = ground arith in
      let some_due =
        named_some id (due_leases (whole_seconds now) ls)
          (due_leases-named (whole_seconds now) id ls ∙ due) in
      rw late (
        on_body-read text ls now r body
        ∙ on_leases-due ls now r (past_some (whole_seconds now) id ls due) some_due)

  act_on-run :
      (api : Api W) (due : List Written) (r : Run W)
      → driver ≡ some api
      → (act_on driver from_json due true r).2 ≡ (stop_due api due nothing_done r).1
  unfolding act_on
  act_on-run api due r e = rw e refl

  -- A due machine that a run finds by itself and running is sent a stop.
  abbrev pub Asks : Api W → Text → List Written → Run W → Run W → Type 0
  Asks api id due r r' =
      (before : List Written) × (l : Written) × (rest : List Written) × (due ≡ before ++ l ∷ rest)
      × (same l.id id ≡ true)
      × ((g : Guest)
          → Runs api id g (stop_due api before nothing_done r).1
          → In (sent_stop g.node g.vmid) r'.trace)

  stop_due-Asks :
      (api : Api W) (id : Text) (due : List Written) (r : Run W)
      → named id due ≡ true
      → Asks api id due r (stop_due api due nothing_done r).1
  stop_due-Asks api id due r n =
      let (before, l, rest, q, is) = named-split id due n in
      (
        before,
        l,
        rest,
        q,
        is,
        λ g up.
            subst
              (λ (x : List Written).
                In (sent_stop g.node g.vmid) (stop_due api x nothing_done r).1.trace)
              (sym q)
              (stop_due-sends api id g before l rest nothing_done r (same→eq l.id id is) up),
      )

  -- A machine whose lease ended at the second `until`, in a file last written at most `write_every` after
  -- that, by an agent that is dead since: of the timer's runs with a hypervisor to ask, one every `every`,
  -- that began before the lease ended, one at most 150 seconds after that end has the machine among those
  -- it goes through, and sends a stop to the machine's guest, if, when the machines before it were gone
  -- through, that guest alone carries the machine's claim, has its stamp, and is not said to be stopped.
  pub stopped_by_deadline :
      (api : Api W) (text : Text) (ls : List Written) (id : Text) (until written first : ℕ)
      → driver ≡ some api
      → read_body from_json text ≡ all_read ls
      → past until id ls ≡ true
      → written ≤ seconds (until + write_every)
      → first ≤ seconds until
      → (k : ℕ) × (first + k * every ≤ seconds (until + 150))
        × ((r : Run W)
            → Asks api id
                (due_leases (whole_seconds (first + k * every)) ls)
                r
                (pass driver from_json
                  (abandoned text written (first + k * every))
                  (first + k * every)
                  true
                  r).2)
  stopped_by_deadline api text ls id until written first e body ended wrote began =
      let (k, after, before) = run_within first (seconds (until + 75)) (omega arith) in
      let now = first + k * every in
      let due : past (whole_seconds now) id ls ≡ true =
        past_later until (whole_seconds now) id ls (omega arith) ended in
      let leases = due_leases (whole_seconds now) ls in
      (
        k,
        omega arith,
        λ r.
            subst (Asks api id leases r)
              (sym (
                ap (λ (x : Verdict × List Said × Run W). x.2)
                  (pass-abandoned text ls id written now r body (omega arith) due)
                ∙ act_on-run api leases r e))
              (stop_due-Asks api id leases r (due_leases-named (whole_seconds now) id ls ∙ due)),
      )
