-- ===== src/Timer/Stopping.antt =====
-- What a run of the host timer stops, and what its exit code tells, in
-- crates/onv-lease-expire/src/lib.rs.
use omnuv_provider.Base.{
  ℕ, ◌≤◌, ◌≡◌, refl, subst, Bool, true, false, List, [], ◌∷◌, Option, none, some, arith, Bool-cases,
  if◌then◌else◌, is_empty, ltb, ◌==◌, ◌∙◌, sym, inl, inr, ◌↔◌,
}
use omnuv_provider.Base.Text.{Text, same_refl}
use omnuv_provider.Names.{tag_instance}
use omnuv_provider.Hypervisor.{Answer, ok, fault, Config, Event, Api, Run}
use omnuv_provider.RunLease.{Written, Body, all_read, not_a_file, unnamed, read_body}
use omnuv_provider.Leased.{Stops, no_stops, has_stamp, stop_leased}
use omnuv_provider.Leased.Sent.{Licensed, stop_leased-Licensed}
use omnuv_provider.Timer.{
  Look, found, not_there, failed, LockTry, unopened, taken, would_block, lock_error, Looks, Said,
  Verdict, Done, nothing_done, stale_after, tally, whole_seconds, due_leases, stop_due, act_on,
  on_leases, on_body, on_content, on_age, on_lock, on_present, pass, exit_code,
}
use omnuv_provider.Timer.Guards.{on_held-idle}
use omnuv_provider.Timer.Due.{named, past, due_leases-named}

-- The leases of the file, when it is read whole.
abbrev pub leases_of : Body → List Written
leases_of (all_read ls) = ls
leases_of not_a_file = []
leases_of (unnamed n) = []

abbrev pub file_leases : (Text → Option (List Written)) → Look Text → List Written
file_leases from_json (found text) = leases_of (read_body from_json text)
file_leases from_json not_there = []
file_leases from_json failed = []

-- A configuration with the whole stamp of a machine that some lease of the list, past its time, names.
abbrev pub DueStamp : ℕ → List Written → Config → Type 0
DueStamp now ls c = (id : Text) × (past now id ls ≡ true) × (has_stamp tag_instance id c ≡ true)

abbrev Fair : ℕ → List Written → List Event → Type 0
Fair now file = Licensed (DueStamp (whole_seconds now) file)

-- What a run gives: its verdict, what it said, and the run after it.
abbrev Ends : Type 0 → Type 0
Ends W = Verdict × List Said × Run W

if-both : {A : Type 0} (P : A → Type 0) (b : Bool) (x y : A) → P x → P y → P (if b then x else y)
if-both P true x y p q = p
if-both P false x y p q = q

module _ {W : Type 0} (now : ℕ) (file : List Written) where
  stop_due-Fair :
      (api : Api W) (ls : List Written) (d : Done) (r : Run W)
      → ((id : Text) → named id ls ≡ true → past (whole_seconds now) id file ≡ true)
      → Fair now file r.trace
      → Fair now file (stop_due api ls d r).1.trace
  unfolding stop_due
  stop_due-Fair api [] d r f h = h
  stop_due-Fair api (l ∷ ls) d r f h =
      stop_due-Fair api ls _ _ (λ id m. f id (ground arith))
        (stop_leased-Licensed api true l.id (DueStamp (whole_seconds now) file)
          (λ c k. (l.id, f l.id (ground (arith, same_refl l.id)), k)) no_stops r h)

module _ {W : Type 0} (driver : Option (Api W)) (from_json : Text → Option (List Written)) where
  act_on-Fair :
      (now : ℕ) (file due : List Written) (act : Bool) (r : Run W)
      → ((id : Text) → named id due ≡ true → past (whole_seconds now) id file ≡ true)
      → Fair now file r.trace
      → Fair now file (act_on driver from_json due act r).2.trace
  unfolding act_on
  act_on-Fair now file due false r f h = h
  act_on-Fair now file due true r f h = go driver
    where
      go : (o : Option (Api W)) → Fair now file (act_on o from_json due true r).2.trace
      go none = h
      go (some api) = stop_due-Fair now file api due nothing_done r f h

  on_leases-Fair :
      (now : ℕ) (act : Bool) (file : List Written) (r : Run W)
      → Fair now file r.trace
      → Fair now file (on_leases driver from_json now act file r).2.trace
  unfolding on_leases
  on_leases-Fair now act file r h =
      let due = due_leases (whole_seconds now) file in
      let rest : Fair now file (act_on driver from_json due act r).2.trace =
        act_on-Fair now file due act r
          (λ id m. sym (due_leases-named (whole_seconds now) id file) ∙ m) h in
      if-both (λ (x : Ends W). Fair now file x.2.trace) (is_empty file) _ _ h
        (if-both (λ (x : Ends W). Fair now file x.2.trace) (is_empty due) _ _ h rest)

  on_content-Fair :
      (now : ℕ) (act : Bool) (content : Look Text) (r : Run W)
      → let file = file_leases from_json content in
        Fair now file r.trace
        → Fair now file (on_content driver from_json now act content r).2.trace
  unfolding on_content on_body
  on_content-Fair now act not_there r h = h
  on_content-Fair now act failed r h = h
  on_content-Fair now act (found text) r h = go (read_body from_json text) refl
    where
      go :
          (b : Body)
          → read_body from_json text ≡ b
          → Fair now
              (leases_of (read_body from_json text))
              (on_body driver from_json now act text r).2.trace
      go (all_read ls) e =
          rw (e, on_body)
            (on_leases-Fair now act ls r (subst (λ t. Fair now (leases_of t) r.trace) e h))
      go not_a_file e = rw (e, on_body) (subst (λ t. Fair now (leases_of t) r.trace) e h)
      go (unnamed n) e = rw (e, on_body) (subst (λ t. Fair now (leases_of t) r.trace) e h)

  on_lock-Fair :
      (now : ℕ) (act : Bool) (l : LockTry) (looks : Looks) (r : Run W)
      → let file = file_leases from_json looks.content in
        Fair now file r.trace → Fair now file (on_lock driver from_json now act l looks r).2.trace
  unfolding on_lock on_age
  on_lock-Fair now act unopened looks r h = h
  on_lock-Fair now act lock_error looks r h = h
  on_lock-Fair now act would_block looks r h =
      subst (λ (q : Run W). Fair now (file_leases from_json looks.content) q.trace)
        (sym (on_held-idle driver from_json looks.age r)) h
  on_lock-Fair now act taken looks r h = go looks.age
    where
      go :
          (a : Look ℕ)
          → Fair now
              (file_leases from_json looks.content)
              (on_age driver from_json now act a looks.content r).2.trace
      go not_there = h
      go failed = h
      go (found age) =
          if-both (λ (x : Ends W). Fair now (file_leases from_json looks.content) x.2.trace)
            (ltb age stale_after) _ _ h (on_content-Fair now act looks.content r h)

  -- Whatever the hypervisor, the file and the clock, a run of the timer sends a stop only to a
  -- guest that has, in its configuration read just before, the whole stamp of a machine that a
  -- lease of the file names whose time, in whole seconds, has come; and it destroys and removes
  -- nothing. A trace that was so before stays so.
  pub pass-Licensed :
      (looks : Looks) (now : ℕ) (act : Bool) (r : Run W)
      → let P = DueStamp (whole_seconds now) (file_leases from_json looks.content) in
        Licensed P r.trace → Licensed P (pass driver from_json looks now act r).2.trace
  unfolding pass on_present
  pass-Licensed looks now act r h = go looks.present
    where
      go :
          (p : Look (Unit {0}))
          → Fair now
              (file_leases from_json looks.content)
              (on_present driver from_json now act p looks r).2.trace
      go not_there = h
      go failed = h
      go (found _) = on_lock-Fair now act looks.lock looks r h

-- How the stops of the machines of a list went, in turn: each ended well on a guest it could see.
abbrev pub AllSeen : {W : Type 0} → Api W → List Written → Run W → Type 0
AllSeen api [] r = Unit {0}
AllSeen api (l ∷ ls) r =
    let (a, out, r') = stop_leased api true l.id no_stops r in
    (a ≡ ok tt) × (1 ≤ out.claimed) × AllSeen api ls r'

module _ {W : Type 0} (api : Api W) where
  tally-failures :
      (id : Text) (a : Answer (Unit {0})) (out : Stops) (d : Done)
      → (d.failures ≤ (tally id a out d).failures)
        × ((tally id a out d).failures ≡ d.failures ↔ (a ≡ ok tt) × (1 ≤ out.claimed))
  unfolding tally
  tally-failures id (fault e) out d = (omega arith, ((λ h. absurd (omega arith)), (λ h. cc)))
  tally-failures id (ok _) out d = elim (Bool-cases (out.claimed == 0)) [
    | inl e ↦ (ground arith, ((λ h. absurd (ground arith)), (λ h. absurd (ground arith))))
    | inr ne ↦ (ground arith, ((λ h. (refl, ground arith)), (λ h. ground arith)))
  ]

  stop_due-failures :
      (ls : List Written) (d : Done) (r : Run W)
      → (d.failures ≤ (stop_due api ls d r).0.failures)
        × ((stop_due api ls d r).0.failures ≡ d.failures ↔ AllSeen api ls r)
  unfolding stop_due
  stop_due-failures [] d r = (omega arith, ((λ _. tt), (λ _. refl)))
  stop_due-failures (l ∷ ls) d r =
      let s = stop_leased api true l.id no_stops r in
      let (mono, rest) = stop_due-failures ls (tally l.id s.0 s.1 d) s.2 in
      let next = tally l.id s.0 s.1 d in
      let (here, count) = tally-failures l.id s.0 s.1 d in
      (
        omega arith,
        (
          (λ h. let seen = count.0 (omega arith) in (seen.0, seen.1, rest.0 (omega arith))),
          (λ h.
              let same_count : next.failures ≡ d.failures = count.1 (h.0, h.1) in
              rest.1 h.2 ∙ same_count),
        ),
      )

  -- A run that acts ends with exit code 0 exactly if the stop of every machine due, in turn, ended
  -- well and there was at least one guest with that machine's stamp that the token could see.
  pub act_on-exit_code :
      (from_json : Text → Option (List Written)) (due : List Written) (r : Run W)
      → exit_code (act_on (some api) from_json due true r).0 ≡ 0 ↔ AllSeen api due r
  unfolding act_on exit_code
  act_on-exit_code from_json due r =
      let count = (stop_due-failures due nothing_done r).1 in
      ((λ h. count.0 (ground arith)), (λ h. ground (arith, count.1 h)))
