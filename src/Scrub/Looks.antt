-- ===== src/Scrub/Looks.antt =====
-- What an outcome tells of its scrub, in crates/onv-scrub/src/scrub.rs and src/scrub.rs.
use omnuv_provider.Base.{
  ℕ, ◌≡◌, refl, Bool, true, false, List, [], ◌∷◌, Option, none, some, arith, inl, inr, any, all,
  keep, not, Bool-cases, if_both, if◌then◌else◌, subst, sym, ap, ◌∙◌, ◌>>=◌ as ◌>>=?◌,
}
use omnuv_provider.Base.Text.{Text, codes, same, same→eq}
use omnuv_provider.Names.{tag_scrub}
use omnuv_provider.Hypervisor.{
  Answer, ok, fault, other_stamp, Event, sent_destroy, Config, Guest, Run, Call, get_config,
}
use omnuv_provider.Leased.{claimed_guests}
use omnuv_provider.Volumes.{disk_volids}
use omnuv_provider.Teardown.{Doomed, delete_it, destroy_running, destroy_it}
use omnuv_provider.Scrub.{
  Wanted, Outcome, clean, GuestReport, Detail, Step, wait, over, says, step, Said, Held, is_of,
}
use omnuv_provider.Scrub.Pass.{
  Env, Current, Bench, Effect, then_do, stop_it, destroy_now, remove_guest, after_removal, conclude,
  is_running, uptime_of, read_report, on_current, look, started, is_scrub, is_attempt, on_config,
  on_guests, start_scrub, scrub_one, holding, scrub_each, is_wanted, scrub_pass,
}

-- The last thing that was sent is the destroy of the guest.
abbrev pub EndsDestroyed : Text → ℕ → List Event → Type 0
EndsDestroyed n v (sent_destroy m w ∷ rest) = (m ≡ n) × (w ≡ v)
EndsDestroyed n v _ = ⊥

-- Whose an outcome is.
abbrev pub IsOf : Wanted → Said → Type 0
IsOf w s = (s.id ≡ w.id) × (s.attempt ≡ w.attempt)

-- The node answered that the guest runs, and then its file was read and held the report.
abbrev pub Reported : {W : Type 0} → Env W → Text → ℕ → GuestReport → Type 0
Reported {W} env n v report =
    (u : W) × (now : Current) × (content : Text) × ((env.current n v u).0 ≡ ok now)
    × (now.status ≡ some (codes "running"))
    × ((env.guest_file n v (env.current n v u).1).0 ≡ some content)
    × (env.report_of content ≡ some report)

-- The outcome passes on a report of the guest that says `clean`.
abbrev pub SaidClean : {W : Type 0} → Env W → Text → ℕ → Said → Type 0
SaidClean env n v s =
    (report : GuestReport) × (s.detail.measured ≡ some report)
    × (report.status ≡ codes "clean")
    × Reported env n v report

step-clean :
    (report : Option GuestReport) (running : Bool) (uptime deadline : ℕ) (o : Outcome) (d : Detail)
    → step report running uptime deadline ≡ over o d
    → o ≡ clean
    → (d.measured ≡ report) × (says (codes "clean") report ≡ true)
unfolding step
step-clean report running uptime deadline o d e c = ground arith

says-some :
    (word : Text) (report : Option GuestReport)
    → says word report ≡ true
    → (it : GuestReport) × (report ≡ some it) × (it.status ≡ word)
says-some word none h = absurd (ground arith)
says-some word (some it) h = (it, refl, same→eq it.status word h)

status_running :
    (o : Option Text)
    → elim o [ none ↦ false | some s ↦ same s (codes "running") ] ≡ true
    → o ≡ some (codes "running")
status_running none h = absurd (ground arith)
status_running (some s) h = ap some (same→eq s (codes "running") h)

-- What an outcome tells, of the guest that was looked at and is gone.
abbrev pub Tells : {W : Type 0} → Env W → Wanted → Said → List Event → Type 0
Tells env w s t =
    (n : Text) × (v : ℕ) × IsOf w s
    × (s.outcome ≡ clean → SaidClean env n v s)
    × EndsDestroyed n v t

module _ {W : Type 0} (env : Env W) where
  -- An answer of an outcome is right.
  abbrev Right : Wanted → Answer (Option Said) × Bench W → Type 0
  Right w x = (s : Said) → x.0 ≡ ok (some s) → Tells env w s x.1.run.trace

  destroy_it-last :
      (most : ℕ) (d : Doomed) (now done : ℕ) (ts : List ℕ) (r : Run W)
      → (destroy_it env.api most d now done ts r).0 ≡ ok tt
      → EndsDestroyed d.node d.vmid (destroy_it env.api most d now done ts r).2.trace
  unfolding destroy_it destroy_running delete_it
  destroy_it-last most d now done ts r h = ground arith

  remove_guest-last :
      (n : Text) (v : ℕ) (c : Config) (b : Bench W)
      → (remove_guest env n v c b).0 ≡ ok tt
      → EndsDestroyed n v (remove_guest env n v c b).1.run.trace
  unfolding remove_guest destroy_now
  remove_guest-last n v c b h = go (stop_it env n v b.run).0 (stop_it env n v b.run).1 h
    where
      go :
          (a : Answer (Unit {0})) (r : Run W)
          → (elim a as (λ _. Answer (Unit {0}) × Bench W) [
            | fault e ↦ (fault e, record b { run = r })
            | ok x ↦
                destroy_now env
                  (record { node = n; vmid = v; volids = disk_volids c })
                  (record b { run = r })
          ]).0
            ≡ ok tt
          → EndsDestroyed n v
              (elim a as (λ _. Answer (Unit {0}) × Bench W) [
                | fault e ↦ (fault e, record b { run = r })
                | ok x ↦
                    destroy_now env
                      (record { node = n; vmid = v; volids = disk_volids c })
                      (record b { run = r })
              ]).1.run.trace
      go (ok x) r k = destroy_it-last env.most _ _ _ _ r k
      go (fault e) r k = absurd (ground arith)

  after_removal-Right :
      (n : Text) (v : ℕ) (w : Wanted) (said : Said) (x : Answer (Unit {0}) × Bench W)
      → IsOf w said
      → (said.outcome ≡ clean → SaidClean env n v said)
      → (x.0 ≡ ok tt → EndsDestroyed n v x.1.run.trace)
      → Right w (after_removal env (some said) x)
  after_removal-Right n v w said (ok _, b) is told last s e =
      let q : said ≡ s = cc in
      (
        n,
        v,
        subst (IsOf w) q is,
        subst (λ (x : Said). x.outcome ≡ clean → SaidClean env n v x) q told,
        last refl,
      )
  after_removal-Right n v w said (fault f, b) is told last s e = absurd (ground arith)

  after_none-Right :
      (w : Wanted) (x : Answer (Unit {0}) × Bench W) → Right w (after_removal env none x)
  after_none-Right w (ok _, b) s e = absurd (ground arith)
  after_none-Right w (fault f, b) s e = absurd (ground arith)

  then_do-Right :
      {A : Type 0} (w : Wanted) (m : Call W A) (f : A → Effect W (Option Said)) (b : Bench W)
      → ((a : A) (b' : Bench W) → Right w (f a b'))
      → Right w (then_do env m f b)
  then_do-Right {A} w m f b k = go (m b.run).0 (m b.run).1
    where
      go :
          (a : Answer A) (r : Run W)
          → Right w (elim a as (λ _. Answer (Option Said) × Bench W) [
            | fault e ↦ (fault e, record b { run = r })
            | ok x ↦ f x (record b { run = r })
          ])
      go (ok x) r s h = k x (record b { run = r }) s h
      go (fault e) r s h = absurd (ground arith)

  -- What was read of the guest, a report only if there is one.
  abbrev Known : Text → ℕ → Option GuestReport → Type 0
  Known n v report = (it : GuestReport) → report ≡ some it → Reported env n v it

  conclude-Right :
      (w : Wanted) (g : Guest) (c : Config) (report : Option GuestReport) (running : Bool)
      (uptime deadline : ℕ) (s : Step) (b : Bench W)
      → step report running uptime deadline ≡ s
      → Known g.node g.vmid report
      → Right w (conclude env w g c uptime s b)
  unfolding conclude
  conclude-Right w g c report running uptime deadline wait b q known s e = absurd (ground arith)
  conclude-Right w g c report running uptime deadline (over o d) b q known s e =
      after_removal-Right g.node g.vmid w _ (remove_guest env g.node g.vmid c b) (refl, refl)
        (λ is.
          let (measured, said) = step-clean report running uptime deadline o d q is in
          let (it, here, status) = says-some (codes "clean") report said in
          (it, measured ∙ here, status, known it here))
        (remove_guest-last g.node g.vmid c b) s e

  on_file-Known :
      (n : Text) (v : ℕ) (u : W) (now : Current)
      → (env.current n v u).0 ≡ ok now
      → now.status ≡ some (codes "running")
      → (content : Option Text) → (env.guest_file n v (env.current n v u).1).0 ≡ content
      → Known n v (content >>=? env.report_of)
  on_file-Known n v u now answered runs none e it h = absurd (ground arith)
  on_file-Known n v u now answered runs (some content) e it h =
      (u, now, content, answered, runs, e, h)

  on_current-Right :
      (w : Wanted) (g : Guest) (c : Config) (now : Current) (u : W) (b : Bench W)
      → (env.current g.node g.vmid u).0 ≡ ok now
      → b.run.world ≡ (env.current g.node g.vmid u).1
      → Right w (on_current env w g c now b)
  unfolding read_report
  on_current-Right w g c now u b answered here = elim (Bool-cases (is_running env now)) [
    | inr down ↦ rw down (
        conclude-Right w g c none (is_running env now) (uptime_of env now) env.deadline _ _ refl
          (λ it h. absurd (ground arith)))
    | inl up ↦ rw up (
        conclude-Right w g c _ (is_running env now) (uptime_of env now) env.deadline _
          (record b { run = record b.run { world = (env.guest_file g.node g.vmid b.run.world).1 } })
          refl
          (on_file-Known g.node g.vmid u now answered (status_running now.status up) _
            (ap (λ x. (env.guest_file g.node g.vmid x).0) (sym here))))
  ]

  look-Right : (w : Wanted) (g : Guest) (c : Config) (b : Bench W) → Right w (look env w g c b)
  unfolding look
  look-Right w g c b = go (env.current g.node g.vmid b.run.world).0 refl
    where
      go :
          (a : Answer Current)
          → (env.current g.node g.vmid b.run.world).0 ≡ a
          → Right w (elim a as (λ _. Answer (Option Said) × Bench W) [
            | fault e ↦ (
              fault e,
              record b { run = record b.run { world = (env.current g.node g.vmid b.run.world).1 } },
            )
            | ok now ↦ on_current env w g c now (record b {
              run = record b.run { world = (env.current g.node g.vmid b.run.world).1 };
            })
          ])
      go (fault f) q = λ s e. absurd (ground arith)
      go (ok now) q = on_current-Right w g c now b.run.world _ q refl

  on_config-Right :
      (w : Wanted) (g : Guest) (c : Config) (b : Bench W) → Right w (on_config env w g c b)
  unfolding on_config
  on_config-Right w g c b =
      let removed = after_removal env none (remove_guest env g.node g.vmid c b) in
      if_both (Right w) (not (is_scrub env w.id c)) (fault (other_stamp g.vmid), b)
        (if not (is_attempt env w.attempt c) then removed else look env w g c b)
        (λ s e. absurd (ground arith))
        (if_both (Right w) (not (is_attempt env w.attempt c)) removed (look env w g c b)
          (after_none-Right w (remove_guest env g.node g.vmid c b)) (look-Right w g c b))

  on_guests-Right : (w : Wanted) (gs : List Guest) (b : Bench W) → Right w (on_guests env w gs b)
  unfolding on_guests
  on_guests-Right w [] b =
      then_do-Right w (start_scrub env w) (started env) b (λ _ b' s e. absurd (ground arith))
  on_guests-Right w (g ∷ []) b =
      then_do-Right w (get_config env.api g.node g.vmid) (on_config env w g) b (on_config-Right w g)
  on_guests-Right w (g ∷ h ∷ more) b = λ s e. absurd (ground arith)

  -- An outcome that one step of a scrub answers is for that scrub and that attempt, and the last thing the
  -- step sent is the destroy of one guest; the outcome is clean only if that guest's node answered that it
  -- runs, its report was read after that, says `clean`, and is the one passed on as measured.
  pub scrub_one-Tells :
      (w : Wanted) (b : Bench W) (s : Said)
      → (scrub_one env w b).0 ≡ ok (some s)
      → Tells env w s (scrub_one env w b).1.run.trace
  unfolding scrub_one
  scrub_one-Tells w b =
      then_do-Right w (claimed_guests env.api tag_scrub w.id) (on_guests env w) b
        (on_guests-Right w)

-- Outcomes of different scrubs or attempts only.
abbrev pub OncePer : Held → Type 0
OncePer [] = Unit {0}
OncePer (s ∷ held) = (any (is_of s.id s.attempt) held ≡ false) × OncePer held

keep-none : (p q : Said → Bool) (held : Held) → any q held ≡ false → any q (keep p held) ≡ false
keep-none p q [] h = refl
keep-none p q (s ∷ held) h = ground (arith, keep-none p q held)

keep-OncePer : (p : Said → Bool) (held : Held) → OncePer held → OncePer (keep p held)
keep-OncePer p [] h = tt
keep-OncePer p (s ∷ held) h =
    ground (arith, keep-none p (is_of s.id s.attempt) held, keep-OncePer p held h.1)

keep-all : (p : Said → Bool) (held : Held) → all p (keep p held) ≡ true
keep-all p [] = refl
keep-all p (s ∷ held) = ground (arith, keep-all p held)

module _ {W : Type 0} (env : Env W) where
  holding-OncePer :
      (w : Wanted) (a : Answer (Option Said)) (held : Held)
      → ((s : Said) → a ≡ ok (some s) → IsOf w s)
      → any (is_of w.id w.attempt) held ≡ false
      → OncePer held
      → OncePer (holding env a held)
  holding-OncePer w (ok (some s)) held told new h =
      let (id, attempt) = told s refl in (rw (id, attempt) new, h)
  holding-OncePer w (ok none) held told new h = h
  holding-OncePer w (fault e) held told new h = h

  scrub_each-OncePer :
      (ws : List Wanted) (held : Held) (b : Bench W)
      → OncePer held
      → OncePer (scrub_each env ws held b).0
  unfolding scrub_each
  scrub_each-OncePer [] held b h = h
  scrub_each-OncePer (w ∷ ws) held b h = elim (Bool-cases (any (is_of w.id w.attempt) held)) [
    | inl known ↦ rw known (scrub_each-OncePer ws held b h)
    | inr new ↦
        let (a, b') = scrub_one env w b in
        rw new (
          scrub_each-OncePer ws (holding env a held) b'
            (holding-OncePer w a held (λ s e. (scrub_one-Tells env w b s e).2) new h))
  ]

  -- A pass reports one outcome at most for each scrub and attempt, and only of those that Core wants.
  -- Before it, no two outcomes held are of one scrub and attempt.
  pub scrub_pass-OncePer :
      (wants : List Wanted) (held : Held) (b : Bench W)
      → OncePer held
      → OncePer (scrub_pass env wants held b).0
        × (all (is_wanted env wants) (scrub_pass env wants held b).0 ≡ true)
  unfolding scrub_pass
  scrub_pass-OncePer wants held b h =
      let held' = (scrub_each env wants held b).0 in
      (
        keep-OncePer (is_wanted env wants) held' (scrub_each-OncePer wants held b h),
        keep-all _ held',
      )
