-- ===== src/Teardown/Hourly.antt =====
-- The hour's cap on destroying running machines, in src/teardown.rs, over any run of destroys.
use omnuv_provider.Base.{
  ℕ, zero, suc, ◌==◌, ◌+◌, ◌-◌, ◌≤◌, ◌<◌, ◌≡◌, refl, sym, ap, ◌∙◌, subst, true, false, List, [],
  ◌∷◌, ◌++◌, if◌then◌else◌, arith, length, leb, ltb, Bool-cases, inl, inr,
}
use omnuv_provider.Base.Text.{Text, same}
use omnuv_provider.Hypervisor.{Answer, ok, fault, Api, Run, ◌>>◌}
use omnuv_provider.Leased.{stopped_word, live_status}
use omnuv_provider.Teardown.{
  Doomed, hour, within_hour, started_destroy_allowed, counted, stop_first, delete_it,
  destroy_running, destroy_it,
}

-- One destroy that is asked for: when it is, when it is over, and what is so before it.
pub record Destroying (W : Type 0) : Type 0 where
  pub doomed : Doomed
  pub now : ℕ
  pub done : ℕ
  pub run : Run W

-- Of instants, newest first, all but the `n` newest are an hour before `y`.
abbrev pub HourOld : ℕ → ℕ → List ℕ → Type 0
HourOld y n [] = Unit {0}
HourOld y zero (x ∷ log) = (x + hour ≤ y) × HourOld y 0 log
HourOld y (suc n) (x ∷ log) = HourOld y n log

-- Of instants, newest first, no hour before one of them holds `most` others or more.
abbrev pub Spaced : ℕ → List ℕ → Type 0
Spaced most [] = Unit {0}
Spaced most (y ∷ log) = HourOld y (most - 1) log × Spaced most log

-- Each destroy begins after the one before it.
abbrev pub InOrder : {W : Type 0} → ℕ → List (Destroying W) → Type 0
InOrder t [] = Unit {0}
InOrder t (o ∷ os) = (t ≤ o.now) × (o.now ≤ o.done) × InOrder o.done os

-- The destroy of a machine that its node said was running, done.
abbrev pub logged : Answer Text → Answer (Unit {0}) → ℕ → List ℕ → List ℕ
logged (ok s) (ok _) done log = if same s stopped_word then log else done ∷ log
logged (ok s) (fault e) done log = log
logged (fault e) a done log = log

module _ {W : Type 0} (api : Api W) where
  -- When running machines were destroyed, newest first.
  unfoldable pub destroy_log : ℕ → List (Destroying W) → List ℕ → List ℕ → List ℕ
  destroy_log most [] ts log = log
  destroy_log most (o ∷ os) ts log =
      let (a, ts', r) = destroy_it api most o.doomed o.now o.done ts o.run in
      destroy_log most os ts'
        (logged (live_status api o.doomed.node o.doomed.vmid o.run).0 a o.done log)

-- What is remembered, oldest first, put before what is forgotten.
onto : List ℕ → List ℕ → List ℕ
onto [] old = old
onto (t ∷ ts) old = onto ts (t ∷ old)

HourOld-later : (y z n : ℕ) (log : List ℕ) → y ≤ z → HourOld y n log → HourOld z n log
HourOld-later y z n [] h o = tt
HourOld-later y z zero (x ∷ log) h o = (omega (arith, o.0), HourOld-later y z 0 log h o.1)
HourOld-later y z (suc n) (x ∷ log) h o = HourOld-later y z n log h o

HourOld-more : (y k n : ℕ) (log : List ℕ) → k ≤ n → HourOld y k log → HourOld y n log
HourOld-more y k n [] h o = tt
HourOld-more y zero zero (x ∷ log) h o = o
HourOld-more y zero (suc n) (x ∷ log) h o = HourOld-more y 0 n log (omega arith) o.1
HourOld-more y (suc k) zero (x ∷ log) h o = absurd (omega arith)
HourOld-more y (suc k) (suc n) (x ∷ log) h o = HourOld-more y k n log (omega arith) o

HourOld-onto :
    (y n k : ℕ) (ts old : List ℕ) → length ts + k ≤ n → HourOld y k old → HourOld y n (onto ts old)
unfolding onto
HourOld-onto y n k [] old h o = HourOld-more y k n old (omega arith) o
HourOld-onto y n k (t ∷ ts) old h o = HourOld-onto y n (suc k) ts (t ∷ old) (omega arith) o

onto-end : (ts old : List ℕ) (y : ℕ) → onto (ts ++ y ∷ []) old ≡ y ∷ onto ts old
unfolding onto
onto-end [] old y = refl
onto-end (t ∷ ts) old y = onto-end ts (t ∷ old) y

-- What is forgotten of the log is an hour old by the time `t`.
abbrev Remembers : ℕ → List ℕ → List ℕ → Type 0
Remembers t ts log = (old : List ℕ) × (log ≡ onto ts old) × HourOld t 0 old

Remembers-later : (t u : ℕ) (ts log : List ℕ) → t ≤ u → Remembers t ts log → Remembers u ts log
Remembers-later t u ts log h (old, e, o) = (old, e, HourOld-later t u 0 old h o)

onto-within_hour :
    (now : ℕ) (ts old : List ℕ)
    → HourOld now 0 old
    → Remembers now (within_hour now ts) (onto ts old)
unfolding within_hour onto
onto-within_hour now [] old o = (old, refl, o)
onto-within_hour now (t ∷ ts) old o = elim (Bool-cases (leb hour (now - t))) [
  | inl past ↦ rw past (onto-within_hour now ts (t ∷ old) (hour_past past, o))
  | inr recent ↦ rw recent (old, refl, o)
]
  where
    hour_past : leb hour (now - t) ≡ true → t + hour ≤ now
    hour_past h = ground arith

Remembers-within_hour :
    (t now : ℕ) (ts log : List ℕ)
    → t ≤ now
    → Remembers t ts log
    → Remembers now (within_hour now ts) log
Remembers-within_hour t now ts log h (old, e, o) =
    let (old', e', o') = onto-within_hour now ts old (HourOld-later t now 0 old h o) in
    (old', e ∙ e', o')

logged_stopped :
    (s : Text) (a : Answer (Unit {0})) (done : ℕ) (log : List ℕ)
    → same s stopped_word ≡ true
    → logged (ok s) a done log ≡ log
logged_stopped s (ok _) done log h = rw h refl
logged_stopped s (fault e) done log h = refl

-- The log, and what is remembered of it, are right.
abbrev Right : ℕ → ℕ → List ℕ → List ℕ → Type 0
Right most t ts log = Remembers t ts log × Spaced most log

counted-Right :
    (most now done : ℕ) (s : Text) (a : Answer (Unit {0})) (ts log : List ℕ)
    → same s stopped_word ≡ false
    → now ≤ done
    → length ts < most
    → Remembers now ts log
    → Spaced most log
    → Right most done (counted a done ts) (logged (ok s) a done log)
counted-Right most now done s (fault e) ts log up h room kept spaced =
    (Remembers-later now done ts log h kept, spaced)
counted-Right most now done s (ok _) ts log up h room (old, e, o) spaced =
    let o' = HourOld-later now done 0 old h o in
    rw up (
      (old, ap (λ l. done ∷ l) e ∙ sym (onto-end ts old done), o'),
      (
        subst (HourOld done (most - 1)) (sym e)
            (HourOld-onto done (most - 1) 0 ts old (omega arith) o'),
        spaced,
      ),
    )

module _ {W : Type 0} (api : Api W) where
  destroy_running-Right :
      (most : ℕ) (d : Doomed) (now done t : ℕ) (s : Text) (ts log : List ℕ) (r : Run W)
      → same s stopped_word ≡ false
      → 0 < most
      → t ≤ now
      → now ≤ done
      → Right most t ts log
      → Right most done
          (destroy_running api most d now done ts r).1
          (logged (ok s) (destroy_running api most d now done ts r).0 done log)
  unfolding destroy_running started_destroy_allowed
  destroy_running-Right most d now done t s ts log r up positive late h (kept, spaced) =
      let recent = within_hour now ts in
      let kept' = Remembers-within_hour t now ts log late kept in
      let a = ((stop_first api d >> delete_it api d) r).0 in
      let capped : (most == 0) ≡ false = ground arith in
      elim (Bool-cases (ltb (length recent) most)) [
        | inl room ↦
            rw (capped, room)
              (counted-Right most now done s a recent log up h (ground arith) kept' spaced)
        | inr full ↦ rw (capped, full) (Remembers-later now done recent log h kept', spaced)
      ]

  destroy_it-Right :
      (most : ℕ) (o : Destroying W) (t : ℕ) (ts log : List ℕ)
      → 0 < most
      → t ≤ o.now
      → o.now ≤ o.done
      → Right most t ts log
      → Right most o.done (destroy_it api most o.doomed o.now o.done ts o.run).1 (
          logged
            (live_status api o.doomed.node o.doomed.vmid o.run).0
            (destroy_it api most o.doomed o.now o.done ts o.run).0
            o.done
            log)
  unfolding destroy_it
  destroy_it-Right most o t ts log positive late h right =
      go (live_status api d.node d.vmid o.run).0 (live_status api d.node d.vmid o.run).1
    where
      d : Doomed
      d = o.doomed

      same_log : Right most o.done ts log
      same_log = (Remembers-later t o.done ts log (omega arith) right.0, right.1)

      go :
          (a : Answer Text) (r : Run W)
          → let x = elim a as (λ _. Answer (Unit {0}) × List ℕ × Run W) [
            | fault e ↦ (fault e, ts, r)
            | ok s ↦
                if same s stopped_word
                then (let (b, r2) = delete_it api o.doomed r in (b, ts, r2))
                else destroy_running api most o.doomed o.now o.done ts r
          ] in
            Right most o.done x.1 (logged a x.0 o.done log)
      go (fault e) r = same_log
      go (ok s) r = elim (Bool-cases (same s stopped_word)) [
        | inl down ↦ rw down (
            subst (Right most o.done ts)
              (sym (logged_stopped s (delete_it api o.doomed r).0 o.done log down)) same_log)
        | inr up ↦
            rw up (
              destroy_running-Right most o.doomed o.now o.done t s ts log r up positive late h
                right)
      ]

  destroy_log-Right :
      (most t : ℕ) (os : List (Destroying W)) (ts log : List ℕ)
      → 0 < most
      → InOrder t os
      → Right most t ts log
      → Spaced most (destroy_log api most os ts log)
  unfolding destroy_log
  destroy_log-Right most t [] ts log positive order right = right.1
  destroy_log-Right most t (o ∷ os) ts log positive (late, h, order) right =
      destroy_log-Right most o.done os _ _ positive order
        (destroy_it-Right most o t ts log positive late h right)

  -- Of any destroys that are asked for one after another, over any hypervisor and whatever else is done
  -- between them, and with a cap that is not 0: each time the destroy of a machine that its node said was
  -- running is done, all such destroys that were done before it, but the cap less one, were done an hour
  -- before or more. Nothing is remembered at the start.
  pub destroy_log-Spaced :
      (most : ℕ) (os : List (Destroying W))
      → 0 < most
      → InOrder 0 os
      → Spaced most (destroy_log api most os [] [])
  unfolding onto
  destroy_log-Spaced most os positive order =
      destroy_log-Right most 0 os [] [] positive order (([], refl, tt), tt)
