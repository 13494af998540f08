-- ===== src/Reread/Fresh.antt =====
-- On which view of Core an act goes ahead, in src/agent.rs.
use omnuv_provider.Base.{
  ℕ, ◌≤◌, ◌≡◌, refl, Bool, true, false, Option, none, some, arith, ltb, inl, inr, Bool-cases, ◌>>=◌,
  ◌⊎◌, ◌∙◌, sym, subst,
}
use omnuv_provider.Base.Text.{Text}
use omnuv_provider.Hypervisor.{Answer, ok, fault}
use omnuv_provider.Lease.{Lifecycle}
use omnuv_provider.Restore.{State, View, observe, active}
use omnuv_provider.Reread.{
  Link, known_of, intent_of, taken_if, taken, on_view, on_answer, intent_now,
}

-- What is not stopped is out of restore mode.
observe-active :
    (saves : Bool) (torn : Text → Bool) (view : View) (named : Option Text) (st : State)
    → (observe saves torn view named st).0 ≡ active (observe saves torn view named st).1
unfolding observe active
observe-active saves torn view named st = ground arith

none-some : (v : View) → none ≡ some v → ⊥
none-some v h = absurd (ground arith)

-- The view held, when Core says that it is unchanged, or else the one it answers.
abbrev pub Newest : View → Option View → View → Type 0
Newest fetched held v =
    ((fetched.unchanged ≡ true) × (held ≡ some v)) ⊎ ((fetched.unchanged ≡ false) × (fetched ≡ v))

some-injective : {v w : View} → some v ≡ some w → v ≡ w
some-injective h = cc

taken_if-held :
    (unchanged older : Bool) (fetched : View) (held : Option View) (v : View)
    → fetched.unchanged ≡ unchanged
    → ltb fetched.version (known_of held) ≡ older
    → (taken_if unchanged older fetched held).0 ≡ some v
    → ((taken_if unchanged older fetched held).1 ≡ some v)
      × (known_of held ≤ v.version)
      × Newest fetched held v
unfolding taken_if
taken_if-held true older fetched held v same o e = (e, rw e (omega arith), inl (same, e))
taken_if-held false true fetched held v full o e = absurd (none-some v e)
taken_if-held false false fetched held v full o e =
    (e, subst (λ w. known_of held ≤ known_of w) e (ground arith), inr (full, some-injective e))

taken-held :
    (fetched : View) (held : Option View) (v : View)
    → (taken fetched held).0 ≡ some v
    → ((taken fetched held).1 ≡ some v) × (known_of held ≤ v.version) × Newest fetched held v
unfolding taken
taken-held fetched held v e =
    taken_if-held fetched.unchanged (ltb fetched.version (known_of held)) fetched held v refl refl e

bound-some :
    (id : Text) (v : Option View) (i : Lifecycle)
    → (v >>= intent_of id) ≡ some i
    → (w : View) × (v ≡ some w) × (intent_of id w ≡ some i)
bound-some id none i e = absurd (ground arith)
bound-some id (some w) i e = (w, refl, e)

ok-injective : {A : Type 0} {a b : A} → ok a ≡ ok b → a ≡ b
ok-injective h = cc

module _ {W : Type 0} (get_view : ℕ → W → Answer (View × Option Text) × W) (saves : Bool) where
  -- The view that says so is Core's answer, is held, is not below the one held before, and no restore
  -- is on.
  abbrev pub Fresh : Text → Lifecycle → View → Link W → Link W → Type 0
  Fresh id i fetched l l' =
      (v : View) × (l'.held ≡ some v)
      × (intent_of id v ≡ some i)
      × (known_of l.held ≤ v.version)
      × Newest fetched l.held v
      × (active l'.restore ≡ false)

  -- Core answered.
  abbrev pub Answered :
      Text → Lifecycle → Answer (View × Option Text) × W → Link W → Link W → Type 0
  Answered id i a l l' =
      (fetched : View) × (named : Option Text) × (w : W) × (a ≡ (ok (fetched, named), w))
      × Fresh id i fetched l l'

  none-some-intent : (i : Lifecycle) → ok none ≡ ok (some i) → ⊥
  none-some-intent i h = absurd (ground arith)

  on_view-Fresh :
      (id : Text) (fetched : View) (named : Option Text) (l : Link W) (i : Lifecycle)
      → (on_view get_view saves id fetched named l).0 ≡ ok (some i)
      → Fresh id i fetched l (on_view get_view saves id fetched named l).1
  unfolding on_view
  on_view-Fresh id fetched named l i e =
      elim (Bool-cases (observe saves (λ _. false) fetched named l.restore).0) [
        | inl stop ↦ absurd (none-some-intent i (rw stop at e))
        | inr acts ↦
            let (v, found, said) =
              bound-some id (taken fetched l.held).0 i (ok-injective (rw acts at e)) in
            let (held, newer, newest) = taken-held fetched l.held v found in
            rw acts (
              v,
              held,
              said,
              newer,
              newest,
              sym (observe-active saves (λ _. false) fetched named l.restore) ∙ acts,
            )
      ]

  on_answer-Fresh :
      (id : Text) (a : Answer (View × Option Text) × W) (l : Link W) (i : Lifecycle)
      → (on_answer get_view saves id a l).0 ≡ ok (some i)
      → Answered id i a l (on_answer get_view saves id a l).1
  on_answer-Fresh id (ok (fetched, named), w) l i e =
      (fetched, named, w, refl, on_view-Fresh id fetched named (record l { world = w }) i e)
  on_answer-Fresh id (fault f, w) l i e = absurd (ground arith)

  -- If the re-read says an intent of an id, Core answered it: the intent stands in the view that Core
  -- sent, or, when Core said that nothing changed, in the view held; that view is held from then on,
  -- its revision is not below that of the view held before, and no restore of Core's ledger is on.
  pub intent_now-Fresh :
      (id : Text) (l : Link W) (i : Lifecycle)
      → (intent_now get_view saves id l).0 ≡ ok (some i)
      → Answered id i (get_view (known_of l.held) l.world) l (intent_now get_view saves id l).1
  unfolding intent_now
  intent_now-Fresh id l i e = on_answer-Fresh id (get_view (known_of l.held) l.world) l i e
