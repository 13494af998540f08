-- ===== src/Tombs/Conclusions.antt =====
-- What a teardown needs before it destroys, and before it says deleted, in src/teardown.rs.
use omnuv_provider.Base.{
  ℕ, suc, ◌≡◌, refl, ap, ◌∙◌, true, false, not, List, [], ◌∷◌, ◌++◌, Option, none, some, arith,
  is_empty, map, or_else,
}
use omnuv_provider.Base.Text.{Text}
use omnuv_provider.Hypervisor.{
  Answer, ok, fault, Event, read_config, read_status, listed, announced, sent_stop, sent_destroy,
  sent_remove, Guest, Api, Run, ask,
}
use omnuv_provider.Hypervisor.Keeps.{>>=-eq-ok}
use omnuv_provider.Leased.{claimed_guests}
use omnuv_provider.Teardown.{Doomed, Licence, nothing, destroy, licence, stamped_guests}
use omnuv_provider.Teardown.Quiet.{licence-Keeps, examine-Keeps}
use omnuv_provider.Tombs.{
  snippet_left, Blocker, Tombstone, Journal, proven, Agent, Times, Order, tomb_file, still_claimed,
  clone_left, when, its_volumes, examine, prove, on_nothing, on_doomed, on_licence, tear_down,
  read_tomb, blank, decided,
}
use omnuv_provider.Tombs.Proof.{prove-run}

-- How many stops and destroys a trace has.
abbrev pub touched : List Event → ℕ
touched [] = 0
touched (sent_destroy n v ∷ rest) = suc (touched rest)
touched (sent_stop n v ∷ rest) = suc (touched rest)
touched (sent_remove n v ∷ rest) = touched rest
touched (read_config n v a ∷ rest) = touched rest
touched (read_status n v a ∷ rest) = touched rest
touched (listed n a ∷ rest) = touched rest
touched (announced n v ∷ rest) = touched rest

append-nil : {A : Type 0} (xs ys : List A) → is_empty (xs ++ ys) ≡ true → (xs ≡ []) × (ys ≡ [])
append-nil [] [] h = (refl, refl)
append-nil [] (y ∷ ys) h = cc
append-nil (x ∷ xs) ys h = cc

map-nil : {A B : Type 0} (f : A → B) (xs : List A) → map f xs ≡ [] → xs ≡ []
map-nil f [] h = refl
map-nil f (x ∷ xs) h = cc

nobody_found :
    (gs ss : List Guest) (bs : List Blocker) (x left : List Text)
    → ◌≡◌ {A = Answer (List Blocker × List Text)}
        (ok (
          when (not (is_empty gs)) (still_claimed gs)
              ++ (when (not (is_empty ss)) (clone_left ss) ++ bs),
          x,
        ))
        (ok ([], left))
    → (gs ≡ []) × (ss ≡ [])
nobody_found [] [] bs x left h = (refl, refl)
nobody_found [] (g ∷ ss) bs x left h = cc
nobody_found (g ∷ gs) ss bs x left h = cc

module _ {W D : Type 0} (api : Api W) (j : Journal D) (o : Order W) (times : Times) where
  abbrev Left : ℕ → List Event → Type 0
  Left k t = touched t ≡ k

  prove-touched :
      (t : Tombstone) (s : Agent W D)
      → touched (prove api j o times t s).1.run.trace ≡ touched s.run.trace
  prove-touched t s =
      ap (λ (q : Run W). touched q.trace) (prove-run api j o times t s)
      ∙ examine-Keeps api (λ x. touched x ≡ touched s.run.trace) (λ n v a x k. k) (λ n a x k. k)
          (λ n v x k. k) t s.run refl

  licence-touched :
      (r : Run W) → touched (licence api o.kind o.id o.live_tags r).1.trace ≡ touched r.trace
  licence-touched r =
      licence-Keeps api (λ x. touched x ≡ touched r.trace) (λ n v a x k. k) (λ n a x k. k) o.kind
        o.id o.live_tags r refl

  on_nothing-touched :
      (held : Option Tombstone) (s : Agent W D)
      → touched (on_nothing api j o times held s).1.run.trace ≡ touched s.run.trace
  unfolding on_nothing
  on_nothing-touched held s =
      let t = or_else held (blank o.kind o.id) in
      let t' = record t { destroyed_at = some (or_else t.destroyed_at times.recorded) } in
      let d = (j.save (tomb_file t'.id) t' s.disk).1 in
      ground (arith, prove-touched t' (record s { disk = d }))

  module _ (unsaved : (t : Tombstone) (d : D) → (j.save (tomb_file o.id) t d).0 ≡ false) where
    on_doomed-touched :
        (held : Option Tombstone) (dm : Doomed) (s : Agent W D)
        → touched (on_doomed api j o times held dm s).1.run.trace ≡ touched s.run.trace
    unfolding on_doomed
    on_doomed-touched held dm s = ground (arith, unsaved (decided api j o times held dm) s.disk)

    on_licence-touched :
        (held : Option Tombstone) (s : Agent W D)
        → touched (on_licence api j o times held s).1.run.trace ≡ touched s.run.trace
    unfolding on_licence
    on_licence-touched held s = go (licence api o.kind o.id o.live_tags s.run).0 refl
      where
        go :
            (a : Answer Licence)
            → (licence api o.kind o.id o.live_tags s.run).0 ≡ a
            → touched (on_licence api j o times held s).1.run.trace ≡ touched s.run.trace
        go (fault e) q = rw (q, on_licence) (licence-touched s.run)
        go (ok nothing) q = rw (q, on_licence) (on_nothing-touched held _ ∙ licence-touched s.run)
        go (ok (destroy dm)) q =
            rw (q, on_licence) (on_doomed-touched held dm _ ∙ licence-touched s.run)

    -- When the machine's tombstone cannot be written, a pass of its teardown stops and destroys nothing,
    -- whatever the hypervisor and Core answer.
    pub tear_down-unsaved :
        (s : Agent W D) → touched (tear_down api j o times s).1.run.trace ≡ touched s.run.trace
    unfolding tear_down
    tear_down-unsaved s = go (read_tomb j o.id s.disk) refl
      where
        go :
            (held : Option Tombstone)
            → read_tomb j o.id s.disk ≡ held
            → touched (tear_down api j o times s).1.run.trace ≡ touched s.run.trace
        go none e = rw (e, tear_down) (on_licence-touched none s)
        go (some t) e = ground (arith, e, prove-touched t s, on_licence-touched (some t) s)

  prove-examined :
      (t : Tombstone) (s : Agent W D)
      → (prove api j o times t s).0 ≡ ok proven
      → (left : List Text) × ((examine api t s.run).0 ≡ ok ([], left)) × (o.snippets ≡ [])
  unfolding prove
  prove-examined t s h = go (examine api t s.run).0 refl
    where
      go :
          (a : Answer (List Blocker × List Text))
          → (examine api t s.run).0 ≡ a
          → (left : List Text) × ((examine api t s.run).0 ≡ ok ([], left)) × (o.snippets ≡ [])
      go (fault x) e = absurd (ground arith)
      go (ok (bs, left)) e =
          let clear : is_empty (bs ++ map snippet_left o.snippets) ≡ true = ground arith in
          let (no_blocker, no_snippet) = append-nil bs (map snippet_left o.snippets) clear in
          (left, e ∙ ap (λ x. ok (x, left)) no_blocker, map-nil snippet_left o.snippets no_snippet)

  examined-clear :
      (t : Tombstone) (r : Run W) (left : List Text)
      → (examine api t r).0 ≡ ok ([], left)
      → ((claimed_guests api t.claim t.id r).0 ≡ ok [])
        × ((stamped_guests api t.claim t.id (claimed_guests api t.claim t.id r).1).0 ≡ ok [])
  unfolding examine
  examined-clear t r left h =
      let q = (claimed_guests api t.claim t.id r).1 in
      let (gs, e, h1, s1) = >>=-eq-ok (claimed_guests api t.claim t.id) _ r h in
      let (ss, f, h2, s2) = >>=-eq-ok (stamped_guests api t.claim t.id) _ q h1 in
      let (ns, _, h3, s3) = >>=-eq-ok (ask api.nodes) _ (stamped_guests api t.claim t.id q).1 h2 in
      let (found, _, h4, s4) = >>=-eq-ok (its_volumes api t ns) _ _ h3 in
      let (no_claim, no_clone) = nobody_found gs ss found.0 found.1 left h4 in
      (e ∙ ap ok no_claim, f ∙ ap ok no_clone)

  -- When a pass says that the machine is gone, nothing left or blocking, then in that same pass no
  -- guest was found that carries its claim, none that has its clone stamp, and none of its snippets
  -- is still there.
  pub prove-proven :
      (t : Tombstone) (s : Agent W D)
      → (prove api j o times t s).0 ≡ ok proven
      → ((claimed_guests api t.claim t.id s.run).0 ≡ ok [])
        × ((stamped_guests api t.claim t.id (claimed_guests api t.claim t.id s.run).1).0 ≡ ok [])
        × (o.snippets ≡ [])
  prove-proven t s h =
      let (left, e, no_snippet) = prove-examined t s h in
      let (no_claim, no_clone) = examined-clear t s.run left e in (no_claim, no_clone, no_snippet)
