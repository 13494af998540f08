-- ===== src/Scrub/Rolled.antt =====
-- What the building of a scrub guest, in src/scrub.rs, stops and destroys.
use omnuv_provider.Base.{
  ℕ, ◌≡◌, refl, ap, sym, subst, ◌∙◌, List, [], ◌∷◌, Option, is_some, none, some, arith, inl, inr,
  Bool-cases,
}
use omnuv_provider.Base.Text.{Text, codes, strip_prefix}
use omnuv_provider.Names.{tag_scrub}
use omnuv_provider.Hypervisor.{
  Answer, ok, fault, Event, not_started, sent_stop, sent_destroy, read_config, Config, Api, Run,
  Call, fail, ◌>>=◌, ask, attempt, get_config,
}
use omnuv_provider.Hypervisor.Keeps.{Keeps, Keeps-bind, Keeps-if}
use omnuv_provider.Leased.{has_stamp}
use omnuv_provider.Leftover.{volume_left}
use omnuv_provider.Teardown.Quiet.{volume_left-Keeps}
use omnuv_provider.Gate.{Start, sent, not_ready, unread}
use omnuv_provider.Scrub.{Wanted}
use omnuv_provider.Scrub.Build.{
  abandoned, pending, CloneEnd, ended, broken, not_seen, Builder, quietly, settle, on_start,
  start_guest, configure, volumes_left, on_left, on_gone, stopping, deleting, take_away,
  on_abandoned, abandon_clone, noted_volumes, finish, on_end, await_clone, build,
}
use omnuv_provider.Scrub.Rule.{Stamped, ScrubsOnly}

module _ {W : Type 0} (api : Api W) (b : Builder W) where
  abbrev Good : {A : Type 0} → Call W A → Type 0
  Good m = Keeps ScrubsOnly m

  settle-Good : (node : Text) (t : Option Text) → Good (settle api b node t)
  unfolding settle
  settle-Good node none = λ r h. h
  settle-Good node (some upid) =
      Keeps-if ScrubsOnly (is_some (strip_prefix (codes "UPID:") upid)) _ _ (λ r h. h) (λ r h. h)

  on_start-Good : (node : Text) (vmid : ℕ) (s : Start) → Good (on_start api b node vmid s)
  unfolding on_start
  on_start-Good node vmid (sent k) =
      Keeps-bind ScrubsOnly (ask (b.start node vmid)) (λ upid. ask (api.wait node upid)) (λ r h. h)
        (λ _ r h. h)
  on_start-Good node vmid (not_ready bs) = λ r h. h
  on_start-Good node vmid unread = λ r h. h

  start_guest-Good : (node : Text) (vmid : ℕ) → Good (start_guest api b node vmid)
  unfolding start_guest
  start_guest-Good node vmid r h =
      on_start-Good node vmid _ (record r { world = (b.looks node vmid r.world).1 }) h

  configure-Good : (w : Wanted) (vmid : ℕ) → Good (configure api b w vmid)
  unfolding configure
  configure-Good w vmid =
      Keeps-bind ScrubsOnly (ask (b.set_config w.node vmid _)) _ (λ r h. h)
        λ tagged.
          Keeps-bind ScrubsOnly (settle api b w.node tagged) _ (settle-Good w.node tagged) λ _.
            Keeps-bind ScrubsOnly (ask (b.set_config w.node vmid _)) _ (λ r h. h)
              λ set. Keeps-bind ScrubsOnly (settle api b w.node set) _ (settle-Good w.node set) λ _.
                Keeps-bind ScrubsOnly {B = Unit {0}} (quietly api b (b.remove_pending vmid))
                  (λ _. start_guest api b w.node vmid) (λ r h. h) λ _. start_guest-Good w.node vmid

  volumes_left-Good : (node : Text) (vs : List Text) → Good (volumes_left api b node vs)
  unfolding volumes_left
  volumes_left-Good node [] = λ r h. h
  volumes_left-Good node (v ∷ vs) =
      Keeps-bind ScrubsOnly (volume_left api node v) _
        (volume_left-Keeps api ScrubsOnly (λ n v a t k. k) (λ n a t k. k) (λ n v t k. k) node v)
        λ there.
          Keeps-bind ScrubsOnly (volumes_left api b node vs) _ (volumes_left-Good node vs)
            (λ _ r h. h)

  on_left-Good : (vmid : ℕ) (a : Answer (List Text)) → Good (on_left api b vmid a)
  on_left-Good vmid (ok []) r h = h
  on_left-Good vmid (ok (v ∷ vs)) r h = h
  on_left-Good vmid (fault e) r h = h

  on_gone-Good :
      (node : Text) (vmid : ℕ) (vs : List Text) (a : Answer (Unit {0}))
      → Good (on_gone api b node vmid vs a)
  on_gone-Good node vmid vs (ok _) =
      Keeps-bind ScrubsOnly (attempt (volumes_left api b node vs)) (on_left api b vmid)
        (volumes_left-Good node vs) (on_left-Good vmid)
  on_gone-Good node vmid vs (fault e) = λ r h. h

  stopping-trace :
      (node : Text) (vmid : ℕ) (r : Run W)
      → (stopping api b node vmid r).1.trace ≡ sent_stop node vmid ∷ r.trace
  unfolding stopping settle
  stopping-trace node vmid r = ground arith

  deleting-trace :
      (node : Text) (vmid : ℕ) (r : Run W)
      → (deleting api b node vmid r).1.trace ≡ sent_destroy node vmid ∷ r.trace
  unfolding deleting
  deleting-trace node vmid r = ground arith

  take_away-Good :
      (node : Text) (vmid : ℕ) (vs : List Text) (r : Run W)
      → Stamped node vmid r.trace
      → ScrubsOnly r.trace
      → ScrubsOnly (take_away api b node vmid vs r).1.trace
  unfolding take_away
  take_away-Good node vmid vs r mark h =
      let r1 = (stopping api b node vmid r).1 in
      let (gone, r2) = deleting api b node vmid r1 in
      on_gone-Good node vmid vs gone r2 (
        subst ScrubsOnly
          (sym (
            deleting-trace node vmid r1
            ∙ ap (λ t. sent_destroy node vmid ∷ t) (stopping-trace node vmid r)))
          (inr (refl, refl), mark, (mark, h)))

  on_abandoned-read :
      (w : Wanted) (vmid : ℕ) (vs : List Text) (a : Answer Config) (u : W) (t : List Event)
      → ScrubsOnly t
      → ScrubsOnly
          (on_abandoned api b w vmid vs a
            (record { world = u; trace = read_config w.node vmid a ∷ t })).1.trace
  unfolding on_abandoned
  on_abandoned-read w vmid vs (fault e) u t h = h
  on_abandoned-read w vmid vs (ok c) u t h = elim (Bool-cases (has_stamp tag_scrub w.id c)) [
    | inr bare ↦ rw bare h
    | inl mark ↦ rw mark (take_away-Good w.node vmid vs _ (inl (refl, refl, inr (w.id, mark))) h)
  ]

  abandon_clone-Good :
      (w : Wanted) (vmid : ℕ) (upid : Text) (vs : List Text)
      → Good (abandon_clone api b w vmid upid vs)
  unfolding abandon_clone
  abandon_clone-Good w vmid upid vs r h =
      let u = (b.write_pending (pending w vmid (some upid) abandoned vs) r.world).1 in
      on_abandoned-read w vmid vs (api.config w.node vmid u).0 (api.config w.node vmid u).1 r.trace
        h

  noted_volumes-Good :
      (w : Wanted) (vmid : ℕ) (upid : Text) (a : Answer Config)
      → Good (noted_volumes api b w vmid upid a)
  unfolding noted_volumes
  noted_volumes-Good w vmid upid (ok c) = λ r h. h
  noted_volumes-Good w vmid upid (fault e) = λ r h. h

  finish-Good :
      (w : Wanted) (vmid : ℕ) (upid : Text) (vs : List Text) (a : Answer (Unit {0}))
      → Good (finish api b w vmid upid vs a)
  unfolding finish
  finish-Good w vmid upid vs (ok _) = λ r h. h
  finish-Good w vmid upid vs (fault e) =
      Keeps-bind ScrubsOnly (abandon_clone api b w vmid upid vs) (λ _. fail e)
        (abandon_clone-Good w vmid upid vs) (λ _ r h. h)

  on_end-Good :
      (w : Wanted) (vmid : ℕ) (upid : Text) (e : CloneEnd) → Good (on_end api b w vmid upid e)
  unfolding on_end
  on_end-Good w vmid upid ended =
      Keeps-bind ScrubsOnly
        (attempt (get_config api w.node vmid) >>= noted_volumes api b w vmid upid) _
        (Keeps-bind ScrubsOnly (attempt (get_config api w.node vmid))
          (noted_volumes api b w vmid upid) (λ r h. h) (noted_volumes-Good w vmid upid))
        λ vs.
          Keeps-bind ScrubsOnly (attempt (configure api b w vmid)) (finish api b w vmid upid vs)
            (configure-Good w vmid) (finish-Good w vmid upid vs)
  on_end-Good w vmid upid broken =
      Keeps-bind ScrubsOnly (abandon_clone api b w vmid upid []) (λ _. fail (not_started w.image))
        (abandon_clone-Good w vmid upid []) (λ _ r h. h)
  on_end-Good w vmid upid not_seen = λ r h. h

  await_clone-Good : (w : Wanted) (vmid : ℕ) (upid : Text) → Good (await_clone api b w vmid upid)
  unfolding await_clone
  await_clone-Good w vmid upid r h =
      on_end-Good w vmid upid _ (record r { world = (b.task_end w.node upid r.world).1 }) h

  -- The building of a scrub guest keeps to the rule.
  pub build-ScrubsOnly : (w : Wanted) (template : ℕ) → Keeps ScrubsOnly (build api b w template)
  unfolding build
  build-ScrubsOnly w template =
      Keeps-bind ScrubsOnly (ask b.next_id) _ (λ r h. h)
        λ vmid.
          Keeps-bind ScrubsOnly (ask (b.write_pending _)) _ (λ r h. h)
            λ _.
              Keeps-bind ScrubsOnly (ask (b.clone w.node template _)) _ (λ r h. h)
                λ upid.
                  Keeps-bind ScrubsOnly (ask (b.write_pending _)) _ (λ r h. h)
                    λ _. await_clone-Good w vmid upid
