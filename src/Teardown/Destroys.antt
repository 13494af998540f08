-- ===== src/Teardown/Destroys.antt =====
-- What a delete stops and destroys, in src/teardown.rs.
use omnuv_provider.Base.{
  ℕ, suc, ◌≤◌, ◌<◌, ◌≡◌, refl, ap, ◌∙◌, true, false, List, [], ◌∷◌, some, arith, length,
  length-append, any,
}
use omnuv_provider.Base.Text.{Text, same}
use omnuv_provider.Names.{short_tag}
use omnuv_provider.Volumes.{disk_volids}
use omnuv_provider.Hypervisor.{
  Answer, ok, fault, Event, read_config, read_status, listed, announced, sent_stop, sent_destroy,
  sent_remove, Config, Guest, Api, Run, ◌>>◌,
}
use omnuv_provider.Hypervisor.Keeps.{>>=-eq-ok}
use omnuv_provider.Leased.{has_stamp, stopped_word, claimed_guests, live_status}
use omnuv_provider.Teardown.{
  Doomed, destroy, licence_one, licence_found, licence, within_hour, started_destroy_allowed,
  counted, stop_first, delete_it, destroy_running, destroy_it,
}

-- Its node was just asked, and said `stopped`.
abbrev pub SaidStopped : Text → ℕ → List Event → Type 0
SaidStopped n v (read_status m w (ok (some s)) ∷ rest) =
    (m ≡ n) × (w ≡ v) × (same s stopped_word ≡ true)
SaidStopped n v _ = ⊥

-- Nothing is destroyed but a guest whose node, asked just before, said it is stopped; and nothing
-- but that guest is stopped or destroyed.
abbrev pub Careful : Text → ℕ → List Event → Type 0
Careful n v [] = Unit {0}
Careful n v (sent_destroy m w ∷ rest) = (m ≡ n) × (w ≡ v) × SaidStopped n v rest × Careful n v rest
Careful n v (sent_stop m w ∷ rest) = (m ≡ n) × (w ≡ v) × Careful n v rest
Careful n v (sent_remove m w ∷ rest) = ⊥
Careful n v (read_config m w a ∷ rest) = Careful n v rest
Careful n v (read_status m w a ∷ rest) = Careful n v rest
Careful n v (listed m a ∷ rest) = Careful n v rest
Careful n v (announced m w ∷ rest) = Careful n v rest

module _ {W : Type 0} (api : Api W) where
  -- Over any hypervisor, the destroy of a guest stops and destroys no other, removes no volume, and
  -- destroys it only if its node, asked just before and after any stop, said that it is stopped. A
  -- trace that was so before stays so.
  pub destroy_it-Careful :
      (most : ℕ) (d : Doomed) (now done : ℕ) (ts : List ℕ) (r : Run W)
      → Careful d.node d.vmid r.trace
      → Careful d.node d.vmid (destroy_it api most d now done ts r).2.trace
  unfolding destroy_it destroy_running stop_first delete_it live_status
  destroy_it-Careful most d now done ts r h = ground arith

within_hour-length : (now : ℕ) (ts : List ℕ) → length (within_hour now ts) ≤ length ts
unfolding within_hour
within_hour-length now [] = omega arith
within_hour-length now (t ∷ ts) = ground (arith, within_hour-length now ts)

counted-length :
    (a : Answer (Unit {0})) (done : ℕ) (ts : List ℕ) → length (counted a done ts) ≤ suc (length ts)
counted-length (ok _) done ts = omega (arith, length-append ts (done ∷ []))
counted-length (fault e) done ts = omega arith

module _ {W : Type 0} (api : Api W) where
  destroy_running-length :
      (most : ℕ) (d : Doomed) (now done : ℕ) (ts : List ℕ) (r : Run W)
      → 0 < most
      → length ts ≤ most
      → length (destroy_running api most d now done ts r).1 ≤ most
  unfolding destroy_running started_destroy_allowed
  destroy_running-length most d now done ts r positive h =
      let (a, r') = (stop_first api d >> delete_it api d) r in
      ground (arith, within_hour-length now ts, counted-length a done (within_hour now ts))

  -- With a cap, the hour never holds more destroys of running machines than the cap allows.
  pub destroy_it-length :
      (most : ℕ) (d : Doomed) (now done : ℕ) (ts : List ℕ) (r : Run W)
      → 0 < most
      → length ts ≤ most
      → length (destroy_it api most d now done ts r).1 ≤ most
  unfolding destroy_it
  destroy_it-length most d now done ts r positive h = ground (
    arith,
    destroy_running-length most d now done ts (live_status api d.node d.vmid r).1 positive h,
  )

  module _ (kind id : Text) where
    -- What a licence to destroy is: one guest alone carries the claim, no machine that Core still wants
    -- shares its tag, and its configuration, read now, has the machine's whole stamp.
    abbrev pub Allowed : List Text → Run W → Doomed → Type 0
    Allowed live_tags r d =
        (g : Guest) × (c : Config) × ((claimed_guests api kind id r).0 ≡ ok (g ∷ []))
        × (any (λ t. same t (short_tag id)) live_tags ≡ false)
        × ((api.config g.node g.vmid (claimed_guests api kind id r).1.world).0 ≡ ok c)
        × (has_stamp kind id c ≡ true)
        × (d ≡ record { node = g.node; vmid = g.vmid; volids = disk_volids c })

    licence_one-destroy :
        (live_tags : List Text) (g : Guest) (r : Run W) (d : Doomed)
        → (licence_one api kind id live_tags g r).0 ≡ ok (destroy d)
        → (c : Config) × (any (λ t. same t (short_tag id)) live_tags ≡ false)
          × ((api.config g.node g.vmid r.world).0 ≡ ok c)
          × (has_stamp kind id c ≡ true)
          × (d ≡ record { node = g.node; vmid = g.vmid; volids = disk_volids c })
    unfolding licence_one
    licence_one-destroy live_tags g r d h = go (api.config g.node g.vmid r.world).0 refl
      where
        go :
            (a : Answer Config)
            → (api.config g.node g.vmid r.world).0 ≡ a
            → (c : Config) × (any (λ t. same t (short_tag id)) live_tags ≡ false)
              × ((api.config g.node g.vmid r.world).0 ≡ ok c)
              × (has_stamp kind id c ≡ true)
              × (d ≡ record { node = g.node; vmid = g.vmid; volids = disk_volids c })
        go (ok c) e = (c, ground arith, e, ground arith, ground arith)
        go (fault x) e = absurd (ground arith)

    pub licence_found-destroy :
        (live_tags : List Text) (gs : List Guest) (r : Run W) (d : Doomed)
        → (licence_found api kind id live_tags gs r).0 ≡ ok (destroy d)
        → (g : Guest) × (gs ≡ g ∷ []) × ((licence_one api kind id live_tags g r).0 ≡ ok (destroy d))
    unfolding licence_found
    licence_found-destroy live_tags [] r d h = cc
    licence_found-destroy live_tags (g ∷ []) r d h = (g, refl, h)
    licence_found-destroy live_tags (g ∷ k ∷ more) r d h = cc

    -- Over any hypervisor, a licence to destroy is given only for the one guest that carries the
    -- claim, when no machine that Core still wants shares its tag, and when its configuration, read
    -- after that, has the machine's whole stamp; and it names the volumes of that configuration.
    pub licence-Allowed :
        (live_tags : List Text) (r : Run W) (d : Doomed)
        → (licence api kind id live_tags r).0 ≡ ok (destroy d)
        → Allowed live_tags r d
    unfolding licence
    licence-Allowed live_tags r d h =
        let (gs, e, h', s) =
          >>=-eq-ok (claimed_guests api kind id) (licence_found api kind id live_tags) r h in
        let (g, one, h'') =
          licence_found-destroy live_tags gs (claimed_guests api kind id r).1 d h' in
        let (c, shared, read, whole, named) =
          licence_one-destroy live_tags g (claimed_guests api kind id r).1 d h'' in
        (g, c, e ∙ ap ok one, shared, read, whole, named)
