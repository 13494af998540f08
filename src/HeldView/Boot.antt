-- ===== src/HeldView/Boot.antt =====
-- What is started before any Core has answered, in src/heldview.rs.
use omnuv_provider.Base.{
  ℕ, ◌≤◌, ◌≡◌, refl, ap, ◌∙◌, inl, inr, Bool, true, false, ◌&&◌, List, [], ◌∷◌, arith, any, ◌==◌,
  subst, leb, Bool-cases, ◌⊎◌, ◌<◌, ◌+◌, none, some, Option-cases, ==_iff,
}
use omnuv_provider.Base.Text.{Text, same, same→eq}
use omnuv_provider.Base.Assoc.{Unique}
use omnuv_provider.Hypervisor.{Answer}
use omnuv_provider.Lease.{seconds, InstanceSpec, is_running, Book, may_restart, expired}
use omnuv_provider.Lease.Expiry.{member, expired_no_restart}
use omnuv_provider.Restore.{State, held_at_boot}
use omnuv_provider.HeldView.{
  Held, Persisted, ViewFile, not_read, not_parsed, persisted, Gates, refused, read_held, start_each,
  to_start, maintain_held, on_restore, boot_pass,
}

abbrev pub starts : Text → List InstanceSpec → Bool
starts id specs = any (λ (s : InstanceSpec). same s.id id) specs

abbrev pub has_running : Text → List Held → Bool
has_running id hs = any (λ (h : Held). is_running h.intent && same h.id id) hs

start_each-starts :
    (book : Book) (now : ℕ) (id : Text) (hs : List Held)
    → starts id (start_each book now hs) ≡ (has_running id hs && may_restart id now book)
unfolding start_each
start_each-starts book now id [] = refl
start_each-starts book now id (h ∷ hs) = elim (Bool-cases (same h.id id)) [
  | inl e ↦
      let here : may_restart h.id now book ≡ may_restart id now book =
        ap (λ t. may_restart t now book) (same→eq h.id id e) in
      ground (arith, start_each-starts book now id hs, here)
  | inr ne ↦ ground (arith, start_each-starts book now id hs)
]

-- Before any Core has answered, no machine is started that the lease task would stop at that time
-- or would have stopped at an earlier one, whatever view was kept. No machine has two leases
-- before.
pub to_start-expired :
    (held : Persisted) (book : Book) (now later : ℕ) (id : Text)
    → Unique book.leases
    → member id (expired now book) ≡ true
    → now ≤ later
    → starts id (to_start held book later) ≡ false
unfolding to_start
to_start-expired held book now later id u out le =
    start_each-starts book later id held.instances
    ∙ ground (arith, expired_no_restart now later id book u out le)

-- The kept view is this Core's, was asked for at most the allowed age ago, and is not from the future by
-- more than a minute.
abbrev pub Recent : Gates → ℕ → Persisted → Type 0
Recent g wall held =
    (g.file ≡ persisted held)
    × (held.core_url ≡ g.core_url)
    × (wall ≤ seconds held.asked_unix + g.max_age)
    × (seconds held.asked_unix ≤ wall + seconds 60)

-- Neither a restore was on when the agent stopped, nor was its record unreadable; or Core held none.
abbrev pub Unheld : State → Type 0
Unheld st = (st.head.mode ≡ none) ⊎ (st.head.armed ≡ some false)

-- Every gate is open.
abbrev pub Open : Gates → ℕ → Type 0
Open g wall =
    (0 < g.max_age)
    × (g.leases ≡ none)
    × Unheld g.restore
    × ((held : Persisted) × Recent g wall held)

read_held-in_time :
    (p : Persisted) (url : Text) (most wall : ℕ) (held : Persisted)
    → read_held (persisted p) url most wall ≡ some held
    → (p ≡ held)
      × (p.core_url ≡ url)
      × (wall ≤ seconds p.asked_unix + most)
      × (seconds p.asked_unix ≤ wall + seconds 60)
unfolding read_held
read_held-in_time p url most wall held r = elim (Bool-cases (leb (seconds p.asked_unix) wall)) [
  | inl past ↦ ground (arith, same→eq p.core_url url)
  | inr ahead ↦ ground (arith, same→eq p.core_url url)
]

read_held-Recent :
    (g : Gates) (wall : ℕ) (f : ViewFile) (held : Persisted)
    → g.file ≡ f
    → read_held f g.core_url g.max_age wall ≡ some held
    → Recent g wall held
unfolding read_held
read_held-Recent g wall not_read held e r = absurd (ground arith)
read_held-Recent g wall not_parsed held e r = absurd (ground arith)
read_held-Recent g wall (persisted p) held e r =
    let (q, url, old, ahead) = read_held-in_time p g.core_url g.max_age wall held r in
    subst (Recent g wall) q (e, url, old, ahead)

held_at_boot-Unheld : (st : State) → held_at_boot st ≡ none → Unheld st
unfolding held_at_boot
held_at_boot-Unheld st e = ground arith

module _ {W : Type 0} (maintain : List InstanceSpec → W → Answer ℕ × W) where
  -- Either a pass at boot maintains nothing and is refused, or the held view is allowed an age, the
  -- leases were resumed, no restore is kept or the last Core held none, and the kept view parsed, is
  -- this Core's, is not older than the allowed age and not more than a minute from the future.
  pub boot_pass-Open :
      (g : Gates) (wall now : ℕ) (w : W)
      → (boot_pass maintain g wall now w ≡ (refused, w)) ⊎ Open g wall
  unfolding boot_pass on_restore maintain_held
  boot_pass-Open g wall now w = elim (Bool-cases (g.max_age == 0)) [
    | inl off ↦ inl (ground arith)
    | inr on ↦ elim (Option-cases g.leases) [
      | inr (u, e) ↦ inl (ground arith)
      | inl resumed ↦ elim (Option-cases (held_at_boot g.restore)) [
        | inr (m, e) ↦ inl (ground arith)
        | inl free ↦ elim (Option-cases (read_held g.file g.core_url g.max_age wall)) [
          | inl e ↦ inl (ground arith)
          | inr (held, e) ↦ inr (
            ground (arith, ==_iff g.max_age 0),
            resumed,
            held_at_boot-Unheld g.restore free,
            (held, read_held-Recent g wall g.file held refl e),
          )
        ]
      ]
    ]
  ]
