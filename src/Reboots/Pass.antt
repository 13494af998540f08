-- ===== src/Reboots/Pass.antt =====
-- What one pass of `ensure_instance_gated` of src/instance.rs does about a machine's reboot.
use omnuv_provider.Base.{
  ℕ, ◌≡◌, ◌⊎◌, Bool-cases, refl, Bool, true, false, ◌∷◌, Option, none, some, arith, if◌then◌else◌,
  inl, inr, sym, subst, ap, ◌∙◌,
}
use omnuv_provider.Base.Text.{Text, same, same→eq}
use omnuv_provider.Hypervisor.{Answer, ok, fault}
use omnuv_provider.Reboots.{
  Reboot, happened, Calls, Seat, Echo, recorded, read, write, remove, echoed, finish, waited,
  requested, post, asked, journalled, ask_reboot, on_record, reboot_pass,
}

abbrev pub names : Text → Option Text → Bool
names x none = false
names x (some t) = same t x

abbrev pub logged : Text → Option Reboot → Bool
logged x none = false
logged x (some r) = same r.token x

-- How often a pass finds no record because it cannot be read: once, or not at all.
unfoldable pub misread : {W : Type 0} → Calls W → Option Text → Bool → Seat W → ℕ
misread c (some token) true s = if (c.read s.world).0 then 0 else 1
misread c (some token) false s = 0
misread c none runs s = 0

module _ {W : Type 0} (c : Calls W) (x : Text) where
  -- Nothing is sent, and the token's record stays if the pass is about it.
  abbrev pub Quiet : Bool → Seat W → Seat W → Type 0
  Quiet about s s' =
      (s'.sent ≡ s.sent) × (about ≡ true → logged x s.journal ≡ true → logged x s'.journal ≡ true)

  -- A request is sent, and then there is its record.
  abbrev pub Sends : Text → Seat W → Seat W → Type 0
  Sends y s s' = (s'.sent ≡ y ∷ s.sent) × (same y x ≡ true → logged x s'.journal ≡ true)

  pub write-lem :
      (r : Reboot) (s : Seat W)
      → ((write c r s).1.sent ≡ s.sent)
        × ((write c r s).1.journal ≡ (if (write c r s).0 then some r else s.journal))
  unfolding write
  write-lem r s = ground arith

  pub write-Quiet : (r : Reboot) (s : Seat W) → Quiet (same r.token x) s (write c r s).1
  write-Quiet r s = ((write-lem r s).0, λ e h. ground (arith, write-lem r s))

  echoed-seat : (token : Text) (r : Bool × Seat W) → (echoed c token r).1 ≡ r.1
  echoed-seat token (true, s) = refl
  echoed-seat token (false, s) = refl

  finish-Quiet :
      (token : Text) (r : Reboot) (s : Seat W) → Quiet (same r.token x) s (finish c token r s).1
  unfolding finish
  finish-Quiet token r s =
      rw (echoed-seat token (write c (record r { is_done = true }) s))
        (write-Quiet (record r { is_done = true }) s)

  waited-Quiet :
      (token : Text) (r : Reboot) (a : Answer (Unit {0}) × W) (s : Seat W)
      → Quiet (same r.token x) s (waited c token r a s).1
  waited-Quiet token r (ok _, w) s = finish-Quiet token r (record s { world = w })
  waited-Quiet token r (fault e, w) s = (refl, λ e h. h)

  requested-Quiet :
      (token : Text) (r : Reboot) (a : Answer Text) (s : Seat W)
      → Quiet (same r.token x) s (requested c token r (a, s)).1
  requested-Quiet token r (ok upid) s = waited-Quiet token r (c.wait upid s.world) s
  requested-Quiet token r (fault e) s = (refl, λ e h. h)

  pub post-lem :
      (token : Text) (s : Seat W)
      → ((post c token s).1.sent ≡ token ∷ s.sent) × ((post c token s).1.journal ≡ s.journal)
  unfolding post
  post-lem token s = (refl, refl)

  -- Once the record is written.
  request-Sends :
      (token : Text) (r : Reboot) (s : Seat W)
      → s.journal ≡ some r
      → r.token ≡ token
      → Sends token s (requested c token r (post c token s)).1
  request-Sends token r s written named =
      let (quiet, stays) = requested-Quiet token r (post c token s).0 (post c token s).1 in
      let (sent, journal) = post-lem token s in
      (
        quiet ∙ sent,
        λ e. stays (subst (λ t. same t x ≡ true) (sym named) e) (
            subst (λ j. logged x j ≡ true) (sym (journal ∙ written))
              (subst (λ t. same t x ≡ true) (sym named) e)),
      )

  journalled-lem :
      (token : Text) (r : Reboot) (b : Bool) (s t : Seat W)
      → t.sent ≡ s.sent
      → t.journal ≡ (if b then some r else s.journal)
      → r.token ≡ token
      → let s' = (journalled c token r (b, t)).1 in
        ((s'.sent ≡ s.sent) × (s'.journal ≡ s.journal)) ⊎ Sends token s s'
  journalled-lem token r false s t sent journal named = inl (sent, journal)
  journalled-lem token r true s t sent journal named =
      let (more, stays) = request-Sends token r t journal named in
      inr (more ∙ ap (λ ts. token ∷ ts) sent, stays)

  pub asked-token : (token : Text) (s : Seat W) → (asked c token s).token ≡ token
  unfolding asked
  asked-token token s = refl

  ask_reboot-lem :
      (token : Text) (s : Seat W)
      → let s' = (ask_reboot c token s).1 in
        ((s'.sent ≡ s.sent) × (s'.journal ≡ s.journal)) ⊎ Sends token s s'
  unfolding ask_reboot
  ask_reboot-lem token s =
      let r = asked c token s in
      let (sent, journal) = write-lem r s in
      journalled-lem token r (write c r s).0 s (write c r s).1 sent journal (asked-token token s)

  remove-sent : (s : Seat W) → (remove c s).sent ≡ s.sent
  unfolding remove
  remove-sent s = ground arith

  recorded-logged :
      (token : Text) (j : Option Reboot)
      → (r : Reboot) → recorded token j ≡ some r
      → r.token ≡ token
  unfolding recorded
  recorded-logged token none r e = absurd (ground arith)
  recorded-logged token (some q) r e = ground (arith, same→eq q.token token)

  pub recorded-none :
      (token : Text) (j : Option Reboot) → recorded token j ≡ none → logged token j ≡ false
  unfolding recorded
  recorded-none token none e = refl
  recorded-none token (some q) e = ground arith

  if-Quiet :
      (about b : Bool) (m n : Echo W) (s : Seat W)
      → Quiet about s m.1
      → Quiet about s n.1
      → Quiet about s (if b then m else n).1
  if-Quiet about true m n s p q = p
  if-Quiet about false m n s p q = q

  on_record-lem :
      (r : Option Reboot) (token : Text) (uptime : Option ℕ) (s : Seat W)
      → ((q : Reboot) → r ≡ some q → q.token ≡ token)
      → let s' = (on_record c r token uptime s).1 in
        Quiet (same token x) s s' ⊎ ((r ≡ none) × Sends token s s')
  unfolding on_record
  on_record-lem none token uptime s f = elim (ask_reboot-lem token s) [
    | inl (sent, journal) ↦ inl (sent, λ e h. subst (λ j. logged x j ≡ true) (sym journal) h)
    | inr sends ↦ inr (refl, sends)
  ]
  on_record-lem (some r) token uptime s f = inl (
      if-Quiet (same token x) r.is_done (ok (some token), s)
        (if happened r uptime (c.now s.world) then finish c token r s else (ok none, s)) s
        (refl, λ k h. h)
        (if-Quiet (same token x) (happened r uptime (c.now s.world)) (finish c token r s)
          (ok none, s) s
          (subst (λ t. Quiet (same t x) s (finish c token r s).1) (f r refl)
            (finish-Quiet token r s))
          (refl, λ k h. h)))

  -- A pass takes the record for none: there is none of the token, or it could not be read.
  pub read-none :
      (y : Text) (s : Seat W)
      → recorded y (read c s).0 ≡ none
      → (logged y s.journal ≡ false) ⊎ (misread c (some y) true s ≡ 1)
  unfolding read misread
  read-none y s e = elim (Bool-cases (c.read s.world).0) [
    | inl works ↦ inl (recorded-none y s.journal (rw works at e))
    | inr fails ↦ inr (rw fails refl)
  ]

  pub read-Same : (s : Seat W) → ((read c s).1.sent ≡ s.sent) × ((read c s).1.journal ≡ s.journal)
  unfolding read
  read-Same s = (refl, refl)

  pub reboot_pass-lem :
      (wanted : Option Text) (runs : Bool) (uptime : Option ℕ) (s : Seat W)
      → let s' = (reboot_pass c wanted runs uptime s).1 in
        Quiet (names x wanted) s s'
        ⊎ ((y : Text) × (wanted ≡ some y)
            × ((logged y s.journal ≡ false) ⊎ (misread c wanted runs s ≡ 1))
            × Sends y s s')
  unfolding reboot_pass read
  reboot_pass-lem none runs uptime s = inl (remove-sent s, λ e h. absurd (ground arith))
  reboot_pass-lem (some y) false uptime s = inl (refl, λ e h. h)
  reboot_pass-lem (some y) true uptime s =
      let found = (read c s).0 in
      elim (on_record-lem (recorded y found) y uptime (read c s).1 (recorded-logged y found)) [
        | inl quiet ↦ inl quiet
        | inr (e, sends) ↦ inr (y, refl, read-none y s e, sends)
      ]
