-- ===== src/Reboots/Once.antt =====
-- The reboots of one machine over time: passes of the agent, its deaths inside one, and the tokens
-- that Core names, each named once. A record that cannot be read, or does not parse, is counted.
use omnuv_provider.Base.{
  ℕ, suc, ◌+◌, ◌≤◌, ◌≡◌, ◌⊎◌, refl, Bool, true, false, List, [], ◌∷◌, Option, none, some, arith,
  any, if◌then◌else◌, ◌||◌, inl, inr, Bool-cases, sym, subst, ap, ◌∙◌,
}
use omnuv_provider.Base.Text.{Text, same, same→eq}
use omnuv_provider.Reboots.{Reboot, Calls, Seat, recorded, read, write, post, asked, reboot_pass}
use omnuv_provider.Reboots.Pass.{
  names, logged, Quiet, Sends, write-lem, write-Quiet, asked-token, read-none, read-Same, misread,
  post-lem, reboot_pass-lem,
}

-- How many requests carry the token.
unfoldable pub times : Text → List Text → ℕ
times x [] = 0
times x (t ∷ ts) = (if same t x then 1 else 0) + times x ts

-- One machine's seat, what Core wants of it, the tokens it named, and how many passes found no record
-- because it could not be read.
pub record Story (W : Type 0) : Type 0 where
  pub seat : Seat W
  pub wanted : Option Text
  pub named : List Text
  pub unread : ℕ

abbrev among : Text → List Text → Bool
among x ts = any (λ t. same t x) ts

module _ {W : Type 0} (c : Calls W) where
  -- Core names a new token, or no more; a pass; the agent's death once it has written, or sent;
  -- and what else happens to the world.
  pub data Step (s : Story W) : Story W → Type 0 where
    core_names :
        (token : Text)
        → among token s.named ≡ false
        → Step s (record s { wanted = some token; named = token ∷ s.named })
    core_clears : Step s (record s { wanted = none })
    passes :
        (runs : Bool) (uptime : Option ℕ)
        → Step s (record s {
          seat = (reboot_pass c s.wanted runs uptime s.seat).1;
          unread = s.unread + misread c s.wanted runs s.seat;
        })
    dies_unsent :
        (token : Text)
        → s.wanted ≡ some token
        → recorded token (read c s.seat).0 ≡ none
        → Step s (record s {
          seat = (write c (asked c token (read c s.seat).1) (read c s.seat).1).1;
          unread = s.unread + misread c (some token) true s.seat;
        })
    dies_sent :
        (token : Text)
        → s.wanted ≡ some token
        → recorded token (read c s.seat).0 ≡ none
        → (write c (asked c token (read c s.seat).1) (read c s.seat).1).0 ≡ true
        → Step s (record s {
          seat = (post c token (write c (asked c token (read c s.seat).1) (read c s.seat).1).1).1;
          unread = s.unread + misread c (some token) true s.seat;
        })
    elapses : (w : W) → Step s (record s { seat = record s.seat { world = w } })

  pub data Reached : Story W → Type 0 where
    start :
        (w : W) (journal : Option Reboot)
        → Reached (record {
          seat = record { world = w; journal = journal; sent = [] };
          wanted = none;
          named = [];
          unread = 0;
        })
    later : {s t : Story W} → Reached s → Step s t → Reached t

  module _ (x : Text) where
    -- At most one request, and one for each record that could not be read; of a token not named none; and
    -- that first one for the token wanted only if there is its record.
    abbrev Kept : Story W → Type 0
    Kept s =
        (times x s.seat.sent ≤ suc s.unread)
        × (among x s.named ≡ false → times x s.seat.sent ≡ 0)
        × (names x s.wanted ≡ true
            → logged x s.seat.journal ≡ false
            → times x s.seat.sent ≤ s.unread)
        × (names x s.wanted ≡ true → among x s.named ≡ true)

    unlogged : (a b : Bool) → (a ≡ true → b ≡ true) → b ≡ false → a ≡ false
    unlogged true b f l = absurd (ground (arith, f refl))
    unlogged false b f l = refl

    Quiet-Kept :
        (s : Story W) (t : Seat W) (more : ℕ)
        → Quiet c x (names x s.wanted) s.seat t
        → Kept s
        → Kept (record s { seat = t; unread = s.unread + more })
    Quiet-Kept s t more (sent, stays) (most, unnamed, fresh, known) = rw sent (
      omega (arith, most),
      unnamed,
      λ e l.
          omega
            (arith, fresh e (unlogged (logged x s.seat.journal) (logged x t.journal) (stays e) l)),
      known,
    )

    times-same : (y : Text) (ts : List Text) → same y x ≡ true → times x (y ∷ ts) ≡ 1 + times x ts
    unfolding times
    times-same y ts e = rw e refl

    times-other : (y : Text) (ts : List Text) → same y x ≡ false → times x (y ∷ ts) ≡ times x ts
    unfolding times
    times-other y ts e = rw e (omega arith)

    Sends-Kept :
        (s : Story W) (t : Seat W) (y : Text) (more : ℕ)
        → s.wanted ≡ some y
        → (logged y s.seat.journal ≡ false) ⊎ (more ≡ 1)
        → Sends c x y s.seat t
        → Kept s
        → Kept (record s { seat = t; unread = s.unread + more })
    Sends-Kept s t y more e new (sent, has) (most, unnamed, fresh, known) =
        elim (Bool-cases (same y x)) [
          | inl is ↦
              let wants = ap (names x) e ∙ is in
              let one = ap (times x) sent ∙ times-same y s.seat.sent is in
              (
                elim new [
                  | inl none_there ↦ omega (
                    arith,
                    one,
                    fresh wants
                        (subst (λ z. logged z s.seat.journal ≡ false) (same→eq y x is) none_there),
                  )
                  | inr missed ↦ omega (arith, one, most, missed)
                ],
                λ u. absurd (ground (arith, known wants, u)),
                λ _ l. absurd (ground (arith, has is, l)),
                known,
              )
          | inr other ↦ rw (ap (times x) sent ∙ times-other y s.seat.sent other) (
            omega (arith, most),
            unnamed,
            λ w _. absurd (ground (arith, ap (names x) e ∙ other, w)),
            known,
          )
        ]

    or_false : (a b : Bool) → (a || b) ≡ false → (a ≡ false) × (b ≡ false)
    or_false true b e = absurd (ground arith)
    or_false false b e = (refl, e)

    core_names-Kept :
        (s : Story W) (token : Text)
        → among token s.named ≡ false
        → Kept s
        → Kept (record s { wanted = some token; named = token ∷ s.named })
    core_names-Kept s token new (most, unnamed, fresh, known) = (
      most,
      λ u. unnamed (or_false (same token x) (among x s.named) u).1,
      λ e _. omega (arith, unnamed (subst (λ z. among z s.named ≡ false) (same→eq token x e) new)),
      λ e. rw e refl,
    )

    died_unsent :
        (token : Text) (s : Seat W) (about : Bool)
        → about ≡ same token x
        → Quiet c x about s (write c (asked c token (read c s).1) (read c s).1).1
    died_unsent token s about e =
        let t = (read c s).1 in
        let (sent, journal) = read-Same c x s in
        let (more, stays) =
          subst (λ b. Quiet c x b t (write c (asked c token t) t).1)
            (ap (λ y. same y x) (asked-token c x token t) ∙ sym e)
            (write-Quiet c x (asked c token t) t) in
        (more ∙ sent, λ k h. stays k (subst (λ j. logged x j ≡ true) (sym journal) h))

    died_sent :
        (token : Text) (s : Seat W)
        → (write c (asked c token (read c s).1) (read c s).1).0 ≡ true
        → Sends c x token s (post c token (write c (asked c token (read c s).1) (read c s).1).1).1
    died_sent token s wrote =
        let t = (read c s).1 in
        let (sent, journal) = write-lem c x (asked c token t) t in
        let (more, kept) = post-lem c x token (write c (asked c token t) t).1 in
        (
          more ∙ ap (λ ts. token ∷ ts) (sent ∙ (read-Same c x s).0),
          λ e.
              subst (λ j. logged x j ≡ true)
                (sym (
                  kept
                  ∙ (journal ∙ ap (λ b. if b then some (asked c token t) else t.journal) wrote)))
                (subst (λ y. same y x ≡ true) (sym (asked-token c x token t)) e),
        )

    Step-Kept : {s t : Story W} → Step s t → Kept s → Kept t
    Step-Kept {s} (core_names token new) k = core_names-Kept s token new k
    Step-Kept {s} core_clears (most, unnamed, _, _) =
        (most, unnamed, (λ e. absurd (ground arith)), λ e. absurd (ground arith))
    Step-Kept {s} (passes runs uptime) k = elim (reboot_pass-lem c x s.wanted runs uptime s.seat) [
      | inl quiet ↦
          Quiet-Kept s (reboot_pass c s.wanted runs uptime s.seat).1
            (misread c s.wanted runs s.seat) quiet k
      | inr (y, e, new, sends) ↦
          Sends-Kept s (reboot_pass c s.wanted runs uptime s.seat).1 y
            (misread c s.wanted runs s.seat) e new sends k
    ]
    Step-Kept {s} (dies_unsent token e new) k =
        Quiet-Kept s (write c (asked c token (read c s.seat).1) (read c s.seat).1).1
          (misread c (some token) true s.seat)
          (died_unsent token s.seat (names x s.wanted) (ap (names x) e)) k
    Step-Kept {s} (dies_sent token e new wrote) k =
        Sends-Kept s
          (post c token (write c (asked c token (read c s.seat).1) (read c s.seat).1).1).1 token
          (misread c (some token) true s.seat) e (read-none c x token s.seat new)
          (died_sent token s.seat wrote) k
    Step-Kept {s} (elapses w) k = k

    Reached-Kept : {s : Story W} → Reached s → Kept s
    unfolding times
    Reached-Kept (start w journal) =
        (omega arith, (λ _. refl), (λ e. absurd (ground arith)), λ e. absurd (ground arith))
    Reached-Kept (later r step) = Step-Kept step (Reached-Kept r)

  -- On every run of the agent in which Core names each token anew, at most one request is sent for a
  -- token, and one more for each pass that found no record because it could not be read: a write or a
  -- removal of the record and a request may fail, the agent may die once it has written or sent, the
  -- clock and the uptime read anything, and the file may hold any record at first.
  pub Reached-once : {s : Story W} → Reached s → (x : Text) → times x s.seat.sent ≤ suc s.unread
  Reached-once r x = (Reached-Kept x r).0
