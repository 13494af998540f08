-- ===== src/Residues.antt =====
-- src/teardown.rs: old tombstones removed after a look (`reap_tombstones`), residues looked for again
-- on every pass (`retry_residues`), and the word a teardown sends to Core (`said`, `outcome`).
use omnuv_provider.Base.{
  ℕ, ◌-◌, ◌+◌, Bool, true, false, ◌&&◌, List, [], ◌∷◌, none, some, if◌then◌else◌, is_empty, leb,
}
use omnuv_provider.Base.Text.{Text}
use omnuv_provider.Hypervisor.{Answer, ok, fault, Api, Run, Call, pure, ◌>>=◌, attempt}
use omnuv_provider.Leased.{claimed_guests}
use omnuv_provider.Leftover.{volume_left}
use omnuv_provider.Tombs.{
  Tombstone, Journal, Gone, proven, residue_left, not_yet, tomb_file, push_new,
}

-- Proven before the cutoff, with no residue.
abbrev pub is_old : ℕ → Tombstone → Bool
is_old cutoff t = is_empty t.residue && elim t.proven_at [ none ↦ false | some p ↦ leb p cutoff ]

-- The tombstones in turn; `remove` deletes one's file, if it can.
module _ {W D : Type 0} (api : Api W) (remove : Text → D → Bool × D) where
  unfoldable pub reap_found : Answer Bool → Tombstone → D → ℕ × D
  reap_found (fault e) t d = (0, d)
  reap_found (ok false) t d = (0, d)
  reap_found (ok true) t d =
      let (removed, d') = remove (tomb_file t.id) d in (if removed then 1 else 0, d')

  unfoldable pub reap_one : ℕ → Tombstone → D → Run W → ℕ × D × Run W
  reap_one cutoff t d r =
      let (found, r') = (claimed_guests api t.claim t.id >>= λ left. pure (is_empty left)) r in
      let (n, d') = reap_found found t d in if is_old cutoff t then (n, d', r') else (0, d, r)

  unfoldable pub reap_each : ℕ → List Tombstone → D → Run W → ℕ × D × Run W
  reap_each cutoff [] d r = (0, d, r)
  reap_each cutoff (t ∷ ts) d r =
      let (n, d', r') = reap_one cutoff t d r in
      let (k, d'', r'') = reap_each cutoff ts d' r' in (n + k, d'', r'')

  -- `keep` in seconds, before now.
  unfoldable pub reap_tombstones : ℕ → ℕ → List Tombstone → D → Run W → ℕ × D × Run W
  reap_tombstones now keep ts d r =
      if leb keep now then reap_each (now - keep) ts d r else (0, d, r)

module _ {W D : Type 0} (api : Api W) (j : Journal D) where
  -- A tombstone's residue looked for again: what is still there, and what is gone.
  unfoldable pub look_again : Text → List Text → Call W (List Text × List Text)
  look_again node [] = pure ([], [])
  look_again node (v ∷ vs) = attempt (volume_left api node v) >>= λ a.
      look_again node vs >>= λ found. pure (elim a [
        | fault e ↦ (v ∷ found.0, found.1)
        | ok b ↦ if b then (v ∷ found.0, found.1) else (found.0, v ∷ found.1)
      ])

  -- The tombstone after a look, written when some of its residue is gone.
  unfoldable pub retried : Tombstone → List Text × List Text → D → Tombstone × D
  retried t found d =
      let t' = record t { residue = found.0; residue_gone = push_new t.residue_gone found.1 } in
      if is_empty found.1 then (t, d) else (t', (j.save (tomb_file t.id) t' d).1)

  unfoldable pub retry_one : Tombstone → D → Run W → Tombstone × D × Run W
  retry_one t d r = elim t.node [
    | none ↦ (t, d, r)
    | some node ↦
        let (a, r') = look_again node t.residue r in
        if is_empty t.residue then (t, d, r) else elim a [
          | fault e ↦ (t, d, r')
          | ok found ↦ let (t', d') = retried t found d in (t', d', r')
        ]
  ]

-- The typed outcome: deleted, with a residue, not proven, or no conclusion.
pub data Outcome : Type 0 where
  deleted deleted_with_residue not_proven_gone no_conclusion : Outcome

-- `is_valid` is the protocol's grammar of a residue.
unfoldable pub outcome : (List Text → Bool) → Gone → Outcome × List Text
outcome is_valid proven = (deleted, [])
outcome is_valid (residue_left vs) =
    if is_valid vs then (deleted_with_residue, vs) else (no_conclusion, [])
outcome is_valid (not_yet bs) = (not_proven_gone, [])
