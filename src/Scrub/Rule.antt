-- ===== src/Scrub/Rule.antt =====
-- What a pass over scrubs, in src/scrub.rs, may stop and destroy.
use omnuv_provider.Base.{ℕ, ◌≡◌, ◌⊎◌, true, List, [], ◌∷◌, is_some}
use omnuv_provider.Base.Text.{Text}
use omnuv_provider.Names.{tag_scrub}
use omnuv_provider.Hypervisor.{
  ok, fault, Event, read_config, read_status, listed, announced, sent_stop, sent_destroy,
  sent_remove, Config,
}
use omnuv_provider.Leased.{has_stamp}
use omnuv_provider.Teardown.Destroys.{SaidStopped}
use omnuv_provider.Scrub.{scrub_of}

-- The first line of the description is a scrub's stamp.
abbrev pub Marked : Config → Type 0
Marked c = (is_some (scrub_of c) ≡ true) ⊎ ((id : Text) × (has_stamp tag_scrub id c ≡ true))

-- Some reading of the guest's configuration had the whole stamp of a scrub.
abbrev pub Stamped : Text → ℕ → List Event → Type 0
Stamped n v [] = ⊥
Stamped n v (read_config m w (ok c) ∷ rest) = ((m ≡ n) × (w ≡ v) × Marked c) ⊎ Stamped n v rest
Stamped n v (read_config m w (fault e) ∷ rest) = Stamped n v rest
Stamped n v (sent_destroy m w ∷ rest) = Stamped n v rest
Stamped n v (sent_stop m w ∷ rest) = Stamped n v rest
Stamped n v (sent_remove m w ∷ rest) = Stamped n v rest
Stamped n v (read_status m w a ∷ rest) = Stamped n v rest
Stamped n v (listed m a ∷ rest) = Stamped n v rest
Stamped n v (announced m w ∷ rest) = Stamped n v rest

-- A stop of it was just sent.
abbrev pub StopSent : Text → ℕ → List Event → Type 0
StopSent n v (sent_stop m w ∷ rest) = (m ≡ n) × (w ≡ v)
StopSent n v _ = ⊥

-- Every guest that is stopped or destroyed had a scrub's stamp when its configuration was read before, and
-- one is destroyed only when its node, asked just before, said it is stopped, or a stop was just sent.
abbrev pub ScrubsOnly : List Event → Type 0
ScrubsOnly [] = Unit {0}
ScrubsOnly (sent_destroy n v ∷ rest) =
    (SaidStopped n v rest ⊎ StopSent n v rest) × Stamped n v rest × ScrubsOnly rest
ScrubsOnly (sent_stop n v ∷ rest) = Stamped n v rest × ScrubsOnly rest
ScrubsOnly (sent_remove m w ∷ rest) = ScrubsOnly rest
ScrubsOnly (read_config m w a ∷ rest) = ScrubsOnly rest
ScrubsOnly (read_status m w a ∷ rest) = ScrubsOnly rest
ScrubsOnly (listed m a ∷ rest) = ScrubsOnly rest
ScrubsOnly (announced m w ∷ rest) = ScrubsOnly rest
