-- ===== src/Leftover/Spared.antt =====
-- Which volumes a teardown leaves alone, in `volume_left` of src/teardown.rs.
use omnuv_provider.Base.{ℕ, suc, List, [], ◌∷◌}
use omnuv_provider.Base.Text.{Text}
use omnuv_provider.Hypervisor.{
  Event, read_config, read_status, listed, announced, sent_stop, sent_destroy, sent_remove,
}

-- How many removals of volumes a trace has.
abbrev pub removals : List Event → ℕ
removals [] = 0
removals (sent_remove n v ∷ rest) = suc (removals rest)
removals (sent_destroy n v ∷ rest) = removals rest
removals (sent_stop n v ∷ rest) = removals rest
removals (read_config n v a ∷ rest) = removals rest
removals (read_status n v a ∷ rest) = removals rest
removals (listed n a ∷ rest) = removals rest
removals (announced n v ∷ rest) = removals rest
