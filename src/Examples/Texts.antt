-- ===== src/Examples/Texts.antt =====
-- Names, durations and privileges at concrete texts.
use omnuv_provider.Base.{◌≡◌, refl, ◌↔◌, true, [], ◌∷◌, none, any, arith}
use omnuv_provider.Base.Text.{same, split, is_space}
use omnuv_provider.Names.{tag_instance, tags, semicolon, carries_key}
use omnuv_provider.Names.Keys.{carries_key-tags}
use omnuv_provider.Dur.{from_str, display, ok}
use omnuv_provider.Dur.RoundTrip.{from_str-display}
use omnuv_provider.Hypervisor.{Answer}
use omnuv_provider.Privileges.{
  Permissions, buyers_path, privileges, probe, as_it_should, only_ours, holds_both,
  probe-as_it_should,
}
use omnuv_provider.Examples.Host.{machine_id}

carries_key-tags_example :
    (any (same tag_instance) (split semicolon (tags tag_instance machine_id none)) ≡ true)
    × (carries_key (tags tag_instance machine_id none) machine_id ≡ true)
unfolding is_space
carries_key-tags_example = carries_key-tags tag_instance machine_id none refl refl

from_str-display_example : from_str (display 90_000) ≡ ok 90_000
from_str-display_example = from_str-display 90_000 (omega arith)

abbrev held : Permissions
held = (buyers_path, privileges) ∷ []

probe-as_it_should_example :
    probe (Answer.ok held) ≡ as_it_should ↔ (only_ours held ≡ true) × (holds_both held ≡ true)
probe-as_it_should_example = probe-as_it_should held
