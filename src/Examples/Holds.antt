-- ===== src/Examples/Holds.antt =====
-- A restore of Core's ledger, seen by an agent that acted on revision 7.
use omnuv_provider.Base.{ℕ, ◌≡◌, refl, Bool, true, false, [], ◌∷◌, none, some}
use omnuv_provider.Base.Text.{Text, codes}
use omnuv_provider.Restore.{
  Mode, Head, State, View, ended, read_view, wanted_again, told, observed, observe,
}
use omnuv_provider.Restore.Holding.{observe-stays}
use omnuv_provider.Lease.{running}

abbrev head : Head
head = record { provider = codes "p-1"; revision = 7; mode = none; armed = some true }

abbrev mode : Mode
mode = record { evidence = codes "the ledger went back"; core = none }

abbrev free : State
free = record { armed = true; head = head; disk = none; exists = true }

abbrev held : State
held = record free { head = record head { mode = some mode } }

abbrev view : ℕ → View
view version = record {
  unchanged = false;
  version = version;
  instances = record { id = codes "ab12"; intent = running } ∷ [];
  inference_workers = [];
}

abbrev untorn : Text → Bool
untorn id = false

-- A view below the revision acted on is a history that went back.
detected : (observe true untorn (view 6) none free).0 ≡ true
unfolding observe observed told read_view ended wanted_again
detected = refl

observe-stays_example : (observe true untorn (view 9) none held).0 ≡ true
observe-stays_example = observe-stays true untorn (view 9) none held mode refl refl refl
