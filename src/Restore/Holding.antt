-- ===== src/Restore/Holding.antt =====
-- When the agent may act on a view, in crates/onv-core-link/src/restore.rs.
use omnuv_provider.Base.{◌≡◌, Bool, true, false, ◌&&◌, Option, none, some, arith, is_some, is_none}
use omnuv_provider.Base.Text.{Text}
use omnuv_provider.Restore.{
  Mode, State, kept, load, View, ended, read_view, told, observed, observe, held_at_boot,
}

module _ (saves : Bool) (torn : Text → Bool) (view : View) where
  -- An armed agent in restore mode stays in it whatever Core sends, until Core, having named the
  -- restore, names none.
  pub observe-stays :
      (named : Option Text) (st : State) (m : Mode)
      → st.armed ≡ true
      → st.head.mode ≡ some m
      → (is_none named && is_some m.core) ≡ false
      → (observe saves torn view named st).0 ≡ true
  unfolding observe observed told ended
  observe-stays none st m armed held goes = ground arith
  observe-stays (some id) st m armed held goes = ground arith

  -- An agent that was armed and is started again from the head it kept is held before any Core has
  -- answered exactly if the last view left it in restore mode.
  pub observe-held_at_boot :
      (named : Option Text) (st : State)
      → st.armed ≡ true
      → st.head.armed ≡ some true
      → is_some (held_at_boot (load (kept (observe saves torn view named st).1.head) true))
        ≡ (observe saves torn view named st).0
  unfolding observe observed told read_view ended held_at_boot load
  observe-held_at_boot named st armed bit = ground arith
