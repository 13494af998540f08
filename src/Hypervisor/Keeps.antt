-- ===== src/Hypervisor/Keeps.antt =====
-- A property of the run that a call keeps, whatever it answers: one rule for each way the calls of
-- the agent are built.
use omnuv_provider.Base.{◌≡◌, refl, Bool, true, false, List, ◌∷◌, if◌then◌else◌}
use omnuv_provider.Hypervisor.{Answer, ok, fault, Run, Call, Event, continue, ◌>>=◌, ask, noted}

-- Whatever is asked, the run keeps the property.
abbrev pub Keeps : {W A : Type 0} → (List Event → Type 0) → Call W A → Type 0
Keeps {W} P m = (r : Run W) → P r.trace → P (m r).1.trace

module _ {W : Type 0} (P : List Event → Type 0) where
  pub Keeps-bind :
      {A B : Type 0} (m : Call W A) (f : A → Call W B)
      → Keeps P m
      → ((a : A) → Keeps P (f a))
      → Keeps P (m >>= f)
  Keeps-bind {A} {B} m f km kf r h = go (m r).0 (m r).1 (km r h)
    where
      go : (a : Answer A) (r' : Run W) → P r'.trace → P (continue a f r').1.trace
      go (ok a) r' k = kf a r' k
      go (fault e) r' k = k

  pub Keeps-ask : {A : Type 0} (f : W → Answer A × W) → Keeps P (ask f)
  Keeps-ask f r h = h

  pub Keeps-noted :
      {A : Type 0} (e : Answer A → Event) (f : W → Answer A × W)
      → ((a : Answer A) (t : List Event) → P t → P (e a ∷ t))
      → Keeps P (noted e f)
  Keeps-noted e f k r h = k (f r.world).0 r.trace h

  pub Keeps-if :
      {A : Type 0} (b : Bool) (m n : Call W A)
      → Keeps P m
      → Keeps P n
      → Keeps P (if b then m else n)
  Keeps-if true m n km kn = km
  Keeps-if false m n km kn = kn

-- An action that ended well, taken apart: its first part's answer, and the rest on it.
pub >>=-eq-ok :
    {W A B : Type 0} (m : Call W A) (f : A → Call W B) (r : Run W) {b : B}
    → ((m >>= f) r).0 ≡ ok b
    → (a : A) × ((m r).0 ≡ ok a) × ((f a (m r).1).0 ≡ ok b) × ((m >>= f) r ≡ f a (m r).1)
>>=-eq-ok {W} {A} {B} m f r {b} = go (m r).0 (m r).1
  where
    go :
        (x : Answer A) (r' : Run W)
        → (continue x f r').0 ≡ ok b
        → (a : A) × (x ≡ ok a) × ((f a r').0 ≡ ok b) × (continue x f r' ≡ f a r')
    go (ok a) r' h = (a, refl, h, refl)
    go (fault e) r' h = cc
