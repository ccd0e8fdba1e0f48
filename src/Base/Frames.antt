-- ===== src/Base/Frames.antt =====
-- Calls that leave a view of the state as it is, and the ways in which calls are put together.
use roki_mb_daemon.Base.Effects.{Outcome, ok, throw, fault, hang, Exec, resume, then_do}
use mathlib.Core.Path.{◌≡◌, refl, ◌∙◌}
use mathlib.Core.Bool.{Bool, true, false}
use roki_mb_daemon.Base.Tests.{if◌then◌else◌}

module _ {S X : Type 0} (view : S → X) where
  abbrev pub Keeps : {A : Type 0} → Exec S A → Type 0
  Keeps m = (s : S) → view (m s).1 ≡ view s

  pub resume-Keeps :
      {A B : Type 0} (r : Outcome A) (f : A → Exec S B)
      → ((a : A) → Keeps (f a))
      → Keeps (resume r f)
  resume-Keeps (ok a) f k s = k a s
  resume-Keeps (throw e) f k s = refl
  resume-Keeps fault f k s = refl
  resume-Keeps hang f k s = refl

  pub then_do-Keeps :
      {A B : Type 0} (m : Exec S A) (f : A → Exec S B)
      → Keeps m
      → ((a : A) → Keeps (f a))
      → Keeps (then_do m f)
  then_do-Keeps m f k l s = resume-Keeps (m s).0 f l (m s).1 ∙ k s

  pub if-Keeps :
      {A : Type 0} (b : Bool) (x y : A × S) (v : X)
      → view x.1 ≡ v
      → view y.1 ≡ v
      → view (if b then x else y).1 ≡ v
  if-Keeps true x y v h k = h
  if-Keeps false x y v h k = k
