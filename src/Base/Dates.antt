-- ===== src/Base/Dates.antt =====
-- Optional bounds on a day: a missing bound does not bound.
use enterprise_management.Base.Tests.{is_after, is_before}
use Prim.Native.Nat.{ℕ, ◌≤◌}
use mathlib.Core.Path.{◌≡◌, refl}
use mathlib.Core.Logic.{◌↔◌}
use mathlib.Core.Bool.{false}
use mathlib.Core.Option.{Option, none, some}
use native.Mathlib.Omega.{arith}

abbrev pub StartedBy : Option ℕ → ℕ → Type 0
StartedBy none day = Unit {0}
StartedBy (some bound) day = bound ≤ day

abbrev pub NotOverBy : Option ℕ → ℕ → Type 0
NotOverBy none day = Unit {0}
NotOverBy (some bound) day = day ≤ bound

pub is_after-StartedBy : (b : Option ℕ) (day : ℕ) → (is_after b day ≡ false) ↔ StartedBy b day
is_after-StartedBy none day = (λ h. tt, λ h. refl)
is_after-StartedBy (some b) day = (λ h. ground arith, λ h. ground arith)

pub is_before-NotOverBy : (b : Option ℕ) (day : ℕ) → (is_before b day ≡ false) ↔ NotOverBy b day
is_before-NotOverBy none day = (λ h. tt, λ h. refl)
is_before-NotOverBy (some b) day = (λ h. ground arith, λ h. ground arith)
