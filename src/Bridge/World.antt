-- ===== src/Bridge/World.antt =====
-- bridge.go: the interfaces `WorkflowGateway` and `ReadyEventAcker`, and calls that change a world.
use gas_city.Prelude.{Str, ◌≡◌, refl, ap}
use gas_city.Errors.{Check, err_not_ok, Result, ok, err}
use gas_city.Contracts.Link.{WorkflowReceipt}
use gas_city.Contracts.Event.{ReadyEvent}
use gas_city.Contracts.Requests.{CloseRequest, WorkflowInput}

-- The rest after a call that answers a value or an error.
abbrev pub and_then {ℓ κ η} :
    {W : Type ℓ} {A : Type κ} {B : Type η} → Result A × W → (A → W → Result B × W) → Result B × W
and_then (ok a, w) k = k a w
and_then (err e, w) k = (err e, w)

pub record StartOrSignalRequest : Type 0 where
  pub workflow_id : Str
  pub event : ReadyEvent
  pub input : WorkflowInput

pub record WorkflowGateway {ℓ} (W : Type ℓ) : Type ℓ where
  pub signal_with_start : StartOrSignalRequest → W → Result WorkflowReceipt × W
  pub signal_close : Str → CloseRequest → W → Check × W

-- `AcknowledgeReadyEvent` of the ReadyEventAcker.
abbrev pub Acker {ℓ} : Type ℓ → Type ℓ
Acker W = Str → W → Check × W

-- A call that answers a value has run to its end.
pub and_then-ok {ℓ κ η} :
    {W : Type ℓ} {A : Type κ} {B : Type η} (m : Result A × W) (k : A → W → Result B × W) {b : B}
    {w : W}
    → and_then m k ≡ (ok b, w)
    → (a : A) × (v : W) × (m ≡ (ok a, v)) × (k a v ≡ (ok b, w))
and_then-ok (ok a, v) k h = (a, v, refl, h)
and_then-ok (err e, v) k h = absurd (err_not_ok (ap (λ p. p.0) h))
