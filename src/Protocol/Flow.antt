-- ===== src/Protocol/Flow.antt =====
-- How a handler of Protocol.cc ends: it returns a value, it rejects the message for a reason, or an
-- exception leaves it. Each end but the last keeps the state that the handler has written.
use uav_omnet.Base.{◌≡◌, refl, ◌⊎◌, inl, inr, Bool, true, false, Option, none, some, Bytes}
use uav_omnet.Core.{FieldId}
use uav_omnet.Wire.{AbortReason, Message}

pub data Flow {ℓ κ} (A : Type ℓ) (S : Type κ) : Type (ℓ ⊔ κ) where
  done : A → S → Flow A S
  stop : AbortReason → S → Flow A S
  fault : Flow A S

-- A `StepResult`: `done none` has no reply.
abbrev pub StepResult {κ} : Type κ → Type κ
StepResult S = Flow (Option Message) S

abbrev pub Handler {ℓ κ} : Type κ → Type ℓ → Type (ℓ ⊔ κ)
Handler S A = S → Flow A S

infixl 5 ◌>>=◌ ◌>>◌
abbrev pub ◌>>=◌ {ℓ κ ι} :
    {S : Type κ} {A : Type ℓ} {B : Type ι} → Handler S A → (A → Handler S B) → Handler S B
◌>>=◌ m f s = elim (m s) [ done a t ↦ f a t | stop r t ↦ stop r t | fault ↦ fault ]

abbrev pub ◌>>◌ {ι κ} : {S : Type κ} {B : Type ι} → Handler S (Unit {0}) → Handler S B → Handler S B
◌>>◌ m k s = elim (m s) [ done a t ↦ k t | stop r t ↦ stop r t | fault ↦ fault ]

module _ {ℓ κ} {S : Type κ} {A : Type ℓ} where
  abbrev pub return : A → Handler S A
  return a s = done a s

  -- `fail(reason)` on an absent value.
  abbrev pub or_abort : Option A → AbortReason → Handler S A
  or_abort (some a) r s = done a s
  or_abort none r s = stop r s

  -- An exception on an absent value.
  abbrev pub or_throw : Option A → Handler S A
  or_throw (some a) s = done a s
  or_throw none s = fault

module _ {κ} {S : Type κ} where
  -- `if (!b) return fail(reason)`.
  abbrev pub require : Bool → AbortReason → Handler S (Unit {0})
  require true r s = done tt s
  require false r s = stop r s

  abbrev pub read : Handler S S
  read s = done s s

  abbrev pub write : S → Handler S (Unit {0})
  write s t = done tt s

  -- A field that the message must have.
  abbrev pub need : Message → FieldId → Handler S Bytes
  need m id = or_abort (m.fields id) AbortReason.missing_field

module _ {ℓ κ} {A : Type ℓ} {S : Type κ} where
  -- Both ends of a handler, with the equation.
  pub Flow-cases :
      (f : Flow A S)
      → ((a : A) × (s : S) × (f ≡ done a s))
        ⊎ ((r : AbortReason) × (s : S) × (f ≡ stop r s))
        ⊎ (f ≡ fault)
  Flow-cases (done a s) = inl (a, s, refl)
  Flow-cases (stop r s) = inr (inl (r, s, refl))
  Flow-cases fault = inr (inr refl)

  -- A property of the state that a handler leaves, however it ends.
  abbrev pub AfterAll {ι} : (S → Type ι) → Flow A S → Type ι
  AfterAll P (done a s) = P s
  AfterAll P (stop r s) = P s
  AfterAll P fault = Unit

  pub AfterAll-intro {ι} :
      (P : S → Type ι) (f : Flow A S)
      → ((a : A) (s : S) → f ≡ done a s → P s)
      → ((r : AbortReason) (s : S) → f ≡ stop r s → P s)
      → AfterAll P f
  AfterAll-intro P (done a s) d r = d a s refl
  AfterAll-intro P (stop reason s) d r = r reason s refl
  AfterAll-intro P fault d r = tt
