-- ===== src/SessionCommit/FanOut/Effects/Ensures.antt =====
-- Postconditions of calls that may throw, with one rule for each way to combine them.
use mathlib.Core.Path.{subst}
use patchlab.Common.{◌≡◌, refl, ap, Text, List, Result, ok, err, arith}
use patchlab.SessionCommit.FanOut.Effects.{
  Call, M, pure, call, try_catch, finally, continue, recover, ◌>>=◌,
}

-- Every result that `m` returns satisfies `P`.
pub record Ensures {ℓ κ} {A : Type ℓ} (P : A → Type κ) (m : M A) : Type (ℓ ⊔ κ) where
  pub at : (log : List Call) (a : A) (log' : List Call) → m log ≡ (ok a, log') → P a

module _ {ℓ κ ν} {A : Type ℓ} {B : Type κ} {P : B → Type ν} where
  Ensures-continue :
      (r : Result Text A) (f : A → M B) (log : List Call) (b : B) (log' : List Call)
      → continue r f log ≡ (ok b, log')
      → ((a : A) → r ≡ ok a → Ensures P (f a))
      → P b
  Ensures-continue (ok a) f log b log' h k = (k a refl).at log b log' h
  Ensures-continue (err e) f log b log' h k = cc

  pub Ensures-bind {μ} :
      {Q : A → Type μ} (m : M A) (f : A → M B)
      → Ensures Q m
      → ((a : A) → Q a → Ensures P (f a))
      → Ensures P (m >>= f)
  unfolding ◌>>=◌
  Ensures-bind m f h k = record {
    at = λ log b log' e.
        let (r, log₁) = m log in
        Ensures-continue r f log₁ b log' e (λ a same. k a (h.at log a log₁ (λ i. (same i, log₁))));
  }

module _ {ℓ κ} {A : Type ℓ} {P : A → Type κ} where
  pub Ensures-pure : (a : A) → P a → Ensures P (pure a)
  unfolding pure
  Ensures-pure a h = record { at = λ log b log' e. subst P (ground arith) h }

  pub Ensures-call :
      (c : Call) (answer : Result Text A)
      → ((a : A) → answer ≡ ok a → P a)
      → Ensures P (call c answer)
  unfolding call
  Ensures-call c answer h = record {
    at = λ log a log' e. h a (ap (λ (p : Result Text A × List Call). p.0) e);
  }

  pub Ensures-finally : (c : Call) (m : M A) → Ensures P m → Ensures P (finally c m)
  unfolding finally
  Ensures-finally c m h = record {
    at = λ log a log' e. let (r, log₁) = m log in h.at log a log₁ (λ i. ((e i).0, log₁));
  }

  recover_lem :
      (r : Result Text A) (handler : Text → M A) (log : List Call) (a : A) (log' : List Call)
      → recover r handler log ≡ (ok a, log')
      → ((b : A) → r ≡ ok b → P b)
      → ((e : Text) → Ensures P (handler e))
      → P a
  recover_lem (ok b) handler log a log' h k g = subst P (ground arith) (k b refl)
  recover_lem (err e) handler log a log' h k g = (g e).at log a log' h

  pub Ensures-try_catch :
      (m : M A) (handler : Text → M A)
      → Ensures P m
      → ((e : Text) → Ensures P (handler e))
      → Ensures P (try_catch m handler)
  unfolding try_catch
  Ensures-try_catch m handler h g = record {
    at = λ log a log' e.
        let (r, log₁) = m log in
        recover_lem r handler log₁ a log' e (λ b same. h.at log b log₁ (λ i. (same i, log₁))) g;
  }

pub Ensures-weaken {ℓ κ μ} :
    {A : Type ℓ} {P : A → Type κ} {Q : A → Type μ} (m : M A)
    → ((a : A) → P a → Q a)
    → Ensures P m
    → Ensures Q m
Ensures-weaken m f h = record { at = λ log a log' e. f a (h.at log a log' e) }
