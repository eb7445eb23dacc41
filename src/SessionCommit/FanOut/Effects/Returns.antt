-- ===== src/SessionCommit/FanOut/Effects/Returns.antt =====
-- Calls that return whatever came before, with one rule for each way to combine them.
use patchlab.Common.{◌≡◌, refl, Text, List, ◌∷◌, ◌∙◌, Result, ok, err, ap}
use patchlab.SessionCommit.FanOut.Effects.{
  Call, M, pure, call, note, try_catch, finally, continue, recover, ◌>>=◌,
}

-- `m` throws nothing.
pub record Returns {ℓ} {A : Type ℓ} (m : M A) : Type ℓ where
  pub at : (log : List Call) → (a : A) × (log' : List Call) × (m log ≡ (ok a, log'))

module _ {ℓ κ} {A : Type ℓ} {B : Type κ} where
  continue_lem :
      (p : Result Text A × List Call) (f : A → M B) (a : A) (log : List Call)
      → p ≡ (ok a, log)
      → ((a : A) → Returns (f a))
      → (b : B) × (log' : List Call) × (continue p.0 f p.1 ≡ (ok b, log'))
  continue_lem p f a log e g =
      let (b, log', k) = (g a).at log in
      (b, log', ap (λ (q : Result Text A × List Call). continue q.0 f q.1) e ∙ k)

  pub Returns-bind :
      (m : M A) (f : A → M B) → Returns m → ((a : A) → Returns (f a)) → Returns (m >>= f)
  unfolding ◌>>=◌
  Returns-bind m f h g = record {
    at = λ log. let (a, log', e) = h.at log in continue_lem (m log) f a log' e g;
  }

module _ {ℓ} {A : Type ℓ} where
  pub Returns-pure : (a : A) → Returns (pure a)
  unfolding pure
  Returns-pure a = record { at = λ log. (a, log, refl) }

  pub Returns-call :
      (c : Call) (answer : Result Text A) (a : A) → answer ≡ ok a → Returns (call c answer)
  unfolding call
  Returns-call c answer a e = record { at = λ log. (a, _, λ i. (e i, c ∷ log)) }

  pub Returns-finally : (c : Call) (m : M A) → Returns m → Returns (finally c m)
  unfolding finally
  Returns-finally c m h = record {
    at = λ log. let (a, log', e) = h.at log in (a, c ∷ log', λ i. ((e i).0, c ∷ (e i).1));
  }

  recover_lem :
      (r : Result Text A) (handler : Text → M A) (log : List Call)
      → ((e : Text) → Returns (handler e))
      → (a : A) × (log' : List Call) × (recover r handler log ≡ (ok a, log'))
  recover_lem (ok a) handler log h = (a, log, refl)
  recover_lem (err e) handler log h = (h e).at log

  -- A handler that throws nothing catches all.
  pub Returns-try_catch :
      (m : M A) (handler : Text → M A)
      → ((e : Text) → Returns (handler e))
      → Returns (try_catch m handler)
  unfolding try_catch
  Returns-try_catch m handler h = record {
    at = λ log. let (r, log') = m log in recover_lem r handler log' h;
  }

pub Returns-note : (c : Call) → Returns (note c)
unfolding note
Returns-note c = record { at = λ log. (tt, c ∷ log, refl) }
