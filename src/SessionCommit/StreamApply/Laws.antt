-- ===== src/SessionCommit/StreamApply/Laws.antt =====
-- When the promise of `stream_apply_from_sandbox` settles, and how.
use patchlab.Common.{
  ◌≡◌, ◌≢◌, refl, Bool, true, false, List, [], ◌∷◌, ◌++◌, arith, anyb, allb, ◌||◌,
}
use patchlab.SessionCommit.StreamApply.{
  Failure, child_error, Promise, pending, resolved, rejected, Children, Event, cat_close,
  apply_close, cat_error, apply_error, rewriter_error, spawned, fail, is_success, settle, handle,
  run,
}

abbrev cat_closes : Event → Bool
cat_closes (cat_close e) = true
cat_closes _ = false

abbrev apply_closes : Event → Bool
apply_closes (apply_close e) = true
apply_closes _ = false

abbrev pub cat_succeeds : Event → Bool
cat_succeeds (cat_close e) = is_success e
cat_succeeds _ = false

abbrev pub apply_succeeds : Event → Bool
apply_succeeds (apply_close e) = is_success e
apply_succeeds _ = false

abbrev is_error : Event → Bool
is_error cat_error = true
is_error apply_error = true
is_error rewriter_error = true
is_error _ = false

-- What the state says of the events so far, where `c` and `a` say whether `cat` and `git apply`
-- have succeeded.
record Knows (c a : Bool) (s : Children) : Type 0 where
  cat : s.cat_closed ≡ true → is_success s.cat_exit ≡ true → c ≡ true
  apply : s.apply_closed ≡ true → is_success s.apply_exit ≡ true → a ≡ true
  both : s.promise ≡ resolved → (c ≡ true) × (a ≡ true)

settle-Knows : (c a : Bool) (s : Children) → Knows c a s → Knows c a (settle s)
unfolding settle fail
settle-Knows c a s k = ground (arith, k.cat, k.apply, k.both)

handle-Knows :
    (c a : Bool) (s : Children) (e : Event)
    → Knows c a s
    → Knows (c || cat_succeeds e) (a || apply_succeeds e) (handle s e)
unfolding handle fail
handle-Knows c a s (cat_close e) k = settle-Knows _ _ _ (ground (arith, k.cat, k.apply, k.both))
handle-Knows c a s (apply_close e) k = settle-Knows _ _ _ (ground (arith, k.cat, k.apply, k.both))
handle-Knows c a s _ k = ground (arith, k.cat, k.apply, k.both)

Knows-weaken :
    {c a c' a' : Bool} (s : Children)
    → (c ≡ true → c' ≡ true)
    → (a ≡ true → a' ≡ true)
    → Knows c a s
    → Knows c' a' s
Knows-weaken s f g k = record {
  cat = λ p q. f (k.cat p q);
  apply = λ p q. g (k.apply p q);
  both = λ p. (f (k.both p).0, g (k.both p).1);
}

run-Knows :
    (c a : Bool) (s : Children) (events : List Event)
    → Knows c a s
    → Knows (c || anyb cat_succeeds events) (a || anyb apply_succeeds events) (run s events)
unfolding run
run-Knows c a s [] k = Knows-weaken s (λ p. ground arith) (λ p. ground arith) k
run-Knows c a s (e ∷ events) k =
    Knows-weaken _ (λ p. ground arith) (λ p. ground arith)
      (run-Knows (c || cat_succeeds e) (a || apply_succeeds e) (handle s e) events
        (handle-Knows c a s e k))

-- The promise resolves only after `cat` and `git apply` have both exited with code 0: a failed
-- exit, a death by a signal or a child that never exits cannot pass for success in any order of
-- events.
pub run-eq-resolved :
    (events : List Event)
    → (run spawned events).promise ≡ resolved
    → (anyb cat_succeeds events ≡ true) × (anyb apply_succeeds events ≡ true)
run-eq-resolved events h = (run-Knows false false spawned events (ground arith)).both h

-- A rejection stands.
settle_final :
    (s : Children) (f : Failure) → s.promise ≡ rejected f → (settle s).promise ≡ rejected f
unfolding settle fail
settle_final s f h = ground arith

handle_final :
    (s : Children) (e : Event) (f : Failure)
    → s.promise ≡ rejected f
    → (handle s e).promise ≡ rejected f
unfolding handle fail
handle_final s (cat_close e) f h = settle_final _ f h
handle_final s (apply_close e) f h = settle_final _ f h
handle_final s _ f h = ground arith

run_final :
    (s : Children) (events : List Event) (f : Failure)
    → s.promise ≡ rejected f
    → (run s events).promise ≡ rejected f
unfolding run
run_final s [] f h = h
run_final s (e ∷ events) f h = run_final (handle s e) events f (handle_final s e f h)

run-append :
    (s : Children) (before after : List Event) → run s (before ++ after) ≡ run (run s before) after
unfolding run
run-append s [] after = refl
run-append s (e ∷ before) after = run-append (handle s e) before after

error_rejects :
    (s : Children) (e : Event)
    → is_error e ≡ true
    → s.promise ≡ pending
    → (handle s e).promise ≡ rejected child_error
unfolding handle fail
error_rejects s e h p = ground arith

run_final_of :
    (s : Children) (e : Event) (events : List Event) (f : Failure)
    → (handle s e).promise ≡ rejected f
    → (run s (e ∷ events)).promise ≡ rejected f
unfolding run
run_final_of s e events f h = run_final (handle s e) events f h

-- An error of a child or of the rewriter that comes while the promise is pending rejects it for
-- good, whatever exits follow.
pub run_error_rejects :
    (before after : List Event) (e : Event)
    → is_error e ≡ true
    → (run spawned before).promise ≡ pending
    → (run spawned (before ++ e ∷ after)).promise ≡ rejected child_error
run_error_rejects before after e h p = rw run-append (
    run_final_of (run spawned before) e after child_error
      (error_rejects (run spawned before) e h p))

record Closes (c a : Bool) (s : Children) : Type 0 where
  cat : c ≡ true → s.cat_closed ≡ true
  apply : a ≡ true → s.apply_closed ≡ true
  settled : s.cat_closed ≡ true → s.apply_closed ≡ true → s.promise ≢ pending

settle-Closes :
    (c a : Bool) (s : Children)
    → (c ≡ true → s.cat_closed ≡ true)
    → (a ≡ true → s.apply_closed ≡ true)
    → Closes c a (settle s)
unfolding settle fail
settle-Closes c a s f g = ground (arith, f, g)

handle-Closes :
    (c a : Bool) (s : Children) (e : Event)
    → Closes c a s
    → Closes (c || cat_closes e) (a || apply_closes e) (handle s e)
unfolding handle fail
handle-Closes c a s (cat_close e) k = settle-Closes _ _ _ (λ p. refl) (ground (arith, k.apply))
handle-Closes c a s (apply_close e) k = settle-Closes _ _ _ (ground (arith, k.cat)) (λ p. refl)
handle-Closes c a s _ k = ground (arith, k.cat, k.apply, k.settled)

run-Closes :
    (c a : Bool) (s : Children) (events : List Event)
    → Closes c a s
    → Closes (c || anyb cat_closes events) (a || anyb apply_closes events) (run s events)
unfolding run
run-Closes c a s [] k = record {
  cat = λ p. k.cat (ground arith);
  apply = λ p. k.apply (ground arith);
  settled = k.settled;
}
run-Closes c a s (e ∷ events) k =
    let r =
      run-Closes (c || cat_closes e) (a || apply_closes e) (handle s e) events
        (handle-Closes c a s e k) in
    record {
      cat = λ p. r.cat (ground arith);
      apply = λ p. r.apply (ground arith);
      settled = r.settled;
    }

-- Once both children have exited, in whatever order and with whatever codes, the promise is settled.
pub run_settles :
    (events : List Event)
    → anyb cat_closes events ≡ true
    → anyb apply_closes events ≡ true
    → (run spawned events).promise ≢ pending
run_settles events p q =
    let r = run-Closes false false spawned events (ground arith) in r.settled (r.cat p) (r.apply q)

-- Both exits succeed, and there is nothing else.
record AllGood (s : Children) : Type 0 where
  cat : s.cat_closed ≡ true → is_success s.cat_exit ≡ true
  apply : s.apply_closed ≡ true → is_success s.apply_exit ≡ true
  unfailed : (f : Failure) → s.promise ≢ rejected f

settle-AllGood : (s : Children) → AllGood s → AllGood (settle s)
unfolding settle fail
settle-AllGood s k = record {
  cat = ground (arith, k.cat, k.apply);
  apply = ground (arith, k.cat, k.apply);
  unfailed = λ f. ground (arith, k.cat, k.apply, k.unfailed f);
}

handle-AllGood :
    (s : Children) (e : Event)
    → (cat_succeeds e || apply_succeeds e) ≡ true
    → AllGood s
    → AllGood (handle s e)
unfolding handle
handle-AllGood s (cat_close e) h k =
    settle-AllGood _ (record { cat = λ _. ground arith; apply = k.apply; unfailed = k.unfailed })
handle-AllGood s (apply_close e) h k =
    settle-AllGood _ (record { cat = k.cat; apply = λ _. ground arith; unfailed = k.unfailed })
handle-AllGood s _ h k = cc

run-AllGood :
    (s : Children) (events : List Event)
    → allb (λ e. cat_succeeds e || apply_succeeds e) events ≡ true
    → AllGood s
    → AllGood (run s events)
unfolding run
run-AllGood s [] h k = k
run-AllGood s (e ∷ events) h k =
    run-AllGood (handle s e) events (ground arith) (handle-AllGood s e (ground arith) k)

resolved_of_settled : (p : Promise) → p ≢ pending → ((f : Failure) → p ≢ rejected f) → p ≡ resolved
resolved_of_settled pending h k = absurd (h refl)
resolved_of_settled resolved h k = refl
resolved_of_settled (rejected f) h k = absurd (k f refl)

-- Where both children exit, and every event is an exit with code 0, the promise resolves.
pub run_resolves :
    (events : List Event)
    → anyb cat_closes events ≡ true
    → anyb apply_closes events ≡ true
    → allb (λ e. cat_succeeds e || apply_succeeds e) events ≡ true
    → (run spawned events).promise ≡ resolved
run_resolves events p q good =
    let k =
      run-AllGood spawned events good
        (record { cat = λ h. cc; apply = λ h. cc; unfailed = λ f. cc }) in
    resolved_of_settled _ (run_settles events p q) k.unfailed
