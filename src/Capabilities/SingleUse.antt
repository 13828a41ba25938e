-- ===== src/Capabilities/SingleUse.antt =====
-- src/credentials/consumedCapabilities.ts: a capability that was used is not used again while its entry
-- is retained: histories of calls, failing writes, restarts of the process and losses of the file.
use confidential_content_pla.Prelude.{
  ℕ, ◌*◌, ◌≡◌, ◌≢◌, refl, some, Bool, true, false, ◌||◌, List, [], ◌∷◌, String, ok, err, ◌⊎◌, inl,
  inr, All, arith,
}
use confidential_content_pla.Prelude.Values.{Number, safe_natural}
use confidential_content_pla.Capabilities.{
  unavailable, absent, World, WriteResult, consume, Outcome,
}
use confidential_content_pla.Capabilities.Decisions.{IsEarly}
use confidential_content_pla.Capabilities.Worlds.{
  Recorded, Known, consume-Recorded, consume-used, consume-first, consume-observed, consume-lost,
}

-- A call, a new process over the same file, and the loss of the file.
pub data Event : Type 0 where
  call : WriteResult → (id : String) → (seconds now : Number) → Event
  restart lose : Event

abbrev pub step : World → Event → World
step w (call o id s n) = (consume o w id s n).0
step w restart = record w { observed_persisted_state = false }
step w lose = record w { file = absent }

abbrev pub run : World → List Event → World
run w [] = w
run w (e ∷ es) = run (step w e) es

abbrev pub is_loss : Event → Bool
is_loss lose = true
is_loss _ = false

abbrev pub is_restart : Event → Bool
is_restart restart = true
is_restart _ = false

abbrev pub any : (Event → Bool) → List Event → Bool
any p [] = false
any p (e ∷ es) = p e || any p es

-- The clock of every call is before the end of the retention.
abbrev pub EarlyCall : ℕ → Event → Type 0
EarlyCall x (call o id s n) = IsEarly x n
EarlyCall x _ = Unit {0}

run-Recorded :
    (id : String) (x : ℕ) (w : World) (es : List Event)
    → All (EarlyCall x) es
    → any is_loss es ≡ false
    → Recorded id x w.file
    → Recorded id x (run w es).file
run-Recorded id x w [] early safe r = r
run-Recorded id x w (call o i s n ∷ es) early safe r =
    run-Recorded id x (consume o w i s n).0 es early.1 safe
      (consume-Recorded id x o w i s n early.0 r)
run-Recorded id x w (restart ∷ es) early safe r =
    run-Recorded id x (step w restart) es early.1 safe r
run-Recorded id x w (lose ∷ es) early safe r = absurd (ground arith)

consume-Known :
    (id : String) (x : ℕ) (o : WriteResult) (w : World) (i : String) (s n : Number)
    → IsEarly x n
    → Known id x w
    → Known id x (consume o w i s n).0
consume-Known id x o w i s n early (seen, inl r) =
    (consume-observed o w i s n seen, inl (consume-Recorded id x o w i s n early r))
consume-Known id x o w i s n early (seen, inr gone) =
    (consume-observed o w i s n seen, inr (consume-lost o w i s n seen gone).1)

run-Known :
    (id : String) (x : ℕ) (w : World) (es : List Event)
    → All (EarlyCall x) es
    → any is_restart es ≡ false
    → Known id x w
    → Known id x (run w es)
run-Known id x w [] early safe k = k
run-Known id x w (call o i s n ∷ es) early safe k =
    run-Known id x (consume o w i s n).0 es early.1 safe (consume-Known id x o w i s n early.0 k)
run-Known id x w (lose ∷ es) early safe k =
    run-Known id x (step w lose) es early.1 safe (k.0, inr refl)
run-Known id x w (restart ∷ es) early safe k = absurd (ground arith)

used-not_first : (r : Outcome Bool) → (r ≡ ok false) ⊎ (r ≡ err unavailable) → r ≢ ok true
used-not_first r (inl h) e = ground arith
used-not_first r (inr h) e = ground arith

Known-refused :
    (id : String) (x : ℕ) (o : WriteResult) (w : World) (s n : Number)
    → Known id x w
    → ((consume o w id s n).1 ≡ ok false) ⊎ ((consume o w id s n).1 ≡ err unavailable)
Known-refused id x o w s n (seen, inl r) = inl (consume-used id x o w s n r)
Known-refused id x o w s n (seen, inr gone) = inr (consume-lost o w id s n seen gone).0

-- Once a call has reported the first use of a capability, no later call reports a first use of it,
-- whatever calls lie between, however their writes end, and whether the process was restarted or the
-- file was lost (but not both), as long as no call between them has a clock past the expiry and the
-- grace.
pub consume_once :
    (o : WriteResult) (w : World) (id : String) (s n : Number) (seconds : ℕ)
    → (consume o w id s n).1 ≡ ok true
    → safe_natural s ≡ some seconds
    → (events : List Event) → All (EarlyCall (seconds * 1_000)) events
    → (any is_loss events ≡ false) ⊎ (any is_restart events ≡ false)
    → (o' : WriteResult) (s' n' : Number)
    → (consume o' (run (consume o w id s n).0 events) id s' n').1 ≢ ok true
consume_once o w id s n seconds first e events early (inl safe) o' s' n' =
    let (r, seen) = consume-first o w id s n seconds first e in
    let after = run (consume o w id s n).0 events in
    used-not_first (consume o' after id s' n').1 (
      inl (
        consume-used id (seconds * 1_000) o' after s' n'
          (run-Recorded id (seconds * 1_000) (consume o w id s n).0 events early safe r)))
consume_once o w id s n seconds first e events early (inr safe) o' s' n' =
    let (r, seen) = consume-first o w id s n seconds first e in
    let after = run (consume o w id s n).0 events in
    used-not_first (consume o' after id s' n').1 (
      Known-refused id (seconds * 1_000) o' after s' n'
        (run-Known id (seconds * 1_000) (consume o w id s n).0 events early safe (seen, inl r)))
