-- ===== src/Capabilities/Worlds.antt =====
-- src/credentials/consumedCapabilities.ts: what a call does to the file and to what the process
-- knows of it.
use mathlib.Core.Path.{subst}
use confidential_content_pla.Prelude.{
  ℕ, ◌*◌, ◌≡◌, refl, sym, ap, ◌∙◌, Option, none, some, Bool, true, false, List, [], String, ok, err,
  ◌>>=◌, >>=-eq-ok, ◌⊎◌, arith,
}
use confidential_content_pla.Prelude.Values.{Number, safe_natural}
use confidential_content_pla.Capabilities.{
  ConsumedEntry, unavailable, File, absent, irregular, holds, World, load_file, load, remember,
  decide, is_used, WriteResult, written, not_written, mode_not_set, persisted, settle, consume,
  Outcome,
}
use confidential_content_pla.Capabilities.Entries.{IsLog, read-IsLog, parse-entry_items}
use confidential_content_pla.Capabilities.Decisions.{
  Kept, Kept-used, decide-IsLog, decide-Kept, IsEarly, decide-stays,
}

-- The file can be read, and has an entry for the capability that expires then.
abbrev pub Recorded : String → ℕ → File → Type 0
Recorded id x f = (es : List ConsumedEntry) × (load_file f true ≡ ok es) × Kept id x es

-- What was seen of a file by a process that knows it, any process sees.
load_anyhow :
    (f : File) (b : Bool) (es : List ConsumedEntry)
    → load_file f true ≡ ok es
    → load_file f b ≡ ok es
load_anyhow (holds content) b es h = h
load_anyhow absent b es h = cc h
load_anyhow irregular b es h = cc h

load-IsLog : (f : File) (b : Bool) (es : List ConsumedEntry) → load_file f b ≡ ok es → IsLog es
load-IsLog absent true es h = cc h
load-IsLog absent false es h =
    subst IsLog {x = []} {y = es} (cc h)
      (record { entries_valid = tt; ids_distinct = tt; few = omega arith })
load-IsLog irregular b es h = cc h
load-IsLog (holds content) b es h = read-IsLog content es h

persisted-Recorded :
    (id : String) (x : ℕ) (w : World) (es : List ConsumedEntry)
    → IsLog es
    → Kept id x es
    → Recorded id x (persisted w es).file
persisted-Recorded id x w es l k = (es, parse-entry_items es l, k)

-- Each way that a decision is settled.
settle-Recorded :
    (id : String) (x : ℕ) (o : WriteResult) (w : World) (d : Outcome (Option (List ConsumedEntry)))
    → ((after : List ConsumedEntry) → d ≡ ok (some after) → IsLog after × Kept id x after)
    → Recorded id x w.file
    → Recorded id x (settle o w d).0.file
settle-Recorded id x o w (err e) f r = r
settle-Recorded id x o w (ok none) f r = r
settle-Recorded id x written w (ok (some after)) f r =
    persisted-Recorded id x w after (f after refl).0 (f after refl).1
settle-Recorded id x not_written w (ok (some after)) f r = r
settle-Recorded id x mode_not_set w (ok (some after)) f r =
    persisted-Recorded id x w after (f after refl).0 (f after refl).1

pub consume-Recorded :
    (id : String) (x : ℕ) (o : WriteResult) (w : World) (i : String) (s n : Number)
    → IsEarly x n
    → Recorded id x w.file
    → Recorded id x (consume o w i s n).0.file
unfolding consume
consume-Recorded id x o w i s n early (es, l, k) =
    settle-Recorded id x o (remember w) (load w >>= λ entries. decide entries i s n)
      (λ after h.
        let here : load w ≡ ok es = load_anyhow w.file w.observed_persisted_state es l in
        let h' : decide es i s n ≡ ok (some after) =
          ap (λ r. r >>= λ entries. decide entries i s n) (sym here) ∙ h in
        (
          decide-IsLog es i s n after (load-IsLog w.file true es l) h',
          decide-stays es id i x s n after h' early k,
        ))
      (es, l, k)

decide-used :
    (es : List ConsumedEntry) (id : String) (s n : Number)
    → is_used id es ≡ true
    → decide es id s n ≡ ok none
unfolding decide
decide-used es id s n used = rw used

pub consume-used :
    (id : String) (x : ℕ) (o : WriteResult) (w : World) (s n : Number)
    → Recorded id x w.file
    → (consume o w id s n).1 ≡ ok false
unfolding consume
consume-used id x o w s n (es, l, k) =
    ap (λ r. (settle o (remember w) (r >>= λ entries. decide entries id s n)).1)
      (load_anyhow w.file w.observed_persisted_state es l)
    ∙ ap (λ d. (settle o (remember w) d).1) (decide-used es id s n (Kept-used id x es k))

-- A first use was decided and written.
settle-first :
    (o : WriteResult) (w : World) (d : Outcome (Option (List ConsumedEntry)))
    → (settle o w d).1 ≡ ok true
    → (after : List ConsumedEntry) × (d ≡ ok (some after)) × ((settle o w d).0 ≡ persisted w after)
settle-first o w (err e) h = cc h
settle-first o w (ok none) h = absurd (ground arith)
settle-first written w (ok (some after)) h = (after, refl, refl)
settle-first not_written w (ok (some after)) h = cc h
settle-first mode_not_set w (ok (some after)) h = cc h

-- A process that knows of the file, and the file as it was or lost.
abbrev pub Known : String → ℕ → World → Type 0
Known id x w = (w.observed_persisted_state ≡ true) × (Recorded id x w.file ⊎ (w.file ≡ absent))

pub consume-first :
    (o : WriteResult) (w : World) (id : String) (s n : Number) (seconds : ℕ)
    → (consume o w id s n).1 ≡ ok true
    → safe_natural s ≡ some seconds
    → Recorded id (seconds * 1_000) (consume o w id s n).0.file
      × ((consume o w id s n).0.observed_persisted_state ≡ true)
unfolding consume
consume-first o w id s n seconds h e =
    let (after, d, made) = settle-first o (remember w) (load w >>= λ es. decide es id s n) h in
    let (es, l, h') = >>=-eq-ok (load w) (λ entries. decide entries id s n) d in
    let log = decide-IsLog es id s n after (load-IsLog w.file w.observed_persisted_state es l) h' in
    subst
      (λ (v : World). Recorded id (seconds * 1_000) v.file × (v.observed_persisted_state ≡ true))
      (sym made)
      (
        persisted-Recorded id (seconds * 1_000) (remember w) after log
            (decide-Kept es id s n after seconds h' e),
        refl,
      )

settle-observed :
    (o : WriteResult) (w : World) (d : Outcome (Option (List ConsumedEntry)))
    → w.observed_persisted_state ≡ true
    → (settle o w d).0.observed_persisted_state ≡ true
settle-observed o w (err e) h = h
settle-observed o w (ok none) h = h
settle-observed written w (ok (some after)) h = refl
settle-observed not_written w (ok (some after)) h = h
settle-observed mode_not_set w (ok (some after)) h = refl

pub consume-observed :
    (o : WriteResult) (w : World) (i : String) (s n : Number)
    → w.observed_persisted_state ≡ true
    → (consume o w i s n).0.observed_persisted_state ≡ true
unfolding consume remember
consume-observed o w i s n h =
    settle-observed o (remember w) (load w >>= λ es. decide es i s n) (rw h)

-- A lost file is refused by a process that knew it, and stays lost.
pub consume-lost :
    (o : WriteResult) (w : World) (i : String) (s n : Number)
    → w.observed_persisted_state ≡ true
    → w.file ≡ absent
    → ((consume o w i s n).1 ≡ err unavailable) × ((consume o w i s n).0.file ≡ absent)
unfolding consume load remember
consume-lost o w i s n h f =
    let nothing : load w ≡ err unavailable =
      ap (λ x. load_file x w.observed_persisted_state) f ∙ ap (load_file absent) h in
    (
      ap (λ r. (settle o (remember w) (r >>= λ es. decide es i s n)).1) nothing,
      ap (λ r. (settle o (remember w) (r >>= λ es. decide es i s n)).0.file) nothing ∙ f,
    )
