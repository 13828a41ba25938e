-- ===== src/KeyStore/States.antt =====
-- src/providers/veniceKeyStore.ts: a store agrees with its file. What the file says is the overlay in
-- effect, before and after each call.
use mathlib.Core.Path.{subst}
use confidential_content_pla.Prelude.{
  ◌≡◌, refl, sym, ap, ◌∙◌, Option, none, some, Bool, true, ◌&&◌, List, if◌then◌else◌, ok, err,
  subst_ok, Bool-cases, inl, inr, arith,
}
use confidential_content_pla.Prelude.Values.{Json}
use confidential_content_pla.KeyStore.{
  VeniceKey, KeysetOverlay, empty_overlay, unavailable, Outcome, read_overlay,
}
use confidential_content_pla.KeyStore.Store.{
  Stat, File, absent, hidden, there, Store, same_stat, adopt, refresh_from, refresh, new_store,
}
use confidential_content_pla.KeyStore.Overlays.{IsOverlay}
use confidential_content_pla.KeyStore.Parsing.{read_overlay-IsOverlay}

-- The overlay that the file says; a process that never saw the file takes none.
abbrev pub said : (observed : Bool) → File → Outcome KeysetOverlay
said observed absent = if observed then err unavailable else ok empty_overlay
said observed hidden = err unavailable
said observed (there stat content) = read_overlay content

abbrev pub is_current : Store → Stat → Bool
is_current s stat = s.loaded && same_stat s.loaded_stat stat

abbrev pub Coherent : Store → Type 0
Coherent s =
    (stat : Stat) (content : Option Json)
    → s.file ≡ there stat content
    → is_current s stat ≡ true
    → read_overlay content ≡ ok s.overlay

-- The overlay is well formed, and it is the file's whenever the file looks unchanged.
pub record IsSound (s : Store) : Type 0 where
  pub overlay_valid : IsOverlay s.overlay
  pub coherent : Coherent s

-- A sound store with these boot keys, whose file says this overlay.
abbrev pub Stands : Store → List VeniceKey → KeysetOverlay → Type 0
Stands s boot o = IsSound s × (s.boot_keys ≡ boot) × (said s.observed_overlay s.file ≡ ok o)

pub empty-IsOverlay : IsOverlay empty_overlay
empty-IsOverlay = record {
  keys = tt;
  added_distinct = tt;
  removed_valid = tt;
  removed_distinct = tt;
  apart = tt;
}

pub new_store-IsSound : (boot : List VeniceKey) (file : File) → IsSound (new_store boot file)
unfolding new_store
new_store-IsSound boot file = record {
  overlay_valid = empty-IsOverlay;
  coherent = λ stat content e c. absurd (ground arith);
}

pub there_content : (s t : Stat) (c d : Option Json) → there s c ≡ there t d → c ≡ d
there_content s t c d e = cc e

absent-not_there :
    (s : Store) (t : Stat) (c : Option Json) → s.file ≡ absent → s.file ≡ there t c → ⊥
absent-not_there s t c e f = ground arith

-- The two ways to load: nothing is there yet, or the text is read.
empty_loaded :
    (s : Store)
    → s.file ≡ absent
    → IsSound (record s { overlay = empty_overlay; loaded_stat = none; loaded = true })
empty_loaded s e = record {
  overlay_valid = empty-IsOverlay;
  coherent = λ stat content f c. absurd (absent-not_there s stat content e f);
}

read_loaded :
    (s : Store) (stat : Stat) (content : Option Json) (o : KeysetOverlay)
    → s.file ≡ there stat content
    → read_overlay content ≡ ok o
    → IsSound
        (record s { observed_overlay = true; overlay = o; loaded_stat = some stat; loaded = true })
read_loaded s stat content o e r = record {
  overlay_valid = read_overlay-IsOverlay content o r;
  coherent = λ t d f c. ap read_overlay (sym (there_content stat t content d (sym e ∙ f))) ∙ r;
}

-- What a refresh gives when the file can be read.
pub record Refreshed (s : Store) (boot : List VeniceKey) (o : KeysetOverlay)
    (r : Store × Outcome (Unit {0})) : Type 0 where
  pub fine : r.1 ≡ ok tt
  pub current : r.0.overlay ≡ o
  pub stands : Stands r.0 boot o

refresh_absent :
    (s : Store) (boot : List VeniceKey) (o : KeysetOverlay)
    → s.file ≡ absent
    → s.boot_keys ≡ boot
    → said s.observed_overlay absent ≡ ok o
    → Refreshed s boot o (refresh_from s absent)
refresh_absent s boot o e b h = elim (Bool-cases s.observed_overlay) [
  | inl known ↦ absurd (ground arith)
  | inr unknown ↦
      let s' = record s { overlay = empty_overlay; loaded_stat = none; loaded = true } in
      let same : empty_overlay ≡ o = ground arith in
      let made : Refreshed s boot o (s', ok tt) = record {
        fine = refl;
        current = same;
        stands = (empty_loaded s e, b, ap (said s.observed_overlay) e ∙ h);
      } in
      subst (Refreshed s boot o)
        (ap (λ c. if c then (s, err unavailable) else (s', ok tt)) (sym unknown)) made
]

refresh_there :
    (s : Store) (boot : List VeniceKey) (o : KeysetOverlay) (stat : Stat) (content : Option Json)
    → s.file ≡ there stat content
    → IsSound s
    → s.boot_keys ≡ boot
    → read_overlay content ≡ ok o
    → Refreshed s boot o (refresh_from s (there stat content))
refresh_there s boot o stat content e v b h = elim (Bool-cases (is_current s stat)) [
  | inl hit ↦
      let s' = record s { observed_overlay = true } in
      let same : s.overlay ≡ o =
        subst_ok (λ p. s.overlay ≡ p) s.overlay o (sym (v.coherent stat content e hit) ∙ h) refl in
      let made : Refreshed s boot o (s', ok tt) = record {
        fine = refl;
        current = same;
        stands = (
          record { overlay_valid = v.overlay_valid; coherent = v.coherent },
          b,
          ap (said true) e ∙ h,
        );
      } in
      subst (Refreshed s boot o)
        (ap (λ c. if c then (s', ok tt) else adopt s' stat (read_overlay content)) (sym hit)) made
  | inr miss ↦
      let s' = record s { observed_overlay = true } in
      let made : Refreshed s boot o (adopt s' stat (ok o)) = record {
        fine = refl;
        current = refl;
        stands = (read_loaded s stat content o e h, b, ap (said true) e ∙ h);
      } in
      subst (Refreshed s boot o)
        (ap (adopt s' stat) (sym h)
          ∙ ap (λ c. if c then (s', ok tt) else adopt s' stat (read_overlay content)) (sym miss))
        made
]

refresh_from-Refreshed :
    (s : Store) (f : File) (boot : List VeniceKey) (o : KeysetOverlay)
    → s.file ≡ f
    → IsSound s
    → s.boot_keys ≡ boot
    → said s.observed_overlay f ≡ ok o
    → Refreshed s boot o (refresh_from s f)
refresh_from-Refreshed s absent boot o e v b h = refresh_absent s boot o e b h
refresh_from-Refreshed s hidden boot o e v b h = absurd (ground arith)
refresh_from-Refreshed s (there stat content) boot o e v b h =
    refresh_there s boot o stat content e v b h

-- A refresh takes over what the file says.
pub refresh_lem :
    (s : Store) (boot : List VeniceKey) (o : KeysetOverlay)
    → Stands s boot o
    → Refreshed s boot o (refresh s)
unfolding refresh
refresh_lem s boot o (v, b, h) = refresh_from-Refreshed s s.file boot o refl v b h
