-- ===== src/SettingsPage/Save/Split.antt =====
-- How `saveInstanceSettings` divides the entries between the overrides and the removals.
use huntarr.Base.{
  String, false, List, [], ◌∷◌, Option, none, some, if◌then◌else◌, str_eq, eq_iff, ◌≡◌, refl, ◌∙◌,
  arith, All,
}
use huntarr.Settings.Store.Batch.{last_write, after_removal}
use huntarr.SettingsPage.Save.{Entry, split_entries}

-- What both requests together leave under a key.
abbrev pub after_save : List Entry → String → Option String → Option String
after_save es k old =
    let (overrides, removals) = split_entries es in
    after_removal k removals (last_write k overrides old)

-- An override where the value differs from the global one, and none where it is the same.
abbrev pub wanted : Entry → Option String
wanted e = if str_eq e.value e.global then none else some e.value

abbrev pub IsAbsent : String → List Entry → Type 0
IsAbsent k es = All (λ e. str_eq e.key k ≡ false) es

abbrev pub HasKeysOnce : List Entry → Type 0
HasKeysOnce [] = Unit
HasKeysOnce (e ∷ es) = IsAbsent e.key es × HasKeysOnce es

-- A key that no entry has is left alone by either list.
last_write_absent :
    (es : List Entry) (k : String) (old : Option String)
    → IsAbsent k es
    → last_write k (split_entries es).0 old ≡ old
unfolding split_entries last_write
last_write_absent [] k old h = refl
last_write_absent (e ∷ es) k old h = ground (arith, last_write_absent es k old h.1)

after_removal_absent :
    (es : List Entry) (k : String) (old : Option String)
    → IsAbsent k es
    → after_removal k (split_entries es).1 old ≡ old
unfolding split_entries after_removal
after_removal_absent [] k old h = refl
after_removal_absent (e ∷ es) k old h = ground (arith, after_removal_absent es k old h.1)

pub after_save_absent :
    (es : List Entry) (k : String) (old : Option String) → IsAbsent k es → after_save es k old ≡ old
after_save_absent es k old h =
    after_removal_absent es k (last_write k (split_entries es).0 old) h
    ∙ last_write_absent es k old h

-- The head of the list decides its own key, and no other.
after_save_head :
    (e : Entry) (es : List Entry) (old : Option String)
    → IsAbsent e.key es
    → after_save (e ∷ es) e.key old ≡ wanted e
unfolding split_entries last_write after_removal
after_save_head e es old h = ground (
  arith,
  eq_iff e.key e.key,
  last_write_absent es e.key old h,
  last_write_absent es e.key (some e.value) h,
  after_removal_absent es e.key none h,
  after_removal_absent es e.key (some e.value) h,
)

after_save_tail :
    (e e' : Entry) (es : List Entry) (old : Option String)
    → str_eq e'.key e.key ≡ false
    → after_save (e ∷ es) e'.key old ≡ after_save es e'.key old
unfolding split_entries last_write after_removal
after_save_tail e e' es old h = ground (arith, eq_iff e'.key e.key, eq_iff e.key e'.key)

-- What the entries `fs` are promised by a save of `es`.
abbrev pub Saves : List Entry → List Entry → Type 0
Saves es fs = All (λ e. (old : Option String) → after_save es e.key old ≡ wanted e) fs

Saves-cons : (e : Entry) (es fs : List Entry) → IsAbsent e.key fs → Saves es fs → Saves (e ∷ es) fs
Saves-cons e es [] h s = tt
Saves-cons e es (f ∷ fs) h s =
    (λ old. after_save_tail e f es old h.0 ∙ s.0 old, Saves-cons e es fs h.1 s.1)

-- Of entries with different keys each gets what it wants, whatever was stored before.
pub split_entries-Saves : (es : List Entry) → HasKeysOnce es → Saves es es
split_entries-Saves [] h = tt
split_entries-Saves (e ∷ es) h =
    (λ old. after_save_head e es old h.0, Saves-cons e es es h.0 (split_entries-Saves es h.1))
