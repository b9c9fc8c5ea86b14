-- ===== src/Activity/Stamps.antt =====
-- How the texts of times decide which entries are listed and pruned.
use huntarr.Base.{
  ℕ, ◌-◌, not, ◌&&◌, ◌||◌, List, [], ◌∷◌, some, if◌then◌else◌, ltb, leb, ◌==◌, Bool-cases, inl, inr,
  ap, ◌∙◌, ◌≡◌, ◌≢◌, refl, arith, All, text_lt,
}
use huntarr.Activity.{
  Stamp, utc, tail_of, stamp_lt, Row, not_before, before, delete_before, Zone, local_clock,
  zone_text, prune,
}

-- A text with a fraction is before one without.
text_lt-tail_of :
    (b : ℕ) (t : Stamp)
    → t.zone ≡ utc
    → text_lt (tail_of t) (tail_of (record { clock = b; nanos = 0; zone = utc }))
      ≡ not (t.nanos == 0)
unfolding text_lt tail_of
text_lt-tail_of b t z = elim (Bool-cases (t.nanos == 0)) [
  | inl e ↦ rw (e, z) (unfold text_lt in refl)
  | inr e ↦ rw e (unfold text_lt in refl)
]

stamp_lt-whole :
    (b : ℕ) (t : Stamp)
    → t.zone ≡ utc
    → stamp_lt t (record { clock = b; nanos = 0; zone = utc })
      ≡ (ltb t.clock b || (t.clock == b && not (t.nanos == 0)))
unfolding stamp_lt
stamp_lt-whole b t z = ap (λ l. ltb t.clock b || (t.clock == b && l)) (text_lt-tail_of b t z)

-- Between two whole seconds, as the Logs page asks for them, the list has the entries that were
-- created after the first second has passed or exactly at its start, and it still has those of the
-- second one, but for its start: an entry that was created within the first second is left out, one
-- within the second one is listed.
pub before-not_before :
    (a b : ℕ) (t : Stamp)
    → t.zone ≡ utc
    → let since : Stamp = record { clock = a; nanos = 0; zone = utc } in
      let until : Stamp = record { clock = b; nanos = 0; zone = utc } in
      (not_before (some since) t ≡ (ltb a t.clock || (a == t.clock && t.nanos == 0)))
      × (before (some until) t ≡ (ltb t.clock b || (t.clock == b && not (t.nanos == 0))))
before-not_before a b t z = (ap not (stamp_lt-whole a t z) ∙ ground arith, stamp_lt-whole b t z)

abbrev pub kept_after : ℕ → List Row → List Row
kept_after c [] = []
kept_after c (r ∷ rows) =
    let rest = kept_after c rows in if leb c r.created_at.clock then r ∷ rest else rest

pub stamp_lt_apart : (s t : Stamp) → s.clock ≢ t.clock → stamp_lt s t ≡ ltb s.clock t.clock
unfolding stamp_lt
stamp_lt_apart s t ne = ground (arith, ne)

delete_before-kept_after :
    (t : Stamp) (rows : List Row)
    → All (λ r. r.created_at.clock ≢ t.clock) rows
    → delete_before t rows ≡ kept_after t.clock rows
unfolding delete_before
delete_before-kept_after t [] h = refl
delete_before-kept_after t (r ∷ rows) h =
    let apart = stamp_lt_apart r.created_at t h.0 in
    let rest = delete_before-kept_after t rows h.1 in rw (apart, rest) (ground arith)

-- Pruning keeps exactly the entries from the local clock time of the cutoff on, although the entries
-- carry the clock of UTC: it is early or late by the offset of the server's zone. No entry has the
-- cutoff's very second here.
pub prune-kept_after :
    (zone : Zone) (now nanos retention : ℕ) (rows : List Row)
    → All (λ r. r.created_at.clock ≢ local_clock zone (now - retention)) rows
    → prune zone now nanos retention rows ≡ kept_after (local_clock zone (now - retention)) rows
unfolding prune
prune-kept_after zone now nanos retention rows h =
    delete_before-kept_after
      (record { clock = local_clock zone (now - retention); nanos = nanos; zone = zone_text zone })
      rows h
