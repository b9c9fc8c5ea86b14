-- ===== src/LogViewer/Details/Logged.antt =====
-- What the Logs page shows of the entry that a search cycle logs: web/static/js/logs.js for
-- internal/scheduler/scheduler.go.
use Prim.Native.String
use huntarr.Base.{
  ℕ, String, Bool, true, false, not, List, [], ◌∷◌, ◌++◌, some, if◌then◌else◌, str_eq, pos, map,
  length, ◌≡◌, ◌⊎◌, inl, inr, refl, sym, ap, ◌∙◌, arith, if_rule, decimal, str_eq→eq, lookup,
}
use huntarr.Json.{Json, text, string_of, or_empty}
use huntarr.LogViewer.Details.{
  Link, searched_item_link, links_of, links_with, searched_item_links, item_link, detail,
  format_details, has_details,
}
use huntarr.Settings.Values.{Resolved}
use huntarr.Arr.Quality.{UpgradeItem}
use huntarr.Scheduler.Cycle.{
  Instance, UpgradeResult, World, Entry, Replies, candidates, describe_item, searched_item,
  searched_items, searched_entry, failed_entry, run_instance_cycle,
}
use huntarr.Scheduler.Cycle.Batch.{IsUnsent, IsSent, cooling_ids, run_instance_cycle_ends}

-- A label with the address of its page, if the instance has an address and the item a path.
abbrev pub link_of : String → String × String → Link
link_of base (label, path) = record {
  label = text label;
  url = if str_eq base "" then "" else if str_eq path "" then "" else String.◌++◌ base path;
}

or_empty_text : (t : String) → or_empty (some (text t)) ≡ text t
or_empty_text t =
    if_rule (λ v. v ≡ text t) (not (str_eq t "")) (text t) (text "") (λ _. refl)
      (λ no. ap text (sym (str_eq→eq t "" (ground (arith, no)))))

searched_item-link :
    (base : String) (p : String × String)
    → searched_item_link (text base) (searched_item p) ≡ link_of base p
unfolding searched_item_link string_of
searched_item-link base (label, path) = ground (arith, or_empty_text label)

links_of-searched_items :
    (base : String) (ids : List ℕ) (items : List UpgradeItem)
    → links_of (text base) (searched_items ids items)
      ≡ map (λ id. link_of base (describe_item id items ("", ""))) ids
unfolding links_of
links_of-searched_items base [] items = refl
links_of-searched_items base (id ∷ ids) items =
    let here = searched_item-link base (describe_item id items ("", "")) in
    let rest = links_of-searched_items base ids items in cc

links_of-base :
    (base : String) (ids : List ℕ) (items : List UpgradeItem)
    → links_of (or_empty (some (text base))) (searched_items ids items)
      ≡ map (λ id. link_of base (describe_item id items ("", ""))) ids
links_of-base base ids items =
    ap (λ b. links_of b (searched_items ids items)) (or_empty_text base)
    ∙ links_of-searched_items base ids items

module _ (bytes bitrate : Json → String) (inst : Instance) (resolved : Resolved) (a : Replies)
    (n : ℕ) where
  -- The pairs that the page shows below the links.
  abbrev pub shown_pairs : Bool → UpgradeResult → ℕ → List (String × String)
  shown_pairs ok u cooling =
      if ok
      then ("Cooling Down", decimal cooling)
        ∷ ("Missing", decimal (length u.missing_items))
        ∷ ("Candidates", decimal (length (candidates resolved u)))
        ∷ ("Library Size", decimal u.stats.library_total)
        ∷ []
      else ("Error", a.error) ∷ []

  -- The last entry of the log, and what the page shows of it.
  pub record IsShown (w : World) (q : (ℕ × ℕ) × World) (sent : IsSent inst resolved a n w q)
      : Type 0 where
    pub logged_entry : Entry
    pub logged : q.1.log ≡ w.log ++ logged_entry ∷ []
    pub opens : has_details bytes bitrate (some logged_entry.details) ≡ some true
    pub links :
        searched_item_links (some logged_entry.details)
        ≡ some (
            map
              (λ id.
                link_of inst.base_url (describe_item id (candidates resolved sent.result) ("", "")))
              sent.batch)
    pub pairs :
        format_details bytes bitrate (some logged_entry.details)
        ≡ shown_pairs a.search_ok sent.result (length (cooling_ids inst resolved a sent.result w))

  -- The two entries that may be logged.
  module _ (w : World) (q : (ℕ × ℕ) × World) (sent : IsSent inst resolved a n w q) where
    abbrev cooling : List ℕ
    cooling = cooling_ids inst resolved a sent.result w

    abbrev items : List UpgradeItem
    items = candidates resolved sent.result

    abbrev chosen_entry : Bool → Entry
    chosen_entry ok =
        if ok
        then searched_entry inst resolved a sent.result items cooling n sent.batch
        else failed_entry inst resolved a sent.result items cooling sent.batch

    chosen_entry-opens :
        (ok : Bool) → has_details bytes bitrate (some (chosen_entry ok).details) ≡ some true
    unfolding has_details item_link format_details searched_item_links links_with detail lookup
    chosen_entry-opens true = ground arith
    chosen_entry-opens false = ground arith

    chosen_entry-links :
        (ok : Bool)
        → searched_item_links (some (chosen_entry ok).details)
          ≡ some (map (λ id. link_of inst.base_url (describe_item id items ("", ""))) sent.batch)
    unfolding searched_item_links links_with detail lookup
    chosen_entry-links true = ap some (links_of-base inst.base_url sent.batch items)
    chosen_entry-links false = ap some (links_of-base inst.base_url sent.batch items)

    chosen_entry-pairs :
        (ok : Bool)
        → format_details bytes bitrate (some (chosen_entry ok).details)
          ≡ shown_pairs ok sent.result (length cooling)
    unfolding format_details lookup string_of
    chosen_entry-pairs true = refl
    chosen_entry-pairs false = refl

    sent-IsShown : IsShown w q sent
    sent-IsShown = record {
      logged_entry = chosen_entry a.search_ok;
      logged = sent.logged;
      opens = chosen_entry-opens a.search_ok;
      links = chosen_entry-links a.search_ok;
      pairs = chosen_entry-pairs a.search_ok;
    }

  -- A cycle that sends a command logs one entry, after those before it. On the Logs page this entry
  -- opens, and its links are those of the batch that was sent, in its order: each with the label of
  -- the item and the address of its page, which is the instance's with the item's path if there are
  -- both, else empty. Below them the page shows the number of items in cooldown, of missing items,
  -- of candidates, and the size of the library; or, if the command failed, only its error. The cycle
  -- returns for every batch size that is not negative.
  pub cycle-IsShown :
      resolved.batch_size ≡ pos n
      → (w : World)
      → (q : (ℕ × ℕ) × World) × (run_instance_cycle inst resolved a w ≡ some q)
        × (IsUnsent w q ⊎ ((sent : IsSent inst resolved a n w q) × IsShown w q sent))
  cycle-IsShown size w =
      let (q, run, ends) = run_instance_cycle_ends inst resolved a n size w in
      (q, run, elim ends [ inl unsent ↦ inl unsent | inr sent ↦ inr (sent, sent-IsShown w q sent) ])
