-- ===== src/Api/Activity/Pages.antt =====
-- What the API answers to the requests of the Logs page: internal/api/activity.go for
-- web/static/js/logs.js.
use huntarr.Base.{
  ℕ, ◌-◌, ◌*◌, ◌^◌, ◌<◌, ◌≤◌, String, Bool, true, false, List, [], ◌∷◌, Option, if◌then◌else◌,
  str_eq, str_eq→eq, ltb, ℤ, decimal, decimal-IsNumber, codes, length, take, drop, pos, ◌≡◌, refl,
  ap, ◌∙◌, arith, Bool-cases, inl, inr,
}
use mathlib.Core.List.{Perm}
use huntarr.Settings.Number.Printed.{atoi-decimal}
use huntarr.Activity.Listed.{IsNewestFirst, sort_rows-perm, sort_rows-IsNewestFirst}
use huntarr.Activity.Matching.{Picks, IsWanted, matching-Picks}
use huntarr.LogViewer.{Viewer, Filters, query}
use huntarr.Activity.{
  Stamp, Row, ListParams, list_entries, list_rows, count_rows, matching, is_match, sort_rows,
}
use huntarr.Api.Settings.{respond}
use huntarr.Api.Activity.Params.{query-HasParams}
use huntarr.Api.Activity.{
  ListResponse, given, failed, valid, refused, with_checked, read_level, read_action, read_optional,
  read_limit, read_offset, handle_list_activity,
}

decimal-ne : (n : ℕ) → str_eq (decimal n) "" ≡ false
decimal-ne n = elim (Bool-cases (str_eq (decimal n) "")) [
  | inl e ↦ absurd ((decimal-IsNumber n).0 (ap codes (str_eq→eq (decimal n) "" e)))
  | inr e ↦ e
]

read_limit-decimal : (n : ℕ) → n ≡ 50 → read_limit (decimal n) ≡ valid (pos 50)
unfolding read_limit
read_limit-decimal n e = rw (decimal-ne n, atoi-decimal n (omega arith), e) refl

read_offset-decimal :
    (n : ℕ)
    → n < 2 ^ 63
    → read_offset (decimal n)
      ≡ (if ltb 100000 n then refused "offset must not exceed 100000" else valid n)
unfolding read_offset
read_offset-decimal n h = rw (decimal-ne n, atoi-decimal n h) refl

-- The place and the number of the entries that are asked for do not change which ones match.
matching-record :
    (like : String → String → Bool) (p : ListParams) (limit : ℤ) (offset : ℕ) (rows : List Row)
    → matching like (record p { limit = limit; offset = offset }) rows ≡ matching like p rows
unfolding matching
matching-record like p limit offset [] = refl
matching-record like p limit offset (r ∷ rows) =
    ap (λ l. if is_match like p r then r ∷ l else l) (matching-record like p limit offset rows)

given-matching :
    (like : String → String → Bool) (p : ListParams) (start : ℕ) (rows : List Row)
    → let asked = record p { limit = pos 50; offset = start } in
      given (list_entries like asked rows) (count_rows like asked rows)
      ≡ given
          (take 50 (drop start (sort_rows (matching like p rows) [])))
          (length (matching like p rows))
unfolding list_entries list_rows count_rows
given-matching like p start rows =
    ap (λ l. given (take 50 (drop start (sort_rows l []))) (length l))
      (matching-record like p (pos 50) start rows)

with_checked-if :
    (b : Bool) (e : String) (n : ℕ) (f : ℕ → ListResponse)
    → with_checked (if b then refused e else valid n) f
      ≡ (if b then failed (respond 400 e) else f n)
with_checked-if true e n f = refl
with_checked-if false e n f = refl

module _ (parse_uuid : String → Option String) (parse_time : String → Option Stamp)
    (like : String → String → Bool) (to_iso : String → String) where
  -- The filters of the page mean the conditions of the list.
  pub record Means (f : Filters) (p : ListParams) : Type 0 where
    pub level : read_level f.level ≡ valid p.level
    pub instance_id : read_optional parse_uuid "invalid UUID" f.instance_id ≡ valid p.instance_id
    pub action : read_action f.action ≡ valid p.action
    pub search : f.search ≡ p.search
    pub since :
        read_optional parse_time "invalid since timestamp"
          (if str_eq f.since "" then "" else to_iso f.since)
        ≡ valid p.since
    pub until :
        read_optional parse_time "invalid until timestamp"
          (if str_eq f.until "" then "" else to_iso f.until)
        ≡ valid p.until

  -- The answer from the place `start` on: fifty of the rows that are wanted, newest first, and the
  -- number of all of them.
  pub record IsListed (p : ListParams) (rows : List Row) (start : ℕ) (answer : ListResponse)
      : Type 0 where
    pub chosen : List Row
    pub shown : List Row
    pub picked : Picks (IsWanted like p) rows chosen
    pub same : Perm shown chosen
    pub newest : IsNewestFirst shown
    pub answered : answer ≡ (
        if ltb 100000 start
        then failed (respond 400 "offset must not exceed 100000")
        else given (take 50 (drop start shown)) (length chosen))

  answered_query :
      (v : Viewer) (p : ListParams) (rows : List Row)
      → Means v.filters p
      → v.per_page ≡ 50
      → v.page ≤ 2 ^ 32
      → let start = (v.page - 1) * 50 in
        handle_list_activity parse_uuid parse_time like true true (query to_iso v) rows ≡ (
          if ltb 100000 start
          then failed (respond 400 "offset must not exceed 100000")
          else given
              (take 50 (drop start (sort_rows (matching like p rows) [])))
              (length (matching like p rows)))
  unfolding handle_list_activity
  answered_query v p rows m size few =
      let start = (v.page - 1) * 50 in
      let q = query to_iso v in
      let sent = query-HasParams to_iso v in
      let level = ap read_level sent.level ∙ m.level in
      let id = ap (read_optional parse_uuid "invalid UUID") sent.instance_id ∙ m.instance_id in
      let action = ap read_action sent.action ∙ m.action in
      let search = sent.search ∙ m.search in
      let since = ap (read_optional parse_time "invalid since timestamp") sent.since ∙ m.since in
      let until = ap (read_optional parse_time "invalid until timestamp") sent.until ∙ m.until in
      let limit = ap read_limit sent.limit ∙ read_limit-decimal v.per_page size in
      let offset =
        ap read_offset sent.offset
        ∙ ap (λ k. read_offset (decimal ((v.page - 1) * k))) size
        ∙ read_offset-decimal start (omega arith) in
      rw (level, id, action, search, since, until, limit, offset)
        (with_checked-if (ltb 100000 start) _ start _
          ∙ ap
              (λ g.
                if ltb 100000 start
                then failed (respond 400 "offset must not exceed 100000")
                else g)
              (given-matching like p start rows))

  -- On a page up to the number 2 ^ 32, with filters that the API reads, the request of the Logs page is
  -- answered with at most fifty entries, those at the place of the page among all that meet the
  -- filters, and with the number of these. An entry meets them if it has the level, the instance and
  -- the action that are asked for, the search finds its message, and its time is not before `since`
  -- and before `until`; all that do stand with the newest first. Times are compared by their seconds,
  -- and within one second by the texts of what follows. From the page 2002 on the API refuses the
  -- request instead.
  pub handle_list_activity-query :
      (v : Viewer) (p : ListParams) (rows : List Row)
      → Means v.filters p
      → v.per_page ≡ 50
      → v.page ≤ 2 ^ 32
      → IsListed p rows
          ((v.page - 1) * 50)
          (handle_list_activity parse_uuid parse_time like true true (query to_iso v) rows)
  handle_list_activity-query v p rows m size few =
      let chosen = matching like p rows in
      record {
        chosen = chosen;
        shown = sort_rows chosen [];
        picked = matching-Picks like p rows;
        same = sort_rows-perm chosen;
        newest = sort_rows-IsNewestFirst chosen;
        answered = answered_query v p rows m size few;
      }
