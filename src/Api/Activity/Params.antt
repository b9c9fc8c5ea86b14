-- ===== src/Api/Activity/Params.antt =====
-- What the API reads of the request of the Logs page: internal/api/activity.go for
-- web/static/js/logs.js.
use huntarr.Base.{
  ◌-◌, ◌*◌, String, Bool, true, false, List, [], ◌∷◌, ◌++◌, if◌then◌else◌, str_eq, str_eq→eq,
  lookup, decimal, ◌≡◌, refl, ◌∙◌, sym, if_rule,
}
use huntarr.LogViewer.{Viewer, set_param, query}
use huntarr.Api.Activity.{get_param}

abbrev pub Query : Type 0
Query = List (String × String)

-- A parameter that is left out if the test holds.
abbrev optional : String → Bool → String → Query
optional name b v = if b then [] else (name, v) ∷ []

get_param-skip :
    (k name : String) (b : Bool) (v : String) (rest : Query)
    → str_eq name k ≡ false
    → get_param (optional name b v ++ rest) k ≡ get_param rest k
unfolding get_param lookup
get_param-skip k name true v rest h = refl
get_param-skip k name false v rest h = rw h refl

get_param-hit :
    (name : String) (b : Bool) (v : String) (rest : Query)
    → str_eq name name ≡ true
    → get_param rest name ≡ ""
    → get_param (optional name b v ++ rest) name ≡ (if b then "" else v)
unfolding get_param lookup
get_param-hit name true v rest same h = h
get_param-hit name false v rest same h = rw same refl

get_param-last :
    (name : String) (b : Bool) (v : String)
    → str_eq name name ≡ true
    → get_param (optional name b v) name ≡ (if b then "" else v)
unfolding get_param lookup
get_param-last name true v same = refl
get_param-last name false v same = rw same refl

or_empty_same : (v : String) → (if str_eq v "" then "" else v) ≡ v
or_empty_same v = if_rule (λ w. w ≡ v) (str_eq v "") "" v (λ e. sym (str_eq→eq v "" e)) (λ _. refl)

module _ (to_iso : String → String) (v : Viewer) where
  abbrev until_param : Query
  until_param = optional "until" (str_eq v.filters.until "") (to_iso v.filters.until)

  abbrev since_param : Query
  since_param = optional "since" (str_eq v.filters.since "") (to_iso v.filters.since) ++ until_param

  abbrev search_param : Query
  search_param = set_param "search" v.filters.search ++ since_param

  abbrev action_param : Query
  action_param = set_param "action" v.filters.action ++ search_param

  abbrev instance_param : Query
  instance_param = set_param "instanceId" v.filters.instance_id ++ action_param

  get_param-until : (k : String) → str_eq "until" k ≡ false → get_param until_param k ≡ ""
  unfolding get_param lookup
  get_param-until k h =
      if_rule (λ (q : Query). get_param q k ≡ "") (str_eq v.filters.until "") [] _ (λ _. refl)
        (λ _. rw h refl)

  -- A name that is none of the later ones has no value there.
  since-absent :
      (k : String)
      → str_eq "since" k ≡ false
      → str_eq "until" k ≡ false
      → get_param since_param k ≡ ""
  since-absent k s u = get_param-skip k "since" _ _ until_param s ∙ get_param-until k u

  search-absent :
      (k : String)
      → str_eq "search" k ≡ false
      → str_eq "since" k ≡ false
      → str_eq "until" k ≡ false
      → get_param search_param k ≡ ""
  search-absent k h s u = get_param-skip k "search" _ _ since_param h ∙ since-absent k s u

  action-absent :
      (k : String)
      → str_eq "action" k ≡ false
      → str_eq "search" k ≡ false
      → str_eq "since" k ≡ false
      → str_eq "until" k ≡ false
      → get_param action_param k ≡ ""
  action-absent k a h s u = get_param-skip k "action" _ _ search_param a ∙ search-absent k h s u

  -- The parameters of the request, by name.
  pub record HasParams (q : Query) : Type 0 where
    pub level : get_param q "level" ≡ v.filters.level
    pub instance_id : get_param q "instanceId" ≡ v.filters.instance_id
    pub action : get_param q "action" ≡ v.filters.action
    pub search : get_param q "search" ≡ v.filters.search
    pub since :
        get_param q "since" ≡ (if str_eq v.filters.since "" then "" else to_iso v.filters.since)
    pub until :
        get_param q "until" ≡ (if str_eq v.filters.until "" then "" else to_iso v.filters.until)
    pub limit : get_param q "limit" ≡ decimal v.per_page
    pub offset : get_param q "offset" ≡ decimal ((v.page - 1) * v.per_page)

  query-front :
      (k : String)
      → str_eq "limit" k ≡ false
      → str_eq "offset" k ≡ false
      → get_param (query to_iso v) k
        ≡ get_param (set_param "level" v.filters.level ++ instance_param) k
  unfolding query get_param lookup
  query-front k l o = rw (l, o) refl

  pub query-HasParams : HasParams (query to_iso v)
  unfolding query
  query-HasParams =
      let filters = v.filters in
      record {
        level =
            query-front "level" refl refl
            ∙ get_param-hit "level" (str_eq filters.level "") filters.level instance_param refl (
                get_param-skip "level" "instanceId" (str_eq filters.instance_id "")
                  filters.instance_id action_param refl
                ∙ action-absent "level" refl refl refl refl)
            ∙ or_empty_same filters.level;
        instance_id =
            query-front "instanceId" refl refl
            ∙ get_param-skip "instanceId" "level" (str_eq filters.level "") filters.level
                instance_param refl
            ∙ get_param-hit "instanceId" (str_eq filters.instance_id "") filters.instance_id
                action_param refl (action-absent "instanceId" refl refl refl refl)
            ∙ or_empty_same filters.instance_id;
        action =
            query-front "action" refl refl
            ∙ get_param-skip "action" "level" (str_eq filters.level "") filters.level instance_param
                refl
            ∙ get_param-skip "action" "instanceId" (str_eq filters.instance_id "")
                filters.instance_id action_param refl
            ∙ get_param-hit "action" (str_eq filters.action "") filters.action search_param refl
                (search-absent "action" refl refl refl)
            ∙ or_empty_same filters.action;
        search =
            query-front "search" refl refl
            ∙ get_param-skip "search" "level" (str_eq filters.level "") filters.level instance_param
                refl
            ∙ get_param-skip "search" "instanceId" (str_eq filters.instance_id "")
                filters.instance_id action_param refl
            ∙ get_param-skip "search" "action" (str_eq filters.action "") filters.action
                search_param refl
            ∙ get_param-hit "search" (str_eq filters.search "") filters.search since_param refl
                (since-absent "search" refl refl)
            ∙ or_empty_same filters.search;
        since =
            query-front "since" refl refl
            ∙ get_param-skip "since" "level" (str_eq filters.level "") filters.level instance_param
                refl
            ∙ get_param-skip "since" "instanceId" (str_eq filters.instance_id "")
                filters.instance_id action_param refl
            ∙ get_param-skip "since" "action" (str_eq filters.action "") filters.action search_param
                refl
            ∙ get_param-skip "since" "search" (str_eq filters.search "") filters.search since_param
                refl
            ∙ get_param-hit "since" (str_eq filters.since "") (to_iso filters.since) until_param
                refl (get_param-until "since" refl);
        until =
            query-front "until" refl refl
            ∙ get_param-skip "until" "level" (str_eq filters.level "") filters.level instance_param
                refl
            ∙ get_param-skip "until" "instanceId" (str_eq filters.instance_id "")
                filters.instance_id action_param refl
            ∙ get_param-skip "until" "action" (str_eq filters.action "") filters.action search_param
                refl
            ∙ get_param-skip "until" "search" (str_eq filters.search "") filters.search since_param
                refl
            ∙ get_param-skip "until" "since" (str_eq filters.since "") (to_iso filters.since)
                until_param refl
            ∙ get_param-last "until" (str_eq filters.until "") (to_iso filters.until) refl;
        limit = unfold get_param lookup in refl;
        offset = unfold get_param lookup in refl;
      }
