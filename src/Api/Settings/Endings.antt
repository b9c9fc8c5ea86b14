-- ===== src/Api/Settings/Endings.antt =====
-- The ways in which a request that changes settings ends.
use huntarr.Base.{
  String, Bool, true, false, List, [], ◌∷◌, Option, none, some, if◌then◌else◌, str_eq, ◌≡◌, ℤ,
}
use huntarr.Settings.Store.{Store, Rejection, upsert_batch, delete_batch}
use huntarr.Settings.Store.First.{FirstUnknown, FirstWrong}
use huntarr.Api.Settings.{Response, respond, rejection_text}

module _ (parse_uuid : String → Option String) (parse_duration : String → Option ℤ)
    (quote : String → String) (available : Bool) where
  -- The rows that a request names, `none` for an `instanceId` that is no UUID.
  abbrev pub target : String → Option (Option String)
  target raw =
      if str_eq raw ""
      then some none
      else elim (parse_uuid raw) [ none ↦ none | some id ↦ some (some id) ]

  -- The end of a request that has entries to work on: carried out for the rows that it names, so that
  -- the store is `changed`, or not. `IsFirst` says which error the first wrong entry has, or that none
  -- is wrong.
  pub data Ends (raw internal : String) (IsFirst : Option Rejection → Type 0)
      (changed : Option String → Store) (before : Store) (r : Response) (after : Store)
      : Type 0 where
    carried :
        (id : Option String)
        → target raw ≡ some id
        → IsFirst none
        → available ≡ true
        → r ≡ respond 200 ""
        → after ≡ changed id
        → Ends raw internal IsFirst changed before r after
    no_uuid :
        target raw ≡ none
        → r ≡ respond 400 "invalid UUID"
        → after ≡ before
        → Ends raw internal IsFirst changed before r after
    refused :
        (id : Option String) (e : Rejection)
        → target raw ≡ some id
        → IsFirst (some e)
        → r ≡ respond 400 (rejection_text quote e)
        → after ≡ before
        → Ends raw internal IsFirst changed before r after
    down :
        (id : Option String)
        → target raw ≡ some id
        → IsFirst none
        → available ≡ false
        → r ≡ respond 500 internal
        → after ≡ before
        → Ends raw internal IsFirst changed before r after

  -- The end of a request to change settings, by its body.
  pub data UpdateEnds (raw : String) (body : Option (List (String × String))) (before : Store)
      (r : Response) (after : Store) : Type 0 where
    entries_malformed :
        body ≡ none
        → r ≡ respond 400 "invalid request body"
        → after ≡ before
        → UpdateEnds raw body before r after
    entries_read :
        (entries : List (String × String))
        → body ≡ some entries
        → Ends raw "failed to update settings"
            (FirstWrong parse_duration entries)
            (λ id. upsert_batch id entries before)
            before
            r
            after
        → UpdateEnds raw body before r after

  -- The end of a request to remove settings, by its body.
  pub data DeleteEnds (raw : String) (body : Option (List String)) (before : Store) (r : Response)
      (after : Store) : Type 0 where
    keys_malformed :
        body ≡ none
        → r ≡ respond 400 "invalid request body"
        → after ≡ before
        → DeleteEnds raw body before r after
    no_keys :
        body ≡ some []
        → r ≡ respond 400 "keys must not be empty"
        → after ≡ before
        → DeleteEnds raw body before r after
    keys_read :
        (key : String) (keys : List String)
        → body ≡ some (key ∷ keys)
        → Ends raw "failed to remove settings"
            (FirstUnknown (key ∷ keys))
            (λ id. delete_batch id (key ∷ keys) before)
            before
            r
            after
        → DeleteEnds raw body before r after
