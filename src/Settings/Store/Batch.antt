-- ===== src/Settings/Store/Batch.antt =====
-- What the batch operations store.
use huntarr.Base.{
  String, Bool, true, false, List, [], ◌∷◌, Option, none, some, if◌then◌else◌, str_eq, str_eq_self,
  lookup, insert, erase, lookup-insert, lookup-erase, ◌≡◌, refl, ◌∙◌, ap,
}
use huntarr.Settings.Store.{Store, rows, upsert, delete, upsert_batch, delete_batch}

-- The value that a list of writes leaves under a key: that of its last entry.
unfoldable pub last_write : String → List (String × String) → Option String → Option String
last_write k [] old = old
last_write k ((j, v) ∷ entries) old = last_write k entries (if str_eq j k then some v else old)

unfoldable pub after_removal : String → List String → Option String → Option String
after_removal k [] old = old
after_removal k (j ∷ keys) old = after_removal k keys (if str_eq j k then none else old)

-- Two requests name the same rows.
abbrev pub same_target : Option String → Option String → Bool
same_target none none = true
same_target none (some j) = false
same_target (some i) none = false
same_target (some i) (some j) = str_eq i j

rows-upsert :
    (id : Option String) (k v : String) (s : Store)
    → rows id (upsert id (k, v) s) ≡ insert k v (rows id s)
unfolding rows upsert
rows-upsert none k v s = refl
rows-upsert (some id) k v s = rw str_eq_self

rows-delete :
    (id : Option String) (k : String) (s : Store) → rows id (delete id k s) ≡ erase k (rows id s)
unfolding rows delete
rows-delete none k s = refl
rows-delete (some id) k s = rw str_eq_self

pub lookup-upsert_batch :
    (id : Option String) (k : String) (entries : List (String × String)) (s : Store)
    → lookup k (rows id (upsert_batch id entries s)) ≡ last_write k entries (lookup k (rows id s))
unfolding upsert_batch last_write
lookup-upsert_batch id k [] s = refl
lookup-upsert_batch id k ((j, v) ∷ entries) s =
    lookup-upsert_batch id k entries (upsert id (j, v) s)
    ∙ ap (last_write k entries)
        (ap (lookup k) (rows-upsert id j v s) ∙ lookup-insert j k v (rows id s))

pub lookup-delete_batch :
    (id : Option String) (k : String) (keys : List String) (s : Store)
    → lookup k (rows id (delete_batch id keys s)) ≡ after_removal k keys (lookup k (rows id s))
unfolding delete_batch after_removal
lookup-delete_batch id k [] s = refl
lookup-delete_batch id k (j ∷ keys) s =
    lookup-delete_batch id k keys (delete id j s)
    ∙ ap (after_removal k keys) (ap (lookup k) (rows-delete id j s) ∙ lookup-erase j k (rows id s))
