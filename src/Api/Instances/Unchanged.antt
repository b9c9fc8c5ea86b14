-- ===== src/Api/Instances/Unchanged.antt =====
-- The edit dialog of web/static/js/connections.js, opened and saved as it is, over
-- internal/api/instance.go.
use huntarr.Base.{
  ℕ, zero, suc, String, true, false, Option, some, str_eq, str_eq_self, str_eq→eq, lookup, insert,
  lookup-insert, trim_space, ℤ, pos, negsuc, ◌≡◌, refl, sym, ap, ◌∙◌, arith, if_rule, All-lookup,
}
use huntarr.Connections.{Form, Manager, or_default, open_edit, edit_read}
use huntarr.Instances.{
  Instance, Store, Result, ok, get, is_bad_timeout, positive_or, key_or, from_row, store_valid,
  update_existing, validate, edited, update,
}
use huntarr.Instances.Kept.{IsStored, IsValid, IsTimeout}
use huntarr.Api.Instances.{
  Request, InstanceResponse, to_instance_response, Answer, one, requested, instance_answer, at_path,
  handle_get_instance, handle_update_instance,
}

-- A timeout as the page reads it; one that is stored is not negative.
abbrev pub natural : ℤ → ℕ
natural (pos n) = n
natural (negsuc n) = 0

-- The body of an answer as the page reads it, and that of a save.
abbrev pub form_of : InstanceResponse → Form
form_of r = record {
  name = r.name;
  app_type = r.app_type;
  base_url = r.base_url;
  api_key = "";
  timeout_ms = natural r.timeout_ms;
}

abbrev pub request_of : Form → Request
request_of f = record {
  name = f.name;
  app_type = f.app_type;
  base_url = f.base_url;
  api_key = f.api_key;
  timeout_ms = pos f.timeout_ms;
}

not_bad : (z : ℤ) → IsTimeout z → is_bad_timeout z ≡ false
not_bad z (n, e, positive, le) = ap is_bad_timeout e ∙ ground (arith, le)

same_timeout : (z : ℤ) → IsTimeout z → positive_or z (pos (or_default (natural z))) ≡ z
same_timeout (pos zero) (n, e, positive, le) =
    let same : zero ≡ n = cc in absurd (omega (arith, same, positive))
same_timeout (pos (suc k)) h = refl
same_timeout (negsuc k) (n, e, positive, le) = cc

key_or-blank : (old : String) → key_or old "" ≡ old
unfolding trim_space
key_or-blank old = refl

edit_read-hit :
    (id : String) (d : Form) (m : Manager)
    → str_eq m.edit_id id ≡ true
    → (edit_read id d m).form ≡ (record d { api_key = ""; timeout_ms = or_default d.timeout_ms })
unfolding edit_read
edit_read-hit id d m h = rw h refl

module _ (parse_url : String → Option (String × String)) (quote : String → String) where
  validate-stored :
      (id : String) (i : Instance)
      → IsStored parse_url quote id i
      → validate parse_url quote i ≡ ok i
  unfolding validate
  validate-stored id i h =
      rw
        (
          h.trimmed,
          h.named,
          h.known,
          h.addressed,
          h.key_trimmed,
          h.secured,
          not_bad i.timeout_ms h.timed,
        )
        refl

  -- The form that the dialog shows for a stored instance.
  abbrev opened : String → String → Manager → Instance → Form
  opened active raw m i =
      (edit_read raw (form_of (to_instance_response i)) (open_edit active raw m)).form

  abbrev shown : Instance → Form
  shown i = record {
    name = i.name;
    app_type = i.app_type;
    base_url = i.base_url;
    api_key = "";
    timeout_ms = or_default (natural i.timeout_ms);
  }

  opened-shown :
      (active raw : String) (m : Manager) (i : Instance) → opened active raw m i ≡ shown i
  opened-shown active raw m i =
      edit_read-hit raw (form_of (to_instance_response i)) (open_edit active raw m)
        (unfold open_edit in str_eq_self raw)

  edited-shown :
      (id : String) (i : Instance)
      → IsStored parse_url quote id i
      → edited parse_url quote i (requested "" (request_of (shown i))) ≡ i
  edited-shown id i h =
      ap
        (λ k. record i {
          api_key = k;
          timeout_ms = positive_or i.timeout_ms (pos (or_default (natural i.timeout_ms)));
        })
        (key_or-blank i.api_key)
      ∙ ap (λ t. record i { timeout_ms = t }) (same_timeout i.timeout_ms h.timed)

  update-shown :
      (id : String) (i : Instance) (s : Store) (f : Form)
      → IsStored parse_url quote id i
      → lookup id s ≡ some i
      → f ≡ shown i
      → update parse_url quote true true id (requested "" (request_of f)) s
        ≡ (ok i, insert i.id i s)
  unfolding update
  update-shown id i s f h e same =
      let saved = requested "" (request_of f) in
      ap (λ o. update_existing parse_url quote true o saved s) e
      ∙ ap
          (λ g.
            store_valid parse_url quote true
              (validate parse_url quote (edited parse_url quote i (requested "" (request_of g)))) s)
          same
      ∙ ap (λ k. store_valid parse_url quote true (validate parse_url quote k) s)
          (edited-shown id i h)
      ∙ ap (λ r. store_valid parse_url quote true r s) (validate-stored id i h)

  insert-same :
      (id j : String) (i : Instance) (s : Store)
      → i.id ≡ id
      → lookup id s ≡ some i
      → lookup j (insert i.id i s) ≡ lookup j s
  insert-same id j i s keyed e =
      lookup-insert i.id j i s
      ∙ if_rule (λ o. o ≡ lookup j s) (str_eq i.id j) (some i) (lookup j s)
          (λ same. sym e ∙ ap (λ k. lookup k s) (sym keyed ∙ str_eq→eq i.id j same)) (λ _. refl)

  -- An edit dialog that is opened for a stored instance, and saved as it is, stores the same: the
  -- answer is that instance again, and every instance of the table is as it was, its key included.
  -- The database answers, and the table is valid.
  pub handle_update_instance-opened :
      (parse_uuid : String → Option String) (active raw id : String) (m : Manager) (i : Instance)
      (s : Store) (j : String)
      → IsValid parse_url quote s
      → parse_uuid raw ≡ some id
      → lookup id s ≡ some i
      → let read = handle_get_instance parse_uuid true raw s in
        let form =
          (edit_read raw (form_of (to_instance_response i)) (open_edit active raw m)).form in
        let saved =
          handle_update_instance parse_uuid parse_url quote true true raw (request_of form) s in
        (read.0 ≡ one 200 (to_instance_response i))
        × (saved.0 ≡ one 200 (to_instance_response i))
        × (lookup j saved.1 ≡ lookup j s)
  unfolding handle_get_instance handle_update_instance
  handle_update_instance-opened parse_uuid active raw id m i s j valid path e =
      let stored =
        All-lookup (λ (p : String × Instance). IsStored parse_url quote p.0 p.1) id i s valid e in
      let form = opened active raw m i in
      let same = opened-shown active raw m i in
      let saved = update-shown id i s form stored e same in
      let answered : Result Instance × Store → Answer × Store =
        λ p. (instance_answer 200 "failed to update instance" p.0, p.1) in
      let handled : handle_update_instance parse_uuid parse_url quote true true raw
            (request_of form) s
          ≡ (one 200 (to_instance_response i), insert i.id i s) =
        ap
          (λ o.
            at_path o s (λ k.
              answered (update parse_url quote true true k (requested "" (request_of form)) s)))
          path
        ∙ ap answered saved in
      (
        ap
              (λ o.
                (at_path o s
                  (λ k. (instance_answer 200 "failed to get instance" (get true k s), s))).0)
              path
            ∙ unfold get in ap (λ o. instance_answer 200 "failed to get instance" (from_row o)) e,
        ap (λ (p : Answer × Store). p.0) handled,
        ap (λ (p : Answer × Store). lookup j p.1) handled ∙ insert-same id j i s stored.keyed e,
      )
