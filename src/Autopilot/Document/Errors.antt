-- ===== src/Autopilot/Document/Errors.antt =====
-- Where `validateTaskDocument` throws in place of an answer.
use mathlib.Core.Path.{subst}
use mathlib.Core.Logic.{⊎_elim}
use autopilot_console.Prelude.{
  ◌≡◌, ◌↔◌, sym, ◌∙◌, ap, Option, some, none, List, [], ◌++◌, Member, inl, inr,
}
use autopilot_console.Autopilot.Json.{Json, Items, Fields, array, object, property, items_list}
use autopilot_console.Autopilot.Graph.{Dependencies, GraphError, ids_of, missing_in}
use autopilot_console.Autopilot.Requirement.{TaskError, Requirement}
use autopilot_console.Autopilot.Document.{
  parse_all, throws, all_dependencies, check_graph, top_errors, requirements_of,
  validate_task_document,
}
use autopilot_console.Autopilot.Document.Cases.{Fails, check_graph-cases, validate-cases}
use autopilot_console.Autopilot.Document.Kept.{HasId, kept_item, item_kept}
use autopilot_console.Autopilot.Document.Throws.{IsUncheckable, Fails-Throws, Throws-Fails}
use autopilot_console.Autopilot.Document.Valid.{
  conclude-ne-throws, invalid-ne-throws, answer_eq, requirements_array,
}

dependencies_eq :
    (xs ys : List Dependencies) → ◌≡◌ {A = Option (List Dependencies)} (some xs) (some ys) → xs ≡ ys
dependencies_eq xs ys e = cc

-- A value on which the check throws: an item of its requirements, an object with an id, has a
-- `dependsOn` that cannot be iterated, or that has an item without a text.
abbrev pub HasUncheckable : Json → Type 0
HasUncheckable value =
    (input : Fields) × (items : Items) × (value ≡ object input)
    × (property "requirements" input ≡ some (array items))
    × (fields : Fields) × Member (object fields) (items_list items)
    × HasId fields
    × IsUncheckable (property "dependsOn" fields)

uncheckable_item :
    (value : Json) (input : Fields) (items : List Json)
    → value ≡ object input
    → requirements_of (property "requirements" input) ≡ some items
    → Fails (parse_all items 0 []).0
    → HasUncheckable value
uncheckable_item value input items is at fails =
    let (list, where_it_is, same) = requirements_array (property "requirements" input) items at in
    let (r, m, bad) = Fails-Throws (parse_all items 0 []).0 fails in
    let (k, id) = kept_item items 0 [] r m in
    (
      input,
      list,
      is,
      where_it_is,
      r.wire,
      subst (λ (xs : List Json). Member (object r.wire) xs) same k,
      id,
      bad,
    )

listed_of :
    (input : Fields) (items : List Json)
    → requirements_of (property "requirements" input) ≡ some items
    → validate_task_document (object input)
      ≡ check_graph input (parse_all items 0 []).0 (top_errors input ++ (parse_all items 0 []).1)
unfolding validate_task_document
listed_of input items at = rw (at, validate_task_document)

not_both :
    (rs : List Requirement) (ds : List Dependencies)
    → all_dependencies rs ≡ some ds
    → (missing : List GraphError) × (missing_in (ids_of ds) ds ≡ some missing)
    → Fails rs
    → ⊥
not_both rs ds read noted (inl e) = cc (read, e)
not_both rs ds read (missing, noted) (inr (ds', read', lost)) =
    let same : ds ≡ ds' = dependencies_eq ds ds' (sym read ∙ read') in
    let lost' : missing_in (ids_of ds) ds ≡ none =
      subst (λ (xs : List Dependencies). missing_in (ids_of xs) xs ≡ none) (sym same) lost in
    cc (noted, lost')

throws_at :
    (input : Fields) (rs : List Requirement) (before : List TaskError)
    → Fails rs
    → check_graph input rs before ≡ some throws
throws_at input rs before fails =
    ⊎_elim {C = check_graph input rs before ≡ some throws} (λ bad. bad.1)
      (λ good.
        let (ds, found, all_read, same, ran, noted, f) = good in
        absurd (not_both rs ds all_read noted fails))
      (check_graph-cases input rs before)

-- The check throws a TypeError exactly where the value has a list of requirements, and an object in it
-- whose id is a text that is not empty has a `dependsOn` that is a number, a boolean or an object, or a
-- list with an item that no text can be made of: an object with a property `toString`, in lists to any
-- depth. The parser has noted it as an error, which is lost.
pub validate_task_document-throws_iff :
    (value : Json) → (validate_task_document value ≡ some throws) ↔ HasUncheckable value
validate_task_document-throws_iff value = (
  (λ h.
      ⊎_elim {C = HasUncheckable value}
        (λ refused.
          let (errors, e) = refused in
          absurd (invalid-ne-throws errors (answer_eq _ _ (sym e ∙ h))))
        (λ listed.
          let (input, items, is, at, e) = listed in
          let (rs, errors) = parse_all items 0 [] in
          ⊎_elim {C = HasUncheckable value} (λ bad. uncheckable_item value input items is at bad.0)
            (λ good.
              let (ds, found, all_read, same, ran, noted, f) = good in
              absurd (conclude-ne-throws input rs _ (answer_eq _ _ (sym f ∙ sym e ∙ h))))
            (check_graph-cases input rs (top_errors input ++ errors)))
        (validate-cases value)),
  (λ bad.
      let (input, list, is, at, fields, m, id, stuck) = bad in
      let items = items_list list in
      let (r, k, same) = item_kept items 0 [] fields m id in
      let fails =
        Throws-Fails (parse_all items 0 []).0
          (r, k, subst (λ (f : Fields). IsUncheckable (property "dependsOn" f)) (sym same) stuck) in
      ap validate_task_document is
      ∙ listed_of input items (ap requirements_of at)
      ∙ throws_at input (parse_all items 0 []).0 (top_errors input ++ (parse_all items 0 []).1)
          fails),
)
