-- ===== src/Edit/Command/Laws.antt =====
-- Each of the commands reverses itself: what lies between the scene before it and the scene after.
use atlas_engine.Base.{
  ℕ, ◌≡◌, refl, ap, sym, ◌∙◌, subst, true, false, Bool-cases, none, some, Option-cases, ◌==◌,
  ==_iff, inl, inr,
}
use atlas_engine.Core.Error.{ok, err, not_found, ok-injective}
use atlas_engine.Edit.Scene.{Entity, Scene, lookup, replace}
use atlas_engine.Edit.Scene.Replace.{lookup-replace_in, replace-replace_in, replace_in_same}
use atlas_engine.Edit.Command.{
  Component, Change, capture, apply_change, revert_change, merge_change,
}

-- Writing a component gives it and nothing else.
pub record IsComponent {V : Type 0} (k : Component V) : Type 0 where
  pub read-write : (v : V) (e : Entity) → k.read (k.write v e) ≡ v
  pub write-read : (e : Entity) → k.write (k.read e) e ≡ e
  pub write-write : (v w : V) (e : Entity) → k.write v (k.write w e) ≡ k.write v e
  pub keeps_id : (v : V) (e : Entity) → (k.write v e).id ≡ e.id

-- The change has captured what the entity had before, and the scene after it is the scene before with
-- the component written.
pub record Spans {V : Type 0} (k : Component V) (c : Change V) (s t : Scene) : Type 0 where
  pub captured : c.captured ≡ true
  pub entity : Entity
  pub found : lookup s c.id ≡ some entity
  pub before : k.read entity ≡ c.before
  pub after : t ≡ replace s c.id (k.write c.after)

module _ {V : Type 0} (k : Component V) (law : IsComponent k) where
  lookup-replace :
      (s : Scene) (id : ℕ) (v : V) (e : Entity)
      → lookup s id ≡ some e
      → lookup (replace s id (k.write v)) id ≡ some (k.write v e)
  unfolding lookup replace
  lookup-replace s id v e found =
      lookup-replace_in id (k.write v) s.entities e (law.keeps_id v) found

  replace-replace :
      (s : Scene) (id : ℕ) (v w : V)
      → replace (replace s id (k.write w)) id (k.write v) ≡ replace s id (k.write v)
  unfolding replace
  replace-replace s id v w =
      ap (λ es. record s { entities = es })
        (replace-replace_in id (k.write v) (k.write w) (k.write v) s.entities (law.keeps_id w)
          (law.write-write v w))

  replace_same :
      (s : Scene) (id : ℕ) (v : V) (e : Entity)
      → lookup s id ≡ some e
      → k.read e ≡ v
      → replace s id (k.write v) ≡ s
  unfolding lookup replace
  replace_same s id v e found same =
      ap (λ es. record s { entities = es })
        (replace_in_same id (k.write v) s.entities e found
          (ap (λ w. k.write w e) (sym same) ∙ law.write-read e))

  apply_again :
      (c : Change V) (s : Scene) (e : Entity)
      → c.captured ≡ true
      → lookup s c.id ≡ some e
      → apply_change k c s ≡ ok (c, replace s c.id (k.write c.after))
  unfolding apply_change capture
  apply_again c s e seen found = rw (apply_change, found, seen) refl

  revert_found :
      (c : Change V) (s : Scene) (e : Entity)
      → lookup s c.id ≡ some e
      → revert_change k c s ≡ ok (replace s c.id (k.write c.before))
  unfolding revert_change
  revert_found c s e found = rw (revert_change, found) refl

  pub Spans-apply : (c : Change V) (s t : Scene) → Spans k c s t → apply_change k c s ≡ ok (c, t)
  Spans-apply c s t w =
      apply_again c s w.entity w.captured w.found ∙ ap (λ u. ok (c, u)) (sym w.after)

  pub Spans-revert : (c : Change V) (s t : Scene) → Spans k c s t → revert_change k c t ≡ ok s
  Spans-revert c s t w =
      ap (revert_change k c) w.after
      ∙ (revert_found c (replace s c.id (k.write c.after)) (k.write c.after w.entity)
            (lookup-replace s c.id c.after w.entity w.found)
          ∙ ap ok (
              replace-replace s c.id c.before c.after
              ∙ replace_same s c.id c.before w.entity w.found w.before))

  apply_missing :
      (c : Change V) (s : Scene) {out : Change V × Scene}
      → lookup s c.id ≡ none
      → apply_change k c s ≡ ok out
      → ⊥
  unfolding apply_change
  apply_missing c s found e =
      let refused : apply_change k c s ≡ err not_found = rw (apply_change, found) refl in cc

  apply_refused :
      (c : Change V) (s : Scene) (x : Entity) {out : Change V × Scene}
      → c.captured ≡ false
      → lookup s c.id ≡ some x
      → k.editable (k.read x) ≡ false
      → apply_change k c s ≡ ok out
      → ⊥
  unfolding apply_change
  apply_refused c s x new found refuses e =
      let refused : apply_change k c s ≡ err not_found =
        rw (apply_change, found, new, refuses) refl in
      cc

  apply_first :
      (c : Change V) (s : Scene) (x : Entity)
      → c.captured ≡ false
      → lookup s c.id ≡ some x
      → k.editable (k.read x) ≡ true
      → apply_change k c s
        ≡ ok (record c { before = k.read x; captured = true }, replace s c.id (k.write c.after))
  unfolding apply_change capture
  apply_first c s x new found allows = rw (apply_change, found, new, allows) refl

  -- A command that was not applied before captures what it replaces.
  pub apply-Spans :
      (c d : Change V) (s t : Scene)
      → c.captured ≡ false
      → apply_change k c s ≡ ok (d, t)
      → Spans k d s t
  apply-Spans c d s t new e = elim (Option-cases (lookup s c.id)) [
    | inl z ↦ absurd (apply_missing c s z e)
    | inr (x, found) ↦ elim (Bool-cases (k.editable (k.read x))) [
      | inr refuses ↦ absurd (apply_refused c s x new found refuses e)
      | inl allows ↦
          let out = sym (apply_first c s x new found allows) ∙ e in
          let made : Change V = record c { before = k.read x; captured = true } in
          let same_change : made ≡ d = cc in
          let same_scene : replace s c.id (k.write c.after) ≡ t = cc in
          subst (λ b. Spans k b s t) same_change
            (record {
              captured = refl;
              entity = x;
              found = found;
              before = refl;
              after = sym same_scene;
            })
    ]
  ]

  -- A command that takes one scene to another and back spans them.
  pub both-Spans :
      (c : Change V) (s t : Scene)
      → apply_change k c s ≡ ok (c, t)
      → revert_change k c t ≡ ok s
      → Spans k c s t
  both-Spans c s t there back = elim (Bool-cases c.captured) [
    | inr new ↦ apply-Spans c c s t new there
    | inl seen ↦ elim (Option-cases (lookup s c.id)) [
      | inl z ↦ absurd (apply_missing c s z there)
      | inr (x, found) ↦
          let out = sym (apply_again c s x seen found) ∙ there in
          let same : replace s c.id (k.write c.after) ≡ t = cc in
          let again =
            sym (
              revert_found c (replace s c.id (k.write c.after)) (k.write c.after x)
                (lookup-replace s c.id c.after x found))
            ∙ (ap (revert_change k c) same ∙ back) in
          let restored : replace s c.id (k.write c.before) ≡ s =
            sym (replace-replace s c.id c.before c.after) ∙ ok-injective _ _ again in
          let twice : some (k.write c.before x) ≡ some x =
            sym (lookup-replace s c.id c.before x found)
            ∙ (ap (λ u. lookup u c.id) restored ∙ found) in
          let entity_same : k.write c.before x ≡ x = cc in
          record {
            captured = seen;
            entity = x;
            found = found;
            before = ap k.read (sym entity_same) ∙ law.read-write c.before x;
            after = sym same;
          }
    ]
  ]

  -- A merged command spans what the two spanned.
  pub merge-Spans :
      (c d e : Change V) (s t u : Scene)
      → Spans k c s t
      → Spans k d t u
      → merge_change c d ≡ some e
      → Spans k e s u
  unfolding merge_change
  merge-Spans c d e s t u v w m = elim (Bool-cases (d.id == c.id)) [
    | inr other ↦
        let refused : merge_change c d ≡ none = rw (merge_change, other) refl in absurd (cc)
    | inl same ↦
        let taken : merge_change c d ≡ some (record c { after = d.after }) =
          rw (merge_change, same) refl in
        let merged : some (record c { after = d.after }) ≡ some e = sym taken ∙ m in
        let is : record c { after = d.after } ≡ e = cc in
        let one_id : d.id ≡ c.id = (==_iff d.id c.id).0 same in
        subst (λ x. Spans k x s u) is
          (record {
            captured = v.captured;
            entity = v.entity;
            found = v.found;
            before = v.before;
            after =
                w.after
                ∙ (ap (λ i. replace t i (k.write d.after)) one_id
                    ∙ (ap (λ x. replace x c.id (k.write d.after)) v.after
                        ∙ replace-replace s c.id d.after c.after));
          })
  ]
