-- ===== src/Edit/Command/Reversal.antt =====
-- The commands are reversible, so the history over them takes back what it did.
use atlas_engine.Base.{◌≡◌, refl, ap, sym, ◌∙◌, subst, false, Option, none, some}
use atlas_engine.Core.Error.{Result, ok, err}
use atlas_engine.Simulation.SaveStream.{Bytes}
use atlas_engine.Edit.Scene.{LocalTransform, Animator, Scene}
use atlas_engine.Edit.Command.{
  Component, Change, apply_change, merge_change, as_edit, merged_as, merge_with, Edit, rename,
  set_local_transform, set_sprite, remove_sprite, set_animator, remove_animator, set_camera,
  remove_camera, apply_edit, merge_edit, edits, as_rename, as_set_local_transform, as_set_animator,
  rename_component, set_local_transform_component, set_sprite_component, remove_sprite_component,
  set_animator_component, remove_animator_component, set_camera_component, remove_camera_component,
}
use atlas_engine.Edit.Command.Laws.{
  Spans, Spans-apply, Spans-revert, apply-Spans, both-Spans, merge-Spans,
}
use atlas_engine.Edit.History.Laws.{Between, IsReversible}
use atlas_engine.Edit.Command.Classes.{
  IsClass, rename-IsClass, set_local_transform-IsClass, set_sprite-IsClass, remove_sprite-IsClass,
  set_animator-IsClass, remove_animator-IsClass, set_camera-IsClass, remove_camera-IsClass,
}

as_edit-ok :
    {V : Type 0} (make : Change V → Edit) (r : Result (Change V × Scene)) (d : Edit) (t : Scene)
    → as_edit make r ≡ ok (d, t)
    → (c : Change V) × (r ≡ ok (c, t)) × (make c ≡ d)
as_edit-ok make (err e) d t h = absurd (cc)
as_edit-ok make (ok (c, s)) d t h = let same : s ≡ t = cc in (c, ap (λ u. ok (c, u)) same, cc)

merged_as-some :
    {V : Type 0} (make : Change V → Edit) (o : Option (Change V)) (e : Edit)
    → merged_as make o ≡ some e
    → (m : Change V) × (o ≡ some m) × (make m ≡ e)
merged_as-some make none e h = absurd (cc)
merged_as-some make (some m) e h = (m, refl, cc)

module _ {V : Type 0} (k : Component V) (make : Change V → Edit) (class : IsClass k make) where
  Spans-Between : (c : Change V) (s t : Scene) → Spans k c s t → Between edits (make c) s t
  unfolding Between
  Spans-Between c s t w = (
    class.applies c s ∙ ap (as_edit make) (Spans-apply k class.component c s t w),
    class.reverts c t ∙ Spans-revert k class.component c s t w,
  )

  Between-Spans : (c : Change V) (s t : Scene) → Between edits (make c) s t → Spans k c s t
  unfolding Between
  Between-Spans c s t (there, back) =
      let (d, e, same) =
        as_edit-ok make (apply_change k c s) (make c) t (sym (class.applies c s) ∙ there) in
      let is : d ≡ c = class.injective d c same in
      both-Spans k class.component c s t (e ∙ ap (λ x. ok (x, t)) is)
        (sym (class.reverts c t) ∙ back)

  applied_once :
      (c : Change V) (d : Edit) (s t : Scene)
      → c.captured ≡ false
      → apply_edit (make c) s ≡ ok (d, t)
      → Between edits d s t
  applied_once c d s t new e =
      let (made, out, same) =
        as_edit-ok make (apply_change k c s) d t (sym (class.applies c s) ∙ e) in
      subst (λ x. Between edits x s t) same
        (Spans-Between made s t (apply-Spans k class.component c made s t new out))

  merged_pair :
      (c d : Change V) (e : Edit) (s t u : Scene)
      → Between edits (make c) s t
      → Between edits (make d) t u
      → merged_as make (merge_change c d) ≡ some e
      → Between edits e s u
  merged_pair c d e s t u v w m =
      let (made, out, same) = merged_as-some make (merge_change c d) e m in
      subst (λ x. Between edits x s u) same
        (Spans-Between made s u (
          merge-Spans k class.component c d made s t u (Between-Spans c s t v)
            (Between-Spans d t u w) out))

  merged_with :
      (c : Change V) (o : Option (Change V)) (d e : Edit) (s t u : Scene)
      → ((x : Change V) → o ≡ some x → d ≡ make x)
      → Between edits (make c) s t
      → Between edits d t u
      → merge_with make c o ≡ some e
      → Between edits e s u
  unfolding merge_with
  merged_with c none d e s t u is v w m = absurd (cc)
  merged_with c (some x) d e s t u is v w m =
      merged_pair c x e s t u v (subst (λ y. Between edits y t u) (is x refl) w) m

as_rename-some : (d : Edit) (x : Change Bytes) → as_rename d ≡ some x → d ≡ rename x
unfolding as_rename
as_rename-some (rename c) x e = cc
as_rename-some _ x e = absurd (cc)

as_set_local_transform-some :
    (d : Edit) (x : Change LocalTransform)
    → as_set_local_transform d ≡ some x
    → d ≡ set_local_transform x
unfolding as_set_local_transform
as_set_local_transform-some (set_local_transform c) x e = cc
as_set_local_transform-some _ x e = absurd (cc)

as_set_animator-some :
    (d : Edit) (x : Change (Option Animator)) → as_set_animator d ≡ some x → d ≡ set_animator x
unfolding as_set_animator
as_set_animator-some (set_animator c) x e = cc
as_set_animator-some _ x e = absurd (cc)

-- The command has not been applied.
abbrev pub IsFresh : Edit → Type 0
IsFresh (rename c) = c.captured ≡ false
IsFresh (set_local_transform c) = c.captured ≡ false
IsFresh (set_sprite c) = c.captured ≡ false
IsFresh (remove_sprite c) = c.captured ≡ false
IsFresh (set_animator c) = c.captured ≡ false
IsFresh (remove_animator c) = c.captured ≡ false
IsFresh (set_camera c) = c.captured ≡ false
IsFresh (remove_camera c) = c.captured ≡ false

applied_law :
    (c d : Edit) (s t : Scene) → IsFresh c → apply_edit c s ≡ ok (d, t) → Between edits d s t
applied_law (rename c) d s t new e =
    applied_once rename_component rename rename-IsClass c d s t new e
applied_law (set_local_transform c) d s t new e =
    applied_once set_local_transform_component set_local_transform set_local_transform-IsClass c d s
      t new e
applied_law (set_sprite c) d s t new e =
    applied_once set_sprite_component set_sprite set_sprite-IsClass c d s t new e
applied_law (remove_sprite c) d s t new e =
    applied_once remove_sprite_component remove_sprite remove_sprite-IsClass c d s t new e
applied_law (set_animator c) d s t new e =
    applied_once set_animator_component set_animator set_animator-IsClass c d s t new e
applied_law (remove_animator c) d s t new e =
    applied_once remove_animator_component remove_animator remove_animator-IsClass c d s t new e
applied_law (set_camera c) d s t new e =
    applied_once set_camera_component set_camera set_camera-IsClass c d s t new e
applied_law (remove_camera c) d s t new e =
    applied_once remove_camera_component remove_camera remove_camera-IsClass c d s t new e

merged_law :
    (c d e : Edit) (s t u : Scene)
    → Between edits c s t
    → Between edits d t u
    → merge_edit c d ≡ some e
    → Between edits e s u
unfolding merge_edit
merged_law (rename c) d e s t u v w m =
    merged_with rename_component rename rename-IsClass c (as_rename d) d e s t u (as_rename-some d)
      v w m
merged_law (set_local_transform c) d e s t u v w m =
    merged_with set_local_transform_component set_local_transform set_local_transform-IsClass c
      (as_set_local_transform d) d e s t u (as_set_local_transform-some d) v w m
merged_law (set_sprite c) d e s t u v w m = absurd (cc)
merged_law (remove_sprite c) d e s t u v w m = absurd (cc)
merged_law (set_animator c) d e s t u v w m =
    merged_with set_animator_component set_animator set_animator-IsClass c (as_set_animator d) d e s
      t u (as_set_animator-some d) v w m
merged_law (remove_animator c) d e s t u v w m = absurd (cc)
merged_law (set_camera c) d e s t u v w m = absurd (cc)
merged_law (remove_camera c) d e s t u v w m = absurd (cc)

-- What the history asks of its commands holds of these.
pub edits-IsReversible : IsReversible edits IsFresh
edits-IsReversible = record { applied = applied_law; merged = merged_law }
