-- ===== src/Edit/Scene/Replace.antt =====
-- What a lookup finds after a component was written, and what a second write leaves.
use atlas_engine.Base.{
  ℕ, ◌≡◌, refl, ap, sym, ◌∙◌, true, false, Bool-cases, some, List, [], ◌∷◌, ◌==◌, inl, inr,
}
use atlas_engine.Edit.Scene.{Entity, lookup_in, replace_in}

module _ (id : ℕ) where
  lookup_none : (e : Entity) → lookup_in id [] ≡ some e → ⊥
  unfolding lookup_in
  lookup_none e found = cc

  replace_none : (f : Entity → Entity) → replace_in id f [] ≡ []
  unfolding replace_in
  replace_none f = refl

  lookup_here :
      (x : Entity) (es : List Entity) → (x.id == id) ≡ true → lookup_in id (x ∷ es) ≡ some x
  unfolding lookup_in
  lookup_here x es h = rw h refl

  lookup_there :
      (x : Entity) (es : List Entity)
      → (x.id == id) ≡ false
      → lookup_in id (x ∷ es) ≡ lookup_in id es
  unfolding lookup_in
  lookup_there x es h = rw h refl

  replace_here :
      (f : Entity → Entity) (x : Entity) (es : List Entity)
      → (x.id == id) ≡ true
      → replace_in id f (x ∷ es) ≡ f x ∷ es
  unfolding replace_in
  replace_here f x es h = rw h refl

  replace_there :
      (f : Entity → Entity) (x : Entity) (es : List Entity)
      → (x.id == id) ≡ false
      → replace_in id f (x ∷ es) ≡ x ∷ replace_in id f es
  unfolding replace_in
  replace_there f x es h = rw h refl

  pub lookup-replace_in :
      (f : Entity → Entity) (es : List Entity) (e : Entity)
      → ((x : Entity) → (f x).id ≡ x.id)
      → lookup_in id es ≡ some e
      → lookup_in id (replace_in id f es) ≡ some (f e)
  lookup-replace_in f [] e keeps found = absurd (lookup_none e found)
  lookup-replace_in f (x ∷ es) e keeps found = elim (Bool-cases (x.id == id)) [
    | inl here ↦
        let same : some x ≡ some e = sym (lookup_here x es here) ∙ found in
        ap (lookup_in id) (replace_here f x es here)
        ∙ (lookup_here (f x) es (ap (λ i. i == id) (keeps x) ∙ here) ∙ ap some (ap f (cc)))
    | inr there ↦
        ap (lookup_in id) (replace_there f x es there)
        ∙ (lookup_there x (replace_in id f es) there
            ∙ lookup-replace_in f es e keeps (sym (lookup_there x es there) ∙ found))
  ]

  pub replace-replace_in :
      (f g h : Entity → Entity) (es : List Entity)
      → ((x : Entity) → (g x).id ≡ x.id)
      → ((x : Entity) → f (g x) ≡ h x)
      → replace_in id f (replace_in id g es) ≡ replace_in id h es
  replace-replace_in f g h [] keeps both =
      ap (replace_in id f) (replace_none g) ∙ (replace_none f ∙ sym (replace_none h))
  replace-replace_in f g h (x ∷ es) keeps both = elim (Bool-cases (x.id == id)) [
    | inl here ↦
        ap (replace_in id f) (replace_here g x es here)
        ∙ (replace_here f (g x) es (ap (λ i. i == id) (keeps x) ∙ here)
            ∙ (ap (λ y. y ∷ es) (both x) ∙ sym (replace_here h x es here)))
    | inr there ↦
        ap (replace_in id f) (replace_there g x es there)
        ∙ (replace_there f x (replace_in id g es) there
            ∙ (ap (λ ys. x ∷ ys) (replace-replace_in f g h es keeps both)
                ∙ sym (replace_there h x es there)))
  ]

  pub replace_in_same :
      (f : Entity → Entity) (es : List Entity) (e : Entity)
      → lookup_in id es ≡ some e
      → f e ≡ e
      → replace_in id f es ≡ es
  replace_in_same f [] e found same = replace_none f
  replace_in_same f (x ∷ es) e found same = elim (Bool-cases (x.id == id)) [
    | inl here ↦
        let it : some x ≡ some e = sym (lookup_here x es here) ∙ found in
        let x_is : x ≡ e = cc in
        replace_here f x es here ∙ ap (λ y. y ∷ es) (ap f x_is ∙ (same ∙ sym x_is))
    | inr there ↦
        replace_there f x es there
        ∙ ap (λ ys. x ∷ ys) (replace_in_same f es e (sym (lookup_there x es there) ∙ found) same)
  ]
