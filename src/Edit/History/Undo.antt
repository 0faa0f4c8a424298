-- ===== src/Edit/History/Undo.antt =====
-- Undo and redo on a valid history: neither fails, and each takes the other back.
use atlas_engine.Base.{
  ℕ, ◌+◌, ◌≤◌, ◌≡◌, refl, ap, sym, ◌∙◌, subst, arith, dec_lt, All, true, false, Option, none, some,
  List, [], ◌∷◌, length, u64, ◌⊎◌, inl, inr,
}
use atlas_engine.Core.Error.{Result, ErrorCode, ok, err}
use atlas_engine.Edit.History.{
  Commands, Coalesce, apart, History, new_history, clear, break_coalescing, push_undo, pop_oldest,
  record_command, keep, apply, undo, redo,
}
use atlas_engine.Edit.History.Laws.{Between, IsReversible, Past, Future, IsValid, keep-IsValid}

Result-cases {ℓ} :
    {A : Type ℓ} (r : Result A) → ((x : A) × (r ≡ ok x)) ⊎ ((e : ErrorCode) × (r ≡ err e))
Result-cases (ok x) = inl (x, refl)
Result-cases (err e) = inr (e, refl)

-- The calls of a history.
pub data Op (Cmd : Type 0) : Type 0 where
  applies : Option Cmd → Coalesce → Op Cmd
  undoes redoes clears breaks : Op Cmd

-- An edit brings a command that was not applied before.
abbrev pub IsNewOp : {Cmd : Type 0} → (Cmd → Type 0) → Op Cmd → Type 0
IsNewOp New (applies (some c) coalesce) = New c
IsNewOp New (applies none coalesce) = Unit
IsNewOp New undoes = Unit
IsNewOp New redoes = Unit
IsNewOp New clears = Unit
IsNewOp New breaks = Unit

module _ {Scene Cmd : Type 0} (K : Commands Scene Cmd) where
  unfoldable pub step : History Scene Cmd → Op Cmd → History Scene Cmd
  step h (applies c coalesce) = (apply K h c coalesce).1
  step h undoes = (undo K h).1
  step h redoes = (redo K h).1
  step h clears = clear h
  step h breaks = break_coalescing h

  unfoldable pub run : History Scene Cmd → List (Op Cmd) → History Scene Cmd
  unfolding step
  run h [] = h
  run h (o ∷ os) = run (step h o) os

  stepped_back : History Scene Cmd → Scene → Cmd → List Cmd → History Scene Cmd
  stepped_back h s c rest = record h {
    scene = s;
    undo_stack = rest;
    redo_stack = c ∷ h.redo_stack;
    coalescing_open = false;
    revision = u64 (h.revision + 1);
  }

  stepped_on : History Scene Cmd → Scene → Cmd → List Cmd → History Scene Cmd
  stepped_on h t c rest = record h {
    scene = t;
    undo_stack = c ∷ h.undo_stack;
    redo_stack = rest;
    coalescing_open = false;
    revision = u64 (h.revision + 1);
  }

  undo_some :
      (h : History Scene Cmd) (c : Cmd) (rest : List Cmd) (s : Scene)
      → h.undo_stack ≡ c ∷ rest
      → K.revert c h.scene ≡ ok s
      → undo K h ≡ (true, stepped_back h s c rest)
  unfolding undo stepped_back
  undo_some h c rest s e r = rw (undo, e, r) refl

  undo_none : (h : History Scene Cmd) → h.undo_stack ≡ [] → undo K h ≡ (false, h)
  unfolding undo
  undo_none h e = simp (undo, e)

  redo_some :
      (h : History Scene Cmd) (c d : Cmd) (rest : List Cmd) (t : Scene)
      → h.redo_stack ≡ c ∷ rest
      → K.apply c h.scene ≡ ok (d, t)
      → redo K h ≡ (true, stepped_on h t d rest)
  unfolding redo stepped_on
  redo_some h c d rest t e r = rw (redo, e, r) refl

  redo_none : (h : History Scene Cmd) → h.redo_stack ≡ [] → redo K h ≡ (false, h)
  unfolding redo
  redo_none h e = simp (redo, e)

  apply_ok :
      (h : History Scene Cmd) (c d : Cmd) (t : Scene) (coalesce : Coalesce)
      → K.apply c h.scene ≡ ok (d, t)
      → apply K h (some c) coalesce
        ≡ (ok tt, keep K (record h { scene = t; revision = u64 (h.revision + 1) }) coalesce d)
  unfolding apply
  apply_ok h c d t coalesce r = rw (apply, r) refl

  apply_err :
      (h : History Scene Cmd) (c : Cmd) (e : ErrorCode) (coalesce : Coalesce)
      → K.apply c h.scene ≡ err e
      → apply K h (some c) coalesce ≡ (err e, h)
  unfolding apply
  apply_err h c e coalesce r = rw (apply, r) refl

  List-cases : (l : List Cmd) → (l ≡ []) ⊎ ((c : Cmd) × (rest : List Cmd) × (l ≡ c ∷ rest))
  List-cases [] = inl refl
  List-cases (c ∷ rest) = inr (c, rest, refl)

  -- A step back from a valid history, to the scene before its latest command.
  stepped_back-IsValid :
      (h : History Scene Cmd) (c : Cmd) (rest : List Cmd)
      → IsValid K h
      → h.undo_stack ≡ c ∷ rest
      → (s : Scene) × (K.revert c h.scene ≡ ok s) × IsValid K (stepped_back h s c rest)
  unfolding Past Future Between stepped_back
  stepped_back-IsValid h c rest v e =
      let p : Past K (c ∷ rest) h.scene = subst (λ l. Past K l h.scene) e v.past in
      let (s, b, older) = p in
      (
        s,
        b.1,
        record {
          past = older;
          future = (h.scene, b, v.future);
          bounded = omega (arith, v.bounded, ap length e);
          room = v.room;
          settled = inl refl;
        },
      )

  apply_null :
      (h : History Scene Cmd) (coalesce : Coalesce)
      → IsValid K h
      → IsValid K (apply K h none coalesce).1
  unfolding apply
  apply_null h coalesce v = v

  clear-IsValid : (h : History Scene Cmd) → IsValid K h → IsValid K (clear h)
  unfolding clear Past Future
  clear-IsValid h v = record {
    past = tt;
    future = tt;
    bounded = omega (arith, v.room);
    room = v.room;
    settled = inr refl;
  }

  break_coalescing-IsValid : (h : History Scene Cmd) → IsValid K h → IsValid K (break_coalescing h)
  unfolding break_coalescing
  break_coalescing-IsValid h v = record {
    past = v.past;
    future = v.future;
    bounded = v.bounded;
    room = v.room;
    settled = inl refl;
  }

  new_history-IsValid : (s : Scene) (n : ℕ) → IsValid K (new_history s n)
  unfolding new_history Past Future
  new_history-IsValid s n = record {
    past = tt;
    future = tt;
    bounded = omega arith;
    room = ground arith;
    settled = inr refl;
  }

  stepped_on-IsValid :
      (h : History Scene Cmd) (c : Cmd) (rest : List Cmd)
      → IsValid K h
      → h.redo_stack ≡ c ∷ rest
      → (t : Scene) × (K.apply c h.scene ≡ ok (c, t)) × IsValid K (stepped_on h t c rest)
  unfolding Past Future Between stepped_on
  stepped_on-IsValid h c rest v e =
      let p : Future K (c ∷ rest) h.scene = subst (λ l. Future K l h.scene) e v.future in
      let (t, b, later) = p in
      (
        t,
        b.0,
        record {
          past = (h.scene, b, v.past);
          future = later;
          bounded = omega (arith, v.bounded, ap length e);
          room = v.room;
          settled = inl refl;
        },
      )

  step-IsValid :
      {New : Cmd → Type 0} (law : IsReversible K New) (h : History Scene Cmd) (o : Op Cmd)
      → IsNewOp New o
      → IsValid K h
      → IsValid K (step h o)
  unfolding step
  step-IsValid law h (applies none coalesce) w v = apply_null h coalesce v
  step-IsValid law h (applies (some c) coalesce) w v = elim (Result-cases (K.apply c h.scene)) [
    | inl ((d, t), e) ↦
        subst (λ r. IsValid K r.1) (sym (apply_ok h c d t coalesce e))
          (keep-IsValid K law h coalesce d t (u64 (h.revision + 1)) v
            (law.applied c d h.scene t w e))
    | inr (x, e) ↦ subst (λ r. IsValid K r.1) (sym (apply_err h c x coalesce e)) v
  ]
  step-IsValid law h undoes w v = elim (List-cases h.undo_stack) [
    | inl e ↦ subst (λ r. IsValid K r.1) (sym (undo_none h e)) v
    | inr (c, rest, e) ↦
        let (s, r, after) = stepped_back-IsValid h c rest v e in
        subst (λ r. IsValid K r.1) (sym (undo_some h c rest s e r)) after
  ]
  step-IsValid law h redoes w v = elim (List-cases h.redo_stack) [
    | inl e ↦ subst (λ r. IsValid K r.1) (sym (redo_none h e)) v
    | inr (c, rest, e) ↦
        let (t, r, after) = stepped_on-IsValid h c rest v e in
        subst (λ r. IsValid K r.1) (sym (redo_some h c c rest t e r)) after
  ]
  step-IsValid law h clears w v = clear-IsValid h v
  step-IsValid law h breaks w v = break_coalescing-IsValid h v

  run-IsValid :
      {New : Cmd → Type 0} (law : IsReversible K New) (h : History Scene Cmd) (os : List (Op Cmd))
      → All (IsNewOp New) os
      → IsValid K h
      → IsValid K (run h os)
  unfolding run
  run-IsValid law h [] w v = v
  run-IsValid law h (o ∷ os) w v = run-IsValid law (step h o) os w.1 (step-IsValid law h o w.0 v)

  -- With commands that reverse themselves, whatever calls are made on a new history, each edit with a
  -- command that was not applied before: each command to
  -- undo takes the present back to the scene before it and each command to redo goes on from there,
  -- the two stacks together stay within the capacity, and an edit that may still grow leaves nothing
  -- to redo.
  pub run-new_history-IsValid :
      {New : Cmd → Type 0} (scene : Scene) (capacity : ℕ) (os : List (Op Cmd))
      → IsReversible K New
      → All (IsNewOp New) os
      → IsValid K (run (new_history scene capacity) os)
  run-new_history-IsValid scene capacity os law w =
      run-IsValid law (new_history scene capacity) os w (new_history-IsValid scene capacity)

  -- On a valid history with something to undo, `undo` succeeds, and a `redo` after it succeeds and
  -- brings back the scene and both stacks.
  pub undo-redo :
      (h : History Scene Cmd) (c : Cmd) (rest : List Cmd)
      → IsValid K h
      → h.undo_stack ≡ c ∷ rest
      → let (undone, back) = undo K h in
        let (redone, again) = redo K back in
        (undone ≡ true)
        × (redone ≡ true)
        × (again.scene ≡ h.scene)
        × (again.undo_stack ≡ h.undo_stack)
        × (again.redo_stack ≡ h.redo_stack)
  unfolding Past Between stepped_back stepped_on
  undo-redo h c rest v e =
      let p : Past K (c ∷ rest) h.scene = subst (λ l. Past K l h.scene) e v.past in
      let (s, (a, r), _) = p in
      rw (undo_some h c rest s e r) (
        rw (redo_some (stepped_back h s c rest) c c h.redo_stack h.scene refl a)
          (refl, refl, refl, sym e, refl))

  push_undo-head :
      (n : ℕ) (c : Cmd) (cs : List Cmd) → 1 ≤ n → (rest : List Cmd) × (push_undo n c cs ≡ c ∷ rest)
  unfolding push_undo pop_oldest
  push_undo-head n c [] h = ([], ground arith)
  push_undo-head n c (d ∷ cs) h = elim (dec_lt n (length (c ∷ d ∷ cs))) [
    | yes full ↦ (pop_oldest (d ∷ cs), ground arith)
    | no fits ↦ (d ∷ cs, ground arith)
  ]

  keep-head :
      (h : History Scene Cmd) (d : Cmd)
      → 1 ≤ h.capacity
      → (rest : List Cmd) × ((keep K h apart d).undo_stack ≡ d ∷ rest)
        × ((keep K h apart d).scene ≡ h.scene)
  unfolding keep record_command
  keep-head h d room =
      let (rest, e) = push_undo-head h.capacity d h.undo_stack room in (rest, e, refl)

  -- On a valid history, with commands that reverse themselves: after an edit on its own that succeeds,
  -- with a command that was not applied before,
  -- `undo` succeeds and brings back the scene from before the edit.
  pub apply-undo :
      {New : Cmd → Type 0} (h : History Scene Cmd) (c d : Cmd) (t : Scene)
      → IsReversible K New
      → New c
      → IsValid K h
      → K.apply c h.scene ≡ ok (d, t)
      → ((apply K h (some c) apart).0 ≡ ok tt)
        × ((apply K h (some c) apart).1.scene ≡ t)
        × ((undo K (apply K h (some c) apart).1).0 ≡ true)
        × ((undo K (apply K h (some c) apart).1).1.scene ≡ h.scene)
  unfolding Between stepped_back
  apply-undo h c d t law w v e =
      let g : History Scene Cmd = record h { scene = t; revision = u64 (h.revision + 1) } in
      let (_, r) = law.applied c d h.scene t w e in
      let (rest, top, same) = keep-head g d v.room in
      let back : K.revert d (keep K g apart d).scene ≡ ok h.scene = ap (K.revert d) same ∙ r in
      rw (apply_ok h c d t apart e, undo_some (keep K g apart d) d rest h.scene top back)
        (refl, same, refl, refl)
