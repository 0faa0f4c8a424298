-- ===== src/Edit/History/Laws.antt =====
-- Both stacks stay replayable: every command below the present can be reverted and every one above it
-- applied again, so undo and redo do not fail and take each other back.
use atlas_engine.Base.{
  ℕ, suc, ◌+◌, ◌≤◌, ◌<◌, ◌≡◌, refl, ap, sym, subst, arith, Bool, true, false, ◌&&◌, none, some,
  List, [], ◌∷◌, length, dec_lt, Bool-cases, Option-cases, ◌⊎◌, inl, inr,
}
use atlas_engine.Core.Error.{ok}
use atlas_engine.Edit.History.{
  Commands, Coalesce, is_with_previous, History, pop_oldest, push_undo, merge_latest,
  record_command, keep,
}

module _ {Scene Cmd : Type 0} (K : Commands Scene Cmd) where
  -- The command stands between the two scenes: it takes one to the other and back.
  unfoldable pub Between : Cmd → Scene → Scene → Type 0
  Between c s t = (K.apply c s ≡ ok (c, t)) × (K.revert c t ≡ ok s)

  -- What `edit::Command` documents: a command that has not been applied before is, once it is, between
  -- the scene before and the scene after; a merged one is between the first scene and the last.
  pub record IsReversible (New : Cmd → Type 0) : Type 0 where
    pub applied : (c d : Cmd) (s t : Scene) → New c → K.apply c s ≡ ok (d, t) → Between d s t
    pub merged :
        (c d e : Cmd) (s t u : Scene)
        → Between c s t
        → Between d t u
        → K.merge c d ≡ some e
        → Between e s u

  -- The commands of the undo stack, from the present back.
  unfoldable pub Past : List Cmd → Scene → Type 0
  Past [] t = Unit
  Past (c ∷ cs) t = (s : Scene) × Between c s t × Past cs s

  unfoldable pub Future : List Cmd → Scene → Type 0
  Future [] s = Unit
  Future (c ∷ cs) s = (t : Scene) × Between c s t × Future cs t

  Future_none : (t : Scene) → Future [] t
  unfolding Future
  Future_none t = tt

  pub record IsValid (h : History Scene Cmd) : Type 0 where
    pub past : Past h.undo_stack h.scene
    pub future : Future h.redo_stack h.scene
    pub bounded : length h.undo_stack + length h.redo_stack ≤ h.capacity
    pub room : 1 ≤ h.capacity
    pub settled : (h.coalescing_open ≡ false) ⊎ (h.redo_stack ≡ [])

  Past-pop_oldest : (cs : List Cmd) (t : Scene) → Past cs t → Past (pop_oldest cs) t
  unfolding pop_oldest Past
  Past-pop_oldest [] t p = tt
  Past-pop_oldest (c ∷ []) t p = tt
  Past-pop_oldest (c ∷ d ∷ rest) t (s, b, p) = (s, b, Past-pop_oldest (d ∷ rest) s p)

  length-pop_oldest : (c : Cmd) (cs : List Cmd) → length (pop_oldest (c ∷ cs)) ≡ length cs
  unfolding pop_oldest
  length-pop_oldest c [] = refl
  length-pop_oldest c (d ∷ rest) = ap suc (length-pop_oldest d rest)

  push_undo_full :
      (n : ℕ) (c : Cmd) (cs : List Cmd)
      → n < length (c ∷ cs)
      → push_undo n c cs ≡ pop_oldest (c ∷ cs)
  unfolding push_undo
  push_undo_full n c cs h = ground arith

  push_undo_fits :
      (n : ℕ) (c : Cmd) (cs : List Cmd) → length (c ∷ cs) ≤ n → push_undo n c cs ≡ c ∷ cs
  unfolding push_undo
  push_undo_fits n c cs h = ground arith

  push_undo_lem :
      (n : ℕ) (c : Cmd) (cs : List Cmd) (t : Scene)
      → length cs ≤ n
      → Past (c ∷ cs) t
      → Past (push_undo n c cs) t × (length (push_undo n c cs) ≤ n)
  push_undo_lem n c cs t l p = elim (dec_lt n (length (c ∷ cs))) [
    | yes full ↦
        rw (push_undo_full n c cs full)
          (Past-pop_oldest (c ∷ cs) t p, omega (arith, length-pop_oldest c cs))
    | no fits ↦
        let e : push_undo n c cs ≡ c ∷ cs = push_undo_fits n c cs (omega arith) in
        rw e (p, omega arith)
  ]

  record_command-IsValid :
      (h : History Scene Cmd) (coalesce : Coalesce) (c : Cmd)
      → Past (c ∷ h.undo_stack) h.scene
      → length h.undo_stack ≤ h.capacity
      → 1 ≤ h.capacity
      → IsValid (record_command K h coalesce c)
  unfolding record_command Future
  record_command-IsValid h coalesce c p l r =
      let (past, bounded) = push_undo_lem h.capacity c h.undo_stack h.scene l p in
      record {
        past = past;
        future = tt;
        bounded = omega (arith, bounded);
        room = r;
        settled = inr refl;
      }

  merge_latest_empty : (c : Cmd) (ms : List Cmd) → merge_latest K [] c ≡ some ms → ⊥
  unfolding merge_latest
  merge_latest_empty c ms e = cc

  merge_latest-none :
      (d : Cmd) (rest : List Cmd) (c : Cmd)
      → K.merge d c ≡ none
      → merge_latest K (d ∷ rest) c ≡ none
  unfolding merge_latest
  merge_latest-none d rest c z = rw (merge_latest, z) refl

  merge_latest-some :
      (d : Cmd) (rest : List Cmd) (c m : Cmd)
      → K.merge d c ≡ some m
      → merge_latest K (d ∷ rest) c ≡ some (m ∷ rest)
  unfolding merge_latest
  merge_latest-some d rest c m z = rw (merge_latest, z) refl

  -- A merge replaces the latest command by one that reaches further.
  merge_latest_lem :
      {New : Cmd → Type 0} (law : IsReversible New) (cs ms : List Cmd) (c : Cmd) (t u : Scene)
      → Past cs t
      → Between c t u
      → merge_latest K cs c ≡ some ms
      → Past ms u × (length ms ≡ length cs)
  unfolding Past
  merge_latest_lem law [] ms c t u p b e = absurd (merge_latest_empty c ms e)
  merge_latest_lem law (d ∷ rest) ms c t u (s, a, p) b e = elim (Option-cases (K.merge d c)) [
    | inl z ↦
        let refused : merge_latest K (d ∷ rest) c ≡ none = merge_latest-none d rest c z in
        absurd (cc)
    | inr (m, z) ↦
        let taken : merge_latest K (d ∷ rest) c ≡ some (m ∷ rest) =
          merge_latest-some d rest c m z in
        let same : m ∷ rest ≡ ms = cc in
        subst (λ l. Past l u × (length l ≡ length (d ∷ rest))) same
          ((s, law.merged d c m s t u a b z, p), refl)
  ]

  keep_apart :
      (h : History Scene Cmd) (coalesce : Coalesce) (c : Cmd)
      → (is_with_previous coalesce && h.coalescing_open) ≡ false
      → keep K h coalesce c ≡ record_command K h coalesce c
  unfolding keep
  keep_apart h coalesce c e = rw (keep, e) refl

  keep_unmerged :
      (h : History Scene Cmd) (coalesce : Coalesce) (c : Cmd)
      → merge_latest K h.undo_stack c ≡ none
      → keep K h coalesce c ≡ record_command K h coalesce c
  unfolding keep
  keep_unmerged h coalesce c e =
      elim (Bool-cases (is_with_previous coalesce && h.coalescing_open)) [
        | inl opened ↦ rw (keep, opened, e) refl
        | inr closed ↦ rw (keep, closed) refl
      ]

  keep_merged :
      (h : History Scene Cmd) (coalesce : Coalesce) (c : Cmd) (ms : List Cmd)
      → (is_with_previous coalesce && h.coalescing_open) ≡ true
      → merge_latest K h.undo_stack c ≡ some ms
      → keep K h coalesce c ≡ record h { undo_stack = ms }
  unfolding keep
  keep_merged h coalesce c ms opened e = rw (keep, opened, e) refl

  and-right : (a b : Bool) → (a && b) ≡ true → b ≡ true
  and-right true b e = e
  and-right false b e = absurd (cc)

  pub keep-IsValid :
      {New : Cmd → Type 0} (law : IsReversible New) (h : History Scene Cmd) (coalesce : Coalesce)
      (c : Cmd) (t : Scene) (n : ℕ)
      → IsValid h
      → Between c h.scene t
      → IsValid (keep K (record h { scene = t; revision = n }) coalesce c)
  unfolding Past
  keep-IsValid law h coalesce c t n v b =
      let g : History Scene Cmd = record h { scene = t; revision = n } in
      let apart : IsValid (record_command K g coalesce c) =
        record_command-IsValid g coalesce c (h.scene, b, v.past) (omega (arith, v.bounded))
          v.room in
      elim (Bool-cases (is_with_previous coalesce && h.coalescing_open)) [
        | inr closed ↦ subst IsValid (sym (keep_apart g coalesce c closed)) apart
        | inl opened ↦ elim (Option-cases (merge_latest K h.undo_stack c)) [
          | inl z ↦ subst IsValid (sym (keep_unmerged g coalesce c z)) apart
          | inr (ms, z) ↦
              let (past, same) = merge_latest_lem law h.undo_stack ms c h.scene t v.past b z in
              let settled : h.redo_stack ≡ [] = elim v.settled [
                | inl e ↦
                    let o : h.coalescing_open ≡ true =
                      and-right (is_with_previous coalesce) h.coalescing_open opened in
                    absurd (cc)
                | inr e ↦ e
              ] in
              subst IsValid (sym (keep_merged g coalesce c ms opened z)) (record {
                past = past;
                future = subst (λ l. Future l t) (sym settled) (Future_none t);
                bounded = omega (arith, v.bounded, same);
                room = v.room;
                settled = inr settled;
              })
        ]
      ]
