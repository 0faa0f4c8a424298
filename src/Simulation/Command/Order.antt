-- ===== src/Simulation/Command/Order.antt =====
-- The order that `drain` sorts by is the lexicographic order of a key, so it is total up to the
-- target tick, which the comparison leaves out.
use Prim.Native.Nat.{ℕ}
use atlas_engine.Base.{
  ◌≡◌, refl, ◌∙◌, ap, sym, Bool, true, false, Bool-cases, inl, inr, List, [], ◌∷◌, map, arith, ltb,
}
use atlas_engine.Base.Lex.{lex_less, sort_by, insert_by, insert_comm}
use atlas_engine.Simulation.Command.{Command, precedes, due}
use mathlib.Core.List.{Perm, Permᴰ}
use mathlib.Core.Logic.{∥∥₁_elim}

abbrev pub key : Command → List ℕ
key c = c.source ∷ c.sequence ∷ c.type ∷ c.payload

pub precedes_lem : (a b : Command) → precedes a b ≡ lex_less (key a) (key b)
unfolding precedes lex_less
precedes_lem a b = ground arith

insert_by-map :
    (c : Command) (cs : List Command)
    → map key (insert_by precedes c cs) ≡ insert_by lex_less (key c) (map key cs)
unfolding insert_by
insert_by-map c [] = refl
insert_by-map c (d ∷ ds) = ground (arith, precedes_lem d c, insert_by-map c ds)

sort_by-map : (cs : List Command) → map key (sort_by precedes cs) ≡ sort_by lex_less (map key cs)
unfolding sort_by
sort_by-map [] = refl
sort_by-map (c ∷ cs) =
    insert_by-map c (sort_by precedes cs) ∙ ap (insert_by lex_less (key c)) (sort_by-map cs)

-- The sorted keys of what is due.
abbrev due_keys : ℕ → List Command → List (List ℕ)
due_keys tick cs = sort_by lex_less (map key (due tick cs))

insert_unless : Bool → List ℕ → List (List ℕ) → List (List ℕ)
insert_unless true k l = l
insert_unless false k l = insert_by lex_less k l

insert_unless_comm :
    (b c : Bool) (x y : List ℕ) (l : List (List ℕ))
    → insert_unless b x (insert_unless c y l) ≡ insert_unless c y (insert_unless b x l)
unfolding insert_unless
insert_unless_comm true c x y l = refl
insert_unless_comm false true x y l = refl
insert_unless_comm false false x y l = insert_comm x y l

due_keys-cons :
    (tick : ℕ) (c : Command) (cs : List Command)
    → due_keys tick (c ∷ cs) ≡ insert_unless (ltb tick c.target) (key c) (due_keys tick cs)
unfolding due sort_by insert_unless
due_keys-cons tick c cs = elim (Bool-cases (ltb tick c.target)) [ inl e ↦ rw e | inr e ↦ rw e ]

due_keys-permᴰ :
    (tick : ℕ) {xs ys : List Command} → Permᴰ xs ys → due_keys tick xs ≡ due_keys tick ys
due_keys-permᴰ tick Permᴰ.nil = refl
due_keys-permᴰ tick (Permᴰ.cons {b} {l₁} {l₂} e p) =
    rw (e, due_keys-cons tick b l₁, due_keys-cons tick b l₂, due_keys-permᴰ tick p)
due_keys-permᴰ tick (Permᴰ.swap {a'} {b'} {l} e f) =
    rw
      (
        e,
        f,
        due_keys-cons tick b' (a' ∷ l),
        due_keys-cons tick a' l,
        due_keys-cons tick a' (b' ∷ l),
        due_keys-cons tick b' l,
      )
      (insert_unless_comm _ _ (key b') (key a') (due_keys tick l))
due_keys-permᴰ tick (Permᴰ.trans p q) = due_keys-permᴰ tick p ∙ due_keys-permᴰ tick q

keys_set : IsSet (List (List ℕ))
keys_set = hlevel

pub due-perm :
    (tick : ℕ) {xs ys : List Command}
    → Perm xs ys
    → map key (sort_by precedes (due tick xs)) ≡ map key (sort_by precedes (due tick ys))
due-perm tick {xs} {ys} p =
    sort_by-map (due tick xs)
    ∙ (∥∥₁_elim p (keys_set _ _) (due_keys-permᴰ tick) ∙ sym (sort_by-map (due tick ys)))
