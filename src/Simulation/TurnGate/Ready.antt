-- ===== src/Simulation/TurnGate/Ready.antt =====
-- The gate over all its sources: which ticks are ready, and what a completed turn changes.
use atlas_engine.Base.{
  ℕ, ◌+◌, ◌^◌, ◌≤◌, ◌<◌, ◌≡◌, refl, ap, sym, ◌∙◌, Bool, true, false, ◌||◌, ◌&&◌, Option, none, some,
  List, [], ◌∷◌, arith, min, if◌then◌else◌, ◌==◌, ltb, ◌↔◌, dec_lt, ℕ_discrete, lt→ltb,
}
use atlas_engine.Core.Error.{ok}
use atlas_engine.Simulation.TurnGate.{
  Source, TurnGate, find_source, replace_source, all_past, is_empty, lowest, waiting, ready,
  ready_horizon, waiting_on, mark_complete, lookahead, unbounded_horizon,
}
use atlas_engine.Simulation.TurnGate.Mark.{
  IsWindow, has_completed, recorded, record_turn-recorded, recorded-Recorded,
  recorded-has_completed,
}

pub completed_by : Option Source → ℕ → Bool
completed_by none u = false
completed_by (some s) u = has_completed s u

-- Whether the gate has a source and that source has completed a tick.
pub gate_completed : TurnGate → ℕ → ℕ → Bool
unfolding completed_by
gate_completed g id u = completed_by (find_source id g.expected) u

find_source-id : (id : ℕ) (l : List Source) (s : Source) → find_source id l ≡ some s → s.id ≡ id
unfolding find_source
find_source-id id [] s e = absurd (cc)
find_source-id id (x ∷ rest) s e = ground (arith, find_source-id id rest s)

find_source-replace_source :
    (l : List Source) (s new : Source) (j : ℕ)
    → find_source new.id l ≡ some s
    → find_source j (replace_source new l) ≡ (if j == new.id then some new else find_source j l)
unfolding find_source replace_source
find_source-replace_source [] s new j e = absurd (cc)
find_source-replace_source (x ∷ rest) s new j e =
    ground (arith, find_source-replace_source rest s new j)

and-ltb : (t a b : ℕ) → ltb t (min a b) ≡ ltb t a && ltb t b
and-ltb t a b = ground arith

all_past-lowest : (t h : ℕ) (l : List Source) → ltb t (lowest h l) ≡ ltb t h && all_past t l
unfolding all_past lowest
all_past-lowest t h [] = ground arith
all_past-lowest t h (s ∷ rest) =
    ground (arith, all_past-lowest t (min h s.complete_before) rest, and-ltb t h s.complete_before)

waiting-all_past : (t : ℕ) (l : List Source) → (waiting t l ≡ []) ↔ (all_past t l ≡ true)
unfolding all_past waiting
waiting-all_past t [] = (λ _. refl, λ _. refl)
waiting-all_past t (s ∷ rest) =
    let (to, from) = waiting-all_past t rest in
    elim (dec_lt t s.complete_before) [
      | yes past ↦ (λ e. ground (arith, to), λ e. ground (arith, from))
      | no here ↦ (λ e. absurd (ground arith), λ e. absurd (ground arith))
    ]

-- In a gate with a source and at a tick from its floor on and below the largest one, the tick is
-- ready exactly if it is below the ready horizon.
pub ready-ready_horizon :
    (g : TurnGate) (t : ℕ)
    → is_empty g.expected ≡ false
    → g.floor ≤ t
    → t < unbounded_horizon
    → ready g t ≡ ltb t (ready_horizon g)
unfolding ready ready_horizon
ready-ready_horizon g t n f h =
    let bound : ltb t unbounded_horizon ≡ true = lt→ltb t unbounded_horizon h in
    let past : ltb t g.floor ≡ false = ground arith in
    rw (n, past) (sym (all_past-lowest t unbounded_horizon g.expected ∙ rw bound refl))

-- In a gate with a source and at a tick from its floor on, no source is waited on exactly if the
-- tick is ready.
pub waiting_on-ready :
    (g : TurnGate) (t : ℕ)
    → is_empty g.expected ≡ false
    → g.floor ≤ t
    → (waiting_on g t ≡ []) ↔ (ready g t ≡ true)
unfolding ready waiting_on
waiting_on-ready g t n f =
    let past : ltb t g.floor ≡ false = ground arith in rw (n, past) (waiting-all_past t g.expected)

mark_complete-recorded :
    (g : TurnGate) (id tick : ℕ) (s : Source)
    → find_source id g.expected ≡ some s
    → g.floor ≤ tick
    → s.complete_before ≤ tick
    → tick < s.complete_before + lookahead
    → mark_complete g id tick
      ≡ ok (record g { expected = replace_source (recorded s tick) g.expected })
unfolding mark_complete
mark_complete-recorded g id tick s e f c l =
    let past : ltb tick g.floor ≡ false = ground arith in
    let old : ltb tick s.complete_before ≡ false = ground arith in
    rw (mark_complete, e, past, old, record_turn-recorded s tick l) refl

-- The sources after one has completed a tick.
find_source-recorded :
    (l : List Source) (id tick j : ℕ) (s : Source)
    → find_source id l ≡ some s
    → IsWindow s.ahead
    → tick < s.complete_before + lookahead
    → s.complete_before + lookahead < 2 ^ 64
    → find_source j (replace_source (recorded s tick) l)
      ≡ (if j == id then some (recorded s tick) else find_source j l)
find_source-recorded l id tick j s e w h b =
    let same : (recorded s tick).id ≡ id =
      (recorded-Recorded s tick w h b).same_id ∙ find_source-id id l s e in
    let found : find_source (recorded s tick).id l ≡ some s = ap (λ i. find_source i l) same ∙ e in
    find_source-replace_source l s (recorded s tick) j found
    ∙ ap (λ i. if j == i then some (recorded s tick) else find_source j l) same

-- An expected source with a window of four words, and a frontier more than the lookahead below 2 ^
-- 64, that completes a tick from the floor and from its frontier on and within the window, has
-- completed that tick afterwards, and nothing else changes about which source has completed which
-- tick.
pub mark_complete-gate_completed :
    (g : TurnGate) (id tick j u : ℕ) (s : Source)
    → find_source id g.expected ≡ some s
    → IsWindow s.ahead
    → g.floor ≤ tick
    → s.complete_before ≤ tick
    → tick < s.complete_before + lookahead
    → s.complete_before + lookahead < 2 ^ 64
    → (new : TurnGate) × (mark_complete g id tick ≡ ok new)
      × (gate_completed new j u ≡ gate_completed g j u || (j == id) && (u == tick))
unfolding gate_completed completed_by
mark_complete-gate_completed g id tick j u s e w f c l b =
    let after : List Source = replace_source (recorded s tick) g.expected in
    let found : find_source j after
        ≡ (if j == id then some (recorded s tick) else find_source j g.expected) =
      find_source-recorded g.expected id tick j s e w l b in
    let marks : has_completed (recorded s tick) u ≡ has_completed s u || (u == tick) =
      recorded-has_completed s tick u w c l b in
    (
      record g { expected = after },
      mark_complete-recorded g id tick s e f c l,
      (elim (ℕ_discrete j id) [
        | yes same ↦
            let here : find_source j after ≡ some (recorded s tick) = ground arith in
            let before : find_source j g.expected ≡ some s =
              ap (λ i. find_source i g.expected) same ∙ e in
            let marked : has_completed (recorded s tick) u
                ≡ has_completed s u || (j == id) && (u == tick) =
              ground arith in
            ap (λ o. completed_by o u) here
            ∙ (marked ∙ ap (λ o. completed_by o u || (j == id) && (u == tick)) (sym before))
        | no other ↦
            let there : find_source j after ≡ find_source j g.expected = ground arith in
            let kept : completed_by (find_source j g.expected) u
                ≡ completed_by (find_source j g.expected) u || (j == id) && (u == tick) =
              ground arith in
            ap (λ o. completed_by o u) there ∙ kept
      ]),
    )
