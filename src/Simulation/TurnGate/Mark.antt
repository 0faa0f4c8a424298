-- ===== src/Simulation/TurnGate/Mark.antt =====
-- What completing a turn does to a source: that turn is complete and no other changes, and the
-- frontier stands on the first turn that is not.
use native.Mathlib.Nat.{pow-suc}
use atlas_engine.Base.{
  ℕ, zero, suc, ◌+◌, ◌-◌, ◌*◌, ◌/◌, ◌%◌, ◌^◌, ◌≤◌, ◌<◌, ◌≡◌, refl, ap, sym, ◌∙◌, Bool, false, ◌||◌,
  some, List, [], ◌∷◌, arith, length, length-set, get_elem?, get_elem?-some, set, All, max, bit_or,
  shl64, u64, dec_lt, ℕ_discrete, subst, ◌⊎◌, inl, inr, if◌then◌else◌, ◌==◌, ltb,
}
use atlas_engine.Base.TestBit.{test_bit, test_bit-IsBit, bit_or-lt}
use atlas_engine.Core.Error.{ok}
use atlas_engine.Simulation.TurnGate.{
  Source, set_bit, shift, absorb, first_word, record_turn, lookahead,
}
use atlas_engine.Simulation.TurnGate.Window.{
  IsWord, value, value-shift, shift-IsWord, length-shift, value-lt, set_word-test_bit, pow_in_word,
  set-IsWord, get_elem?-IsWord,
}

unfoldable pub IsWindow : List ℕ → Type 0
IsWindow ws = (length ws ≡ 4) × All IsWord ws

-- Whether a source has completed a tick: below its frontier, or in its window.
pub has_completed : Source → ℕ → Bool
has_completed s u =
    ltb u s.complete_before || (test_bit (value s.ahead) (u - s.complete_before) == 1)

abbrev pub step_past : Source → Source
step_past s = record s { complete_before = u64 (s.complete_before + 1); ahead = shift s.ahead }

shift-IsWindow : (ws : List ℕ) → IsWindow ws → IsWindow (shift ws)
unfolding IsWindow
shift-IsWindow ws h = (length-shift ws ∙ h.0, shift-IsWord ws h.1)

step_past-has_completed :
    (s : Source) (u : ℕ)
    → IsWindow s.ahead
    → s.complete_before + 1 < 2 ^ 64
    → value s.ahead % 2 ≡ 1
    → has_completed (step_past s) u ≡ has_completed s u
unfolding has_completed IsWindow test_bit
step_past-has_completed s u h l odd =
    let c = s.complete_before in
    let ws = s.ahead in
    let half : value (shift ws) ≡ value ws / 2 = value-shift ws h.1 in
    let next : u64 (c + 1) ≡ c + 1 = omega arith in
    elim (dec_lt c u) [
      | yes later ↦
          let tail : test_bit (value ws) (u - c) ≡ test_bit (value ws / 2) (u - (c + 1)) =
            (let index : u - c ≡ suc (u - (c + 1)) = omega arith in
              ap (test_bit (value ws)) index) in
          rw (half, next, tail) (ground arith)
      | no early ↦ elim (dec_lt u c) [
        | yes past ↦ rw (half, next) (ground arith)
        | no here ↦
            let zeroth : test_bit (value ws) (u - c) ≡ 1 =
              (let index : u - c ≡ 0 = omega arith in ap (test_bit (value ws)) index ∙ odd) in
            rw (half, next, zeroth) (ground arith)
      ]
    ]

-- What absorbing keeps and reaches, when the window has fewer digits than the fuel.
pub record Absorbed (s new : Source) (fuel : ℕ) : Type 0 where
  pub window : IsWindow new.ahead
  pub stops : value new.ahead % 2 ≡ 0
  pub same_id : new.id ≡ s.id
  pub forward : s.complete_before ≤ new.complete_before
  pub near : new.complete_before ≤ s.complete_before + fuel

first_word-value : (ws : List ℕ) → first_word ws % 2 ≡ value ws % 2
first_word-value [] = refl
first_word-value (w ∷ ws) = omega arith

absorb-none : (s : Source) → absorb zero s ≡ s
unfolding absorb
absorb-none s = refl

absorb-stop : (fuel : ℕ) (s : Source) → value s.ahead % 2 ≡ 0 → absorb (suc fuel) s ≡ s
unfolding absorb
absorb-stop fuel s e =
    let low : first_word s.ahead % 2 ≡ 0 = first_word-value s.ahead ∙ e in rw (absorb, low) refl

absorb-step :
    (fuel : ℕ) (s : Source)
    → value s.ahead % 2 ≡ 1
    → absorb (suc fuel) s ≡ absorb fuel (step_past s)
unfolding absorb
absorb-step fuel s e =
    let low : first_word s.ahead % 2 ≡ 1 = first_word-value s.ahead ∙ e in rw (absorb, low) refl

parity : (n : ℕ) → (n % 2 ≡ 0) ⊎ (n % 2 ≡ 1)
parity n = elim (ℕ_discrete (n % 2) 0) [ yes e ↦ inl e | no o ↦ inr (omega arith) ]

absorb-Absorbed :
    (fuel : ℕ) (s : Source)
    → IsWindow s.ahead
    → value s.ahead < 2 ^ fuel
    → s.complete_before + fuel < 2 ^ 64
    → Absorbed s (absorb fuel s) fuel
unfolding IsWindow
absorb-Absorbed zero s h l b =
    subst (λ t. Absorbed s t 0) (sym (absorb-none s))
      (record {
        window = h;
        stops = omega arith;
        same_id = refl;
        forward = omega arith;
        near = omega arith;
      })
absorb-Absorbed (suc fuel) s h l b = elim (parity (value s.ahead)) [
  | inl even ↦
      subst (λ t. Absorbed s t (suc fuel)) (sym (absorb-stop fuel s even))
        (record {
          window = h;
          stops = even;
          same_id = refl;
          forward = omega arith;
          near = omega arith;
        })
  | inr odd ↦
      let small : value (shift s.ahead) < 2 ^ fuel =
        omega (arith, value-shift s.ahead h.1, pow-suc 2 fuel) in
      let next : u64 (s.complete_before + 1) ≡ s.complete_before + 1 = omega arith in
      let rest : Absorbed (step_past s) (absorb fuel (step_past s)) fuel =
        absorb-Absorbed fuel (step_past s) (shift-IsWindow s.ahead h) small (omega arith) in
      subst (λ t. Absorbed s t (suc fuel)) (sym (absorb-step fuel s odd))
        (record {
          window = rest.window;
          stops = rest.stops;
          same_id = rest.same_id;
          forward = omega (arith, rest.forward);
          near = omega (arith, rest.near);
        })
]

absorb-has_completed :
    (fuel : ℕ) (s : Source) (u : ℕ)
    → IsWindow s.ahead
    → s.complete_before + fuel < 2 ^ 64
    → has_completed (absorb fuel s) u ≡ has_completed s u
unfolding IsWindow
absorb-has_completed zero s u h b = ap (λ t. has_completed t u) (absorb-none s)
absorb-has_completed (suc fuel) s u h b = elim (parity (value s.ahead)) [
  | inl even ↦ ap (λ t. has_completed t u) (absorb-stop fuel s even)
  | inr odd ↦
      ap (λ t. has_completed t u) (absorb-step fuel s odd)
      ∙ (absorb-has_completed fuel (step_past s) u (shift-IsWindow s.ahead h) (omega arith)
          ∙ step_past-has_completed s u h (omega arith) odd)
]

set_bit-some :
    (ws : List ℕ) (offset w : ℕ)
    → get_elem? ws (offset / 64) ≡ some w
    → set_bit ws offset ≡ set ws (offset / 64) (bit_or w (shl64 1 (offset % 64)))
unfolding set_bit
set_bit-some ws offset w e = rw (set_bit, e) refl

-- Setting the bit of an offset within the window.
set_bit-IsWindow :
    (ws : List ℕ) (offset : ℕ) → IsWindow ws → offset < 256 → IsWindow (set_bit ws offset)
unfolding IsWindow
set_bit-IsWindow ws offset h l =
    let (w, e) = get_elem?-some ws (offset / 64) (omega (arith, h.0)) in
    let small : shl64 1 (offset % 64) < 2 ^ 64 = omega arith in
    rw (set_bit-some ws offset w e) (
      length-set ws (offset / 64) (bit_or w (shl64 1 (offset % 64))) ∙ h.0,
      set-IsWord ws (offset / 64) (bit_or w (shl64 1 (offset % 64))) h.1 (
          bit_or-lt 64 w (shl64 1 (offset % 64)) (get_elem?-IsWord ws (offset / 64) w h.1 e) small),
    )

set_bit-test_bit :
    (ws : List ℕ) (offset j : ℕ)
    → IsWindow ws
    → offset < 256
    → test_bit (value (set_bit ws offset)) j
      ≡ max (test_bit (value ws) j) (if offset == j then 1 else 0)
unfolding IsWindow
set_bit-test_bit ws offset j h l =
    let (w, e) = get_elem?-some ws (offset / 64) (omega (arith, h.0)) in
    let mask : shl64 1 (offset % 64) ≡ 2 ^ (offset % 64) =
      omega (arith, pow_in_word (offset % 64) (omega arith)) in
    let place : offset / 64 * 64 + offset % 64 ≡ offset = omega arith in
    rw (set_bit-some ws offset w e, mask)
      (set_word-test_bit ws (offset / 64) (offset % 64) j w h.1 (omega arith) e
        ∙ ap (λ p. max (test_bit (value ws) j) (if p == j then 1 else 0)) place)

-- What completing a turn within the window leaves behind: the source's identifier, a window of four
-- words, and a frontier whose own turn is not complete.
pub record Recorded (s new : Source) : Type 0 where
  pub same_id : new.id ≡ s.id
  pub window : IsWindow new.ahead
  pub forward : s.complete_before ≤ new.complete_before
  pub near : new.complete_before ≤ s.complete_before + lookahead
  pub frontier : has_completed new new.complete_before ≡ false

pub recorded : Source → ℕ → Source
recorded s tick = absorb lookahead (record s { ahead = set_bit s.ahead (tick - s.complete_before) })

pub record_turn-recorded :
    (s : Source) (tick : ℕ)
    → tick < s.complete_before + lookahead
    → record_turn s tick ≡ ok (recorded s tick)
unfolding record_turn recorded
record_turn-recorded s tick h = ground arith

pub recorded-Recorded :
    (s : Source) (tick : ℕ)
    → IsWindow s.ahead
    → tick < s.complete_before + lookahead
    → s.complete_before + lookahead < 2 ^ 64
    → Recorded s (recorded s tick)
unfolding recorded has_completed IsWindow test_bit
recorded-Recorded s tick h l b =
    let marked : Source = record s { ahead = set_bit s.ahead (tick - s.complete_before) } in
    let window : IsWindow marked.ahead =
      set_bit-IsWindow s.ahead (tick - s.complete_before) h (omega arith) in
    let done : Absorbed marked (absorb lookahead marked) lookahead =
      absorb-Absorbed lookahead marked window (value-lt marked.ahead window.0 window.1) b in
    let here : (absorb lookahead marked).complete_before - (absorb lookahead marked).complete_before
        ≡ 0 =
      omega arith in
    record {
      same_id = done.same_id;
      window = done.window;
      forward = done.forward;
      near = done.near;
      frontier = rw here (ground (arith, done.stops));
    }

marked-has_completed :
    (s : Source) (tick u : ℕ)
    → IsWindow s.ahead
    → s.complete_before ≤ tick
    → tick < s.complete_before + lookahead
    → has_completed (record s { ahead = set_bit s.ahead (tick - s.complete_before) }) u
      ≡ has_completed s u || (u == tick)
unfolding has_completed
marked-has_completed s tick u h f l = ground (
  arith,
  set_bit-test_bit s.ahead (tick - s.complete_before) (u - s.complete_before) h (omega arith),
  test_bit-IsBit (u - s.complete_before) (value s.ahead),
)

-- Completing a tick from the frontier on and within the window completes that tick and no other one.
pub recorded-has_completed :
    (s : Source) (tick u : ℕ)
    → IsWindow s.ahead
    → s.complete_before ≤ tick
    → tick < s.complete_before + lookahead
    → s.complete_before + lookahead < 2 ^ 64
    → has_completed (recorded s tick) u ≡ has_completed s u || (u == tick)
unfolding recorded
recorded-has_completed s tick u h f l b =
    let marked : Source = record s { ahead = set_bit s.ahead (tick - s.complete_before) } in
    let window : IsWindow marked.ahead =
      set_bit-IsWindow s.ahead (tick - s.complete_before) h (omega arith) in
    absorb-has_completed lookahead marked u window b ∙ marked-has_completed s tick u h f l

-- For a source with a window of four words and a frontier more than the lookahead below 2 ^ 64,
-- completing a tick from the frontier on and within the window succeeds, keeps the identifier and
-- the four words, and leaves the frontier, which moved forward by at most the lookahead, on a tick
-- that the source has not completed.
pub record_turn-Recorded :
    (s : Source) (tick : ℕ)
    → IsWindow s.ahead
    → s.complete_before ≤ tick
    → tick < s.complete_before + lookahead
    → s.complete_before + lookahead < 2 ^ 64
    → (new : Source) × (record_turn s tick ≡ ok new) × Recorded s new
record_turn-Recorded s tick h f l b =
    (recorded s tick, record_turn-recorded s tick l, recorded-Recorded s tick h l b)
