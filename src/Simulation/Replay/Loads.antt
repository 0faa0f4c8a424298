-- ===== src/Simulation/Replay/Loads.antt =====
-- Which commands of a recording are read back: the writer takes any payload, the reader only those
-- within its limit.
use atlas_engine.Base.{
  and-true, dec_lt, le→leb, subst, if◌then◌else◌, ◌≡◌, refl, sym, ◌∙◌, arith, Bool, true, false,
  ◌&&◌, List, [], ◌∷◌, ◌++◌, append-nil, length, All, leb, leb→le,
}
use atlas_engine.Core.Error.{err, malformed_data, ErrorCode, ok, ok-injective}
use atlas_engine.Simulation.SaveStream.{Bytes, Read, ◌>>=◌, return, read_all}
use atlas_engine.Simulation.SaveStream.RoundTrip.{ReadsBack, bind-ReadsBack}
use atlas_engine.Simulation.SaveStream.Formats.{all_bytes, read_all-ReadsBack}
use atlas_engine.Simulation.SaveStream.Rejects.{Rejects, Answers, first-Rejects, bind-Rejects}
use atlas_engine.Simulation.Command.{Command, max_payload}
use atlas_engine.Simulation.CommandCodec.{
  HasWords, HasWords-IsCommand, read_command-Rejects, command_bytes, read_command-ReadsBack,
  read_command,
}

-- The payloads that the reader of a command takes.
unfoldable pub payloads_load : List Command → Bool
payloads_load [] = true
payloads_load (c ∷ cs) = leb (length c.payload) max_payload && payloads_load cs

load-All :
    (cs : List Command)
    → payloads_load cs ≡ true
    → All HasWords cs
    → All (λ c. ReadsBack read_command (command_bytes c) c) cs
unfolding payloads_load
load-All [] e w = tt
load-All (c ∷ cs) e w =
    let (here, rest) = and-true (leb (length c.payload) max_payload) (payloads_load cs) e in
    (read_command-ReadsBack c (HasWords-IsCommand c w.0 (leb→le _ _ here)), load-All cs rest w.1)

-- The first payload above the limit stops the reader.
read_all-Rejects :
    (cs : List Command)
    → payloads_load cs ≡ false
    → All HasWords cs
    → Rejects (read_all read_command (length cs)) (all_bytes command_bytes cs) malformed_data
unfolding payloads_load read_all all_bytes
read_all-Rejects [] e w = absurd (cc)
read_all-Rejects (c ∷ cs) e w = elim (dec_lt max_payload (length c.payload)) [
  | yes over ↦
      first-Rejects read_command _ (command_bytes c) (all_bytes command_bytes cs) malformed_data
        (read_command-Rejects c w.0 over)
  | no fits ↦
      let rest : payloads_load cs ≡ false =
        sym (rw (le→leb (length c.payload) max_payload (omega arith)) refl) ∙ e in
      bind-Rejects read_command _ (command_bytes c) (all_bytes command_bytes cs) c malformed_data
        (read_command-ReadsBack c (HasWords-IsCommand c w.0 (omega arith)))
        (subst
          (λ bs.
            Rejects (read_all read_command (length cs) >>= λ rest. return (c ∷ rest)) bs
              malformed_data)
          (append-nil (all_bytes command_bytes cs))
          (first-Rejects (read_all read_command (length cs)) _ (all_bytes command_bytes cs) []
            malformed_data (read_all-Rejects cs rest w.1)))
]

loads-ok :
    {A : Type 0} (b : Bool) (y : A) {x : A}
    → (if b then ok y else err malformed_data) ≡ ok x
    → (b ≡ true) × (y ≡ x)
loads-ok true y e = (refl, ok-injective y _ e)
loads-ok false y e = absurd (cc)

loads-err :
    {A : Type 0} (b : Bool) (y : A) {d : ErrorCode}
    → (if b then ok y else err malformed_data) ≡ err d
    → (b ≡ false) × (malformed_data ≡ d)
loads-err true y e = absurd (cc)
loads-err false y e = (refl, cc)

-- What becomes of a recording when its commands are read.
pub commands-Answers :
    {B : Type 0} (cs : List Command) (f : List Command → Read B) (bs : Bytes) (y : B)
    → All HasWords cs
    → ReadsBack (f cs) bs y
    → Answers
        (read_all read_command (length cs) >>= f)
        (all_bytes command_bytes cs ++ bs)
        (if payloads_load cs then ok y else err malformed_data)
commands-Answers cs f bs y w k = record {
  reads = λ x e.
      let (loads, same) = loads-ok (payloads_load cs) y e in
      subst (ReadsBack _ _) same (
        bind-ReadsBack _ f (all_bytes command_bytes cs) bs cs y
          (read_all-ReadsBack read_command command_bytes cs (load-All cs loads w)) k);
  rejects = λ d e.
      let (over, same) = loads-err (payloads_load cs) y e in
      subst (Rejects _ _) same (
        first-Rejects _ f (all_bytes command_bytes cs) bs malformed_data
          (read_all-Rejects cs over w));
}
