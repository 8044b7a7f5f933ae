-- ===== src/Player/Playback.antt =====
-- The class `ChanxPlayback` of ui/player/speaker.ts, the worklet that plays what is queued. A sample
-- is a value of any type, `zero` the silence that the output array holds at first. `queued` and
-- the lengths stay natural: `Player.Playback.Queue` shows that none is taken below 0.
pub mod Loop
pub mod Queue
pub mod Stream
pub mod Draining
pub mod Reports
mod Tests
use chanx_kit.Prelude.{
  Bool, List, Option, [], drop, eqb, false, if◌then◌else◌, leb, length, ltb, min, none, not,
  replicate, some, suc, take, true, zero, ℕ, ◌&&◌, ◌++◌, ◌+◌, ◌-◌, ◌||◌, ◌∷◌,
}

pub record Playback (A : Type 0) : Type 0 where
  pub prebuffer : ℕ
  pub blocks : List (List A)
  pub offset : ℕ
  pub queued : ℕ
  pub waiting : Bool
  pub draining : Bool
  pub played : ℕ
  pub since_report : ℕ

pub data Message (A : Type 0) : Type 0 where
  write : List A → Message A
  drain : Message A
  clear : Message A

-- The loop of `process`: `samples` is what it has put in the output so far.
pub record Filling (A : Type 0) : Type 0 where
  pub samples : List A
  pub blocks : List (List A)
  pub offset : ℕ
  pub queued : ℕ

-- What `process` puts in each output channel, the count that it posts, and the state after it.
pub record Output (A : Type 0) : Type 0 where
  pub channel : List A
  pub posted : Option ℕ
  pub next : Playback A

module _ {A : Type 0} where
  abbrev pub create : ℕ → Playback A
  create prebuffer = record {
    prebuffer = prebuffer;
    blocks = [];
    offset = 0;
    queued = 0;
    waiting = true;
    draining = false;
    played = 0;
    since_report = 0;
  }

  -- `port.onmessage`
  unfoldable pub on_message : Message A → Playback A → Playback A
  on_message (write samples) p = record p {
    blocks = p.blocks ++ samples ∷ [];
    queued = p.queued + length samples;
  }
  on_message drain p = record p { draining = true }
  on_message clear p = record p {
    blocks = [];
    offset = 0;
    queued = 0;
    waiting = true;
    draining = false;
  }

  -- One round of the loop, at the first block.
  unfoldable pub round : ℕ → List A → List (List A) → Filling A → Filling A
  round size block rest s =
      let count = min (size - length s.samples) (length block - s.offset) in
      let offset = s.offset + count in
      let shifted = eqb offset (length block) in
      record {
        samples = s.samples ++ take count (drop s.offset block);
        blocks = if shifted then rest else s.blocks;
        offset = if shifted then 0 else offset;
        queued = s.queued - count;
      }

  -- The loop, for an output of `size` samples. Each round but the last takes a block away.
  unfoldable pub fill : ℕ → ℕ → Filling A → Filling A
  fill zero size s = s
  fill (suc fuel) size s = elim s.blocks [
    | [] ↦ s
    | block ∷ rest ↦ elim (ltb (length s.samples) size) [
      | true ↦ fill fuel size (round size block rest s)
      | false ↦ s
    ]
  ]

  -- Playback starts when a prebuffer is queued, or at once when the utterance is drained.
  abbrev pub still_waiting : Playback A → Bool
  still_waiting p = p.waiting && not (leb p.prebuffer p.queued || (p.draining && ltb 0 p.queued))

  abbrev pub filling : Playback A → Filling A
  filling p = record { samples = []; blocks = p.blocks; offset = p.offset; queued = p.queued }

  abbrev pub filled : ℕ → Playback A → Filling A
  filled size p =
      if still_waiting p then filling p else fill (suc (length p.blocks)) size (filling p)

  abbrev pub is_empty : List (List A) → Bool
  is_empty [] = true
  is_empty (b ∷ bs) = false

  unfoldable pub process : A → ℕ → Playback A → Output A
  process silence size p =
      let waiting = still_waiting p in
      let s = filled size p in
      let dry = is_empty s.blocks && not waiting in
      let played = p.played + length s.samples in
      let reported = leb 1024 (p.since_report + size) in
      record {
        channel = s.samples ++ replicate (size - length s.samples) silence;
        posted = if reported then some played else none;
        next = record {
          prebuffer = p.prebuffer;
          blocks = s.blocks;
          offset = s.offset;
          queued = s.queued;
          waiting = waiting || dry;
          draining = p.draining && not dry;
          played = played;
          since_report = if reported then 0 else p.since_report + size;
        };
      }
