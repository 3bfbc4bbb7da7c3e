-- ===== src/Observer/Delivery.antt =====
-- A producer and a consumer of rodex/observer_state.py with the snapshots between them, which arrive in
-- any order, more than once, or not at all: the consumer next to an abstract one that only knows which
-- of the published states is the newest that has arrived.
use codex_tmux_session_manag.Common.{
  ℕ, ◌<◌, ◌≡◌, Bool, true, false, not, ◌&&◌, ◌||◌, ◌⊎◌, Option, none, some, List, [], ◌∷◌, ◌==◌,
  nat_eq, if◌then◌else◌, length, All, ltb,
}
use codex_tmux_session_manag.Common.Json.{Fields}
use codex_tmux_session_manag.Observer.{Python}
use codex_tmux_session_manag.Observer.Producer.{Producer, snapshot_value, new_producer}
use codex_tmux_session_manag.Observer.Consumer.{Consumer, new_consumer, consume_snapshot}
use codex_tmux_session_manag.Observer.Snapshots.{IsValid}
use codex_tmux_session_manag.Observer.Operations.{Operation, step, is_final, IsTraced, Later}
use codex_tmux_session_manag.Observer.Mirror.{image}
use codex_tmux_session_manag.Observer.Bounds.{Fits}

-- The entry of a number, in a list that grows at its front: the oldest is number 0.
abbrev pub numbered {ℓ} : {A : Type ℓ} → ℕ → List A → Option A
numbered n [] = none
numbered n (x ∷ xs) = if n == length xs then some x else numbered n xs

pub data Move : Type 0 where
  act : Operation → Move
  deliver : ℕ → Move

-- the snapshots that were handed out, the newest first
pub record Link : Type 0 where
  pub producer : Producer
  pub sent : List Fields
  pub consumer : Consumer

abbrev pub and_sent {ℓ} : {A : Type ℓ} → Option A → List A → List A
and_sent none sent = sent
and_sent (some snapshot) sent = snapshot ∷ sent

module _ (same_event : Fields → Fields → Bool) (py : Python) where
  abbrev pub arrive : Option Fields → Consumer → Consumer
  arrive none c = c
  arrive (some snapshot) c = (consume_snapshot same_event py snapshot c).0

  unfoldable pub move : Move → Link → Link
  unfolding step
  move (act op) w =
      let (left, snapshot) = step py op w.producer in
      record w { producer = left; sent = and_sent snapshot w.sent }
  move (deliver n) w = record w { consumer = arrive (numbered n w.sent) w.consumer }

  unfoldable pub run : List Move → Link → Link
  unfolding move
  run [] w = w
  run (m ∷ ms) w = run ms (move m w)

abbrev pub new_link : Link
new_link = record { producer = new_producer; sent = []; consumer = new_consumer }

-- The abstract link: the states that were published, and the number of the newest that has arrived.
pub record Ideal : Type 0 where
  pub producer : Producer
  pub states : List Producer
  pub newest : Option ℕ

-- An operation's own state is published if a snapshot is handed out.
abbrev pub and_state : Option Fields → Producer → List Producer → List Producer
and_state none left states = states
and_state (some snapshot) left states = left ∷ states

abbrev pub newer : Option ℕ → ℕ → Bool
newer none n = true
newer (some m) n = ltb m n

module _ (py : Python) where
  unfoldable pub ideal_move : Move → Ideal → Ideal
  unfolding step
  ideal_move (act op) s =
      let (left, snapshot) = step py op s.producer in
      record s { producer = left; states = and_state snapshot left s.states }
  ideal_move (deliver n) s =
      if ltb n (length s.states) && newer s.newest n then record s { newest = some n } else s

  unfoldable pub ideal_run : List Move → Ideal → Ideal
  unfolding ideal_move
  ideal_run [] s = s
  ideal_run (m ∷ ms) s = ideal_run ms (ideal_move m s)

abbrev pub new_ideal : Ideal
new_ideal = record { producer = new_producer; states = []; newest = none }

abbrev pub view : Option Producer → Consumer
view none = new_consumer
view (some p) = image p

abbrev pub find : Option ℕ → List Producer → Option Producer
find none states = none
find (some n) states = numbered n states

-- What the consumer of an abstract link shows: the newest published state that has arrived.
abbrev pub shown : Ideal → Consumer
shown s = view (find s.newest s.states)

abbrev pub snapshots : List Producer → List Fields
snapshots [] = []
snapshots (p ∷ ps) = snapshot_value p ∷ snapshots ps

-- The link as an abstract one describes it.
abbrev pub link_of : Ideal → Link
link_of s = record { producer = s.producer; sent = snapshots s.states; consumer = shown s }

-- The second is the first, or a later state.
abbrev pub Since : Producer → Producer → Type 0
Since p q = (q ≡ p) ⊎ Later p q

abbrev pub Descending : List Producer → Type 0
Descending [] = Unit
Descending (p ∷ ps) = All (λ q. Since q p) ps × Descending ps

abbrev pub Known : Option ℕ → List Producer → Type 0
Known none states = Unit
Known (some n) states = n < length states

abbrev pub IsPublished : Python → Ideal → Type 0
IsPublished py s =
    All (λ q. IsValid py q × Fits py q) s.states × Descending s.states × Known s.newest s.states

abbrev pub IsSound : Python → Ideal → Type 0
IsSound py s = IsValid py s.producer × All (λ q. Since q s.producer) s.states × IsPublished py s

abbrev pub only_deliveries : List Move → Bool
only_deliveries [] = true
only_deliveries (act op ∷ ms) = false
only_deliveries (deliver n ∷ ms) = only_deliveries ms

-- The events that are observed have the schema of the trace, and nothing that the producer does after
-- its state is discarded is seen, since nothing is sent then.
abbrev pub IsLifetime : List Move → Type 0
IsLifetime [] = Unit
IsLifetime (act op ∷ ms) =
    IsTraced op × (not (is_final op) || only_deliveries ms ≡ true) × IsLifetime ms
IsLifetime (deliver n ∷ ms) = IsLifetime ms
