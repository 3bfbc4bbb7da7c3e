-- ===== src/Observer/Examples.antt =====
-- Runs of the reducer of rodex/observer_state.py.
use codex_tmux_session_manag.Common.{◌≡◌, refl, Bool, true, some, List, [], ◌∷◌, arith}
use codex_tmux_session_manag.Common.Json.{str, obj, arr, no_items, item, Fields, end, field, get}
use codex_tmux_session_manag.Common.Ordered.{has}
use codex_tmux_session_manag.Observer.{
  Python, event_key, event_target, is_terminal_event, observer_schema,
}
use codex_tmux_session_manag.Observer.Producer.{
  Producer, new_producer, snapshot_value, observe, enforce_on,
}
use codex_tmux_session_manag.Observer.Consumer.{parse_snapshot}
use codex_tmux_session_manag.Observer.Snapshots.{IsValid, shown_of, parse_snapshot-snapshot_value}
use codex_tmux_session_manag.Observer.Operations.{
  observed, pruned, reset, marked, showed, discarded, step, Shows, step-IsValid,
}
use codex_tmux_session_manag.Observer.Delivery.{
  Move, act, deliver, run, new_link, link_of, ideal_run, new_ideal,
}
use codex_tmux_session_manag.Observer.Faithful.{run-link_of}

abbrev plain : Python
plain = record { shown = λ value. "value"; lower = λ text. text; size = λ snapshot. 1000 }

abbrev working : Fields
working = field "schema" (str observer_schema) (
    field "kind" (str "item") (
      field "thread_id" (str "agent") (
        field "item"
          (obj (
            field "id" (str "i1")
              (field "receiver_thread_ids" (arr (item (str "a") (item (str "b") no_items))) end)))
          end)))

abbrev done : Fields
done = field "method" (str "item/completed") working

abbrev one : Producer
one = record new_producer {
  revision = 1;
  active = (record { thread_id = "agent"; item_id = "i1"; kind = "item" }, working) ∷ [];
}

unfoldable always_same : Fields → Fields → Bool
always_same a b = true

run_once : (observe plain working new_producer).0 ≡ one
unfolding observe enforce_on is_terminal_event get event_target event_key
run_once = refl

run_done : (observe plain done one).0.active ≡ []
unfolding observe enforce_on is_terminal_event get event_target event_key
run_done = refl

one-IsValid : IsValid plain one
unfolding event_key get has
one-IsValid = ((((refl, refl), tt), (refl, tt)), (tt, tt), (tt, tt), omega arith)

abbrev moves : List Move
moves =
    act (observed working)
    ∷ act marked
    ∷ act (pruned "a")
    ∷ deliver 1
    ∷ deliver 0
    ∷ act (observed done)
    ∷ act reset
    ∷ deliver 3
    ∷ act showed
    ∷ deliver 4
    ∷ act discarded
    ∷ deliver 2
    ∷ []

parse_snapshot-snapshot_value_example :
    parse_snapshot plain (snapshot_value one) ≡ some (shown_of one)
parse_snapshot-snapshot_value_example = parse_snapshot-snapshot_value plain one one-IsValid

step-IsValid_example :
    IsValid plain (step plain (observed done) one).0 × Shows plain (step plain (observed done) one)
unfolding get
step-IsValid_example = step-IsValid plain (observed done) one refl one-IsValid

run-link_of_example :
    run always_same plain moves new_link ≡ link_of (ideal_run plain moves new_ideal)
unfolding get
run-link_of_example =
    run-link_of always_same plain moves
      (refl, refl, (tt, refl, (tt, refl, (refl, refl, (tt, refl, (tt, refl, (tt, refl, tt)))))))
