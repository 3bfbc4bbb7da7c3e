-- ===== src/Lib.antt =====
-- A model of the decision cores of Rodex, the session manager that puts a native Codex terminal
-- behind tmux and an App Server proxy, and proofs of what those cores promise.
--
-- The program. The proxy (src/rodex/protocol_proxy.py) forwards JSON-RPC between the native terminal
-- and the App Server, and shows the messages to controllers that live beside it. One of them, the
-- primary thread binding, decides which thread is main. Two others act on the main thread by
-- themselves, through the shared interaction pipeline: one retries a turn that the model server
-- refused, one steers a turn whose context has grown past a threshold. Each runs on several threads
-- (the reader, timers, the pipeline's workers) under one lock. The CLI contract decides which
-- invocations are managed at all, the turn lifecycle orders the records of a rollout for the
-- trace and the statistics, and the interception menu edits what the user types.
--
-- The files.
-- Common: Boolean tests, lists over native numbers, dicts and sets of texts, decoded JSON.
-- Recovery: src/rodex/server_overloaded_recovery.py. Recovery/Backoff has the delay
--   (_recovery_delay_seconds), Recovery/Failure the protocol reader (observe_protocol_event and what
--   it calls), Recovery/Sections the interleavings, Recovery/Laws, Movement, Ownership and Safety the
--   invariant, Recovery/Once and Progress the scheduling over time.
-- Binding: src/rodex/primary_thread_binding.py, observe_request and observe_response over decoded
--   messages; Binding/Laws has the invariant, Binding/Root what the named thread can do.
-- Steering: src/rodex/context_threshold_steering.py, binding and scheduling; Steering/Dispatch has
--   the observations and the timer thread's sections; Steering/Sections runs them in any order;
--   Steering/Invariant, Keeps, Crossing and Admission are about them. Snapshot, here and in Recovery, is
--   what a controller shows of itself.
-- Cli: src/codex_cli_contract/contract.py, CodexCliContract with classify; Cli/Release has the tables
--   of v0_151_0.py; Cli/Total, Routed and Commands are about the classification.
-- Turns: src/rodex/rollout_turn_lifecycle.py, RolloutRecordAdmission.admit and
--   RolloutTurnLifecycle.observe; Turns/Admission and Turns/Laws are about sequences of records.
-- Menu: src/rodex/input_menu.py, InputInterceptionMenu and the checks of InputMenuView; Menu/Valid and
--   Menu/Steps are about the menu as the interceptor of terminal_input.py drives it.
-- Interceptor: src/rodex/terminal_input.py, TerminalInputInterceptor over decoded input and the menu;
--   Interceptor/Handling and Accepting have its methods, Guarded, Keeps, Local, Runs and Exits are
--   about them.
-- Decoder: src/rodex/terminal_input.py, the framing of TerminalInputDecoder.feed; Decoder/Lossless is
--   about the bytes that it cuts.
-- Pipeline: src/rodex/interaction_pipeline.py: requests, their validation, and _execute before and
--   after its hooks; Pipeline/Structure and Hooks have the hooks and _validate_transform, Execution
--   has _execute from end to end, execute and _record, Registry has register and unregister.
--   Pipeline/Authority, Content, Controls and Outcomes are about these.
-- Observer: src/rodex/observer_state.py, ObserverStateReducer: Observer has what is read of an event,
--   Observer/Producer and Observer/Consumer the two modes, Observer/Delivery the snapshots between them.
--   Snapshots, Bounds, Retention, Operations, Mirror, Order and Faithful beside them are about these.
-- Prompt: src/rodex/protocol_input_text.py, _apply_text_edits and _rebase_elements; Prompt/Slices,
--   Elements and Edits are about what the elements of an edited text point at.
-- Projection: src/rodex/protocol_projection.py, ProtocolProjectionGuard.observe; Projection/Counts is
--   about its records.
-- Policy: src/rodex/command_policy.py, evaluate_command_policy; Policy/Sleep is about its rule on short
--   sleeps.
-- Connection: src/rodex/primary_connection_lifecycle.py, reset_after_disconnect over its participants.
-- A module Examples beside each part runs it on concrete data.
--
-- How code becomes definitions. A class is a record of its fields, a method a function from the
-- record to the record. A method that leaves its lock is several functions, one for each locked
-- section, and what it does outside the lock (cancelling and starting deferred calls, log lines) is
-- in its result, as effects; the relation Recovery.Sections.Step and the list of sections of
-- Steering.Sections let the sections of any number of threads interleave. An object that the code
-- compares by `is` carries a serial number, the generation at which it was made. A ValueError is
-- none, and InteractionRejected is a value of the result. JSON is the data type of decoded values.
--
-- Bounds and fuel. Python's integers have no width, so natural numbers are exact. Times of the
-- recovery are nanoseconds of the monotonic clock, percentages are the bit patterns of non-negative
-- finite floats, which are ordered as the floats are. The loop of the classification runs on fuel,
-- as many rounds as there are arguments, since each round consumes one at least; the loop of the
-- framing likewise with as many rounds as there are bytes, and the loops that drop and shed the
-- observer's entries with as many as there are entries. All else is structural.
--
-- Parameters. The fingerprint of a record (SHA-256 of its canonical JSON) and the match of a live
-- expression (Python's re), the UTF-8 codec, the test of a blank text, and the
-- observer's str(), lower() and size of a snapshot, the pipeline's json.loads, its hooks and what a
-- target makes of a delivery, and the policy on find and rg are functions that the definitions take, with no assumption on them.
--
-- Not modelled: the texts of log lines, UTC texts, the threads and timers themselves, sockets,
-- tmux, processes, SQL, files and drawing; the subscribers of the pipeline's outcomes, the configured actions and
-- the keys of escape sequences, the observer beyond its state, analytics, the wire and the broker of the command policy, its rules on find and rg, and the presentation
-- policy, whose decision cores are separate from
-- the parts above.
pub mod Common
pub mod Recovery
pub mod Binding
pub mod Steering
pub mod Cli
pub mod Turns
pub mod Menu
pub mod Decoder
pub mod Pipeline
pub mod Connection
pub mod Observer
pub mod Interceptor
pub mod Prompt
pub mod Projection
pub mod Policy
