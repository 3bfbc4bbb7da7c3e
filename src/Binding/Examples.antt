-- ===== src/Binding/Examples.antt =====
-- The binding at concrete messages (primary_thread_binding.py).
use codex_tmux_session_manag.Common.{◌≡◌, ◌⊎◌, refl, true, false, none, some, List, [], ◌∷◌, arith}
use codex_tmux_session_manag.Common.Json.{get}
use codex_tmux_session_manag.Binding.{
  init, invalidate, observe_request, observe_response, thread_id,
}
use codex_tmux_session_manag.Binding.Laws.{
  Message, request, response, run, Inv, init-Inv, messages-Inv,
}
use codex_tmux_session_manag.Binding.Root.{
  one_root, invalidate_forever, observe_request-no_authority, resume_roundtrip, resume_request,
  resume_response,
}

abbrev resumed : List Message
resumed = request (resume_request 1 "main") ∷ response (resume_response 1 "main") ∷ []

abbrev rebinding : List Message
rebinding = request (resume_request 2 "other") ∷ response (resume_response 2 "other") ∷ []

resumed_names_main : thread_id (run resumed init) ≡ some "main"
unfolding thread_id run observe_request observe_response get
resumed_names_main = refl

rebinding_loses : thread_id (run rebinding (run resumed init)) ≡ none
unfolding thread_id run observe_request observe_response get
rebinding_loses = refl

messages-Inv_example : Inv (run resumed init)
messages-Inv_example = messages-Inv resumed init init-Inv

one_root_example :
    (thread_id (run rebinding (run resumed init)) ≡ none)
    ⊎ (thread_id (run rebinding (run resumed init)) ≡ some "main")
unfolding run observe_request observe_response get
one_root_example = one_root "main" rebinding (run resumed init) refl

invalidate_forever_example :
    (run resumed (invalidate init) ≡ invalidate init)
    × (thread_id (run resumed (invalidate init)) ≡ none)
invalidate_forever_example = invalidate_forever resumed init

observe_request-no_authority_example :
    (thread_id (observe_request (resume_request 1 "main") init) ≡ none)
    ⊎ (thread_id (observe_request (resume_request 1 "main") init) ≡ thread_id init)
observe_request-no_authority_example = observe_request-no_authority (resume_request 1 "main") init

resume_matches :
    let waiting = observe_request (resume_request 1 "main") init in
    (thread_id waiting ≡ none)
    × (thread_id (observe_response (resume_response 1 "main") waiting) ≡ some "main")
    × ((observe_response (resume_response 1 "main") waiting).invalid ≡ false)
unfolding observe_request observe_response thread_id get
resume_matches = (refl, refl, refl)

-- The response names another thread.
resume_roundtrip_example :
    let waiting = observe_request (resume_request 1 "main") init in
    (thread_id waiting ≡ none)
    × (thread_id (observe_response (resume_response 1 "other") waiting) ≡ none)
    × ((observe_response (resume_response 1 "other") waiting).invalid ≡ true)
unfolding observe_request thread_id
resume_roundtrip_example =
    resume_roundtrip 1 "main" "other" init refl refl (omega arith) refl refl refl refl
