-- ===== src/Observer/Faithful.antt =====
-- The proof that a link of rodex/observer_state.py, whatever its deliveries, shows what the abstract link
-- shows.
use mathlib.Core.Path.{subst}
use codex_tmux_session_manag.Common.{
  ℕ, ◌≡◌, ◌∙◌, refl, sym, ap, Bool, true, false, not, ◌&&◌, Option, none, some, List, [], ◌∷◌, ◌==◌,
  nat_eq, if◌then◌else◌, length, arith, ltb, inl, inr, Bool-cases, if_intro, Option-cases,
  nat_beq_iff, other_part,
}
use codex_tmux_session_manag.Common.Json.{Fields}
use codex_tmux_session_manag.Observer.{Python}
use codex_tmux_session_manag.Observer.Producer.{Producer, snapshot_value}
use codex_tmux_session_manag.Observer.Consumer.{Consumer, consume_snapshot}
use codex_tmux_session_manag.Observer.Snapshots.{IsValid}
use codex_tmux_session_manag.Observer.Operations.{
  Operation, discarded, step, is_final, IsTraced, step-IsValid, Shows,
}
use codex_tmux_session_manag.Observer.Bounds.{Fits}
use codex_tmux_session_manag.Observer.Mirror.{
  image, Upto, consume_initial, consume_newer, consume_older,
}
use codex_tmux_session_manag.Observer.Delivery.{
  numbered, Move, act, deliver, Link, and_sent, move, run, new_link, Ideal, newer, ideal_move,
  ideal_run, new_ideal, view, find, shown, snapshots, link_of, and_state, Descending, Known,
  IsSound, IsPublished, IsLifetime, Since, only_deliveries,
}
use codex_tmux_session_manag.Observer.Order.{
  numbered-some, numbered-lt, numbered-absent, numbered-All, numbered-Since, numbered-snapshots,
  Upto-refl, Since-Upto, find-and_state, act-IsSound, deliver-IsSound, deliver-IsPublished,
  some_injective,
}

abbrev link : Producer → List Fields → Consumer → Link
link p sent c = record { producer = p; sent = sent; consumer = c }

links :
    {p : Producer} {a b : List Fields} {c d : Consumer} → a ≡ b → c ≡ d → link p a c ≡ link p b d
links {p} e f i = link p (e i) (f i)

module _ (same_event : Fields → Fields → Bool) (py : Python) where
  -- A snapshot of the number of a published state, delivered to what shows the newest delivered one.
  delivered :
      (n : ℕ) (newest : Option ℕ) (q : Producer) (ps : List Producer)
      → IsValid py q
      → Descending ps
      → Known newest ps
      → numbered n ps ≡ some q
      → (consume_snapshot same_event py (snapshot_value q) (view (find newest ps))).0
        ≡ (if newer newest n then image q else view (find newest ps))
  delivered n none q ps v d k e = consume_initial same_event py q v
  delivered n (some m) q ps v d k e =
      let (p, f) = numbered-some m ps k in
      rw f (
        if_intro (λ c. (consume_snapshot same_event py (snapshot_value q) (image p)).0 ≡ c)
          (ltb m n) (image q) (image p)
          (λ t. since_newer p (numbered-Since m n ps p q d (ground arith) f e))
          (λ t. consume_older same_event py p q v (early p f t)))
    where
      since_newer :
          (p : Producer)
          → Since p q
          → (consume_snapshot same_event py (snapshot_value q) (image p)).0 ≡ image q
      since_newer p (inl same) =
          subst
            (λ (r : Producer).
              (consume_snapshot same_event py (snapshot_value q) (image r)).0 ≡ image q)
            same (consume_older same_event py q q v (Upto-refl q))
      since_newer p (inr later) = consume_newer same_event py p q v later

      early : (p : Producer) → numbered m ps ≡ some p → ltb m n ≡ false → Upto q p
      early p f t = elim (Bool-cases (n == m)) [
        | inl same ↦
            let there : some p ≡ some q =
              sym f ∙ ap (λ i. numbered i ps) (sym ((nat_beq_iff n m).0 same)) ∙ e in
            subst (λ r. Upto q r) (sym (some_injective there)) (Upto-refl q)
        | inr other ↦ Since-Upto q p (numbered-Since n m ps q p d (ground arith) e f)
      ]

  deliver-link_of :
      (n : ℕ) (s : Ideal)
      → IsPublished py s
      → move same_event py (deliver n) (link_of s) ≡ link_of (ideal_move py (deliver n) s)
  unfolding move ideal_move
  deliver-link_of n s (a, d, k) = elim (Option-cases (numbered n s.states)) [
    | inl absent ↦
        let beyond : (ltb n (length s.states) && newer s.newest n) ≡ false =
          ground (arith, numbered-absent n s.states absent) in
        rw (numbered-snapshots n s.states, absent, beyond) refl
    | inr (q, there) ↦ rw (numbered-snapshots n s.states, there) (moved q there)
  ]
    where
      moved :
          (q : Producer)
          → numbered n s.states ≡ some q
          → link s.producer
              (snapshots s.states)
              (consume_snapshot same_event py (snapshot_value q) (shown s)).0
            ≡ link_of (ideal_move py (deliver n) s)
      moved q there =
          let within : ltb n (length s.states) ≡ true =
            ground (arith, numbered-lt n s.states q there) in
          let one =
            delivered n s.newest q s.states
              (numbered-All (λ r. IsValid py r × Fits py r) n s.states q a there).0 d k there in
          if_intro
            (λ r.
              link s.producer (snapshots s.states)
                (consume_snapshot same_event py (snapshot_value q) (shown s)).0
              ≡ link_of r)
            (ltb n (length s.states) && newer s.newest n) (record s { newest = some n }) s
            (λ t.
              let fresh : newer s.newest n ≡ true = ground arith in
              links refl (one ∙ rw (fresh, there) refl))
            (λ t.
              let old : newer s.newest n ≡ false = ground arith in links refl (one ∙ rw old refl))

  act-link_of :
      (op : Operation) (s : Ideal)
      → IsTraced op
      → IsSound py s
      → move same_event py (act op) (link_of s) ≡ link_of (ideal_move py (act op) s)
  unfolding move ideal_move
  act-link_of op s t (v, b, (a, d, k)) =
      let left = (step py op s.producer).0 in
      let snapshot = (step py op s.producer).1 in
      links (sent-and_state snapshot left s.states (step-IsValid py op s.producer t v).1)
        (ap view (sym (find-and_state py s.newest snapshot left s.states k)))
    where
      sent-and_state :
          (snapshot : Option Fields) (left : Producer) (states : List Producer)
          → Shows py (left, snapshot)
          → and_sent snapshot (snapshots states) ≡ snapshots (and_state snapshot left states)
      sent-and_state none left states h = refl
      sent-and_state (some snapshot) left states h = ap (λ f. f ∷ snapshots states) h.0

  run-deliveries :
      (ms : List Move) (s : Ideal)
      → only_deliveries ms ≡ true
      → IsPublished py s
      → run same_event py ms (link_of s) ≡ link_of (ideal_run py ms s)
  unfolding run ideal_run
  run-deliveries [] s o h = refl
  run-deliveries (act op ∷ ms) s o h = cc
  run-deliveries (deliver n ∷ ms) s o h =
      rw (deliver-link_of n s h)
        (run-deliveries ms (ideal_move py (deliver n) s) o (deliver-IsPublished py n s h))

  final-link_of :
      (op : Operation) (ms : List Move) (s : Ideal)
      → is_final op ≡ true
      → only_deliveries ms ≡ true
      → IsPublished py s
      → run same_event py ms (link_of (ideal_move py (act op) s))
        ≡ link_of (ideal_run py ms (ideal_move py (act op) s))
  unfolding ideal_move step
  final-link_of discarded ms s f o h = run-deliveries ms (ideal_move py (act discarded) s) o h
  final-link_of op ms s f o h = cc

  run-from :
      (ms : List Move) (s : Ideal)
      → IsLifetime ms
      → IsSound py s
      → run same_event py ms (link_of s) ≡ link_of (ideal_run py ms s)
  unfolding run ideal_run
  run-from [] s t h = refl
  run-from (act op ∷ ms) s (t, final, later) h =
      rw (act-link_of op s t h) (elim (Bool-cases (is_final op)) [
        | inl last ↦
            final-link_of op ms s last (other_part {a = not (is_final op)} final (ground arith)) h.2
        | inr other ↦ run-from ms (ideal_move py (act op) s) later (act-IsSound py op s t other h)
      ])
  run-from (deliver n ∷ ms) s t h =
      rw (deliver-link_of n s h.2)
        (run-from ms (ideal_move py (deliver n) s) t (deliver-IsSound py n s h))

  -- Whatever the producer does (events, pruned targets, new epochs, marks of incompleteness, public
  -- snapshots, and last of all the discarding of its state, after which it sends none), and whichever
  -- of its snapshots arrive, in any order and any number of times, before or after that, the consumer
  -- shows exactly the newest published state of those that have arrived, and nothing before one has.
  -- Every event that is observed has the schema of the trace.
  pub run-link_of :
      (ms : List Move)
      → IsLifetime ms
      → run same_event py ms new_link ≡ link_of (ideal_run py ms new_ideal)
  run-link_of ms t =
      run-from ms new_ideal t (((tt, tt), (tt, tt), (tt, tt), omega arith), tt, (tt, tt, tt))
