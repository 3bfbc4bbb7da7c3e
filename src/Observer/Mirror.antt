-- ===== src/Observer/Mirror.antt =====
-- What the consumer of rodex/observer_state.py makes of one snapshot, next to the producer that wrote it.
use codex_tmux_session_manag.Common.{
  ◌≤◌, ◌<◌, ◌≡◌, refl, ap, Bool, true, false, not, ◌&&◌, some, nat_eq, arith, ltb, ◌⊎◌,
}
use codex_tmux_session_manag.Common.Json.{Fields}
use codex_tmux_session_manag.Observer.{Python}
use codex_tmux_session_manag.Observer.Producer.{Producer, snapshot_value}
use codex_tmux_session_manag.Observer.Consumer.{
  Consumer, new_consumer, is_stale, new_epoch, taken, consume_snapshot,
}
use codex_tmux_session_manag.Observer.Snapshots.{
  IsValid, fill_targets-names, shown_of, parse_snapshot-snapshot_value,
}
use codex_tmux_session_manag.Observer.Operations.{Later}

-- The consumer that shows just what a producer holds.
abbrev pub image : Producer → Consumer
image p = record {
  seen = some (p.epoch, p.revision);
  active = p.active;
  tombstones = p.tombstones;
  removed_targets = p.removed_targets;
  dropped_event_count = p.dropped_event_count;
}

abbrev pub Upto : Producer → Producer → Type 0
Upto p q =
    (p.epoch < q.epoch)
    ⊎ ((q.epoch ≡ p.epoch)
        × (p.revision ≤ q.revision)
        × (p.dropped_event_count ≤ q.dropped_event_count))

module _ (same_event : Fields → Fields → Bool) (py : Python) where
  taken-shown_of : (q : Producer) → IsValid py q → taken same_event (shown_of q) ≡ image q
  taken-shown_of q (a, t, r, few) =
      ap (λ ts. record (image q) { removed_targets = ts })
        (fill_targets-names q.removed_targets r.1)

  -- The first snapshot of all is taken as it is.
  pub consume_initial :
      (q : Producer)
      → IsValid py q
      → (consume_snapshot same_event py (snapshot_value q) new_consumer).0 ≡ image q
  unfolding consume_snapshot
  consume_initial q h =
      rw (consume_snapshot, parse_snapshot-snapshot_value py q h) (taken-shown_of q h)

  -- A later snapshot replaces what an earlier one had shown.
  pub consume_newer :
      (p q : Producer)
      → IsValid py q
      → Later p q
      → (consume_snapshot same_event py (snapshot_value q) (image p)).0 ≡ image q
  unfolding consume_snapshot
  consume_newer p q h later =
      let fresh : is_stale (some (p.epoch, p.revision)) (shown_of q) ≡ false = ground arith in
      let counts : (not (new_epoch (some (p.epoch, p.revision)) (shown_of q))
            && ltb q.dropped_event_count p.dropped_event_count)
          ≡ false =
        ground arith in
      rw (consume_snapshot, parse_snapshot-snapshot_value py q h, fresh, counts)
        (taken-shown_of q h)

  -- A snapshot that is no later is let go.
  pub consume_older :
      (p q : Producer)
      → IsValid py q
      → Upto q p
      → (consume_snapshot same_event py (snapshot_value q) (image p)).0 ≡ image p
  unfolding consume_snapshot
  consume_older p q h early =
      let stale : is_stale (some (p.epoch, p.revision)) (shown_of q) ≡ true = ground arith in
      rw (consume_snapshot, parse_snapshot-snapshot_value py q h, stale) refl
