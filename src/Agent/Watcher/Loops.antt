-- ===== src/Agent/Watcher/Loops.antt =====
-- The loops of packages/stackflow-agent/src/watcher.js: what is claimed of the counters
-- (`Handled`, `Scanned`) and of the watcher (`During`), one step of the loop at a time.
use stackflow.Common.{
  ℕ, suc, ◌+◌, ◌≤◌, ◌≡◌, refl, false, Option, arith, ltb, if◌then◌else◌, Bool-cases, inl, inr,
}
use stackflow.Js.Text.{Text}
use stackflow.Js.Outcome.{Outcome, ok, err}
use stackflow.Js.Value.{Value, str, Items, nil, cons}
use stackflow.Agent.Utils.{Closure, normalize_closure_event, parse_unsigned_bigint}
use stackflow.Agent.Utils.Normal.{IsNormal, closure_value, normalize_closure_event-IsNormal}
use stackflow.Agent.Store.Rows.{ClosureRow, Store}
use stackflow.Agent.Store.Methods.{get_closure, record_closure}
use stackflow.Agent.Store.Growth.{is_disputed}
use stackflow.Agent.Store.Cursor.{KeepsCursor, record_closure-KeepsCursor}
use stackflow.Agent.Service.Wallet.{Agent, Signer}
use stackflow.Agent.Service.Dispute.{World, DisputeResult, not_submitted, submitted}
use stackflow.Agent.Watcher.Run.{
  Watcher, Tally, reading, writing, stored, ◌>>=◌, report, already_disputed, try_dispute,
  count_dispute, skip_or_dispute, handle_closure, raise_block, scan_normalized, scan_event,
  scan_events,
}
use stackflow.Agent.Watcher.Run.Rules.{
  OnOk, Holds, Holds-pure, Holds-reading, Holds-if, Holds-bind, Holds-weaken,
}
use stackflow.Agent.Watcher.Run.Safety.{Runs, Runs-store, dispute_closure-Runs, not_disputed_before}

-- The disputes that were decided: submitted, skipped or failed.
abbrev pub decided : Tally → ℕ
decided t = t.disputes_submitted + t.skipped_already_disputed + t.dispute_errors

-- One closure was handled: at most one counter went up, by one.
pub record Handled (t t' : Tally) : Type 0 where
  pub scanned : t'.scanned ≡ t.scanned
  pub invalid : t'.invalid_events ≡ t.invalid_events
  pub block : t'.highest_block ≡ t.highest_block
  pub at_least : decided t ≤ decided t'
  pub at_most : decided t' ≤ decided t + 1
  pub errors : t.dispute_errors ≤ t'.dispute_errors

-- `n` events were scanned.
pub record Scanned (n : ℕ) (t t' : Tally) : Type 0 where
  pub all : t'.scanned + t'.invalid_events ≡ t.scanned + t.invalid_events + n
  pub decisions : decided t' + t.scanned ≤ decided t + t'.scanned
  pub block : t.highest_block ≤ t'.highest_block
  pub errors : t.dispute_errors ≤ t'.dispute_errors

pub Scanned-zero : (t : Tally) → Scanned 0 t t
Scanned-zero t = omega arith

Scanned-suc : {n : ℕ} {t u v : Tally} → Scanned 1 t u → Scanned n u v → Scanned (suc n) t v
Scanned-suc a b = omega arith

abbrev pub count_items : Items → ℕ
count_items nil = 0
count_items (cons v rest) = suc (count_items rest)

module _ (w0 : World) where
  -- What holds of the watcher during a run that began at `w0`
  abbrev pub During : Watcher → Type 0
  During w = Runs w0 w.world

  stored-During :
      {A : Type 0} (r : Outcome (A × Store)) (w : Watcher)
      → During w
      → ((a : A) (s : Store) → r ≡ ok (a, s) → KeepsCursor w.world.store s)
      → During (stored r w).1 × OnOk (λ _. Unit {0}) (stored r w).0
  unfolding stored
  stored-During (err e) w i keep = (i, tt)
  stored-During (ok (a, s)) w i keep = (Runs-store w0 w.world s i (keep a s refl), tt)

  recording-Holds :
      (now : Text) (c : Closure)
      → Holds During (λ _. Unit {0}) (writing (record_closure now (closure_value c)))
  unfolding writing
  recording-Holds now c = record {
    at = λ w i. stored-During (record_closure now (closure_value c) w.world.store) w i (λ a s e.
        record_closure-KeepsCursor now (closure_value c) w.world.store {c = a} {s' = s} i.valid e);
  }

  module _ (agent : Agent) (signer : Signer) where
    try_dispute-Holds :
        (c : Closure)
        → IsNormal c
        → is_disputed c.txid w0.store ≡ false
        → Holds During (λ _. Unit {0}) (try_dispute agent signer c)
    unfolding try_dispute
    try_dispute-Holds c n fresh = record {
      at = λ w i. (dispute_closure-Runs agent signer w0 c w.world n fresh i, tt);
    }

    count_dispute-Holds :
        (c : Closure) (t : Tally) (r : Outcome DisputeResult)
        → Holds During (Handled t) (count_dispute agent signer c t r)
    unfolding count_dispute report ◌>>=◌
    count_dispute-Holds c t (err e) = record { at = λ w i. (i, omega arith) }
    count_dispute-Holds c t (ok (not_submitted reason d)) = record { at = λ w i. (i, omega arith) }
    count_dispute-Holds c t (ok (submitted d)) = record { at = λ w i. (i, omega arith) }

    skip_or_dispute-Holds :
        (c : Closure) (t : Tally) (existing : Option ClosureRow)
        → IsNormal c
        → (already_disputed existing ≡ false → is_disputed c.txid w0.store ≡ false)
        → Holds During (Handled t) (skip_or_dispute agent signer c t existing)
    unfolding skip_or_dispute
    skip_or_dispute-Holds c t existing n fresh =
        Holds-if During (Handled t) (already_disputed existing) _ _
          (λ _. Holds-pure During (Handled t) _ (omega arith))
          (λ no_mark.
            Holds-bind During (λ _. Unit {0}) (Handled t) (try_dispute agent signer c) _
              (try_dispute-Holds c n (fresh no_mark)) (λ r _. count_dispute-Holds c t r))

    pub handle_closure-Holds :
        (now : Text) (c : Closure) (t : Tally)
        → IsNormal c
        → Holds During (Handled t) (handle_closure agent signer now c t)
    unfolding handle_closure
    handle_closure-Holds now c t n =
        Holds-bind During (λ o. already_disputed o ≡ false → is_disputed c.txid w0.store ≡ false)
          (Handled t) (reading (get_closure (str c.txid))) _
          (Holds-reading During _ (get_closure (str c.txid))
            (λ w i. reads_mark (get_closure (str c.txid) w.world.store) w i refl))
          (λ existing fresh.
            Holds-bind During (λ _. Unit {0}) (Handled t)
              (writing (record_closure now (closure_value c))) _ (recording-Holds now c)
              (λ _ _. skip_or_dispute-Holds c t existing n fresh))
      where
        reads_mark :
            (r : Outcome (Option ClosureRow)) (w : Watcher)
            → During w
            → get_closure (str c.txid) w.world.store ≡ r
            → OnOk (λ o. already_disputed o ≡ false → is_disputed c.txid w0.store ≡ false) r
        reads_mark (err e) w i h = tt
        reads_mark (ok o) w i h = λ fresh. not_disputed_before w0 w.world c o n.txid i h fresh

    raised :
        (t t' : Tally) (block : ℕ)
        → Handled (record t { scanned = t.scanned + 1 }) t'
        → Scanned 1 t (record t' {
          highest_block = if ltb t'.highest_block block then block else t'.highest_block;
        })
    raised t t' block h = elim (Bool-cases (ltb t'.highest_block block)) [
      | inl higher ↦ ground arith
      | inr lower ↦ ground arith
    ]

    raise_block-Holds :
        (c : Closure) (t t' : Tally)
        → Handled (record t { scanned = t.scanned + 1 }) t'
        → Holds During (Scanned 1 t) (raise_block agent signer c t')
    unfolding raise_block
    raise_block-Holds c t t' h =
        Holds-bind During (λ _. Unit {0}) (Scanned 1 t)
          (reading (λ _. parse_unsigned_bigint (str c.block_height) "blockHeight")) _
          (Holds-reading During _ _
            (λ _ _. anything (parse_unsigned_bigint (str c.block_height) "blockHeight")))
          (λ block _. Holds-pure During (Scanned 1 t) _ (raised t t' block h))
      where
        anything : (r : Outcome ℕ) → OnOk (λ _. Unit {0}) r
        anything (ok a) = tt
        anything (err e) = tt

    scan_normalized-Holds :
        (now : Text) (r : Outcome Closure) (t : Tally)
        → ((c : Closure) → r ≡ ok c → IsNormal c)
        → Holds During (Scanned 1 t) (scan_normalized agent signer now r t)
    unfolding scan_normalized
    scan_normalized-Holds now (err e) t normal = Holds-pure During (Scanned 1 t) _ (omega arith)
    scan_normalized-Holds now (ok c) t normal =
        Holds-bind During (Handled (record t { scanned = t.scanned + 1 })) (Scanned 1 t)
          (handle_closure agent signer now c (record t { scanned = t.scanned + 1 })) _
          (handle_closure-Holds now c (record t { scanned = t.scanned + 1 }) (normal c refl))
          (λ t' h. raise_block-Holds c t t' h)

    scan_event-Holds :
        (now : Text) (event : Value) (t : Tally)
        → Holds During (Scanned 1 t) (scan_event agent signer now event t)
    unfolding scan_event
    scan_event-Holds now event t =
        scan_normalized-Holds now (normalize_closure_event event) t
          (λ c e. normalize_closure_event-IsNormal event e)

    -- A whole list of events is scanned, each once.
    pub scan_events-Holds :
        (now : ℕ → Text) (i : ℕ) (events : Items) (t : Tally)
        → Holds During (Scanned (count_items events) t) (scan_events agent signer now i events t)
    unfolding scan_events
    scan_events-Holds now i nil t = Holds-pure During (Scanned 0 t) t (Scanned-zero t)
    scan_events-Holds now i (cons event rest) t =
        Holds-bind During (Scanned 1 t) (Scanned (suc (count_items rest)) t)
          (scan_event agent signer (now i) event t) _ (scan_event-Holds (now i) event t)
          (λ u a.
            Holds-weaken During (Scanned (count_items rest) u) (Scanned (suc (count_items rest)) t)
              _ (λ v b. Scanned-suc a b) (scan_events-Holds now (suc i) rest u))
