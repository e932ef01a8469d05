-- ===== src/Agent/Watcher/Scan.antt =====
-- One round of the loop in `runOnceByReadonlyPipe` (packages/stackflow-agent/src/watcher.js), and the
-- whole loop: the counters, compared with what the read-only calls show.
use stackflow.Common.{ℕ, suc, ◌+◌, ◌≤◌, ◌≡◌, refl, Option, none, some, arith, List, [], ◌∷◌, length}
use stackflow.Js.Text.{Text}
use stackflow.Js.Outcome.{Outcome, Error, ok, err}
use stackflow.Js.Value.{Value}
use stackflow.Agent.Utils.{Closure, normalize_closure_event}
use stackflow.Agent.Utils.Normal.{IsNormal, normalize_closure_event-IsNormal}
use stackflow.Agent.Store.Rows.{TrackedPipe}
use stackflow.Agent.Service.Wallet.{Agent, Signer}
use stackflow.Agent.Service.Dispute.{World}
use stackflow.Agent.Watcher.PipeState.{to_closure_from_pipe_state}
use stackflow.Agent.Watcher.Run.{◌>>=◌, continue, report, handle_closure}
use stackflow.Agent.Watcher.Run.Rules.{Holds, Holds-pure, Holds-bind, Holds-weaken}
use stackflow.Agent.Watcher.Loops.{decided, Handled, During, handle_closure-Holds}
use stackflow.Agent.Watcher.Once.{
  PipeTally, found, on_normalized, on_raw, on_fetched, scan_pipe, scan_pipes,
}

module _ (get_pipe_state : TrackedPipe → Outcome Value) where
  -- What the read-only calls for a list of tracked pipes show: the closures, in the order of the
  -- pipes, and the number of calls that throw. A state shows a closure if its fields give one that
  -- can be normalised.
  pub data Shows : List TrackedPipe → List Closure → ℕ → Type 0 where
    nothing : Shows [] [] 0
    throws :
        {t : TrackedPipe} {ts : List TrackedPipe} {cs : List Closure} {n : ℕ} (e : Error)
        → get_pipe_state t ≡ err e
        → Shows ts cs n
        → Shows (t ∷ ts) cs (suc n)
    is_quiet :
        {t : TrackedPipe} {ts : List TrackedPipe} {cs : List Closure} {n : ℕ} (state : Value)
        → get_pipe_state t ≡ ok state
        → to_closure_from_pipe_state t state ≡ none
        → Shows ts cs n
        → Shows (t ∷ ts) cs n
    is_invalid :
        {t : TrackedPipe} {ts : List TrackedPipe} {cs : List Closure} {n : ℕ} (state raw : Value)
        (e : Error)
        → get_pipe_state t ≡ ok state
        → to_closure_from_pipe_state t state ≡ some raw
        → normalize_closure_event raw ≡ err e
        → Shows ts cs n
        → Shows (t ∷ ts) cs n
    is_closed :
        {t : TrackedPipe} {ts : List TrackedPipe} {cs : List Closure} {n : ℕ} (state raw : Value)
        (c : Closure)
        → get_pipe_state t ≡ ok state
        → to_closure_from_pipe_state t state ≡ some raw
        → normalize_closure_event raw ≡ ok c
        → Shows ts cs n
        → Shows (t ∷ ts) (c ∷ cs) n

  -- The counters went up by what the calls show, and the decided disputes by at most one for each
  -- closure.
  pub record Looked (pipes : List TrackedPipe) (p p' : PipeTally) : Type 0 where
    pub closures : List Closure
    pub failures : ℕ
    pub shown : Shows pipes closures failures
    pub all : p'.pipes_scanned ≡ p.pipes_scanned + length pipes
    pub found : p'.closures_found ≡ p.closures_found + length closures
    pub failed : p'.fetch_errors ≡ p.fetch_errors + failures
    pub decisions : decided p'.tally ≤ decided p.tally + length closures

  Looked-nil : (p : PipeTally) → Looked [] p p
  Looked-nil p = record {
    closures = [];
    failures = 0;
    shown = nothing;
    all = omega arith;
    found = omega arith;
    failed = omega arith;
    decisions = omega arith;
  }

  -- After one pipe the others
  Looked-cons :
      (t : TrackedPipe) (ts : List TrackedPipe) (p q r : PipeTally)
      → Looked (t ∷ []) p q
      → Looked ts q r
      → Looked (t ∷ ts) p r
  Looked-cons t ts p q r a b =
      let (cs, n, both, longer, more) = joined a.shown b.shown in
      let all_a = a.all in
      let all_b = b.all in
      let found_a = a.found in
      let found_b = b.found in
      let failed_a = a.failed in
      let failed_b = b.failed in
      let decisions_a = a.decisions in
      let decisions_b = b.decisions in
      record {
        closures = cs;
        failures = n;
        shown = both;
        all = omega arith;
        found = omega arith;
        failed = omega arith;
        decisions = omega arith;
      }
    where
      joined :
          {cs ds : List Closure} {m n : ℕ}
          → Shows (t ∷ []) cs m
          → Shows ts ds n
          → (es : List Closure) × (k : ℕ) × Shows (t ∷ ts) es k
            × (length es ≡ length cs + length ds)
            × (k ≡ m + n)
      joined (throws e thrown nothing) b = (_, _, throws e thrown b, omega arith, omega arith)
      joined (is_quiet state fetched shaped nothing) b =
          (_, _, is_quiet state fetched shaped b, omega arith, omega arith)
      joined (is_invalid state raw e fetched shaped bad nothing) b =
          (_, _, is_invalid state raw e fetched shaped bad b, omega arith, omega arith)
      joined (is_closed state raw c fetched shaped good nothing) b =
          (_, _, is_closed state raw c fetched shaped good b, omega arith, omega arith)

  module _ (w0 : World) (agent : Agent) (signer : Signer) (now : ℕ → Text) (i : ℕ) (t : TrackedPipe)
      (p : PipeTally) where
    counted : PipeTally
    counted = record p { pipes_scanned = p.pipes_scanned + 1 }

    found-Holds :
        (c : Closure)
        → Shows (t ∷ []) (c ∷ []) 0
        → IsNormal c
        → Holds (During w0) (Looked (t ∷ []) p) (found agent signer now i counted c)
    unfolding found counted
    found-Holds c shown n =
        Holds-bind (During w0) (Handled p.tally) (Looked (t ∷ []) p)
          (handle_closure agent signer (now i) c p.tally) _
          (handle_closure-Holds w0 agent signer (now i) c p.tally n)
          (λ u h.
            let at_most = h.at_most in
            Holds-pure (During w0) (Looked (t ∷ []) p) _ (record {
              closures = c ∷ [];
              failures = 0;
              shown = shown;
              all = omega arith;
              found = omega arith;
              failed = omega arith;
              decisions = omega arith;
            }))

    missed :
        (p' : PipeTally) (n : ℕ)
        → Shows (t ∷ []) [] n
        → p' ≡ record counted { fetch_errors = p.fetch_errors + n }
        → Looked (t ∷ []) p p'
    unfolding counted
    missed p' n shown same = rw same (record {
      closures = [];
      failures = n;
      shown = shown;
      all = omega arith;
      found = omega arith;
      failed = refl;
      decisions = omega arith;
    })

    unmissed : counted ≡ record counted { fetch_errors = p.fetch_errors + 0 }
    unfolding counted
    unmissed =
        let unchanged : p.fetch_errors + 0 ≡ p.fetch_errors = omega arith in rw unchanged refl

    on_normalized-Holds :
        (state raw : Value) (r : Outcome Closure)
        → get_pipe_state t ≡ ok state
        → to_closure_from_pipe_state t state ≡ some raw
        → normalize_closure_event raw ≡ r
        → Holds (During w0) (Looked (t ∷ []) p) (on_normalized agent signer now i counted r)
    unfolding on_normalized
    on_normalized-Holds state raw (err e) fetched shaped bad =
        Holds-pure (During w0) (Looked (t ∷ []) p) counted
          (missed counted 0 (is_invalid state raw e fetched shaped bad nothing) unmissed)
    on_normalized-Holds state raw (ok c) fetched shaped good =
        found-Holds c (is_closed state raw c fetched shaped good nothing)
          (normalize_closure_event-IsNormal raw good)

    on_raw-Holds :
        (state : Value) (raw : Option Value)
        → get_pipe_state t ≡ ok state
        → to_closure_from_pipe_state t state ≡ raw
        → Holds (During w0) (Looked (t ∷ []) p) (on_raw agent signer now i counted raw)
    unfolding on_raw
    on_raw-Holds state none fetched shaped =
        Holds-pure (During w0) (Looked (t ∷ []) p) counted
          (missed counted 0 (is_quiet state fetched shaped nothing) unmissed)
    on_raw-Holds state (some raw) fetched shaped =
        on_normalized-Holds state raw (normalize_closure_event raw) fetched shaped refl

    on_fetched-Holds :
        (r : Outcome Value)
        → get_pipe_state t ≡ r
        → Holds (During w0) (Looked (t ∷ []) p) (on_fetched agent signer now i t counted r)
    unfolding on_fetched report ◌>>=◌ continue counted
    on_fetched-Holds (err e) thrown = record {
      at = λ w run. (run, missed _ 1 (throws e thrown nothing) refl);
    }
    on_fetched-Holds (ok state) fetched =
        on_raw-Holds state (to_closure_from_pipe_state t state) fetched refl

    scan_pipe-Holds :
        Holds (During w0) (Looked (t ∷ []) p) (scan_pipe agent signer now get_pipe_state i t p)
    unfolding scan_pipe counted
    scan_pipe-Holds = on_fetched-Holds (get_pipe_state t) refl

  module _ (w0 : World) (agent : Agent) (signer : Signer) (now : ℕ → Text) where
    pub scan_pipes-Holds :
        (i : ℕ) (pipes : List TrackedPipe) (p : PipeTally)
        → Holds (During w0) (Looked pipes p) (scan_pipes agent signer now get_pipe_state i pipes p)
    unfolding scan_pipes
    scan_pipes-Holds i [] p = Holds-pure (During w0) (Looked [] p) p (Looked-nil p)
    scan_pipes-Holds i (t ∷ rest) p =
        Holds-bind (During w0) (Looked (t ∷ []) p) (Looked (t ∷ rest) p)
          (scan_pipe agent signer now get_pipe_state i t p) _
          (scan_pipe-Holds w0 agent signer now i t p)
          (λ q a.
            Holds-weaken (During w0) (Looked rest q) (Looked (t ∷ rest) p) _
              (λ r b. Looked-cons t rest p q r a b) (scan_pipes-Holds (suc i) rest q))
