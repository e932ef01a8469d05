-- ===== src/X402/PipeSource/Mirror.antt =====
-- `toPipeStatusFromObservedPipe` of packages/x402-client/src/pipe-state-source.js, for the two
-- principals of a pipe.
use stackflow.Common.{◌≡◌, refl, ◌∙◌, true, false, ltb, some}
use stackflow.Js.Text.{Text, text_eq, text_eq_refl, is_empty}
use stackflow.Js.Value.{Value, is_record}
use stackflow.Agent.Service.Accept.{is_text}
use stackflow.X402.PipeSource.{to_pipe_status, principal_of, is_first, or_null, amount_of}

is_first-eq :
    (p q : Text) (pipe : Value)
    → principal_of "principal-1" pipe ≡ some p
    → is_first q pipe ≡ text_eq p q
unfolding is_first is_text
is_first-eq p q pipe first = rw (is_first, first) refl

-- The two principals of a pipe, which are different texts and not empty, see the same pipe with
-- the sides exchanged: what is confirmed and pending for one is the other's for the other, each
-- names the other as its partner, and the rest agrees.
pub to_pipe_status-mirror :
    (p q : Text) (pipe : Value)
    → is_record pipe ≡ true
    → principal_of "principal-1" pipe ≡ some p
    → principal_of "principal-2" pipe ≡ some q
    → text_eq p q ≡ false
    → is_empty p ≡ false
    → is_empty q ≡ false
    → to_pipe_status q pipe ≡ (
        let s = to_pipe_status p pipe in
        record s {
          can_pay = ltb 0 (amount_of "balance2" pipe);
          my_confirmed = s.their_confirmed;
          my_pending = s.their_pending;
          their_confirmed = s.my_confirmed;
          their_pending = s.my_pending;
          for_principal = s.with_principal;
          with_principal = s.for_principal;
        })
unfolding to_pipe_status or_null
to_pipe_status-mirror p q pipe shaped first second differ named also =
    let mine = is_first-eq p p pipe first ∙ text_eq_refl p in
    let theirs = is_first-eq p q pipe first ∙ differ in
    rw (shaped, mine, theirs, first, second, named, also) refl
