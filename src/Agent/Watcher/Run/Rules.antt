-- ===== src/Agent/Watcher/Run/Rules.antt =====
-- Rules for the watcher's steps (packages/stackflow-agent/src/watcher.js): what a step keeps of the
-- watcher, whether it returns or throws, and what its value satisfies when it returns.
use stackflow.Common.{◌≡◌, refl, Bool, true, false, if◌then◌else◌}
use stackflow.Js.Outcome.{Outcome, ok, err}
use stackflow.Agent.Store.Rows.{Store}
use stackflow.Agent.Watcher.Run.{Watcher, Act, pure, reading, ◌>>=◌, continue}

abbrev pub OnOk : {A : Type 0} → (A → Type 0) → Outcome A → Type 0
OnOk Q (ok a) = Q a
OnOk Q (err e) = Unit {0}

module _ (I : Watcher → Type 0) where
  pub record Holds {A : Type 0} (Q : A → Type 0) (m : Act A) : Type 0 where
    pub at : (w : Watcher) → I w → I (m w).1 × OnOk Q (m w).0

  module _ {A : Type 0} (Q : A → Type 0) where
    pub Holds-pure : (a : A) → Q a → Holds Q (pure a)
    Holds-pure a q = record { at = λ w i. (i, q) }

    pub Holds-reading :
        (f : Store → Outcome A)
        → ((w : Watcher) → I w → OnOk Q (f w.world.store))
        → Holds Q (reading f)
    Holds-reading f h = record { at = λ w i. (i, h w i) }

    pub Holds-if :
        (b : Bool) (m n : Act A)
        → (b ≡ true → Holds Q m)
        → (b ≡ false → Holds Q n)
        → Holds Q (if b then m else n)
    Holds-if true m n km kn = km refl
    Holds-if false m n km kn = kn refl

  OnOk-weaken :
      {A : Type 0} (P Q : A → Type 0) (r : Outcome A) → ((a : A) → P a → Q a) → OnOk P r → OnOk Q r
  OnOk-weaken P Q (ok a) f p = f a p
  OnOk-weaken P Q (err e) f p = tt

  pub Holds-weaken :
      {A : Type 0} (P Q : A → Type 0) (m : Act A) → ((a : A) → P a → Q a) → Holds P m → Holds Q m
  Holds-weaken P Q m f h = record {
    at = λ w i. let (i', p) = h.at w i in (i', OnOk-weaken P Q (m w).0 f p);
  }

  module _ {A B : Type 0} (Q : A → Type 0) (R : B → Type 0) where
    Holds-continue :
        (r : Outcome A) (f : A → Act B) (w : Watcher)
        → ((a : A) → Q a → Holds R (f a))
        → I w
        → OnOk Q r
        → I (continue r f w).1 × OnOk R (continue r f w).0
    unfolding continue
    Holds-continue (ok a) f w k i q = (k a q).at w i
    Holds-continue (err e) f w k i q = (i, tt)

    pub Holds-bind :
        (m : Act A) (f : A → Act B)
        → Holds Q m
        → ((a : A) → Q a → Holds R (f a))
        → Holds R (m >>= f)
    unfolding ◌>>=◌
    Holds-bind m f hm hf = record {
      at = λ w i. let (r, w') = m w in let (i', q) = hm.at w i in Holds-continue r f w' hf i' q;
    }
