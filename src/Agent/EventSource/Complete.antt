-- ===== src/Agent/EventSource/Complete.antt =====
-- packages/stackflow-agent/src/event-source.js against a wallet that pages through a list of
-- events.
use stackflow.Common.{
  ℕ, zero, suc, ◌+◌, ◌*◌, ◌≤◌, ◌<◌, ◌≡◌, refl, sym, ◌∙◌, ap, List, [], ◌∷◌, ◌++◌, ◌||◌, ◌==◌, arith,
  ltb, if◌then◌else◌, Bool-cases, inl, inr,
}
use stackflow.Js.Text.{Text}
use stackflow.Js.Outcome.{Outcome, ok, err, ◌>>=◌}
use stackflow.Js.Value.{Value, arr, obj, prop, end, Items, nil, cons, is_nullish, get, get_field}
use stackflow.Agent.Utils.{Closure}
use stackflow.Agent.EventSource.{
  Source, PageQuery, events_of, count, found_in, decode_page, list_pages, list_closure_events,
}

abbrev take_items : ℕ → Items → Items
take_items zero v = nil
take_items (suc n) nil = nil
take_items (suc n) (cons v rest) = cons v (take_items n rest)

abbrev drop_items : ℕ → Items → Items
drop_items zero v = v
drop_items (suc n) nil = nil
drop_items (suc n) (cons v rest) = drop_items n rest

-- A wallet that answers with the page of a list of events.
abbrev pub paged : Items → PageQuery → Outcome Value
paged all q = ok (obj (prop "events" (arr (take_items q.limit (drop_items q.offset all))) end))

drop_items-nil : (n : ℕ) → drop_items n nil ≡ nil
drop_items-nil zero = refl
drop_items-nil (suc n) = refl

drop_items-drop_items : (m n : ℕ) (v : Items) → drop_items (m + n) v ≡ drop_items n (drop_items m v)
drop_items-drop_items zero n v =
    let same : 0 + n ≡ n = omega arith in ap (λ (k : ℕ). drop_items k v) same
drop_items-drop_items (suc m) n nil =
    let same : suc m + n ≡ suc (m + n) = omega arith in
    ap (λ (k : ℕ). drop_items k nil) same ∙ sym (drop_items-nil n)
drop_items-drop_items (suc m) n (cons x v) =
    let same : suc m + n ≡ suc (m + n) = omega arith in
    ap (λ (k : ℕ). drop_items k (cons x v)) same ∙ drop_items-drop_items m n v

-- A page is full, or nothing is behind it.
module _ where
  short_page : (n : ℕ) (v : Items) → count (take_items n v) < n → drop_items n v ≡ nil
  unfolding count
  short_page zero v h = absurd (omega arith)
  short_page (suc n) nil h = refl
  short_page (suc n) (cons x v) h = short_page n v (omega arith)

  full_page :
      (n : ℕ) (v : Items) → n ≤ count (take_items n v) → count v ≡ n + count (drop_items n v)
  unfolding count
  full_page zero v h = omega arith
  full_page (suc n) nil h = absurd (omega arith)
  full_page (suc n) (cons x v) h = let rest = full_page n v (omega arith) in omega arith

none_left : (v : Items) → count v ≤ 0 → v ≡ nil
unfolding count
none_left nil h = refl
none_left (cons x v) h = absurd (omega arith)

abbrev pub onto : List Closure → Outcome (List Closure) → Outcome (List Closure)
onto closures (ok found) = ok (closures ++ found)
onto closures (err e) = err e

++-assoc : (a b c : List Closure) → (a ++ b) ++ c ≡ a ++ (b ++ c)
++-assoc [] b c = refl
++-assoc (x ∷ a) b c = ap (λ (l : List Closure). x ∷ l) (++-assoc a b c)

++-nil : (a : List Closure) → a ++ [] ≡ a
++-nil [] = refl
++-nil (x ∷ a) = ap (λ (l : List Closure). x ∷ l) (++-nil a)

onto-onto : (a b : List Closure) (r : Outcome (List Closure)) → onto a (onto b r) ≡ onto (a ++ b) r
onto-onto a b (ok c) = ap (λ (l : List Closure). ok l) (sym (++-assoc a b c))
onto-onto a b (err e) = refl

onto-nil : (r : Outcome (List Closure)) → onto [] r ≡ r
onto-nil (ok c) = refl
onto-nil (err e) = refl

module _ (decode_event : Value → Outcome Value) where
  -- Decoding in two parts
  decode_page-split :
      (n : ℕ) (v : Items)
      → decode_page decode_event v ≡ (
          decode_page decode_event (take_items n v) >>= λ found.
          onto found (decode_page decode_event (drop_items n v)))
  unfolding decode_page
  decode_page-split zero v = sym (onto-nil (decode_page decode_event v))
  decode_page-split (suc n) nil = refl
  decode_page-split (suc n) (cons event rest) = rw (decode_page-split n rest) (
      regroup (decode_event event) (decode_page decode_event (take_items n rest))
        (decode_page decode_event (drop_items n rest)))
    where
      regroup :
          (r : Outcome Value) (t u : Outcome (List Closure))
          → (r >>= λ decoded.
              (t >>= λ found. onto found u) >>= λ more. ok (found_in decoded ++ more))
            ≡ ((r >>= λ decoded. t >>= λ more. ok (found_in decoded ++ more)) >>= λ found.
                onto found u)
      regroup (err e) t u = refl
      regroup (ok d) (err e) u = refl
      regroup (ok d) (ok f) (err e) = refl
      regroup (ok d) (ok f) (ok g) =
          ap (λ (l : List Closure). ok l) (sym (++-assoc (found_in d) f g))

  module _ (all : Items) (source : Source) (from : Text) (to : Value) (page_size : ℕ) where
    -- What the loop goes on to do with the closures so far
    abbrev go_on : ℕ → ℕ → Items → List Closure → Outcome (List Closure)
    go_on pages offset events closures =
        if count events == 0 || ltb (count events) page_size
        then ok closures
        else list_pages decode_event (paged all) source from to page_size pages (offset + page_size)
            closures

    last_page :
        (events rest : Items) (closures : List Closure)
        → rest ≡ nil
        → ok closures ≡ onto closures (decode_page decode_event rest)
    unfolding decode_page
    last_page events rest closures e =
        rw e (ap (λ (l : List Closure). ok l) (sym (++-nil closures)))

    regroup_page :
        (r : Outcome (List Closure)) (closures : List Closure)
        (go : List Closure → Outcome (List Closure)) (u : Outcome (List Closure))
        → ((cs : List Closure) → go cs ≡ onto cs u)
        → (r >>= λ found. go (closures ++ found)) ≡ onto closures (r >>= λ found. onto found u)
    regroup_page (err e) closures go u h = refl
    regroup_page (ok found) closures go u h =
        h (closures ++ found) ∙ sym (onto-onto closures found u)

    -- The rest of the list, where enough pages are left for it
    list_pages-paged :
        (pages offset : ℕ) (closures : List Closure)
        → 0 < page_size
        → count (drop_items offset all) ≤ pages * page_size
        → list_pages decode_event (paged all) source from to page_size pages offset closures
          ≡ onto closures (decode_page decode_event (drop_items offset all))
    unfolding list_pages is_nullish get get_field events_of
    list_pages-paged zero offset closures pos h =
        last_page nil (drop_items offset all) closures
          (none_left (drop_items offset all) (omega arith))
    list_pages-paged (suc pages) offset closures pos h =
        let left = drop_items offset all in
        let events = take_items page_size left in
        rw (decode_page-split page_size left) (
          regroup_page (decode_page decode_event events) closures (go_on pages offset events)
            (decode_page decode_event (drop_items page_size left))
            (λ cs. elim (Bool-cases (count events == 0 || ltb (count events) page_size)) [
              | inl short ↦ rw short (
                  last_page events (drop_items page_size left) cs
                    (short_page page_size left (ground arith)))
              | inr full ↦
                  let counted = full_page page_size left (ground arith) in
                  let next = drop_items-drop_items offset page_size all in
                  rw full (
                    list_pages-paged pages (offset + page_size) cs pos (
                      rw next
                        (bound pages (count left) (count (drop_items page_size left)) counted h))
                    ∙ ap (λ (v : Items). onto cs (decode_page decode_event v)) next)
            ]))
      where
        bound :
            (pages n m : ℕ) → n ≡ page_size + m → n ≤ suc pages * page_size → m ≤ pages * page_size
        bound pages n m e h = omega arith

    -- With a wallet that answers with the pages of a list of events, pages of at least one event,
    -- and enough pages allowed for the list: what is listed, or thrown, is what decoding the whole
    -- list gives.
    pub list_closure_events-paged :
        (max_pages : ℕ)
        → 0 < page_size
        → count all ≤ max_pages * page_size
        → list_closure_events decode_event (paged all) source from to page_size max_pages
          ≡ decode_page decode_event all
    unfolding list_closure_events
    list_closure_events-paged max_pages pos h =
        list_pages-paged max_pages 0 [] pos h ∙ onto-nil (decode_page decode_event all)
