-- ===== src/Agent/EventSource/Listed.antt =====
-- The form of the closures that packages/stackflow-agent/src/event-source.js lists.
use stackflow.Common.{
  ℕ, zero, suc, ◌+◌, ◌≡◌, refl, List, [], ◌∷◌, ◌++◌, All, ◌||◌, ◌==◌, ltb, if◌then◌else◌,
  Bool-cases, inl, inr,
}
use mathlib.Core.Path.{subst}
use stackflow.Js.Text.{Text}
use stackflow.Js.Outcome.{Outcome, ok, err, type_error, after_ok}
use stackflow.Js.Value.{Value, Items, nil, cons, truthy, is_nullish, get}
use stackflow.Agent.Utils.{Closure, normalize_closure_event}
use stackflow.Agent.Utils.Normal.{IsNormal, normalize_closure_event-IsNormal}
use stackflow.Agent.Store.Steps.{value_of_ok}
use stackflow.Agent.EventSource.{
  Source, PageQuery, events_of, count, keep, found_in, decode_page, list_pages, list_closure_events,
}

All-append : (cs ds : List Closure) → All IsNormal cs → All IsNormal ds → All IsNormal (cs ++ ds)
All-append [] ds a b = b
All-append (c ∷ cs) ds (n, a) b = (n, All-append cs ds a b)

keep-IsNormal :
    (r : Outcome Closure) → ((c : Closure) → r ≡ ok c → IsNormal c) → All IsNormal (keep r)
unfolding keep
keep-IsNormal (ok c) h = (h c refl, tt)
keep-IsNormal (err e) h = tt

found_in-IsNormal : (decoded : Value) → All IsNormal (found_in decoded)
unfolding found_in
found_in-IsNormal decoded = elim (Bool-cases (truthy decoded)) [
  | inl yes_value ↦ rw yes_value (
      keep-IsNormal (normalize_closure_event decoded)
        (λ c e. normalize_closure_event-IsNormal decoded e))
  | inr no_value ↦ rw no_value tt
]

module _ (decode_event : Value → Outcome Value) where
  decode_page-IsNormal :
      (events : Items) {cs : List Closure}
      → decode_page decode_event events ≡ ok cs
      → All IsNormal cs
  unfolding decode_page
  decode_page-IsNormal nil {cs} h = subst (All IsNormal) (value_of_ok h) tt
  decode_page-IsNormal (cons event rest) {cs} h = after_ok (decode_event event) _ h λ decoded _ h1.
      after_ok (decode_page decode_event rest) _ h1 λ more e h2.
        subst (All IsNormal) (value_of_ok h2) (
          All-append (found_in decoded) more (found_in-IsNormal decoded)
            (decode_page-IsNormal rest {cs = more} e))

  module _ (get_contract_events : PageQuery → Outcome Value) (source : Source) (from : Text)
      (to : Value) (page_size : ℕ) where
    list_pages-IsNormal :
        (pages offset : ℕ) (closures : List Closure) {cs : List Closure}
        → All IsNormal closures
        → list_pages decode_event get_contract_events source from to page_size pages offset closures
          ≡ ok cs
        → All IsNormal cs
    unfolding list_pages
    list_pages-IsNormal zero offset closures {cs} a h = subst (All IsNormal) (value_of_ok h) a
    list_pages-IsNormal (suc pages) offset closures {cs} a h =
        after_ok (get_contract_events _) _ h λ page _ h1.
          after_ok (if is_nullish page then err type_error else ok (events_of (get page "events")))
            _ h1
            λ events _ h2. after_ok (decode_page decode_event events) _ h2 λ found e h3.
              let all = All-append closures found a (decode_page-IsNormal events {cs = found} e) in
              elim (Bool-cases (count events == 0 || ltb (count events) page_size)) [
                | inl short ↦ subst (All IsNormal) (value_of_ok (rw short at h3)) all
                | inr full ↦
                    list_pages-IsNormal pages (offset + page_size) (closures ++ found) {cs = cs} all
                      (rw full at h3)
              ]

    -- Whatever the wallet and the decoder answer, each closure that is listed has the form that
    -- `normalizeClosureEvent` gives.
    pub list_closure_events-IsNormal :
        (max_pages : ℕ) {cs : List Closure}
        → list_closure_events decode_event get_contract_events source from to page_size max_pages
          ≡ ok cs
        → All IsNormal cs
    unfolding list_closure_events
    list_closure_events-IsNormal max_pages {cs} h =
        list_pages-IsNormal max_pages 0 [] {cs = cs} tt h
