-- ===== src/News/Sorted.antt =====
-- The events come in the order of their times, so the search answers for the whole calendar.
use shamarx_app.Prelude.{
  ℕ, zero, suc, ◌*◌, ◌≤◌, ◌≡◌, refl, inl, inr, true, false, some, List, [], ◌∷◌, map, arith, leb,
  All, any, get_elem?, if◌then◌else◌, Bool-cases,
}
use shamarx_app.Smc.Index.Last.{IsSorted}
use shamarx_app.News.{
  NewsEvent, insert_event, sort_events, all_events, unsorted_events, event_times_ms, is_near,
  is_in_blackout,
}
use shamarx_app.News.Near.{is_in_blackout-any}

abbrev NoneBefore : ℕ → List NewsEvent → Type 0
NoneBefore t = All (λ (e : NewsEvent). t ≤ e.time)

abbrev Ascends : List NewsEvent → Type 0
Ascends [] = Unit
Ascends (e ∷ rest) = NoneBefore e.time rest × Ascends rest

NoneBefore-weaken : (s t : ℕ) (es : List NewsEvent) → s ≤ t → NoneBefore t es → NoneBefore s es
NoneBefore-weaken s t [] h n = tt
NoneBefore-weaken s t (e ∷ rest) h n = (omega (arith, n.0), NoneBefore-weaken s t rest h n.1)

insert_event-NoneBefore :
    (t : ℕ) (e : NewsEvent) (es : List NewsEvent)
    → t ≤ e.time
    → NoneBefore t es
    → NoneBefore t (insert_event e es)
unfolding insert_event
insert_event-NoneBefore t e [] h n = (h, tt)
insert_event-NoneBefore t e (f ∷ rest) h n =
    elim (leb e.time f.time)
      as (λ b. NoneBefore t (if b then e ∷ f ∷ rest else f ∷ insert_event e rest)) [
        | true ↦ (h, n)
        | false ↦ (n.0, insert_event-NoneBefore t e rest h n.1)
      ]

insert_event-Ascends :
    (e : NewsEvent) (es : List NewsEvent) → Ascends es → Ascends (insert_event e es)
unfolding insert_event
insert_event-Ascends e [] a = (tt, tt)
insert_event-Ascends e (f ∷ rest) a = elim (Bool-cases (leb e.time f.time)) [
  | inl first ↦
      rw first ((ground arith, NoneBefore-weaken e.time f.time rest (ground arith) a.0), a)
  | inr after ↦
      rw after
        (insert_event-NoneBefore f.time e rest (ground arith) a.0, insert_event-Ascends e rest a.1)
]

sort_events-Ascends : (es : List NewsEvent) → Ascends (sort_events es)
unfolding sort_events
sort_events-Ascends [] = tt
sort_events-Ascends (e ∷ rest) =
    insert_event-Ascends e (sort_events rest) (sort_events-Ascends rest)

abbrev times_of : List NewsEvent → List ℕ
times_of = map (λ (e : NewsEvent). e.time)

NoneBefore-at :
    (t : ℕ) (es : List NewsEvent) (i a : ℕ)
    → NoneBefore t es
    → get_elem? (times_of es) i ≡ some a
    → t ≤ a
NoneBefore-at t [] i a n h = absurd (ground arith)
NoneBefore-at t (e ∷ rest) zero a n h = let first = n.0 in ground arith
NoneBefore-at t (e ∷ rest) (suc i) a n h = NoneBefore-at t rest i a n.1 h

Ascends-IsSorted : (es : List NewsEvent) → Ascends es → IsSorted (times_of es)
Ascends-IsSorted [] s i j a b le ha hb = absurd (ground arith)
Ascends-IsSorted (e ∷ rest) s zero zero a b le ha hb = ground arith
Ascends-IsSorted (e ∷ rest) s zero (suc j) a b le ha hb =
    let later = NoneBefore-at e.time rest j b s.0 hb in ground arith
Ascends-IsSorted (e ∷ rest) s (suc i) zero a b le ha hb = absurd (omega arith)
Ascends-IsSorted (e ∷ rest) s (suc i) (suc j) a b le ha hb =
    Ascends-IsSorted rest s.1 i j a b (omega arith) ha hb

pub event_times_ms-IsSorted : IsSorted event_times_ms
unfolding event_times_ms all_events
event_times_ms-IsSorted = Ascends-IsSorted all_events (sort_events-Ascends unsorted_events)

-- At any time, and for any window, the search over the program's own calendar says whether some
-- event of it is within the window of the time.
pub is_in_blackout_calendar :
    (t minutes : ℕ)
    → is_in_blackout event_times_ms t minutes ≡ any (is_near t (minutes * 60 * 1000)) event_times_ms
is_in_blackout_calendar t minutes =
    is_in_blackout-any event_times_ms t (minutes * 60 * 1000) event_times_ms-IsSorted minutes refl
