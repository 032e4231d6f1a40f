-- ===== src/Workflow/Counting.antt =====
-- workflow.go: how often an event id stands in a list, and how many activities run.
use gas_city.Prelude.{
  none_not_some, ◌==◌, nat_eq, Str, text_eq, int_eq, ℕ, zero, suc, ◌+◌, ◌≤◌, ◌<◌, ◌≡◌, refl, ap,
  Bool, true, false, ◌&&◌, not, some, List, [], ◌∷◌, ◌++◌, arith,
}
use gas_city.Contracts.Event.{ReadyEvent}
use gas_city.Contracts.Requests.{member}
use gas_city.Workflow.Run.{Pending}
use gas_city.Workflow.Handlers.{open_at, mark_at}

abbrev pub one_if : Bool → ℕ
one_if true = 1
one_if false = 0

abbrev pub count : Str → List Str → ℕ
count x [] = 0
count x (y ∷ ys) = one_if (y == x) + count x ys

-- The activities that run, all of them and those of an event.
abbrev pub open_count : List Pending → ℕ
open_count [] = 0
open_count (p ∷ ps) = one_if (not p.terminal) + open_count ps

abbrev pub open_of : Str → List Pending → ℕ
open_of x [] = 0
open_of x (p ∷ ps) = one_if (not p.terminal && p.event.event_id == x) + open_of x ps

abbrev pub activity_ids : List Pending → List Str
activity_ids [] = []
activity_ids (p ∷ ps) = p.event.event_id ∷ activity_ids ps

pub count-append : (x : Str) (xs ys : List Str) → count x (xs ++ ys) ≡ count x xs + count x ys
count-append x [] ys = omega arith
count-append x (y ∷ xs) ys = omega (arith, count-append x xs ys)

pub open_count-append :
    (ps qs : List Pending) → open_count (ps ++ qs) ≡ open_count ps + open_count qs
open_count-append [] qs = omega arith
open_count-append (p ∷ ps) qs = omega (arith, open_count-append ps qs)

pub open_of-append :
    (x : Str) (ps qs : List Pending) → open_of x (ps ++ qs) ≡ open_of x ps + open_of x qs
open_of-append x [] qs = omega arith
open_of-append x (p ∷ ps) qs = omega (arith, open_of-append x ps qs)

pub activity_ids-append :
    (ps qs : List Pending) → activity_ids (ps ++ qs) ≡ activity_ids ps ++ activity_ids qs
activity_ids-append [] qs = refl
activity_ids-append (p ∷ ps) qs = ap (λ l. p.event.event_id ∷ l) (activity_ids-append ps qs)

pub open_count-mark_at :
    (i : ℕ) (ps : List Pending) (e : ReadyEvent)
    → open_at i ps ≡ some e
    → open_count ps ≡ open_count (mark_at i ps) + 1
open_count-mark_at i [] e h = absurd (none_not_some h)
open_count-mark_at zero (p ∷ ps) e h = ground arith
open_count-mark_at (suc i) (p ∷ ps) e h = omega (arith, open_count-mark_at i ps e h)

pub open_of-mark_at :
    (x : Str) (i : ℕ) (ps : List Pending) (e : ReadyEvent)
    → open_at i ps ≡ some e
    → open_of x ps ≡ open_of x (mark_at i ps) + one_if (e.event_id == x)
open_of-mark_at x i [] e h = absurd (none_not_some h)
open_of-mark_at x zero (p ∷ ps) e h = ground arith
open_of-mark_at x (suc i) (p ∷ ps) e h = omega (arith, open_of-mark_at x i ps e h)

pub activity_ids-mark_at :
    (i : ℕ) (ps : List Pending) → activity_ids (mark_at i ps) ≡ activity_ids ps
activity_ids-mark_at i [] = refl
activity_ids-mark_at zero (p ∷ ps) = refl
activity_ids-mark_at (suc i) (p ∷ ps) = ap (λ l. p.event.event_id ∷ l) (activity_ids-mark_at i ps)

-- With no activity running none of any event runs.
pub open_of-le : (x : Str) (ps : List Pending) → open_of x ps ≤ open_count ps
open_of-le x [] = omega arith
open_of-le x (p ∷ ps) = ground (arith, open_of-le x ps)

pub member-count : (x : Str) (xs : List Str) → member x xs ≡ true → 0 < count x xs
member-count x [] h = absurd (ground arith)
member-count x (y ∷ xs) h = ground (arith, member-count x xs)

pub count-member : (x : Str) (xs : List Str) → 0 < count x xs → member x xs ≡ true
count-member x [] h = absurd (omega arith)
count-member x (y ∷ xs) h = ground (arith, count-member x xs)
