-- ===== src/Workflow/Sets.antt =====
-- workflow.go: eventIDSetsEqual is equality of the sets.
use gas_city.Prelude.{
  if◌then◌else◌, Bool-cases, length, ◌==◌, nat_eq, Str, text_eq, int_eq, ◌+◌, ◌≤◌, ◌≡◌, refl, sym,
  ◌∙◌, ◌↔◌, inl, inr, Bool, true, false, ◌&&◌, not, List, [], ◌∷◌, arith,
}
use gas_city.Workflow.Run.{event_id_set, subset, event_id_sets_equal}
use gas_city.Contracts.Requests.{member}
use gas_city.Workflow.Sealing.{subset-member}

remove : Str → List Str → List Str
remove x [] = []
remove x (y ∷ t) = let rest = remove x t in if y == x then t else y ∷ rest

length-remove : (x : Str) (t : List Str) → member x t ≡ true → length t ≡ length (remove x t) + 1
unfolding remove
length-remove x [] h = absurd (ground arith)
length-remove x (y ∷ t) h = ground (arith, length-remove x t)

member-remove :
    (x z : Str) (t : List Str) → (z == x) ≡ false → member z t ≡ true → member z (remove x t) ≡ true
unfolding remove
member-remove x z [] other h = h
member-remove x z (y ∷ t) other h = ground (arith, member-remove x z t)

subset-remove :
    (x : Str) (s t : List Str)
    → member x s ≡ false
    → subset s t ≡ true
    → subset s (remove x t) ≡ true
subset-remove x [] t h k = refl
subset-remove x (z ∷ s) t h k = ground (arith, subset-remove x s t, member-remove x z t)

-- No id stands twice in the list.
distinct : List Str → Bool
distinct [] = true
distinct (x ∷ s) = not (member x s) && distinct s

length-subset : (s t : List Str) → distinct s ≡ true → subset s t ≡ true → length s ≤ length t
unfolding distinct
length-subset [] t d h = ground arith
length-subset (x ∷ s) t d h =
    let absent : member x s ≡ false = ground arith in
    let there : member x t ≡ true = ground arith in
    let inside : subset s t ≡ true = ground arith in
    let smaller = length-subset s (remove x t) (ground arith) (subset-remove x s t absent inside) in
    let sized = length-remove x t there in omega arith

-- Where as many different ids are in a list, none of the list is missing.
nothing_missing :
    (x : Str) (s t : List Str)
    → distinct s ≡ true
    → subset s t ≡ true
    → length s ≡ length t
    → member x t ≡ true
    → member x s ≡ true
unfolding distinct
nothing_missing x s t d h sized there = elim (Bool-cases (member x s)) [
  | inl present ↦ present
  | inr absent ↦ absurd (ground (arith, length-subset (x ∷ s) t))
]

member-event_id_set : (x : Str) (xs : List Str) → member x (event_id_set xs) ≡ member x xs
member-event_id_set x [] = refl
member-event_id_set x (y ∷ xs) = ground (arith, member-event_id_set x xs, member-event_id_set y xs)

event_id_set-distinct : (xs : List Str) → distinct (event_id_set xs) ≡ true
unfolding distinct
event_id_set-distinct [] = refl
event_id_set-distinct (x ∷ xs) = ground (arith, event_id_set-distinct xs)

-- A list is a part of another one where each of its members is.
subset-all :
    (s t : List Str) → ((x : Str) → member x s ≡ true → member x t ≡ true) → subset s t ≡ true
subset-all [] t h = refl
subset-all (x ∷ s) t h =
    let first : member x t ≡ true = h x (ground arith) in
    let rest : subset s t ≡ true = subset-all s t (λ z k. h z (ground arith)) in ground arith

same_truth : (a b : Bool) → (a ≡ true → b ≡ true) → (b ≡ true → a ≡ true) → a ≡ b
same_truth true b f g = sym (f refl)
same_truth false true f g = g refl
same_truth false false f g = refl

module _ (xs ys : List Str) where
  abbrev left : List Str
  left = event_id_set xs

  abbrev right : List Str
  right = event_id_set ys

  parts :
      event_id_sets_equal left right ≡ true
      → (length left ≡ length right) × (subset left right ≡ true)
  parts h = ground arith

  equal-member : event_id_sets_equal left right ≡ true → (x : Str) → member x xs ≡ member x ys
  equal-member h x =
      let (sized, inside) = parts h in
      sym (member-event_id_set x xs)
      ∙ (same_truth (member x left) (member x right) (subset-member x left right inside)
            (nothing_missing x left right (event_id_set-distinct xs) inside sized)
          ∙ member-event_id_set x ys)

  through : ((x : Str) → member x xs ≡ member x ys) → (x : Str) → member x left ≡ member x right
  through h x = member-event_id_set x xs ∙ (h x ∙ sym (member-event_id_set x ys))

  member-equal : ((x : Str) → member x xs ≡ member x ys) → event_id_sets_equal left right ≡ true
  member-equal h =
      let inside : subset left right ≡ true =
        subset-all left right (λ x k. sym (through h x) ∙ k) in
      let back : subset right left ≡ true = subset-all right left (λ x k. through h x ∙ k) in
      let le = length-subset left right (event_id_set-distinct xs) inside in
      let ge = length-subset right left (event_id_set-distinct ys) back in
      let sized : length left ≡ length right = omega arith in ground arith

-- The comparison of two sets of event ids, by their sizes and one inclusion, answers true exactly
-- where the lists they are made from have the same members.
pub event_id_sets_equal-member :
    (xs ys : List Str)
    → (event_id_sets_equal (event_id_set xs) (event_id_set ys) ≡ true)
      ↔ ((x : Str) → member x xs ≡ member x ys)
event_id_sets_equal-member xs ys = (equal-member xs ys, member-equal xs ys)
