-- ===== src/FileStore/Pending.antt =====
-- bead_store.go: what PendingReadyEvents returns.
use mathlib.Core.List.{Perm, Mem, Memᴰ}
use mathlib.Core.List.Perm
use mathlib.Core.List.Memᴰ
use mathlib.Core.Logic.{◌↔◌, ∥∥₁_map}
use gas_city.Prelude.{
  ltb, if◌then◌else◌, Bool-cases, length, Str, Map, ℕ, suc, ◌<◌, ◌≡◌, refl, sym, ap, subst, ◌∙◌,
  ◌⊎◌, inl, inr, Bool, true, false, List, [], ◌∷◌, arith, Sorted, sort_by, sort_by-perm,
  sort_by-Sorted, length-sort_by,
}
use gas_city.FileStore.Operations.{
  sort_events, event_less, text_less, pending_events, pending_ready_events, entries,
}
use gas_city.Contracts.Event.{ReadyEvent}
use gas_city.FileStore.Records.{OutboxRecord, is_pending, FileState}
use gas_city.FileStore.Persistence.{reply, Env, mutate, Store, execute, load}
use gas_city.Errors.{Result, ok}
use gas_city.FileStore.View.{execute-Success, answered, wrote}

pub text_less-asym : (s t : Str) → text_less s t ≡ true → text_less t s ≡ false
unfolding text_less
text_less-asym [] [] h = refl
text_less-asym [] (b ∷ t) h = refl
text_less-asym (a ∷ s) [] h = absurd (ground arith)
text_less-asym (a ∷ s) (b ∷ t) h = ground (arith, text_less-asym s t)

event_less-asym : (e f : ReadyEvent) → event_less e f ≡ true → event_less f e ≡ false
unfolding event_less
event_less-asym e f h = ground (arith, text_less-asym e.event_id f.event_id)

-- The first text stands before the second in the order of the bytes, or is the same.
abbrev pub Leads : Str → Str → Type 0
Leads [] t = Unit
Leads (a ∷ s) [] = ⊥
Leads (a ∷ s) (b ∷ t) = (a < b) ⊎ ((a ≡ b) × Leads s t)

-- Each event is earlier than the next, or of its time and with an id that leads.
abbrev pub IsOrdered : List ReadyEvent → Type 0
IsOrdered [] = Unit
IsOrdered (e ∷ []) = Unit
IsOrdered (e ∷ f ∷ es) =
    ((e.ready_at < f.ready_at) ⊎ ((e.ready_at ≡ f.ready_at) × Leads e.event_id f.event_id))
    × IsOrdered (f ∷ es)

order_cases : (a b : ℕ) → (a < b) ⊎ (a ≡ b) ⊎ (b < a)
order_cases a b = elim (Bool-cases (ltb a b)) [
  | inl less ↦ inl (ground arith)
  | inr not_less ↦ elim (Bool-cases (ltb b a)) [
    | inl more ↦ inr (inr (ground arith))
    | inr not_more ↦ inr (inl (ground arith))
  ]
]

text_less-Leads : (s t : Str) → text_less t s ≡ false → Leads s t
unfolding text_less
text_less-Leads [] t h = tt
text_less-Leads (a ∷ s) [] h = absurd (ground arith)
text_less-Leads (a ∷ s) (b ∷ t) h = elim (order_cases a b) [
  | inl less ↦ inl less
  | inr (inl same) ↦ inr (same, text_less-Leads s t (ground (arith, same)))
  | inr (inr more) ↦ absurd (ground (arith, more))
]

event_less-ordered :
    (e f : ReadyEvent)
    → event_less f e ≡ false
    → (e.ready_at < f.ready_at) ⊎ ((e.ready_at ≡ f.ready_at) × Leads e.event_id f.event_id)
unfolding event_less
event_less-ordered e f h = elim (order_cases e.ready_at f.ready_at) [
  | inl less ↦ inl less
  | inr (inl same) ↦ inr (same, text_less-Leads e.event_id f.event_id (ground (arith, same)))
  | inr (inr more) ↦ absurd (ground (arith, more))
]

Sorted-IsOrdered : (es : List ReadyEvent) → Sorted event_less es → IsOrdered es
Sorted-IsOrdered [] h = tt
Sorted-IsOrdered (e ∷ []) h = tt
Sorted-IsOrdered (e ∷ f ∷ es) h = (event_less-ordered e f h.0, Sorted-IsOrdered (f ∷ es) h.1)

-- The outbox has a record of the event that is neither acknowledged nor superseded.
abbrev pub Awaits : Map OutboxRecord → ReadyEvent → Type 0
Awaits outbox e =
    (id : Str) × (r : OutboxRecord) × Memᴰ (id, r) outbox
    × (r.acknowledged_at ≡ 0)
    × (r.superseded_at ≡ 0)
    × (r.event ≡ e)

later-Awaits :
    (p : Str × OutboxRecord) (m : Map OutboxRecord) (e : ReadyEvent) → Awaits m e → Awaits (p ∷ m) e
later-Awaits p m e (id, r, there, acked, superseded, same) =
    (id, r, Memᴰ.tail there, acked, superseded, same)

pending_events-Awaits :
    (m : Map OutboxRecord) (e : ReadyEvent) → Memᴰ e (pending_events m) → Awaits m e
unfolding pending_events
pending_events-Awaits [] e h = absurd (Memᴰ.not-nil h)
pending_events-Awaits ((id, r) ∷ m) e h =
    go (is_pending r) refl h (λ k. later-Awaits (id, r) m e (pending_events-Awaits m e k))
  where
    go :
        (b : Bool)
        → is_pending r ≡ b
        → Memᴰ e (if b then r.event ∷ pending_events m else pending_events m)
        → (Memᴰ e (pending_events m) → Awaits ((id, r) ∷ m) e)
        → Awaits ((id, r) ∷ m) e
    go true k g later = elim (Memᴰ.cases_cons g) [
      | inl same ↦ (id, r, Memᴰ.head refl, ground arith, ground arith, sym same)
      | inr n ↦ later n
    ]
    go false k g later = later g

Awaits-pending_events :
    (m : Map OutboxRecord) (e : ReadyEvent) → Awaits m e → Memᴰ e (pending_events m)
unfolding pending_events
Awaits-pending_events [] e (id, r, there, acked, superseded, same) = absurd (Memᴰ.not-nil there)
Awaits-pending_events ((key, q) ∷ m) e (id, r, there, acked, superseded, same) =
    elim (Memᴰ.cases_cons there) [
      | inl here ↦ rw (waits here) (Memᴰ.head (sym same ∙ ap (λ p. p.1.event) here))
      | inr n ↦
          weaken (is_pending q) (Awaits-pending_events m e (id, r, n, acked, superseded, same))
    ]
  where
    waits : ◌≡◌ {A = Str × OutboxRecord} (id, r) (key, q) → is_pending q ≡ true
    waits here =
        subst (λ (x : OutboxRecord). is_pending x ≡ true) (ap (λ p. p.1) here) (ground arith)

    weaken :
        (b : Bool)
        → Memᴰ e (pending_events m)
        → Memᴰ e (if b then q.event ∷ pending_events m else pending_events m)
    weaken true n = Memᴰ.tail n
    weaken false n = n

-- How many records wait.
abbrev pub waiting : Map OutboxRecord → ℕ
waiting [] = 0
waiting ((id, r) ∷ m) = if is_pending r then suc (waiting m) else waiting m

-- What PendingReadyEvents answers of an outbox.
pub record IsListing (outbox : Map OutboxRecord) (es : List ReadyEvent) : Type 0 where
  pub ordered : IsOrdered es
  pub awaiting : (e : ReadyEvent) → Mem e es ↔ ∥ Awaits outbox e ∥₁
  pub once : length es ≡ waiting outbox

length-pending_events : (m : Map OutboxRecord) → length (pending_events m) ≡ waiting m
unfolding pending_events
length-pending_events [] = refl
length-pending_events ((id, r) ∷ m) = ground (arith, length-pending_events m)

listed-IsListing : (m : Map OutboxRecord) → IsListing m (sort_events (pending_events m))
unfolding sort_events
listed-IsListing m =
    let same : Perm (sort_by event_less (pending_events m)) (pending_events m) =
      sort_by-perm event_less (pending_events m) in
    record {
      ordered = Sorted-IsOrdered _ (sort_by-Sorted event_less event_less-asym (pending_events m));
      awaiting = λ e. (
        λ h. ∥∥₁_map ((Perm.mem_iff same).0 h) (pending_events-Awaits m e),
        λ h. (Perm.mem_iff same).1 (∥∥₁_map h (Awaits-pending_events m e)),
      );
      once = length-sort_by event_less (pending_events m) ∙ length-pending_events m;
    }

reply_ok {ℓ} : {A : Type ℓ} {a b : A} → reply (ok a) ≡ reply (ok b) → a ≡ b
reply_ok h = cc

reply_not_mutate {ℓ} :
    {A : Type ℓ} {r : Result A} {s : FileState} {a : A} → reply r ≡ mutate s a → ⊥
reply_not_mutate h = cc

-- What PendingReadyEvents answers, through the lock and the load, of the outbox that it loaded: the
-- events are in the order of their times, and of their ids at one time; an event is listed exactly
-- if the outbox has a record of it that is neither acknowledged nor superseded; and there are as
-- many events as such records. The file stays as it is.
pub pending_ready_events-IsListing :
    (env : Env) (store : Store) (es : List ReadyEvent)
    → (execute env pending_ready_events store).0 ≡ ok es
    → IsListing (entries (load env.readable store.file store.memory).1.outbox) es
      × ((execute env pending_ready_events store).1.file ≡ store.file)
unfolding pending_ready_events
pending_ready_events-IsListing env store es h =
    elim (execute-Success pending_ready_events env store es h) [
      | answered l b e ↦
          (subst (IsListing _) (reply_ok b) (listed-IsListing _), ap (λ (q : Store). q.file) e)
      | wrote s l b e ↦ absurd (reply_not_mutate b)
    ]
