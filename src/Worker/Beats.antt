-- ===== src/Worker/Beats.antt =====
-- activity.go: what the heartbeats of an activity keep.
use gas_city.Prelude.{
  if◌then◌else◌, if_cases, all, ◌==◌, nat_eq, Str, text_eq, ltb_ℤ, int_eq, ℤ, ◌≡◌, refl, sym, ap,
  subst, ◌∙◌, Bool, true, false, ◌&&◌, ◌||◌, List, [], ◌∷◌, arith,
}
use gas_city.Errors.{
  ◌>>◌, wrap, check_all, >>-ok, err_not_ok, wrap-ok, ok_eq, require-ok, Result, ok, err,
  invalid_checkpoint, sequence_reused, sequence_not_monotonic,
}
use gas_city.Contracts.Artifact
use gas_city.Contracts.Artifact.{artifacts_eq}
use gas_city.Worker.Tracker.{
  HeartbeatTracker, snapshot, record_progress, records, advance, advanced, kept_or, heartbeat,
}
use gas_city.Worker.Interface.{AgentProgress}
use gas_city.Contracts.Payloads.{validate_checkpoint, HeartbeatCheckpoint}

-- No heartbeat is newer than the first one of the list, nor than `top`.
abbrev pub Descends : ℤ → List HeartbeatCheckpoint → Type 0
Descends top [] = Unit
Descends top (h ∷ hs) = (ltb_ℤ top h.sequence ≡ false) × Descends h.sequence hs

-- Each of the heartbeats is valid and names the bead, the lease and the session.
abbrev pub AllOf : HeartbeatTracker → List HeartbeatCheckpoint → Type 0
AllOf t [] = Unit
AllOf t (h ∷ hs) =
    (validate_checkpoint h ≡ ok tt)
    × (h.bead_id ≡ t.event.bead_id)
    × (h.generation ≡ t.event.generation)
    × (h.claim_token ≡ t.lease.token)
    × (h.session_id ≡ t.session_id)
    × AllOf t hs

-- A tracker with a session, whose snapshot is valid, and whose heartbeats are in order.
pub record IsOrderly (t : HeartbeatTracker) : Type 0 where
  pub attached : (t.session_id == []) ≡ false
  pub valid : validate_checkpoint (snapshot t) ≡ ok tt
  pub descends : Descends t.sequence t.sent
  pub all_of : AllOf t t.sent

-- A tracker of the same event, lease and session, not behind.
pub record Follows (t q : HeartbeatTracker) : Type 0 where
  pub same_event : q.event ≡ t.event
  pub same_lease : q.lease ≡ t.lease
  pub same_session : q.session_id ≡ t.session_id
  pub not_behind : ltb_ℤ q.sequence t.sequence ≡ false

not_less : (a : ℤ) → ltb_ℤ a a ≡ false
not_less a = ground arith

not_less_trans : (a b c : ℤ) → ltb_ℤ b a ≡ false → ltb_ℤ c b ≡ false → ltb_ℤ c a ≡ false
not_less_trans a b c h k = ground arith

Follows-refl : (t : HeartbeatTracker) → Follows t t
Follows-refl t = record {
  same_event = refl;
  same_lease = refl;
  same_session = refl;
  not_behind = not_less t.sequence;
}

Follows-trans : (t q r : HeartbeatTracker) → Follows t q → Follows q r → Follows t r
Follows-trans t q r f g = record {
  same_event = g.same_event ∙ f.same_event;
  same_lease = g.same_lease ∙ f.same_lease;
  same_session = g.same_session ∙ f.same_session;
  not_behind = not_less_trans t.sequence q.sequence r.sequence f.not_behind g.not_behind;
}

Descends-raise :
    (a b : ℤ) (hs : List HeartbeatCheckpoint) → ltb_ℤ b a ≡ false → Descends a hs → Descends b hs
Descends-raise a b [] h d = tt
Descends-raise a b (c ∷ hs) h (d, ds) = (not_less_trans c.sequence a b d h, ds)

AllOf-advanced :
    (p : AgentProgress) (t : HeartbeatTracker) (hs : List HeartbeatCheckpoint)
    → p.session_id ≡ t.session_id
    → AllOf t hs
    → AllOf (advanced p t) hs
AllOf-advanced p t [] same all = tt
AllOf-advanced p t (h ∷ hs) same (valid, bead, generation, token, session, all) =
    (valid, bead, generation, token, session ∙ sym same, AllOf-advanced p t hs same all)

-- What a report that is taken does.
data Taken (p : AgentProgress) (t q : HeartbeatTracker) : Type 0 where
  again : q ≡ t → Taken p t q
  moved :
      q ≡ heartbeat (advanced p t)
      → validate_checkpoint (snapshot (advanced p t)) ≡ ok tt
      → p.session_id ≡ t.session_id
      → ltb_ℤ p.sequence t.sequence ≡ false
      → Taken p t q

session_kept : (a b : Str) → (a == []) ≡ false → (a == [] || b == a) ≡ true → b ≡ a
session_kept a b h k = ground arith

advance-Taken :
    (p : AgentProgress) (t q : HeartbeatTracker)
    → advance p t ≡ ok q
    → validate_checkpoint (snapshot (advanced p t)) ≡ ok tt
    → p.session_id ≡ t.session_id
    → Taken p t q
advance-Taken p t q h valid session =
    go (p.sequence == t.sequence) (ltb_ℤ p.sequence t.sequence) refl h
  where
    here : Result HeartbeatTracker
    here =
        if p.phase == t.phase && p.artifact_refs == t.artifacts then ok t else err sequence_reused

    on : Result HeartbeatTracker
    on = check_all Artifact.validate p.artifact_refs >> ok (heartbeat (advanced p t))

    go :
        (same behind : Bool)
        → ltb_ℤ p.sequence t.sequence ≡ behind
        → (if same then here else if behind then err sequence_not_monotonic else on) ≡ ok q
        → Taken p t q
    go true behind e k = again (
        if_cases (λ (m : Result HeartbeatTracker). m ≡ ok q → q ≡ t)
          (p.phase == t.phase && p.artifact_refs == t.artifacts) _ _ (λ _ x. sym (ok_eq x))
          (λ _ x. absurd (err_not_ok x)) k)
    go false true e k = absurd (err_not_ok k)
    go false false e k =
        moved (sym (ok_eq (>>-ok (check_all Artifact.validate p.artifact_refs) _ k).1)) valid
          session e

record_progress-Taken :
    (p : AgentProgress) (t q : HeartbeatTracker)
    → (t.session_id == []) ≡ false
    → record_progress p t ≡ ok q
    → Taken p t q
unfolding record_progress
record_progress-Taken p t q attached h =
    let (valid, rest) =
      >>-ok (wrap invalid_checkpoint (validate_checkpoint (snapshot (advanced p t)))) _ h in
    let (same, last) = require-ok (t.session_id == [] || p.session_id == t.session_id) _ _ rest in
    advance-Taken p t q last
      (wrap-ok invalid_checkpoint (validate_checkpoint (snapshot (advanced p t))) valid)
      (session_kept t.session_id p.session_id attached same)

Taken-Follows : (p : AgentProgress) (t q : HeartbeatTracker) → Taken p t q → Follows t q
Taken-Follows p t q (again same) = subst (Follows t) (sym same) (Follows-refl t)
Taken-Follows p t q (moved same valid session behind) =
    subst (Follows t) (sym same)
      (record { same_event = refl; same_lease = refl; same_session = session; not_behind = behind })

Taken-IsOrderly :
    (p : AgentProgress) (t q : HeartbeatTracker) → IsOrderly t → Taken p t q → IsOrderly q
Taken-IsOrderly p t q good (again same) = subst IsOrderly (sym same) good
Taken-IsOrderly p t q good (moved same valid session behind) = subst IsOrderly (sym same) (record {
  attached = ap (λ s. s == []) session ∙ good.attached;
  valid = valid;
  descends =
      (not_less p.sequence, Descends-raise t.sequence p.sequence t.sent behind good.descends);
  all_of = (valid, refl, refl, refl, refl, AllOf-advanced p t t.sent session good.all_of);
})

-- From a tracker with a session and a valid snapshot, whatever the agent reports in whatever order:
-- the event, the lease and the session stay, the sequence does not go back, and every heartbeat that
-- was sent is valid, is of this bead, generation, lease and session, and is not older than the one
-- before it.
pub records-IsOrderly :
    (ps : List AgentProgress) (t : HeartbeatTracker)
    → IsOrderly t
    → Follows t (records ps t) × IsOrderly (records ps t)
unfolding records
records-IsOrderly [] t good = (Follows-refl t, good)
records-IsOrderly (p ∷ ps) t good = go (record_progress p t) refl (λ q. records-IsOrderly ps q)
  where
    go :
        (m : Result HeartbeatTracker)
        → record_progress p t ≡ m
        → ((q : HeartbeatTracker)
            → IsOrderly q
            → Follows q (records ps q) × IsOrderly (records ps q))
        → Follows t (records ps (kept_or t m)) × IsOrderly (records ps (kept_or t m))
    go (err e) k later = later t good
    go (ok q) k later =
        let taken = record_progress-Taken p t q good.attached k in
        let (follows, orderly) = later q (Taken-IsOrderly p t q good taken) in
        (Follows-trans t q (records ps q) (Taken-Follows p t q taken) follows, orderly)
