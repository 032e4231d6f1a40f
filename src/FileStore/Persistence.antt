-- ===== src/FileStore/Persistence.antt =====
-- bead_store.go: `OpenFileBeadStore`, `load`, `persistLocked`, `persistMutationLocked` and
-- `lockState`. What the file system does in a call is the argument `Env`.
use gas_city.Prelude.{
  Bool, true, false, ◌||◌, [], Str, ◌==◌, text_eq, int_eq, ℤ, pos, Map, Option, none, some, merge,
  if◌then◌else◌,
}
use gas_city.Errors.{
  Error, Result, Check, ok, err, lock_failed, read_failed, decode_failed, unsupported_store_version,
  store_maps_required, persist_failed, reload_after_ambiguous_write, not_configured,
}
use gas_city.Contracts.Identifiers.{current_contract_version}
use gas_city.Contracts.Event.{Time}
use gas_city.FileStore.Records.{BeadRecord, OutboxRecord, FileState}

-- A member of the file's JSON document.
pub data Field {ℓ} (A : Type ℓ) : Type ℓ where
  missing null : Field A
  present : A → Field A

pub record Document : Type 0 where
  pub version : Field ℤ
  pub beads : Field (Map BeadRecord)
  pub outbox : Field (Map OutboxRecord)

-- The file at the store's path. `malformed` is not JSON.
pub data StoreFile : Type 0 where
  absent malformed : StoreFile
  document : Document → StoreFile

-- How a write goes: it succeeds, it fails before the rename, or only the sync of the directory fails.
pub data Write : Type 0 where
  written not_renamed not_synced : Write

-- What the environment does in one call. `superseded_now` is the clock's reading when the loop over
-- the outbox comes to an event.
pub record Env : Type 0 where
  pub lockable : Bool
  pub readable : Bool
  pub now : Time
  pub superseded_now : Str → Time
  pub write : Write
  pub reloadable : Bool

pub record Store : Type 0 where
  pub memory : FileState
  pub file : StoreFile

-- `json.Unmarshal` into an int that is there already, and into a map: the entries of a map that is
-- there stay, unless the document has the key.
abbrev decode_int : Field ℤ → ℤ → ℤ
decode_int (present v) old = v
decode_int _ old = old

abbrev pub decode_map {ℓ} : {V : Type ℓ} → Field (Map V) → Option (Map V) → Option (Map V)
decode_map missing old = old
decode_map null old = none
decode_map (present m) none = some (merge [] m)
decode_map (present m) (some old) = some (merge old m)

abbrev pub decode : Document → FileState → FileState
decode d s = record {
  version = decode_int d.version s.version;
  beads = decode_map d.beads s.beads;
  outbox = decode_map d.outbox s.outbox;
}

abbrev pub fresh_state : FileState
fresh_state = record { version = current_contract_version; beads = some []; outbox = some [] }

abbrev pub is_nil {ℓ} : {A : Type ℓ} → Option A → Bool
is_nil none = true
is_nil (some _) = false

-- The checks of `load` on the decoded state.
abbrev pub check_state : FileState → Check
check_state s =
    if s.version == current_contract_version
    then if is_nil s.beads || is_nil s.outbox then err store_maps_required else ok tt
    else err unsupported_store_version

-- load: the state after it stands in memory also where a check fails. A text that is no JSON leaves
-- memory as it was; a JSON text with a value of the wrong type, which may overwrite a part of
-- memory before its error, is not modelled.
unfoldable pub load : Bool → StoreFile → FileState → Check × FileState
load readable absent s = (ok tt, fresh_state)
load false _ s = (err read_failed, s)
load true malformed s = (err decode_failed, s)
load true (document d) s = (check_state (decode d s), decode d s)

abbrev pub encode_map {ℓ} : {V : Type ℓ} → Option (Map V) → Field (Map V)
encode_map none = null
encode_map (some m) = present m

-- `json.Marshal` of the state.
abbrev pub encode : FileState → Document
encode s = record {
  version = present s.version;
  beads = encode_map s.beads;
  outbox = encode_map s.outbox;
}

-- persistLocked: the rename puts the whole document in place.
abbrev pub persist : Write → FileState → StoreFile → Check × StoreFile
persist written s file = (ok tt, document (encode s))
persist not_renamed s file = (err persist_failed, file)
persist not_synced s file = (err persist_failed, document (encode s))

-- The error of `persistMutationLocked` after a failed write.
abbrev after_reload : Error → Check → Check
after_reload e (ok _) = err e
after_reload e (err r) = err (reload_after_ambiguous_write r)

-- persistMutationLocked
unfoldable pub persist_mutation : Env → FileState → StoreFile → Check × Store
unfolding load
persist_mutation env s file =
    let (outcome, file') = persist env.write s file in
    let (reloaded, s') = load env.reloadable file' s in
    elim outcome [
      | ok _ ↦ (ok tt, record { memory = s; file = file' })
      | err e ↦ (after_reload e reloaded, record { memory = s'; file = file' })
    ]

-- What an operation decides from the loaded state: an answer, or a new state to write and the
-- answer if that succeeds.
pub data Decision {ℓ} (A : Type ℓ) : Type ℓ where
  reply : Result A → Decision A
  mutate : FileState → A → Decision A

abbrev answer {ℓ} : {A : Type ℓ} → Check → A → Result A
answer (ok _) a = ok a
answer (err e) a = err e

unfoldable pub commit {ℓ} :
    {A : Type ℓ} → Env → Decision A → FileState → StoreFile → Result A × Store
unfolding persist_mutation
commit env (reply r) s file = (r, record { memory = s; file = file })
commit env (mutate s' a) s file =
    let (outcome, store) = persist_mutation env s' file in (answer outcome a, store)

-- The frame of every operation: the lock, `lockState`'s load, the body.
unfoldable pub execute {ℓ} :
    {A : Type ℓ} → Env → (FileState → Decision A) → Store → Result A × Store
unfolding load commit
execute env body store =
    let (loaded, s) = load env.readable store.file store.memory in
    if env.lockable
    then (elim loaded [
      | ok _ ↦ commit env (body s) s store.file
      | err e ↦ (err e, record { memory = s; file = store.file })
    ])
    else (err lock_failed, store)

-- The zero `fileState` of a new store.
abbrev pub zero_state : FileState
zero_state = record { version = pos 0; beads = none; outbox = none }

abbrev pub opened : Check × FileState → StoreFile → Result Store
opened (ok _, s) file = ok (record { memory = s; file = file })
opened (err e, s) file = err e

-- OpenFileBeadStore, with a path and a clock that are given or not.
unfoldable pub open_store : Bool → Bool → Bool → StoreFile → Result Store
unfolding load
open_store has_path has_clock readable file =
    if has_path
    then if has_clock
      then opened (load readable file zero_state) file
      else err (not_configured "clock")
    else err (not_configured "bead store path")
