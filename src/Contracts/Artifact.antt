-- ===== src/Contracts/Artifact.antt =====
-- contracts.go: ArtifactRef.
use gas_city.Prelude.{
  Bool, true, false, ◌&&◌, ◌||◌, List, leb, length, Str, Str-discrete, ◌==◌, text_eq, text, before,
  Eq, ℕ_discrete,
}
use gas_city.Errors.{
  Check, require, ◌>>◌, artifact_kind_not_allowed, artifact_uri_not_compact,
  artifact_scheme_not_allowed, artifact_sha256_format,
}
use gas_city.Contracts.Identifiers.{uri_pattern, sha256_pattern}

pub data ArtifactKind : Type 0 where
  commit patch review_record test_report : ArtifactKind
  other : Str → ArtifactKind

pub record ArtifactRef : Type 0 where
  pub kind : ArtifactKind
  pub uri : Str
  pub sha256 : Str

unfoldable pub ArtifactKind-discrete : Discrete ArtifactKind
unfolding Str-discrete
ArtifactKind-discrete = hlevel ℕ_discrete

unfoldable pub ArtifactRef-discrete : Discrete ArtifactRef
unfolding ArtifactKind-discrete
ArtifactRef-discrete = hlevel (ArtifactKind-discrete, Str-discrete)

unfoldable pub artifacts_discrete : Discrete (List ArtifactRef)
unfolding ArtifactRef-discrete
artifacts_discrete = hlevel ArtifactRef-discrete

-- `artifactsEqual`: the same length and equal at every index.
instance abbrev pub artifacts_eq : Eq (List ArtifactRef)
artifacts_eq = record { dec = artifacts_discrete }

abbrev kind_allowed : ArtifactKind → Bool
kind_allowed (other s) = false
kind_allowed _ = true

abbrev scheme_allowed : Str → Bool
scheme_allowed scheme =
    scheme == text "bead"
    || (scheme == text "file"
        || (scheme == text "git" || (scheme == text "https" || scheme == text "s3")))

unfoldable pub validate : ArtifactRef → Check
validate r = do
  require (kind_allowed r.kind) artifact_kind_not_allowed
  require (leb (length r.uri) 512 && uri_pattern r.uri) artifact_uri_not_compact
  require (scheme_allowed (before b':' r.uri)) artifact_scheme_not_allowed
  require (sha256_pattern r.sha256) artifact_sha256_format
