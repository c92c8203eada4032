-- ===== src/Ingestion/Fetcher.antt =====
-- The directory of a source: src/ingestion/source-fetcher.ts. The file system, its temporary
-- directories and git are parameters.
use docent.Base.{
  Bool, true, false, not, ◌||◌, Option, none, some, List, [], ◌∷◌, ◌++◌, if◌then◌else◌, Text, codes,
  trim, starts_with, Result, ok, err,
}
use docent.Errors.{Thrown, new_error, describe_thrown}
use docent.Ingestion.Loader.{Paths, Files}

-- The calls that change the host, in the order in which they run.
pub record Host (W : Type 0) : Type 1 where
  pub make_directory : W → Result Thrown Text × W
  pub git : List Text → Option Text → W → Result Thrown Text × W
  pub remove : Text → W → Result {0, 0} Thrown Unit × W

module _ (W : Type 0) where
  pub record FetchedSource : Type 0 where
    pub directory : Text
    pub commit_sha : Option Text
    pub cleanup : W → Result {0, 0} Thrown Unit × W

  module _ (host : Host W) where
    -- The `catch` of `cloneRepository`
    abbrev pub after_remove :
        Text → Thrown → Result {0, 0} Thrown Unit × W → Result Thrown FetchedSource × W
    after_remove url error (ok _, w) = (
      err (new_error (codes "failed to clone " ++ (url ++ (codes ": " ++ describe_thrown error)))),
      w,
    )
    after_remove url error (err failure, w) = (err failure, w)

    abbrev give_up : Text → Text → Thrown → W → Result Thrown FetchedSource × W
    give_up url directory error w = after_remove url error (host.remove directory w)

    abbrev pub after_rev_parse :
        Text → Text → Result Thrown Text × W → Result Thrown FetchedSource × W
    after_rev_parse url directory (err error, w) = give_up url directory error w
    after_rev_parse url directory (ok stdout, w) = (
      ok (record {
        directory = directory;
        commit_sha = some (trim stdout);
        cleanup = host.remove directory;
      }),
      w,
    )

    abbrev pub after_clone : Text → Text → Result Thrown Text × W → Result Thrown FetchedSource × W
    after_clone url directory (err error, w) = give_up url directory error w
    after_clone url directory (ok _, w) =
        after_rev_parse url directory
          (host.git (codes "rev-parse" ∷ codes "HEAD" ∷ []) (some directory) w)

    abbrev pub after_make_directory :
        Text → Result Thrown Text × W → Result Thrown FetchedSource × W
    after_make_directory url (err error, w) = (err error, w)
    after_make_directory url (ok directory, w) =
        after_clone url directory
          (host.git (codes "clone" ∷ codes "--depth" ∷ codes "1" ∷ url ∷ directory ∷ []) none w)

    unfoldable pub clone_repository : Text → W → Result Thrown FetchedSource × W
    clone_repository url w = after_make_directory url (host.make_directory w)

    abbrev pub is_url : Text → Bool
    is_url uri = starts_with uri (codes "http://") || starts_with uri (codes "https://")

    abbrev no_cleanup : W → Result {0, 0} Thrown Unit × W
    no_cleanup w = (ok tt, w)

    abbrev local_directory : Option Bool → Text → Result Thrown FetchedSource
    local_directory (some true) uri =
        ok (record { directory = uri; commit_sha = none; cleanup = no_cleanup })
    local_directory (some false) uri = err (new_error (codes "source is not a directory: " ++ uri))
    local_directory none uri = err (new_error (codes "source is not a directory: " ++ uri))

    unfoldable pub fetch_source : Paths → (W → Files) → Text → W → Result Thrown FetchedSource × W
    unfolding clone_repository
    fetch_source paths files uri w =
        if is_url uri
        then clone_repository uri w
        else if not (paths.is_absolute uri)
        then (
          err (
              new_error
                (codes "source must be an http(s) URL or an absolute path, received: " ++ uri)),
          w,
        )
        else (local_directory ((files w).is_directory uri) uri, w)
