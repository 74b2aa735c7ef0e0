-- ===== src/CodeBundle/Creation.antt =====
-- infrastructure/code/code.go, `createBundle`, and `isSupported` of infrastructure/code/bundle_uploader.go:
-- the files that a scan uploads. The tracker of this phase is left out. A set is a list. Between two
-- files only the request for the filters changes the surroundings: that a scan is cancelled, or a file
-- written, while the loop runs is left out, and the context is as it was when the loop began.
pub mod Files
pub mod Complete
use khulnasoft_lab_vulnmap_l.Prelude.Maps.{TextMap, store}
use khulnasoft_lab_vulnmap_l.Prelude.Strings.{split_on}
use khulnasoft_lab_vulnmap_l.Prelude.{
  ℕ, ◌==◌, ltb, leb, Text, text_eq, codes, Bool, true, false, ◌&&◌, ◌||◌, not, List, [], ◌∷◌, ◌++◌,
  Option, none, some, length, if◌then◌else◌,
}
use khulnasoft_lab_vulnmap_l.PathEncoding.{to_relative_unix_path, encode_path}
use khulnasoft_lab_vulnmap_l.UploadBatch.{BundleFile}
use khulnasoft_lab_vulnmap_l.CodeBundle.{World, Bundle, Answer, failed, answered, Filters, after}
use khulnasoft_lab_vulnmap_l.CodeBundle.Analysis.{ScanEvent, error_captured}

-- The fields of `BundleUploader` that change.
pub record BundleUploader : Type 0 where
  pub supported_extensions : List Text
  pub supported_config_files : List Text

-- `NewBundler`
abbrev pub new_bundler : BundleUploader
new_bundler = record { supported_extensions = []; supported_config_files = [] }

unfoldable pub is_member : Text → List Text → Bool
unfolding text_eq
is_member t [] = false
is_member t (u ∷ us) = text_eq u t || is_member t us

unfoldable pub has_slash : Text → Bool
has_slash [] = false
has_slash (c ∷ s) = c == b'/' || has_slash s

-- `filepath.Ext`: from the last dot of the last element on.
unfoldable pub path_ext : Text → Text
unfolding has_slash
path_ext [] = []
path_ext (c ∷ s) = elim (path_ext s) [
  | [] ↦ if c == b'.' && not (has_slash s) then c ∷ s else []
  | d ∷ ext ↦ d ∷ ext
]

-- The last part that is not empty, or the text given.
unfoldable pub last_part : Text → List Text → Text
last_part found [] = found
last_part found ([] ∷ parts) = last_part found parts
last_part found ((c ∷ part) ∷ parts) = last_part (c ∷ part) parts

-- `filepath.Base`
unfoldable pub path_base : Text → Text
unfolding last_part split_on
path_base [] = codes "."
path_base (c ∷ path) = last_part (codes "/") (split_on b'/' (c ∷ path))

-- The config files of the filters, without the two that are not to be uploaded.
unfoldable pub uploadable : List Text → List Text
unfolding text_eq
uploadable [] = []
uploadable (file ∷ files) =
    let rest = uploadable files in
    if text_eq file (codes ".gitignore") || text_eq file (codes ".dcignore")
    then rest
    else file ∷ rest

unfoldable pub with_filters : Filters → BundleUploader → BundleUploader
unfolding uploadable
with_filters filters u = record {
  supported_extensions = u.supported_extensions ++ filters.extensions;
  supported_config_files = u.supported_config_files ++ uploadable filters.config_files;
}

-- The answer of `isSupported`, once the filters are loaded.
unfoldable pub matches_filters : Text → BundleUploader → Bool
unfolding is_member path_ext path_base
matches_filters file u =
    is_member (path_ext file) u.supported_extensions
    || is_member (path_base file) u.supported_config_files

abbrev pub has_none : List Text → Bool
has_none [] = true
has_none (t ∷ ts) = false

-- Both sets have the size 0.
abbrev pub is_unloaded : BundleUploader → Bool
is_unloaded u = has_none u.supported_extensions && has_none u.supported_config_files

-- Where a scan stands: the uploader, the surroundings, and what was told so far.
pub record CodeScanState (W : Type 0) : Type 0 where
  pub uploader : BundleUploader
  pub world : W
  pub events : List ScanEvent

-- What the loop of `createBundle` gathers.
pub record Collection : Type 0 where
  pub bundle_files : TextMap BundleFile
  pub file_hashes : TextMap Text
  pub limit_to_files : List Text

abbrev pub empty_collection : Collection
empty_collection = record { bundle_files = []; file_hashes = []; limit_to_files = [] }

abbrev pub max_file_size : ℕ
max_file_size = 1048576

-- How `createBundle` ends.
pub data Creation : Type 0 where
  no_files_to_scan : Creation
  creation_failed : Text → Creation
  created : Bundle → Creation

abbrev pub zero_bundle : Bundle
zero_bundle = record {
  bundle_hash = [];
  upload_batches = [];
  files = [];
  missing_files = [];
  limit_to_files = [];
  root_path = [];
}

-- `getFileFrom`
abbrev pub get_file_from : (Text → Text) → Text → BundleFile
get_file_from hash content = record { hash = hash content; content = content }

-- The error of `ToRelativeUnixPath`, with the one of `filepath.Rel` that it wraps.
abbrev relative_path_error : Text → Text → Text
relative_path_error base path =
    codes "could not get relative path for file: "
    ++ path
    ++ codes " and root path: "
    ++ base
    ++ codes ": Rel: can't make "
    ++ path
    ++ codes " relative to "
    ++ base

-- The key of a file in the bundle; after an error the relative path is empty.
unfoldable pub file_key : Text → Text → Text
unfolding to_relative_unix_path encode_path
file_key root_path path = encode_path (to_relative_unix_path root_path path).0

-- What is told of a file that is added.
unfoldable pub path_events : Text → Text → List ScanEvent
unfolding to_relative_unix_path
path_events root_path path =
    if (to_relative_unix_path root_path path).1
    then []
    else error_captured root_path (relative_path_error root_path path) ∷ []

-- The admissible sizes.
abbrev pub has_size : Text → Bool
has_size content = ltb 0 (length content) && leb (length content) max_file_size

module _ (hash : Text → Text) (root_path : Text) (changed_files : List Text) where
  -- The rest of the loop's body, for a file of an admissible size.
  unfoldable pub add_file : Text → Text → Collection → Collection
  unfolding file_key store is_member
  add_file path content c = record {
    bundle_files = store (file_key root_path path) (get_file_from hash content) c.bundle_files;
    file_hashes = store (file_key root_path path) (hash content) c.file_hashes;
    limit_to_files =
        if is_member path changed_files
        then c.limit_to_files ++ (file_key root_path path ∷ [])
        else c.limit_to_files;
  }

module _ {W : Type 0} (x : World W) where
  -- `isSupported`: the filters are asked for while both sets are empty.
  unfoldable pub is_supported : Text → CodeScanState W → CodeScanState W × Answer Bool
  unfolding matches_filters with_filters
  is_supported file s =
      if is_unloaded s.uploader
      then after (x.get_filters s.world)
          (λ filters w. (
            record s { uploader = with_filters filters s.uploader; world = w },
            answered (matches_filters file (with_filters filters s.uploader)),
          ))
          (λ w e. (record s { world = w }, failed e))
      else (s, answered (matches_filters file s.uploader))

  module _ (hash : Text → Text) (root_path : Text) (changed_files : List Text) where
    -- The rest of the loop's body for a supported file, with what `os.ReadFile` gives.
    unfoldable pub add_content :
        Text → Option Text → Collection → CodeScanState W → Collection × CodeScanState W
    unfolding add_file path_events
    add_content path none c s = (c, s)
    add_content path (some content) c s =
        if has_size content
        then (
          add_file hash root_path changed_files path content c,
          record s { events = s.events ++ path_events root_path path },
        )
        else (c, s)

    unfoldable pub add_supported :
        Text → Bool → Collection → CodeScanState W → Collection × CodeScanState W
    unfolding add_content
    add_supported path false c s = (c, s)
    add_supported path true c s = add_content path (x.read_file s.world path) c s

    -- The loop; `answered none` is the early return of a cancelled scan.
    unfoldable pub collect_files :
        List Text → Collection → CodeScanState W → CodeScanState W × Answer (Option Collection)
    unfolding is_supported add_supported
    collect_files [] c s = (s, answered (some c))
    collect_files (path ∷ paths) c s = elim (x.cancelled s.world) [
      | true ↦ (s, answered none)
      | false ↦
          after (is_supported path s)
            (λ supported s'.
              collect_files paths (add_supported path supported c s').0
                (add_supported path supported c s').1)
            (λ s' e. (s', failed e))
    ]

    abbrev pub bundle_from : Collection → Bundle
    bundle_from c = record {
      bundle_hash = [];
      upload_batches = [];
      files = c.bundle_files;
      missing_files = [];
      limit_to_files = c.limit_to_files;
      root_path = root_path;
    }

    unfoldable pub answer_creation : Collection → Answer (Text × List Text) → Creation
    answer_creation c (failed e) = creation_failed e
    answer_creation c (answered (h, missing)) =
        created (record (bundle_from c) { bundle_hash = h; missing_files = missing })

    -- The end of `createBundle`: the backend is asked only if there is a file.
    unfoldable pub send_hashes : Collection → CodeScanState W → CodeScanState W × Creation
    unfolding answer_creation
    send_hashes c s = elim c.file_hashes [
      | [] ↦ (s, created (bundle_from c))
      | file ∷ files ↦ (
        record s { world = (x.create_bundle c.file_hashes s.world).0 },
        answer_creation c (x.create_bundle c.file_hashes s.world).1,
      )
    ]

    -- After the loop. A cancelled scan has the zero bundle and no error.
    unfoldable pub finish_creation :
        Option Collection → CodeScanState W → CodeScanState W × Creation
    unfolding send_hashes
    finish_creation none s = (s, created zero_bundle)
    finish_creation (some c) s = send_hashes c s

    -- `createBundle`
    unfoldable pub create_bundle : List Text → CodeScanState W → CodeScanState W × Creation
    unfolding collect_files finish_creation
    create_bundle [] s = (s, no_files_to_scan)
    create_bundle (path ∷ paths) s =
        after (collect_files (path ∷ paths) empty_collection s) finish_creation
          (λ s' e. (s', creation_failed e))
