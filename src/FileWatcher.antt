-- ===== src/FileWatcher.antt =====
-- application/watcher/file_watcher.go: the files with unsaved changes, by their URIs.
use khulnasoft_lab_vulnmap_l.Prelude.Maps.{TextMap, lookup, store, delete}
use khulnasoft_lab_vulnmap_l.Prelude.{Text, Bool, true, false, none, some}

-- `FileWatcher`
abbrev pub FileWatcher : Type 0
FileWatcher = TextMap Bool

-- `SetFileAsChanged`
unfoldable pub set_file_as_changed : Text → FileWatcher → FileWatcher
unfolding store
set_file_as_changed uri w = store uri true w

-- `IsDirty`: the value, or false for a missing key.
unfoldable pub is_dirty : FileWatcher → Text → Bool
unfolding lookup
is_dirty w uri = elim (lookup uri w) [ none ↦ false | some b ↦ b ]

-- `SetFileAsSaved`
unfoldable pub set_file_as_saved : Text → FileWatcher → FileWatcher
unfolding delete
set_file_as_saved uri w = delete uri w
