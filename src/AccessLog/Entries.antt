-- ===== src/AccessLog/Entries.antt =====
-- `NewWriter` and `Writer.Write` (internal/accesslog/accesslog.go), entry after entry.
use localfront.Base.{◌≡◌, refl, List, [], ◌∷◌, ◌++◌, map, Option, none, some}
use localfront.Text.{Bytes}
use localfront.AccessLog.{TimeFormat, Entry, Sink, Writer, render_entry, write, write_line}
use localfront.AccessLog.Stream.{Appends, Outcome, write_lines, write_lines-Outcome}

module _ (fmt : TimeFormat) (sink : Sink) where
  unfoldable pub write_all : Option (Writer sink) → List (Entry fmt) → Option (Writer sink)
  write_all w [] = w
  write_all w (e ∷ es) = write_all (write sink fmt w e) es

  write_all-lines :
      (w : Writer sink) (es : List (Entry fmt))
      → write_all (some w) es ≡ some (write_lines sink w (map (render_entry fmt) es))
  unfolding write_all write write_lines
  write_all-lines w [] = refl
  write_all-lines w (e ∷ es) = write_all-lines (write_line sink w (render_entry fmt e)) es

  -- For a destination that appends a part of what it is given, the whole of it where it
  -- reports no error, and a writer without an error: behind any number of Writes, the lines of
  -- the entries before the first failure are appended complete and in order, then at most a
  -- part of the line that failed, and nothing of the later ones; without a failure all lines
  -- are.
  pub write_all-Outcome :
      (a : Appends sink) (w : Writer sink) (es : List (Entry fmt))
      → w.err ≡ none
      → (w' : Writer sink) × (added : Bytes) × (write_all (some w) es ≡ some w')
        × (a.content w'.w ≡ a.content w.w ++ added)
        × Outcome sink (map (render_entry fmt) es) added w'.err
  write_all-Outcome a w es h =
      let (added, grown, o) = write_lines-Outcome sink a w (map (render_entry fmt) es) h in
      (write_lines sink w (map (render_entry fmt) es), added, write_all-lines w es, grown, o)
