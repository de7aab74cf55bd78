-- ===== src/AccessLog/Stream.antt =====
-- `Writer.Write` (internal/accesslog/accesslog.go), line after line.
use localfront.Base.{
  ◌≡◌, ◌≢◌, refl, sym, ap, ◌∙◌, ◌⊎◌, inl, inr, List, [], ◌∷◌, ◌++◌, append_assoc, append-nil,
  Option, none, some, Option-cases,
}
use localfront.Text.{Bytes}
use localfront.AccessLog.{Sink, Writer, write_line}

-- The documented behaviour of an `io.Writer`: it appends a part of the text, the whole of it if
-- there is no error.
pub record Appends (sink : Sink) : Type 0 where
  pub content : sink.Dst → Bytes
  pub written : sink.Dst → Bytes → Bytes
  pub left : sink.Dst → Bytes → Bytes
  pub appended :
      (d : sink.Dst) (s : Bytes) → content (sink.write_string d s).0 ≡ content d ++ written d s
  pub is_part : (d : sink.Dst) (s : Bytes) → written d s ++ left d s ≡ s
  pub whole : (d : sink.Dst) (s : Bytes) → (sink.write_string d s).1 ≡ none → left d s ≡ []

abbrev pub flatten : List Bytes → Bytes
flatten [] = []
flatten (line ∷ lines) = line ++ flatten lines

module _ (sink : Sink) where
  unfoldable pub write_lines : Writer sink → List Bytes → Writer sink
  write_lines w [] = w
  write_lines w (line ∷ lines) = write_lines (write_line sink w line) lines

  -- The lines in front of the first failure, and a part of the line that failed.
  pub record Outcome (lines : List Bytes) (added : Bytes) (err : Option sink.Fault) : Type 0 where
    pub complete : List Bytes
    pub partial : Bytes
    pub unwritten : Bytes
    pub lost : List Bytes
    pub added_is : added ≡ flatten complete ++ partial
    pub ending :
        (err ≡ none) × (lines ≡ complete) × (partial ≡ [])
        ⊎ (err ≢ none) × (lines ≡ complete ++ ((partial ++ unwritten) ∷ lost))

  write_lines_failed :
      (w : Writer sink) (e : sink.Fault) (lines : List Bytes)
      → w.err ≡ some e
      → write_lines w lines ≡ w
  unfolding write_lines
  write_lines_failed w e [] h = refl
  write_lines_failed w e (line ∷ lines) h =
      let same : write_line sink w line ≡ w = unfold write_line in rw h in
      ap (λ v. write_lines v lines) same ∙ write_lines_failed w e lines h

  write_line_ready :
      (w : Writer sink) (line : Bytes)
      → w.err ≡ none
      → write_line sink w line
        ≡ record { w = (sink.write_string w.w line).0; err = (sink.write_string w.w line).1 }
  unfolding write_line
  write_line_ready w line h = rw h

  module _ (a : Appends sink) where
    open a use {content, written, left, appended, is_part, whole}

    -- The content behind one write of a writer without an error.
    content-write_line :
        (w : Writer sink) (line : Bytes)
        → w.err ≡ none
        → content (write_line sink w line).w ≡ content w.w ++ written w.w line
    content-write_line w line h =
        ap (λ (v : Writer sink). content v.w) (write_line_ready w line h) ∙ appended w.w line

    written_whole :
        (w : Writer sink) (line : Bytes)
        → (sink.write_string w.w line).1 ≡ none
        → written w.w line ≡ line
    written_whole w line h =
        sym (append-nil _)
        ∙ ap (λ t. written w.w line ++ t) (sym (whole w.w line h))
        ∙ is_part w.w line

    Outcome-cons :
        (line : Bytes) (lines : List Bytes) (added : Bytes) (err : Option sink.Fault)
        → Outcome lines added err
        → Outcome (line ∷ lines) (line ++ added) err
    Outcome-cons line lines added err o = record {
      complete = line ∷ o.complete;
      partial = o.partial;
      unwritten = o.unwritten;
      lost = o.lost;
      added_is =
          ap (λ t. line ++ t) o.added_is ∙ sym (append_assoc line (flatten o.complete) o.partial);
      ending = elim o.ending [
        | inl (e, same, blank) ↦ inl (e, ap (λ ls. line ∷ ls) same, blank)
        | inr (e, same) ↦ inr (e, ap (λ ls. line ∷ ls) same)
      ];
    }

    -- For a destination that appends a part of what it is given, the whole of it where it
    -- reports no error, and a writer without an error: the lines before the first failed write
    -- are appended complete and in order, then at most a part of the line that failed, and
    -- nothing of the later ones; without a failure all lines are.
    pub write_lines-Outcome :
        (w : Writer sink) (lines : List Bytes)
        → w.err ≡ none
        → (added : Bytes) × (content (write_lines w lines).w ≡ content w.w ++ added)
          × Outcome lines added (write_lines w lines).err
    unfolding write_lines
    write_lines-Outcome w [] h = (
      [],
      sym (append-nil _),
      record {
        complete = [];
        partial = [];
        unwritten = [];
        lost = [];
        added_is = refl;
        ending = inl (h, refl, refl);
      },
    )
    write_lines-Outcome w (line ∷ lines) h = elim (Option-cases (sink.write_string w.w line).1) [
      | inl success ↦
          let next = write_line sink w line in
          let clear : next.err ≡ none =
            ap (λ (v : Writer sink). v.err) (write_line_ready w line h) ∙ success in
          let (added, grown, o) = write_lines-Outcome next lines clear in
          (
            line ++ added,
            grown
                ∙ ap (λ t. t ++ added)
                    (content-write_line w line h
                      ∙ ap (λ t. content w.w ++ t) (written_whole w line success))
                ∙ append_assoc (content w.w) line added,
            Outcome-cons line lines added _ o,
          )
      | inr (e, failure) ↦
          let next = write_line sink w line in
          let broken : next.err ≡ some e =
            ap (λ (v : Writer sink). v.err) (write_line_ready w line h) ∙ failure in
          let stays : write_lines next lines ≡ next = write_lines_failed next e lines broken in
          (
            written w.w line,
            ap (λ (v : Writer sink). content v.w) stays ∙ content-write_line w line h,
            record {
              complete = [];
              partial = written w.w line;
              unwritten = left w.w line;
              lost = lines;
              added_is = refl;
              ending = inr (λ f. cc (broken, f), ap (λ t. t ∷ lines) (sym (is_part w.w line)));
            },
          )
    ]
