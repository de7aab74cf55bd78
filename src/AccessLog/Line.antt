-- ===== src/AccessLog/Line.antt =====
-- The layout of a line of `renderEntry` (internal/accesslog/accesslog.go).
use localfront.Base.{
  ℕ, ◌<◌, ◌≡◌, ◌≢◌, refl, inl, inr, List, [], ◌∷◌, ◌++◌, arith, All, All-append, length, Bool-cases,
}
use localfront.Text.{Bytes, codes, split, join}
use localfront.Text.Split.{Lacks, split-join}
use localfront.Num.{ℤ, pos, lt_ℤ}
use localfront.AccessLog.{TimeFormat, Entry, duration_field, entry_fields, render_entry}
use localfront.AccessLog.Encode.{
  Printable, field_or_dash-Printable, status_field-Printable, int_field-Printable,
}

-- The formats of dates, times and seconds write digits, dashes, colons and dots.
pub record IsPrintable (fmt : TimeFormat) : Type 0 where
  pub date : (t : fmt.Time) → Printable (fmt.format_date t)
  pub clock : (t : fmt.Time) → Printable (fmt.format_clock t)
  pub seconds : (d : ℤ) → Printable (fmt.format_seconds d)

Lacks-of_Printable : (b : ℕ) (s : Bytes) → b < 0x20 → Printable s → Lacks b s
Lacks-of_Printable b [] h _ = tt
Lacks-of_Printable b (c ∷ s) h (k, ks) = (omega arith, Lacks-of_Printable b s h ks)

All-Lacks : (b : ℕ) (ss : List Bytes) → b < 0x20 → All Printable ss → All (Lacks b) ss
All-Lacks b [] h _ = tt
All-Lacks b (s ∷ ss) h (k, ks) = (Lacks-of_Printable b s h k, All-Lacks b ss h ks)

join-Lacks :
    (b sep : ℕ) (ss : List Bytes) → sep ≢ b → All (Lacks b) ss → Lacks b (join ss (sep ∷ []))
unfolding join
join-Lacks b sep [] h _ = tt
join-Lacks b sep (s ∷ []) h (k, _) = k
join-Lacks b sep (s ∷ t ∷ ss) h (k, ks) =
    All-append (λ c. c ≢ b) s (sep ∷ join (t ∷ ss) (sep ∷ [])) k (h, join-Lacks b sep (t ∷ ss) h ks)

module _ (fmt : TimeFormat) (ok : IsPrintable fmt) where
  duration_field-Printable : (d : ℤ) → Printable (duration_field fmt d)
  unfolding duration_field
  duration_field-Printable d = elim (Bool-cases (lt_ℤ d (pos 0))) [
    | inl e ↦ rw e (ok.seconds (pos 0))
    | inr e ↦ rw e (ok.seconds d)
  ]

  entry_fields-Printable : (e : Entry fmt) → All Printable (entry_fields fmt e)
  unfolding entry_fields
  entry_fields-Printable e = search (
    ok.date, ok.clock, field_or_dash-Printable, int_field-Printable, status_field-Printable,
    duration_field-Printable,
  )

  -- If the formats of dates, clock times and seconds write no white space or control bytes, a
  -- rendered entry is one line that ends in its only newline and splits at the tabs into its
  -- 33 columns, whatever bytes the request put into them.
  pub split-render_entry :
      (e : Entry fmt)
      → (line : Bytes) × (render_entry fmt e ≡ line ++ codes "\n")
        × (split line b'\t' ≡ entry_fields fmt e)
        × Lacks b'\n' line
        × (length (split line b'\t') ≡ 33)
  unfolding render_entry
  split-render_entry e =
      let printable = entry_fields-Printable e in
      let parts =
        split-join (entry_fields fmt e) b'\t' (unfold entry_fields in cc)
          (All-Lacks b'\t' _ (omega arith) printable) in
      (
        join (entry_fields fmt e) (codes "\t"),
        refl,
        parts,
        join-Lacks b'\n' b'\t' (entry_fields fmt e) (omega arith)
            (All-Lacks b'\n' _ (omega arith) printable),
        rw parts (unfold entry_fields in refl),
      )
