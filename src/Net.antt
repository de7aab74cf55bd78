-- ===== src/Net.antt =====
-- `net.SplitHostPort` of the Go standard library, and `hostOnly` of
-- internal/dataplane/dataplane.go, which host routing starts with.
use localfront.Base.{
  ℕ, ◌+◌, ◌-◌, Bool, not, ◌||◌, [], ◌∷◌, reverse, Option, none, some, ◌==◌, if◌then◌else◌, any,
  take, drop, length,
}
use localfront.Text.{Bytes, index_byte, to_lower}

abbrev has_byte : ℕ → Bytes → Bool
has_byte b s = any (λ c. c == b) s

-- the index of the last `b`
abbrev pub last_index_byte : Bytes → ℕ → Option ℕ
last_index_byte s b = elim (index_byte (reverse s) b) [
  | none ↦ none
  | some i ↦ some (length s - 1 - i)
]

-- `[host]:port`, with the last colon at `i` and the first `]` at `end`
bracketed : Bytes → ℕ → Option ℕ → Option (Bytes × Bytes)
bracketed s i none = none
bracketed s i (some end) =
    if not (end + 1 == i) || has_byte b'[' (drop 1 s) || has_byte b']' (drop (end + 1) s)
    then none
    else some (take (end - 1) (drop 1 s), drop (i + 1) s)

-- `host:port`
unbracketed : Bytes → ℕ → Option (Bytes × Bytes)
unbracketed s i =
    if has_byte b':' (take i s) || has_byte b'[' s || has_byte b']' s
    then none
    else some (take i s, drop (i + 1) s)

split_at_colon : Bytes → Option ℕ → Option (Bytes × Bytes)
unfolding bracketed unbracketed
split_at_colon s none = none
split_at_colon [] (some i) = none
split_at_colon (c ∷ s) (some i) =
    if c == b'[' then bracketed (c ∷ s) i (index_byte (c ∷ s) b']') else unbracketed (c ∷ s) i

-- `net.SplitHostPort`: `none` is an error.
unfoldable pub split_host_port : Bytes → Option (Bytes × Bytes)
unfolding split_at_colon
split_host_port s = split_at_colon s (last_index_byte s b':')

-- `hostOnly`
unfoldable pub host_only : Bytes → Bytes
host_only hostport = elim (split_host_port hostport) [
  | none ↦ to_lower hostport
  | some (host, port) ↦ to_lower host
]
