-- ===== src/DataPlane/Access/Laws.antt =====
-- The access recorder (internal/dataplane/access.go) over a sequence of calls.
use localfront.Base.{
  ℕ, ◌+◌, ◌≡◌, refl, ap, sym, true, Bool, List, [], ◌∷◌, some, arith, subst, if◌then◌else◌,
}
use localfront.Num.{ℤ, pos}
use localfront.Http.{Header}
use localfront.Http.Request.{Request}
use localfront.AccessLog.{TimeFormat}
use localfront.DataPlane.Access.{
  Std, AccessRecorder, new_access_recorder, write_header, write_body, first_at,
  estimate_response_header_bytes,
}

module _ (fmt : TimeFormat) (std : Std fmt) where
  open fmt use {Time}

  -- A call of the response writer, with the time at which it is made.
  pub data Call : Type 0 where
    header_call : ℤ → Time → Call
    body_call : ℕ → Time → Call

  abbrev pub call_status : Call → ℤ
  call_status (header_call status now) = status
  call_status (body_call n now) = pos 200

  abbrev pub call_time : Call → Time
  call_time (header_call status now) = now
  call_time (body_call n now) = now

  abbrev pub call_bytes : Call → ℕ
  call_bytes (header_call status now) = 0
  call_bytes (body_call n now) = n

  abbrev pub total_bytes : List Call → ℕ
  total_bytes [] = 0
  total_bytes (c ∷ cs) = call_bytes c + total_bytes cs

  unfoldable pub record_call : AccessRecorder fmt std → Call → AccessRecorder fmt std
  record_call rec (header_call status now) = write_header fmt std rec status now
  record_call rec (body_call n now) = write_body fmt std rec n now

  unfoldable pub record_calls : AccessRecorder fmt std → List Call → AccessRecorder fmt std
  record_calls rec [] = rec
  record_calls rec (c ∷ cs) = record_calls (record_call rec c) cs

  -- The recorder has the status, the size of the header block and the time of the first byte, and
  -- counts `n` body bytes.
  pub record Recorded (rec : AccessRecorder fmt std) (status : ℤ) (size : ℕ) (at : Time) (n : ℕ)
      : Type 0 where
    pub begun : rec.wrote_header ≡ true
    pub status_is : rec.status ≡ status
    pub size_is : rec.header_bytes ≡ size
    pub first_is : rec.first_byte_at ≡ some at
    pub bytes_are : rec.body_bytes ≡ n

  taken : (b : Bool) (x y : AccessRecorder fmt std) → b ≡ true → (if b then x else y) ≡ x
  taken b x y e = rw e

  write_header-Recorded :
      (rec : AccessRecorder fmt std) (s status : ℤ) (size n : ℕ) (now at : Time)
      → Recorded rec status size at n
      → Recorded (write_header fmt std rec s now) status size at n
  unfolding write_header
  write_header-Recorded rec s status size n now at h =
      subst (λ q. Recorded q status size at n) (sym (taken _ rec _ h.begun)) h

  grown-Recorded :
      (rec : AccessRecorder fmt std) (k : ℕ) (status : ℤ) (size n : ℕ) (now at : Time)
      → Recorded rec status size at n
      → Recorded
          (record rec {
            first_byte_at = first_at fmt std rec.first_byte_at now;
            body_bytes = rec.body_bytes + k;
          })
          status
          size
          at
          (n + k)
  grown-Recorded rec k status size n now at h = record {
    begun = h.begun;
    status_is = h.status_is;
    size_is = h.size_is;
    first_is = ap (λ o. first_at fmt std o now) h.first_is;
    bytes_are = ap (λ b. b + k) h.bytes_are;
  }

  record_call-Recorded :
      (rec : AccessRecorder fmt std) (c : Call) (status : ℤ) (size n : ℕ) (at : Time)
      → Recorded rec status size at n
      → Recorded (record_call rec c) status size at (n + call_bytes c)
  unfolding record_call write_body
  record_call-Recorded rec (header_call s now) status size n at h =
      subst (Recorded _ status size at) (omega arith)
        (write_header-Recorded rec s status size n now at h)
  record_call-Recorded rec (body_call k now) status size n at h =
      grown-Recorded _ k status size n now at
        (write_header-Recorded rec (pos 200) status size n now at h)

  record_calls-Recorded :
      (cs : List Call) (rec : AccessRecorder fmt std) (status : ℤ) (size n : ℕ) (at : Time)
      → Recorded rec status size at n
      → Recorded (record_calls rec cs) status size at (n + total_bytes cs)
  unfolding record_calls
  record_calls-Recorded [] rec status size n at h =
      subst (Recorded rec status size at) (omega arith) h
  record_calls-Recorded (c ∷ cs) rec status size n at h =
      subst (Recorded _ status size at) (omega arith) (
        record_calls-Recorded cs (record_call rec c) status size (n + call_bytes c) at
          (record_call-Recorded rec c status size n at h))

  first_call-Recorded :
      (header : Header) (start : Time) (r : Request) (c : Call)
      → Recorded
          (record_call (new_access_recorder fmt std header start r) c)
          (call_status c)
          (estimate_response_header_bytes fmt std (call_status c) r.proto header)
          (call_time c)
          (call_bytes c)
  unfolding record_call new_access_recorder write_header write_body
  first_call-Recorded header start r (header_call s now) = record {
    begun = refl;
    status_is = refl;
    size_is = refl;
    first_is = refl;
    bytes_are = refl;
  }
  first_call-Recorded header start r (body_call k now) = record {
    begun = refl;
    status_is = refl;
    size_is = refl;
    first_is = refl;
    bytes_are = omega arith;
  }

  -- Behind the first call and any further calls of WriteHeader and Write, a new access
  -- recorder holds the status of the first call (200 for a Write), the estimated size of the
  -- header block for that status, the time of the first call as that of the first byte, and
  -- the sum of the bytes of all Writes.
  pub new_access_recorder-Recorded :
      (header : Header) (start : Time) (r : Request) (c : Call) (cs : List Call)
      → Recorded
          (record_calls (new_access_recorder fmt std header start r) (c ∷ cs))
          (call_status c)
          (estimate_response_header_bytes fmt std (call_status c) r.proto header)
          (call_time c)
          (total_bytes (c ∷ cs))
  unfolding record_calls
  new_access_recorder-Recorded header start r c cs =
      record_calls-Recorded cs _ (call_status c) _ (call_bytes c) (call_time c)
        (first_call-Recorded header start r c)
