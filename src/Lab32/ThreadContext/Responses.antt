-- ===== src/Lab32/ThreadContext/Responses.antt =====
-- How readResponse reads.
use operating_systems_labs.Base.{
  ◌≡◌, refl, ◌≢◌, inl, inr, true, false, none, some, List, [], ◌∷◌, ◌++◌, Bytes, ℤ, pos, leb_ℤ, In,
  Bool-cases, All, subst, Option, arith, if◌then◌else◌,
}
use operating_systems_labs.Lab32.Constants.{correct_code}
use operating_systems_labs.Lab32.ThreadContext.{
  Read, byte_count, read_bytes, Call, read_socket, after_read_call, end_of_response, ends_with,
  read_response,
}

-- A `read` that ends the loop: the end of the stream or a failure.
abbrev Stops : Read → Type 0
Stops r = leb_ℤ (byte_count r) (pos 0) ≡ true

step_stop :
    (fd : ℤ) (r : Read) (reads : List Read) (response : Bytes)
    → Stops r
    → read_response fd (r ∷ reads) response ≡ some (correct_code, response, read_socket fd ∷ [])
unfolding read_response
step_stop fd r reads response h = ground arith

step_chunk :
    (fd : ℤ) (r : Read) (reads : List Read) (response : Bytes)
    → leb_ℤ (byte_count r) (pos 0) ≡ false
    → read_response fd (r ∷ reads) response
      ≡ after_read_call fd (
          if ends_with (response ++ read_bytes r) end_of_response
          then some (correct_code, response ++ read_bytes r, [])
          else read_response fd reads (response ++ read_bytes r))
unfolding read_response
step_chunk fd r reads response h = ground arith

after_read_call-none :
    (fd : ℤ) (o : Option (ℤ × Bytes × List Call)) → o ≢ none → after_read_call fd o ≢ none
after_read_call-none fd none h = absurd (h refl)
after_read_call-none fd (some x) h = λ e. cc

-- readResponse returns once a `read` has met the end of the stream or has failed.
pub read_response-returns :
    (fd : ℤ) (reads : List Read) (response : Bytes) (stop : Read)
    → In stop reads
    → leb_ℤ (byte_count stop) (pos 0) ≡ true
    → read_response fd reads response ≢ none
read_response-returns fd [] response stop at h = elim at [ ]
read_response-returns fd (r ∷ reads) response stop at h =
    elim (Bool-cases (leb_ℤ (byte_count r) (pos 0))) [
      | inl e ↦ rw (step_stop fd r reads response e) (λ eq. cc)
      | inr e ↦ elim at [
        | inl here ↦ absurd (cc)
        | inr later ↦
            let ih : read_response fd reads (response ++ read_bytes r) ≢ none =
              read_response-returns fd reads (response ++ read_bytes r) stop later h in
            rw (step_chunk fd r reads response e)
              (elim (Bool-cases (ends_with (response ++ read_bytes r) end_of_response)) [
                | inl m ↦ rw m (λ eq. cc)
                | inr m ↦ rw m (after_read_call-none fd _ ih)
              ])
      ]
    ]

-- Where there is a result, its code is CORRECT_CODE and all its calls are reads from the socket.
abbrev OnlyReads : ℤ → Option (ℤ × Bytes × List Call) → Type 0
OnlyReads fd none = Unit
OnlyReads fd (some result) =
    (result.0 ≡ correct_code) × All (λ call. call ≡ read_socket fd) result.2

OnlyReads-after_read_call :
    (fd : ℤ) (o : Option (ℤ × Bytes × List Call))
    → OnlyReads fd o
    → OnlyReads fd (after_read_call fd o)
OnlyReads-after_read_call fd none h = tt
OnlyReads-after_read_call fd (some result) h = (h.0, (refl, h.1))

OnlyReads-read_response :
    (fd : ℤ) (reads : List Read) (response : Bytes) → OnlyReads fd (read_response fd reads response)
unfolding read_response
OnlyReads-read_response fd [] response = tt
OnlyReads-read_response fd (r ∷ reads) response = elim (Bool-cases (leb_ℤ (byte_count r) (pos 0))) [
  | inl e ↦ rw (step_stop fd r reads response e) (refl, (refl, tt))
  | inr e ↦ rw (step_chunk fd r reads response e) (
      OnlyReads-after_read_call fd _
        (elim (Bool-cases (ends_with (response ++ read_bytes r) end_of_response)) [
          | inl m ↦ rw m (refl, tt)
          | inr m ↦ rw m (OnlyReads-read_response fd reads (response ++ read_bytes r))
        ]))
]

-- readResponse never returns ERROR_CODE and never closes the socket itself, since its branch for a
-- failed `read` stands inside the loop that such a `read` has ended: all its calls are reads from it.
pub read_response_correct :
    (fd : ℤ) (reads : List Read) (response : Bytes) (result : ℤ × Bytes × List Call)
    → read_response fd reads response ≡ some result
    → (result.0 ≡ correct_code) × All (λ call. call ≡ read_socket fd) result.2
read_response_correct fd reads response result h =
    subst (OnlyReads fd) h (OnlyReads-read_response fd reads response)
