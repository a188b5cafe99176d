-- ===== src/Api/Errors.antt =====
-- Which errors a request ends with, and what an aborted lookup makes of them.
use modelshelf.Common.{
  ℕ, ◌==◌, String, true, false, Option, none, some, ◌≡◌, ◌≢◌, ◌⊎◌, inl, inr, refl, ap, sym, ◌∙◌,
  arith, truthy, ◌&◌, show, Bool-cases, eq_iff,
}
use modelshelf.Common.Scan.{first}
use modelshelf.Api.{
  is_abort_error, other_error, other_value, Json, Cause, dom_exception, Thrown, rethrown, api_error,
  Outcome, returned, thrown, Response, detail_of, reason_of, api,
}

pub truthy-reason_of : (detail status_text : String) → truthy (reason_of detail status_text) ≡ true
unfolding reason_of
truthy-reason_of detail status_text = elim (Bool-cases (truthy detail)) [
  | inl given ↦ rw given given
  | inr empty ↦ elim (Bool-cases (truthy status_text)) [
    | inl named ↦ rw empty (rw named named)
    | inr unnamed ↦ rw empty (rw unnamed refl)
  ]
]

pub Outcome-cases {ℓ} :
    {E A : Type ℓ} (o : Outcome E A) → ((a : A) × (o ≡ returned a)) ⊎ ((e : E) × (o ≡ thrown e))
Outcome-cases (returned a) = inl (a, refl)
Outcome-cases (thrown e) = inr (e, refl)

is_abort_error-rethrown :
    (c : Cause)
    → is_abort_error (rethrown c) ≡ true
    → (m : String) × (c ≡ dom_exception "AbortError" m)
unfolding is_abort_error
is_abort_error-rethrown (dom_exception name m) a = (m, ground (arith, eq_iff name "AbortError"))
is_abort_error-rethrown (other_error m) a = ground arith
is_abort_error-rethrown (other_value m) a = ground arith

module _ (parse : String → Option Json) (stringify : Json → String) where
  -- The reply whose status says no, with the text that was read of its body.
  pub Refusal : Outcome Cause Response → Response → String → Type 0
  Refusal fetched r raw = (fetched ≡ returned r) × (r.ok ≡ false) × (r.text ≡ returned raw)

  pub Body : Response → Option Json → Type 0
  Body r v =
      ((r.status ≡ 204) × (v ≡ none))
      ⊎ ((r.status ≢ 204) × (j : Json) × (r.json ≡ returned j) × (v ≡ some j))

  -- A request ends with a value exactly for a reply whose status says so, and the value is the JSON
  -- of its body, or undefined for the status 204.
  pub api-returned :
      (method path : String) (fetched : Outcome Cause Response) (v : Option Json)
      → (api parse stringify method path fetched ≡ returned v
          → (r : Response) × (fetched ≡ returned r) × (r.ok ≡ true) × Body r v)
        × ((r : Response)
            → fetched ≡ returned r
            → r.ok ≡ true
            → Body r v
            → api parse stringify method path fetched ≡ returned v)
  unfolding api Body
  api-returned method path (thrown c) v = (λ e. ground arith, λ r e. ground arith)
  api-returned method path (returned r) v = (
    λ e. elim (Bool-cases r.ok) [
      | inl fine ↦ elim (Bool-cases (r.status == 204)) [
        | inl empty ↦ (r, refl, fine, inl (ground arith))
        | inr full ↦ elim (Outcome-cases r.json) [
          | inl (j, read) ↦ (r, refl, fine, inr (ground arith, j, read, ground arith))
          | inr (c, failing) ↦ ground arith
        ]
      ]
      | inr refused_status ↦ ground arith
    ],
    λ x same fine body. elim body [
      | inl (empty, nothing) ↦ ground arith
      | inr (full, j, read, value) ↦ ground arith
    ],
  )

  -- An error with a status is that of a reply whose status says no and whose body was read: it
  -- carries this status, and its message names the request, the status and a reason of at most 4,000
  -- characters that is not empty.
  pub api-api_error :
      (method path : String) (fetched : Outcome Cause Response) (message : String) (status : ℕ)
      → api parse stringify method path fetched ≡ thrown (api_error message status)
      → (r : Response) × (raw : String) × Refusal fetched r raw
        × (status ≡ r.status)
        × (let reason = reason_of (detail_of parse stringify raw) r.status_text in
            (truthy reason ≡ true)
            × (message
                ≡ (method & " " & path)
                  & " returned HTTP "
                  & show r.status
                  & ": "
                  & first 4000 reason))
  unfolding api Refusal
  api-api_error method path (thrown c) message status e = ground arith
  api-api_error method path (returned r) message status e = elim (Bool-cases r.ok) [
    | inl fine ↦ elim (Bool-cases (r.status == 204)) [
      | inl empty ↦ ground arith
      | inr full ↦ elim (Outcome-cases r.json) [
        | inl (j, read) ↦ ground arith
        | inr (c, failing) ↦ ground arith
      ]
    ]
    | inr bad ↦ elim (Outcome-cases r.text) [
      | inl (raw, read) ↦ (
        r,
        raw,
        (refl, bad, read),
        ground arith,
        (truthy-reason_of (detail_of parse stringify raw) r.status_text, ground arith),
      )
      | inr (c, failing) ↦ ground arith
    ]
  ]

  -- An abort is known as one only if it stopped the fetch or the reading of an error's body.
  pub api-is_abort_error :
      (method path : String) (fetched : Outcome Cause Response) (t : Thrown)
      → api parse stringify method path fetched ≡ thrown t
      → is_abort_error t ≡ true
      → (message : String) × ((fetched ≡ thrown (dom_exception "AbortError" message))
          ⊎ ((r : Response) × (fetched ≡ returned r)
              × (r.ok ≡ false)
              × (r.text ≡ thrown (dom_exception "AbortError" message))))
  unfolding api is_abort_error
  api-is_abort_error method path (thrown (dom_exception name m)) t e a =
      (m, inl (ground (arith, eq_iff name "AbortError")))
  api-is_abort_error method path (thrown (other_error m)) t e a = ground arith
  api-is_abort_error method path (thrown (other_value m)) t e a = ground arith
  api-is_abort_error method path (returned r) t e a = elim (Bool-cases r.ok) [
    | inl fine ↦ elim (Bool-cases (r.status == 204)) [
      | inl empty ↦ ground arith
      | inr full ↦ elim (Outcome-cases r.json) [
        | inl (j, read) ↦ ground arith
        | inr (c, failing) ↦ ground arith
      ]
    ]
    | inr bad ↦ elim (Outcome-cases r.text) [
      | inl (raw, read) ↦ ground arith
      | inr (c, failing) ↦
          let t_is : t ≡ rethrown c = ground arith in
          let (m, c_is) = is_abort_error-rethrown c (ap is_abort_error (sym t_is) ∙ a) in
          (m, inr (r, refl, bad, failing ∙ ap thrown c_is))
    ]
  ]
