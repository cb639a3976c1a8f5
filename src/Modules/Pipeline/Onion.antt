-- ===== src/Modules/Pipeline/Onion.antt =====
-- `Pipeline::handle` against the nesting of the modules.
use mathlib.Core.List.{reverse, reverse-append}
use modular_rust_reverse_pro.Base.{
  ℕ, suc, ◌+◌, ◌-◌, ◌≤◌, ◌≡◌, refl, ◌∙◌, ap, Option, none, some, List, [], ◌∷◌, ◌++◌, lit, take,
  length, ℤ, arith, inl, inr, Option-cases,
}
use modular_rust_reverse_pro.Http.Request.{HttpRequest}
use modular_rust_reverse_pro.Http.Response.{HttpResponse, error}
use modular_rust_reverse_pro.Modules.Pipeline.{
  Turn, Answer, Module, Pipeline, find_response, run_responses, respond, handle_mods, handle,
}

abbrev IsFrom : ℕ → Option (ℕ × HttpResponse) → Type 0
IsFrom i none = Unit {0}
IsFrom i (some (j, resp)) = i ≤ j

IsFrom-pred : (i : ℕ) (o : Option (ℕ × HttpResponse)) → IsFrom (i + 1) o → IsFrom i o
IsFrom-pred i none h = tt
IsFrom-pred i (some (j, resp)) h = omega arith

module _ {W : Type 0} where
  -- A module is asked first; if it has no response, the modules behind it make one; then the module sees
  -- the response on its way back. The response of nobody is status 500.
  unfoldable pub onion : List (ℤ × Module W) → Turn W → HttpRequest × Answer W
  onion [] t = (
    t.request,
    record { response = error 500 (lit "No handler"); context = t.context; world = t.world },
  )
  onion ((p, m) ∷ ms) t =
      let (t', r) = m.handle t in
      let (q, a) = onion ms t' in
      elim r [
        | none ↦ (q, m.on_response q a)
        | some resp ↦ (
          t'.request,
          m.on_response t'.request
              (record { response = resp; context = t'.context; world = t'.world }),
        )
      ]

  run_responses-append :
      (q : HttpRequest) (xs ys : List (ℤ × Module W)) (a : Answer W)
      → run_responses q (xs ++ ys) a ≡ run_responses q ys (run_responses q xs a)
  unfolding run_responses
  run_responses-append q [] ys a = refl
  run_responses-append q (x ∷ xs) ys a = run_responses-append q xs ys (x.1.on_response q a)

  respond-cons :
      (x : ℤ × Module W) (ms : List (ℤ × Module W)) (t : Turn W) (resp : HttpResponse) (k : ℕ)
      → respond (x ∷ ms) t resp (suc k) ≡ x.1.on_response t.request (respond ms t resp k)
  unfolding respond
  respond-cons x ms t resp k = rw (reverse-append (x ∷ []) (take k ms)) (
      run_responses-append t.request (reverse (take k ms)) (x ∷ []) _
      ∙ unfold run_responses in refl)

  respond-zero :
      (ms : List (ℤ × Module W)) (t : Turn W) (resp : HttpResponse)
      → respond ms t resp 0 ≡ record { response = resp; context = t.context; world = t.world }
  unfolding respond run_responses
  respond-zero ms t resp = refl

  -- The second half of `handle`, where the modules from index `i` are left.
  finish : ℕ → List (ℤ × Module W) → Turn W × Option (ℕ × HttpResponse) → HttpRequest × Answer W
  finish i mods (t, none) = (t.request, respond mods t (error 500 (lit "No handler")) (length mods))
  finish i mods (t, some (j, resp)) = (t.request, respond mods t resp (j + 1 - i))

  find_response-IsFrom :
      (i : ℕ) (ms : List (ℤ × Module W)) (t : Turn W) → IsFrom i (find_response i ms t).1
  unfolding find_response
  find_response-IsFrom i [] t = tt
  find_response-IsFrom i ((p, m) ∷ ms) t = elim (Option-cases (m.handle t).1) [
    | inl e ↦
        rw (e, find_response)
          (IsFrom-pred i (find_response (i + 1) ms (m.handle t).0).1
            (find_response-IsFrom (i + 1) ms (m.handle t).0))
    | inr (resp, e) ↦ rw (e, find_response) (omega arith)
  ]

  finish-cons :
      (i : ℕ) (x : ℤ × Module W) (ms : List (ℤ × Module W)) (f : Turn W × Option (ℕ × HttpResponse))
      → IsFrom (i + 1) f.1
      → finish i (x ∷ ms) f
        ≡ ((finish (i + 1) ms f).0, x.1.on_response (finish (i + 1) ms f).0 (finish (i + 1) ms f).1)
  unfolding finish
  finish-cons i x ms (t, none) h = ap (λ a. (t.request, a)) (respond-cons x ms t _ (length ms))
  finish-cons i x ms (t, some (j, resp)) h =
      let e : j + 1 - i ≡ suc (j + 1 - (i + 1)) = omega arith in
      rw e (ap (λ a. (t.request, a)) (respond-cons x ms t resp (j + 1 - (i + 1))))

  finish-answer :
      (i : ℕ) (x : ℤ × Module W) (ms : List (ℤ × Module W)) (t : Turn W) (resp : HttpResponse)
      → finish i (x ∷ ms) (t, some (i, resp)) ≡ (
        t.request,
        x.1.on_response t.request
            (record { response = resp; context = t.context; world = t.world }),
      )
  unfolding finish
  finish-answer i x ms t resp =
      let e : i + 1 - i ≡ suc 0 = omega arith in
      rw e (
        ap (λ a. (t.request, a))
          (respond-cons x ms t resp 0 ∙ ap (x.1.on_response t.request) (respond-zero ms t resp)))

  finish-find_response :
      (i : ℕ) (ms : List (ℤ × Module W)) (t : Turn W)
      → finish i ms (find_response i ms t) ≡ onion ms t
  unfolding find_response onion
  finish-find_response i [] t = unfold finish respond run_responses in refl
  finish-find_response i ((p, m) ∷ ms) t =
      let t' = (m.handle t).0 in
      elim (Option-cases (m.handle t).1) [
        | inl e ↦
            rw (e, find_response, onion)
              (finish-cons i (p, m) ms (find_response (i + 1) ms t')
                  (find_response-IsFrom (i + 1) ms t')
                ∙ rw (finish-find_response (i + 1) ms t'))
        | inr (resp, e) ↦ rw (e, find_response, onion) (finish-answer i (p, m) ms t' resp)
      ]

handle_mods-eq-finish :
    {W : Type 0} (mods : List (ℤ × Module W)) (t : Turn W)
    → handle_mods mods t ≡ finish 0 mods (find_response 0 mods t)
unfolding handle_mods finish
handle_mods-eq-finish mods t = elim (Option-cases (find_response 0 mods t).1) [
  | inl e ↦ rw (e, handle_mods, finish)
  | inr ((j, resp), e) ↦ let l : j + 1 - 0 ≡ j + 1 = omega arith in rw (e, handle_mods, finish, l)
]

-- `handle` nests the modules: each one sees the request on its way in; the first that has a response ends the
-- way in; and it and all before it, and nobody else, see the response in the reverse order on its way out,
-- with the request as it was at the end of the way in. If nobody answers, the response has status 500.
pub handle-eq-onion : {W R : Type 0} (p : Pipeline W R) (t : Turn W) → handle p t ≡ onion p.mods t
unfolding handle
handle-eq-onion p t = handle_mods-eq-finish p.mods t ∙ finish-find_response 0 p.mods t
