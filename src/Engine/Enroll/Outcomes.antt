-- ===== src/Engine/Enroll/Outcomes.antt =====
-- What POST /enroll (iris-engine2/src/routes_enroll.cpp) leaves behind, whatever it answers.
use eye_d.Base.{
  ℕ, ◌≡◌, refl, ◌⊎◌, inl, inr, true, false, ◌||◌, Option, none, some, String, arith, if◌then◌else◌,
  is_empty, Bool-cases,
}
use eye_d.Base.Json.{Json, object}
use eye_d.Engine.Reader.{Result, value, failed}
use eye_d.Engine.Gallery.{Matching, add, check_duplicate}
use eye_d.Engine.Smpc2.{Coordination}
use eye_d.Engine.Enroll.{
  Text, World, Context, Reply, Outcome, replied, invalid_json, threw, EnrollRequest, make_error,
  persist, entry_for, store, with_template, on_template, on_image, on_bytes, on_request,
  read_request, post_enroll,
}

-- Nothing was enrolled: no answer, an answer with an error, or one that names a duplicate.
pub data IsRefusal : Outcome → Type 0 where
  by_json : IsRefusal invalid_json
  by_exception : IsRefusal threw
  by_error : (r : Reply) (e : String) → r.error ≡ some e → IsRefusal (replied r)
  by_duplicate : (r : Reply) → r.duplicate.is_duplicate ≡ true → IsRefusal (replied r)

pub record IsSuccess (template_id : Text) (out : Outcome) (reply : Reply) : Type 0 where
  pub answer : out ≡ replied reply
  pub fine : reply.error ≡ none
  pub fresh : reply.duplicate.is_duplicate ≡ false
  pub named : reply.template_id ≡ template_id

module _ {D T S M I B C : Type 0} (w : Matching D T S M) (x : World T I B)
    (lib : Coordination C D T) where
  -- The database was connected, knew the identity, and took the template.
  abbrev pub Persisted : EnrollRequest → Text → T → B → Type 0
  Persisted req template_id t db' =
      (db : B) × (x.is_connected db ≡ true)
      × ((x.ensure_identity db req.identity_id req.identity_name).0 ≡ true)
      × (x.persist_template (x.ensure_identity db req.identity_id req.identity_name).1 template_id
            req.identity_id req.eye_side t req.device_id
          ≡ (true, db'))

  abbrev pub Refused : Context D T S M B C → Outcome × Context D T S M B C → Type 0
  Refused ctx r = IsRefusal r.0 × (r.1.gallery ≡ ctx.gallery) × (r.1.smpc2 ≡ ctx.smpc2)

  abbrev pub Enrolled : Text → Context D T S M B C → Outcome × Context D T S M B C → Type 0
  Enrolled template_id ctx r =
      (req : EnrollRequest) × (t : T) × (reply : Reply) × IsSuccess template_id r.0 reply
      × ((check_duplicate w ctx.gallery t).is_duplicate ≡ false)
      × (r.1.gallery ≡ add w (entry_for w x lib req template_id t) ctx.gallery)
      × Persisted req template_id t r.1.db

  persist-Persisted :
      (req : EnrollRequest) (template_id : Text) (t : T) (db db' : B)
      → persist w x lib req template_id t db ≡ (none, db')
      → Persisted req template_id t db'
  unfolding persist
  persist-Persisted req template_id t db db' e =
      let db₁ = if x.is_connected db then db else x.reconnect db in
      (db₁, ground arith, ground arith, ground arith)

  abbrev Either : Text → Context D T S M B C → Outcome × Context D T S M B C → Type 0
  Either template_id ctx r = Refused ctx r ⊎ Enrolled template_id ctx r

  error_refuses :
      (status : ℕ) (identity_id : Text) (e : String) → IsRefusal (make_error status identity_id e)
  unfolding make_error
  error_refuses status identity_id e = by_error _ e refl

  store_cases :
      (req : EnrollRequest) (template_id : Text) (t : T) (ctx : Context D T S M B C)
      (p : Option (ℕ × String) × B)
      → persist w x lib req template_id t ctx.db ≡ p
      → (check_duplicate w ctx.gallery t).is_duplicate ≡ false
      → Either template_id ctx (store w x lib req template_id t ctx p)
  unfolding store
  store_cases req template_id t ctx (some (status, msg), db) e fresh =
      inl (error_refuses status req.identity_id msg, refl, refl)
  store_cases req template_id t ctx (none, db) e fresh = inr (
    req,
    t,
    _,
    record { answer = refl; fine = refl; fresh = refl; named = refl },
    fresh,
    refl,
    persist-Persisted req template_id t ctx.db db e,
  )

  with_template_cases :
      (req : EnrollRequest) (template_id : Text) (t : T) (ctx : Context D T S M B C)
      → Either template_id ctx (with_template w x lib req template_id t ctx)
  unfolding with_template
  with_template_cases req template_id t ctx =
      elim (Bool-cases (check_duplicate w ctx.gallery t).is_duplicate) [
        | inl d ↦ rw d (inl (by_duplicate _ refl, refl, refl))
        | inr d ↦ rw d (store_cases req template_id t ctx _ refl d)
      ]

  on_template_cases :
      (req : EnrollRequest) (template_id : Text) (ctx : Context D T S M B C) (r : Result T)
      → Either template_id ctx (on_template w x lib req template_id ctx r)
  unfolding on_template
  on_template_cases req template_id ctx (failed e) =
      inl (error_refuses 200 req.identity_id e, refl, refl)
  on_template_cases req template_id ctx (value t) = with_template_cases req template_id t ctx

  on_image_cases :
      (req : EnrollRequest) (template_id : Text) (ctx : Context D T S M B C) (img : Option I)
      → Either template_id ctx (on_image w x lib req template_id ctx img)
  unfolding on_image
  on_image_cases req template_id ctx none = inl (error_refuses 200 req.identity_id _, refl, refl)
  on_image_cases req template_id ctx (some img) = on_template_cases req template_id ctx _

  on_bytes_cases :
      (req : EnrollRequest) (template_id : Text) (ctx : Context D T S M B C) (bytes : Option Text)
      → Either template_id ctx (on_bytes w x lib req template_id ctx bytes)
  unfolding on_bytes
  on_bytes_cases req template_id ctx none = inl (error_refuses 200 req.identity_id _, refl, refl)
  on_bytes_cases req template_id ctx (some bytes) =
      on_image_cases req template_id ctx (x.imdecode bytes)

  on_request_cases :
      (template_id : Text) (ctx : Context D T S M B C) (req : Option EnrollRequest)
      → Either template_id ctx (on_request w x lib template_id ctx req)
  unfolding on_request
  on_request_cases template_id ctx none = inl (by_exception, refl, refl)
  on_request_cases template_id ctx (some req) =
      elim (Bool-cases (is_empty req.identity_id || is_empty req.jpeg_b64)) [
        | inl e ↦ rw e (inl (error_refuses 200 req.identity_id _, refl, refl))
        | inr e ↦ rw e (on_bytes_cases req template_id ctx (x.decode req.jpeg_b64))
      ]

  -- A request to enrol either is refused, by an error, an exception or a duplicate, and then the gallery
  -- and the SMPC2 manager are what they were; or it succeeds, and then no duplicate was found, the
  -- template is in the database, and the gallery has its entry under the new number, whatever the
  -- distribution of the shares came to.
  pub post_enroll_cases :
      (body : Option Json) (template_id : Text) (ctx : Context D T S M B C)
      → Refused ctx (post_enroll w x lib body template_id ctx)
        ⊎ Enrolled template_id ctx (post_enroll w x lib body template_id ctx)
  unfolding post_enroll
  post_enroll_cases none template_id ctx = inl (by_json, refl, refl)
  post_enroll_cases (some (object fs)) template_id ctx =
      on_request_cases template_id ctx (read_request fs)
  post_enroll_cases (some body) template_id ctx = inl (by_exception, refl, refl)
