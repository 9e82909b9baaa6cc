-- ===== src/Errors/Search.antt =====
-- What the search of errors.As finds: an error whose own layer has the type, also below an
-- application error.
use temporal_mistakes.Base.{
  ◌≡◌, refl, inl, inr, Option, none, some, Bool, true, false, Bool-cases, if◌then◌else◌, arith,
}
use temporal_mistakes.Errors.{
  Err, Errs, node, nil, cons, Layer, layer, url, application, UrlError, ApplicationError,
  first_some, errors_as, errors_as_any, is_url, is_application, application_error,
}

own_layer :
    (p : Layer → Bool) (e x : Err) (o : Option Err)
    → (o ≡ some x → p (layer x) ≡ true)
    → (if p (layer e) then some e else o) ≡ some x
    → p (layer x) ≡ true
own_layer p e x o h k = elim (Bool-cases (p (layer e))) [
  | inl t ↦ grind arith
  | inr f ↦ grind arith
]

either_layer :
    (p : Layer → Bool) (x : Err) (a b : Option Err)
    → (a ≡ some x → p (layer x) ≡ true)
    → (b ≡ some x → p (layer x) ≡ true)
    → first_some a b ≡ some x
    → p (layer x) ≡ true
either_layer p x none b h k e = k e
either_layer p x (some a) b h k e = h e

mutual
  unfolding errors_as

  pub errors_as-layer : (p : Layer → Bool) (e x : Err) → errors_as p e ≡ some x → p (layer x) ≡ true
  errors_as-layer p (node l es) x h =
      own_layer p (node l es) x (errors_as_any p es) (errors_as_any-layer p es x) h

  errors_as_any-layer :
      (p : Layer → Bool) (es : Errs) (x : Err) → errors_as_any p es ≡ some x → p (layer x) ≡ true
  errors_as_any-layer p nil x h = ground arith
  errors_as_any-layer p (cons e es) x h =
      either_layer p x (errors_as p e) (errors_as_any p es) (errors_as-layer p e x)
        (errors_as_any-layer p es x) h

pub first_some-none : (o : Option Err) → first_some o none ≡ o
first_some-none o = ground arith

pub is_url-inv : (l : Layer) → is_url l ≡ true → (d : UrlError) × (l ≡ url d)
is_url-inv l h = ground arith

-- A type other than *temporal.ApplicationError.
abbrev pub SkipsApplication : (Layer → Bool) → Type 0
SkipsApplication p = (l : Layer) → is_application l ≡ true → p l ≡ false

-- Below an application error the same is found.
pub errors_as-application_error :
    (p : Layer → Bool) (a : ApplicationError) (e : Err)
    → SkipsApplication p
    → errors_as p (application_error a e) ≡ errors_as p e
unfolding errors_as
errors_as-application_error p a e h = rw (h (application a) refl) (first_some-none (errors_as p e))
