-- ===== src/Error.antt =====
-- Go's `error` values and the pair of a result and an error; a panic stands among them. A formatted message
-- is kept as its format and its arguments; `%w` is the last argument where there is one.
use contrib_filteredapiexpor.Prelude.{
  String, Bool, true, false, Option, none, some, List, ◌≡◌, refl, ◌⊎◌, inl, inr,
}

pub data Error : Type 0 where
  -- An error of the API machinery, with what `apierrors.IsNotFound` says of it.
  api : (not_found : Bool) → (message : String) → Error
  -- fmt.Errorf(format, args...)
  errorf : (format : String) → (args : List String) → Error
  -- fmt.Errorf(format, args..., err), the last verb being %w
  wrap : (format : String) → (args : List String) → Error → Error
  -- kubeadmission.NewForbidden(a, err)
  forbidden : Error → Error
  -- No error value: the call panics with this message, and the program ends.
  panicked : (message : String) → Error

-- apierrors.IsNotFound, which looks through %w; a Forbidden status is another status.
unfoldable pub is_not_found : Error → Bool
is_not_found (api not_found message) = not_found
is_not_found (errorf format args) = false
is_not_found (wrap format args e) = is_not_found e
is_not_found (forbidden e) = false
is_not_found (panicked message) = false

-- The call did not return.
unfoldable pub is_panic : Error → Bool
is_panic (api not_found message) = false
is_panic (errorf format args) = false
is_panic (wrap format args e) = false
is_panic (forbidden e) = false
is_panic (panicked message) = true

unfoldable pub panics : Option Error → Bool
panics none = false
panics (some e) = is_panic e

-- `(value, nil)` or `(_, err)`
pub data Result {ℓ} (A : Type ℓ) : Type ℓ where
  ok : A → Result A
  err : Error → Result A

pub Result-cases {ℓ} :
    {A : Type ℓ} (r : Result A) → ((a : A) × (r ≡ ok a)) ⊎ ((e : Error) × (r ≡ err e))
Result-cases (ok a) = inl (a, refl)
Result-cases (err e) = inr (e, refl)
