-- ===== src/Api/Handlers.antt =====
-- api/exception_handlers.py: the response to an exception that a route raises. Which handler
-- Starlette calls is a parameter.
use stock_trader.Prelude.{
  ℕ, ◌≡◌, refl, sym, subst, ◌||◌, Option, none, some, List, [], ◌∷◌, ◌++◌, map, if◌then◌else◌,
}
use stock_trader.Errors.{
  Message, text, Exception, Class, exception, value_error, no_data_error, validation_error,
  key_error, index_error, zero_division_error, runtime_error, not_implemented_error,
  job_not_found_error, job_already_running_error, range_validation_error, provider_error,
  redis_error, celery_timeout_error, database_error, mro, class_eq, is_instance,
}

-- `create_simple_exception_handler` and `create_formatted_exception_handler`, with their arguments.
-- A template is its text before `{exception!s}`.
pub data Handler : Type 0 where
  simple : ℕ → Handler
  formatted : ℕ → Message → Handler

-- A `JSONResponse` with its `detail`.
pub record Response : Type 0 where
  pub status_code : ℕ
  pub detail : Message

unfoldable pub handle : Handler → Exception → Response
handle (simple status_code) e = record { status_code = status_code; detail = e.message }
handle (formatted status_code template) e = record {
  status_code = status_code;
  detail = template ++ e.message;
}

abbrev pub simple_exception_handlers : List (Class × ℕ)
simple_exception_handlers =
    (value_error, 400)
    ∷ (job_not_found_error, 404)
    ∷ (job_already_running_error, 409)
    ∷ (range_validation_error, 400)
    ∷ (celery_timeout_error, 504)
    ∷ []

abbrev pub traceback_exception_handlers : List (Class × ℕ)
traceback_exception_handlers = (not_implemented_error, 501) ∷ []

abbrev pub formatted_exception_handlers : List (Class × ℕ × Message)
formatted_exception_handlers = (key_error, 404, text "A required key is missing: " ∷ []) ∷ []

abbrev as_simple : Class × ℕ → Class × Handler
as_simple (cls, status_code) = (cls, simple status_code)

abbrev as_formatted : Class × ℕ × Message → Class × Handler
as_formatted (cls, status_code, template) = (cls, formatted status_code template)

-- `add_exception_handlers`: the handlers in the order in which they are added.
unfoldable pub add_exception_handlers : List (Class × Handler)
add_exception_handlers =
    (exception, formatted 500 (text "An unexpected error occurred: " ∷ []))
      ∷ map as_simple simple_exception_handlers
    ++ map as_simple traceback_exception_handlers
    ++ map as_formatted formatted_exception_handlers

-- The handler that was added last for a class.
abbrev pub handler_of : Class → List (Class × Handler) → Option Handler
handler_of cls [] = none
handler_of cls ((c, h) ∷ rest) = elim (handler_of cls rest) [
  | none ↦ if class_eq c cls then some h else none
  | some later ↦ some later
]

-- The handler of the first class that has one.
abbrev pub first_handled : List Class → List (Class × Handler) → Option Handler
first_handled [] handlers = none
first_handled (c ∷ cs) handlers = elim (handler_of c handlers) [
  | none ↦ first_handled cs handlers
  | some h ↦ some h
]

-- Starlette looks handlers up by the classes of an exception, the most derived first.
pub record WebFramework : Type 0 where
  pub lookup_handler : List (Class × Handler) → Exception → Option Handler
  pub lookup_handler-mro :
      (handlers : List (Class × Handler)) (e : Exception)
      → lookup_handler handlers e ≡ first_handled (mro e.class_of) handlers

abbrev pub unhandled : Response
unhandled = record { status_code = 500; detail = text "Internal Server Error" ∷ [] }

abbrev pub handled : Option Handler → Exception → Response
handled none e = unhandled
handled (some h) e = handle h e

unfoldable pub respond : WebFramework → Exception → Response
respond web e = handled (web.lookup_handler add_exception_handlers e) e

-- The status codes that the handlers are meant to give, by `isinstance`.
abbrev pub meant_status : Exception → ℕ
meant_status e =
    if is_instance e value_error || is_instance e range_validation_error
    then 400
    else if is_instance e job_not_found_error || is_instance e key_error
    then 404
    else if is_instance e job_already_running_error
    then 409
    else if is_instance e celery_timeout_error
    then 504
    else if is_instance e not_implemented_error
    then 501
    else 500

status_by_class :
    (cls : Class) (msg : Message)
    → (handled
        (first_handled (mro cls) add_exception_handlers)
        (record { class_of = cls; message = msg })).status_code
      ≡ meant_status (record { class_of = cls; message = msg })
unfolding add_exception_handlers handle
status_by_class exception msg = refl
status_by_class value_error msg = refl
status_by_class no_data_error msg = refl
status_by_class validation_error msg = refl
status_by_class key_error msg = refl
status_by_class index_error msg = refl
status_by_class runtime_error msg = refl
status_by_class not_implemented_error msg = refl
status_by_class job_not_found_error msg = refl
status_by_class job_already_running_error msg = refl
status_by_class range_validation_error msg = refl
status_by_class provider_error msg = refl
status_by_class redis_error msg = refl
status_by_class celery_timeout_error msg = refl
status_by_class database_error msg = refl
status_by_class zero_division_error msg = refl

-- Every exception that a route raises gets the status code that its classes call for: 400 for a
-- ValueError of any kind and for a RangeValidationError, 404 for a missing job or key, 409 for a job
-- that runs, 504 for a timeout of the worker, 501 for what is not implemented, and 500 for all else.
pub respond-status :
    (web : WebFramework) (e : Exception) → (respond web e).status_code ≡ meant_status e
unfolding respond
respond-status web e =
    subst (λ h. (handled h e).status_code ≡ meant_status e)
      (sym (web.lookup_handler-mro add_exception_handlers e)) (status_by_class e.class_of e.message)
