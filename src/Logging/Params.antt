-- ===== src/Logging/Params.antt =====
-- What the logger makes of a call's parameters: src/common/logging/json.logger.ts.
use docent.Base.{
  ◌≡◌, refl, sym, ap, ◌∙◌, inl, inr, Option, none, some, List, [], ◌∷◌, ◌++◌, append-nil,
  append_assoc, Bool-cases, Text,
}
use docent.Logging.{
  Level, Value, undefined, text, primitive, object, ParsedCall, is_stack_format, last_param,
  without_last, non_error_call, parse_non_error_params, context_in, stack_in, popped,
  parse_error_params, params_of, verbose, debug, log, warn, error, fatal,
}

module _ (Rest : Type 0) where
  abbrev as_params : Option Text → List (Value Rest)
  as_params none = []
  as_params (some s) = text s ∷ []

  -- The parameters again, in their order.
  abbrev pub given : ParsedCall Rest → List (Value Rest)
  given call = call.extras ++ (as_params call.stack ++ as_params call.context)

  without_last-append :
      (params : List (Value Rest)) (s : Text)
      → last_param Rest params ≡ text s
      → without_last Rest params ++ (text s ∷ []) ≡ params
  without_last-append [] s h = absurd (cc)
  without_last-append (v ∷ []) s h = cc
  without_last-append (v ∷ w ∷ params) s h =
      ap (λ (vs : List (Value Rest)). v ∷ vs) (without_last-append (w ∷ params) s h)

  context_in-text : (v : Value Rest) (s : Text) → context_in Rest v ≡ some s → v ≡ text s
  context_in-text undefined s h = absurd (cc)
  context_in-text (primitive p) s h = absurd (cc)
  context_in-text (object _ _ _ _) s h = absurd (cc)
  context_in-text (text t) s h = elim (Bool-cases (is_stack_format Rest t)) [
    | inl e ↦ absurd (cc (rw e at h))
    | inr e ↦ cc (rw e at h)
  ]

  stack_in-text : (v : Value Rest) (s : Text) → stack_in Rest v ≡ some s → v ≡ text s
  stack_in-text undefined s h = absurd (cc)
  stack_in-text (primitive p) s h = absurd (cc)
  stack_in-text (object _ _ _ _) s h = absurd (cc)
  stack_in-text (text t) s h = elim (Bool-cases (is_stack_format Rest t)) [
    | inl e ↦ cc (rw e at h)
    | inr e ↦ absurd (cc (rw e at h))
  ]

  popped-given :
      (found : Option Text) (params : List (Value Rest))
      → ((s : Text) → found ≡ some s → last_param Rest params ≡ text s)
      → popped Rest found params ++ as_params found ≡ params
  popped-given none params h = append-nil params
  popped-given (some s) params h = without_last-append params s (h s refl)

  parse_error_params-given :
      (params : List (Value Rest)) → given (parse_error_params Rest params) ≡ params
  unfolding parse_error_params
  parse_error_params-given params =
      let context : Option Text = context_in Rest (last_param Rest params) in
      let rest : List (Value Rest) = popped Rest context params in
      let stack : Option Text = stack_in Rest (last_param Rest rest) in
      sym (append_assoc (popped Rest stack rest) (as_params stack) (as_params context))
      ∙ ap (λ (vs : List (Value Rest)). vs ++ as_params context)
          (popped-given stack rest (λ s h. stack_in-text (last_param Rest rest) s h))
      ∙ popped-given context params (λ s h. context_in-text (last_param Rest params) s h)

  non_error_call-given :
      (v : Value Rest) (params : List (Value Rest))
      → last_param Rest params ≡ v
      → given (non_error_call Rest v params) ≡ params
  non_error_call-given undefined params h = append-nil params
  non_error_call-given (primitive p) params h = append-nil params
  non_error_call-given (object _ _ _ _) params h = append-nil params
  non_error_call-given (text s) params h = without_last-append params s h

  -- A call's parameters are taken apart into extras, stack and context without loss.
  params_of-given :
      (level : Level) (params : List (Value Rest)) → given (params_of Rest level params) ≡ params
  unfolding parse_non_error_params
  params_of-given error params = parse_error_params-given params
  params_of-given verbose params = non_error_call-given (last_param Rest params) params refl
  params_of-given debug params = non_error_call-given (last_param Rest params) params refl
  params_of-given log params = non_error_call-given (last_param Rest params) params refl
  params_of-given warn params = non_error_call-given (last_param Rest params) params refl
  params_of-given fatal params = non_error_call-given (last_param Rest params) params refl
