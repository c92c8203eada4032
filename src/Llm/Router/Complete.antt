-- ===== src/Llm/Router/Complete.antt =====
-- Which link of src/llm/llm.router.ts answers a completion, and what is said when none does.
use docent.Base.{
  ◌≡◌, refl, ◌↔◌, inl, inr, List, [], ◌∷◌, ◌++◌, append-nil, append_assoc, Text, codes, Result, ok,
  err, Result-cases,
}
use docent.Errors.{Thrown, new_error}
use docent.Llm.Types.{CompletionRequest, CompletionResult}
use docent.Llm.Router.{reason_for, failure_of, every_failed, RoutedLink, complete_loop, complete}

-- `primary` is the reason exactly when nothing failed before.
reason_for-primary :
    (failures : List Text) → (failures ≡ []) ↔ (reason_for failures ≡ codes "primary")
unfolding reason_for
reason_for-primary [] = (λ _. refl, λ _. refl)
reason_for-primary (failure ∷ []) = (λ h. absurd (cc), λ h. absurd (cc))
reason_for-primary (failure ∷ next ∷ failures) =
    (λ h. absurd (cc), λ h. absurd (nonempty ((reason_for-primary (next ∷ failures)).1 h)))
  where
    nonempty : ¬ ((next ∷ failures) ≡ [])
    nonempty h = cc

module _ (Number : Type 0) (request : CompletionRequest) where
  -- The links all throw, and these are their descriptions in order.
  abbrev AllThrow : List (RoutedLink Number) → List Text → Type 0
  AllThrow [] [] = Unit
  AllThrow [] (_ ∷ _) = ⊥
  AllThrow (_ ∷ _) [] = ⊥
  AllThrow (link ∷ links) (failure ∷ failures) =
      ((error : Thrown) × (link.provider.complete request ≡ err error)
        × (failure ≡ failure_of link.chain error))
      × AllThrow links failures

  -- An answer is the first link's that does not throw, with the reason `primary` exactly for the
  -- head of the chain. An error says that all links threw, and what.
  abbrev pub IsAnswer : List (RoutedLink Number) → Result Thrown (CompletionResult Number) → Type 0
  IsAnswer links (ok result) =
      (before after : List (RoutedLink Number)) × (link : RoutedLink Number) × (failures : List
        Text)
      × (completion : CompletionResult Number) × (links ≡ before ++ (link ∷ after))
      × AllThrow before failures
      × (link.provider.complete request ≡ ok completion)
      × (result ≡ record completion { model_reason = reason_for failures })
      × ((failures ≡ []) ↔ (result.model_reason ≡ codes "primary"))
  IsAnswer links (err error) =
      (failures : List Text) × AllThrow links failures × (error ≡ new_error (every_failed failures))

  AllThrow-append :
      (links : List (RoutedLink Number)) (failures : List Text) (link : RoutedLink Number)
      (error : Thrown)
      → AllThrow links failures
      → link.provider.complete request ≡ err error
      → AllThrow (links ++ (link ∷ [])) (failures ++ (failure_of link.chain error ∷ []))
  AllThrow-append [] [] link error all h = ((error, h, refl), tt)
  AllThrow-append [] (_ ∷ _) link error all h = absurd all
  AllThrow-append (_ ∷ _) [] link error all h = absurd all
  AllThrow-append (_ ∷ links) (_ ∷ failures) link error (first, all) h =
      (first, AllThrow-append links failures link error all h)

  complete_loop-IsAnswer :
      (before : List (RoutedLink Number)) (failures : List Text) (links : List (RoutedLink Number))
      → AllThrow before failures
      → IsAnswer (before ++ links) (complete_loop Number request failures links)
  unfolding complete_loop
  complete_loop-IsAnswer before failures [] all = (failures, rw append-nil all, refl)
  complete_loop-IsAnswer before failures (link ∷ links) all =
      elim (Result-cases (link.provider.complete request)) [
        | inl (completion, e) ↦ rw e (
          before,
          links,
          link,
          failures,
          completion,
          refl,
          all,
          e,
          refl,
          reason_for-primary failures,
        )
        | inr (error, e) ↦ rw e (
            rw (append_assoc before (link ∷ []) links) at (
              complete_loop-IsAnswer (before ++ (link ∷ []))
                (failures ++ (failure_of link.chain error ∷ [])) links
                (AllThrow-append before failures link error all e)))
      ]

  -- A completion of a chain is the answer of its first link that does not throw, as that link gave
  -- it but for the reason, which is `primary` exactly if no link threw before. It is an error only
  -- if every link threw, and names all their errors in order.
  pub complete-IsAnswer :
      (links : List (RoutedLink Number)) → IsAnswer links (complete Number links request)
  unfolding complete
  complete-IsAnswer links = complete_loop-IsAnswer [] [] links tt
